-- ===== src/Service/Auth.antt =====
-- internal/service/auth.go: `AuthService`. Logging is left out. A second validation result is the
-- input that `Validate` changed in place.
pub mod Laws
pub mod Registration
pub mod Uniqueness
use elysium.Prelude.{
  ℕ, Bool, true, false, not, Option, none, some, List, [], ◌∷◌, Text, lit, ◌==◌, ltb, is_empty,
  if◌then◌else◌,
}
use elysium.Errors.{
  Error, sentinel, wrap, Result, ok, err, unauthorized, invalid_credentials, invalid_input,
  user_not_found,
}
use elysium.World.{Action, ◌>>=◌, ◌>>◌, return, fail, wrapped, attempt, time_now}
use elysium.Domain.Zookie.{Zookie, strong_read}
use elysium.Domain.User.{
  User, CreateUserInput, UpdateUserInput, LoginInput, ListFilter, ListResult, validate,
  validate_login, normalise,
}
use elysium.Domain.Actor.{ContextActivationInput, is_valid}
use elysium.Service.Outside.{Crypto, UserRepository}

-- `bcryptFloor`, and the costs that `New` accepts; it panics on the others.
abbrev pub bcrypt_floor : ℕ
bcrypt_floor = 12

unfoldable pub accepts_cost : ℕ → Bool
accepts_cost cost = not (ltb cost bcrypt_floor)

-- The text that is compared with the password of an unknown user.
abbrev pub dummy_hash : Text
dummy_hash = lit "$2a$12$dummyhashfortimingprotection"

-- The user that `Register` stores.
unfoldable pub new_user : CreateUserInput → Text → Text → ℕ → User
new_user i hash id now = record {
  id = id;
  first_name = i.first_name;
  last_name = i.last_name;
  nickname = i.nickname;
  password_hash = hash;
  email = i.email;
  country = i.country;
  active = true;
  created_at = now;
  updated_at = now;
}

module _ {Db : Type 0} where
  -- `if err := input.Validate(); err != nil`.
  abbrev pub checked : {A : Type 0} → Result A → Action Db A
  checked (ok a) = return a
  checked (err e) = fail e

  module _ (crypto : Crypto Db) (repo : UserRepository Db) where
    -- `Register` for an input that validates.
    unfoldable pub register_valid : ℕ → CreateUserInput → Action Db (User × Zookie)
    register_valid cost i = do
      hash ← wrapped "register: hash password" (crypto.generate i.password cost)
      now ← time_now
      id ← crypto.new_uuid
      zookie ← wrapped "register" (repo.create (new_user i hash id now))
      return (new_user i hash id now, zookie)

    unfoldable pub register : ℕ → CreateUserInput → Action Db (User × Zookie)
    register cost input = do
      i ← wrapped "register" (checked (validate input))
      register_valid cost i

    -- `Login` on what the repository answered.
    unfoldable pub login_found : LoginInput → Result User → Action Db User
    login_found i (err e) = fail (sentinel invalid_credentials)
    login_found i (ok user) =
        if not (crypto.compare user.password_hash i.password)
        then fail (sentinel invalid_credentials)
        else if not user.active
        then fail (sentinel unauthorized)
        else return user

    unfoldable pub login : LoginInput → Action Db User
    login input = do
      i ← wrapped "login" (checked (validate_login input))
      found ← attempt (repo.get_by_email i.email (some strong_read))
      login_found i found

    unfoldable pub get_user : Text → Option Zookie → Action Db User
    get_user id zookie = do
      user ← wrapped "get user" (repo.get_by_id id zookie)
      if not user.active then fail (sentinel user_not_found) else return user

    unfoldable pub update_user : Text → Text → UpdateUserInput → Action Db (User × Zookie)
    update_user caller_id target_id input =
        if not (caller_id == target_id)
        then fail (sentinel unauthorized)
        else wrapped "update user" (repo.update target_id input)

    unfoldable pub delete_user : Text → Text → Action Db Zookie
    delete_user caller_id target_id =
        if not (caller_id == target_id)
        then fail (sentinel unauthorized)
        else wrapped "delete user" (repo.delete target_id)

    unfoldable pub list_users : ListFilter → Option Zookie → Action Db ListResult
    list_users filter zookie = wrapped "list users" (repo.list (normalise filter) zookie)

  unfoldable pub activate_context : Text → ContextActivationInput → Action Db ContextActivationInput
  activate_context caller_id input =
      if not (input.user_id == caller_id)
      then fail (sentinel unauthorized)
      else if not (is_valid input.actor_type)
      then fail (wrap "activate context" (sentinel invalid_input))
      else if is_empty input.actor_id
      then fail (wrap "activate context: actor_id must not be empty" (sentinel invalid_input))
      else return input
