-- ===== src/Service/Auth/Laws.antt =====
-- internal/service/auth.go: what the operations on users accept and refuse.
use elysium.Prelude.{
  ◌≡◌, refl, true, false, Option, some, Text, ◌==◌, eq_iff, if◌then◌else◌, arith, ◌≢◌,
}
use elysium.Errors.{sentinel, Result, ok, err, unauthorized, invalid_credentials}
use elysium.World.{World}
use elysium.Domain.Zookie.{Zookie, strong_read}
use elysium.Domain.User.{User, UpdateUserInput, LoginInput, validate_login}
use elysium.Service.Outside.{Crypto, UserRepository}
use elysium.Service.Auth.{login_found, login, get_user, update_user, delete_user}

eq_of_ne : (s t : Text) → s ≢ t → (s == t) ≡ false
eq_of_ne s t h = ground (arith, eq_iff s t)

module _ {Db : Type 0} (crypto : Crypto Db) (repo : UserRepository Db) where
  -- What `Login` answers for an input that validates, told from the repository's answer alone.
  pub login_verdict : LoginInput → Result User → Result User
  login_verdict i (err e) = err (sentinel invalid_credentials)
  login_verdict i (ok user) =
      if crypto.compare user.password_hash i.password
      then (if user.active then ok user else err (sentinel unauthorized))
      else err (sentinel invalid_credentials)

  -- For an input that validates, `Login` answers what the repository's answer determines: an error of
  -- the repository and a wrong password give the same error, and an inactive account with the right
  -- password another.
  pub login-verdict :
      (input i : LoginInput) (w : World Db)
      → validate_login input ≡ ok i
      → (login crypto repo input w).0
        ≡ login_verdict i (repo.get_by_email i.email (some strong_read) w).0
  unfolding login login_found login_verdict
  login-verdict input i w h = rw h (ground arith)

  -- `UpdateUser` and `DeleteUser` of another user are refused and change nothing.
  pub other_user_refused :
      (caller_id target_id : Text) (input : UpdateUserInput) (w : World Db)
      → caller_id ≢ target_id
      → (update_user crypto repo caller_id target_id input w ≡ (err (sentinel unauthorized), w))
        × (delete_user crypto repo caller_id target_id w ≡ (err (sentinel unauthorized), w))
  unfolding update_user delete_user
  other_user_refused caller_id target_id input w h =
      let other : (caller_id == target_id) ≡ false = eq_of_ne caller_id target_id h in
      (rw other refl, rw other refl)

  -- `GetUser` returns only active users, as the repository holds them.
  pub get_user-active :
      (id : Text) (zookie : Option Zookie) (w : World Db) (user : User)
      → (get_user crypto repo id zookie w).0 ≡ ok user
      → (user.active ≡ true) × ((repo.get_by_id id zookie w).0 ≡ ok user)
  unfolding get_user
  get_user-active id zookie w user h = ground arith
