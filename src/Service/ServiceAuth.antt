-- ===== src/Service/ServiceAuth.antt =====
-- internal/service/service_auth.go: `ServiceAuthService`. Logging is left out.
pub mod Laws
use elysium.Prelude.{ℕ, Bool, true, false, not, Option, none, some, Text, if◌then◌else◌}
use elysium.Errors.{Error, sentinel, Result, ok, err, unauthorized, invalid_credentials}
use elysium.World.{Action, ◌>>=◌, ◌>>◌, return, fail, wrapped, attempt, time_now}
use elysium.Domain.Zookie.{Zookie, strong_read}
use elysium.Domain.ServiceAccount.{
  ServiceAccount, CreateServiceAccountInput, ServiceLoginInput, validate, validate_login,
}
use elysium.Service.Outside.{Crypto, ServiceAccountRepository}
use elysium.Service.Auth.{checked}

-- The account that `CreateServiceAccount` stores.
unfoldable pub new_account : CreateServiceAccountInput → Text → Text → ℕ → ServiceAccount
new_account i hash id now = record {
  id = id;
  client_id = i.client_id;
  name = i.name;
  secret_hash = hash;
  actor_type = i.actor_type;
  permissions = i.permissions;
  active = true;
  created_at = now;
  updated_at = now;
}

module _ {Db : Type 0} (crypto : Crypto Db) (repo : ServiceAccountRepository Db) where
  unfoldable pub create_service_account :
      ℕ → CreateServiceAccountInput → Action Db (ServiceAccount × Zookie)
  create_service_account cost input = do
    wrapped "create service account" (checked (validate input))
    hash ← wrapped "create service account: hash secret" (crypto.generate input.client_secret cost)
    now ← time_now
    id ← crypto.new_uuid
    zookie ←
        wrapped "create service account"
          (repo.create_service_account (new_account input hash id now))
    return (new_account input hash id now, zookie)

  -- `Login` on what the repository answered.
  unfoldable pub login_found : ServiceLoginInput → Result ServiceAccount → Action Db ServiceAccount
  login_found i (err e) = fail (sentinel invalid_credentials)
  login_found i (ok sa) =
      if not (crypto.compare sa.secret_hash i.client_secret)
      then fail (sentinel invalid_credentials)
      else if not sa.active
      then fail (sentinel unauthorized)
      else return sa

  unfoldable pub login : ServiceLoginInput → Action Db ServiceAccount
  login input = do
    wrapped "service login" (checked (validate_login input))
    found ← attempt (repo.get_by_client_id input.client_id (some strong_read))
    login_found input found

  unfoldable pub deactivate_service_account : Text → Action Db Zookie
  deactivate_service_account client_id =
      wrapped "deactivate service account" (repo.deactivate client_id)
