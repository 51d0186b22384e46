-- ===== src/Service/Outside.antt =====
-- What the services call outside of the modelled code: bcrypt and uuid of third parties, and the
-- storage contracts of internal/repository/interface.go and internal/repository/service_account.go.
use elysium.Prelude.{ℕ, Bool, Option, Text}
use elysium.World.{Action}
use elysium.Domain.Zookie.{Zookie}
use elysium.Domain.User.{User, UpdateUserInput, ListFilter, ListResult}
use elysium.Domain.ServiceAccount.{ServiceAccount}

-- `bcrypt.GenerateFromPassword(password, cost)`, `bcrypt.CompareHashAndPassword(hash, password)`
-- being nil, and `uuid.New().String()`.
pub record Crypto (Db : Type 0) : Type 0 where
  pub generate : Text → ℕ → Action Db Text
  pub compare : Text → Text → Bool
  pub new_uuid : Action Db Text

-- `UserRepository` but `Ping`, which no service calls. A nil zookie is `none`.
pub record UserRepository (Db : Type 0) : Type 0 where
  pub create : User → Action Db Zookie
  pub get_by_id : Text → Option Zookie → Action Db User
  pub get_by_email : Text → Option Zookie → Action Db User
  pub update : Text → UpdateUserInput → Action Db (User × Zookie)
  pub delete : Text → Action Db Zookie
  pub list : ListFilter → Option Zookie → Action Db ListResult

-- `ServiceAccountRepository`.
pub record ServiceAccountRepository (Db : Type 0) : Type 0 where
  pub create_service_account : ServiceAccount → Action Db Zookie
  pub get_by_client_id : Text → Option Zookie → Action Db ServiceAccount
  pub deactivate : Text → Action Db Zookie
