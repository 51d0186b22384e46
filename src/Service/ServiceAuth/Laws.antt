-- ===== src/Service/ServiceAuth/Laws.antt =====
-- internal/service/service_auth.go: what `Login` answers.
use elysium.Prelude.{◌≡◌, true, some, arith}
use elysium.Errors.{ok}
use elysium.World.{World}
use elysium.Domain.Zookie.{strong_read}
use elysium.Domain.ServiceAccount.{ServiceAccount, ServiceLoginInput, validate_login}
use elysium.Service.Outside.{Crypto, ServiceAccountRepository}
use elysium.Service.ServiceAuth.{login, login_found}

module _ {Db : Type 0} (crypto : Crypto Db) (repo : ServiceAccountRepository Db) where
  -- `Login` of a service account succeeds only for the account that the repository answers for the
  -- client id, with a secret that matches its hash, and active.
  pub service_login_sound :
      (i : ServiceLoginInput) (w : World Db) (sa : ServiceAccount)
      → (login crypto repo i w).0 ≡ ok sa
      → ((repo.get_by_client_id i.client_id (some strong_read) w).0 ≡ ok sa)
        × (crypto.compare sa.secret_hash i.client_secret ≡ true)
        × (sa.active ≡ true)
  unfolding login login_found validate_login
  service_login_sound i w sa h = (ground arith, ground arith, ground arith)
