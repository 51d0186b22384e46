-- ===== src/Repository/ServiceAccount/Laws.antt =====
-- internal/repository/dgraph/service_account.go, and internal/service/service_auth.go over it: the
-- requests of the repository name a variable that their queries do not declare.
use elysium.Prelude.{◌≡◌, refl, false, [], ◌∷◌, List, String, Option, Text, All, str_eq}
use elysium.Errors.{Error, sentinel, outside, wrap, ok, err, invalid_credentials}
use elysium.Base64.{Base64}
use elysium.Dgraph.{Dgraph}
use elysium.Dgraph.Laws.{IsDgraph}
use elysium.Dgraph.Upserts.{Upserts, IsUpserts}
use elysium.World.{World}
use elysium.Domain.Zookie.{Zookie}
use elysium.Domain.ServiceAccount.{ServiceAccount, ServiceLoginInput, validate_login}
use elysium.Service.Outside.{Crypto}
use elysium.Service.ServiceAuth.{login, login_found}
use elysium.Repository.ServiceAccount.{
  client_value, create_service_account, get_by_client_id, deactivate, service_account_repository,
}

abbrev refused : String → Error
refused step = wrap step (outside "dgraph query variables")

module _ {Db : Type 0} ⦃dg : Dgraph Db⦄ ⦃up : Upserts Db⦄ ⦃b : Base64⦄ (laws : IsDgraph dg)
    (ups : IsUpserts laws up) where
  client_value-refused :
      (step : String) (declared : List String) (client_id : Text) (w : World Db)
      → All (λ d. str_eq d "clientID" ≡ false) declared
      → client_value step declared client_id w ≡ (err (refused step), w)
  unfolding client_value
  client_value-refused step declared client_id w h =
      rw (ups.undeclared_refused declared "clientID" client_id "$clientID" h) refl

  -- If Dgraph refuses a request that passes a variable which its query does not declare, no operation
  -- of the repository succeeds, and none writes.
  pub requests_refused :
      (sa : ServiceAccount) (client_id : Text) (zookie : Option Zookie) (w : World Db)
      → (create_service_account sa w ≡ (err (refused "dgraph: create service account"), w))
        × (get_by_client_id client_id zookie w ≡ (err (refused "dgraph: get service account"), w))
        × (deactivate client_id w ≡ (err (refused "dgraph: deactivate lookup"), w))
  unfolding create_service_account get_by_client_id deactivate
  requests_refused sa client_id zookie w = (
    rw (client_value-refused "dgraph: create service account" [] sa.client_id w tt) refl,
    rw
        (client_value-refused "dgraph: get service account" ("$clientID" ∷ []) client_id w
          (refl, tt))
        refl,
    rw (client_value-refused "dgraph: deactivate lookup" ("$clientID" ∷ []) client_id w (refl, tt))
        refl,
  )

  -- If Dgraph refuses such a request, `Login` over this repository answers every valid input with
  -- invalid credentials.
  pub service_login_refused :
      (crypto : Crypto Db) (input : ServiceLoginInput) (w : World Db)
      → validate_login input ≡ ok tt
      → login crypto service_account_repository input w ≡ (err (sentinel invalid_credentials), w)
  unfolding login login_found service_account_repository get_by_client_id
  service_login_refused crypto input w valid =
      rw
        (
          valid,
          client_value-refused "dgraph: get service account" ("$clientID" ∷ []) input.client_id w
              (refl, tt),
        )
        refl
