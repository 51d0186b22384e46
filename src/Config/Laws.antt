-- ===== src/Config/Laws.antt =====
-- internal/config/config.go: a configuration that was loaded starts the services.
use elysium.Prelude.{
  ℕ, String, ◌≡◌, refl, true, false, Bool-cases, inl, inr, Option, Text, lit, is_empty, arith,
}
use elysium.Errors.{ok}
use elysium.World.{World, return}
use elysium.World.Ensures.{
  Ensures, Ensures-return, Ensures-fail, Ensures-bind, Ensures-bind_with, Ensures-wrapped,
}
use elysium.Domain.User.{ℤ, pos, negsuc}
use elysium.Vault.{Vault}
use elysium.Vault.Secrets.{
  SecretManager, AuthSecrets, DatabaseSecrets, below_floor, checked_cost, read_auth_secrets,
}
use elysium.Service.Auth.{accepts_cost}
use elysium.Token.Jwt.{accepts_issuer}
use elysium.Config.{Config, env_str, merged, load}

-- A bcrypt cost that `service.New` and `service.NewServiceAuth` accept.
abbrev pub IsAccepted : ℤ → Type 0
IsAccepted cost = (n : ℕ) × (cost ≡ pos n) × (accepts_cost n ≡ true)

below_floor-IsAccepted : (cost : ℤ) → below_floor cost ≡ false → IsAccepted cost
unfolding below_floor accepts_cost
below_floor-IsAccepted (pos n) h = (n, refl, ground arith)
below_floor-IsAccepted (negsuc n) h = cc

module _ {Db : Type 0} (vault : Vault Db) (parse_duration : Text → Option ℤ)
    (sm : SecretManager) where
  checked_cost-IsAccepted :
      (key : Text) (access refresh cost : ℤ)
      → Ensures
          (λ s. IsAccepted s.bcrypt_cost)
          (checked_cost vault parse_duration sm key access refresh cost)
  unfolding checked_cost
  checked_cost-IsAccepted key access refresh cost = elim (Bool-cases (below_floor cost)) [
    | inl e ↦ rw e (Ensures-fail _ _)
    | inr e ↦
        rw e (Ensures-return (λ s. IsAccepted s.bcrypt_cost) _ (below_floor-IsAccepted cost e))
  ]

  -- `ReadAuthSecrets` gives a bcrypt cost that the services accept.
  pub read_auth_secrets-IsAccepted :
      Ensures (λ s. IsAccepted s.bcrypt_cost) (read_auth_secrets vault parse_duration sm)
  unfolding read_auth_secrets
  read_auth_secrets-IsAccepted = search (Ensures-bind, checked_cost-IsAccepted) depth 14

env_str_full :
    (env : String → Text) (key : String) (fallback : Text)
    → is_empty fallback ≡ false
    → accepts_issuer (env_str env key fallback) ≡ true
unfolding env_str accepts_issuer
env_str_full env key fallback h = elim (Bool-cases (is_empty (env key))) [
  | inl e ↦ rw (e, h) refl
  | inr e ↦ rw (e, e) refl
]

-- A configuration with which the constructors of the services and of the token manager do not panic.
abbrev pub IsBootable : {Float : Type 0} → Config Float → Type 0
IsBootable cfg = IsAccepted cfg.auth.bcrypt_cost × (accepts_issuer cfg.auth.issuer ≡ true)

module _ (env : String → Text) {Db Float : Type 0} (vault : Vault Db)
    (parse_duration : Text → Option ℤ) (parse_float : Text → Option Float)
    (sm : SecretManager) where
  merged-Ensures :
      (secrets : AuthSecrets) (db : DatabaseSecrets) (rps : Float) (burst timeout : ℤ)
      → IsAccepted secrets.bcrypt_cost
      → Ensures {Db = Db} IsBootable (return (merged env secrets db rps burst timeout))
  unfolding merged
  merged-Ensures secrets db rps burst timeout accepted =
      Ensures-return IsBootable (merged env secrets db rps burst timeout)
        (accepted, env_str_full env "AUTH_ISSUER" (lit "auth-service") refl)

  -- If `Load` succeeds, its bcrypt cost is at least 12 and its issuer is not empty, so that neither the
  -- services nor the token manager panic.
  pub load-IsBootable :
      (w : World Db) (cfg : Config Float)
      → (load env vault parse_duration parse_float sm w).0 ≡ ok cfg
      → IsBootable cfg
  unfolding load merged
  load-IsBootable w cfg h =
      let P = λ (c : Config Float). IsBootable c in
      let all : Ensures P (load env vault parse_duration parse_float sm) =
        Ensures-bind_with (λ s. IsAccepted s.bcrypt_cost) P _ _
          (Ensures-wrapped _ _ _ (read_auth_secrets-IsAccepted vault parse_duration sm))
          λ secrets accepted. search (Ensures-bind, merged-Ensures) depth 8 in
      all.at w cfg h
