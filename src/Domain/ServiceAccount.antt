-- ===== src/Domain/ServiceAccount.antt =====
-- internal/domain/service_account.go: machine identities and the validation of their inputs.
use elysium.Prelude.{ℕ, Bool, not, ◌||◌, List, Text, length, is_empty, ltb, if◌then◌else◌}
use elysium.Errors.{sentinel, invalid_input, Result, ok, err}
use elysium.Domain.Actor.{is_valid}

pub record ServiceAccount : Type 0 where
  pub id : Text
  pub client_id : Text
  pub name : Text
  pub secret_hash : Text
  pub actor_type : Text
  pub permissions : List Text
  pub active : Bool
  pub created_at : ℕ
  pub updated_at : ℕ

pub record CreateServiceAccountInput : Type 0 where
  pub client_id : Text
  pub name : Text
  pub client_secret : Text
  pub actor_type : Text
  pub permissions : List Text

pub record ServiceLoginInput : Type 0 where
  pub client_id : Text
  pub client_secret : Text

-- `CreateServiceAccountInput.Validate`.
unfoldable pub validate : CreateServiceAccountInput → Result (Unit {0})
validate i =
    if is_empty i.client_id || ltb 64 (length i.client_id)
    then err (sentinel invalid_input)
    else if is_empty i.name
    then err (sentinel invalid_input)
    else if ltb (length i.client_secret) 32
    then err (sentinel invalid_input)
    else if not (is_valid i.actor_type)
    then err (sentinel invalid_input)
    else ok tt

-- `ServiceLoginInput.Validate`.
unfoldable pub validate_login : ServiceLoginInput → Result (Unit {0})
validate_login i =
    if is_empty i.client_id
    then err (sentinel invalid_input)
    else if is_empty i.client_secret
    then err (sentinel invalid_input)
    else ok tt
