-- ===== src/Vault.antt =====
-- internal/vault: the client, the secrets, and the signers. The Vault server and its Go client are not
-- in the repository: they are the parameter `Vault`.
pub mod Client
pub mod Secrets
pub mod Transit
use elysium.Prelude.{
  ℕ, String, Bool, false, Option, none, some, List, [], ◌∷◌, Text, str_eq, if◌then◌else◌,
}
use elysium.World.{Action}

-- The values of `secret.Data`, a `map[string]interface{}`; one level of nesting is read.
pub data Field : Type 0 where
  str : Text → Field
  truth : Bool → Field
  other : Field

pub data VaultValue : Type 0 where
  field : Field → VaultValue
  object : List (String × Field) → VaultValue

abbrev pub VaultData : Type 0
VaultData = List (String × VaultValue)

-- `Logical().ReadWithContext` and `WriteWithContext` of a path, and of a path and texts. The result is
-- `none` where the secret or its `Data` is nil.
pub record Vault (Db : Type 0) : Type 0 where
  pub read : Text → Action Db (Option VaultData)
  pub write : Text → List (String × Text) → Action Db (Option VaultData)

-- Indexing a map.
module _ {V : Type 0} where
  unfoldable pub value_at : String → List (String × V) → Option V
  value_at k [] = none
  value_at k ((p, v) ∷ m) = if str_eq p k then some v else value_at k m

-- The type assertions `v, ok := x.(string)` and `v, _ := x.(bool)`.
abbrev pub as_text : Option VaultValue → Option Text
as_text (some (field (str t))) = some t
as_text _ = none

abbrev pub as_bool : Option VaultValue → Bool
as_bool (some (field (truth b))) = b
as_bool _ = false
