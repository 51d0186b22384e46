-- ===== src/Vault/Secrets.antt =====
-- internal/vault/secrets.go: `SecretManager`. `time.ParseDuration` is a parameter; errors that are made
-- without `%w` are told apart by their texts only.
use elysium.Prelude.{
  ℕ, ◌+◌, ◌-◌, ◌*◌, ◌^◌, String, Bool, true, false, ◌&&◌, Option, none, some, List, [], ◌∷◌, ◌++◌,
  Text, lit, ◌==◌, ltb, leb, nat_eq, if◌then◌else◌,
}
use elysium.Errors.{outside, Result, ok, err}
use elysium.World.{Action, ◌>>=◌, return, fail, wrapped}
use elysium.Domain.User.{ℤ, pos, negsuc}
use elysium.Vault.{Vault, VaultData, VaultValue, Field, str, truth, other, object, value_at}

-- `strconv.Atoi`: an optional sign and at least one digit, within an int64.
unfoldable pub digits_value : ℕ → Text → Option ℕ
digits_value acc [] = some acc
digits_value acc (c ∷ cs) =
    let rest = digits_value (acc * 10 + (c - b'0')) cs in
    if leb b'0' c && leb c b'9' then rest else none

unfoldable pub magnitude : Text → Option ℕ
unfolding digits_value
magnitude [] = none
magnitude (c ∷ cs) = digits_value 0 (c ∷ cs)

abbrev pub positive : Option ℕ → Option ℤ
positive none = none
positive (some n) = if ltb n (2 ^ 63) then some (pos n) else none

abbrev pub negative : Option ℕ → Option ℤ
negative none = none
negative (some n) =
    if nat_eq n 0 then some (pos 0) else if leb n (2 ^ 63) then some (negsuc (n - 1)) else none

unfoldable pub atoi : Text → Option ℤ
unfolding magnitude
atoi [] = none
atoi (c ∷ cs) =
    if nat_eq c b'-'
    then negative (magnitude cs)
    else if nat_eq c b'+'
    then positive (magnitude cs)
    else positive (magnitude (c ∷ cs))

-- `cost < 12`.
unfoldable pub below_floor : ℤ → Bool
below_floor (pos n) = ltb n 12
below_floor (negsuc n) = true

-- `SecretManager` but its client.
pub record SecretManager : Type 0 where
  pub kv_mount : Text
  pub prefix : Text

pub record AuthSecrets : Type 0 where
  pub jwt_signing_key : Text
  pub access_token_ttl : ℤ
  pub refresh_token_ttl : ℤ
  pub bcrypt_cost : ℤ

pub record DatabaseSecrets : Type 0 where
  pub dgraph_target : Text
  pub tls_enabled : Bool

-- `requireString`.
unfoldable pub required_text : Option Field → Result Text
required_text none = err (outside "missing key")
required_text (some (str [])) = err (outside "key must be a non-empty string")
required_text (some (str (c ∷ cs))) = ok (c ∷ cs)
required_text (some (truth b)) = err (outside "key must be a non-empty string")
required_text (some other) = err (outside "key must be a non-empty string")

unfoldable pub require_string : List (String × Field) → String → Result Text
unfolding required_text value_at
require_string data' key = required_text (value_at key data')

-- `readKV` on the secret that was read: the payload under the key "data".
unfoldable pub payload_of : Option VaultValue → Result (List (String × Field))
payload_of (some (object m)) = ok m
payload_of _ = err (outside "kv read: unexpected data shape")

unfoldable pub payload : Option VaultData → Result (List (String × Field))
unfolding payload_of value_at
payload none = err (outside "kv read: secret not found")
payload (some data') = payload_of (value_at "data" data')

abbrev pub parsed : {A : Type 0} → String → Option A → Result A
parsed step none = err (outside step)
parsed step (some a) = ok a

-- `tlsStr, _ := data["tls_enabled"].(string)`.
abbrev pub is_true_text : Option Field → Bool
is_true_text (some (str t)) = t == lit "true"
is_true_text _ = false

-- The result of a part that reads no state.
module _ {Db : Type 0} where
  abbrev pub checked : {A : Type 0} → Result A → Action Db A
  checked (ok a) = return a
  checked (err e) = fail e

module _ {Db : Type 0} (vault : Vault Db) (parse_duration : Text → Option ℤ)
    (sm : SecretManager) where
  unfoldable pub read_kv : Text → Action Db (List (String × Field))
  read_kv name = do
    secret ←
        wrapped "kv read" (vault.read (sm.kv_mount ++ lit "/data/" ++ sm.prefix ++ b'/' ∷ name))
    checked (payload secret)

  -- The last part of `ReadAuthSecrets`.
  unfoldable pub checked_cost : Text → ℤ → ℤ → ℤ → Action Db AuthSecrets
  checked_cost key access refresh cost =
      if below_floor cost
      then fail (outside "vault secrets: bcrypt cost is below the minimum of 12")
      else return (record {
        jwt_signing_key = key;
        access_token_ttl = access;
        refresh_token_ttl = refresh;
        bcrypt_cost = cost;
      })

  unfoldable pub read_auth_secrets : Action Db AuthSecrets
  read_auth_secrets = do
    jwt_data ← wrapped "vault secrets: read jwt config" (read_kv (lit "jwt"))
    bcrypt_data ← wrapped "vault secrets: read bcrypt config" (read_kv (lit "bcrypt"))
    key ← wrapped "vault secrets: jwt.signing_key" (checked (require_string jwt_data "signing_key"))
    access_text ←
        wrapped "vault secrets: jwt.access_ttl" (checked (require_string jwt_data "access_ttl"))
    access ← checked (parsed "vault secrets: jwt.access_ttl parse" (parse_duration access_text))
    refresh_text ←
        wrapped "vault secrets: jwt.refresh_ttl" (checked (require_string jwt_data "refresh_ttl"))
    refresh ← checked (parsed "vault secrets: jwt.refresh_ttl parse" (parse_duration refresh_text))
    cost_text ← wrapped "vault secrets: bcrypt.cost" (checked (require_string bcrypt_data "cost"))
    cost ← checked (parsed "vault secrets: bcrypt.cost parse" (atoi cost_text))
    checked_cost key access refresh cost

  unfoldable pub read_database_secrets : Action Db DatabaseSecrets
  read_database_secrets = do
    data' ← wrapped "vault secrets: read database config" (read_kv (lit "database"))
    target ←
        wrapped "vault secrets: database.dgraph_target"
          (checked (require_string data' "dgraph_target"))
    return (record {
      dgraph_target = target;
      tls_enabled = is_true_text (value_at "tls_enabled" data');
    })
