-- ===== src/Token.antt =====
-- internal/token/opaque.go: opaque tokens. SHA-256 is a parameter; a token is a prefix and the
-- hexadecimal text of random bytes.
pub mod Laws
pub mod Claims
pub mod Jwt
use elysium.Prelude.{
  ℕ, ◌+◌, ◌-◌, ◌*◌, ◌/◌, ◌%◌, String, Bool, List, [], ◌∷◌, ◌++◌, Text, lit, ltb, nat_eq,
  if◌then◌else◌,
}
use elysium.World.{Action, ◌>>=◌, return, wrapped, time_now, rand_read}
use elysium.Domain.Session.{second}

-- `sha256.Sum256`, on bytes.
pub record Digest : Type 0 where
  pub sum256 : Text → Text

-- `DefaultAccessTTL`, `DefaultRefreshTTL`.
abbrev pub default_access_ttl : ℕ
default_access_ttl = 15 * 60 * second

abbrev pub default_refresh_ttl : ℕ
default_refresh_ttl = 30 * 24 * 60 * 60 * second

-- `prefixAccess`, `prefixRefresh`, `prefixJTI`.
abbrev pub prefix_access : Text
prefix_access = lit "atk_"

abbrev pub prefix_refresh : Text
prefix_refresh = lit "rtk_"

abbrev pub prefix_jti : Text
prefix_jti = lit "jti_"

-- `hex.EncodeToString`.
unfoldable pub hex_digit : ℕ → ℕ
hex_digit d = if ltb d 10 then b'0' + d else b'a' + (d - 10)

unfoldable pub hex_encode : List ℕ → Text
unfolding hex_digit
hex_encode [] = []
hex_encode (b ∷ bs) = hex_digit (b / 16) ∷ hex_digit (b % 16) ∷ hex_encode bs

pub record OpaqueToken : Type 0 where
  pub raw : Text
  pub hash : Text

-- `Hash`: the SHA-256 hex digest of a raw token.
unfoldable pub hash_token : ⦃d : Digest⦄ → Text → Text
unfolding hex_encode
hash_token ⦃d⦄ raw = hex_encode (d.sum256 raw)

module _ {Db : Type 0} ⦃d : Digest⦄ where
  unfoldable pub generate : Text → Action Db OpaqueToken
  unfolding rand_read hash_token
  generate prefix = do
    bytes ← wrapped "generating token entropy" (rand_read 32)
    return (record {
      raw = prefix ++ hex_encode bytes;
      hash = hash_token (prefix ++ hex_encode bytes);
    })

  unfoldable pub generate_access_token : Action Db OpaqueToken
  unfolding generate
  generate_access_token = generate prefix_access

  unfoldable pub generate_refresh_token : Action Db OpaqueToken
  unfolding generate
  generate_refresh_token = generate prefix_refresh

module _ {Db : Type 0} where
  unfoldable pub generate_jti : Action Db Text
  unfolding rand_read hex_encode
  generate_jti = do
    bytes ← wrapped "generating JTI entropy" (rand_read 16)
    return (prefix_jti ++ hex_encode bytes)

  -- `AccessExpiry`, `RefreshExpiry`.
  unfoldable pub access_expiry : ℕ → Action Db ℕ
  unfolding time_now
  access_expiry ttl = do
    now ← time_now
    return (now + (if nat_eq ttl 0 then default_access_ttl else ttl))

  unfoldable pub refresh_expiry : ℕ → Action Db ℕ
  unfolding time_now
  refresh_expiry ttl = do
    now ← time_now
    return (now + (if nat_eq ttl 0 then default_refresh_ttl else ttl))
