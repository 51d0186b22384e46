-- ===== src/Domain/Zookie.antt =====
-- internal/domain/zookie.go: consistency tokens. The base64 encoding is a parameter.
use elysium.Prelude.{ℕ, zero, ◌^◌, ◌%◌, ◌/◌, suc, Bool, not, List, [], ◌∷◌, Text, ◌==◌}

pub record Zookie : Type 0 where
  pub token : Text

-- `binary.LittleEndian.PutUint64` into that many bytes.
unfoldable pub little_endian : ℕ → ℕ → List ℕ
little_endian zero n = []
little_endian (suc k) n = n % 256 ∷ little_endian k (n / 256)

-- `NewZookie` of a `uint64`, where `encode` is `base64.RawURLEncoding.EncodeToString`.
unfoldable pub new_zookie : (List ℕ → Text) → ℕ → Zookie
new_zookie encode commit_ts = record { token = encode (little_endian 8 (commit_ts % 2 ^ 64)) }

-- `HasToken`.
unfoldable pub has_token : Zookie → Bool
unfolding ◌==◌
has_token z = not (z.token == [])

-- `StrongRead`.
abbrev pub strong_read : Zookie
strong_read = record { token = [] }
