-- ===== src/Token/Laws.antt =====
-- internal/token/opaque.go: the form of tokens, and when two are equal.
use elysium.Prelude.{
  Bool-cases, ◌-◌, ◌≤◌, ◌⊎◌, ltb, if◌then◌else◌, ℕ, ◌+◌, ◌*◌, ◌/◌, ◌%◌, ◌<◌, ◌≡◌, refl, ap, ◌≢◌,
  List, [], ◌∷◌, ◌++◌, Text, arith, length, All, none, some, Option-cases, inl, inr, List,
}
use elysium.World.{World}
use elysium.Errors.{ok}
use elysium.Token.{
  Digest, OpaqueToken, hex_digit, hex_encode, hash_token, generate, generate_access_token,
  generate_refresh_token, prefix_access, prefix_refresh,
}

abbrev pub IsByte : ℕ → Type 0
IsByte b = b < 256

pub length-hex_encode : (bs : List ℕ) → length (hex_encode bs) ≡ 2 * length bs
unfolding hex_encode
length-hex_encode [] = refl
length-hex_encode (b ∷ bs) = omega (arith, length-hex_encode bs)

hex_digit-injective : (a b : ℕ) → a < 16 → b < 16 → hex_digit a ≡ hex_digit b → a ≡ b
unfolding hex_digit
hex_digit-injective a b ha hb e = ground arith

byte_of_nibbles :
    (a b : ℕ)
    → IsByte a
    → IsByte b
    → hex_digit (a / 16) ≡ hex_digit (b / 16)
    → hex_digit (a % 16) ≡ hex_digit (b % 16)
    → a ≡ b
byte_of_nibbles a b ha hb h l =
    let high = hex_digit-injective (a / 16) (b / 16) (omega arith) (omega arith) h in
    let low = hex_digit-injective (a % 16) (b % 16) (omega arith) (omega arith) l in
    omega (arith, high, low)

-- Different bytes have different hexadecimal texts.
pub hex_encode-injective :
    (xs bs : List ℕ) → All IsByte xs → All IsByte bs → hex_encode xs ≡ hex_encode bs → xs ≡ bs
unfolding hex_encode
hex_encode-injective [] [] ha hb e = refl
hex_encode-injective [] (b ∷ bs) ha hb e = absurd (omega (arith, ap length e))
hex_encode-injective (a ∷ xs) [] ha hb e = absurd (omega (arith, ap length e))
hex_encode-injective (a ∷ xs) (b ∷ bs) ha hb e =
    cc (byte_of_nibbles a b ha.0 hb.0 (cc) (cc), hex_encode-injective xs bs ha.1 hb.1 (cc))

-- A digit, and what a text of digits means.
abbrev pub IsHexDigit : ℕ → Type 0
IsHexDigit c = ((b'0' ≤ c) × (c ≤ b'9')) ⊎ ((b'a' ≤ c) × (c ≤ b'f'))

abbrev pub hex_value : ℕ → ℕ
hex_value c = if ltb c b'a' then c - b'0' else c - 87

abbrev pub from_hex : Text → List ℕ
from_hex (h ∷ l ∷ t) = (hex_value h * 16 + hex_value l) ∷ from_hex t
from_hex _ = []

hex_digit-IsHexDigit : (n : ℕ) → n < 16 → IsHexDigit (hex_digit n)
unfolding hex_digit
hex_digit-IsHexDigit n h = elim (Bool-cases (ltb n 10)) [
  | inl e ↦ rw e (inl (ground arith))
  | inr e ↦ rw e (inr (ground arith))
]

hex_value-hex_digit : (n : ℕ) → n < 16 → hex_value (hex_digit n) ≡ n
unfolding hex_digit
hex_value-hex_digit n h = ground arith

hex_encode-IsHexDigit : (bs : List ℕ) → All IsByte bs → All IsHexDigit (hex_encode bs)
unfolding hex_encode
hex_encode-IsHexDigit [] h = tt
hex_encode-IsHexDigit (b ∷ bs) (byte, h) = (
  hex_digit-IsHexDigit (b / 16) (omega arith),
  (hex_digit-IsHexDigit (b % 16) (omega arith), hex_encode-IsHexDigit bs h),
)

IsHexDigit-IsByte : (c : ℕ) → IsHexDigit c → IsByte c
IsHexDigit-IsByte c (inl (low, high)) = omega arith
IsHexDigit-IsByte c (inr (low, high)) = omega arith

All-IsByte : (t : Text) → All IsHexDigit t → All IsByte t
All-IsByte [] h = tt
All-IsByte (c ∷ t) (digit, h) = (IsHexDigit-IsByte c digit, All-IsByte t h)

hex_encode-IsByte : (bs : List ℕ) → All IsByte bs → All IsByte (hex_encode bs)
hex_encode-IsByte bs h = All-IsByte (hex_encode bs) (hex_encode-IsHexDigit bs h)

from_hex-hex_encode : (bs : List ℕ) → All IsByte bs → from_hex (hex_encode bs) ≡ bs
unfolding hex_encode
from_hex-hex_encode [] h = refl
from_hex-hex_encode (b ∷ bs) (byte, h) =
    let high = hex_value-hex_digit (b / 16) (omega arith) in
    let low = hex_value-hex_digit (b % 16) (omega arith) in
    let whole : b / 16 * 16 + b % 16 ≡ b = omega arith in
    rw (high, low, whole, from_hex-hex_encode bs h) refl

All-append : (s t : Text) → All IsByte s → All IsByte t → All IsByte (s ++ t)
All-append [] t hs ht = ht
All-append (c ∷ s) t (byte, hs) ht = (byte, All-append s t hs ht)

append_left_cancel : (p s t : Text) → p ++ s ≡ p ++ t → s ≡ t
append_left_cancel [] s t e = e
append_left_cancel (c ∷ p) s t e = append_left_cancel p s t (cc)

module _ {Db : Type 0} ⦃d : Digest⦄ where
  -- If `rand.Read` fills its 32 bytes, `generate` gives a token whose raw text is the prefix and 64
  -- lower-case hexadecimal digits that are read back as the bytes, most significant digit first; its
  -- hash is read back as the digest of the raw text, if digests of bytes are bytes.
  pub generate_digits :
      (prefix bytes : Text) (w : World Db)
      → w.random 0 32 ≡ some bytes
      → length bytes ≡ 32
      → All IsByte bytes
      → All IsByte prefix
      → ((s : Text) → All IsByte s → All IsByte (d.sum256 s))
      → (t : OpaqueToken) × (digits : Text) × ((generate prefix w).0 ≡ ok t)
        × (t.raw ≡ prefix ++ digits)
        × (length digits ≡ 64)
        × All IsHexDigit digits
        × (from_hex digits ≡ bytes)
        × All IsHexDigit t.hash
        × (from_hex t.hash ≡ d.sum256 t.raw)
  unfolding generate hash_token
  generate_digits prefix bytes w e n byte plain digest =
      let raw = prefix ++ hex_encode bytes in
      let raw_bytes = All-append prefix (hex_encode bytes) plain (hex_encode-IsByte bytes byte) in
      (
        record { raw = raw; hash = hash_token raw },
        hex_encode bytes,
        ground arith,
        refl,
        omega (arith, length-hex_encode bytes),
        hex_encode-IsHexDigit bytes byte,
        from_hex-hex_encode bytes byte,
        hex_encode-IsHexDigit (d.sum256 raw) (digest raw raw_bytes),
        from_hex-hex_encode (d.sum256 raw) (digest raw raw_bytes),
      )

  -- Without entropy no token is made.
  pub generate_without_entropy :
      (prefix : Text) (w : World Db) (t : OpaqueToken)
      → w.random 0 32 ≡ none
      → (generate prefix w).0 ≢ ok t
  unfolding generate
  generate_without_entropy prefix w t e h = ground arith

  raw-generate :
      (prefix : Text) (w : World Db) (t : OpaqueToken)
      → (generate prefix w).0 ≡ ok t
      → (bytes : Text) × (w.random 0 32 ≡ some bytes) × (t.raw ≡ prefix ++ hex_encode bytes)
  unfolding generate
  raw-generate prefix w t h = elim (Option-cases (w.random 0 32)) [
    | inl e ↦ absurd (generate_without_entropy prefix w t e h)
    | inr (bytes, e) ↦ (bytes, e, ground arith)
  ]

  -- An access token never equals a refresh token, whatever the random bytes are.
  pub access-ne-refresh :
      (w v : World Db) (a r : OpaqueToken)
      → (generate_access_token w).0 ≡ ok a
      → (generate_refresh_token v).0 ≡ ok r
      → a.raw ≢ r.raw
  unfolding generate_access_token generate_refresh_token
  access-ne-refresh w v a r ha hr e =
      let (as_bytes, _, fa) = raw-generate prefix_access w a ha in
      let (rs_bytes, _, fr) = raw-generate prefix_refresh v r hr in ground arith

  -- Two tokens generated with one prefix are equal only if their random bytes are.
  pub generate-injective :
      (prefix xs ys : Text) (w v : World Db) (s t : OpaqueToken)
      → w.random 0 32 ≡ some xs
      → v.random 0 32 ≡ some ys
      → All IsByte xs
      → All IsByte ys
      → (generate prefix w).0 ≡ ok s
      → (generate prefix v).0 ≡ ok t
      → s.raw ≡ t.raw
      → xs ≡ ys
  generate-injective prefix xs ys w v s t ex ey bx by_ hs ht e =
      let (xs', ex', fs) = raw-generate prefix w s hs in
      let (ys', ey', ft) = raw-generate prefix v t ht in
      let same : prefix ++ hex_encode xs' ≡ prefix ++ hex_encode ys' = cc in
      let x_same : xs ≡ xs' = cc in
      let y_same : ys ≡ ys' = cc in
      hex_encode-injective xs ys bx by_ (append_left_cancel prefix _ _ (rw (x_same, y_same) same))
