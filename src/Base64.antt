-- ===== src/Base64.antt =====
-- The encodings of encoding/base64, which is not in the repository: standard, URL-safe with padding,
-- and URL-safe without (`Raw`).
use elysium.Prelude.{ℕ, ◌≡◌, Option, some, List, Text, All, ◌≢◌}

pub record Base64 : Type 0 where
  pub std_encode : List ℕ → Text
  pub std_decode : Text → Option (List ℕ)
  pub url_encode : List ℕ → Text
  pub raw_url_encode : List ℕ → Text
  pub raw_url_decode : Text → Option (List ℕ)

-- Decoding inverts encoding, and the alphabets have neither `.` nor `:`.
pub record IsBase64 (b : Base64) : Type 0 where
  pub std_round : (bs : List ℕ) → b.std_decode (b.std_encode bs) ≡ some bs
  pub raw_url_round : (bs : List ℕ) → b.raw_url_decode (b.raw_url_encode bs) ≡ some bs
  pub std_no_colon : (bs : List ℕ) → All (λ c. c ≢ b':') (b.std_encode bs)
  pub raw_url_no_dot : (bs : List ℕ) → All (λ c. c ≢ b'.') (b.raw_url_encode bs)
