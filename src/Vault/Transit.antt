-- ===== src/Vault/Transit.antt =====
-- internal/vault/transit.go: `TransitSigner` and `HMACSigner`, which implement the `Signer` of
-- internal/token/jwt.go. The jwt library and encoding/json are the parameter `JwtLibrary`.
pub mod Laws
pub mod Tokens
use elysium.Prelude.{
  ℕ, zero, suc, String, Bool, true, false, not, Option, none, some, List, [], ◌∷◌, ◌++◌, Text, lit,
  length, ltb, nat_eq, ◌==◌, if◌then◌else◌,
}
use elysium.Errors.{Error, outside, wrap, Result, ok, err}
use elysium.Base64.{Base64}
use elysium.World.{World, Action, ◌>>=◌, ◌>>◌, return, fail, wrapped, time_now}
use elysium.Token.Claims.{MapClaims, str_claim}
use elysium.Token.Jwt.{JwtToken, Signer}
use elysium.Vault.{Vault, VaultData, VaultValue, value_at, as_text, as_bool}

-- `json.Marshal` of claims and `json.Unmarshal` into `MapClaims`; `Validate` of the validator with
-- `WithIssuedAt` and `WithIssuer`, at a time; `SignedString` of a new HS256 token with a key; and
-- `jwt.Parse` with a key, an issuer, the valid method HS256 and the time.
pub record JwtLibrary : Type 0 where
  pub marshal : MapClaims → Text
  pub unmarshal : Text → Option MapClaims
  pub validate : Text → MapClaims → ℕ → Option String
  pub sign_hs256 : Text → MapClaims → Result Text
  pub parse_hs256 : Text → Text → Text → ℕ → Result JwtToken

-- `strings.Split(s, sep)` for one byte.
abbrev pub prepend : ℕ → List Text → List Text
prepend c [] = (c ∷ []) ∷ []
prepend c (t ∷ ts) = (c ∷ t) ∷ ts

unfoldable pub split : ℕ → Text → List Text
split sep [] = [] ∷ []
split sep (c ∷ cs) = let rest = split sep cs in if nat_eq c sep then [] ∷ rest else prepend c rest

-- `strings.SplitN(s, sep, n)` for one byte and n ≥ 1.
unfoldable pub split_n : ℕ → ℕ → Text → List Text
split_n sep zero s = s ∷ []
split_n sep (suc n) [] = [] ∷ []
split_n sep (suc n) (c ∷ cs) =
    let next = split_n sep n cs in
    let rest = split_n sep (suc n) cs in if nat_eq c sep then [] ∷ next else prepend c rest

-- `TransitSigner`; its two lifetimes are never read.
pub record TransitSigner : Type 0 where
  pub mount : Text
  pub key_name : Text
  pub issuer : Text

unfoldable pub hmac_path : TransitSigner → Text
hmac_path ts = ts.mount ++ lit "/hmac/" ++ ts.key_name

unfoldable pub verify_path : TransitSigner → Text
verify_path ts = ts.mount ++ lit "/verify/" ++ ts.key_name

module _ ⦃b : Base64⦄ where
  unfoldable pub hmac_request : Text → List (String × Text)
  hmac_request input = ("input", b.std_encode input) ∷ ("algorithm", lit "sha2-256") ∷ []

  unfoldable pub verify_request : Text → List ℕ → List (String × Text)
  verify_request input sig =
      ("input", b.std_encode input)
      ∷ ("hmac", lit "vault:v1:" ++ b.std_encode sig)
      ∷ ("algorithm", lit "sha2-256")
      ∷ []

  -- `vaultHMAC` on the parts of "vault:v1:<base64mac>".
  unfoldable pub mac_part : List Text → Result (List ℕ)
  mac_part (a ∷ v ∷ mac ∷ []) = elim (b.std_decode mac) [
    | none ↦ err (outside "vault transit hmac: base64 decode")
    | some sig ↦ ok sig
  ]
  mac_part _ = err (outside "vault transit hmac: unexpected format")

  unfoldable pub hmac_raw : Option Text → Result (List ℕ)
  unfolding mac_part split_n
  hmac_raw none = err (outside "vault transit hmac: unexpected response shape")
  hmac_raw (some raw) = mac_part (split_n b':' 2 raw)

  unfoldable pub hmac_answer : Option VaultData → Result (List ℕ)
  unfolding hmac_raw value_at
  hmac_answer none = err (outside "vault transit hmac: empty response")
  hmac_answer (some data') = hmac_raw (as_text (value_at "hmac" data'))

unfoldable pub verify_answer : Option VaultData → Result (Unit {0})
unfolding value_at
verify_answer none = err (outside "vault transit verify: empty response")
verify_answer (some data') =
    if not (as_bool (value_at "valid" data'))
    then err (outside "vault transit verify: signature invalid")
    else ok tt

-- `NewHMACSigner` accepts a key of at least 32 bytes.
unfoldable pub accepts_key : Text → Bool
accepts_key key = not (ltb (length key) 32)

-- `hmac.Equal([]byte(h.issuer), []byte(iss))` after `jwt.Parse`.
unfoldable pub check_issuer : Text → JwtToken → Option MapClaims → Result JwtToken
unfolding ◌==◌
check_issuer issuer tok none = err (outside "hmac signer: unexpected claims type")
check_issuer issuer tok (some claims) =
    if not (issuer == str_claim claims "iss")
    then err (outside "hmac signer: issuer mismatch")
    else ok tok

module _ {Db : Type 0} ⦃b : Base64⦄ (vault : Vault Db) (lib : JwtLibrary) (ts : TransitSigner) where
  -- The result of a pure part.
  abbrev pub settled : {A : Type 0} → Result A → Action Db A
  settled (ok a) = return a
  settled (err e) = fail e

  unfoldable pub vault_hmac : Text → Action Db (List ℕ)
  vault_hmac input = do
    resp ← wrapped "vault transit hmac" (vault.write (hmac_path ts) (hmac_request input))
    settled (hmac_answer resp)

  unfoldable pub vault_verify : Text → List ℕ → Action Db (Unit {0})
  vault_verify input sig = do
    resp ← wrapped "vault transit verify" (vault.write (verify_path ts) (verify_request input sig))
    settled (verify_answer resp)

  -- The header and the payload of a token, joined.
  unfoldable pub signing_input : MapClaims → Text
  signing_input claims =
      b.raw_url_encode (lit "{\"alg\":\"HS256\",\"typ\":\"JWT\"}")
      ++ b'.' ∷ b.raw_url_encode (lib.marshal claims)

  unfoldable pub sign : MapClaims → Action Db Text
  sign claims = do
    sig ← vault_hmac (signing_input claims)
    return (signing_input claims ++ b'.' ∷ b.raw_url_encode sig)

  unfoldable pub validated : Text → MapClaims → Option String → Result JwtToken
  validated token claims none = ok (record { claims = some claims; valid = true })
  validated token claims (some e) = err (wrap "transit verify: claims invalid" (outside e))

  unfoldable pub verify_claims : Text → Option MapClaims → Action Db JwtToken
  verify_claims token none = fail (outside "transit verify: unmarshal claims")
  verify_claims token (some claims) = do
    now ← time_now
    settled (validated token claims (lib.validate ts.issuer claims now))

  unfoldable pub verify_payload : Text → Option Text → Action Db JwtToken
  verify_payload token none = fail (outside "transit verify: decode payload")
  verify_payload token (some json) = verify_claims token (lib.unmarshal json)

  unfoldable pub verify_signature : Text → Text → Text → Option (List ℕ) → Action Db JwtToken
  verify_signature token header payload none = fail (outside "transit verify: decode signature")
  verify_signature token header payload (some sig) = do
    vault_verify (header ++ b'.' ∷ payload) sig
    verify_payload token (b.raw_url_decode payload)

  unfoldable pub verify_parts : Text → List Text → Action Db JwtToken
  verify_parts token (header ∷ payload ∷ sig ∷ []) =
      verify_signature token header payload (b.raw_url_decode sig)
  verify_parts token _ = fail (outside "transit verify: malformed token")

  unfoldable pub verify : Text → Action Db JwtToken
  verify token = verify_parts token (split b'.' token)

  unfoldable pub transit_signer : Signer Db
  transit_signer = record { sign = sign; verify = verify }

module _ {Db : Type 0} (lib : JwtLibrary) (key issuer : Text) where
  -- `HMACSigner.Sign` and `HMACSigner.Verify`.
  unfoldable pub hmac_sign : MapClaims → Action Db Text
  hmac_sign claims w = (wrapped "hmac signer: sign" (λ v. (lib.sign_hs256 key claims, v))) w

  unfoldable pub hmac_parsed : Result JwtToken → Action Db JwtToken
  hmac_parsed (err e) w = (err (wrap "hmac signer: verify" e), w)
  hmac_parsed (ok tok) w = (check_issuer issuer tok tok.claims, w)

  unfoldable pub hmac_verify : Text → Action Db JwtToken
  hmac_verify token = do now ← time_now; hmac_parsed (lib.parse_hs256 key issuer token now)

  unfoldable pub hmac_signer : Signer Db
  hmac_signer = record { sign = hmac_sign; verify = hmac_verify }
