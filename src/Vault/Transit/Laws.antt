-- ===== src/Vault/Transit/Laws.antt =====
-- internal/vault/transit.go: a token that was signed with the first version of the Transit key is
-- verified, and one that was signed with a later version is refused.
use elysium.Prelude.{
  ℕ, suc, String, ◌≡◌, ◌≢◌, refl, sym, ◌∙◌, ap, inl, inr, true, false, none, some, Option, [], ◌∷◌,
  ◌++◌, List, Text, lit, ◌==◌, eq_iff, nat_eq, nat_eq_iff, arith, Bool-cases, All,
}
use elysium.Errors.{Result, ok, err}
use elysium.Base64.{Base64, IsBase64}
use elysium.World.{World, Action, ◌>>◌, return, wrapped, time_now}
use elysium.World.Success.{bind-eq-ok, then-eq-ok, rewrap-eq-ok}
use elysium.Token.Claims.{MapClaims}
use elysium.Token.Jwt.{JwtToken}
use elysium.Vault.{Vault, VaultData, value_at, as_text, as_bool}
use elysium.Vault.Transit.{
  JwtLibrary, TransitSigner, split, split_n, hmac_path, verify_path, hmac_request, verify_request,
  mac_part, hmac_raw, hmac_answer, verify_answer, vault_hmac, vault_verify, signing_input, sign,
  validated, verify_claims, verify_payload, verify_signature, verify_parts, verify, settled,
}

-- The documented behaviour of the Transit engine: an HMAC is made with the current version of the key
-- and names it, and one that names the first version is valid if it is the MAC of that version.
pub record IsTransit {Db : Type 0} ⦃b : Base64⦄ (vault : Vault Db) (ts : TransitSigner)
    : Type 0 where
  pub version : World Db → Text
  pub mac : Text → Text → List ℕ
  pub version_plain : (w : World Db) → All (λ c. c ≢ b':') (version w)
  pub hmac_made :
      (input : Text) (w : World Db) (d : Option VaultData)
      → (vault.write (hmac_path ts) (hmac_request input) w).0 ≡ ok d
      → (m : VaultData) × (d ≡ some m)
        × (as_text (value_at "hmac" m)
            ≡ some (lit "vault:v" ++ (version w ++ b':' ∷ b.std_encode (mac (version w) input))))
  pub hmac_checked :
      (input : Text) (sig : List ℕ) (w : World Db) (d : Option VaultData)
      → (vault.write (verify_path ts) (verify_request input sig) w).0 ≡ ok d
      → (m : VaultData) × (d ≡ some m)
        × (as_bool (value_at "valid" m) ≡ (sig == mac (lit "1") input))

ne_of_ne : (c d : ℕ) → c ≢ d → nat_eq c d ≡ false
ne_of_ne c d h = ground arith

split-append :
    (sep : ℕ) (a r : Text) → All (λ c. c ≢ sep) a → split sep (a ++ sep ∷ r) ≡ a ∷ split sep r
unfolding split
split-append sep [] r h = rw ((nat_eq_iff sep sep).1 refl) refl
split-append sep (c ∷ cs) r h = rw (ne_of_ne c sep h.0, split-append sep cs r h.1) refl

split_whole : (sep : ℕ) (a : Text) → All (λ c. c ≢ sep) a → split sep a ≡ a ∷ []
unfolding split
split_whole sep [] h = refl
split_whole sep (c ∷ cs) h = rw (ne_of_ne c sep h.0, split_whole sep cs h.1) refl

split_n-append :
    (sep n : ℕ) (a r : Text)
    → All (λ c. c ≢ sep) a
    → split_n sep (suc n) (a ++ sep ∷ r) ≡ a ∷ split_n sep n r
unfolding split_n
split_n-append sep n [] r h = rw ((nat_eq_iff sep sep).1 refl) refl
split_n-append sep n (c ∷ cs) r h = rw (ne_of_ne c sep h.0, split_n-append sep n cs r h.1) refl

append_assoc : (a r s : Text) → (a ++ r) ++ s ≡ a ++ (r ++ s)
append_assoc [] r s = refl
append_assoc (c ∷ cs) r s = ap (λ t. c ∷ t) (append_assoc cs r s)

module _ ⦃b : Base64⦄ (codec : IsBase64 b) where
  -- The MAC of an HMAC text of any version.
  hmac_raw_versioned :
      (version : Text) (mac : List ℕ)
      → All (λ c. c ≢ b':') version
      → hmac_raw (some (lit "vault:v" ++ (version ++ b':' ∷ b.std_encode mac))) ≡ ok mac
  unfolding hmac_raw mac_part split_n
  hmac_raw_versioned version mac h =
      rw (split_n-append b':' 0 version (b.std_encode mac) h, codec.std_round mac) refl

module _ {Db : Type 0} ⦃b : Base64⦄ (codec : IsBase64 b) (vault : Vault Db) (lib : JwtLibrary)
    (ts : TransitSigner) (transit : IsTransit vault ts) where
  vault_hmac-mac :
      (input : Text) (w : World Db) (sig : List ℕ)
      → (vault_hmac vault lib ts input w).0 ≡ ok sig
      → sig ≡ transit.mac (transit.version w) input
  unfolding vault_hmac hmac_answer
  vault_hmac-mac input w sig h =
      let step : String = "vault transit hmac" in
      let call = wrapped step (vault.write (hmac_path ts) (hmac_request input)) in
      let (d, e, r) = bind-eq-ok call (λ resp. settled vault lib ts (hmac_answer resp)) w sig h in
      let (m, some_m, field) =
        transit.hmac_made input w d
          (rewrap-eq-ok step (vault.write (hmac_path ts) (hmac_request input) w).0 d e) in
      let raw =
        hmac_raw_versioned codec (transit.version w) (transit.mac (transit.version w) input)
          (transit.version_plain w) in
      let done : (settled vault lib ts (hmac_answer d) (call w).1).0
          ≡ ok (transit.mac (transit.version w) input) =
        rw (some_m, field, raw) refl in
      cc (sym (ap (λ p. p.0) r) ∙ h, done)

  abbrev mac_of : World Db → MapClaims → List ℕ
  mac_of w c = transit.mac (transit.version w) (signing_input vault lib ts c)

  sign_form :
      (c : MapClaims) (w : World Db) (t : Text)
      → (sign vault lib ts c w).0 ≡ ok t
      → t ≡ signing_input vault lib ts c ++ b'.' ∷ b.raw_url_encode (mac_of w c)
  unfolding sign
  sign_form c w t h =
      let input = signing_input vault lib ts c in
      let (sig, e, r) =
        bind-eq-ok (vault_hmac vault lib ts input)
          (λ sig. return (input ++ b'.' ∷ b.raw_url_encode sig)) w t h in
      let same : input ++ b'.' ∷ b.raw_url_encode sig ≡ t = cc (sym (ap (λ p. p.0) r) ∙ h) in
      sym same ∙ ap (λ s. input ++ b'.' ∷ b.raw_url_encode s) (vault_hmac-mac input w sig e)

  -- A token falls apart into the parts that it was made of.
  verify_joined :
      (c : MapClaims) (sig : List ℕ) (v : World Db) (t : Text)
      → t ≡ signing_input vault lib ts c ++ b'.' ∷ b.raw_url_encode sig
      → verify vault lib ts t v ≡ (
          (do
            vault_verify vault lib ts (signing_input vault lib ts c) sig
            verify_payload vault lib ts t (some (lib.marshal c)))
            v)
  unfolding verify verify_parts verify_signature signing_input
  verify_joined c sig v t h =
      let head = b.raw_url_encode (lit "{\"alg\":\"HS256\",\"typ\":\"JWT\"}") in
      let body = b.raw_url_encode (lib.marshal c) in
      let tail = b.raw_url_encode sig in
      let parts : split b'.' t ≡ head ∷ body ∷ tail ∷ [] =
        ap (split b'.') (h ∙ append_assoc head (b'.' ∷ body) (b'.' ∷ tail))
        ∙ split-append b'.' head (body ++ b'.' ∷ tail) (codec.raw_url_no_dot _)
        ∙ ap (λ ts. head ∷ ts)
            (split-append b'.' body tail (codec.raw_url_no_dot _)
              ∙ ap (λ ts. body ∷ ts) (split_whole b'.' tail (codec.raw_url_no_dot _))) in
      rw (parts, codec.raw_url_round sig, codec.raw_url_round (lib.marshal c)) refl

  -- The request by which the MAC of the first version is checked.
  abbrev pub first_check : MapClaims → Action Db (Option VaultData)
  first_check c = vault.write (verify_path ts) (
      verify_request (signing_input vault lib ts c)
        (transit.mac (lit "1") (signing_input vault lib ts c)))

  vault_verify_verdict :
      (input : Text) (sig : List ℕ) (v : World Db) (d : Option VaultData)
      → (vault.write (verify_path ts) (verify_request input sig) v).0 ≡ ok d
      → sig ≡ transit.mac (lit "1") input
      → (vault_verify vault lib ts input sig v).0 ≡ ok tt
  unfolding vault_verify verify_answer
  vault_verify_verdict input sig v d e same =
      let (m, some_m, valid) = transit.hmac_checked input sig v d e in
      let right : (sig == transit.mac (lit "1") input) ≡ true = (eq_iff sig _).1 same in
      rw (e, some_m, valid, right) refl

  world-vault_verify :
      (input : Text) (sig : List ℕ) (v : World Db)
      → (vault_verify vault lib ts input sig v).1
        ≡ (vault.write (verify_path ts) (verify_request input sig) v).1
  unfolding vault_verify verify_answer
  world-vault_verify input sig v =
      answered (vault.write (verify_path ts) (verify_request input sig) v).0 refl
    where
      answered :
          (r : Result (Option VaultData))
          → (vault.write (verify_path ts) (verify_request input sig) v).0 ≡ r
          → (vault_verify vault lib ts input sig v).1
            ≡ (vault.write (verify_path ts) (verify_request input sig) v).1
      answered (err e) h = rw h refl
      answered (ok none) h = rw h refl
      answered (ok (some m)) h = rw h (ground arith)

  -- A token that was signed with the first version of the key is verified with its claims, if Vault
  -- answers and the validator accepts the claims at the time.
  pub verify-sign :
      (c : MapClaims) (w v : World Db) (t : Text) (d : Option VaultData)
      → lib.unmarshal (lib.marshal c) ≡ some c
      → (sign vault lib ts c w).0 ≡ ok t
      → transit.version w ≡ lit "1"
      → (first_check c v).0 ≡ ok d
      → lib.validate ts.issuer c ((first_check c v).1.clock 0) ≡ none
      → (verify vault lib ts t v).0 ≡ ok (record { claims = some c; valid = true })
  unfolding verify_payload verify_claims validated time_now
  verify-sign c w v t d json signed first answers accepted =
      let input = signing_input vault lib ts c in
      let sig = transit.mac (lit "1") input in
      let form : t ≡ input ++ b'.' ∷ b.raw_url_encode sig =
        sign_form c w t signed
        ∙ ap (λ n. input ++ b'.' ∷ b.raw_url_encode (transit.mac n input)) first in
      let checked = vault_verify_verdict input sig v d answers refl in
      rw (verify_joined c sig v t form, checked, world-vault_verify input sig v, json, accepted)
        refl

  -- A token that was signed with a version of the key whose MAC differs from that of the first version
  -- is refused, whatever Vault answers.
  pub later_version_refused :
      (c : MapClaims) (w v : World Db) (t : Text) (tok : JwtToken)
      → (sign vault lib ts c w).0 ≡ ok t
      → mac_of w c ≢ transit.mac (lit "1") (signing_input vault lib ts c)
      → (verify vault lib ts t v).0 ≢ ok tok
  unfolding vault_verify verify_answer
  later_version_refused c w v t tok signed differs h =
      let input = signing_input vault lib ts c in
      let sig = mac_of w c in
      let joined = verify_joined c sig v t (sign_form c w t signed) in
      let (u, e, r) =
        then-eq-ok (vault_verify vault lib ts input sig)
          (verify_payload vault lib ts t (some (lib.marshal c))) v tok
          (sym (ap (λ p. p.0) joined) ∙ h) in
      let step : String = "vault transit verify" in
      let call = wrapped step (vault.write (verify_path ts) (verify_request input sig)) in
      let (d, e', r') = bind-eq-ok call (λ resp. settled vault lib ts (verify_answer resp)) v u e in
      let (m, some_m, valid) =
        transit.hmac_checked input sig v d
          (rewrap-eq-ok step (vault.write (verify_path ts) (verify_request input sig) v).0 d e') in
      elim (Bool-cases (sig == transit.mac (lit "1") input)) [
        | inl same ↦ differs ((eq_iff sig _).0 same)
        | inr other ↦
            let bad : (settled vault lib ts (verify_answer d) (call v).1).0 ≡ ok u =
              sym (ap (λ p. p.0) r') ∙ e in
            cc (rw (some_m, valid, other) at bad)
      ]
