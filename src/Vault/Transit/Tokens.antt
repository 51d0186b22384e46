-- ===== src/Vault/Transit/Tokens.antt =====
-- internal/token/jwt.go over internal/vault/transit.go: an issued context token is verified as the
-- principal of its context.
use elysium.Prelude.{◌≡◌, refl, false, none, some, Option, lit, is_empty}
use elysium.Errors.{ok}
use elysium.Base64.{Base64, IsBase64}
use elysium.World.{World, time_now}
use elysium.Domain.Actor.{ContextActivationInput}
use elysium.Token.Claims.{MapClaims, claim_fields, json_object}
use elysium.Token.Jwt.{
  Manager, TokenPair, context_claims, issue_context_token, verified_token, token_claims,
}
use elysium.Token.Jwt
use elysium.Token.Jwt.Laws.{
  context_principal, claims_principal-context, issue_context_token-IsIssued,
}
use elysium.Vault.{Vault, VaultData}
use elysium.Vault.Transit.{JwtLibrary, TransitSigner, transit_signer}
use elysium.Vault.Transit.Laws.{IsTransit, first_check, verify-sign}

abbrev pub issued_claims : {Db : Type 0} → Manager → ContextActivationInput → World Db → MapClaims
issued_claims m i w = json_object (claim_fields (context_claims m i (w.clock 0)))

module _ {Db : Type 0} ⦃b : Base64⦄ (codec : IsBase64 b) (vault : Vault Db) (lib : JwtLibrary)
    (ts : TransitSigner) (transit : IsTransit vault ts) (m : Manager) where
  -- A context token that `IssueContextToken` issued for a context with a user id that is not empty,
  -- while the Transit key is at its first version, is verified as the principal of the context, if
  -- Vault answers, the JSON of its claims is decoded, and the validator accepts them.
  pub verify-issue_context_token :
      (i : ContextActivationInput) (w v : World Db) (pair : TokenPair) (d : Option VaultData)
      → (issue_context_token (transit_signer vault lib ts) m i w).0 ≡ ok pair
      → is_empty i.user_id ≡ false
      → lib.unmarshal (lib.marshal (issued_claims m i w)) ≡ some (issued_claims m i w)
      → transit.version (time_now w).1 ≡ lit "1"
      → (first_check codec vault lib ts transit (issued_claims m i w) v).0 ≡ ok d
      → lib.validate ts.issuer
          (issued_claims m i w)
          ((first_check codec vault lib ts transit (issued_claims m i w) v).1.clock 0)
        ≡ none
      → (Jwt.verify (transit_signer vault lib ts) m pair.access_token v).0
        ≡ ok (context_principal i)
  unfolding Jwt.verify verified_token token_claims transit_signer
  verify-issue_context_token i w v pair d issued full json first answers accepted =
      let c = issued_claims m i w in
      let it = issue_context_token-IsIssued (transit_signer vault lib ts) m i w pair issued in
      rw
        (
          verify-sign codec vault lib ts transit c (time_now w).1 v pair.access_token d json
              it.signed first answers accepted,
          claims_principal-context m i (w.clock 0) full,
        )
        refl
