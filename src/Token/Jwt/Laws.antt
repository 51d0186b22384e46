-- ===== src/Token/Jwt/Laws.antt =====
-- internal/token/jwt.go: an issued token carries the principal that it was issued for.
use elysium.Prelude.{
  ℕ, ◌/◌, ◌≡◌, refl, sym, ◌∙◌, ap, inl, inr, true, false, [], Text, ◌==◌, is_empty, Bool-cases,
}
use elysium.Errors.{ok}
use elysium.Base64.{Base64}
use elysium.World.{World, ◌>>=◌, return, wrapped, time_now}
use elysium.World.Success.{bind-eq-ok, rewrap-eq-ok}
use elysium.Domain.Actor.{ContextActivationInput, is_valid}
use elysium.Domain.Session.{Principal, kind_user, kind_service, second}
use elysium.Token.Claims.{
  JwtClaims, MapClaims, claim_fields, json_object, str_claim, string_slice_claim, claim-json_object,
  text_of-omitempty, texts_of-omitempty,
}
use elysium.Token.Jwt.{
  Signer, Manager, TokenPair, context_claims, service_claims, claims_principal, sign_pair,
  issue_valid, issue_context_token, secure_random_string, refresh_token_bytes,
}

-- The principal that a context is activated for.
unfoldable pub context_principal : ContextActivationInput → Principal
context_principal i = record {
  kind = kind_user;
  actor_type = i.actor_type;
  user_id = i.user_id;
  actor_id = i.actor_id;
  nickname = i.nickname;
  email = i.email;
  permissions = i.permissions;
  delegated_permissions = i.delegated_permissions;
  policy_groups = i.policy_groups;
  client_id = [];
  name = [];
}

-- What each claim of the object of a struct is read as.
module _ (c : JwtClaims) where
  abbrev object : MapClaims
  object = json_object (claim_fields c)

  str_claim-user_id : str_claim object "user_id" ≡ c.user_id
  unfolding str_claim claim_fields
  str_claim-user_id =
      rw (claim-json_object "user_id" (claim_fields c)) (text_of-omitempty c.user_id)

  str_claim-actor_type : str_claim object "actor_type" ≡ c.actor_type
  unfolding str_claim claim_fields
  str_claim-actor_type =
      rw (claim-json_object "actor_type" (claim_fields c)) (text_of-omitempty c.actor_type)

  str_claim-actor_id : str_claim object "actor_id" ≡ c.actor_id
  unfolding str_claim claim_fields
  str_claim-actor_id =
      rw (claim-json_object "actor_id" (claim_fields c)) (text_of-omitempty c.actor_id)

  str_claim-nickname : str_claim object "nickname" ≡ c.nickname
  unfolding str_claim claim_fields
  str_claim-nickname =
      rw (claim-json_object "nickname" (claim_fields c)) (text_of-omitempty c.nickname)

  str_claim-email : str_claim object "email" ≡ c.email
  unfolding str_claim claim_fields
  str_claim-email = rw (claim-json_object "email" (claim_fields c)) (text_of-omitempty c.email)

  str_claim-client_id : str_claim object "client_id" ≡ c.client_id
  unfolding str_claim claim_fields
  str_claim-client_id =
      rw (claim-json_object "client_id" (claim_fields c)) (text_of-omitempty c.client_id)

  str_claim-svc_name : str_claim object "svc_name" ≡ c.service_name
  unfolding str_claim claim_fields
  str_claim-svc_name =
      rw (claim-json_object "svc_name" (claim_fields c)) (text_of-omitempty c.service_name)

  str_claim-kind : str_claim object "kind" ≡ c.kind
  unfolding str_claim claim_fields
  str_claim-kind = rw (claim-json_object "kind" (claim_fields c)) refl

  string_slice_claim-perms : string_slice_claim object "perms" ≡ c.permissions
  unfolding string_slice_claim claim_fields
  string_slice_claim-perms =
      rw (claim-json_object "perms" (claim_fields c)) (texts_of-omitempty c.permissions)

  string_slice_claim-dperms : string_slice_claim object "dperms" ≡ c.delegated_permissions
  unfolding string_slice_claim claim_fields
  string_slice_claim-dperms =
      rw (claim-json_object "dperms" (claim_fields c)) (texts_of-omitempty c.delegated_permissions)

  string_slice_claim-pgroups : string_slice_claim object "pgroups" ≡ c.policy_groups
  unfolding string_slice_claim claim_fields
  string_slice_claim-pgroups =
      rw (claim-json_object "pgroups" (claim_fields c)) (texts_of-omitempty c.policy_groups)

-- The claims of a context token are read back as the context.
pub claims_principal-context :
    (m : Manager) (i : ContextActivationInput) (now : ℕ)
    → is_empty i.user_id ≡ false
    → claims_principal (json_object (claim_fields (context_claims m i now)))
      ≡ ok (context_principal i)
unfolding claims_principal context_principal context_claims ◌==◌
claims_principal-context m i now h =
    let c = context_claims m i now in
    rw
      (
        str_claim-kind c,
        str_claim-user_id c,
        h,
        str_claim-actor_type c,
        str_claim-actor_id c,
        str_claim-nickname c,
        str_claim-email c,
        string_slice_claim-perms c,
        string_slice_claim-dperms c,
        string_slice_claim-pgroups c,
      )
      refl

-- The claims of a service token are read back as the service.
pub claims_principal-service :
    (m : Manager) (client_id name actor_type : Text) (now : ℕ)
    → is_empty client_id ≡ false
    → claims_principal (json_object (claim_fields (service_claims m client_id name actor_type now)))
      ≡ ok (record {
        kind = kind_service;
        actor_type = actor_type;
        user_id = [];
        actor_id = [];
        nickname = [];
        email = [];
        permissions = [];
        delegated_permissions = [];
        policy_groups = [];
        client_id = client_id;
        name = name;
      })
unfolding claims_principal service_claims ◌==◌
claims_principal-service m client_id name actor_type now h =
    let c = service_claims m client_id name actor_type now in
    rw (str_claim-kind c, str_claim-client_id c, h, str_claim-actor_type c, str_claim-svc_name c)
      refl

-- A context token that was issued: its signer signed the claims of the context at the time of the call.
pub record IsIssued {Db : Type 0} (signer : Signer Db) (m : Manager) (i : ContextActivationInput)
    (w : World Db) (pair : TokenPair) : Type 0 where
  pub valid_type : is_valid i.actor_type ≡ true
  pub has_actor : is_empty i.actor_id ≡ false
  pub signed :
      (signer.sign (json_object (claim_fields (context_claims m i (w.clock 0)))) (time_now w).1).0
      ≡ ok pair.access_token
  pub lifetime : pair.expires_in ≡ m.access_duration / second

module _ {Db : Type 0} ⦃b : Base64⦄ (signer : Signer Db) (m : Manager) where
  sign_pair_signed :
      (c : JwtClaims) (w : World Db) (pair : TokenPair)
      → (sign_pair signer m c w).0 ≡ ok pair
      → ((signer.sign (json_object (claim_fields c)) w).0 ≡ ok pair.access_token)
        × (pair.expires_in ≡ m.access_duration / second)
  unfolding sign_pair
  sign_pair_signed c w pair h =
      let finish = λ (signed : Text).
        wrapped "token: generate refresh token" (secure_random_string refresh_token_bytes)
        >>= (λ refresh. return (answer signed refresh)) in
      let (t, e, r) =
        bind-eq-ok (wrapped "token: sign" (signer.sign (json_object (claim_fields c)))) finish w
          pair h in
      let (refresh, e', r') =
        bind-eq-ok
          (wrapped "token: generate refresh token" (secure_random_string refresh_token_bytes))
          (λ refresh. return (answer t refresh)) (signer.sign (json_object (claim_fields c)) w).1
          pair (sym (ap (λ p. p.0) r) ∙ h) in
      let same : ok (answer t refresh) ≡ ok pair =
        sym (ap (λ p. p.0) r') ∙ sym (ap (λ p. p.0) r) ∙ h in
      let sole : answer t refresh ≡ pair = cc same in
      (
        rewrap-eq-ok "token: sign" (signer.sign (json_object (claim_fields c)) w).0 t e
            ∙ ap (λ (p : TokenPair). ok p.access_token) sole,
        ap (λ (p : TokenPair). p.expires_in) (sym sole),
      )
    where
      answer : Text → Text → TokenPair
      answer signed refresh = record {
        access_token = signed;
        refresh_token = refresh;
        expires_in = m.access_duration / second;
      }

  pub issue_context_token-IsIssued :
      (i : ContextActivationInput) (w : World Db) (pair : TokenPair)
      → (issue_context_token signer m i w).0 ≡ ok pair
      → IsIssued signer m i w pair
  unfolding issue_context_token issue_valid time_now
  issue_context_token-IsIssued i w pair h = elim (Bool-cases (is_valid i.actor_type)) [
    | inr e ↦ cc (rw e at h)
    | inl e ↦ elim (Bool-cases (is_empty i.actor_id)) [
      | inl e' ↦ cc (rw (e, e') at h)
      | inr e' ↦
          let s =
            sign_pair_signed (context_claims m i (w.clock 0)) (time_now w).1 pair
              (rw (e, e') at h) in
          record { valid_type = e; has_actor = e'; signed = s.0; lifetime = s.1 }
    ]
  ]
