-- ===== src/Token/Jwt.antt =====
-- internal/token/jwt.go: `Manager`, which issues and verifies JWTs. Its `Signer` is the interface of
-- the source; internal/vault/transit.go implements it.
pub mod Laws
use elysium.Prelude.{
  ℕ, ◌+◌, ◌/◌, String, Bool, true, false, not, ◌||◌, ◌==◌, Option, none, some, List, [], ◌∷◌, ◌++◌,
  Text, lit, is_empty, has_prefix, if◌then◌else◌,
}
use elysium.Errors.{
  Error, outside, wrap, sentinel, Sentinel, Result, ok, err, invalid_input, token_expired,
  token_invalid,
}
use elysium.Base64.{Base64}
use elysium.World.{World, Action, ◌>>=◌, ◌>>◌, return, fail, wrapped, time_now, rand_read}
use elysium.Domain.Actor.{ContextActivationInput, is_valid}
use elysium.Domain.Session.{Principal, kind_user, kind_service, second}
use elysium.Token.Claims.{
  MapClaims, JwtClaims, claim_fields, json_object, str_claim, string_slice_claim,
}

-- `jwt.Token`, as far as it is read: the claims, if they are `MapClaims`, and `Valid`.
pub record JwtToken : Type 0 where
  pub claims : Option MapClaims
  pub valid : Bool

-- `Signer`. The claims to sign are given by their JSON object.
pub record Signer (Db : Type 0) : Type 0 where
  pub sign : MapClaims → Action Db Text
  pub verify : Text → Action Db JwtToken

-- `TokenPair`.
pub record TokenPair : Type 0 where
  pub access_token : Text
  pub refresh_token : Text
  pub expires_in : ℕ

-- `Manager` but its signer.
pub record Manager : Type 0 where
  pub issuer : Text
  pub access_duration : ℕ

-- `New` panics where this is false; a nil signer is not represented.
unfoldable pub accepts_issuer : Text → Bool
accepts_issuer issuer = not (is_empty issuer)

-- `refreshTokenBytes`.
abbrev pub refresh_token_bytes : ℕ
refresh_token_bytes = 32

-- The texts of the errors, `err.Error()`.
abbrev pub sentinel_text : Sentinel → Text
sentinel_text Sentinel.user_not_found = lit "user not found"
sentinel_text Sentinel.user_already_exists = lit "user already exists"
sentinel_text Sentinel.invalid_credentials = lit "invalid credentials"
sentinel_text Sentinel.invalid_input = lit "invalid input"
sentinel_text Sentinel.token_expired = lit "token expired"
sentinel_text Sentinel.token_invalid = lit "token invalid"
sentinel_text Sentinel.unauthorized = lit "unauthorized"
sentinel_text Sentinel.rate_limited = lit "rate limit exceeded"
sentinel_text Sentinel.session_not_found = lit "session not found"
sentinel_text Sentinel.session_revoked = lit "session has been revoked"
sentinel_text Sentinel.session_expired = lit "session access window has expired"
sentinel_text Sentinel.refresh_replayed =
    lit "refresh token has already been used "
    ++ (226 ∷ 128 ∷ 148 ∷ lit " potential compromise detected")
sentinel_text Sentinel.refresh_expired =
    lit "refresh token family has expired; re-authentication required"
sentinel_text Sentinel.session_not_owned = lit "session does not belong to the requesting user"
sentinel_text Sentinel.refresh_token_replayed =
    lit "refresh token has already been rotated or revoked"

unfoldable pub error_text : Error → Text
error_text (outside m) = lit m
error_text (wrap m e) = lit m ++ lit ": " ++ error_text e
error_text (sentinel s) = sentinel_text s

-- `strings.Contains`.
unfoldable pub contains : Text → Text → Bool
unfolding has_prefix
contains [] t = is_empty t
contains (c ∷ cs) t = has_prefix (c ∷ cs) t || contains cs t

unfoldable pub basic_claims : Manager → Text → Text → Text → ℕ → JwtClaims
basic_claims m user_id nickname email now = record {
  issued_at = now / second;
  expires_at = (now + m.access_duration) / second;
  issuer = m.issuer;
  subject = user_id;
  kind = kind_user;
  actor_type = [];
  user_id = user_id;
  actor_id = [];
  nickname = nickname;
  email = email;
  permissions = [];
  delegated_permissions = [];
  policy_groups = [];
  client_id = [];
  service_name = [];
}

unfoldable pub context_claims : Manager → ContextActivationInput → ℕ → JwtClaims
context_claims m i now = record {
  issued_at = now / second;
  expires_at = (now + m.access_duration) / second;
  issuer = m.issuer;
  subject = i.user_id;
  kind = kind_user;
  actor_type = i.actor_type;
  user_id = i.user_id;
  actor_id = i.actor_id;
  nickname = i.nickname;
  email = i.email;
  permissions = i.permissions;
  delegated_permissions = i.delegated_permissions;
  policy_groups = i.policy_groups;
  client_id = [];
  service_name = [];
}

unfoldable pub service_claims : Manager → Text → Text → Text → ℕ → JwtClaims
service_claims m client_id name actor_type now = record {
  issued_at = now / second;
  expires_at = (now + m.access_duration) / second;
  issuer = m.issuer;
  subject = client_id;
  kind = kind_service;
  actor_type = actor_type;
  user_id = [];
  actor_id = [];
  nickname = [];
  email = [];
  permissions = [];
  delegated_permissions = [];
  policy_groups = [];
  client_id = client_id;
  service_name = name;
}

-- `Verify` on the claims of a valid token.
unfoldable pub claims_principal : MapClaims → Result Principal
unfolding ◌==◌
claims_principal c =
    if str_claim c "kind" == kind_user
    then (if is_empty (str_claim c "user_id")
        then err (sentinel token_invalid)
        else ok (record {
          kind = kind_user;
          actor_type = str_claim c "actor_type";
          user_id = str_claim c "user_id";
          actor_id = str_claim c "actor_id";
          nickname = str_claim c "nickname";
          email = str_claim c "email";
          permissions = string_slice_claim c "perms";
          delegated_permissions = string_slice_claim c "dperms";
          policy_groups = string_slice_claim c "pgroups";
          client_id = [];
          name = [];
        }))
    else if str_claim c "kind" == kind_service
    then (if is_empty (str_claim c "client_id")
        then err (sentinel token_invalid)
        else ok (record {
          kind = kind_service;
          actor_type = str_claim c "actor_type";
          user_id = [];
          actor_id = [];
          nickname = [];
          email = [];
          permissions = [];
          delegated_permissions = [];
          policy_groups = [];
          client_id = str_claim c "client_id";
          name = str_claim c "svc_name";
        }))
    else err (sentinel token_invalid)

-- `mapClaims, ok := tok.Claims.(jwt.MapClaims); if !ok || !tok.Valid`.
unfoldable pub token_claims : Option MapClaims → Bool → Result Principal
token_claims none valid = err (sentinel token_invalid)
token_claims (some c) valid = if not valid then err (sentinel token_invalid) else claims_principal c

-- `Verify` on what the signer answered.
unfoldable pub verified_token : Result JwtToken → Result Principal
verified_token (err e) =
    if contains (error_text e) (lit "expired")
    then err (sentinel token_expired)
    else err (sentinel token_invalid)
verified_token (ok tok) = token_claims tok.claims tok.valid

module _ {Db : Type 0} ⦃b : Base64⦄ where
  unfoldable pub secure_random_string : ℕ → Action Db Text
  secure_random_string n = do bytes ← rand_read n; return (b.url_encode bytes)

  module _ (signer : Signer Db) (m : Manager) where
    unfoldable pub sign_pair : JwtClaims → Action Db TokenPair
    sign_pair claims = do
      signed ← wrapped "token: sign" (signer.sign (json_object (claim_fields claims)))
      refresh ← wrapped "token: generate refresh token" (secure_random_string refresh_token_bytes)
      return (record {
        access_token = signed;
        refresh_token = refresh;
        expires_in = m.access_duration / second;
      })

    unfoldable pub issue : Text → Text → Text → Action Db TokenPair
    issue user_id nickname email = do
      now ← time_now
      sign_pair (basic_claims m user_id nickname email now)

    unfoldable pub issue_valid : ContextActivationInput → Action Db TokenPair
    issue_valid i = do now ← time_now; sign_pair (context_claims m i now)

    unfoldable pub issue_context_token : ContextActivationInput → Action Db TokenPair
    issue_context_token i =
        if not (is_valid i.actor_type)
        then fail (wrap "invalid input" (sentinel invalid_input))
        else if is_empty i.actor_id
        then fail (wrap "invalid input" (sentinel invalid_input))
        else issue_valid i

    unfoldable pub issue_service_token : Text → Text → Text → Action Db TokenPair
    issue_service_token client_id name actor_type = do
      now ← time_now
      sign_pair (service_claims m client_id name actor_type now)

    unfoldable pub verify : Text → Action Db Principal
    verify token w = (verified_token (signer.verify token w).0, (signer.verify token w).1)
