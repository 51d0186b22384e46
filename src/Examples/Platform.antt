-- ===== src/Examples/Platform.antt =====
-- Examples on Vault, the configuration and the start of the server.
use elysium.Prelude.{
  ℕ, ◌*◌, ◌≡◌, ◌≢◌, refl, ap, true, false, none, some, List, [], ◌∷◌, ◌++◌, Text, lit, ◌==◌, All,
  arith, subst, String,
}
use elysium.Errors.{ok}
use elysium.Dgraph.Memory.{Memory}
use elysium.World.{time_now, rand_read}
use elysium.Domain.Session.{second}
use elysium.Domain.User.{pos}
use elysium.Domain.Actor.{ContextActivationInput, is_valid}
use elysium.Token.Claims.{MapClaims}
use elysium.Token.Jwt.{
  Manager, TokenPair, issue_context_token, issue_valid, sign_pair, secure_random_string,
}
use elysium.Token.Jwt
use elysium.Token.Jwt.Laws.{context_principal}
use elysium.Vault.{Vault, VaultData, field, str, truth, object, value_at}
use elysium.Vault.Transit.{
  signing_input, hmac_answer, hmac_raw, mac_part, split_n, vault_hmac, JwtLibrary, TransitSigner,
  sign, verify, transit_signer, hmac_request, verify_request,
}
use elysium.Vault.Transit.Laws.{IsTransit, later_version_refused}
use elysium.Vault.Transit.Tokens.{issued_claims, verify-issue_context_token}
use elysium.Examples.{start, repeat}
use elysium.Config.{Config, load, merged, env_str}
use elysium.Config.Laws.{IsBootable, load-IsBootable}
use elysium.Vault.Secrets.{
  SecretManager, read_kv, payload, require_string, atoi, checked_cost, below_floor,
  read_auth_secrets, read_database_secrets,
}
use elysium.Service.Auth.{accepts_cost}
use elysium.Token.Jwt.{accepts_issuer}
use elysium.Server.{Boot, run, signal}
use elysium.Server.Laws.{run_tidy, shutdowns, logins, vault_last, crashes}
use elysium.Examples.Users.{codec, codec-IsBase64, encode_all, decode_all, encode_round}

abbrev ts : TransitSigner
ts = record { mount = lit "transit"; key_name = lit "jwt"; issuer = lit "auth" }

abbrev encoded_input : List (String × Text) → Text
encoded_input ((k, v) ∷ req) = v
encoded_input [] = []

abbrev after_nine : Text → Text
after_nine (_ ∷ _ ∷ _ ∷ _ ∷ _ ∷ _ ∷ _ ∷ _ ∷ _ ∷ t) = t
after_nine t = t

abbrev second_value : List (String × Text) → Text
second_value (a ∷ (k, v) ∷ req) = v
second_value req = []

-- A stand-in for the Transit engine: the MAC of an input is its version and the input.
abbrev mac_with : Text → Text → List ℕ
mac_with version input = version ++ encode_all input

abbrev transit_reply : Text → List (String × Text) → VaultData
transit_reply version req =
    (
      "hmac",
      field (str (lit "vault:v" ++ (version ++ b':' ∷ encode_all (version ++ encoded_input req)))),
    )
    ∷ (
      "valid",
      field (truth (decode_all (after_nine (second_value req)) == lit "1" ++ encoded_input req)),
    )
    ∷ []

-- The payload that the stand-in has at each path of the key-value store.
abbrev secrets : VaultData
secrets =
    (
      "data",
      object (
          ("signing_key", str (lit "a key of thirty-two bytes or more"))
          ∷ ("access_ttl", str (lit "15m"))
          ∷ ("refresh_ttl", str (lit "168h"))
          ∷ ("cost", str (lit "12"))
          ∷ ("dgraph_target", str (lit "alpha:9080"))
          ∷ []),
    )
    ∷ []

abbrev vault_of : Text → Vault Memory
vault_of version = record {
  read = λ path w. (ok (some secrets), w);
  write = λ path req w. (ok (some (transit_reply version req)), w);
}

unfoldable vault_transit :
    (version : Text) → All (λ c. c ≢ b':') version → IsTransit (vault_of version) ts
unfolding hmac_request verify_request value_at
vault_transit version plain = record {
  version = λ w. version;
  mac = mac_with;
  version_plain = λ w. plain;
  hmac_made = λ input w d h. (transit_reply version (hmac_request input), cc, refl);
  hmac_checked = λ input sig w d h. (
    transit_reply version (verify_request input sig),
    cc,
    ap (λ s. s == mac_with (lit "1") input) (encode_round sig),
  );
}

first_plain : All (λ c. c ≢ b':') (lit "1")
first_plain = ((λ e. absurd (omega (arith, e))), tt)

second_plain : All (λ c. c ≢ b':') (lit "2")
second_plain = ((λ e. absurd (omega (arith, e))), tt)

abbrev library : MapClaims → JwtLibrary
library claims = record {
  marshal = λ c. [];
  unmarshal = λ t. some claims;
  validate = λ issuer c now. none;
  sign_hs256 = λ key c. ok [];
  parse_hs256 = λ key issuer token now. ok (record { claims = none; valid = false });
}

abbrev manager : Manager
manager = record { issuer = lit "auth"; access_duration = 900 * second }

abbrev context : ContextActivationInput
context = record {
  user_id = lit "u1";
  nickname = lit "ann";
  email = [];
  actor_id = lit "a1";
  actor_type = lit "ADMIN";
  permissions = lit "trip.start" ∷ [];
  delegated_permissions = [];
  policy_groups = [];
}

abbrev first_of : Text → ℕ
first_of [] = 0
first_of (c ∷ cs) = c

two_ne_one : {ns ms : Text} → (50 ∷ ns) ≢ (49 ∷ ms)
two_ne_one e = absurd (omega (arith, ap (λ t. first_of t) e))

unfoldable later_token : Text
unfolding signing_input
later_token =
    let head = signing_input (vault_of (lit "2")) (library []) ts [] in
    head ++ b'.' ∷ encode_all (mac_with (lit "2") head)

later_version_refused_example :
    (verify (vault_of (lit "2")) (library []) ts later_token start).0
    ≢ ok (record { claims = none; valid = true })
unfolding sign vault_hmac later_token signing_input hmac_answer hmac_raw split_n mac_part value_at
    encode_all decode_all hmac_request vault_transit
later_version_refused_example =
    later_version_refused codec-IsBase64 (vault_of (lit "2")) (library []) ts
      (vault_transit (lit "2") second_plain) [] start start later_token _ refl
      (λ e. absurd (two_ne_one e))

abbrev issued : MapClaims
issued = issued_claims manager context start

unfoldable first_token : Text
unfolding signing_input
first_token =
    let head = signing_input (vault_of (lit "1")) (library issued) ts issued in
    head ++ b'.' ∷ encode_all (mac_with (lit "1") head)

verify-issue_context_token_example :
    (Jwt.verify
      (transit_signer (vault_of (lit "1")) (library issued) ts)
      manager
      first_token
      start).0
    ≡ ok (context_principal context)
unfolding is_valid issue_context_token ◌==◌ issue_valid time_now sign_pair transit_signer sign
    vault_hmac hmac_answer secure_random_string rand_read first_token signing_input decode_all
    encode_all hmac_request vault_transit
verify-issue_context_token_example =
    verify-issue_context_token codec-IsBase64 (vault_of (lit "1")) (library issued) ts
      (vault_transit (lit "1") first_plain) manager context start start
      (record {
        access_token = first_token;
        refresh_token = encode_all (repeat 32 17);
        expires_in = 900;
      })
      _ refl refl refl refl refl refl

unfoldable loaded : Config ℕ
unfolding merged
loaded =
    merged (λ key. [])
      (record {
        jwt_signing_key = lit "a key of thirty-two bytes or more";
        access_token_ttl = pos 5;
        refresh_token_ttl = pos 5;
        bcrypt_cost = pos 12;
      })
      (record { dgraph_target = lit "alpha:9080"; tls_enabled = false }) 10 (pos 30) (pos 5)

loaded-IsBootable : IsBootable loaded
unfolding loaded merged accepts_cost accepts_issuer env_str
loaded-IsBootable = ((12, refl, refl), refl)

abbrev sm : SecretManager
sm = record { kv_mount = lit "secret"; prefix = lit "auth-service" }

load-IsBootable_example : IsBootable loaded
unfolding load read_auth_secrets read_kv payload require_string atoi checked_cost below_floor
    read_database_secrets env_str loaded merged
load-IsBootable_example =
    load-IsBootable (λ key. []) (vault_of (lit "1")) (λ t. some (pos 5)) (λ t. some 10) sm start
      loaded refl

abbrev boot : Boot ℕ
boot = record {
  vault_config = record {
    address = [];
    role_id = lit "role";
    secret_id = lit "secret";
    namespace = [];
    kv_mount = [];
    kv_prefix = [];
  };
  vault_new = true;
  load = some loaded;
  dgraph_new = true;
  schemas = true ∷ true ∷ true ∷ [];
  listen = true;
  wake = signal;
  grpc_in_time = false;
}

boots : (cfg : Config ℕ) → boot.load ≡ some cfg → IsBootable cfg
boots cfg h = subst IsBootable (some_equal h) loaded-IsBootable
  where
    some_equal : boot.load ≡ some cfg → loaded ≡ cfg
    some_equal e = cc

run_tidy_example :
    (shutdowns (run boot).0 ≡ logins (run boot).0)
    × (vault_last (run boot).0 ≡ true)
    × (crashes (run boot).1 ≡ false)
run_tidy_example = run_tidy boot boots
