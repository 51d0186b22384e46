-- ===== src/Service/Session.antt =====
-- internal/service/session.go: `SessionService`, the life of opaque-token sessions. Logging and
-- deadlines are left out.
pub mod Activation
pub mod Verify
pub mod Trace
pub mod Refusals
pub mod Renewal
pub mod Ownership
use elysium.Prelude.{
  ℕ, ◌+◌, Bool, true, false, not, ◌&&◌, ◌||◌, Option, none, some, List, [], ◌∷◌, Text, ◌==◌, nat_eq,
  if◌then◌else◌,
}
use elysium.Errors.{
  Error, sentinel, errors_is, Result, ok, err, wrap, session_not_found, session_revoked,
  session_expired, refresh_replayed, refresh_expired, session_not_owned, refresh_token_replayed,
  token_expired, token_invalid,
}
use elysium.Dgraph.{Dgraph}
use elysium.World.{
  World, Action, ◌>>=◌, ◌>>◌, return, fail, wrapped, attempt, time_now, spawn_touch,
}
use elysium.Domain.Session.{
  Session, SessionCreateInput, SessionRefreshInput, Principal, session_is_valid, is_expired,
  is_refresh_expired,
}
use elysium.Token.{
  Digest, OpaqueToken, default_access_ttl, default_refresh_ttl, hash_token, generate_access_token,
  generate_refresh_token, generate_jti,
}
use elysium.Repository.Session as Repo

pub record SessionConfig : Type 0 where
  pub access_ttl : ℕ
  pub refresh_ttl : ℕ

-- `accessTTL`, `refreshTTL`: the default where the configuration has 0.
unfoldable pub config_access_ttl : SessionConfig → ℕ
config_access_ttl c = if nat_eq c.access_ttl 0 then default_access_ttl else c.access_ttl

unfoldable pub config_refresh_ttl : SessionConfig → ℕ
config_refresh_ttl c = if nat_eq c.refresh_ttl 0 then default_refresh_ttl else c.refresh_ttl

pub record CreateSessionInput : Type 0 where
  pub kind : Text
  pub user_id : Text
  pub client_id : Text
  pub actor_id : Text
  pub actor_type : Text
  pub permissions : List Text
  pub delegated_permissions : List Text
  pub policy_groups : List Text
  pub permission_version : ℕ
  pub user_agent : Text
  pub ip_address : Text

-- `CreateSessionOutput` and `RefreshOutput`. The repository's session may be nil.
pub record SessionOutput : Type 0 where
  pub session : Option Session
  pub access_token : Text
  pub refresh_token : Text

pub record RefreshInput : Type 0 where
  pub raw_refresh_token : Text
  pub user_agent : Text
  pub ip_address : Text

-- `sessionToPrincipal`.
unfoldable pub session_to_principal : Session → Principal
session_to_principal s = record {
  kind = s.kind;
  actor_type = s.actor_type;
  user_id = s.user_id;
  actor_id = s.actor_id;
  nickname = [];
  email = [];
  permissions = s.permissions;
  delegated_permissions = s.delegated_permissions;
  policy_groups = s.policy_groups;
  client_id = s.client_id;
  name = [];
}

-- What `Create` passes to the repository.
unfoldable pub create_input :
    SessionConfig → CreateSessionInput → OpaqueToken → OpaqueToken → Text → ℕ → SessionCreateInput
create_input c i atk rtk jti now = record {
  kind = i.kind;
  user_id = i.user_id;
  client_id = i.client_id;
  actor_id = i.actor_id;
  actor_type = i.actor_type;
  access_token_hash = atk.hash;
  refresh_token_hash = rtk.hash;
  refresh_jti = jti;
  permissions = i.permissions;
  delegated_permissions = i.delegated_permissions;
  policy_groups = i.policy_groups;
  permission_version = i.permission_version;
  expires_at = now + config_access_ttl c;
  refresh_expires_at = now + config_refresh_ttl c;
  user_agent = i.user_agent;
  ip_address = i.ip_address;
}

-- What `Refresh` passes to the repository: no permissions, and the expiry of the token family.
unfoldable pub refresh_input :
    SessionConfig
    → RefreshInput
    → Session
    → OpaqueToken
    → OpaqueToken
    → Text
    → ℕ
    → SessionRefreshInput
refresh_input c i sess atk rtk jti now = record {
  old_session_id = sess.id;
  new_access_token_hash = atk.hash;
  new_refresh_token_hash = rtk.hash;
  new_refresh_jti = jti;
  permissions = [];
  delegated_permissions = [];
  policy_groups = [];
  permission_version = 0;
  new_expires_at = now + config_access_ttl c;
  new_refresh_expires_at = sess.refresh_expires_at;
  user_agent = i.user_agent;
  ip_address = i.ip_address;
}

-- The translation of errors in `VerifyToken`.
unfoldable pub verify_error : Error → Error
verify_error e =
    if errors_is e session_expired
    then sentinel token_expired
    else if errors_is e session_revoked || errors_is e session_not_found
    then sentinel token_invalid
    else e

-- `VerifyToken` on the result of `lookupAndCheck`.
unfoldable pub verified : Result Session → Result Principal
verified (ok sess) = ok (session_to_principal sess)
verified (err e) = err (verify_error e)

module _ {Db : Type 0} ⦃dg : Dgraph Db⦄ ⦃d : Digest⦄ where
  -- The three tokens that `Create` and `Refresh` mint, in their order.
  unfoldable pub create : SessionConfig → CreateSessionInput → Action Db SessionOutput
  create c i = do
    atk ← wrapped "generating access token" generate_access_token
    rtk ← wrapped "generating refresh token" generate_refresh_token
    jti ← wrapped "generating refresh JTI" generate_jti
    now ← time_now
    sess ← wrapped "persisting session" (Repo.create (create_input c i atk rtk jti now))
    return (record { session = sess; access_token = atk.raw; refresh_token = rtk.raw })

  -- `sess.IsValid()`, which reads the clock only for a session that is not revoked.
  unfoldable pub is_valid_now : Session → Action Db Bool
  is_valid_now sess =
      if sess.revoked then return false else (do now ← time_now; return (session_is_valid sess now))

  -- `lookupAndCheck` on the answer of `IsValid`.
  unfoldable pub check_valid : Session → Bool → Action Db Session
  check_valid sess true = do spawn_touch sess.id; return sess
  check_valid sess false =
      if sess.revoked then fail (sentinel session_revoked) else fail (sentinel session_expired)

  -- `lookupAndCheck` on what the repository found.
  unfoldable pub check_session : Option Session → Action Db Session
  check_session none = fail (sentinel session_not_found)
  check_session (some sess) = do valid ← is_valid_now sess; check_valid sess valid

  unfoldable pub lookup_and_check : Text → Action Db Session
  lookup_and_check raw = do
    found ← wrapped "looking up session" (Repo.get_by_access_hash (hash_token raw))
    check_session found

  unfoldable pub verify_token : Text → Action Db Principal
  verify_token raw w = (verified (lookup_and_check raw w).0, (lookup_and_check raw w).1)

  unfoldable pub validate_session : Text → Action Db Session
  validate_session raw = lookup_and_check raw

  -- `_ = s.sessions.RevokeAllForUser(…)`: its error is dropped.
  unfoldable pub revoke_quietly : Text → Action Db (Unit {0})
  revoke_quietly user_id w = (ok tt, (Repo.revoke_all_for_user user_id w).1)

  -- `Refresh` on the result of `RotateTokens`.
  unfoldable pub rotated :
      Session → OpaqueToken → OpaqueToken → Result (Option Session) → Action Db SessionOutput
  rotated sess atk rtk (ok new_sess) =
      return (record { session = new_sess; access_token = atk.raw; refresh_token = rtk.raw })
  rotated sess atk rtk (err e) =
      if errors_is e refresh_token_replayed
      then (do revoke_quietly sess.user_id; fail (sentinel refresh_replayed))
      else fail (wrap "rotating session tokens" e)

  -- `Refresh` for a session that is neither revoked nor expired.
  unfoldable pub rotate : SessionConfig → RefreshInput → Session → Action Db SessionOutput
  rotate c i sess = do
    atk ← wrapped "generating access token" generate_access_token
    rtk ← wrapped "generating refresh token" generate_refresh_token
    jti ← wrapped "generating refresh JTI" generate_jti
    now ← time_now
    result ← attempt (Repo.rotate_tokens (refresh_input c i sess atk rtk jti now))
    rotated sess atk rtk result

  unfoldable pub refresh_found :
      SessionConfig → RefreshInput → Option Session → Action Db SessionOutput
  refresh_found c i none = fail (sentinel session_not_found)
  refresh_found c i (some sess) =
      if sess.revoked
      then (do revoke_quietly sess.user_id; fail (sentinel refresh_replayed))
      else (do
        now ← time_now
        if is_refresh_expired sess now then fail (sentinel refresh_expired) else rotate c i sess)

  unfoldable pub refresh : SessionConfig → RefreshInput → Action Db SessionOutput
  refresh c i = do
    found ←
        wrapped "looking up refresh session"
          (Repo.get_by_refresh_hash (hash_token i.raw_refresh_token))
    refresh_found c i found

  unfoldable pub logout_found : Option Session → Action Db (Unit {0})
  logout_found none = return tt
  logout_found (some sess) = Repo.revoke sess.id

  unfoldable pub logout : Text → Action Db (Unit {0})
  logout raw = do
    found ← wrapped "looking up session for logout" (Repo.get_by_access_hash (hash_token raw))
    logout_found found

  unfoldable pub logout_all : Text → Action Db (Unit {0})
  logout_all user_id = Repo.revoke_all_for_user user_id

  unfoldable pub revoke_found : Text → Text → Option Session → Action Db (Unit {0})
  revoke_found session_id user_id none = fail (sentinel session_not_found)
  revoke_found session_id user_id (some sess) =
      if sess.user_id == user_id then Repo.revoke session_id else fail (sentinel session_not_owned)

  unfoldable pub revoke_session : Text → Text → Action Db (Unit {0})
  revoke_session session_id user_id = do
    found ← wrapped "looking up session" (Repo.get_by_id session_id)
    revoke_found session_id user_id found

  unfoldable pub list_sessions : Text → Action Db (List Session)
  list_sessions user_id = Repo.list_for_user user_id
