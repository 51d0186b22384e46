-- ===== src/Handler/Http.antt =====
-- internal/handler/http/handler.go: the endpoints of the session life cycle, `verify` and the zookie
-- header. The handlers behind `authMW` read the principal that the middleware stored.
pub mod Accounts
pub mod Users
pub mod Laws
pub mod Refresh
use elysium.Prelude.{
  ℕ, ◌/◌, String, Bool, true, false, not, ◌&&◌, Option, none, some, List, [], ◌∷◌, ◌++◌, map, Text,
  ◌==◌, lit, has_prefix, trim_prefix, is_empty, if◌then◌else◌,
}
use elysium.Errors.{
  Error, errors_is, Result, ok, err, refresh_replayed, refresh_expired, session_not_found,
  session_not_owned,
}
use elysium.Dgraph.{Dgraph}
use elysium.World.{World, Action, ◌>>=◌, ◌>>◌, return, attempt}
use elysium.Domain.Actor.{ContextActivationInput}
use elysium.Domain.User.{trim_space, User, LoginInput}
use elysium.Domain.ServiceAccount.{ServiceAccount, ServiceLoginInput}
use elysium.Domain.Zookie.{Zookie, has_token}
use elysium.Domain.Session.{Session, Principal, kind_user, kind_service, second}
use elysium.Token.{Digest}
use elysium.Service.Outside.{Crypto, UserRepository, ServiceAccountRepository}
use elysium.Service.Session as Sessions
use elysium.Service.Session.{SessionConfig, SessionOutput, CreateSessionInput, config_access_ttl}
use elysium.Handler.Status.{handle_service_error}
use elysium.Handler.Middleware.{
  Request, Response, respond, panic, write_error, SessionView, Body, no_body, error, status, tokens,
  activated, sessions, Cookie, untouched, cleared, stored, before_comma,
}

-- `clientIP` of the handlers.
unfoldable pub client_ip : Request → Text
client_ip r =
    let ip = trim_space (before_comma r.forwarded_for) in
    if not (r.forwarded_for == []) && not (ip == []) then ip else r.remote_addr

-- `readZookie`, `setZookieHeader`.
unfoldable pub read_zookie : Request → Option Zookie
read_zookie r = if r.zookie == [] then none else some (record { token = r.zookie })

unfoldable pub set_zookie_header : Zookie → List (String × Text)
set_zookie_header z = if has_token z then ("X-Zookie", z.token) ∷ [] else []

-- The answer of the handlers that open a session: they dereference the session of the output.
unfoldable pub opened : SessionConfig → SessionOutput → Option Session → Response
opened c out none = panic
opened c out (some sess) =
    respond 200 (tokens out.access_token (config_access_ttl c / second))
      (stored out.refresh_token sess.refresh_expires_at) []

-- `refresh` for an error of the service.
unfoldable pub refresh_refused : Error → Response
refresh_refused e =
    if errors_is e refresh_replayed
    then respond 401 (error "session compromised; please log in again") cleared []
    else if errors_is e refresh_expired
    then respond 401 (error "session expired; please log in again") cleared []
    else write_error 401 "invalid refresh token"

unfoldable pub refreshed : SessionConfig → Result SessionOutput → Response
refreshed c (err e) = refresh_refused e
refreshed c (ok out) = opened c out out.session

-- `logout`, `logoutAll` on the result of the service.
unfoldable pub logged_out : String → Result (Unit {0}) → Response
logged_out done (err e) = write_error 500 "logout failed"
logged_out done (ok u) = respond 200 (status done) cleared []

-- `listSessions` on the result of the service.
unfoldable pub view : Session → SessionView
view s = record {
  id = s.id;
  actor_type = s.actor_type;
  created_at = s.created_at;
  last_seen_at = s.last_seen_at;
  expires_at = s.expires_at;
  user_agent = s.user_agent;
}

unfoldable pub listed_sessions : Result (List Session) → Response
listed_sessions (err e) = write_error 500 "could not list sessions"
listed_sessions (ok ss) = respond 200 (sessions (map view ss)) untouched []

-- `revokeSession` on the result of the service.
unfoldable pub revoked_session : Result (Unit {0}) → Response
revoked_session (ok u) = respond 204 no_body untouched []
revoked_session (err e) =
    if errors_is e session_not_found
    then write_error 404 "session not found"
    else if errors_is e session_not_owned
    then write_error 403 "not your session"
    else write_error 500 "could not revoke session"

-- `strings.Join(…, ",")`.
unfoldable pub join_commas : List Text → Text
join_commas [] = []
join_commas (t ∷ []) = t
join_commas (t ∷ u ∷ ts) = t ++ b',' ∷ join_commas (u ∷ ts)

abbrev list_header : String → List Text → List (String × Text)
list_header name ts = if is_empty ts then [] else (name, join_commas ts) ∷ []

-- The headers that `verify` sets for a principal.
unfoldable pub kind_headers : Principal → List (String × Text)
kind_headers p =
    if p.kind == kind_user
    then ("X-User-Id", p.user_id) ∷ ("X-Actor-Id", p.actor_id) ∷ ("X-Actor-Type", p.actor_type) ∷ []
    else if p.kind == kind_service
    then ("X-Client-Id", p.client_id) ∷ ("X-Service-Name", p.name) ∷ []
    else []

unfoldable pub identity_headers : Principal → List (String × Text)
identity_headers p =
    ("X-Principal-Kind", p.kind)
    ∷ (kind_headers p
        ++ (list_header "X-Permissions" p.permissions
            ++ (list_header "X-Delegated-Permissions" p.delegated_permissions
                ++ list_header "X-Policy-Groups" p.policy_groups)))

unfoldable pub verify_answer : Result Principal → Response
verify_answer (err e) = respond 401 no_body untouched []
verify_answer (ok p) = respond 200 no_body untouched (identity_headers p)

abbrev pub answer : {Db A : Type 0} → (Result A → Response) → Action Db A → Action Db Response
answer f act w = (ok (f (act w).0), (act w).1)

module _ {Db : Type 0} ⦃dg : Dgraph Db⦄ ⦃d : Digest⦄ (c : SessionConfig) where
  -- `refresh` for the value of the cookie.
  unfoldable pub refresh_with : Request → Option Text → Action Db Response
  refresh_with r none = return (write_error 401 "no refresh token")
  refresh_with r (some cookie) = answer (refreshed c) (
      Sessions.refresh c (record {
        raw_refresh_token = cookie;
        user_agent = r.user_agent;
        ip_address = client_ip r;
      }))

  unfoldable pub refresh : Request → Action Db Response
  refresh r = refresh_with r r.refresh_cookie

  unfoldable pub logout : Request → Action Db Response
  logout r =
      answer (logged_out "logged out")
        (Sessions.logout (trim_prefix r.authorization (lit "Bearer ")))

  unfoldable pub logout_all_as : Option Principal → Action Db Response
  logout_all_as none = return (write_error 403 "not available for service accounts")
  logout_all_as (some p) =
      if not (p.kind == kind_user)
      then return (write_error 403 "not available for service accounts")
      else answer (logged_out "all sessions revoked") (Sessions.logout_all p.user_id)

  unfoldable pub logout_all : Request → Action Db Response
  logout_all r = logout_all_as r.principal

  unfoldable pub list_sessions_as : Option Principal → Action Db Response
  list_sessions_as none = return (write_error 403 "not available for service accounts")
  list_sessions_as (some p) =
      if not (p.kind == kind_user)
      then return (write_error 403 "not available for service accounts")
      else answer listed_sessions (Sessions.list_sessions p.user_id)

  unfoldable pub list_sessions : Request → Action Db Response
  list_sessions r = list_sessions_as r.principal

  unfoldable pub revoke_session_as : Text → Option Principal → Action Db Response
  revoke_session_as target_id none = return (write_error 401 "unauthorized")
  revoke_session_as target_id (some p) =
      if target_id == []
      then return (write_error 400 "session id required")
      else answer revoked_session (Sessions.revoke_session target_id p.user_id)

  unfoldable pub revoke_session : Request → Action Db Response
  revoke_session r = revoke_session_as r.path_value r.principal

module _ {Db : Type 0} ⦃dg : Dgraph Db⦄ ⦃d : Digest⦄ where
  unfoldable pub verify : Request → Action Db Response
  verify r =
      if not (has_prefix r.authorization (lit "Bearer "))
      then return (respond 401 no_body untouched [])
      else answer verify_answer
          (Sessions.verify_token (trim_prefix r.authorization (lit "Bearer ")))
