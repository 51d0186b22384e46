-- ===== src/Handler/Http/Refresh.antt =====
-- internal/handler/http/handler.go over internal/service/session.go: the endpoint `refresh`.
use elysium.Prelude.{ℕ, String, ◌≡◌, refl, ap, ◌⊎◌, true, Option, some, [], Text}
use elysium.Errors.{Sentinel, sentinel, errors_is, Result, ok}
use elysium.Dgraph.{Dgraph}
use elysium.Dgraph.Laws.{IsDgraph}
use elysium.World.{World}
use elysium.Domain.Session.{Session}
use elysium.Token.{Digest, hash_token}
use elysium.Repository.Session.{get_by_refresh_hash, revoke_all_for_user}
use elysium.Service.Session as Sessions
use elysium.Service.Session.{SessionConfig, SessionOutput, RefreshInput}
use elysium.Service.Session.Renewal.Stored.{IsRenewed}
use elysium.Service.Session.Refusals.{refusal, refresh-refusal}
use elysium.Handler.Middleware.{
  Request, Response, respond, error, Cookie, untouched, cleared, stored,
}
use elysium.Handler.Http.{client_ip, refresh_refused, refreshed, refresh_with, refresh}

-- What the endpoint says of a refusal, and what it does to the cookie.
unfoldable pub refusal_text : Sentinel → String
refusal_text Sentinel.refresh_replayed = "session compromised; please log in again"
refusal_text Sentinel.refresh_expired = "session expired; please log in again"
refusal_text _ = "invalid refresh token"

unfoldable pub refusal_cookie : Sentinel → Cookie
refusal_cookie Sentinel.refresh_replayed = cleared
refusal_cookie Sentinel.refresh_expired = cleared
refusal_cookie _ = untouched

abbrev refresh_request : Request → Text → RefreshInput
refresh_request r cookie = record {
  raw_refresh_token = cookie;
  user_agent = r.user_agent;
  ip_address = client_ip r;
}

refused_answer :
    (e : Sentinel)
    → refresh_refused (sentinel e) ≡ respond 401 (error (refusal_text e)) (refusal_cookie e) []
unfolding refusal_text refusal_cookie refresh_refused errors_is
refused_answer Sentinel.user_not_found = refl
refused_answer Sentinel.user_already_exists = refl
refused_answer Sentinel.invalid_credentials = refl
refused_answer Sentinel.invalid_input = refl
refused_answer Sentinel.token_expired = refl
refused_answer Sentinel.token_invalid = refl
refused_answer Sentinel.unauthorized = refl
refused_answer Sentinel.rate_limited = refl
refused_answer Sentinel.session_not_found = refl
refused_answer Sentinel.session_revoked = refl
refused_answer Sentinel.session_expired = refl
refused_answer Sentinel.refresh_replayed = refl
refused_answer Sentinel.refresh_expired = refl
refused_answer Sentinel.session_not_owned = refl
refused_answer Sentinel.refresh_token_replayed = refl

abbrev status_of : Result Response → ℕ
status_of (ok (respond code body k hs)) = code
status_of _ = 0

module _ {Db : Type 0} ⦃dg : Dgraph Db⦄ ⦃d : Digest⦄ where
  endpoint :
      (c : SessionConfig) (r : Request) (cookie : Text) (w : World Db)
      → r.refresh_cookie ≡ some cookie
      → refresh c r w ≡ (
        ok (refreshed c (Sessions.refresh c (refresh_request r cookie) w).0),
        (Sessions.refresh c (refresh_request r cookie) w).1,
      )
  unfolding refresh refresh_with
  endpoint c r cookie w has = simp has refl

  -- If the lookup of the cookie's token succeeds and finds no session, a revoked one or one past its
  -- refresh expiry, the refresh endpoint answers 401 with the message for it, stores no cookie, and
  -- clears the cookie in the last two cases; the database is left as it was, or the session is revoked
  -- and it is left as `RevokeAllForUser` leaves it.
  pub refresh_endpoint_refusal :
      (c : SessionConfig) (r : Request) (cookie : Text) (w : World Db) (o : Option Session)
      (e : Sentinel)
      → r.refresh_cookie ≡ some cookie
      → (get_by_refresh_hash (hash_token cookie) w).0 ≡ ok o
      → refusal o (w.clock 0) ≡ some e
      → ((refresh c r w).0 ≡ ok (respond 401 (error (refusal_text e)) (refusal_cookie e) []))
        × (((refresh c r w).1.db ≡ w.db)
            ⊎ ((sess : Session) × (o ≡ some sess)
                × (sess.revoked ≡ true)
                × ((refresh c r w).1 ≡ (revoke_all_for_user sess.user_id w).1)))
  unfolding refreshed
  refresh_endpoint_refusal c r cookie w o e has found_it why =
      let (answer, effect) = refresh-refusal c (refresh_request r cookie) w o e found_it why in
      rw (endpoint c r cookie w has, answer) (ap ok (refused_answer e), effect)

module _ {Db : Type 0} ⦃dg : Dgraph Db⦄ ⦃d : Digest⦄ (laws : IsDgraph dg) where
  -- What the endpoint has done when it answers with success: it renewed the session of the cookie's
  -- token, and stores the new refresh token in the cookie.
  pub record IsRefreshed (c : SessionConfig) (r : Request) (w : World Db) (k : Cookie)
      : Type 0 where
    pub cookie : Text
    pub sent : r.refresh_cookie ≡ some cookie
    pub out : SessionOutput
    pub new : Session
    pub renewed : IsRenewed laws (refresh_request r cookie) w (refresh c r w).1.db out new
    pub set_cookie : k ≡ stored out.refresh_token new.refresh_expires_at
