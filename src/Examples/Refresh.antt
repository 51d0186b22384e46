-- ===== src/Examples/Refresh.antt =====
-- Examples on the endpoint that refreshes a session.
use elysium.Prelude.{◌*◌, ◌≡◌, refl, ◌⊎◌, true, none, some, [], ◌++◌, Text, lit}
use elysium.Errors.{ok, refresh_replayed}
use elysium.Dgraph.Memory.{memory, memory_laws, next_uid}
use elysium.Domain.Session.{Session, second}
use elysium.Token.{generate_jti, hex_encode, prefix_access, prefix_refresh}
use elysium.Repository.Session.{revoke_all_for_user}
use elysium.Handler.Middleware.{Request, respond, error, Cookie, stored}
use elysium.Handler.Http.{refresh}
use elysium.Handler.Http.Refresh.{refusal_text, refusal_cookie, refresh_endpoint_refusal}
use elysium.Service.Session as Sessions
use elysium.Service.Session.{RefreshInput, SessionOutput}
use elysium.Service.Session.Renewal.Stored.{IsRenewed, refresh-IsRenewed}
use elysium.Repository.Session.Lookup.{session_at}
use elysium.Examples.{digest, start, two_users, config, repeat, first_session, evaluated}

abbrev request : Text → Request
request cookie = record {
  authorization = [];
  forwarded_for = [];
  remote_addr = lit "10.0.0.1:80";
  refresh_cookie = some cookie;
  user_agent = [];
  zookie = [];
  path_value = [];
  principal = none;
}

refresh_endpoint_refusal_example :
    ((refresh config (request (lit "rtk_1")) start).0
      ≡ ok (
          respond 401 (error (refusal_text refresh_replayed)) (refusal_cookie refresh_replayed) []))
    × (((refresh config (request (lit "rtk_1")) start).1.db ≡ start.db)
        ⊎ ((sess : Session) × (some first_session ≡ some sess)
            × (sess.revoked ≡ true)
            × ((refresh config (request (lit "rtk_1")) start).1
                ≡ (revoke_all_for_user sess.user_id start).1)))
unfolding evaluated
refresh_endpoint_refusal_example =
    refresh_endpoint_refusal config (request (lit "rtk_1")) (lit "rtk_1") start (some first_session)
      refresh_replayed refl refl refl

abbrev new_cookie : Cookie
new_cookie = stored (prefix_refresh ++ hex_encode (repeat 32 18)) (2000 * second)

abbrev renewal : RefreshInput
renewal = record { raw_refresh_token = lit "rtk_2"; user_agent = []; ip_address = [] }

unfoldable renewed_session : Session
renewed_session =
    session_at memory_laws (Sessions.refresh config renewal start).1.db (next_uid two_users)

abbrev renewed : SessionOutput
renewed = record {
  session = some renewed_session;
  access_token = prefix_access ++ hex_encode (repeat 32 17);
  refresh_token = prefix_refresh ++ hex_encode (repeat 32 18);
}

refresh-IsRenewed_example :
    IsRenewed memory_laws renewal start
      (Sessions.refresh config renewal start).1.db
      renewed
      renewed_session
unfolding evaluated renewed_session Sessions.refresh Sessions.refresh_found Sessions.rotate
    generate_jti Sessions.rotated Sessions.refresh_input
refresh-IsRenewed_example =
    refresh-IsRenewed memory_laws config renewal start renewed renewed_session refl refl
