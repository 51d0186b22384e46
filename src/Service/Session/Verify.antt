-- ===== src/Service/Session/Verify.antt =====
-- internal/service/session.go: what `VerifyToken` and `ValidateSession` accept and refuse.
use elysium.Prelude.{ℕ, ◌≤◌, ◌≡◌, refl, false, Option, none, some, Text, if◌then◌else◌, arith}
use elysium.Errors.{
  Error, sentinel, Sentinel, errors_is, Result, ok, err, wrap, token_expired, token_invalid,
}
use elysium.Dgraph.{Dgraph}
use elysium.Dgraph.Laws.{IsDgraph}
use elysium.World.{World, fetch, time_now, spawn_touch}
use elysium.Domain.Session.{Session, Principal, is_expired, session_is_valid}
use elysium.Token.{Digest, hash_token}
use elysium.Repository.Session.{hash_query, query_one, get_by_access_hash}
use elysium.Repository.Session.Lookup.{IsFound, query_one-IsFound}
use elysium.Service.Session.{
  session_to_principal, verify_error, verified, is_valid_now, check_valid, check_session,
  lookup_and_check, verify_token,
}

-- Opening this opens the verification of a token and all that it calls.
unfoldable pub verification : Unit {0}
unfolding verify_token verified verify_error lookup_and_check check_session check_valid is_valid_now
    get_by_access_hash query_one fetch time_now spawn_touch session_is_valid errors_is
    session_to_principal
verification = tt

-- What `VerifyToken` answers, told from the session found and the time alone.
pub verdict : Option Session → ℕ → Result Principal
unfolding is_expired
verdict none now = err (sentinel token_invalid)
verdict (some s) now =
    if s.revoked
    then err (sentinel token_invalid)
    else if is_expired s now
    then err (sentinel token_expired)
    else ok (session_to_principal s)

module _ {Db : Type 0} ⦃dg : Dgraph Db⦄ ⦃d : Digest⦄ where
  -- If the lookup succeeds, `VerifyToken` answers what the session found and the time alone determine:
  -- invalid for none or a revoked one, expired past its time, its principal otherwise.
  pub verify_token-verdict :
      (raw : Text) (w : World Db) (o : Option Session)
      → (get_by_access_hash (hash_token raw) w).0 ≡ ok o
      → (verify_token raw w).0 ≡ verdict o (w.clock 0)
  unfolding verification verdict
  verify_token-verdict raw w none h = ground arith
  verify_token-verdict raw w (some s) h = ground arith

  -- If the lookup fails, `VerifyToken` passes the wrapped error on, and that error is none of the
  -- sentinels.
  pub verify_token_unavailable :
      (raw : Text) (w : World Db) (e : Error)
      → (get_by_access_hash (hash_token raw) w).0 ≡ err e
      → ((verify_token raw w).0 ≡ err (wrap "looking up session" e))
        × ((s : Sentinel) → errors_is e s ≡ false)
  unfolding verification
  verify_token_unavailable raw w e h = (ground arith, λ s. ground arith)

verified-eq-ok :
    (r : Result Session) (p : Principal)
    → verified r ≡ ok p
    → (s : Session) × (r ≡ ok s) × (p ≡ session_to_principal s)
unfolding verified
verified-eq-ok (ok s) p h = (s, refl, ground arith)
verified-eq-ok (err e) p h = cc

module _ {Db : Type 0} ⦃dg : Dgraph Db⦄ ⦃d : Digest⦄ (laws : IsDgraph dg) where
  -- The session found, and the tests that it passed.
  pub record IsAccepted (raw : Text) (w : World Db) (s : Session) : Type 0 where
    pub stored : IsFound laws (hash_query "session.access_token_hash" (hash_token raw)) w.db s
    pub active : s.revoked ≡ false
    pub in_time : w.clock 0 ≤ s.expires_at

  pub lookup_and_check-IsAccepted :
      (raw : Text) (w : World Db) (s : Session)
      → (lookup_and_check raw w).0 ≡ ok s
      → IsAccepted raw w s
  unfolding verification
  lookup_and_check-IsAccepted raw w s h = record {
    stored = query_one-IsFound laws "session.access_token_hash" (hash_token raw) w s (ground arith);
    active = ground arith;
    in_time = ground arith;
  }

  -- `VerifyToken` returns a principal only for a session that is stored with the hash of the token, is
  -- not revoked and is within its time, and the principal is that of the session.
  pub verify_token_sound :
      (raw : Text) (w : World Db) (p : Principal)
      → (verify_token raw w).0 ≡ ok p
      → (s : Session) × IsAccepted raw w s × (p ≡ session_to_principal s)
  unfolding verify_token
  verify_token_sound raw w p h =
      let (s, found_it, same) = verified-eq-ok (lookup_and_check raw w).0 p h in
      (s, lookup_and_check-IsAccepted raw w s found_it, same)
