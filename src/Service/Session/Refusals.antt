-- ===== src/Service/Session/Refusals.antt =====
-- internal/service/session.go: what `Refresh` refuses, and what a replay does.
use elysium.Prelude.{
  ℕ, ap, ◌∙◌, inl, inr, Bool-cases, Option, if◌then◌else◌, ◌≡◌, refl, ◌⊎◌, true, false, none, some,
  Text, arith,
}
use elysium.Errors.{
  Sentinel, sentinel, ok, err, session_not_found, refresh_replayed, refresh_expired,
}
use elysium.Dgraph.{Dgraph}
use elysium.World.{World, fetch, time_now}
use elysium.Domain.Session.{Session, is_refresh_expired}
use elysium.Token.{Digest, hash_token}
use elysium.Repository.Session.{query_one, get_by_refresh_hash, revoke_all_for_user}
use elysium.Service.Session.{SessionConfig, RefreshInput, revoke_quietly, refresh_found, refresh}

module _ {Db : Type 0} ⦃dg : Dgraph Db⦄ ⦃d : Digest⦄ where
  pub fetch_keeps : (h : Text) (w : World Db) → (get_by_refresh_hash h w).1 ≡ w
  unfolding get_by_refresh_hash query_one fetch
  fetch_keeps h w = ground arith

  refresh_replay :
      (c : SessionConfig) (i : RefreshInput) (w : World Db) (sess : Session)
      → (get_by_refresh_hash (hash_token i.raw_refresh_token) w).0 ≡ ok (some sess)
      → sess.revoked ≡ true
      → refresh c i w ≡ (err (sentinel refresh_replayed), (revoke_all_for_user sess.user_id w).1)
  unfolding refresh refresh_found revoke_quietly
  refresh_replay c i w sess h r = rw (h, fetch_keeps (hash_token i.raw_refresh_token) w, r) refl

  refresh_late :
      (c : SessionConfig) (i : RefreshInput) (w : World Db) (sess : Session)
      → (get_by_refresh_hash (hash_token i.raw_refresh_token) w).0 ≡ ok (some sess)
      → sess.revoked ≡ false
      → is_refresh_expired sess (w.clock 0) ≡ true
      → ((refresh c i w).0 ≡ err (sentinel refresh_expired)) × ((refresh c i w).1.db ≡ w.db)
  unfolding refresh refresh_found time_now is_refresh_expired
  refresh_late c i w sess h r e =
      rw (h, fetch_keeps (hash_token i.raw_refresh_token) w, r, e) (refl, refl)

  refresh_without_session :
      (c : SessionConfig) (i : RefreshInput) (w : World Db)
      → (get_by_refresh_hash (hash_token i.raw_refresh_token) w).0 ≡ ok none
      → refresh c i w ≡ (err (sentinel session_not_found), w)
  unfolding refresh refresh_found
  refresh_without_session c i w h = rw (h, fetch_keeps (hash_token i.raw_refresh_token) w) refl

-- Why a refresh token is refused, told from the session found and the time; `none` for a session that
-- may be rotated.
unfoldable pub refusal : Option Session → ℕ → Option Sentinel
refusal none now = some session_not_found
refusal (some s) now =
    if s.revoked
    then some refresh_replayed
    else if is_refresh_expired s now
    then some refresh_expired
    else none

module _ {Db : Type 0} ⦃dg : Dgraph Db⦄ ⦃d : Digest⦄ where
  -- If the lookup succeeds and finds no session, a revoked one or one past its refresh expiry, `Refresh`
  -- answers the error that says which; it leaves the database as it was, or the session is revoked and
  -- it leaves what `RevokeAllForUser` leaves.
  pub refresh-refusal :
      (c : SessionConfig) (i : RefreshInput) (w : World Db) (o : Option Session) (e : Sentinel)
      → (get_by_refresh_hash (hash_token i.raw_refresh_token) w).0 ≡ ok o
      → refusal o (w.clock 0) ≡ some e
      → ((refresh c i w).0 ≡ err (sentinel e))
        × (((refresh c i w).1.db ≡ w.db)
            ⊎ ((sess : Session) × (o ≡ some sess)
                × (sess.revoked ≡ true)
                × ((refresh c i w).1 ≡ (revoke_all_for_user sess.user_id w).1)))
  unfolding refusal is_refresh_expired
  refresh-refusal c i w none e h r =
      let same : session_not_found ≡ e = cc in
      rw (refresh_without_session c i w h) (ap (λ x. err (sentinel x)) same, inl refl)
  refresh-refusal c i w (some sess) e h r = elim (Bool-cases sess.revoked) [
    | inl revoked ↦
        let same : refresh_replayed ≡ e = cc (rw revoked at r) in
        rw (refresh_replay c i w sess h revoked)
          (ap (λ x. err (sentinel x)) same, inr (sess, refl, revoked, refl))
    | inr active ↦ elim (Bool-cases (is_refresh_expired sess (w.clock 0))) [
      | inl late ↦
          let same : refresh_expired ≡ e = cc (rw (active, late) at r) in
          let (answer, kept) = refresh_late c i w sess h active late in
          (answer ∙ ap (λ x. err (sentinel x)) same, inl kept)
      | inr early ↦ cc (rw (active, early) at r)
    ]
  ]
