-- ===== src/Service/Session/Renewal.antt =====
-- internal/service/session.go: what a successful `Refresh` has done.
pub mod Stored
use elysium.Prelude.{
  ◌≢◌, mem_text, ℕ, ◌/◌, ◌*◌, ◌≤◌, ◌≡◌, refl, sym, ap, ◌∙◌, subst, inl, inr, true, false,
  Bool-cases, Option, none, some, Option-cases, Text, arith,
}
use elysium.Errors.{
  Sentinel, session_not_found, refresh_replayed, refresh_expired, Error, errors_is,
  refresh_token_replayed, Result, ok, err,
}
use elysium.Dgraph.{Dgraph}
use elysium.World.{World, Action, ◌>>=◌, wrapped, attempt, time_now, rand_read}
use elysium.World.Success.{bind-eq-ok, rewrap-eq-ok}
use elysium.Domain.Session.{Session, second, is_refresh_expired}
use elysium.Token.{
  Digest, OpaqueToken, hash_token, generate, generate_access_token, generate_refresh_token,
  generate_jti, prefix_access, prefix_refresh,
}
use elysium.Repository.Session as Repo
use elysium.Dgraph.Laws.{IsDgraph, select, listed}
use elysium.Repository.Session.Wire.{
  SessionNode, unmarshal_session, node_to_session, rotation_fields,
}
use elysium.Repository.Session.Lookup.{IsFound, session_at, query_one-IsFound}
use elysium.Repository.Session.Revoked.{IsRevoked}
use elysium.Repository.Session.Rotation.{IsOld, IsRotated}
use elysium.Repository.Session.Rotation.Stored.{rotate_tokens-IsRotated}
use elysium.Service.Session.Refusals.{refusal, refresh-refusal, fetch_keeps}
use elysium.Service.Session.{
  refresh_found, refresh, SessionConfig, RefreshInput, SessionOutput, refresh_input, revoke_quietly,
  rotated, rotate,
}

module _ {Db : Type 0} ⦃d : Digest⦄ where
  -- A token carries the hash of its raw text, and making one leaves the database alone.
  hash-generate :
      (prefix : Text) (w : World Db) (t : OpaqueToken)
      → (generate prefix w).0 ≡ ok t
      → t.hash ≡ hash_token t.raw
  unfolding generate rand_read
  hash-generate prefix w t h = ground arith

  db-generate : (prefix : Text) (w : World Db) → (generate prefix w).1.db ≡ w.db
  unfolding generate rand_read
  db-generate prefix w = ground arith

  db-generate_jti : (w : World Db) → (generate_jti w).1.db ≡ w.db
  unfolding generate_jti rand_read
  db-generate_jti w = ground arith

module _ {Db : Type 0} ⦃dg : Dgraph Db⦄ ⦃d : Digest⦄ where
  -- The rotation that a success of `rotate` has made, on a state with the same database.
  pub record IsRotation (c : SessionConfig) (i : RefreshInput) (sess : Session) (w : World Db)
      (out : SessionOutput) (after : World Db) : Type 0 where
    pub atk : OpaqueToken
    pub rtk : OpaqueToken
    pub jti : Text
    pub now : ℕ
    pub before : World Db
    pub same_db : before.db ≡ w.db
    pub access : atk.hash ≡ hash_token out.access_token
    pub refresh : rtk.hash ≡ hash_token out.refresh_token
    pub rotation :
        (Repo.rotate_tokens (refresh_input c i sess atk rtk jti now) before).0 ≡ ok out.session
    pub left : after ≡ (Repo.rotate_tokens (refresh_input c i sess atk rtk jti now) before).1

  rotated_ok :
      (sess : Session) (atk rtk : OpaqueToken) (r : Result (Option Session)) (w : World Db)
      (out : SessionOutput)
      → (rotated sess atk rtk r w).0 ≡ ok out
      → (r ≡ ok out.session)
        × (out.access_token ≡ atk.raw)
        × (out.refresh_token ≡ rtk.raw)
        × ((rotated sess atk rtk r w).1 ≡ w)
  unfolding rotated revoke_quietly
  rotated_ok sess atk rtk (ok s) w out h =
      let same : record { session = s; access_token = atk.raw; refresh_token = rtk.raw } ≡ out =
        cc in
      (
        ap (λ (o : SessionOutput). ok o.session) same,
        sym (ap (λ (o : SessionOutput). o.access_token) same),
        sym (ap (λ (o : SessionOutput). o.refresh_token) same),
        refl,
      )
  rotated_ok sess atk rtk (err e) w out h = elim (Bool-cases (errors_is e refresh_token_replayed)) [
    | inl x ↦ cc (rw x at h)
    | inr x ↦ cc (rw x at h)
  ]

  pub rotate-IsRotation :
      (c : SessionConfig) (i : RefreshInput) (sess : Session) (w : World Db) (out : SessionOutput)
      → (rotate c i sess w).0 ≡ ok out
      → IsRotation c i sess w out (rotate c i sess w).1
  unfolding rotate generate_access_token generate_refresh_token time_now
  rotate-IsRotation c i sess w out h =
      let fin = λ (atk rtk : OpaqueToken) (jti : Text) (now : ℕ).
        attempt (Repo.rotate_tokens (refresh_input c i sess atk rtk jti now))
        >>= rotated sess atk rtk in
      let with_jti = λ (atk rtk : OpaqueToken) (jti : Text). time_now >>= fin atk rtk jti in
      let with_rtk = λ (atk rtk : OpaqueToken).
        wrapped "generating refresh JTI" generate_jti >>= with_jti atk rtk in
      let with_atk = λ (atk : OpaqueToken).
        wrapped "generating refresh token" generate_refresh_token >>= with_rtk atk in
      let (atk, e1, r1) =
        bind-eq-ok (wrapped "generating access token" generate_access_token) with_atk w out h in
      let w1 = (generate_access_token w).1 in
      let h1 : (with_atk atk w1).0 ≡ ok out = sym (ap (λ p. p.0) r1) ∙ h in
      let (rtk, e2, r2) =
        bind-eq-ok (wrapped "generating refresh token" generate_refresh_token) (with_rtk atk) w1 out
          h1 in
      let w2 = (generate_refresh_token w1).1 in
      let h2 : (with_rtk atk rtk w2).0 ≡ ok out = sym (ap (λ p. p.0) r2) ∙ h1 in
      let (jti, e3, r3) =
        bind-eq-ok (wrapped "generating refresh JTI" generate_jti) (with_jti atk rtk) w2 out h2 in
      let w3 = (generate_jti w2).1 in
      let h3 : (with_jti atk rtk jti w3).0 ≡ ok out = sym (ap (λ p. p.0) r3) ∙ h2 in
      let now = w3.clock 0 in
      let w4 = (time_now w3).1 in
      let q = Repo.rotate_tokens (refresh_input c i sess atk rtk jti now) in
      let it = rotated_ok sess atk rtk (q w4).0 (q w4).1 out h3 in
      record {
        atk = atk;
        rtk = rtk;
        jti = jti;
        now = now;
        before = w4;
        same_db = db-generate_jti w2 ∙ db-generate prefix_refresh w1 ∙ db-generate prefix_access w;
        access =
            hash-generate prefix_access w atk
              (rewrap-eq-ok "generating access token" (generate_access_token w).0 atk e1)
            ∙ ap hash_token (sym it.1);
        refresh =
            hash-generate prefix_refresh w1 rtk
              (rewrap-eq-ok "generating refresh token" (generate_refresh_token w1).0 rtk e2)
            ∙ ap hash_token (sym it.2);
        rotation = it.0;
        left = ap (λ p. p.1) (r1 ∙ r2 ∙ r3) ∙ it.3;
      }

  -- A refresh that succeeds has found a session that may be rotated.
  pub refresh_rotatable :
      (c : SessionConfig) (i : RefreshInput) (w : World Db) (out : SessionOutput)
      → (refresh c i w).0 ≡ ok out
      → (sess : Session) × ((Repo.get_by_refresh_hash (hash_token i.raw_refresh_token) w).0
          ≡ ok (some sess))
        × (sess.revoked ≡ false)
        × (is_refresh_expired sess (w.clock 0) ≡ false)
  unfolding refusal refresh is_refresh_expired
  refresh_rotatable c i w out h =
      answered (Repo.get_by_refresh_hash (hash_token i.raw_refresh_token) w).0 refl
    where
      refused_by :
          (o : Option Session) (e : Sentinel)
          → (Repo.get_by_refresh_hash (hash_token i.raw_refresh_token) w).0 ≡ ok o
          → refusal o (w.clock 0) ≢ some e
      refused_by o e found_it why = let it = (refresh-refusal c i w o e found_it why).0 in cc

      answered :
          (l : Result (Option Session))
          → (Repo.get_by_refresh_hash (hash_token i.raw_refresh_token) w).0 ≡ l
          → (sess : Session) × ((Repo.get_by_refresh_hash (hash_token i.raw_refresh_token) w).0
              ≡ ok (some sess))
            × (sess.revoked ≡ false)
            × (is_refresh_expired sess (w.clock 0) ≡ false)
      answered (err e) l = cc (rw l at h)
      answered (ok none) l = absurd (refused_by none session_not_found l refl)
      answered (ok (some sess)) l = elim (Bool-cases sess.revoked) [
        | inl gone ↦ absurd (refused_by (some sess) refresh_replayed l (rw gone refl))
        | inr active ↦ elim (Bool-cases (is_refresh_expired sess (w.clock 0))) [
          | inl late ↦ absurd (refused_by (some sess) refresh_expired l (rw (active, late) refl))
          | inr early ↦ (sess, l, active, early)
        ]
      ]

  pub found_refresh :
      (c : SessionConfig) (i : RefreshInput) (w : World Db) (sess : Session)
      → (Repo.get_by_refresh_hash (hash_token i.raw_refresh_token) w).0 ≡ ok (some sess)
      → sess.revoked ≡ false
      → is_refresh_expired sess (w.clock 0) ≡ false
      → refresh c i w ≡ rotate c i sess (time_now w).1
  unfolding refresh refresh_found time_now is_refresh_expired
  found_refresh c i w sess h active early =
      simp (h, fetch_keeps (hash_token i.raw_refresh_token) w, active, early) refl
