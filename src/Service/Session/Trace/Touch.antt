-- ===== src/Service/Session/Trace/Touch.antt =====
-- internal/service/session.go: `VerifyToken` together with the background touch that it starts.
use elysium.Prelude.{
  ◌≡◌, refl, sym, ◌∙◌, ap, ◌⊎◌, inl, inr, String, true, Option, none, some, Bool-cases,
  Option-cases, [], ◌∷◌, ◌++◌, Text, ◌==◌, eq_iff, str_eq, arith,
}
use elysium.Errors.{Result, ok, err}
use elysium.Dgraph.{uid, about, set, Object, Uids, Dgraph}
use elysium.Dgraph.Laws.{IsWritten, IsDgraph, target, put, put_all}
use elysium.Dgraph.Writes.{set_all-about_self, set_all-about_other}
use elysium.World.{World, time_now, mutate_now, fetch, spawn_touch}
use elysium.Domain.Session.{Session, session_is_valid}
use elysium.Token.{Digest, hash_token}
use elysium.Repository.Session as Repo
use elysium.Repository.Session.Wire.{format_rfc3339}
use elysium.Service.Session.{
  SessionConfig, is_valid_now, check_valid, check_session, lookup_and_check, verify_token,
}
use elysium.Service.Session.Verify.{IsAccepted, lookup_and_check-IsAccepted}
use elysium.Service.Session.Trace.{verifies, touches_one, step, run, run_touch}

-- The tasks that a verification leaves: its own touch if a session was accepted, or none.
module _ {Db : Type 0} ⦃dg : Dgraph Db⦄ ⦃d : Digest⦄ where
  lookup_keeps : (raw : Text) (w : World Db) → (Repo.get_by_access_hash (hash_token raw) w).1 ≡ w
  unfolding Repo.get_by_access_hash Repo.query_one fetch
  lookup_keeps raw w = ground arith

  touches-verify_token :
      (raw : Text) (w : World Db)
      → ((verify_token raw w).1.db ≡ w.db)
        × (((verify_token raw w).1.touches ≡ w.touches)
            ⊎ ((s : Session) × ((lookup_and_check raw w).0 ≡ ok s)
                × ((verify_token raw w).1.touches ≡ w.touches ++ s.id ∷ [])))
  unfolding verify_token lookup_and_check check_session check_valid is_valid_now spawn_touch
      time_now
  touches-verify_token raw w = answered (Repo.get_by_access_hash (hash_token raw) w).0 refl
    where
      answered :
          (r : Result (Option Session))
          → (Repo.get_by_access_hash (hash_token raw) w).0 ≡ r
          → ((verify_token raw w).1.db ≡ w.db)
            × (((verify_token raw w).1.touches ≡ w.touches)
                ⊎ ((s : Session) × ((lookup_and_check raw w).0 ≡ ok s)
                    × ((verify_token raw w).1.touches ≡ w.touches ++ s.id ∷ [])))
      answered (err e) h = rw (h, lookup_keeps raw w) (refl, inl refl)
      answered (ok none) h = rw (h, lookup_keeps raw w) (refl, inl refl)
      answered (ok (some s)) h = elim (Bool-cases s.revoked) [
        | inl r ↦ simp (h, lookup_keeps raw w, r) (refl, inl refl)
        | inr r ↦ elim (Bool-cases (session_is_valid s (w.clock 0))) [
          | inl v ↦ simp (h, lookup_keeps raw w, r, v) (refl, inr (s, refl, refl))
          | inr v ↦ simp (h, lookup_keeps raw w, r, r, v) (refl, inl refl)
        ]
      ]

module _ {Db : Type 0} ⦃dg : Dgraph Db⦄ ⦃d : Digest⦄ (laws : IsDgraph dg) where
  touched :
      (id : Text) (o : Object) (uids : Uids) (db db' : Db) (u : Text) (p : String)
      → IsWritten dg laws.read (about (uid id) (("session.last_seen_at", o) ∷ [])) uids db db'
      → (laws.read db' u p ≡ laws.read db u p)
        ⊎ ((str_eq "session.last_seen_at" p ≡ true) × (dg.storage.resolve id ≡ u))
  unfolding target put_all put
  touched id o uids db db' u p wr = elim (Bool-cases (dg.storage.resolve id == u)) [
    | inr e ↦ inl (
        ap (λ f. f p)
          (wr.reads u
            ∙ set_all-about_other dg.storage uids (uid id) (("session.last_seen_at", o) ∷ [])
                (laws.read db u) u e))
    | inl e ↦
        let self =
          ap (λ f. f p)
            (wr.reads u
              ∙ set_all-about_self dg.storage uids (uid id) (("session.last_seen_at", o) ∷ [])
                  (laws.read db u) u e) in
        elim (Bool-cases (str_eq "session.last_seen_at" p)) [
          | inl last ↦ inr (last, (eq_iff _ u).0 e)
          | inr other ↦ inl (self ∙ rw other refl)
        ]
  ]

  touch_effect :
      (id : Text) (w : World Db) (u : Text) (p : String)
      → (laws.read (Repo.touch id w).1.db u p ≡ laws.read w.db u p)
        ⊎ ((str_eq "session.last_seen_at" p ≡ true) × (dg.storage.resolve id ≡ u))
  unfolding Repo.touch mutate_now time_now
  touch_effect id w u p =
      let o = format_rfc3339 (w.clock 0) in
      let m = set (about (uid id) (("session.last_seen_at", o) ∷ [])) in
      elim (Option-cases (dg.mutate m w.db).0) [
        | inl lost ↦ elim (laws.mutate_lost m w.db lost) [
          | inl same ↦ rw lost (inl (ap (λ f. f p) (same u)))
          | inr (uids, wr) ↦ rw lost (touched id o uids w.db _ u p wr)
        ]
        | inr (uids, e) ↦ rw e (touched id o uids w.db _ u p (laws.mutated m w.db uids e))
      ]

  -- If no other touch is pending, `VerifyToken` and then the touch that it starts, if it starts one,
  -- change nothing in the database but `last_seen_at` of the session under the hash of the token,
  -- which is not revoked and is within its time; also where the verification or the touch fails.
  pub touch-verify_token :
      (c : SessionConfig) (raw : Text) (w : World Db) (u : Text) (p : String)
      → w.touches ≡ []
      → (laws.read (run c (verifies raw ∷ touches_one ∷ []) w).db u p ≡ laws.read w.db u p)
        ⊎ ((str_eq "session.last_seen_at" p ≡ true)
            × ((s : Session) × IsAccepted laws raw w s × (s.id ≡ u)))
  unfolding run step run_touch
  touch-verify_token c raw w u p none_left =
      let (same, left) = touches-verify_token raw w in
      elim left [
        | inl no_task ↦
            let tasks : (verify_token raw w).1.touches ≡ [] = no_task ∙ none_left in
            rw tasks (inl (ap (λ db. laws.read db u p) same))
        | inr (s, accepted, task) ↦
            let it = lookup_and_check-IsAccepted laws raw w s accepted in
            let v : World Db = record (verify_token raw w).1 { touches = [] } in
            let tasks : (verify_token raw w).1.touches ≡ s.id ∷ [] =
              task ∙ ap (λ ts. ts ++ s.id ∷ []) none_left in
            rw tasks (elim (touch_effect s.id v u p) [
              | inl kept ↦ inl (kept ∙ ap (λ db. laws.read db u p) same)
              | inr (last, at_u) ↦ inr (last, (s, it, sym it.stored.canonical ∙ at_u))
            ])
      ]
