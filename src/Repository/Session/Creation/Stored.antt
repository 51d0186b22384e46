-- ===== src/Repository/Session/Creation/Stored.antt =====
-- internal/repository/dgraph/session.go: what `Create` leaves in the database.
use elysium.Prelude.{
  ℕ, suc, String, ◌≡◌, refl, sym, ◌⊎◌, subst, ap, ◌∙◌, false, some, ◌++◌, Text, ◌==◌, eq_iff,
  eq_refl, arith, Bool-cases, inl, inr,
}
use elysium.Errors.{ok}
use elysium.Dgraph.{
  no_values, set, Uids, uid_of, blank, Reply, failed, malformed, found, Dgraph, about,
}
use elysium.Dgraph.Laws.{
  fits_root, target, put_all, is_blank, names_blank, IsFresh, IsWritten, IsDgraph,
}
use elysium.Dgraph.Writes.{set_all-about_self, set_all-about_other}
use elysium.World.{World, ◌>>=◌, return, fetch, time_now, mutate_now}
use elysium.World.Success.{bind-eq-ok, mutate_now-Committed}
use elysium.Domain.Session.{Session, SessionCreateInput}
use elysium.Repository.Session.Wire.{session_fields, read_session}
use elysium.Repository.Session.Quads.{session_pairs, snapshot_pairs}
use elysium.Repository.Session.Lookup.{session_at, IsFound, first_session-IsFound}
use elysium.Repository.Session.Creation.{IsCreated, created_values, read_session-IsCreated}
use elysium.Repository.Session.{
  first_session, id_query, valid_dgraph_uid, get_by_id, read_back, create,
}

module _ {Db : Type 0} ⦃dg : Dgraph Db⦄ (laws : IsDgraph dg) where
  pub get_by_id-IsFound :
      (id : Text) (w : World Db) (s : Session)
      → (get_by_id id w).0 ≡ ok (some s)
      → IsFound laws (id_query id session_fields) w.db s
  unfolding get_by_id fetch id_query
  get_by_id-IsFound id w s h = elim (Bool-cases (valid_dgraph_uid id)) [
    | inl e ↦ answered (dg.query (id_query id session_fields) w.db) refl (rw e at h)
    | inr e ↦ cc (rw e at h)
  ]
    where
      answered :
          (r : Reply)
          → dg.query (id_query id session_fields) w.db ≡ r
          → ((fetch "dgraph: get session by id" (id_query id session_fields)
                >>= (λ ns. return (first_session ns)))
              w).0
            ≡ ok (some s)
          → IsFound laws (id_query id session_fields) w.db s
      answered failed e h = cc (rw e at h)
      answered malformed e h = cc (rw e at h)
      answered (found ns) e h =
          first_session-IsFound laws _ w.db ns s refl refl refl e (ground (arith, rw e at h))

  -- What `Create` returns is stored under a uid that nothing stood under, holds the input, and no
  -- other node has changed.
  pub record IsStored (i : SessionCreateInput) (w : World Db) (after : Db) (s : Session)
      : Type 0 where
    pub holds : IsCreated i (w.clock 0) s
    pub stored : s ≡ session_at laws after s.id
    pub unused : laws.read w.db s.id ≡ no_values
    pub others : (v : Text) → (s.id ≡ v) ⊎ (laws.read after v ≡ laws.read w.db v)

  pub selected_id :
      (u : Text) (db : Db) (s : Session)
      → IsFound laws (id_query u session_fields) db s
      → s.id ≡ dg.storage.resolve u
  unfolding id_query fits_root
  selected_id u db s it = (eq_iff s.id (dg.storage.resolve u)).0 it.selected

  written_values :
      (i : SessionCreateInput) (now : ℕ) (uids : Uids) (db db' : Db)
      → IsWritten dg laws.read
          (about (blank "session") (session_pairs i now ++ snapshot_pairs i))
          uids
          db
          db'
      → IsFresh dg laws.read db (uid_of uids "session")
      → laws.read db' (uid_of uids "session") ≡ created_values laws i now
  unfolding target
  written_values i now uids db db' wr fresh =
      let u = uid_of uids "session" in
      wr.reads u
      ∙ set_all-about_self dg.storage uids (blank "session") _ _ u (eq_refl u)
      ∙ ap (put_all dg.storage (session_pairs i now ++ snapshot_pairs i)) fresh.unused

  written_others :
      (i : SessionCreateInput) (now : ℕ) (uids : Uids) (db db' : Db)
      → IsWritten dg laws.read
          (about (blank "session") (session_pairs i now ++ snapshot_pairs i))
          uids
          db
          db'
      → (x : Text) → uid_of uids "session" == x ≡ false
      → laws.read db' x ≡ laws.read db x
  unfolding target
  written_others i now uids db db' wr x ne =
      wr.reads x ∙ set_all-about_other dg.storage uids (blank "session") _ _ x ne

  written-IsStored :
      (i : SessionCreateInput) (w v : World Db) (uids : Uids) (s : Session)
      → IsWritten dg laws.read
          (about (blank "session") (session_pairs i (w.clock 0) ++ snapshot_pairs i))
          uids
          w.db
          v.db
      → (read_back "dgraph: create session: no uid returned" (uid_of uids "session") v).0
        ≡ ok (some s)
      → IsStored i w v.db s
  unfolding read_back names_blank is_blank about session_pairs
  written-IsStored i w v uids s wr h =
      let u = uid_of uids "session" in
      let fresh : IsFresh dg laws.read w.db u = wr.fresh "session" refl in
      let it = get_by_id-IsFound u v s (rw fresh.nonempty at h) in
      let same : s.id ≡ u = selected_id u v.db s it ∙ fresh.canonical in
      let values : laws.read v.db u ≡ created_values laws i (w.clock 0) =
        written_values i (w.clock 0) uids w.db v.db wr fresh in
      let whole =
        it.stored ∙ ap (λ x. read_session x (laws.read v.db x)) same ∙ ap (read_session u) values in
      record {
        holds =
            subst (IsCreated i (w.clock 0)) (sym whole)
              (read_session-IsCreated laws i (w.clock 0) u);
        stored = it.stored;
        unused = ap (laws.read w.db) same ∙ fresh.unused;
        others = λ x. elim (Bool-cases (s.id == x)) [
          | inl e ↦ inl ((eq_iff s.id x).0 e)
          | inr ne ↦ inr (written_others i (w.clock 0) uids w.db v.db wr x (rw same at ne))
        ];
      }

  pub read_back-db : (missing : String) (u : Text) (w : World Db) → (read_back missing u w).1 ≡ w
  unfolding read_back get_by_id fetch
  read_back-db missing u w = ground arith

  -- If `Create` returns a session, it is stored under a uid that nothing stood under, it holds the
  -- input (lists as sets, times to the second) without a mark of revocation, and no other node has
  -- changed.
  pub create-IsStored :
      (i : SessionCreateInput) (w : World Db) (s : Session)
      → (create i w).0 ≡ ok (some s)
      → IsStored i w (create i w).1.db s
  unfolding create time_now
  create-IsStored i w s h =
      let step : String = "dgraph: create session" in
      let m = set (about (blank "session") (session_pairs i (w.clock 0) ++ snapshot_pairs i)) in
      let w' = record w { clock = λ k. w.clock (suc k) } in
      let (uids, e, r) =
        bind-eq-ok (mutate_now step m)
          (λ us. read_back "dgraph: create session: no uid returned" (uid_of us "session")) w'
          (some s) h in
      let back = ap (λ p. p.1.db) r ∙ ap (λ v. v.db) (read_back-db _ _ (mutate_now step m w').1) in
      subst (λ db. IsStored i w db s) (sym back)
        (written-IsStored i w (mutate_now step m w').1 uids s
          (mutate_now-Committed laws step m w' uids e) (sym (ap (λ p. p.0) r) ∙ h))
