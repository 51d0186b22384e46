-- ===== src/Repository/Session/Revoked.antt =====
-- internal/repository/dgraph/session.go: the mark of revocation under the operations of
-- `SessionRepo`.
use text.Mathlib.TextEquality.{eq_iff as str_eq_iff}
use elysium.Prelude.{
  ℕ, String, ◌≡◌, refl, sym, subst, inl, inr, Bool, true, false, ◌&&◌, ◌||◌, not, some,
  Option-cases, Bool-cases, List, [], ◌∷◌, ◌++◌, Text, ◌==◌, eq_iff, str_eq, if◌then◌else◌, arith,
}
use elysium.Dgraph.{
  Object, str, int, bool, time, Subject, uid, blank, Quad, Values, no_values, Node, set, Uids,
  uid_of, Storage, Dgraph, about,
}
use elysium.Dgraph.Schema.{is_list}
use elysium.Dgraph.Laws.{
  holds_true, put, target, set_all, is_blank, names_blank, IsWritten, IsDgraph, Unchanged,
}
use elysium.World.{mutate_now, txn_commit, txn_mutate, ◌>>=◌, ◌>>◌}
use elysium.World.Keeps.{Keeps, keeps_rules, Keeps-then}
use elysium.Domain.Session.{SessionCreateInput, SessionRefreshInput}
use elysium.Repository.Session.Wire.{SessionNode}
use elysium.Repository.Session.Quads.{
  session_pairs, snapshot_pairs, revocation_pairs, rotation_pairs, rotation_quads, revoke_each,
  successor,
}
use elysium.Repository.Session.{
  read_back, get_by_id, create, rotation_read, rotation_write, rotate_tokens, revoke, revoke_nodes,
  revoke_all_for_user, touch, check_old,
}

-- A write that cannot clear the mark: of another predicate, or one that sets it.
abbrev pub marks : Object → Bool
marks (bool b) = b
marks _ = false

unfoldable pub keeps_mark : String × Object → Bool
keeps_mark (p, o) = not (str_eq p "session.revoked") || marks o

-- A mutation that cannot clear a mark: what it writes to nodes that it names keeps the mark.
unfoldable pub safe_quad : Quad → Bool
unfolding keeps_mark
safe_quad q = elim q.subject [ blank n ↦ true | uid u ↦ keeps_mark (q.predicate, q.object) ]

unfoldable pub safe_quads : List Quad → Bool
unfolding safe_quad
safe_quads [] = true
safe_quads (q ∷ qs) = safe_quad q && safe_quads qs

safe_quads-blank :
    (n : String) (pos : List (String × Object)) → safe_quads (about (blank n) pos) ≡ true
unfolding safe_quads about
safe_quads-blank n [] = refl
safe_quads-blank n ((p, o) ∷ pos) = safe_quads-blank n pos

pub safe_quads-revoke_each : (now : ℕ) (ns : List Node) → safe_quads (revoke_each now ns) ≡ true
unfolding safe_quads revoke_each revocation_pairs about
safe_quads-revoke_each now [] = refl
safe_quads-revoke_each now (n ∷ ns) = safe_quads-revoke_each now ns

safe_quads-rotation :
    (old : SessionNode) (i : SessionRefreshInput) (now : ℕ)
    → safe_quads (rotation_quads old i now) ≡ true
unfolding safe_quads rotation_quads rotation_pairs about
safe_quads-rotation old i now =
    safe_quads-blank "new" (session_pairs (successor old i) now ++ snapshot_pairs (successor old i))

abbrev pub mark_of : Values → Bool
mark_of vals = holds_true (vals "session.revoked")

put-mark_self :
    (st : Storage) (o : Object) (vals : Values)
    → marks o ≡ true
    → mark_of (put st "session.revoked" o vals) ≡ true
unfolding put holds_true is_list
put-mark_self st (bool b) vals h = ground arith
put-mark_self st (str t) vals h = cc
put-mark_self st (int t) vals h = cc
put-mark_self st (time t) vals h = cc

put-mark :
    (st : Storage) (p : String) (o : Object) (vals : Values)
    → keeps_mark (p, o) ≡ true
    → mark_of vals ≡ true
    → mark_of (put st p o vals) ≡ true
unfolding put keeps_mark
put-mark st p o vals k h = elim (Bool-cases (str_eq p "session.revoked")) [
  | inl same ↦
      subst (λ r. mark_of (put st r o vals) ≡ true) (sym ((str_eq_iff p "session.revoked").0 same))
        (put-mark_self st o vals (ground arith))
  | inr other ↦ rw (other, put) h
]

-- The same of one N-Quad, which reaches the node only if its subject is the node.
quad-mark :
    (st : Storage) (uids : Uids) (u : Text) (s : Subject) (p : String) (o : Object) (vals : Values)
    → safe_quad (record { subject = s; predicate = p; object = o }) ≡ true
    → ((name : String) → is_blank name s ≡ true → uid_of uids name == u ≡ false)
    → mark_of vals ≡ true
    → mark_of (if target st uids s == u then put st p o vals else vals) ≡ true
unfolding safe_quad target is_blank
quad-mark st uids u (blank n) p o vals s f h = rw (f n ((str_eq_iff n n).1 refl)) h
quad-mark st uids u (uid v) p o vals s f h = elim (Bool-cases (st.resolve v == u)) [
  | inl same ↦ rw same (put-mark st p o vals s h)
  | inr other ↦ rw other h
]

pub set_all-mark :
    (st : Storage) (uids : Uids) (u : Text) (qs : List Quad) (vals : Values)
    → safe_quads qs ≡ true
    → ((name : String) → names_blank name qs ≡ true → uid_of uids name == u ≡ false)
    → mark_of vals ≡ true
    → mark_of (set_all st uids u qs vals) ≡ true
unfolding set_all safe_quads names_blank
set_all-mark st uids u [] vals s f h = h
set_all-mark st uids u (q ∷ qs) vals s f h =
    set_all-mark st uids u qs _ (ground arith) (λ name b. f name (ground arith))
      (quad-mark st uids u q.subject q.predicate q.object vals (ground arith)
        (λ name b. f name (ground arith)) h)

module _ {Db : Type 0} ⦃dg : Dgraph Db⦄ (laws : IsDgraph dg) (u : Text) where
  abbrev pub IsRevoked : Db → Type 0
  IsRevoked db = holds_true (laws.read db u "session.revoked") ≡ true

  written-IsRevoked :
      (qs : List Quad) (uids : Uids) (db db' : Db)
      → safe_quads qs ≡ true
      → IsWritten dg laws.read qs uids db db'
      → IsRevoked db
      → IsRevoked db'
  unfolding holds_true
  written-IsRevoked qs uids db db' s w h =
      rw (w.reads u) (set_all-mark dg.storage uids u qs (laws.read db u) s fresh h)
    where
      fresh : (name : String) → names_blank name qs ≡ true → uid_of uids name == u ≡ false
      fresh name b = elim (Bool-cases (uid_of uids name == u)) [
        | inl same ↦
            let gone : laws.read db u ≡ no_values =
              rw (← (eq_iff (uid_of uids name) u).0 same) ((w.fresh name b).unused) in
            cc (rw gone at h)
        | inr other ↦ other
      ]

  Unchanged-IsRevoked : (db db' : Db) → Unchanged dg laws.read db db' → IsRevoked db → IsRevoked db'
  Unchanged-IsRevoked db db' same h = rw (same u) h

  mutate_now-IsRevoked :
      (step : String) (qs : List Quad)
      → safe_quads qs ≡ true
      → Keeps IsRevoked (mutate_now step (set qs))
  unfolding mutate_now
  mutate_now-IsRevoked step qs s = record {
    at = λ w h. elim (Option-cases (dg.mutate (set qs) w.db).0) [
      | inl lost ↦ elim (laws.mutate_lost (set qs) w.db lost) [
        | inl same ↦ Unchanged-IsRevoked w.db _ same h
        | inr (uids, done) ↦ written-IsRevoked qs uids w.db _ s done h
      ]
      | inr (uids, e) ↦ written-IsRevoked qs uids w.db _ s (laws.mutated (set qs) w.db uids e) h
    ];
  }

  txn_commit-IsRevoked :
      (step : String) (start : Db) (qs : List Quad) (uids : Uids)
      → safe_quads qs ≡ true
      → dg.stage qs start ≡ some uids
      → Keeps IsRevoked (txn_commit step start qs uids)
  unfolding txn_commit
  txn_commit-IsRevoked step start qs uids s staged = record {
    at = λ w h. elim (Bool-cases (dg.commit start qs uids w.db).0) [
      | inl done ↦
          written-IsRevoked qs uids w.db _ s (laws.committed qs uids start w.db staged done) h
      | inr not_done ↦ elim (laws.commit_lost qs uids start w.db staged not_done) [
        | inl same ↦ Unchanged-IsRevoked w.db _ same h
        | inr done ↦ written-IsRevoked qs uids w.db _ s done h
      ]
    ];
  }

  get_by_id-IsRevoked : (id : Text) → Keeps IsRevoked (get_by_id id)
  unfolding get_by_id
  get_by_id-IsRevoked id = search keeps_rules

  read_back-IsRevoked : (missing : String) (id : Text) → Keeps IsRevoked (read_back missing id)
  unfolding read_back
  read_back-IsRevoked missing id = search (keeps_rules, get_by_id-IsRevoked)

  creation-IsRevoked :
      (step n : String) (pos : List (String × Object))
      → Keeps IsRevoked (mutate_now step (set (about (blank n) pos)))
  creation-IsRevoked step n pos = mutate_now-IsRevoked step _ (safe_quads-blank n pos)

  revocation-IsRevoked :
      (step : String) (v : Text) (now : ℕ)
      → Keeps IsRevoked (mutate_now step (set (about (uid v) (revocation_pairs now))))
  revocation-IsRevoked step v now =
      mutate_now-IsRevoked step _ (unfold safe_quads about revocation_pairs in refl)

  touching-IsRevoked :
      (step : String) (v : Text) (o : Object)
      → Keeps IsRevoked (mutate_now step (set (about (uid v) (("session.last_seen_at", o) ∷ []))))
  touching-IsRevoked step v o = mutate_now-IsRevoked step _ (unfold safe_quads about in refl)

  bulk_revocation-IsRevoked :
      (step : String) (now : ℕ) (ns : List Node)
      → Keeps IsRevoked (mutate_now step (set (revoke_each now ns)))
  bulk_revocation-IsRevoked step now ns =
      mutate_now-IsRevoked step _ (safe_quads-revoke_each now ns)

  -- `Create` revives no session.
  pub create-IsRevoked : (i : SessionCreateInput) → Keeps IsRevoked (create i)
  unfolding create
  create-IsRevoked i = search (keeps_rules, creation-IsRevoked, read_back-IsRevoked)

  -- Nor does `Revoke`.
  pub revoke-IsRevoked : (id : Text) → Keeps IsRevoked (revoke id)
  unfolding revoke
  revoke-IsRevoked id = search (keeps_rules, revocation-IsRevoked)

  pub revoke_nodes-IsRevoked : (ns : List Node) → Keeps IsRevoked (revoke_nodes ns)
  unfolding revoke_nodes
  revoke_nodes-IsRevoked [] = search keeps_rules
  revoke_nodes-IsRevoked (n ∷ ns) = search (keeps_rules, bulk_revocation-IsRevoked)

  pub revoke_all-IsRevoked : (user_id : Text) → Keeps IsRevoked (revoke_all_for_user user_id)
  unfolding revoke_all_for_user
  revoke_all-IsRevoked user_id = search (keeps_rules, revoke_nodes-IsRevoked)

  pub touch-IsRevoked : (id : Text) → Keeps IsRevoked (touch id)
  unfolding touch
  touch-IsRevoked id = search (keeps_rules, touching-IsRevoked)

  check_old-IsRevoked : (ns : List Node) → Keeps IsRevoked (check_old {Db = Db} ns)
  unfolding check_old
  check_old-IsRevoked [] = search keeps_rules
  check_old-IsRevoked (n ∷ ns) = search keeps_rules

  commit_staged-IsRevoked :
      (start : Db) (old : SessionNode) (i : SessionRefreshInput) (now : ℕ)
      → Keeps IsRevoked (do
        uids ← txn_mutate "dgraph: rotate tokens mutate" start (rotation_quads old i now)
        txn_commit "dgraph: rotate tokens commit" start (rotation_quads old i now) uids
        read_back "dgraph: rotate tokens: no uid returned for new session" (uid_of uids "new"))
  unfolding txn_mutate
  commit_staged-IsRevoked start old i now = record {
    at = λ w h. elim (Option-cases (dg.stage (rotation_quads old i now) start)) [
      | inl e ↦ rw (e) h
      | inr (uids, e) ↦ rw e (
          (Keeps-then _ _ (txn_commit-IsRevoked _ start _ uids (safe_quads-rotation old i now) e)
              (read_back-IsRevoked _ _)).at
            w h)
    ];
  }

  pub rotate_tokens-IsRevoked : (i : SessionRefreshInput) → Keeps IsRevoked (rotate_tokens i)
  unfolding rotate_tokens rotation_read rotation_write
  rotate_tokens-IsRevoked i = search (keeps_rules, check_old-IsRevoked, commit_staged-IsRevoked)
