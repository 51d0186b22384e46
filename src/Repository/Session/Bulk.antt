-- ===== src/Repository/Session/Bulk.antt =====
-- internal/repository/dgraph/session.go: the nodes that `RevokeAllForUser` reaches.
use elysium.Prelude.{
  ℕ, suc, String, ◌≡◌, refl, ap, ◌∙◌, ◌⊎◌, inl, inr, Bool, true, false, Bool-cases, List, [], ◌∷◌,
  Text, ◌==◌, eq_iff, arith, All, mem_text,
}
use elysium.Errors.{ok}
use elysium.Dgraph.{
  Dgraph, Reply, failed, malformed, found, Node, Values, uid, set, Uids, about, Storage,
}
use elysium.Dgraph.Schema.{is_list}
use elysium.Dgraph.Laws.{
  put_all, holds_text, holds_true, fits, fits_root, fits_filter, put, set_all, target, names_blank,
  is_blank, IsWritten, IsDgraph, select,
}
use elysium.Dgraph.Writes.{set_all-append, set_all-about_other, set_all-about_self}
use elysium.World.Success.{then-eq-ok, mutate_now-Committed}
use elysium.World.{return, World, time_now, mutate_now, fetch}
use elysium.Repository.Session.Quads.{revoke_each, revocation_pairs}
use elysium.Repository.Session.Revoked.{
  mark_of, safe_quads-revoke_each, set_all-mark, IsRevoked, revoke_nodes-IsRevoked,
}
use elysium.Repository.Session.{active_query, revoke_nodes, revoke_all_for_user, nodes_uids}

names_blank-revoke_each :
    (name : String) (now : ℕ) (ns : List Node) → names_blank name (revoke_each now ns) ≡ false
unfolding names_blank revoke_each revocation_pairs about is_blank
names_blank-revoke_each name now [] = refl
names_blank-revoke_each name now (n ∷ ns) = names_blank-revoke_each name now ns

module _ (st : Storage) (uids : Uids) (now : ℕ) (u : Text) where
  abbrev Canonical : Node → Type 0
  Canonical n = st.resolve n.uid ≡ n.uid

  set_all-revoke_each_other :
      (ns : List Node) (vals : Values)
      → All Canonical ns
      → mem_text u (nodes_uids ns) ≡ false
      → set_all st uids u (revoke_each now ns) vals ≡ vals
  unfolding revoke_each mem_text target
  set_all-revoke_each_other [] vals c m = unfold set_all in refl
  set_all-revoke_each_other (n ∷ ns) vals c m =
      set_all-append st uids u (about (uid n.uid) (revocation_pairs now)) (revoke_each now ns) vals
      ∙ ap (set_all st uids u (revoke_each now ns)) (
          set_all-about_other st uids (uid n.uid) (revocation_pairs now) vals u
            (rw c.0 (ground arith)))
      ∙ set_all-revoke_each_other ns vals c.1 (ground arith)

  set_all-revocation :
      (v : Text) (vals : Values)
      → st.resolve v == u ≡ true
      → mark_of (set_all st uids u (about (uid v) (revocation_pairs now)) vals) ≡ true
  unfolding target
  set_all-revocation v vals e =
      rw (set_all-about_self st uids (uid v) (revocation_pairs now) vals u e)
        (unfold revocation_pairs put_all put is_list holds_true in refl)

  set_all-revoke_each_self :
      (ns : List Node) (vals : Values)
      → All Canonical ns
      → mem_text u (nodes_uids ns) ≡ true
      → mark_of (set_all st uids u (revoke_each now ns) vals) ≡ true
  unfolding revoke_each mem_text
  set_all-revoke_each_self [] vals c m = cc
  set_all-revoke_each_self (n ∷ ns) vals c m =
      rw
        (set_all-append st uids u (about (uid n.uid) (revocation_pairs now)) (revoke_each now ns)
          vals)
        (elim (Bool-cases (n.uid == u)) [
          | inl same ↦
              set_all-mark st uids u (revoke_each now ns) _ (safe_quads-revoke_each now ns)
                (λ name b. cc (names_blank-revoke_each name now ns))
                (set_all-revocation n.uid vals (rw c.0 same))
          | inr other ↦ set_all-revoke_each_self ns _ c.1 (rw (other, mem_text) at m)
        ])

module _ {Db : Type 0} ⦃dg : Dgraph Db⦄ (laws : IsDgraph dg) where
  abbrev pub belongs_to : Text → Db → Text → Bool
  belongs_to user db u = holds_text user (laws.read db u "session.user_id")

  canonical_of_sound :
      (user_id : Text) (db : Db) (ns : List Node)
      → All
          (λ n.
            (fits dg.storage (active_query user_id) n.uid (laws.read db n.uid) ≡ true)
            × (n.vals ≡ select ((active_query user_id).fields) (laws.read db n.uid))
            × (dg.storage.resolve n.uid ≡ n.uid))
          ns
      → All (λ n. dg.storage.resolve n.uid ≡ n.uid) ns
        × ((u : Text) → mem_text u (nodes_uids ns) ≡ true → belongs_to user_id db u ≡ true)
  unfolding mem_text active_query fits_root
  canonical_of_sound user_id db [] h = (tt, λ u m. cc)
  canonical_of_sound user_id db (n ∷ ns) h =
      let (c, b) = canonical_of_sound user_id db ns h.1 in
      ((h.0.2, c), λ u m. ground (arith, eq_iff n.uid u, b u, h.0.0))

  -- A node of the user is among those found, or it is marked already.
  found_or_marked :
      (user_id : Text) (db : Db) (ns : List Node) (u : Text)
      → dg.query (active_query user_id) db ≡ found ns
      → belongs_to user_id db u ≡ true
      → (mem_text u (nodes_uids ns) ≡ true) ⊎ IsRevoked laws u db
  unfolding active_query fits_root fits_filter
  found_or_marked user_id db ns u e b = elim (Bool-cases (mark_of (laws.read db u))) [
    | inl marked ↦ inr marked
    | inr clear ↦ inl (laws.complete (active_query user_id) db ns u refl e (rw (b, clear) refl))
  ]

  bulk_IsWritten :
      (now : ℕ) (ns : List Node) (uids : Uids) (db db' : Db) (u : Text)
      → All (λ n. dg.storage.resolve n.uid ≡ n.uid) ns
      → IsWritten dg laws.read (revoke_each now ns) uids db db'
      → (mem_text u (nodes_uids ns) ≡ true → IsRevoked laws u db')
        × (mem_text u (nodes_uids ns) ≡ false → laws.read db' u ≡ laws.read db u)
  bulk_IsWritten now ns uids db db' u c done = (
    λ m. rw (done.reads u) (set_all-revoke_each_self dg.storage uids now u ns (laws.read db u) c m),
    λ m. done.reads u ∙ set_all-revoke_each_other dg.storage uids now u ns (laws.read db u) c m,
  )

  revoke_nodes_effect :
      (ns : List Node) (w : World Db) (u : Text)
      → All (λ n. dg.storage.resolve n.uid ≡ n.uid) ns
      → (revoke_nodes ns w).0 ≡ ok tt
      → (mem_text u (nodes_uids ns) ≡ true → IsRevoked laws u (revoke_nodes ns w).1.db)
        × (mem_text u (nodes_uids ns) ≡ false
            → laws.read (revoke_nodes ns w).1.db u ≡ laws.read w.db u)
  unfolding revoke_nodes time_now mem_text
  revoke_nodes_effect [] w u c h = (λ m. cc, λ m. refl)
  revoke_nodes_effect (n ∷ ns) w u c h =
      let later : World Db = record w { clock = λ k. w.clock (suc k) } in
      let quads = revoke_each (w.clock 0) (n ∷ ns) in
      let (uids, e, same) =
        then-eq-ok (mutate_now "dgraph: bulk revoke sessions" (set quads)) (return tt) later tt h in
      rw same (
        bulk_IsWritten (w.clock 0) (n ∷ ns) uids w.db _ u c
          (mutate_now-Committed laws "dgraph: bulk revoke sessions" (set quads) later uids e))

  IsRevoked-all :
      (user_id : Text) (w : World Db) (ns : List Node) (u : Text)
      → dg.query (active_query user_id) w.db ≡ found ns
      → (revoke_nodes ns w).0 ≡ ok tt
      → (belongs_to user_id w.db u ≡ true → IsRevoked laws u (revoke_nodes ns w).1.db)
        × (belongs_to user_id w.db u ≡ false
            → laws.read (revoke_nodes ns w).1.db u ≡ laws.read w.db u)
  IsRevoked-all user_id w ns u e h =
      let (canonical, belong) =
        canonical_of_sound user_id w.db ns
          (laws.sound (active_query user_id) w.db ns (unfold active_query in refl) e) in
      let (hit, miss) = revoke_nodes_effect ns w u canonical h in
      (
        λ b. elim (found_or_marked user_id w.db ns u e b) [
          | inl m ↦ hit m
          | inr marked ↦ (revoke_nodes-IsRevoked laws u ns).at w marked
        ],
        λ b. elim (Bool-cases (mem_text u (nodes_uids ns))) [
          | inl m ↦ cc (belong u m)
          | inr m ↦ miss m
        ],
      )

  revoke_all_effect :
      (user_id : Text) (w : World Db) (u : Text)
      → (revoke_all_for_user user_id w).0 ≡ ok tt
      → (belongs_to user_id w.db u ≡ true → IsRevoked laws u (revoke_all_for_user user_id w).1.db)
        × (belongs_to user_id w.db u ≡ false
            → laws.read (revoke_all_for_user user_id w).1.db u ≡ laws.read w.db u)
  unfolding revoke_all_for_user fetch
  revoke_all_effect user_id w u h = answered (dg.query (active_query user_id) w.db) refl
    where
      answered :
          (r : Reply)
          → dg.query (active_query user_id) w.db ≡ r
          → (belongs_to user_id w.db u ≡ true
              → IsRevoked laws u (revoke_all_for_user user_id w).1.db)
            × (belongs_to user_id w.db u ≡ false
                → laws.read (revoke_all_for_user user_id w).1.db u ≡ laws.read w.db u)
      answered failed e = cc (rw e at h)
      answered malformed e = cc (rw e at h)
      answered (found ns) e = rw e (IsRevoked-all user_id w ns u e (rw e at h))

  -- If `RevokeAllForUser` succeeds, each node is a session of the user and is marked as revoked, or it
  -- is not and has not changed.
  pub revoke_all-revokes :
      (user_id : Text) (w : World Db) (u : Text)
      → (revoke_all_for_user user_id w).0 ≡ ok tt
      → ((belongs_to user_id w.db u ≡ true) × IsRevoked laws u (revoke_all_for_user user_id w).1.db)
        ⊎ ((belongs_to user_id w.db u ≡ false)
            × (laws.read (revoke_all_for_user user_id w).1.db u ≡ laws.read w.db u))
  revoke_all-revokes user_id w u h =
      let (own, rest) = revoke_all_effect user_id w u h in
      elim (Bool-cases (belongs_to user_id w.db u)) [
        | inl e ↦ inl (e, own e)
        | inr e ↦ inr (e, rest e)
      ]
