-- ===== src/Repository/User/Unique/Writes.antt =====
-- internal/repository/dgraph/repository.go: the operations of `Repository` that write keep the emails
-- apart.
use elysium.Prelude.{
  ℕ, ◌≡◌, refl, inl, inr, false, some, [], ◌∷◌, List, Text, arith, Bool-cases, Option-cases,
}
use elysium.Base64.{Base64}
use elysium.Dgraph.{Node, Uids, found, failed, malformed, Reply, Dgraph, delete}
use elysium.Dgraph.Laws.{IsWritten, Unchanged, IsDgraph, select}
use elysium.Dgraph.Upserts.{Upserts, AllAbsent, IsUpserts}
use elysium.World.{World, fetch, begin, txn_fetch, time_now, txn_mutate, txn_commit, mutate_now}
use elysium.Domain.User.{User, UpdateUserInput, to_lower}
use elysium.Repository.User.Wire.{
  created_user, patched, user_quads, user_query, unmarshal_user, public_fields,
}
use elysium.Repository.User.Creation.{written-IsStored}
use elysium.Repository.User.{
  create_absences, upsert_now, answer_created, create, zookie_from_txn, update, update_first,
  delete_user, delete_first, node_user,
}
use elysium.Repository.User.Unique.{
  unique_of_no_new, Unchanged-NoNewEmails, stored-UniqueEmails, patched-NoNewEmails,
  deleted-NoNewEmails, UniqueEmails,
}

module _ {Db : Type 0} ⦃dg : Dgraph Db⦄ ⦃up : Upserts Db⦄ ⦃b : Base64⦄ (laws : IsDgraph dg)
    (ups : IsUpserts laws up) where
  upserted-UniqueEmails :
      (u : User) (db : Db)
      → to_lower u.email ≡ u.email
      → UniqueEmails laws db
      → UniqueEmails laws (up.upsert (create_absences u) (user_quads (created_user u)) db).1
  upserted-UniqueEmails u db low uniq =
      let cs = create_absences u in
      let qs = user_quads (created_user u) in
      let kept = λ (same : Unchanged dg laws.read db (up.upsert cs qs db).1).
        unique_of_no_new laws db _ (Unchanged-NoNewEmails laws db _ same) uniq in
      let stored =
        λ (uids : Uids) (a : AllAbsent laws.read db cs)
            (wr : IsWritten dg laws.read qs uids db (up.upsert cs qs db).1).
          stored-UniqueEmails laws u db _ low (written-IsStored laws u uids db _ a wr) uniq in
      elim (Option-cases (up.upsert cs qs db).0) [
        | inl lost ↦ elim (ups.upsert_lost cs qs db lost) [
          | inl same ↦ kept same
          | inr (uids, a, wr) ↦ stored uids a wr
        ]
        | inr (uids, e) ↦ elim (ups.upserted cs qs db uids e) [
          | inl (a, wr) ↦ stored uids a wr
          | inr (p, n, same) ↦ kept same
        ]
      ]

  -- `Create` of a user with an email in lower case keeps emails unique, whether it succeeds or not.
  pub create-UniqueEmails :
      (u : User) (w : World Db)
      → to_lower u.email ≡ u.email
      → UniqueEmails laws w.db
      → UniqueEmails laws (create u w).1.db
  unfolding create upsert_now answer_created zookie_from_txn
  create-UniqueEmails u w low uniq =
      let kept = upserted-UniqueEmails u w.db low uniq in ground (arith, kept)

  committed-UniqueEmails :
      (i : UpdateUserInput) (now : ℕ) (u : Text) (uids : Uids) (db : Db)
      → dg.storage.resolve u ≡ u
      → (dg.stage
          (user_quads (patched i now (unmarshal_user u (select public_fields (laws.read db u)))))
          db)
        ≡ some uids
      → UniqueEmails laws db
      → UniqueEmails laws
          (dg.commit db
            (user_quads (patched i now (unmarshal_user u (select public_fields (laws.read db u)))))
            uids
            db).1
  committed-UniqueEmails i now u uids db canon e uniq =
      let qs =
        user_quads (patched i now (unmarshal_user u (select public_fields (laws.read db u)))) in
      let written = λ (wr : IsWritten dg laws.read qs uids db (dg.commit db qs uids db).1).
        unique_of_no_new laws db _ (patched-NoNewEmails laws i now u uids db _ canon wr) uniq in
      elim (Bool-cases (dg.commit db qs uids db).0) [
        | inl done ↦ written (laws.committed qs uids db db e done)
        | inr lost ↦ elim (laws.commit_lost qs uids db db e lost) [
          | inl same ↦ unique_of_no_new laws db _ (Unchanged-NoNewEmails laws db _ same) uniq
          | inr wr ↦ written wr
        ]
      ]

  update_first-UniqueEmails :
      (i : UpdateUserInput) (n : Node) (ns : List Node) (w : World Db)
      → dg.storage.resolve n.uid ≡ n.uid
      → n.vals ≡ select public_fields (laws.read w.db n.uid)
      → UniqueEmails laws w.db
      → UniqueEmails laws (update_first w.db i (n ∷ ns) w).1.db
  unfolding update_first time_now txn_mutate txn_commit zookie_from_txn
  update_first-UniqueEmails i n ns w canon vals uniq =
      let qs = user_quads (patched i (w.clock 0) (node_user n)) in
      elim (Option-cases (dg.stage qs w.db)) [
        | inl refused ↦ rw refused uniq
        | inr (uids, e) ↦
            let kept : UniqueEmails laws (dg.commit w.db qs uids w.db).1 =
              rw (← vals) at
                (committed-UniqueEmails i (w.clock 0) n.uid uids w.db canon (rw vals at e) uniq) in
            elim (Bool-cases (dg.commit w.db qs uids w.db).0) [
              | inl done ↦ rw (e, done) kept
              | inr lost ↦ rw (e, lost) kept
            ]
      ]

  -- `Update` keeps emails unique, whether it succeeds or not.
  pub update-UniqueEmails :
      (id : Text) (i : UpdateUserInput) (w : World Db)
      → UniqueEmails laws w.db
      → UniqueEmails laws (update id i w).1.db
  unfolding update begin txn_fetch update_first user_query
  update-UniqueEmails id i w uniq =
      answered (dg.query (user_query "user.id" id public_fields false) w.db) refl
    where
      answered :
          (r : Reply)
          → dg.query (user_query "user.id" id public_fields false) w.db ≡ r
          → UniqueEmails laws (update id i w).1.db
      answered failed e = rw e uniq
      answered malformed e = rw e uniq
      answered (found []) e = rw e uniq
      answered (found (n ∷ ns)) e =
          let q = user_query "user.id" id public_fields false in
          let right = (laws.sound q w.db (n ∷ ns) refl e).0 in
          rw e (update_first-UniqueEmails i n ns w right.2 right.1 uniq)

  -- `Delete` keeps emails unique, whether it succeeds or not.
  pub delete_user-UniqueEmails :
      (id : Text) (w : World Db)
      → UniqueEmails laws w.db
      → UniqueEmails laws (delete_user id w).1.db
  unfolding delete_user fetch delete_first mutate_now zookie_from_txn
  delete_user-UniqueEmails id w uniq =
      answered (dg.query (user_query "user.id" id [] false) w.db) refl
    where
      deleted : (u : Text) → UniqueEmails laws (dg.mutate (delete (u ∷ [])) w.db).1
      deleted u = elim (Option-cases (dg.mutate (delete (u ∷ [])) w.db).0) [
        | inl lost ↦ elim (laws.mutate_lost (delete (u ∷ [])) w.db lost) [
          | inl same ↦ unique_of_no_new laws w.db _ (Unchanged-NoNewEmails laws w.db _ same) uniq
          | inr (uids, del) ↦
              unique_of_no_new laws w.db _ (deleted-NoNewEmails laws (u ∷ []) w.db _ del) uniq
        ]
        | inr (uids, e) ↦
            unique_of_no_new laws w.db _
              (deleted-NoNewEmails laws (u ∷ []) w.db _
                (laws.mutated (delete (u ∷ [])) w.db uids e))
              uniq
      ]

      answered :
          (r : Reply)
          → dg.query (user_query "user.id" id [] false) w.db ≡ r
          → UniqueEmails laws (delete_user id w).1.db
      answered failed e = rw e uniq
      answered malformed e = rw e uniq
      answered (found []) e = rw e uniq
      answered (found (n ∷ ns)) e = let kept = deleted n.uid in rw e (ground (arith, kept))
