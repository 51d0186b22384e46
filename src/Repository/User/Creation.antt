-- ===== src/Repository/User/Creation.antt =====
-- internal/repository/dgraph/repository.go: what `Create` stores, and that it is read back.
use elysium.Prelude.{
  ◌≡◌, refl, sym, ◌∙◌, ap, ◌⊎◌, inl, inr, subst, false, some, [], List, Text, ◌==◌, eq_iff, eq_refl,
  Bool-cases, String, is_empty, Option-cases, str_eq,
}
use elysium.Errors.{ok}
use elysium.Base64.{Base64}
use elysium.Dgraph.{no_values, Uids, uid_of, Dgraph, about, each_text, Quad}
use elysium.Dgraph.Laws.{target, is_blank, names_blank, IsWritten, IsDgraph, Unchanged}
use elysium.Dgraph.Upserts.{Absences, Upserts, AllAbsent, SomePresent, IsUpserts}
use elysium.World.{World}
use elysium.World.Success.{bind-eq-ok}
use elysium.Domain.Zookie.{Zookie}
use elysium.Domain.User.{User}
use elysium.Repository.User.Wire.{created_user, user_quads}
use elysium.Repository.User.Writes.{set_all-user_quads, set_all-user_quads_other, entered_user}
use elysium.Repository.User.{create_absences, upsert_now, answer_created, zookie_from_txn, create}

module _ {Db : Type 0} ⦃dg : Dgraph Db⦄ (laws : IsDgraph dg) where
  -- The user is stored under a uid that nothing stood under, no node held the email in lower case or
  -- the nickname, and no other node has changed.
  pub record IsStored (u : User) (before after : Db) : Type 0 where
    pub uid : Text
    pub unused : laws.read before uid ≡ no_values
    pub reads :
        (r : String)
        → str_eq "dgraph.type" r ≡ false
        → laws.read after uid r ≡ entered_user (created_user u) no_values r
    pub absent : AllAbsent laws.read before (create_absences u)
    pub others : (v : Text) → (uid ≡ v) ⊎ (laws.read after v ≡ laws.read before v)

  pub written-IsStored :
      (u : User) (uids : Uids) (before after : Db)
      → AllAbsent laws.read before (create_absences u)
      → IsWritten dg laws.read (user_quads (created_user u)) uids before after
      → IsStored u before after
  unfolding user_quads about each_text names_blank is_blank created_user target
  written-IsStored u uids before after a wr =
      let fresh = wr.fresh "user" refl in
      record {
        uid = uid_of uids "user";
        unused = fresh.unused;
        reads = λ r h.
            ap (λ f. f r) (wr.reads (uid_of uids "user"))
            ∙ set_all-user_quads dg.storage uids (created_user u) (uid_of uids "user") _ r
                (eq_refl (uid_of uids "user")) h
            ∙ ap (λ vals. entered_user (created_user u) vals r) fresh.unused;
        absent = a;
        others = λ v. elim (Bool-cases (uid_of uids "user" == v)) [
          | inl e ↦ inl ((eq_iff (uid_of uids "user") v).0 e)
          | inr e ↦ inr (
              wr.reads v
              ∙ set_all-user_quads_other dg.storage uids (created_user u) v (laws.read before v) e)
        ];
      }

module _ {Db : Type 0} ⦃up : Upserts Db⦄ where
  upsert_db :
      (step : String) (cs : Absences) (qs : List Quad) (w : World Db) (uids : Uids)
      → (upsert_now step cs qs w).0 ≡ ok uids
      → (up.upsert cs qs w.db).0 ≡ some uids
  unfolding upsert_now
  upsert_db step cs qs w uids h = elim (Option-cases (up.upsert cs qs w.db).0) [
    | inl e ↦ cc (rw e at h)
    | inr (us, e) ↦ e ∙ (cc (rw e at h))
  ]

module _ {Db : Type 0} ⦃dg : Dgraph Db⦄ ⦃up : Upserts Db⦄ ⦃b : Base64⦄ (laws : IsDgraph dg)
    (ups : IsUpserts laws up) where
  answered-IsStored :
      (u : User) (w v : World Db) (uids : Uids) (z : Zookie)
      → (AllAbsent laws.read w.db (create_absences u)
          × IsWritten dg laws.read (user_quads (created_user u)) uids w.db v.db)
        ⊎ (SomePresent laws.read w.db (create_absences u)
            × (uids ≡ [])
            × Unchanged dg laws.read w.db v.db)
      → (answer_created uids v).0 ≡ ok z
      → IsStored laws u w.db (answer_created uids v).1.db
  unfolding answer_created zookie_from_txn
  answered-IsStored u w v uids z (inl (a, wr)) h =
      let st = written-IsStored laws u uids w.db v.db a wr in
      elim (Bool-cases (is_empty uids)) [ inl e ↦ cc | inr e ↦ rw e st ]
  answered-IsStored u w v uids z (inr (p, e, same)) h = cc

  -- If `Create` succeeds, the user is stored under a uid that nothing stood under, no node held its
  -- email in lower case or its nickname, and no other node has changed.
  pub create-IsStored :
      (u : User) (w : World Db) (z : Zookie)
      → (create u w).0 ≡ ok z
      → IsStored laws u w.db (create u w).1.db
  unfolding create upsert_now
  create-IsStored u w z h =
      let step : String = "dgraph: create user" in
      let (uids, e, r) =
        bind-eq-ok (upsert_now step (create_absences u) (user_quads (created_user u)))
          answer_created w z h in
      let after = (upsert_now step (create_absences u) (user_quads (created_user u)) w).1 in
      let done = upsert_db step (create_absences u) (user_quads (created_user u)) w uids e in
      subst (λ p. IsStored laws u w.db p.1.db) (sym r)
        (answered-IsStored u w after uids z
          (ups.upserted (create_absences u) (user_quads (created_user u)) w.db uids done)
          (sym (ap (λ p. p.0) r) ∙ h))
