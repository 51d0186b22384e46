-- ===== src/Repository/User/Unique.antt =====
-- internal/repository/dgraph/repository.go: no two users hold the same email, whatever operations run.
pub mod Writes
use elysium.Prelude.{
  ℕ, ◌≡◌, refl, sym, ◌∙◌, ap, ◌⊎◌, inl, inr, true, false, some, [], ◌∷◌, List, Text, ◌==◌, eq_iff,
  eq_refl, arith, Bool-cases, Option-cases, mem_text, map,
}
use elysium.Base64.{Base64}
use elysium.Dgraph.{Object, str, Node, Uids, found, failed, malformed, Reply, Dgraph, delete}
use elysium.Dgraph.Json.{omitempty, entered}
use elysium.Dgraph.Laws.{
  holds_text, target, IsWritten, IsDeleted, Unchanged, IsDgraph, select, listed,
}
use elysium.Dgraph.Upserts.{Upserts, AllAbsent, IsUpserts}
use elysium.World.{World, fetch, begin, txn_fetch, time_now, txn_mutate, txn_commit, mutate_now}
use elysium.Domain.User.{User, UpdateUserInput, to_lower}
use elysium.Repository.Session.Wire.{text_field}
use elysium.Repository.User.Wire.{
  created_user, patched, user_quads, user_query, user_entries, unmarshal_user, public_fields,
}
use elysium.Repository.User.Writes.{set_all-user_quads, set_all-user_quads_other}
use elysium.Repository.User.Creation.{IsStored, written-IsStored}
use elysium.Repository.User.{
  create_absences, upsert_now, answer_created, create, zookie_from_txn, update, update_first,
  delete_user, delete_first, node_user,
}

holds_text-single : (s t : Text) → holds_text t (str s ∷ []) ≡ true → s ≡ t
unfolding holds_text
holds_text-single s t h = (eq_iff s t).0 (ground arith)

holds_text-new : (e t : Text) → holds_text t (entered (omitempty e) []) ≡ true → e ≡ t
unfolding holds_text
holds_text-new [] t h = cc
holds_text-new (c ∷ cs) t h = holds_text-single (c ∷ cs) t h

-- Writing back the text that was read adds none.
holds_text-rewritten :
    (os : List Object) (t : Text)
    → holds_text t (entered (omitempty (text_field os)) os) ≡ true
    → holds_text t os ≡ true
unfolding holds_text text_field
holds_text-rewritten [] t h = h
holds_text-rewritten (str [] ∷ os) t h = h
holds_text-rewritten (str (c ∷ cs) ∷ os) t h = rw (holds_text-single (c ∷ cs) t h, eq_refl t) refl
holds_text-rewritten (Object.int n ∷ os) t h = h
holds_text-rewritten (Object.bool x ∷ os) t h = h
holds_text-rewritten (Object.time n ∷ os) t h = h

module _ {Db : Type 0} ⦃dg : Dgraph Db⦄ (laws : IsDgraph dg) where
  abbrev pub HoldsEmail : Db → Text → Text → Type 0
  HoldsEmail db u t = holds_text t (laws.read db u "user.email") ≡ true

  -- No two nodes hold the same email.
  abbrev pub UniqueEmails : Db → Type 0
  UniqueEmails db = (u v t : Text) → HoldsEmail db u t → HoldsEmail db v t → u ≡ v

  abbrev pub NoNewEmails : Db → Db → Type 0
  NoNewEmails before after = (u t : Text) → HoldsEmail after u t → HoldsEmail before u t

  pub unique_of_no_new :
      (before after : Db) → NoNewEmails before after → UniqueEmails before → UniqueEmails after
  unique_of_no_new before after h uniq u v t hu hv = uniq u v t (h u t hu) (h v t hv)

  pub Unchanged-NoNewEmails :
      (before after : Db) → Unchanged dg laws.read before after → NoNewEmails before after
  Unchanged-NoNewEmails before after same u t h = rw same at h

  -- In the state after a creation, a node that holds an email is the new one and the email is that of
  -- the new user, or the node held it before.
  stored_email :
      (u : User) (before after : Db) (st : IsStored laws u before after) (v t : Text)
      → HoldsEmail after v t
      → ((st.uid ≡ v) × (u.email ≡ t)) ⊎ HoldsEmail before v t
  unfolding user_entries created_user
  stored_email u before after st v t h = elim (st.others v) [
    | inl same ↦ inl (same, holds_text-new u.email t (rw (← same, st.reads "user.email" refl) at h))
    | inr unchanged ↦ inr (rw unchanged at h)
  ]

  pub stored-UniqueEmails :
      (u : User) (before after : Db)
      → to_lower u.email ≡ u.email
      → IsStored laws u before after
      → UniqueEmails before
      → UniqueEmails after
  unfolding create_absences
  stored-UniqueEmails u before after low st uniq v x t hv hx =
      let gone = λ (y : Text). rw low at (st.absent.0 y) in
      elim (stored_email u before after st v t hv) [
        | inl (at_v, e) ↦ elim (stored_email u before after st x t hx) [
          | inl (at_x, e') ↦ sym at_v ∙ at_x
          | inr old ↦ cc (gone x, e, old)
        ]
        | inr old_v ↦ elim (stored_email u before after st x t hx) [
          | inl (at_x, e') ↦ cc (gone v, e', old_v)
          | inr old_x ↦ uniq v x t old_v old_x
        ]
      ]

  pub patched-NoNewEmails :
      (i : UpdateUserInput) (now : ℕ) (u : Text) (uids : Uids) (before after : Db)
      → dg.storage.resolve u ≡ u
      → IsWritten dg laws.read
          (user_quads
            (patched i now (unmarshal_user u (select public_fields (laws.read before u)))))
          uids
          before
          after
      → NoNewEmails before after
  unfolding target patched unmarshal_user user_entries select listed
  patched-NoNewEmails i now u uids before after canon wr v t h =
      let d = patched i now (unmarshal_user u (select public_fields (laws.read before u))) in
      elim (Bool-cases (u == v)) [
        | inl e ↦
            let same : u ≡ v = (eq_iff u v).0 e in
            let email =
              ap (λ f. f "user.email") (wr.reads u)
              ∙ set_all-user_quads dg.storage uids d u (laws.read before u) "user.email"
                  (rw canon (eq_refl u)) refl in
            rw same at
              (holds_text-rewritten (laws.read before u "user.email") t (rw (← same, email) at h))
        | inr e ↦
            rw
              (wr.reads v
                ∙ set_all-user_quads_other dg.storage uids d v (laws.read before v) (rw canon e))
              at h
      ]

  pub deleted-NoNewEmails :
      (us : List Text) (before after : Db)
      → IsDeleted dg laws.read us before after
      → NoNewEmails before after
  unfolding holds_text
  deleted-NoNewEmails us before after del v t h =
      elim (Bool-cases (mem_text v (map dg.storage.resolve us))) [
        | inl e ↦ cc (rw (del.reads v, e) at h)
        | inr e ↦ rw (del.reads v, e) at h
      ]
