-- ===== src/Repository/User/Lookup.antt =====
-- internal/repository/dgraph/repository.go: the lookups by email, after `Create` and in general.
use mathlib.Core.Bool.{false≢true}
use elysium.Prelude.{
  ◌≡◌, refl, ◌∙◌, ap, inl, inr, true, false, some, [], ◌∷◌, List, Text, eq_refl, is_empty, mem_text,
}
use elysium.Errors.{ok}
use elysium.Base64.{Base64}
use elysium.Dgraph.{Node, found, Dgraph, Query}
use elysium.Dgraph.Json.{omitempty, entered}
use elysium.Dgraph.Laws.{holds_text, fits, fits_root, fits_filter, listed, IsDgraph}
use elysium.Dgraph.Upserts.{Upserts}
use elysium.World.{World, fetch}
use elysium.Domain.Zookie.{Zookie}
use elysium.Domain.User.{User, to_lower}
use elysium.Repository.User.Wire.{created_user, user_query, user_fields, user_entries}
use elysium.Repository.User.Writes.{
  read_user, stored_user, read_user-ext, read_user-select, read_user-created,
}
use elysium.Repository.User.Creation.{IsStored}
use elysium.Repository.User.{create_absences, get_by_email, first_user, query_one}

holds_text-entered :
    (t : Text) → is_empty t ≡ false → holds_text t (entered (omitempty t) []) ≡ true
unfolding holds_text
holds_text-entered [] h = cc
holds_text-entered (c ∷ cs) h = rw (eq_refl (c ∷ cs)) refl

module _ {Db : Type 0} ⦃dg : Dgraph Db⦄ (laws : IsDgraph dg) where
  -- The node of a stored user reads as the user.
  pub read_user-IsStored :
      (u : User) (before after : Db) (st : IsStored laws u before after)
      → read_user st.uid (laws.read after st.uid) ≡ stored_user u
  unfolding listed
  read_user-IsStored u before after st =
      read_user-ext st.uid st.uid _ _ (λ p _ h. st.reads p h) ∙ read_user-created u st.uid

  fits_email :
      (u : User) (before after : Db) (st : IsStored laws u before after) (q : Query)
      → is_empty u.email ≡ false
      → fits dg.storage
          (user_query "user.email" u.email user_fields false)
          st.uid
          (laws.read after st.uid)
        ≡ true
  unfolding user_query fits_root fits_filter user_entries created_user
  fits_email u before after st q h =
      rw (st.reads "user.email" refl, holds_text-entered u.email h) refl

  only_stored :
      (u : User) (before after : Db) (st : IsStored laws u before after) (v : Text)
      → to_lower u.email ≡ u.email
      → fits dg.storage (user_query "user.email" u.email user_fields false) v (laws.read after v)
        ≡ true
      → st.uid ≡ v
  unfolding user_query fits_root fits_filter create_absences
  only_stored u before after st v low h = elim (st.others v) [
    | inl same ↦ same
    | inr unchanged ↦ cc (rw unchanged at h, rw low at (st.absent.0 v))
  ]

module _ {Db : Type 0} ⦃dg : Dgraph Db⦄ ⦃up : Upserts Db⦄ ⦃b : Base64⦄ (laws : IsDgraph dg) where
  answered_stored :
      (u : User) (before after : Db) (st : IsStored laws u before after) (ns : List Node)
      (w : World Db)
      → to_lower u.email ≡ u.email
      → is_empty u.email ≡ false
      → dg.query (user_query "user.email" u.email user_fields false) after ≡ found ns
      → (first_user ns w).0 ≡ ok (stored_user u)
  unfolding first_user mem_text user_query
  answered_stored u before after st [] w low full e =
      let q = user_query "user.email" u.email user_fields false in
      absurd (
        false≢true
          (laws.complete q after [] st.uid refl e (fits_email laws u before after st q full)))
  answered_stored u before after st (n ∷ ns) w low full e =
      let right =
        (laws.sound (user_query "user.email" u.email user_fields false) after (n ∷ ns) refl e).0 in
      let same = only_stored laws u before after st n.uid low right.0 in
      ap ok (
        ap (read_user n.uid) right.1
        ∙ read_user-select n.uid (laws.read after n.uid)
        ∙ rw (← same) (read_user-IsStored laws u before after st))

  -- A user that `Create` stored is found by its email in a strong read that Dgraph answers.
  pub get_by_email-IsStored :
      (u : User) (before : Db) (w : World Db) (st : IsStored laws u before w.db) (ns : List Node)
      (z : Zookie)
      → to_lower u.email ≡ u.email
      → is_empty u.email ≡ false
      → dg.query (user_query "user.email" u.email user_fields false) w.db ≡ found ns
      → (get_by_email u.email (some z) w).0 ≡ ok (stored_user u)
  unfolding get_by_email query_one fetch
  get_by_email-IsStored u before w st ns z low full e =
      rw (low, e) (answered_stored u before w.db st ns w low full e)
