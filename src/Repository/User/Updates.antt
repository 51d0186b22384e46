-- ===== src/Repository/User/Updates.antt =====
-- internal/repository/dgraph/repository.go: what `Update` stores, and what it answers.
use elysium.Prelude.{
  ℕ, ◌/◌, ◌*◌, ◌≡◌, refl, ◌∙◌, ap, ◌⊎◌, inl, inr, true, false, Option, none, some, [], ◌∷◌, List,
  Text, ◌==◌, eq_iff, eq_refl, arith, Bool-cases, Option-cases,
}
use elysium.Errors.{ok}
use elysium.Base64.{Base64}
use elysium.Dgraph.{
  Object, str, int, bool, time, Node, Uids, found, failed, malformed, Reply, Dgraph, Values,
}
use elysium.Dgraph.Json.{omitempty, omitempty_time, entered}
use elysium.Dgraph.Laws.{
  holds_text, fits_root, fits_filter, target, IsWritten, IsDgraph, select, listed,
}
use elysium.Dgraph.Upserts.{Upserts}
use elysium.World.{World, begin, txn_fetch, time_now, txn_mutate, txn_commit}
use elysium.Domain.Session.{second}
use elysium.Domain.Zookie.{Zookie}
use elysium.Domain.User.{User, UpdateUserInput}
use elysium.Repository.Session.Wire.{text_field, bool_field, time_field, parse_rfc3339}
use elysium.Repository.User.Wire.{
  patched, given, user_quads, user_query, user_entries, unmarshal_user, to_domain, public_fields,
}
use elysium.Repository.User.Writes.{
  read_user, read_user-ext, entered_user, set_all-user_quads, set_all-user_quads_other,
}
use elysium.Repository.User.{zookie_from_txn, update, update_first, node_user}

-- A text that is given and not empty replaces the old one in the database.
unfoldable pub stored_field : Option Text → Text → Text
stored_field none old = old
stored_field (some []) old = old
stored_field (some (c ∷ cs)) old = c ∷ cs

-- What the database holds after an update, told of the user that it held before.
unfoldable pub updated_user : UpdateUserInput → ℕ → User → User
updated_user i now u = record u {
  first_name = stored_field i.first_name u.first_name;
  last_name = stored_field i.last_name u.last_name;
  nickname = stored_field i.nickname u.nickname;
  country = stored_field i.country u.country;
  updated_at = now / second * second;
}

-- What `Update` answers: a text that is given replaces the old one, also where it is empty, and there
-- is no password hash.
unfoldable pub answered_user : UpdateUserInput → ℕ → User → User
answered_user i now u = record u {
  first_name = given i.first_name u.first_name;
  last_name = given i.last_name u.last_name;
  nickname = given i.nickname u.nickname;
  country = given i.country u.country;
  password_hash = [];
  updated_at = now / second * second;
}

text_field-stored :
    (x : Option Text) (os : List Object)
    → text_field (entered (omitempty (given x (text_field os))) os) ≡ stored_field x (text_field os)
unfolding stored_field text_field
text_field-stored (some []) os = refl
text_field-stored (some (c ∷ cs)) os = refl
text_field-stored none [] = refl
text_field-stored none (str [] ∷ os) = refl
text_field-stored none (str (c ∷ cs) ∷ os) = refl
text_field-stored none (int n ∷ os) = refl
text_field-stored none (bool x ∷ os) = refl
text_field-stored none (time t ∷ os) = refl

text_field-kept :
    (os : List Object) → text_field (entered (omitempty (text_field os)) os) ≡ text_field os
unfolding stored_field
text_field-kept os = text_field-stored none os

time_field-kept :
    (os : List Object) → time_field (entered (omitempty_time (time_field os)) os) ≡ time_field os
unfolding time_field
time_field-kept [] = refl
time_field-kept (time t ∷ os) = refl
time_field-kept (str s ∷ os) = refl
time_field-kept (int n ∷ os) = refl
time_field-kept (bool x ∷ os) = refl

-- The object that `Update` writes, read back.
read_user-patched :
    (i : UpdateUserInput) (now : ℕ) (u : Text) (vals : Values)
    → read_user u (entered_user (patched i now (unmarshal_user u (select public_fields vals))) vals)
      ≡ updated_user i now (read_user u vals)
unfolding unmarshal_user to_domain user_entries patched updated_user bool_field select listed
    parse_rfc3339
read_user-patched i now u vals =
    rw
      (
        text_field-kept (vals "user.id"),
        text_field-stored i.first_name (vals "user.first_name"),
        text_field-stored i.last_name (vals "user.last_name"),
        text_field-stored i.nickname (vals "user.nickname"),
        text_field-kept (vals "user.email"),
        text_field-stored i.country (vals "user.country"),
        time_field-kept (vals "user.created_at"),
      )
      refl

answered-patched :
    (i : UpdateUserInput) (now : ℕ) (u : Text) (vals : Values)
    → to_domain (patched i now (unmarshal_user u (select public_fields vals)))
      ≡ answered_user i now (read_user u vals)
unfolding unmarshal_user to_domain patched answered_user select listed parse_rfc3339
answered-patched i now u vals = refl

module _ {Db : Type 0} ⦃dg : Dgraph Db⦄ (laws : IsDgraph dg) where
  -- A user with this id was stored under the uid; the fields that are given and not empty replace its
  -- own, `updated_at` is the time of the call, and all else is as it was, in this node and in others.
  pub record IsUpdated (id : Text) (i : UpdateUserInput) (now : ℕ) (before after : Db)
      (answer : User) : Type 0 where
    pub uid : Text
    pub selected : holds_text id (laws.read before uid "user.id") ≡ true
    pub stored :
        read_user uid (laws.read after uid)
        ≡ updated_user i now (read_user uid (laws.read before uid))
    pub answered : answer ≡ answered_user i now (read_user uid (laws.read before uid))
    pub others : (v : Text) → (uid ≡ v) ⊎ (laws.read after v ≡ laws.read before v)

  committed-IsUpdated :
      (id : Text) (i : UpdateUserInput) (now : ℕ) (u : Text) (uids : Uids) (before after : Db)
      → dg.storage.resolve u ≡ u
      → holds_text id (laws.read before u "user.id") ≡ true
      → IsWritten dg laws.read
          (user_quads
            (patched i now (unmarshal_user u (select public_fields (laws.read before u)))))
          uids
          before
          after
      → IsUpdated id i now before after
          (to_domain (patched i now (unmarshal_user u (select public_fields (laws.read before u)))))
  unfolding target patched unmarshal_user
  committed-IsUpdated id i now u uids before after canon holds wr =
      let d = patched i now (unmarshal_user u (select public_fields (laws.read before u))) in
      let own : target dg.storage uids d.uid == u ≡ true = rw canon (eq_refl u) in
      record {
        uid = u;
        selected = holds;
        stored =
            read_user-ext u u (laws.read after u) (entered_user d (laws.read before u)) (λ p _ h.
              ap (λ f. f p) (wr.reads u)
              ∙ set_all-user_quads dg.storage uids d u (laws.read before u) p own h)
            ∙ read_user-patched i now u (laws.read before u);
        answered = answered-patched i now u (laws.read before u);
        others = λ v. elim (Bool-cases (u == v)) [
          | inl e ↦ inl ((eq_iff u v).0 e)
          | inr e ↦ inr (
              wr.reads v
              ∙ set_all-user_quads_other dg.storage uids d v (laws.read before v) (rw canon e))
        ];
      }

module _ {Db : Type 0} ⦃dg : Dgraph Db⦄ ⦃up : Upserts Db⦄ ⦃b : Base64⦄ (laws : IsDgraph dg) where
  update_first-IsUpdated :
      (id : Text) (i : UpdateUserInput) (n : Node) (ns : List Node) (w : World Db) (user : User)
      (z : Zookie)
      → dg.storage.resolve n.uid ≡ n.uid
      → n.vals ≡ select public_fields (laws.read w.db n.uid)
      → holds_text id (laws.read w.db n.uid "user.id") ≡ true
      → (update_first w.db i (n ∷ ns) w).0 ≡ ok (user, z)
      → IsUpdated laws id i (w.clock 0) w.db (update_first w.db i (n ∷ ns) w).1.db user
  unfolding update_first time_now txn_mutate txn_commit zookie_from_txn
  update_first-IsUpdated id i n ns w user z canon vals holds h =
      let qs = user_quads (patched i (w.clock 0) (node_user n)) in
      elim (Option-cases (dg.stage qs w.db)) [
        | inl refused ↦ cc (rw refused at h)
        | inr (uids, e) ↦ elim (Bool-cases (dg.commit w.db qs uids w.db).0) [
          | inr lost ↦ cc (rw (e, lost) at h)
          | inl done ↦
              let same : to_domain (patched i (w.clock 0) (node_user n)) ≡ user =
                cc (rw (e, done) at h) in
              rw (e, done, ← same, vals)
                (committed-IsUpdated laws id i (w.clock 0) n.uid uids w.db _ canon holds
                  (rw vals at (laws.committed qs uids w.db w.db e done)))
        ]
      ]

  -- If `Update` succeeds, a user with the id was stored, exactly the fields that are given and not
  -- empty replace its own, with the time of the call; the answer has the same user, but with the
  -- fields that are given and empty, and without the password hash.
  pub update-IsUpdated :
      (id : Text) (i : UpdateUserInput) (w : World Db) (user : User) (z : Zookie)
      → (update id i w).0 ≡ ok (user, z)
      → IsUpdated laws id i (w.clock 0) w.db (update id i w).1.db user
  unfolding update begin txn_fetch update_first user_query fits_root fits_filter
  update-IsUpdated id i w user z h =
      answered (dg.query (user_query "user.id" id public_fields false) w.db) refl h
    where
      answered :
          (r : Reply)
          → dg.query (user_query "user.id" id public_fields false) w.db ≡ r
          → (update id i w).0 ≡ ok (user, z)
          → IsUpdated laws id i (w.clock 0) w.db (update id i w).1.db user
      answered failed e h = cc (rw e at h)
      answered malformed e h = cc (rw e at h)
      answered (found []) e h = cc (rw e at h)
      answered (found (n ∷ ns)) e h =
          let q = user_query "user.id" id public_fields false in
          let right = (laws.sound q w.db (n ∷ ns) refl e).0 in
          rw e (
            update_first-IsUpdated id i n ns w user z right.2 right.1 (ground (arith, right.0))
              (rw e at h))
