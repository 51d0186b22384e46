-- ===== src/Repository/User/Writes.antt =====
-- internal/repository/dgraph/repository.go: what the JSON object of a user leaves in its node, and how
-- a node is read back.
use elysium.Prelude.{◌*◌, ◌/◌, String, ◌≡◌, refl, ◌∙◌, true, false, [], ◌∷◌, Text, ◌==◌, str_eq}
use elysium.Dgraph.{Values, Uids, Storage, about, each_text, no_values}
use elysium.Dgraph.Schema.{is_list}
use elysium.Dgraph.Json.{omitempty, entered, entered_at, marshal, NoLists, put_all-marshal}
use elysium.Dgraph.Laws.{target, set_all, listed, select, put_all}
use elysium.Dgraph.Writes.{
  set_all-append, set_all-about_self, set_all-about_other, put_all-each_text_other,
}
use elysium.Domain.Session.{second}
use elysium.Domain.User.{User}
use elysium.Repository.Session.Wire.{text_field, time_field}
use elysium.Repository.User.Wire.{
  DgraphUser, unmarshal_user, to_domain, created_user, user_entries, user_quads, user_fields,
}

abbrev pub read_user : Text → Values → User
read_user u vals = to_domain (unmarshal_user u vals)

-- The user with its times to the second.
unfoldable pub stored_user : User → User
stored_user u = record u {
  created_at = u.created_at / second * second;
  updated_at = u.updated_at / second * second;
}

-- A user is read from the predicates of `user_fields`.
pub read_user-ext :
    (u v : Text) (vals vals' : Values)
    → ((p : String)
        → listed p user_fields ≡ true
        → str_eq "dgraph.type" p ≡ false
        → vals p ≡ vals' p)
    → read_user u vals ≡ read_user v vals'
unfolding unmarshal_user to_domain listed
read_user-ext u v vals vals' h =
    rw
      (
        h "user.id" refl refl,
        h "user.first_name" refl refl,
        h "user.last_name" refl refl,
        h "user.nickname" refl refl,
        h "user.password_hash" refl refl,
        h "user.email" refl refl,
        h "user.country" refl refl,
        h "user.active" refl refl,
        h "user.created_at" refl refl,
        h "user.updated_at" refl refl,
      )
      refl

pub read_user-select :
    (u : Text) (vals : Values) → read_user u (select user_fields vals) ≡ read_user u vals
unfolding select
read_user-select u vals = read_user-ext u u _ vals (λ p h _. rw h refl)

-- The values of a node after the object of a user was written to it.
abbrev pub entered_user : DgraphUser → Values → Values
entered_user d old r = entered_at r (user_entries d) (old r)

user_entries-NoLists : (d : DgraphUser) → NoLists (user_entries d)
unfolding user_entries is_list
user_entries-NoLists d =
    (refl, (refl, (refl, (refl, (refl, (refl, (refl, (refl, (refl, (refl, tt))))))))))

module _ (st : Storage) where
  pub set_all-user_quads :
      (uids : Uids) (d : DgraphUser) (u : Text) (vals : Values) (r : String)
      → target st uids d.uid == u ≡ true
      → str_eq "dgraph.type" r ≡ false
      → set_all st uids u (user_quads d) vals r ≡ entered_user d vals r
  unfolding user_quads
  set_all-user_quads uids d u vals r e h =
      rw
        (
          set_all-append st uids u (about d.uid (each_text "dgraph.type" d.d_type))
              (about d.uid (marshal (user_entries d))) vals,
          set_all-about_self st uids d.uid (each_text "dgraph.type" d.d_type) vals u e,
          set_all-about_self st uids d.uid (marshal (user_entries d))
              (put_all st (each_text "dgraph.type" d.d_type) vals) u e,
          put_all-marshal st (user_entries d) (put_all st (each_text "dgraph.type" d.d_type) vals) r
              (user_entries-NoLists d),
          put_all-each_text_other st "dgraph.type" r d.d_type vals h,
        )
        refl

  pub set_all-user_quads_other :
      (uids : Uids) (d : DgraphUser) (u : Text) (vals : Values)
      → target st uids d.uid == u ≡ false
      → set_all st uids u (user_quads d) vals ≡ vals
  unfolding user_quads
  set_all-user_quads_other uids d u vals e =
      set_all-append st uids u (about d.uid (each_text "dgraph.type" d.d_type))
        (about d.uid (marshal (user_entries d))) vals
      ∙ set_all-about_other st uids d.uid (marshal (user_entries d)) _ u e
      ∙ set_all-about_other st uids d.uid (each_text "dgraph.type" d.d_type) vals u e

text_field-entered : (t : Text) → text_field (entered (omitempty t) []) ≡ t
unfolding text_field
text_field-entered [] = refl
text_field-entered (c ∷ cs) = refl

-- A new node with the object of a new user reads as that user, its times to the second.
pub read_user-created :
    (usr : User) (u : Text)
    → read_user u (entered_user (created_user usr) no_values) ≡ stored_user usr
unfolding unmarshal_user to_domain user_entries created_user stored_user time_field
read_user-created usr u =
    rw
      (
        text_field-entered usr.id,
        text_field-entered usr.first_name,
        text_field-entered usr.last_name,
        text_field-entered usr.nickname,
        text_field-entered usr.password_hash,
        text_field-entered usr.email,
        text_field-entered usr.country,
      )
      refl
