-- ===== src/Repository/User/Listing.antt =====
-- internal/repository/dgraph/repository.go: what `List` answers.
use elysium.Prelude.{
  ℕ, ◌+◌, ◌-◌, ◌*◌, ◌/◌, ◌≤◌, ◌<◌, ◌≡◌, refl, ◌⊎◌, inl, inr, Bool, true, false, some, [], ◌∷◌, List,
  Text, eq_iff, arith, Bool-cases, length, All, map, ltb,
}
use elysium.Errors.{ok}
use elysium.Base64.{Base64}
use elysium.Dgraph.{Object, str, int, bool, time, Node, Dgraph}
use elysium.Dgraph.Schema.{is_list}
use elysium.Dgraph.Laws.{
  holds_text, holds_true, fits, fits_root, fits_filter, select, listed, IsDgraph,
}
use elysium.Dgraph.Upserts.{
  PageReply, page_failed, page_malformed, page, page_nodes_query, Upserts, IsUpserts,
}
use elysium.World.{World}
use elysium.Domain.Zookie.{Zookie}
use elysium.Domain.User.{User, ListFilter, ListResult, normal_page, normal_page_size}
use elysium.Domain.User.Laws.{page_size_positive}
use elysium.Repository.Session.Wire.{text_field, bool_field}
use elysium.Repository.User.Wire.{
  list_query, page_count, total_count, unmarshal_user, to_domain, public_fields,
}
use elysium.Repository.User.{list, fetch_page, node_user}

-- The number of pages is the least positive number of pages of this size that hold the total.
pub page_count_lem :
    (total size : ℕ)
    → 1 ≤ size
    → (1 ≤ page_count total size)
      × (total ≤ page_count total size * size)
      × ((page_count total size ≡ 1) ⊎ ((page_count total size - 1) * size < total))
unfolding page_count
page_count_lem total size h = elim (Bool-cases (ltb ((total + (size - 1)) / size) 1)) [
  | inl e ↦ rw e (omega arith, grind arith, inl refl)
  | inr e ↦ rw e (ground arith, grind arith, inr (grind arith))
]

bool_field_of_true :
    (os : List Object) → length os ≤ 1 → holds_true os ≡ true → bool_field os ≡ true
unfolding holds_true bool_field
bool_field_of_true [] h t = cc
bool_field_of_true (bool x ∷ []) h t = ground arith
bool_field_of_true (str s ∷ []) h t = cc
bool_field_of_true (int n ∷ []) h t = cc
bool_field_of_true (time n ∷ []) h t = cc
bool_field_of_true (o ∷ p ∷ os) h t = absurd (omega arith)

text_field_of_held :
    (t : Text) (os : List Object) → length os ≤ 1 → holds_text t os ≡ true → text_field os ≡ t
unfolding holds_text text_field
text_field_of_held t [] h e = cc
text_field_of_held t (str s ∷ []) h e = (eq_iff s t).0 (ground arith)
text_field_of_held t (bool x ∷ []) h e = cc
text_field_of_held t (int n ∷ []) h e = cc
text_field_of_held t (time n ∷ []) h e = cc
text_field_of_held t (o ∷ p ∷ os) h e = absurd (omega arith)

-- A user that `List` may show: active, and of the country where one is given.
abbrev pub IsShown : Text → User → Type 0
IsShown country u = (u.active ≡ true) × ((country ≡ []) ⊎ (u.country ≡ country))

module _ {Db : Type 0} ⦃dg : Dgraph Db⦄ (laws : IsDgraph dg) where
  Fits : Text → ℕ → ℕ → Bool → Db → Node → Type 0
  Fits country p size best db n =
      (fits dg.storage (page_nodes_query (list_query country p size best)) n.uid
          (laws.read db n.uid)
        ≡ true)
      × (n.vals ≡ select public_fields (laws.read db n.uid))

  Fits-IsShown :
      (country : Text) (p size : ℕ) (best : Bool) (db : Db) (n : Node)
      → Fits country p size best db n
      → IsShown country (to_domain (node_user n))
  unfolding Fits list_query fits_root fits_filter to_domain unmarshal_user select listed is_list
  Fits-IsShown [] p size best db n h = (
    rw h.1 (bool_field_of_true _ (laws.single db n.uid "user.active" refl) (ground (arith, h.0))),
    inl refl,
  )
  Fits-IsShown (c ∷ cs) p size best db n h = (
    rw h.1 (bool_field_of_true _ (laws.single db n.uid "user.active" refl) (ground (arith, h.0))),
    inr (
        rw h.1 (
          text_field_of_held (c ∷ cs) _ (laws.single db n.uid "user.country" refl)
            (ground (arith, h.0)))),
  )

  All-IsShown :
      (country : Text) (p size : ℕ) (best : Bool) (db : Db) (ns : List Node)
      → All (Fits country p size best db) ns
      → All (IsShown country) (map (λ n. to_domain (node_user n)) ns)
  All-IsShown country p size best db [] h = tt
  All-IsShown country p size best db (n ∷ ns) h =
      (Fits-IsShown country p size best db n h.0, All-IsShown country p size best db ns h.1)

length-map : (f : Node → User) (ns : List Node) → length (map f ns) ≡ length ns
length-map f [] = refl
length-map f (n ∷ ns) = omega (arith, length-map f ns)

module _ {Db : Type 0} ⦃dg : Dgraph Db⦄ ⦃up : Upserts Db⦄ ⦃b : Base64⦄ (laws : IsDgraph dg)
    (ups : IsUpserts laws up) where
  -- If `List` succeeds with a zookie, it shows active users only, of the country where one is given,
  -- at most a normalised page size of them; the page is the normalised one, and the pages are the
  -- least positive number of pages that hold the total.
  pub list_sound :
      (f : ListFilter) (z : Zookie) (w : World Db) (r : ListResult)
      → (list f (some z) w).0 ≡ ok r
      → All (IsShown f.country) r.users
        × (length r.users ≤ normal_page_size f.page_size)
        × (r.page ≡ normal_page f.page)
        × (r.total ≤ r.pages * normal_page_size f.page_size)
        × ((r.pages ≡ 1) ⊎ ((r.pages - 1) * normal_page_size f.page_size < r.total))
  unfolding list fetch_page list_query Fits
  list_sound f z w r h =
      answered
        (up.query_page
          (list_query f.country (normal_page f.page) (normal_page_size f.page_size) false) w.db)
        refl h
    where
      answered :
          (p : PageReply)
          → up.query_page
              (list_query f.country (normal_page f.page) (normal_page_size f.page_size) false)
              w.db
            ≡ p
          → (list f (some z) w).0 ≡ ok r
          → All (IsShown f.country) r.users
            × (length r.users ≤ normal_page_size f.page_size)
            × (r.page ≡ normal_page f.page)
            × (r.total ≤ r.pages * normal_page_size f.page_size)
            × ((r.pages ≡ 1) ⊎ ((r.pages - 1) * normal_page_size f.page_size < r.total))
      answered page_failed e h = cc (rw e at h)
      answered page_malformed e h = cc (rw e at h)
      answered (page ns total) e h =
          let size = normal_page_size f.page_size in
          let q = list_query f.country (normal_page f.page) size false in
          let sound = ups.page_sound q w.db ns total size refl refl e in
          let n = page_count_lem (total_count total) size (page_size_positive f.page_size) in
          let same : record {
            users = map (λ n. to_domain (node_user n)) ns;
            total = total_count total;
            page = normal_page f.page;
            pages = page_count (total_count total) size;
          }
              ≡ r =
            cc (rw e at h) in
          rw (← same) (
            All-IsShown laws f.country (normal_page f.page) size false w.db ns sound.1,
            rw (length-map (λ n. to_domain (node_user n)) ns) sound.0,
            refl,
            n.1,
            n.2,
          )
