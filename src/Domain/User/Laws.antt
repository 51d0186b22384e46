-- ===== src/Domain/User/Laws.antt =====
-- internal/domain/user.go: what validation and normalisation ensure.
use elysium.Prelude.{
  ℕ, ◌≤◌, ◌≡◌, refl, sym, ap, ◌∙◌, ◌&&◌, [], ◌∷◌, Text, is_empty, arith, Bool-cases, inl, inr,
}
use elysium.Errors.{ok}
use elysium.Domain.User.{
  CreateUserInput, sanitised, is_acceptable, validate, is_space, trim_left, trim_right, trim_space,
  lower, to_lower, ListFilter, normalise, normal_page, normal_page_size, pos, negsuc, ℤ,
}

trim_left-trim_left : (s : Text) → trim_left (trim_left s) ≡ trim_left s
unfolding trim_left
trim_left-trim_left [] = refl
trim_left-trim_left (c ∷ cs) = ground (arith, trim_left-trim_left cs)

trim_right-trim_right : (s : Text) → trim_right (trim_right s) ≡ trim_right s
unfolding trim_right
trim_right-trim_right [] = refl
trim_right-trim_right (c ∷ cs) = elim (Bool-cases (is_space c && is_empty (trim_right cs))) [
  | inl h ↦ rw h refl
  | inr h ↦ rw (h, trim_right-trim_right cs, h) refl
]

trim_left-trim_right : (s : Text) → trim_left (trim_right s) ≡ trim_right (trim_left s)
unfolding trim_left trim_right
trim_left-trim_right [] = refl
trim_left-trim_right (c ∷ cs) = ground (arith, trim_left-trim_right cs)

trim_space-trim_space : (s : Text) → trim_space (trim_space s) ≡ trim_space s
unfolding trim_space
trim_space-trim_space s =
    ap trim_right (trim_left-trim_right (trim_left s))
    ∙ trim_right-trim_right (trim_left (trim_left s))
    ∙ ap trim_right (trim_left-trim_left s)

is_space-lower : (c : ℕ) → is_space (lower c) ≡ is_space c
unfolding is_space
is_space-lower c = ground arith

is_empty-to_lower : (s : Text) → is_empty (to_lower s) ≡ is_empty s
unfolding to_lower
is_empty-to_lower [] = refl
is_empty-to_lower (c ∷ cs) = refl

pub to_lower-to_lower : (s : Text) → to_lower (to_lower s) ≡ to_lower s
unfolding to_lower
to_lower-to_lower [] = refl
to_lower-to_lower (c ∷ cs) = ground (arith, to_lower-to_lower cs)

trim_left-to_lower : (s : Text) → trim_left (to_lower s) ≡ to_lower (trim_left s)
unfolding trim_left to_lower
trim_left-to_lower [] = refl
trim_left-to_lower (c ∷ cs) = rw (is_space-lower c) (ground (arith, trim_left-to_lower cs))

trim_right-to_lower : (s : Text) → trim_right (to_lower s) ≡ to_lower (trim_right s)
unfolding trim_right to_lower
trim_right-to_lower [] = refl
trim_right-to_lower (c ∷ cs) =
    rw (is_space-lower c, trim_right-to_lower cs, is_empty-to_lower (trim_right cs)) (ground arith)

trim_space-to_lower : (s : Text) → trim_space (to_lower s) ≡ to_lower (trim_space s)
unfolding trim_space
trim_space-to_lower s = ap trim_right (trim_left-to_lower s) ∙ trim_right-to_lower (trim_left s)

sanitised-sanitised : (i : CreateUserInput) → sanitised (sanitised i) ≡ sanitised i
unfolding sanitised
sanitised-sanitised i =
    rw
      (
        trim_space-trim_space i.first_name,
        trim_space-trim_space i.last_name,
        trim_space-trim_space i.nickname,
        trim_space-trim_space i.country,
        trim_space-to_lower (trim_space i.email),
        trim_space-trim_space i.email,
        to_lower-to_lower (trim_space i.email),
      )
      refl

-- An input that `CreateUserInput.Validate` has accepted and sanitised is accepted again, unchanged.
pub validate-validate : (i j : CreateUserInput) → validate i ≡ ok j → validate j ≡ ok j
unfolding validate
validate-validate i j h = elim (Bool-cases (is_acceptable (sanitised i))) [
  | inl e ↦
      let same : sanitised i ≡ j = cc (rw e at h) in rw (sym same, sanitised-sanitised i, e) refl
  | inr e ↦ cc (rw e at h)
]

page_positive : (z : ℤ) → 1 ≤ normal_page z
unfolding normal_page
page_positive (pos n) = ground arith
page_positive (negsuc n) = omega arith

pub page_size_positive : (z : ℤ) → 1 ≤ normal_page_size z
unfolding normal_page_size
page_size_positive (pos n) = ground arith
page_size_positive (negsuc n) = omega arith

page_size_bounded : (z : ℤ) → normal_page_size z ≤ 100
unfolding normal_page_size
page_size_bounded (pos n) = ground arith
page_size_bounded (negsuc n) = omega arith

-- `Normalise` gives a page of at least 1 and a page size from 1 to 100, and changes nothing when
-- applied again.
pub normalise-bounds :
    (f : ListFilter)
    → (n : ℕ) × (m : ℕ) × ((normalise f).page ≡ pos n)
      × ((normalise f).page_size ≡ pos m)
      × (1 ≤ n)
      × (1 ≤ m)
      × (m ≤ 100)
      × (normalise (normalise f) ≡ normalise f)
unfolding normalise normal_page normal_page_size
normalise-bounds f = (
  normal_page f.page,
  normal_page_size f.page_size,
  refl,
  refl,
  page_positive f.page,
  page_size_positive f.page_size,
  page_size_bounded f.page_size,
  (let p = page_positive f.page in
      let q = page_size_positive f.page_size in
      let r = page_size_bounded f.page_size in ground arith),
)
