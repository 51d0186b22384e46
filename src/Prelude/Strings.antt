-- ===== src/Prelude/Strings.antt =====
-- A Go string is the list of its bytes. A literal of the source is written `lit "…"` (all of them
-- are ASCII, so that the code points are the bytes).
use Prim.Native.Nat.{ℕ}
use Prim.Native.Char.{code}
use Prim.Native.String.{String}
use mathlib.Core.Path.{◌≡◌, refl}
use mathlib.Core.Logic.{◌↔◌}
use mathlib.Core.Bool.{Bool, true, false, ◌&&◌}
use mathlib.Core.List.{List, [], ◌∷◌, ◌++◌}
use native.Mathlib.Omega.{arith}
use elysium.Prelude.Tests.{nat_eq, if◌then◌else◌}

abbrev pub Text : Type 0
Text = List ℕ

abbrev pub lit : String → Text
lit String.[] = []
lit (String.◌∷◌ c s) = code c ∷ lit s

infix 50 ◌==◌
unfoldable pub ◌==◌ : Text → Text → Bool
[] == [] = true
[] == (y ∷ ys) = false
(x ∷ xs) == [] = false
(x ∷ xs) == (y ∷ ys) = nat_eq x y && xs == ys

-- `strings.HasPrefix(s, prefix)`.
unfoldable pub has_prefix : Text → Text → Bool
has_prefix s [] = true
has_prefix [] (y ∷ ys) = false
has_prefix (x ∷ xs) (y ∷ ys) = nat_eq x y && has_prefix xs ys

-- Drops as many bytes as the second text has, from a text that begins with it.
unfoldable pub drop_prefix : Text → Text → Text
drop_prefix s [] = s
drop_prefix [] (y ∷ ys) = []
drop_prefix (x ∷ xs) (y ∷ ys) = drop_prefix xs ys

-- `strings.TrimPrefix(s, prefix)`.
unfoldable pub trim_prefix : Text → Text → Text
unfolding has_prefix drop_prefix
trim_prefix s p = let rest = drop_prefix s p in if has_prefix s p then rest else s

pub eq_iff : (s t : Text) → ((s == t) ≡ true) ↔ (s ≡ t)
unfolding ◌==◌
eq_iff [] [] = ground arith
eq_iff [] (y ∷ ys) = ground arith
eq_iff (x ∷ xs) [] = ground arith
eq_iff (x ∷ xs) (y ∷ ys) = ground (arith, eq_iff xs ys)

pub eq_refl : (s : Text) → (s == s) ≡ true
eq_refl s = (eq_iff s s).1 refl

pub has_prefix-append : (p s : Text) → has_prefix (p ++ s) p ≡ true
unfolding has_prefix
has_prefix-append [] [] = refl
has_prefix-append [] (y ∷ ys) = refl
has_prefix-append (x ∷ xs) s = ground (arith, has_prefix-append xs s)

drop_prefix-append : (p s : Text) → drop_prefix (p ++ s) p ≡ s
unfolding drop_prefix
drop_prefix-append [] [] = refl
drop_prefix-append [] (y ∷ ys) = refl
drop_prefix-append (x ∷ xs) s = drop_prefix-append xs s

pub trim_prefix-append : (p s : Text) → trim_prefix (p ++ s) p ≡ s
unfolding trim_prefix
trim_prefix-append p s = rw (has_prefix-append p s) (drop_prefix-append p s)
