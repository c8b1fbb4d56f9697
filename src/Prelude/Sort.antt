-- ===== src/Prelude/Sort.antt =====
-- `sort.Strings`, `sort.Slice` and `sort.SliceStable`, as an insertion sort. On items that the order
-- tells apart every sort gives the same list, and this one keeps the order of the others.
pub mod Order
pub mod Sets
use Prim.Native.String.{String, compare as compare_texts}
use Prim.Native.Nat.{◌+◌}
use mathlib.Core.Path.{◌≡◌, refl}
use mathlib.Core.Bool.{Bool}
use mathlib.Core.List.{List, [], ◌∷◌}
use native.Mathlib.Omega.{arith}
use text.Mathlib.Text.{is_lt}
use alex_cachyos.Prelude.Lists.{count_if}
use alex_cachyos.Prelude.Tests.{if◌then◌else◌}

-- Go's `<` on texts: bytewise, which for UTF-8 is by code points.
abbrev pub text_less : String → String → Bool
text_less s t = is_lt (compare_texts s t)

module _ {ℓ} {A : Type ℓ} (less : A → A → Bool) where
  -- Put `x` behind the items that are not greater.
  unfoldable pub insert_sorted : A → List A → List A
  insert_sorted x [] = x ∷ []
  insert_sorted x (y ∷ ys) =
      let rest = insert_sorted x ys in if less x y then x ∷ y ∷ ys else y ∷ rest

  insert_all : List A → List A → List A
  insert_all [] sorted = sorted
  insert_all (x ∷ xs) sorted = insert_all xs (insert_sorted x sorted)

  unfoldable pub sort_by : List A → List A
  unfolding insert_sorted insert_all
  sort_by xs = insert_all xs []

  insert_sorted-count :
      (p : A → Bool) (x : A) (ys : List A) → count_if p (insert_sorted x ys) ≡ count_if p (x ∷ ys)
  unfolding insert_sorted
  insert_sorted-count p x [] = refl
  insert_sorted-count p x (y ∷ ys) = ground (arith, insert_sorted-count p x ys)

  insert_all-count :
      (p : A → Bool) (xs sorted : List A)
      → count_if p (insert_all xs sorted) ≡ count_if p xs + count_if p sorted
  unfolding insert_all
  insert_all-count p [] sorted = omega arith
  insert_all-count p (x ∷ xs) sorted =
      ground (arith, insert_all-count p xs (insert_sorted x sorted), insert_sorted-count p x sorted)

  -- A sort holds the items that were given, each as often.
  pub sort_by-count : (p : A → Bool) (xs : List A) → count_if p (sort_by xs) ≡ count_if p xs
  unfolding sort_by
  sort_by-count p xs = omega (arith, insert_all-count p xs [])
