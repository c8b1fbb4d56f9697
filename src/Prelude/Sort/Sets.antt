-- ===== src/Prelude/Sort/Sets.antt =====
-- A set of texts, as Go's idiom of a map to empty structs and a sort of its keys.
use Prim.Native.String.{String}
use Prim.Native.Nat.{◌+◌, ◌≤◌}
use mathlib.Core.Path.{◌≡◌, refl, sym, ◌∙◌}
use mathlib.Core.Logic.{inl, inr}
use mathlib.Core.Bool.{true, false, ◌||◌}
use mathlib.Core.List.{List, [], ◌∷◌}
use native.Mathlib.Omega.{arith}
use text.Mathlib.Text.{◌==◌}
use text.Mathlib.TextEquality.{eq_iff}
use text.Mathlib.TextPositions.{eq_refl}
use alex_cachyos.Prelude.Lists.{contains, count, contains-count}
use alex_cachyos.Prelude.Sort.{
  text_less, insert_sorted, insert_all, insert_sorted-count, sort_by, sort_by-count,
}
use alex_cachyos.Prelude.Tests.{if◌then◌else◌, Bool-cases}
use alex_cachyos.Prelude.Sort.Order.{text_less_irrefl, text_less_trans, text_less_flip}

-- In increasing order, without repetitions.
abbrev IsIncreasing : List String → Type 0
IsIncreasing [] = Unit
IsIncreasing (x ∷ xs) =
    ((v : String) → contains xs v ≡ true → text_less x v ≡ true) × IsIncreasing xs

contains-insert_sorted :
    (x : String) (ys : List String) (v : String)
    → contains (insert_sorted text_less x ys) v ≡ (x == v || contains ys v)
unfolding insert_sorted contains
contains-insert_sorted x [] v = refl
contains-insert_sorted x (y ∷ ys) v = ground (arith, contains-insert_sorted x ys v)

insert_sorted-IsIncreasing :
    (x : String) (ys : List String)
    → contains ys x ≡ false
    → IsIncreasing ys
    → IsIncreasing (insert_sorted text_less x ys)
unfolding insert_sorted contains
insert_sorted-IsIncreasing x [] new sorted = ((λ v there. absurd (cc there)), tt)
insert_sorted-IsIncreasing x (y ∷ ys) new sorted = elim (Bool-cases (text_less x y)) [
  | inl less ↦ rw less (
    (λ v there. ground (arith, eq_iff y v, less, sorted.0 v, text_less_trans x y v, there)),
    sorted,
  )
  | inr more ↦
      let below = text_less_flip x y more (ground (arith, new)) in
      rw more (
        (λ v there.
            ground (arith, eq_iff x v, below, sorted.0 v, contains-insert_sorted x ys v, there)),
        insert_sorted-IsIncreasing x ys (ground (arith, new)) sorted.1,
      )
]

-- The keys of a map from the values to empty structs.
unfoldable pub distinct : List String → List String
distinct [] = []
distinct (value ∷ values) =
    let rest = distinct values in if contains values value then rest else value ∷ rest

unfoldable pub sorted_set : List String → List String
sorted_set values = sort_by text_less (distinct values)

heads_equal :
    (x y : String) (xs ys : List String)
    → IsIncreasing (x ∷ xs)
    → IsIncreasing (y ∷ ys)
    → ((v : String) → contains (x ∷ xs) v ≡ contains (y ∷ ys) v)
    → x ≡ y
unfolding contains
heads_equal x y xs ys sx sy same = elim (Bool-cases (x == y)) [
  | inl equal ↦ (eq_iff x y).0 equal
  | inr apart ↦ absurd (
      ground (
        arith,
        apart,
        same x,
        same y,
        eq_iff x y,
        eq_iff y x,
        eq_refl x,
        eq_refl y,
        sx.0 y,
        sy.0 x,
        text_less_trans x y x,
        text_less_irrefl x,
      ))
]

increasing_unique :
    (xs ys : List String)
    → IsIncreasing xs
    → IsIncreasing ys
    → ((v : String) → contains xs v ≡ contains ys v)
    → xs ≡ ys
unfolding contains
increasing_unique [] [] sx sy same = refl
increasing_unique [] (y ∷ ys) sx sy same = absurd (ground (arith, same y, eq_refl y))
increasing_unique (x ∷ xs) [] sx sy same = absurd (ground (arith, same x, eq_refl x))
increasing_unique (x ∷ xs) (y ∷ ys) sx sy same =
    let x≡y = heads_equal x y xs ys sx sy same in
    let tails = increasing_unique xs ys sx.1 sy.1 (λ v.
      ground (arith, same v, sx.0 v, sy.0 v, eq_iff x v, eq_iff y v, text_less_irrefl v, x≡y)) in
    λ i. x≡y i ∷ tails i

insert_all-IsIncreasing :
    (xs ys : List String)
    → ((v : String) → count v xs + count v ys ≤ 1)
    → IsIncreasing ys
    → IsIncreasing (insert_all text_less xs ys)
unfolding insert_all
insert_all-IsIncreasing [] ys once sorted = sorted
insert_all-IsIncreasing (x ∷ xs) ys once sorted =
    insert_all-IsIncreasing xs (insert_sorted text_less x ys)
      (λ v. ground (arith, once v, insert_sorted-count text_less (λ y. y == v) x ys))
      (insert_sorted-IsIncreasing x ys (ground (arith, once x, eq_refl x, contains-count ys x))
        sorted)

-- A sort by the order of texts keeps which texts there are.
pub contains-sort_by :
    (xs : List String) (v : String) → contains (sort_by text_less xs) v ≡ contains xs v
contains-sort_by xs v = ground (
  arith,
  contains-count xs v,
  contains-count (sort_by text_less xs) v,
  sort_by-count text_less (λ y. y == v) xs,
)

contains-distinct : (xs : List String) (v : String) → contains (distinct xs) v ≡ contains xs v
unfolding distinct contains
contains-distinct [] v = refl
contains-distinct (x ∷ xs) v = ground (arith, contains-distinct xs v, eq_iff x v)

count-distinct : (xs : List String) (v : String) → count v (distinct xs) ≤ 1
unfolding distinct
count-distinct [] v = omega arith
count-distinct (x ∷ xs) v =
    ground (
      arith,
      count-distinct xs v,
      contains-distinct xs x,
      contains-count (distinct xs) x,
      eq_iff x v,
    )

sorted_set-IsIncreasing : (xs : List String) → IsIncreasing (sorted_set xs)
unfolding sorted_set sort_by
sorted_set-IsIncreasing xs =
    insert_all-IsIncreasing (distinct xs) [] (λ v. omega (arith, count-distinct xs v)) tt

pub contains-sorted_set :
    (xs : List String) (v : String) → contains (sorted_set xs) v ≡ contains xs v
unfolding sorted_set
contains-sorted_set xs v = contains-sort_by (distinct xs) v ∙ contains-distinct xs v

-- The two lists hold the same texts, in whatever order and however often.
abbrev pub SameSet : List String → List String → Type 0
SameSet xs ys = (v : String) → contains xs v ≡ contains ys v

pub sorted_set-SameSet : (xs ys : List String) → SameSet xs ys → sorted_set xs ≡ sorted_set ys
sorted_set-SameSet xs ys same =
    increasing_unique (sorted_set xs) (sorted_set ys) (sorted_set-IsIncreasing xs)
      (sorted_set-IsIncreasing ys)
      (λ v. contains-sorted_set xs v ∙ same v ∙ sym (contains-sorted_set ys v))
