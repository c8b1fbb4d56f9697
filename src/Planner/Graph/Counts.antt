-- ===== src/Planner/Graph/Counts.antt =====
-- Lists of texts compared by how often each text stands in them.
use alex_cachyos.Prelude.{
  suc, ◌+◌, ◌-◌, ◌≤◌, ◌<◌, String, ◌≡◌, refl, ◌||◌, List, [], ◌∷◌, ◌++◌, ◌==◌, eq_iff, arith, count,
  contains, length, if◌then◌else◌,
}

pub count-append : (v : String) (xs ys : List String) → count v (xs ++ ys) ≡ count v xs + count v ys
count-append v [] ys = omega arith
count-append v (x ∷ xs) ys = ground (arith, count-append v xs ys)

pub contains-append :
    (xs ys : List String) (v : String) → contains (xs ++ ys) v ≡ (contains xs v || contains ys v)
unfolding contains
contains-append [] ys v = refl
contains-append (x ∷ xs) ys v = ground (arith, contains-append xs ys v)

-- The list without the first occurrence of a text.
remove_one : String → List String → List String
remove_one x [] = []
remove_one x (y ∷ ys) = let rest = remove_one x ys in if y == x then ys else y ∷ rest

remove_one-count :
    (x v : String) (ys : List String)
    → count v (remove_one x ys) ≡ count v ys - (if x == v then 1 else 0)
unfolding remove_one
remove_one-count x v [] = ground arith
remove_one-count x v (y ∷ ys) =
    ground (arith, remove_one-count x v ys, eq_iff y x, eq_iff x v, eq_iff y v)

remove_one-length :
    (x : String) (ys : List String) → 0 < count x ys → length ys ≡ suc (length (remove_one x ys))
unfolding remove_one
remove_one-length x [] h = absurd (omega arith)
remove_one-length x (y ∷ ys) h = ground (arith, remove_one-length x ys, eq_iff y x)

module _ (x : String) (xs ys : List String) (h : (v : String) → count v (x ∷ xs) ≤ count v ys) where
  head_counted : 0 < count x ys
  head_counted = ground (arith, h x, eq_iff x x)

  tail_counted : (v : String) → count v xs ≤ count v (remove_one x ys)
  tail_counted v = ground (arith, h v, remove_one-count x v ys, eq_iff x v)

-- Fewer of each text make a list that is no longer, and one that is as long only if nothing is
-- missing.
pub count_le_length :
    (xs ys : List String) → ((v : String) → count v xs ≤ count v ys) → length xs ≤ length ys
count_le_length [] ys h = omega arith
count_le_length (x ∷ xs) ys h = omega (
  arith,
  remove_one-length x ys (head_counted x xs ys h),
  count_le_length xs (remove_one x ys) (tail_counted x xs ys h),
)

no_item : (ys : List String) (v : String) → length ys ≡ 0 → count v ys ≡ 0
no_item [] v h = refl
no_item (y ∷ ys) v h = absurd (omega arith)

pub count_eq_length :
    (xs ys : List String)
    → ((v : String) → count v xs ≤ count v ys)
    → length xs ≡ length ys
    → (v : String) → count v xs ≡ count v ys
count_eq_length [] ys h e v = omega (arith, no_item ys v)
count_eq_length (x ∷ xs) ys h e v =
    let l = remove_one-length x ys (head_counted x xs ys h) in
    ground (
      arith,
      remove_one-count x v ys,
      eq_iff x v,
      h v,
      count_eq_length xs (remove_one x ys) (tail_counted x xs ys h) (omega arith) v,
    )
