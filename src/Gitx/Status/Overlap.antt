-- ===== src/Gitx/Status/Overlap.antt =====
-- When two sets of paths overlap.
use alex_cachyos.Prelude.{
  ℕ, ◌≡◌, refl, Bool, true, false, ◌&&◌, ◌||◌, List, [], ◌∷◌, Points, any, beq_nat, same,
  has_prefix, if◌then◌else◌, arith, Bool-cases, inl, inr,
}
use alex_cachyos.Gitx.Status.{trim_slash, is_below, git_paths_overlap, paths_overlap}

-- Segments of a path, between slashes.
abbrev pub in_first : ℕ → List Points → List Points
in_first c [] = (c ∷ []) ∷ []
in_first c (segment ∷ rest) = (c ∷ segment) ∷ rest

abbrev pub segments : Points → List Points
segments [] = [] ∷ []
segments (c ∷ path) =
    let rest = segments path in if beq_nat c b'/' then [] ∷ rest else in_first c rest

-- The one list of segments begins with the other.
abbrev pub starts : List Points → List Points → Bool
starts path [] = true
starts [] (segment ∷ root) = false
starts (s ∷ path) (segment ∷ root) = same s segment && starts path root

segments_cons :
    (path : Points) → (first : Points) × (rest : List Points) × (segments path ≡ first ∷ rest)
segments_cons [] = ([], [], refl)
segments_cons (c ∷ path) = elim (Bool-cases (beq_nat c b'/')) [
  | inl slash ↦ ([], segments path, rw slash)
  | inr plain ↦ let (first, rest, e) = segments_cons path in (c ∷ first, rest, rw (plain, e))
]

-- A path is a root or stands below it if it begins with the root's segments.
below_lem :
    (path root : Points)
    → (same path root || is_below path root) ≡ starts (segments path) (segments root)
unfolding same has_prefix
below_lem [] [] = refl
below_lem [] (c ∷ root) = let (first, rest, e) = segments_cons root in ground (arith, e)
below_lem (c ∷ path) [] = let (first, rest, e) = segments_cons path in ground (arith, e)
below_lem (c ∷ path) (d ∷ root) =
    let (first, rest, e) = segments_cons path in
    let (first', rest', e') = segments_cons root in ground (arith, below_lem path root, e, e')

abbrev pub related : List Points → List Points → Bool
related left right = starts left right || starts right left

same_comm : (s t : Points) → same s t ≡ same t s
unfolding same
same_comm [] [] = refl
same_comm [] (c ∷ t) = refl
same_comm (c ∷ s) [] = refl
same_comm (c ∷ s) (d ∷ t) = ground (arith, same_comm s t)

-- The paths that an entry and a change name.
abbrev pub segments_of : Points → List Points
segments_of path = segments (trim_slash path)

git_paths_overlap-related :
    (left right : Points)
    → git_paths_overlap left right ≡ related (segments_of left) (segments_of right)
unfolding git_paths_overlap
git_paths_overlap-related left right =
    let l = trim_slash left in
    let r = trim_slash right in ground (arith, below_lem l r, below_lem r l, same_comm l r)

any_same {ℓ} :
    {A : Type ℓ} (p q : A → Bool) (same_at : (x : A) → p x ≡ q x) (xs : List A)
    → any p xs ≡ any q xs
any_same p q same_at [] = refl
any_same p q same_at (x ∷ xs) = ground (arith, same_at x, any_same p q same_at xs)

-- Two sets of paths overlap if and only if, segment by segment, some path of the one begins a path of
-- the other: a path and a directory above it overlap, and names that only share their letters do not.
pub paths_overlap-related :
    (left right : List Points)
    → paths_overlap left right
      ≡ any (λ l. any (λ r. related (segments_of l) (segments_of r)) right) left
unfolding paths_overlap
paths_overlap-related left right =
    any_same _ _ (λ l. any_same _ _ (λ r. git_paths_overlap-related l r) right) left
