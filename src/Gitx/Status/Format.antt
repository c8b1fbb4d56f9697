-- ===== src/Gitx/Status/Format.antt =====
-- The format of `git status --porcelain=v1 -z` and the codes in it, as git documents them.
use alex_cachyos.Prelude.{
  ℕ, ◌≡◌, refl, sym, subst, inl, inr, Bool-cases, Bool, true, false, not, ◌&&◌, ◌||◌, List, [], ◌∷◌,
  ◌++◌, Points, has_point, is_nil, arith, All, any, beq_nat, length, select,
}
use alex_cachyos.Gitx.Status.{
  DirtyCounts, Class, untracked, ignored, unmerged, renamed, copied, added, deleted, modified,
  other, classify, has_old_path, is_renaming,
}

-- An entry of `git status --porcelain=v1`: what happened to the path, the two codes that say so, the
-- path, and the path that it was renamed or copied from.
pub record Entry : Type 0 where
  pub class : Class
  pub x : ℕ
  pub y : ℕ
  pub path : Points
  pub old_path : Points

-- The pairs of codes that git's documentation lists, by what they say. A file that was renamed, copied
-- or added in the index may be changed or deleted in the work tree; where both differ otherwise, a
-- deletion goes before a modification.
abbrev pub codes_of : Class → List (ℕ × ℕ)
codes_of untracked = (b'?', b'?') ∷ []
codes_of ignored = (b'!', b'!') ∷ []
codes_of unmerged =
    (b'D', b'D')
    ∷ (b'A', b'U')
    ∷ (b'U', b'D')
    ∷ (b'U', b'A')
    ∷ (b'D', b'U')
    ∷ (b'A', b'A')
    ∷ (b'U', b'U')
    ∷ []
codes_of renamed = (b'R', b' ') ∷ (b'R', b'M') ∷ (b'R', b'T') ∷ (b'R', b'D') ∷ (b' ', b'R') ∷ []
codes_of copied = (b'C', b' ') ∷ (b'C', b'M') ∷ (b'C', b'T') ∷ (b'C', b'D') ∷ (b' ', b'C') ∷ []
codes_of added = (b'A', b' ') ∷ (b'A', b'M') ∷ (b'A', b'T') ∷ (b'A', b'D') ∷ (b' ', b'A') ∷ []
codes_of deleted = (b'D', b' ') ∷ (b' ', b'D') ∷ (b'M', b'D') ∷ (b'T', b'D') ∷ []
codes_of modified =
    (b'M', b' ')
    ∷ (b' ', b'M')
    ∷ (b'M', b'M')
    ∷ (b'M', b'T')
    ∷ (b'T', b' ')
    ∷ (b' ', b'T')
    ∷ (b'T', b'M')
    ∷ (b'T', b'T')
    ∷ []
codes_of other = []

abbrev pub is_pair : ℕ → ℕ → ℕ × ℕ → Bool
is_pair x y (a, b) = beq_nat x a && beq_nat y b

-- Whether an old path stands behind the entry.
abbrev pub is_moved : Class → Bool
is_moved renamed = true
is_moved copied = true
is_moved _ = false

abbrev pub print_old : Bool → Points → Points → Points
print_old true old rest = old ++ 0 ∷ rest
print_old false old rest = rest

-- The entries in the format of `-z`.
abbrev pub print_status : List Entry → Points
print_status [] = []
print_status (e ∷ entries) =
    (e.x ∷ e.y ∷ b' ' ∷ e.path)
    ++ 0 ∷ print_old (is_moved e.class) e.old_path (print_status entries)

abbrev pub old_paths : Bool → Points → List Points
old_paths true old = old ∷ []
old_paths false old = []

abbrev pub status_paths : List Entry → List Points
status_paths [] = []
status_paths (e ∷ entries) =
    e.path ∷ (old_paths (is_moved e.class) e.old_path ++ status_paths entries)

abbrev pub same_class : Class → Class → Bool
same_class untracked untracked = true
same_class ignored ignored = true
same_class unmerged unmerged = true
same_class renamed renamed = true
same_class copied copied = true
same_class added added = true
same_class deleted deleted = true
same_class modified modified = true
same_class other other = true
same_class _ _ = false

-- How many entries are of a class.
abbrev pub number : Class → List Entry → ℕ
number class entries = length (select (λ e. same_class class e.class) entries)

abbrev pub status_counts : List Entry → DirtyCounts
status_counts entries = record {
  entries = length entries;
  modified = number modified entries;
  added = number added entries;
  deleted = number deleted entries;
  renamed = number renamed entries;
  copied = number copied entries;
  untracked = number untracked entries;
  unmerged = number unmerged entries;
  ignored = number ignored entries;
  other = number other entries;
}

-- What git's format promises of an entry: codes that are listed for its class, no NUL in it, and no
-- empty path.
pub record IsEntry (e : Entry) : Type 0 where
  pub listed : any (is_pair e.x e.y) (codes_of e.class) ≡ true
  pub plain_path : has_point 0 e.path ≡ false
  pub plain_old : has_point 0 e.old_path ≡ false
  pub named : is_nil e.path ≡ false
  pub named_old : (not (is_moved e.class) || not (is_nil e.old_path)) ≡ true

-- What the model says of a pair of codes.
abbrev IsRead : Class → ℕ × ℕ → Type 0
IsRead class (x, y) =
    (classify x y ≡ class)
    × (has_old_path (classify x y) ≡ is_moved class)
    × (is_renaming x y ≡ is_moved class)
    × (has_point 0 (x ∷ y ∷ []) ≡ false)

codes_of-IsRead : (class : Class) → All (IsRead class) (codes_of class)
unfolding classify has_point
codes_of-IsRead untracked = ((refl, refl, refl, refl), tt)
codes_of-IsRead ignored = ((refl, refl, refl, refl), tt)
codes_of-IsRead unmerged = (
  (refl, refl, refl, refl),
  (
    (refl, refl, refl, refl),
    (
      (refl, refl, refl, refl),
      (
        (refl, refl, refl, refl),
        ((refl, refl, refl, refl), ((refl, refl, refl, refl), ((refl, refl, refl, refl), tt))),
      ),
    ),
  ),
)
codes_of-IsRead renamed = (
  (refl, refl, refl, refl),
  (
    (refl, refl, refl, refl),
    ((refl, refl, refl, refl), ((refl, refl, refl, refl), ((refl, refl, refl, refl), tt))),
  ),
)
codes_of-IsRead copied = (
  (refl, refl, refl, refl),
  (
    (refl, refl, refl, refl),
    ((refl, refl, refl, refl), ((refl, refl, refl, refl), ((refl, refl, refl, refl), tt))),
  ),
)
codes_of-IsRead added = (
  (refl, refl, refl, refl),
  (
    (refl, refl, refl, refl),
    ((refl, refl, refl, refl), ((refl, refl, refl, refl), ((refl, refl, refl, refl), tt))),
  ),
)
codes_of-IsRead deleted = (
  (refl, refl, refl, refl),
  ((refl, refl, refl, refl), ((refl, refl, refl, refl), ((refl, refl, refl, refl), tt))),
)
codes_of-IsRead modified = (
  (refl, refl, refl, refl),
  (
    (refl, refl, refl, refl),
    (
      (refl, refl, refl, refl),
      (
        (refl, refl, refl, refl),
        (
          (refl, refl, refl, refl),
          ((refl, refl, refl, refl), ((refl, refl, refl, refl), ((refl, refl, refl, refl), tt))),
        ),
      ),
    ),
  ),
)
codes_of-IsRead other = tt

listed-IsRead :
    (class : Class) (x y : ℕ) (pairs : List (ℕ × ℕ))
    → All (IsRead class) pairs
    → any (is_pair x y) pairs ≡ true
    → IsRead class (x, y)
listed-IsRead class x y [] all h = cc
listed-IsRead class x y ((a, b) ∷ pairs) (first, others) h =
    elim (Bool-cases (is_pair x y (a, b))) [
      | inl same ↦
          let x_same : x ≡ a = ground (arith, same) in
          let y_same : y ≡ b = ground (arith, same) in
          subst (λ u. IsRead class (u, y)) (sym x_same)
            (subst (λ v. IsRead class (a, v)) (sym y_same) first)
      | inr differ ↦ listed-IsRead class x y pairs others (ground (arith, h, differ))
    ]

pub entry-IsRead : (e : Entry) → IsEntry e → IsRead e.class (e.x, e.y)
entry-IsRead e valid =
    listed-IsRead e.class e.x e.y (codes_of e.class) (codes_of-IsRead e.class) valid.listed
