-- ===== src/Gitx/Status/Printed.antt =====
-- What git prints for a status is read back.
use alex_cachyos.Prelude.{
  ℕ, ◌+◌, ◌≡◌, refl, ◌∙◌, ap, Bool, true, false, not, ◌||◌, List, [], ◌∷◌, ◌++◌, Points, has_point,
  is_nil, arith, All, length, if◌then◌else◌,
}
use alex_cachyos.Gitx.Status.{
  DirtyCounts, no_counts, Class, untracked, ignored, unmerged, renamed, copied, added, deleted,
  modified, other, tally, classify, count_records, nul_records, path_of, collect_paths,
  parse_status_porcelain, parse_status_paths,
}
use alex_cachyos.Gitx.Status.Format.{
  Entry, is_moved, print_old, print_status, old_paths, status_paths, same_class, number,
  status_counts, IsEntry, entry-IsRead,
}

nul_records-append :
    (front back : Points)
    → has_point 0 front ≡ false
    → nul_records (front ++ 0 ∷ back) ≡ front ∷ nul_records back
unfolding nul_records has_point
nul_records-append [] back plain = refl
nul_records-append (c ∷ front) back plain = ground (arith, nul_records-append front back)

plain_entry : (e : Entry) → IsEntry e → has_point 0 (e.x ∷ e.y ∷ b' ' ∷ e.path) ≡ false
unfolding has_point
plain_entry e valid = ground (arith, (entry-IsRead e valid).3, valid.plain_path)

path_of_named : (path : Points) → is_nil path ≡ false → path_of path ≡ path ∷ []
path_of_named [] named = cc
path_of_named (c ∷ path) named = refl

-- The records of the entries.
nul_records-print_status :
    (e : Entry) (entries : List Entry)
    → IsEntry e
    → nul_records (print_status (e ∷ entries))
      ≡ (e.x ∷ e.y ∷ b' ' ∷ e.path)
        ∷ (old_paths (is_moved e.class) e.old_path ++ nul_records (print_status entries))
nul_records-print_status e entries valid =
    nul_records-append (e.x ∷ e.y ∷ b' ' ∷ e.path) _ (plain_entry e valid)
    ∙ ap (λ records. (e.x ∷ e.y ∷ b' ' ∷ e.path) ∷ records) (behind (is_moved e.class))
  where
    behind :
        (renaming : Bool)
        → nul_records (print_old renaming e.old_path (print_status entries))
          ≡ old_paths renaming e.old_path ++ nul_records (print_status entries)
    behind true = nul_records-append e.old_path _ valid.plain_old
    behind false = refl

collect_old :
    (renaming : Bool) (old : Points) (records : List Points)
    → (not renaming || not (is_nil old)) ≡ true
    → collect_paths renaming (old_paths renaming old ++ records)
      ≡ old_paths renaming old ++ collect_paths false records
unfolding collect_paths
collect_old true [] records named = cc
collect_old true (c ∷ old) records named = refl
collect_old false old records named = refl

collect-print_status :
    (entries : List Entry)
    → All IsEntry entries
    → collect_paths false (nul_records (print_status entries)) ≡ status_paths entries
unfolding collect_paths nul_records
collect-print_status [] valid = refl
collect-print_status (e ∷ entries) valid =
    ap (collect_paths false) (nul_records-print_status e entries valid.0)
    ∙ ground (
      arith,
      path_of_named e.path valid.0.named,
      (entry-IsRead e valid.0).2,
      collect_old (is_moved e.class) e.old_path (nul_records (print_status entries))
          valid.0.named_old,
      collect-print_status entries valid.1,
    )

count_old :
    (renaming : Bool) (old : Points) (records : List Points) (counts : DirtyCounts)
    → count_records renaming (old_paths renaming old ++ records) counts
      ≡ count_records false records counts
unfolding count_records
count_old true old records counts = refl
count_old false old records counts = refl

-- The counts with those of the entries added.
abbrev number_from : Class → ℕ → List Entry → ℕ
number_from class n [] = n
number_from class n (e ∷ entries) =
    number_from class (if same_class class e.class then n + 1 else n) entries

abbrev total_from : ℕ → List Entry → ℕ
total_from n [] = n
total_from n (e ∷ entries) = total_from (n + 1) entries

number_from_lem :
    (class : Class) (n : ℕ) (entries : List Entry)
    → number_from class n entries ≡ n + number class entries
number_from_lem class n [] = omega arith
number_from_lem class n (e ∷ entries) =
    ground (arith, number_from_lem class (n + 1) entries, number_from_lem class n entries)

total_from_lem : (n : ℕ) (entries : List Entry) → total_from n entries ≡ n + length entries
total_from_lem n [] = omega arith
total_from_lem n (e ∷ entries) = ground (arith, total_from_lem (n + 1) entries)

number_zero :
    (class : Class) (entries : List Entry) → number_from class 0 entries ≡ number class entries
number_zero class entries = ground (arith, number_from_lem class 0 entries)

total_zero : (entries : List Entry) → total_from 0 entries ≡ length entries
total_zero entries = ground (arith, total_from_lem 0 entries)

abbrev added_to : DirtyCounts → List Entry → DirtyCounts
added_to counts entries = record {
  entries = total_from counts.entries entries;
  modified = number_from modified counts.modified entries;
  added = number_from added counts.added entries;
  deleted = number_from deleted counts.deleted entries;
  renamed = number_from renamed counts.renamed entries;
  copied = number_from copied counts.copied entries;
  untracked = number_from untracked counts.untracked entries;
  unmerged = number_from unmerged counts.unmerged entries;
  ignored = number_from ignored counts.ignored entries;
  other = number_from other counts.other entries;
}

tally-added_to :
    (class : Class) (x y : ℕ) (path old : Points) (counts : DirtyCounts) (entries : List Entry)
    → added_to (tally class counts) entries
      ≡ added_to counts
          (record { class = class; x = x; y = y; path = path; old_path = old } ∷ entries)
tally-added_to untracked x y path old counts entries = refl
tally-added_to ignored x y path old counts entries = refl
tally-added_to unmerged x y path old counts entries = refl
tally-added_to renamed x y path old counts entries = refl
tally-added_to copied x y path old counts entries = refl
tally-added_to added x y path old counts entries = refl
tally-added_to deleted x y path old counts entries = refl
tally-added_to modified x y path old counts entries = refl
tally-added_to other x y path old counts entries = refl

count-print_status :
    (entries : List Entry) (counts : DirtyCounts)
    → All IsEntry entries
    → count_records false (nul_records (print_status entries)) counts ≡ added_to counts entries
unfolding count_records nul_records
count-print_status [] counts valid = refl
count-print_status (e ∷ entries) counts valid =
    let (classified, old, _, _) = entry-IsRead e valid.0 in
    let counted = tally (classify e.x e.y) counts in
    let records = nul_records (print_status entries) in
    ap (λ r. count_records false r counts) (nul_records-print_status e entries valid.0)
    ∙ ap (λ b. count_records b (old_paths (is_moved e.class) e.old_path ++ records) counted) old
    ∙ count_old (is_moved e.class) e.old_path records counted
    ∙ count-print_status entries counted valid.1
    ∙ ap (λ class. added_to (tally class counts) entries) classified
    ∙ tally-added_to e.class e.x e.y e.path e.old_path counts entries

added_to-no_counts : (entries : List Entry) → added_to no_counts entries ≡ status_counts entries
added_to-no_counts entries = cc (
  total_zero entries,
  number_zero modified entries,
  number_zero added entries,
  number_zero deleted entries,
  number_zero renamed entries,
  number_zero copied entries,
  number_zero untracked entries,
  number_zero unmerged entries,
  number_zero ignored entries,
  number_zero other entries,
)

-- For entries with the codes that git lists for their class, and with paths that are not empty and have
-- no NUL, `ParseStatusPorcelain` counts all entries,
-- and for each class those of that class, and `parseStatusPaths` gives every path, the old paths
-- included.
pub parse_status-print_status :
    (entries : List Entry)
    → All IsEntry entries
    → (parse_status_porcelain (print_status entries) ≡ status_counts entries)
      × (parse_status_paths (print_status entries) ≡ status_paths entries)
unfolding parse_status_porcelain parse_status_paths
parse_status-print_status entries valid = (
  count-print_status entries no_counts valid ∙ added_to-no_counts entries,
  collect-print_status entries valid,
)
