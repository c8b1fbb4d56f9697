-- ===== src/Gitx/Status.antt =====
-- internal/gitx/checkout.go: the output of `git status --porcelain=v1 -z` and of `git diff
-- --name-only -z`, as bytes.
pub mod Format
pub mod Printed
pub mod Overlap
use alex_cachyos.Prelude.{
  ℕ, suc, ◌+◌, Bool, true, false, not, ◌&&◌, ◌||◌, List, [], ◌∷◌, ◌++◌, reverse, any, beq_nat,
  if◌then◌else◌, is_nil, same, has_prefix, Points,
}

pub record DirtyCounts : Type 0 where
  pub entries : ℕ
  pub modified : ℕ
  pub added : ℕ
  pub deleted : ℕ
  pub renamed : ℕ
  pub copied : ℕ
  pub untracked : ℕ
  pub unmerged : ℕ
  pub ignored : ℕ
  pub other : ℕ

abbrev pub no_counts : DirtyCounts
no_counts = record {
  entries = 0;
  modified = 0;
  added = 0;
  deleted = 0;
  renamed = 0;
  copied = 0;
  untracked = 0;
  unmerged = 0;
  ignored = 0;
  other = 0;
}

abbrev pub onto_first : ℕ → List Points → List Points
onto_first c [] = (c ∷ []) ∷ []
onto_first c (record_bytes ∷ records) = (c ∷ record_bytes) ∷ records

-- The records that the loops take off the data, by `nextNULRecord` or in the same way: each ends
-- with a NUL, the last one also with the data.
unfoldable pub nul_records : Points → List Points
nul_records [] = []
nul_records (c ∷ data_bytes) =
    let rest = nul_records data_bytes in if beq_nat c 0 then [] ∷ rest else onto_first c rest

-- The switch over the two status codes.
pub data Class : Type 0 where
  untracked ignored unmerged renamed copied added deleted modified other : Class

abbrev either : ℕ → ℕ → ℕ → Bool
either code x y = beq_nat x code || beq_nat y code

unfoldable pub classify : ℕ → ℕ → Class
classify x y =
    if beq_nat x b'?' && beq_nat y b'?'
    then untracked
    else if beq_nat x b'!' && beq_nat y b'!'
    then ignored
    else if either b'U' x y || beq_nat x y && (beq_nat x b'A' || beq_nat x b'D')
    then unmerged
    else if either b'R' x y
    then renamed
    else if either b'C' x y
    then copied
    else if either b'A' x y
    then added
    else if either b'D' x y
    then deleted
    else if either b'M' x y || either b'T' x y
    then modified
    else other

abbrev pub tally : Class → DirtyCounts → DirtyCounts
tally untracked c = record c { entries = c.entries + 1; untracked = c.untracked + 1 }
tally ignored c = record c { entries = c.entries + 1; ignored = c.ignored + 1 }
tally unmerged c = record c { entries = c.entries + 1; unmerged = c.unmerged + 1 }
tally renamed c = record c { entries = c.entries + 1; renamed = c.renamed + 1 }
tally copied c = record c { entries = c.entries + 1; copied = c.copied + 1 }
tally added c = record c { entries = c.entries + 1; added = c.added + 1 }
tally deleted c = record c { entries = c.entries + 1; deleted = c.deleted + 1 }
tally modified c = record c { entries = c.entries + 1; modified = c.modified + 1 }
tally other c = record c { entries = c.entries + 1; other = c.other + 1 }

-- Behind these classes stands the old path, in a record of its own.
abbrev pub has_old_path : Class → Bool
has_old_path renamed = true
has_old_path copied = true
has_old_path _ = false

-- A record that is too short for an entry, or has no space behind the codes, is passed over.
abbrev pub count_record : Points → DirtyCounts → DirtyCounts × Bool
count_record (x ∷ y ∷ c ∷ path) counts =
    if beq_nat c b' '
    then (tally (classify x y) counts, has_old_path (classify x y))
    else (counts, false)
count_record _ counts = (counts, false)

-- The loop; `rename_path` says that the record is an old path.
unfoldable pub count_records : Bool → List Points → DirtyCounts → DirtyCounts
count_records rename_path [] counts = counts
count_records true (old ∷ records) counts = count_records false records counts
count_records false (entry ∷ records) counts =
    let (counted, rename_path) = count_record entry counts in
    count_records rename_path records counted

-- `ParseStatusPorcelain`
unfoldable pub parse_status_porcelain : Points → DirtyCounts
parse_status_porcelain data_bytes = count_records false (nul_records data_bytes) no_counts

abbrev pub path_of : Points → List Points
path_of [] = []
path_of (c ∷ path) = (c ∷ path) ∷ []

abbrev pub is_renaming : ℕ → ℕ → Bool
is_renaming x y = either b'R' x y || either b'C' x y

-- The paths of an entry, and whether the next record is its old path.
abbrev pub entry_paths : Points → List Points × Bool
entry_paths (x ∷ y ∷ c ∷ path) =
    if beq_nat c b' ' then (path_of path, is_renaming x y) else ([], false)
entry_paths _ = ([], false)

unfoldable pub collect_paths : Bool → List Points → List Points
collect_paths old [] = []
collect_paths true (old_path ∷ records) = path_of old_path ++ collect_paths false records
collect_paths false (entry ∷ records) =
    let (paths, old) = entry_paths entry in paths ++ collect_paths old records

-- `parseStatusPaths`: the keys of the set.
unfoldable pub parse_status_paths : Points → List Points
parse_status_paths data_bytes = collect_paths false (nul_records data_bytes)

abbrev pub all_paths : List Points → List Points
all_paths [] = []
all_paths (path ∷ records) = path_of path ++ all_paths records

-- `parseNULPaths`
unfoldable pub parse_nul_paths : Points → List Points
parse_nul_paths data_bytes = all_paths (nul_records data_bytes)

-- `strings.TrimSuffix(path, "/")`
unfoldable pub trim_slash : Points → Points
trim_slash [] = []
trim_slash (c ∷ []) = if beq_nat c b'/' then [] else c ∷ []
trim_slash (c ∷ d ∷ path) = c ∷ trim_slash (d ∷ path)

abbrev pub is_below : Points → Points → Bool
is_below path root = has_prefix path (root ++ b'/' ∷ [])

abbrev pub trimmed_overlap : Points → Points → Bool
trimmed_overlap left right = same left right || is_below left right || is_below right left

-- `gitPathsOverlap`
unfoldable pub git_paths_overlap : Points → Points → Bool
git_paths_overlap left right = trimmed_overlap (trim_slash left) (trim_slash right)

unfoldable pub paths_overlap : List Points → List Points → Bool
paths_overlap left right =
    any (λ left_path. any (λ right_path. git_paths_overlap left_path right_path) right) left
