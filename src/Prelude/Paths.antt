-- ===== src/Prelude/Paths.antt =====
-- `filepath.Clean`, `filepath.Dir` and `filepath.IsAbs` on Linux, over texts.
use Prim.Native.String.{String, ◌++◌ as ◌<>◌}
use Prim.Native.Char.{code}
use mathlib.Core.Bool.{Bool, true, false, ◌||◌}
use mathlib.Core.List.{List, [], ◌∷◌, reverse}
use mathlib.Core.Path.{◌≡◌, refl}
use text.Mathlib.Text.{◌==◌}
use alex_cachyos.Prelude.Tests.{beq_nat, if◌then◌else◌}

abbrev onto_first : String → List String → List String
onto_first c [] = c ∷ []
onto_first c (part ∷ parts) = (c <> part) ∷ parts

-- `strings.Split(path, "/")`
unfoldable pub split_path : String → List String
split_path String.[] = "" ∷ []
split_path (String.◌∷◌ c path) =
    let rest = split_path path in
    if beq_nat (code c) b'/' then "" ∷ rest else onto_first (String.◌∷◌ c "") rest

unfoldable pub join_path : List String → String
join_path [] = ""
join_path (part ∷ []) = part
join_path (part ∷ next ∷ parts) = part <> "/" <> join_path (next ∷ parts)

abbrev pub is_rooted : String → Bool
is_rooted String.[] = false
is_rooted (String.◌∷◌ c path) = beq_nat (code c) b'/'

-- A `..` takes the part before it away, unless it is one itself or the root.
abbrev step_up : Bool → List String → List String
step_up true [] = []
step_up false [] = ".." ∷ []
step_up rooted (part ∷ stack) = if part == ".." then ".." ∷ part ∷ stack else stack

-- The parts that remain, the last one first.
clean_parts : Bool → List String → List String → List String
clean_parts rooted stack [] = stack
clean_parts rooted stack (part ∷ parts) =
    clean_parts rooted
      (if part == "" || part == "."
        then stack
        else if part == ".."
        then step_up rooted stack
        else part ∷ stack)
      parts

abbrev or_dot : String → String
or_dot path = if path == "" then "." else path

-- `filepath.Clean`
unfoldable pub clean_path : String → String
unfolding clean_parts split_path join_path
clean_path path =
    let parts = join_path (reverse (clean_parts (is_rooted path) [] (split_path path))) in
    if is_rooted path then "/" <> parts else or_dot parts

abbrev without_last : List String → List String
without_last [] = []
without_last (part ∷ []) = "" ∷ []
without_last (part ∷ next ∷ parts) = part ∷ without_last (next ∷ parts)

-- `filepath.Dir`: the path up to its last slash, cleaned.
unfoldable pub dir_path : String → String
unfolding clean_path
dir_path path = clean_path (join_path (without_last (split_path path)))

clean_example : clean_path "/home//user/./src/../repo/" ≡ "/home/user/repo"
unfolding clean_path
clean_example = refl

dir_example : dir_path "/home/user/repo" ≡ "/home/user"
unfolding dir_path
dir_example = refl

dir_root_example : dir_path "/repo" ≡ "/"
unfolding dir_path
dir_root_example = refl
