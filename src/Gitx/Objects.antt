-- ===== src/Gitx/Objects.antt =====
-- internal/gitx/safety.go: `ObjectReader`, which reads an object by `git show` or `git cat-file`.
pub mod Reads
use Prim.Native.String.{◌++◌ as ◌<>◌}
use alex_cachyos.Prelude.{
  ℕ, zero, ◌+◌, String, Bool, true, false, not, ◌&&◌, ◌||◌, Option, none, some, List, [], ◌∷◌,
  beq_nat, if◌then◌else◌, is_nil, is_empty, codes, Points, same, has_prefix, has_point,
  contains_any, is_abs, trim_space,
}
use alex_cachyos.Runner.Request.{ExitCode}
use alex_cachyos.Gitx.Safety.{
  GitError, nil_git_runner, unsafe_git_command, absolute_directory_required, object_read_failed,
  object_required, GitReply, git_ran, git_failed, GitRunner, CommandRequest, CommandResult,
  shell_chars, cut_colon, validate_git_command, safe_run,
}

unfoldable pub validate_revision : Points → Bool
validate_revision revision =
    if is_nil revision
      || not (same (trim_space revision) revision)
      || has_prefix revision (codes "-")
      || has_point 0 revision
    then false
    else not (contains_any revision shell_chars)

abbrev is_separator : ℕ → Bool
is_separator c = beq_nat c b'/' || beq_nat c b'\\'

-- Some part between the separators is `..`; `dots` counts the dots of the part so far, and is none
-- where it has another character.
abbrev is_parent : Option ℕ → Bool
is_parent none = false
is_parent (some n) = beq_nat n 2

abbrev pub one_dot_more : Option ℕ → Option ℕ
one_dot_more none = none
one_dot_more (some n) = some (n + 1)

unfoldable pub has_parent_part : Option ℕ → Points → Bool
has_parent_part dots [] = is_parent dots
has_parent_part dots (c ∷ s) =
    if is_separator c
    then is_parent dots || has_parent_part (some 0) s
    else has_parent_part (if beq_nat c b'.' then one_dot_more dots else none) s

unfoldable pub validate_object_path : Points → Bool
validate_object_path path =
    if is_nil path || has_point 0 path || is_abs path || has_prefix path (codes "-")
    then false
    else not (has_parent_part (some 0) path)

abbrev pub is_object_pair : Points × Points × Bool → Bool
is_object_pair (revision, path, false) = true
is_object_pair (revision, path, true) = validate_revision revision && validate_object_path path

unfoldable pub validate_object_name : Points → Bool
validate_object_name object =
    if is_nil object
      || has_point 0 object
      || has_prefix object (codes "-")
      || not (same (trim_space object) object)
    then false
    else if contains_any object shell_chars
    then false
    else is_object_pair (cut_colon object)

-- The bytes of an object, or an error.
pub data ObjectRead : Type 0 where
  object_bytes : List ℕ → ObjectRead
  unread : GitError → ObjectRead

abbrev is_exited_well : ExitCode → Bool
is_exited_well (ExitCode.exited zero) = true
is_exited_well _ = false

abbrev read_reply : GitReply → ObjectRead
read_reply (git_failed result err) = unread err
read_reply (git_ran result) =
    if is_exited_well result.exit_code
    then object_bytes result.stdout
    else unread object_read_failed

abbrev pub object_request : String → String → List String → CommandRequest
object_request operation cwd argv = record {
  operation = operation;
  executable = "git";
  argv = argv;
  cwd = cwd;
}

module _ {W : Type 0} where
  abbrev read_valid : GitRunner W → CommandRequest → W → ObjectRead × W
  read_valid runner request w = let (reply, after) = runner request w in (read_reply reply, after)

  -- `(*ObjectReader).read`; the reader's runner is a `SafeRunner`, whose own runner may be nil.
  unfoldable pub read : Option (GitRunner W) → String → String → List String → W → ObjectRead × W
  read runner cwd operation argv w =
      if is_empty cwd || not (is_abs (codes cwd))
      then (unread absolute_directory_required, w)
      else if not (validate_git_command (object_request operation cwd argv))
      then (unread unsafe_git_command, w)
      else read_valid (safe_run runner) (object_request operation cwd argv) w

  unfoldable pub show : Option (GitRunner W) → String → String → String → W → ObjectRead × W
  show runner cwd revision path w =
      if not (validate_revision (codes revision)) || not (validate_object_path (codes path))
      then (unread unsafe_git_command, w)
      else read runner cwd "show" ("show" ∷ (revision <> ":" <> path) ∷ []) w

  unfoldable pub cat_file : Option (GitRunner W) → String → String → W → ObjectRead × W
  cat_file runner cwd object w =
      if not (validate_object_name (codes object))
      then (unread unsafe_git_command, w)
      else read runner cwd "cat-file" ("cat-file" ∷ "-p" ∷ object ∷ []) w

  unfoldable pub read_object : Option (GitRunner W) → String → List String → W → ObjectRead × W
  read_object runner cwd [] w = (unread object_required, w)
  read_object runner cwd (object ∷ []) w = cat_file runner cwd object w
  read_object runner cwd (revision ∷ path ∷ []) w = show runner cwd revision path w
  read_object runner cwd (_ ∷ _ ∷ _ ∷ _) w = (unread object_required, w)
