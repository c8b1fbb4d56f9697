-- ===== src/Gitx/Safety.antt =====
-- internal/gitx/safety.go: `ValidateGitCommand` and the runner that asks it.
pub mod Refspecs
pub mod Refused
use alex_cachyos.Prelude.{
  ℕ, zero, suc, String, Bool, true, false, not, ◌&&◌, ◌||◌, Option, none, some, List, [], ◌∷◌,
  beq_nat, leb, ltb, if◌then◌else◌, is_nil, is_empty, codes, Points, same, has_prefix, has_point,
  contains_any, contains_text, is_abs, base, all, length, ◌==◌, any,
}
use alex_cachyos.Runner.Request.{ExitCode, no_code}

-- `gitx.CommandRequest` and `gitx.CommandResult`.
pub record CommandRequest : Type 0 where
  pub operation : String
  pub executable : String
  pub argv : List String
  pub cwd : String

pub record CommandResult : Type 0 where
  pub stdout : List ℕ
  pub stderr : List ℕ
  pub exit_code : ExitCode

pub data GitError : Type 0 where
  nil_git_runner unsafe_git_command : GitError
  absolute_directory_required object_read_failed object_required : GitError
  run_error : String → GitError

-- A runner returns a result beside its error.
pub data GitReply : Type 0 where
  git_ran : CommandResult → GitReply
  git_failed : CommandResult → GitError → GitReply

-- `CommandResult{ExitCode: -1}`
abbrev pub no_result : CommandResult
no_result = record { stdout = []; stderr = []; exit_code = no_code }

abbrev pub GitRunner : Type 0 → Type 0
GitRunner W = CommandRequest → W → GitReply × W

unfoldable pub is_git_executable : String → Bool
is_git_executable executable =
    executable == "git" || is_abs (codes executable) && same (base (codes executable)) (codes "git")

-- `strings.ContainsRune(arg[1:], 'f')` on an argument with one dash.
abbrev pub is_short_force : Points → Bool
is_short_force [] = false
is_short_force (c ∷ []) = false
is_short_force (c ∷ d ∷ s) = beq_nat c b'-' && not (beq_nat d b'-') && has_point b'f' (d ∷ s)

unfoldable pub is_force_flag : Points → Bool
is_force_flag arg = has_prefix arg (codes "--force") || is_short_force arg

-- An option, alone or with its value behind an equals sign.
abbrev pub is_option : Points → String → String → Bool
is_option arg option valued = same arg (codes option) || has_prefix arg (codes valued)

unfoldable pub is_shell_option : Points → Bool
is_shell_option arg =
    same arg (codes "-c")
    || is_option arg "--command" "--command="
    || is_option arg "--config" "--config="
    || is_option arg "--config-env" "--config-env="
    || is_option arg "--upload-pack" "--upload-pack="
    || is_option arg "--receive-pack" "--receive-pack="
    || is_option arg "-C" "-C"
    || is_option arg "--git-dir" "--git-dir="
    || is_option arg "--work-tree" "--work-tree="

abbrev pub shell_chars : Points
shell_chars = codes ";|&`$()<>\r\n"

-- The loop's test of one argument.
unfoldable pub is_unsafe_argument : Points → Bool
is_unsafe_argument arg =
    has_point 0 arg
    || is_force_flag arg
    || is_shell_option arg
    || contains_text arg (codes "ext::")
    || contains_any arg shell_chars

-- The subcommand with the arguments behind it. Without one it is the empty text.
unfoldable pub git_subcommand : List String → String × List String
git_subcommand [] = ("", [])
git_subcommand (arg ∷ []) = if not (has_prefix (codes arg) (codes "-")) then (arg, []) else ("", [])
git_subcommand (arg ∷ next ∷ rest) =
    let later = git_subcommand (next ∷ rest) in
    if arg == "--"
    then (next, rest)
    else if not (has_prefix (codes arg) (codes "-"))
    then (arg, next ∷ rest)
    else later

abbrev pub forbidden_subcommands : List String
forbidden_subcommands =
    "clean" ∷ "stash" ∷ "commit" ∷ "commit-tree" ∷ "reset" ∷ "shell" ∷ "difftool" ∷ "mergetool" ∷ []

abbrev pub is_one_of : String → List String → Bool
is_one_of text texts = any (λ t. text == t) texts

-- `strings.Cut(arg, ":")`
unfoldable pub cut_colon : Points → Points × Points × Bool
cut_colon [] = ([], [], false)
cut_colon (c ∷ s) =
    let (before, after, found) = cut_colon s in
    if beq_nat c b':' then ([], s, true) else (c ∷ before, after, found)

abbrev pub tag_prefix : Points
tag_prefix = codes "refs/tags/"

abbrev pub is_tag_refspec : Points → Points × Points × Bool → Bool
is_tag_refspec arg (source, destination, false) = has_prefix arg tag_prefix
is_tag_refspec arg (source, destination, true) =
    has_prefix destination tag_prefix || is_nil destination && has_prefix source tag_prefix

unfoldable pub is_destructive_argument : String → Bool
is_destructive_argument arg =
    if arg == "--prune-tags" || arg == "--delete"
    then true
    else if arg == "--" || has_prefix (codes arg) (codes "-")
    then false
    else if has_prefix (codes arg) (codes "+") || has_prefix (codes arg) (codes ":")
    then true
    else is_tag_refspec (codes arg) (cut_colon (codes arg))

unfoldable pub destructive_tag_refspec : List String → Bool
destructive_tag_refspec args = any is_destructive_argument args

abbrev pub is_hex_digit : ℕ → Bool
is_hex_digit c = leb b'0' c && leb c b'9' || leb b'a' c && leb c b'f' || leb b'A' c && leb c b'F'

-- A text of 40 bytes that are all hexadecimal digits has 40 code points.
unfoldable pub is_commit_id : Points → Bool
is_commit_id value = beq_nat (length value) 40 && all is_hex_digit value

unfoldable pub active_tag_checkout : List String → Bool
active_tag_checkout [] = true
active_tag_checkout (ref ∷ []) =
    if has_prefix (codes ref) (codes "-")
    then true
    else if has_prefix (codes ref) tag_prefix || has_prefix (codes ref) (codes "catalog-v")
    then true
    else not (ref == "main") && not (is_commit_id (codes ref))
active_tag_checkout (_ ∷ _ ∷ _) = true

abbrev pub is_unsafe_subcommand : String × List String → Bool
is_unsafe_subcommand (subcommand, rest) =
    is_one_of subcommand forbidden_subcommands
    || (subcommand == "fetch" || subcommand == "push") && destructive_tag_refspec rest
    || subcommand == "checkout" && active_tag_checkout rest

-- `ValidateGitCommand`: whether it returns nil.
unfoldable pub validate_git_command : CommandRequest → Bool
validate_git_command request =
    if not (is_git_executable request.executable)
      || is_empty request.cwd
      || not (is_abs (codes request.cwd))
    then false
    else if is_nil request.argv
    then false
    else if any (λ arg. is_unsafe_argument (codes arg)) request.argv
    then false
    else not (is_unsafe_subcommand (git_subcommand request.argv))

module _ {W : Type 0} where
  abbrev run_valid : Bool → GitRunner W → GitRunner W
  run_valid false runner request w = (git_failed no_result unsafe_git_command, w)
  run_valid true runner request w = runner request w

  -- `(*SafeRunner).Run`; a runner that is nil is `none`.
  unfoldable pub safe_run : Option (GitRunner W) → GitRunner W
  safe_run none request w = (git_failed no_result nil_git_runner, w)
  safe_run (some runner) request w = run_valid (validate_git_command request) runner request w
