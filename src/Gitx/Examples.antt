-- ===== src/Gitx/Examples.antt =====
-- Git commands that are let through and that are refused.
use alex_cachyos.Prelude.{
  codes, ℕ, ◌+◌, String, ◌≡◌, refl, true, false, List, [], ◌∷◌, Option, none, some, has_prefix,
  contains, has_point, contains_any, contains_text, is_abs, same, subst, ltb,
}
use alex_cachyos.Runner.Request.{ExitCode}
use alex_cachyos.Gitx.Safety.{
  CommandRequest, git_ran, GitRunner, is_git_executable, is_force_flag, is_shell_option,
  is_unsafe_argument, git_subcommand, cut_colon, is_destructive_argument, destructive_tag_refspec,
  active_tag_checkout, validate_git_command,
}
use alex_cachyos.Gitx.Safety.Refused.{
  is_main_or_commit, validate_git_command-Destructive, validate_git_command-checkout,
}
use alex_cachyos.Gitx.Safety.Refspecs.{forces}
use alex_cachyos.Gitx.Objects.{read_object, show, cat_file}
use alex_cachyos.Gitx.Objects.Reads.{IsObjectRequest, reads_keep}

abbrev git : List String → CommandRequest
git argv = record { operation = "git"; executable = "git"; argv = argv; cwd = "/repo" }

validate_git_command-Destructive_example :
    validate_git_command (git ("--no-pager" ∷ "push" ∷ "origin" ∷ "+main" ∷ [])) ≡ false
unfolding has_prefix contains
validate_git_command-Destructive_example =
    validate_git_command-Destructive (git ("--no-pager" ∷ "push" ∷ "origin" ∷ "+main" ∷ []))
      ("--no-pager" ∷ []) ("origin" ∷ "+main" ∷ []) refl "push" "+main" refl refl refl
      (forces "+main" (codes "main") refl)

checkout_main : validate_git_command (git ("--no-pager" ∷ "checkout" ∷ "main" ∷ [])) ≡ true
unfolding validate_git_command is_git_executable is_unsafe_argument is_force_flag is_shell_option
    git_subcommand active_tag_checkout has_prefix has_point contains_any contains_text is_abs same
checkout_main = refl

validate_git_command-checkout_example : is_main_or_commit ("main" ∷ []) ≡ true
unfolding has_prefix
validate_git_command-checkout_example =
    validate_git_command-checkout (git ("--no-pager" ∷ "checkout" ∷ "main" ∷ []))
      ("--no-pager" ∷ []) ("main" ∷ []) refl refl checkout_main

-- `-d` is git's short form of `--delete`, and the name is a tag's without its prefix: this is let
-- through.
push_delete : validate_git_command (git ("push" ∷ "origin" ∷ "-d" ∷ "v1.0" ∷ [])) ≡ true
unfolding validate_git_command is_git_executable is_unsafe_argument is_force_flag is_shell_option
    git_subcommand destructive_tag_refspec is_destructive_argument cut_colon active_tag_checkout
    has_prefix has_point contains_any contains_text is_abs same
push_delete = refl

-- A runner that counts its commands.
abbrev counting : GitRunner ℕ
counting request w =
    (git_ran (record { stdout = []; stderr = []; exit_code = ExitCode.exited 0 }), w + 1)

abbrev IsStarted : ℕ → Type 0
IsStarted w = ltb 0 w ≡ true

abbrev runner_of : Option (GitRunner ℕ) → GitRunner ℕ
runner_of none = counting
runner_of (some runner) = runner

counting-IsStarted :
    (inner : GitRunner ℕ) (request : CommandRequest)
    → some counting ≡ some inner
    → IsObjectRequest "/repo" request
    → IsStarted (inner request 1).1
counting-IsStarted inner request e reads = subst (λ r. IsStarted (runner_of r request 1).1) e refl

reads_keep_example :
    IsStarted (show (some counting) "/repo" "HEAD" "catalog/global.yaml" 1).1
    × IsStarted (cat_file (some counting) "/repo" "HEAD" 1).1
reads_keep_example =
    reads_keep IsStarted "/repo" 1 refl (some counting) counting-IsStarted "HEAD"
      "catalog/global.yaml" "HEAD"

-- An object's name alone goes to `CatFile`, a revision with a path to `Show`.
read_object_parts :
    (read_object (some counting) "/repo" ("HEAD" ∷ []) ≡ cat_file (some counting) "/repo" "HEAD")
    × (read_object (some counting) "/repo" ("HEAD" ∷ "go.mod" ∷ [])
        ≡ show (some counting) "/repo" "HEAD" "go.mod")
unfolding read_object
read_object_parts = (refl, refl)
