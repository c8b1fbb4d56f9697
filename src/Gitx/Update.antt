-- ===== src/Gitx/Update.antt =====
-- internal/gitx/update.go: `ObserveUpdate`.
pub mod Observed
use Prim.Native.String.{◌++◌ as ◌<>◌}
use alex_cachyos.Prelude.{
  ℕ, zero, suc, ◌+◌, ◌-◌, String, Bool, true, false, not, ◌&&◌, ◌||◌, Option, none, some, List, [],
  ◌∷◌, ◌++◌, ◌==◌, if◌then◌else◌, is_nil, is_empty, codes, Points, same, is_abs, trim_space,
  beq_nat, leb, sort_by, text_less, map,
}
use alex_cachyos.Prelude.Paths.{clean_path}
use alex_cachyos.Gitx.Safety.{CommandResult, GitReply, GitRunner, is_commit_id, safe_run}
use alex_cachyos.Gitx.Objects.{validate_object_path}
use alex_cachyos.Gitx.Actions.{
  CheckoutError, nil_runner, git_command_failed, path_not_absolute, remote_required,
  branch_not_main, path_missing, inspect_failed, not_a_directory, origin_mismatch, not_a_commit,
  diverged, PathInfo, directory, symlink, other_file, not_found, uninspected, Ports, Step, proceed,
  finish, Action, ◌>>=◌, ◌>>◌, leave, require, git_request, is_success, result_of, is_exit_one,
  call, run_or, inspect,
}

pub record UpdateSpec : Type 0 where
  pub path : String
  pub remote : String
  pub branch : String

pub record UpdateResult : Type 0 where
  pub current_commit : String
  pub candidate_commit : String
  pub newer : Bool

abbrev pub no_update : UpdateResult
no_update = record { current_commit = ""; candidate_commit = ""; newer = false }

pub data UpdateCheck : Type 0 where
  accepted : UpdateSpec → UpdateCheck
  refused : CheckoutError → UpdateCheck

abbrev hex_digits : List (ℕ × String)
hex_digits =
    (b'0', "0")
    ∷ (b'1', "1")
    ∷ (b'2', "2")
    ∷ (b'3', "3")
    ∷ (b'4', "4")
    ∷ (b'5', "5")
    ∷ (b'6', "6")
    ∷ (b'7', "7")
    ∷ (b'8', "8")
    ∷ (b'9', "9")
    ∷ (b'a', "a")
    ∷ (b'b', "b")
    ∷ (b'c', "c")
    ∷ (b'd', "d")
    ∷ (b'e', "e")
    ∷ (b'f', "f")
    ∷ (b'A', "A")
    ∷ (b'B', "B")
    ∷ (b'C', "C")
    ∷ (b'D', "D")
    ∷ (b'E', "E")
    ∷ (b'F', "F")
    ∷ []

abbrev digit_text : List (ℕ × String) → ℕ → String
digit_text [] c = ""
digit_text ((d, text) ∷ digits) c = if beq_nat d c then text else digit_text digits c

-- The text of a commit identifier's bytes, which are hexadecimal digits.
unfoldable pub commit_text : Points → String
commit_text [] = ""
commit_text (c ∷ commit) = digit_text hex_digits c <> commit_text commit

module _ (canonical : Points → Points) where
  unfoldable pub validate_update_spec : UpdateSpec → UpdateCheck
  validate_update_spec spec =
      let branch = if is_empty spec.branch then "main" else spec.branch in
      if is_empty spec.path || not (is_abs (codes spec.path))
      then refused path_not_absolute
      else if is_empty spec.remote || is_nil (canonical (codes spec.remote))
      then refused remote_required
      else if not (branch == "main")
      then refused branch_not_main
      else accepted (record spec { branch = branch; path = clean_path spec.path })

  module _ {W : Type 0} (ports : Ports W) where
    abbrev Method : Type 0 → Type 0
    Method A = Action W UpdateResult A

    abbrev check_directory : PathInfo → Method (Unit {0})
    check_directory directory = require true no_update not_a_directory
    check_directory not_found = leave no_update (some path_missing)
    check_directory uninspected = leave no_update (some inspect_failed)
    check_directory _ = leave no_update (some not_a_directory)

    -- The commit that a revision names. `failed` is the result that stands in the method where it
    -- fails, with the field that was to be set empty.
    unfoldable pub resolve_update_commit : UpdateResult → String → String → String → Method String
    resolve_update_commit failed cwd operation revision = do
      resolved ← run_or ports failed git_command_failed cwd operation ("rev-parse" ∷ revision ∷ [])
      require (is_commit_id (trim_space resolved.stdout)) failed not_a_commit
      λ w. (proceed (commit_text (trim_space resolved.stdout)), w)

    abbrev ancestor_argv : String → String → List String
    ancestor_argv old new = "merge-base" ∷ "--is-ancestor" ∷ old ∷ new ∷ []

    abbrev second_answer : UpdateResult → GitReply → Method UpdateResult
    second_answer result reply =
        if is_success reply
        then (λ w. (proceed result, w))
        else leave result (some (if is_exit_one reply then diverged else git_command_failed))

    abbrev first_answer : String → UpdateResult → GitReply → Method UpdateResult
    first_answer cwd result reply =
        if is_success reply
        then (λ w. (proceed (record result { newer = true }), w))
        else if not (is_exit_one reply)
        then leave result (some git_command_failed)
        else (call ports cwd "divergence"
              (ancestor_argv result.candidate_commit result.current_commit)
            >>= λ reverse. second_answer result reverse)

    -- The comparison of the two commits.
    unfoldable pub compare_commits : String → UpdateResult → Method UpdateResult
    compare_commits cwd result =
        if result.current_commit == result.candidate_commit
        then (λ w. (proceed result, w))
        else (call ports cwd "reachability"
              (ancestor_argv result.current_commit result.candidate_commit)
            >>= λ reply. first_answer cwd result reply)

    unfoldable pub observe_valid : UpdateSpec → Method UpdateResult
    observe_valid spec = do
      info ← inspect ports spec.path
      check_directory info
      remote ←
          run_or ports no_update git_command_failed spec.path "remote"
            ("remote" ∷ "get-url" ∷ "origin" ∷ [])
      require (same (canonical remote.stdout) (canonical (codes spec.remote))) no_update
          origin_mismatch
      run_or ports no_update git_command_failed spec.path "fetch"
          ("fetch" ∷ "--no-tags" ∷ "origin" ∷ spec.branch ∷ [])
      current ← resolve_update_commit no_update spec.path "head" "HEAD"
      let found = record no_update { current_commit = current }
      candidate ← resolve_update_commit found spec.path "candidate" ("origin/" <> spec.branch)
      compare_commits spec.path (record found { candidate_commit = candidate })

    abbrev run_checked : UpdateCheck → Method UpdateResult
    run_checked (refused err) = leave no_update (some err)
    run_checked (accepted spec) = observe_valid spec

  -- `ObserveUpdate` of a client, which may have no runner.
  unfoldable pub observe_update :
      {W : Type 0} → Option (Ports W) → UpdateSpec → Action W UpdateResult UpdateResult
  observe_update none spec = leave no_update (some nil_runner)
  observe_update (some ports) spec = run_checked ports (validate_update_spec spec)
