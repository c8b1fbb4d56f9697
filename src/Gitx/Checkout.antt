-- ===== src/Gitx/Checkout.antt =====
-- internal/gitx/checkout.go: `EnsureCheckout` and `AdvanceCheckout`. `canonical` is
-- `CanonicalRemote`, which rests on the URL parser of the standard library.
pub mod Reads
pub mod Kept
use alex_cachyos.Prelude.{
  String, Bool, true, false, not, ◌&&◌, ◌||◌, Option, none, some, List, [], ◌∷◌, ◌==◌,
  if◌then◌else◌, is_nil, is_empty, codes, Points, same, is_abs, trim_space, beq_nat,
}
use alex_cachyos.Prelude.Paths.{clean_path, dir_path}
use alex_cachyos.Gitx.Safety.{CommandResult, is_commit_id}
use alex_cachyos.Gitx.Status.{
  DirtyCounts, no_counts, parse_status_porcelain, parse_status_paths, parse_nul_paths,
  paths_overlap,
}
use alex_cachyos.Gitx.Actions.{
  CheckoutError, nil_runner, git_command_failed, path_not_absolute, remote_required,
  branch_not_main, desired_required, desired_not_commit, path_missing, inspect_failed,
  not_a_directory, origin_mismatch, not_on_main, head_empty, head_empty_after, unreachable,
  diverged, local_changes_overlap, PathInfo, directory, symlink, other_file, not_found, uninspected,
  Ports, Step, proceed, finish, Action, ◌>>=◌, ◌>>◌, leave, require, is_success, result_of,
  is_exit_one, call, run_or, inspect,
}

pub record CheckoutSpec : Type 0 where
  pub path : String
  pub remote : String
  pub branch : String
  pub desired_commit : String

pub record CheckoutResult : Type 0 where
  pub before_commit : Points
  pub resolved_commit : Points
  pub adopted : Bool
  pub cloned : Bool
  pub dirty : Bool
  pub skipped : Bool
  pub dirty_counts : DirtyCounts

abbrev pub no_checkout : CheckoutResult
no_checkout = record {
  before_commit = [];
  resolved_commit = [];
  adopted = false;
  cloned = false;
  dirty = false;
  skipped = false;
  dirty_counts = no_counts;
}

-- `validateSpec` fills in the branch and cleans the path.
pub data SpecCheck : Type 0 where
  accepted : CheckoutSpec → SpecCheck
  refused : CheckoutError → SpecCheck

abbrev pub is_dirty : DirtyCounts → Bool
is_dirty counts = not (beq_nat counts.entries 0)

abbrev pub with_status : CommandResult → CheckoutResult → CheckoutResult
with_status status result =
    let counts = parse_status_porcelain status.stdout in
    record result { dirty = is_dirty counts; dirty_counts = counts }

abbrev pub text_of : CommandResult → Points
text_of result = trim_space result.stdout

module _ (canonical : Points → Points) where
  unfoldable pub validate_spec : CheckoutSpec → SpecCheck
  validate_spec spec =
      let branch = if is_empty spec.branch then "main" else spec.branch in
      if is_empty spec.path || not (is_abs (codes spec.path))
      then refused path_not_absolute
      else if is_empty spec.remote || is_nil (canonical (codes spec.remote))
      then refused remote_required
      else if not (branch == "main")
      then refused branch_not_main
      else if is_empty spec.desired_commit
      then refused desired_required
      else accepted (record spec { branch = branch; path = clean_path spec.path })

  abbrev check_commit : SpecCheck → SpecCheck
  check_commit (refused err) = refused err
  check_commit (accepted spec) =
      if is_commit_id (codes spec.desired_commit) then accepted spec else refused desired_not_commit

  unfoldable pub validate_advance_spec : CheckoutSpec → SpecCheck
  validate_advance_spec spec = check_commit (validate_spec spec)

  module _ {W : Type 0} (ports : Ports W) where
    abbrev Method : Type 0 → Type 0
    Method A = Action W CheckoutResult A

    -- `origin` must be the expected remote.
    unfoldable pub check_origin : CheckoutSpec → CheckoutResult → Method (Unit {0})
    check_origin spec result = do
      remote ←
          run_or ports result git_command_failed spec.path "remote"
            ("remote" ∷ "get-url" ∷ "origin" ∷ [])
      require (same (canonical remote.stdout) (canonical (codes spec.remote))) result
          origin_mismatch

    unfoldable pub fetch : CheckoutSpec → CheckoutResult → Method CommandResult
    fetch spec result =
        run_or ports result git_command_failed spec.path "fetch"
          ("fetch" ∷ "--no-tags" ∷ "origin" ∷ spec.branch ∷ [])

    -- The commit that `HEAD` names, which must not be empty.
    unfoldable pub read_head :
        CheckoutSpec → (result empty : CheckoutResult) → CheckoutError → Method Points
    read_head spec result empty err = do
      head ← run_or ports result git_command_failed spec.path "head" ("rev-parse" ∷ "HEAD" ∷ [])
      require (not (is_nil (text_of head))) empty err
      λ w. (proceed (text_of head), w)

    unfoldable pub read_status : CheckoutSpec → CheckoutResult → Method CommandResult
    read_status spec result =
        run_or ports result git_command_failed spec.path "status"
          ("status" ∷ "--porcelain=v1" ∷ "-z" ∷ [])

    unfoldable pub check_reachable : CheckoutSpec → CheckoutResult → Method CommandResult
    check_reachable spec result =
        run_or ports result unreachable spec.path "reachability"
          ("merge-base" ∷ "--is-ancestor" ∷ spec.desired_commit ∷ "origin/main" ∷ [])

    -- An existing checkout is adopted, a missing one cloned.
    unfoldable pub adopt_or_clone : CheckoutSpec → PathInfo → Method CheckoutResult
    adopt_or_clone spec directory = do
      check_origin spec no_checkout
      λ w. (proceed (record no_checkout { adopted = true }), w)
    adopt_or_clone spec not_found = do
      run_or ports (record no_checkout { cloned = true }) git_command_failed (dir_path spec.path)
          "clone" ("clone" ∷ "--branch" ∷ spec.branch ∷ spec.remote ∷ spec.path ∷ [])
      λ w. (proceed (record no_checkout { cloned = true }), w)
    adopt_or_clone spec uninspected = leave no_checkout (some inspect_failed)
    adopt_or_clone spec _ = leave no_checkout (some not_a_directory)

    abbrev with_head : Points → CheckoutResult → CheckoutResult
    with_head head result = record result {
      resolved_commit = head;
      before_commit = if result.adopted then head else result.before_commit;
    }

    unfoldable pub ensure_valid : CheckoutSpec → Method CheckoutResult
    ensure_valid spec = do
      info ← inspect ports spec.path
      result ← adopt_or_clone spec info
      fetch spec result
      head ← read_head spec result result head_empty
      status ← read_status spec (with_head head result)
      let found = with_status status (with_head head result)
      check_reachable spec found
      λ w. (proceed found, w)

    abbrev run_checked : SpecCheck → (CheckoutSpec → Method CheckoutResult) → Method CheckoutResult
    run_checked (refused err) method = leave no_checkout (some err)
    run_checked (accepted spec) method = method spec

    unfoldable pub check_directory : PathInfo → Method (Unit {0})
    check_directory directory = require true no_checkout not_a_directory
    check_directory not_found = leave no_checkout (some path_missing)
    check_directory uninspected = leave no_checkout (some inspect_failed)
    check_directory _ = leave no_checkout (some not_a_directory)

    -- The part of `AdvanceCheckout` that changes the checkout.
    unfoldable pub fast_forward : CheckoutSpec → CheckoutResult → Method CheckoutResult
    fast_forward spec result = do
      run_or ports result git_command_failed spec.path "checkout" ("checkout" ∷ "main" ∷ [])
      run_or ports result git_command_failed spec.path "merge"
          ("merge" ∷ "--ff-only" ∷ spec.desired_commit ∷ [])
      head ← read_head spec result (record result { resolved_commit = [] }) head_empty_after
      let moved = record result { resolved_commit = head }
      status ← read_status spec moved
      λ w. (proceed (with_status status moved), w)

    -- The desired commit must descend from `HEAD`, and must not change a path with local changes.
    unfoldable pub advance_to : CheckoutSpec → List Points → CheckoutResult → Method CheckoutResult
    advance_to spec local_paths result = do
      ancestry ←
          call ports spec.path "divergence"
            ("merge-base" ∷ "--is-ancestor" ∷ "HEAD" ∷ spec.desired_commit ∷ [])
      require (is_success ancestry) result
          (if is_exit_one ancestry then diverged else git_command_failed)
      changed ←
          run_or ports result git_command_failed spec.path "changed-paths"
            ("diff" ∷ "--name-only" ∷ "-z" ∷ "HEAD" ∷ spec.desired_commit ∷ [])
      require (not (paths_overlap local_paths (parse_nul_paths changed.stdout)))
          (record result { skipped = true }) local_changes_overlap
      fast_forward spec result

    abbrev advance_unless :
        Bool → CheckoutSpec → List Points → CheckoutResult → Method CheckoutResult
    advance_unless true spec local_paths result w = (proceed result, w)
    advance_unless false spec local_paths result w = advance_to spec local_paths result w

    abbrev adopted_checkout : CheckoutResult
    adopted_checkout = record no_checkout { adopted = true }

    unfoldable pub advance_valid : CheckoutSpec → Method CheckoutResult
    advance_valid spec = do
      info ← inspect ports spec.path
      check_directory info
      check_origin spec no_checkout
      branch ←
          run_or ports adopted_checkout git_command_failed spec.path "branch"
            ("branch" ∷ "--show-current" ∷ [])
      require (same (text_of branch) (codes "main")) adopted_checkout not_on_main
      fetch spec adopted_checkout
      head ← read_head spec adopted_checkout adopted_checkout head_empty
      let found = record adopted_checkout { before_commit = head; resolved_commit = head }
      status ← read_status spec found
      let result = with_status status found
      check_reachable spec result
      advance_unless (same head (codes spec.desired_commit)) spec (parse_status_paths status.stdout)
          result

  -- The methods of a client, which may have no runner.
  unfoldable pub ensure_checkout :
      {W : Type 0} → Option (Ports W) → CheckoutSpec → Action W CheckoutResult CheckoutResult
  ensure_checkout none spec = leave no_checkout (some nil_runner)
  ensure_checkout (some ports) spec = run_checked ports (validate_spec spec) (ensure_valid ports)

  unfoldable pub advance_checkout :
      {W : Type 0} → Option (Ports W) → CheckoutSpec → Action W CheckoutResult CheckoutResult
  advance_checkout none spec = leave no_checkout (some nil_runner)
  advance_checkout (some ports) spec =
      run_checked ports (validate_advance_spec spec) (advance_valid ports)
