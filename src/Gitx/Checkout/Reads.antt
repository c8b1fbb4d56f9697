-- ===== src/Gitx/Checkout/Reads.antt =====
-- What git promises of a checkout, and what each step of `AdvanceCheckout` leaves as it was.
use alex_cachyos.Prelude.{
  String, ◌≡◌, refl, sym, ◌∙◌, Bool, true, false, List, [], ◌∷◌, codes, same, contains, Points,
  Bool-cases, inl, inr,
}
use alex_cachyos.Gitx.Safety.{CommandResult}
use alex_cachyos.Gitx.Status.{parse_status_paths, parse_nul_paths, paths_overlap}
use alex_cachyos.Gitx.Actions.{
  CheckoutError, git_command_failed, PathInfo, directory, symlink, other_file, not_found,
  uninspected, Ports, Step, require, git_request, is_success, result_of, run_or,
}
use alex_cachyos.Gitx.Checkout.{
  CheckoutSpec, CheckoutResult, check_origin, fetch, read_head, read_status, check_reachable,
  check_directory, text_of,
}
use alex_cachyos.Gitx.Actions.Ensures.{
  Reading, reads_origin, reads_status, reads_branch, resolves, compares, fetch_of, Ensures, goes,
  leaves, Ensures-bind, Ensures-map,
}

abbrev pub status_argv : List String
status_argv = "status" ∷ "--porcelain=v1" ∷ "-z" ∷ []

abbrev pub branch_argv : List String
branch_argv = "branch" ∷ "--show-current" ∷ []

abbrev pub diff_argv : String → List String
diff_argv commit = "diff" ∷ "--name-only" ∷ "-z" ∷ "HEAD" ∷ commit ∷ []

-- What git promises of a checkout: `content` is what the local changes hold, `local_paths` are their
-- paths, `changed_paths` are the paths that differ between `HEAD` and the desired commit, and `on_main`
-- tells whether `main` is checked out. Only then does a checkout of `main` keep the local changes.
pub record GitLaws {W C : Type 0} (ports : Ports W) (commit : String) (content : W → C)
    (local_paths changed_paths : W → List Points) (on_main : W → Bool) : Type 0 where
  pub reads :
      (cwd operation : String) (argv : List String) (w : W)
      → Reading argv
      → let after = (ports.git (git_request cwd operation argv) w).1 in
        (content after ≡ content w)
        × (local_paths after ≡ local_paths w)
        × (changed_paths after ≡ changed_paths w)
        × (on_main after ≡ on_main w)
  pub branch_says :
      (cwd operation : String) (w : W)
      → let reply = (ports.git (git_request cwd operation branch_argv) w).0 in
        is_success reply ≡ true
        → same (text_of (result_of reply)) (codes "main") ≡ true
        → on_main w ≡ true
  pub status_says :
      (cwd operation : String) (w : W)
      → let reply = (ports.git (git_request cwd operation status_argv) w).0 in
        is_success reply ≡ true → parse_status_paths (result_of reply).stdout ≡ local_paths w
  pub diff_says :
      (cwd operation : String) (w : W)
      → let reply = (ports.git (git_request cwd operation (diff_argv commit)) w).0 in
        is_success reply ≡ true → parse_nul_paths (result_of reply).stdout ≡ changed_paths w
  pub checkout_keeps :
      (cwd operation : String) (w : W)
      → on_main w ≡ true
      → let after = (ports.git (git_request cwd operation ("checkout" ∷ "main" ∷ [])) w).1 in
        (content after ≡ content w)
        × (local_paths after ≡ local_paths w)
        × (changed_paths after ≡ changed_paths w)
  pub merge_keeps :
      (cwd operation : String) (w : W)
      → paths_overlap (local_paths w) (changed_paths w) ≡ false
      → content (ports.git (git_request cwd operation ("merge" ∷ "--ff-only" ∷ commit ∷ [])) w).1
        ≡ content w

module _ {W C : Type 0} {ports : Ports W} {commit : String} {content : W → C}
    {local_paths changed_paths : W → List Points} {on_main : W → Bool}
    (laws : GitLaws ports commit content local_paths changed_paths on_main) (start : W) where
  abbrev pub Kept : W → Type 0
  Kept w = content w ≡ content start

  abbrev pub Same : W → Type 0
  Same w =
      (content w ≡ content start)
      × (local_paths w ≡ local_paths start)
      × (changed_paths w ≡ changed_paths start)
      × (on_main w ≡ on_main start)

  abbrev pub Leads : {A : Type 0} → (A → W → Type 0) → Step CheckoutResult A × W → Type 0
  Leads Q step = Ensures Kept Q step

  -- A command of which is known what it replies and what state it leaves.
  pub run_or-Leads :
      (Q : CommandResult → W → Type 0) (r : CheckoutResult) (err : CheckoutError)
      (cwd operation : String) (argv : List String) (w : W)
      → let answer = ports.git (git_request cwd operation argv) w in
        Kept answer.1
        → (is_success answer.0 ≡ true → Q (result_of answer.0) answer.1)
        → Leads Q (run_or ports r err cwd operation argv w)
  unfolding run_or require
  run_or-Leads Q r err cwd operation argv w kept good =
      elim (Bool-cases (is_success (ports.git (git_request cwd operation argv) w).0)) [
        | inl success ↦ rw success (goes (good success))
        | inr failure ↦ rw failure (leaves kept)
      ]

  pub require-Leads :
      (test : Bool) (r : CheckoutResult) (err : CheckoutError) (w : W)
      → Same w
      → Leads (λ _ w'. Same w' × (test ≡ true)) (require test r err w)
  unfolding require
  require-Leads true r err w kept = goes (kept, refl)
  require-Leads false r err w kept = leaves kept.0

  pub Same-reads :
      (cwd operation : String) (argv : List String) (w : W)
      → Reading argv
      → Same w
      → Same (ports.git (git_request cwd operation argv) w).1
  Same-reads cwd operation argv w reading kept =
      let (a, b, c, d) = laws.reads cwd operation argv w reading in
      (a ∙ kept.0, b ∙ kept.1, c ∙ kept.2, d ∙ kept.3)

  -- A command that only reads.
  pub read-Leads :
      (r : CheckoutResult) (err : CheckoutError) (cwd operation : String) (argv : List String)
      (w : W)
      → Reading argv
      → Same w
      → Leads (λ _ w'. Same w') (run_or ports r err cwd operation argv w)
  read-Leads r err cwd operation argv w reading kept =
      let after = Same-reads cwd operation argv w reading kept in
      run_or-Leads (λ _ w'. Same w') r err cwd operation argv w after.0 (λ _. after)

  module _ (canonical : Points → Points) (spec : CheckoutSpec) where
    pub check_origin-Leads :
        (r : CheckoutResult) (w : W)
        → Same w
        → Leads (λ _ w'. Same w') (check_origin canonical ports spec r w)
    unfolding check_origin contains
    check_origin-Leads r w kept =
        Ensures-bind (read-Leads r _ _ _ _ w reads_origin kept) λ remote w' kept'.
          Ensures-map (require-Leads _ _ _ w' kept') (λ w'' k. k) (λ _ w'' k. k.0)

    pub fetch-Leads :
        (r : CheckoutResult) (w : W)
        → Same w
        → spec.branch ≡ "main"
        → Leads (λ _ w'. Same w') (fetch canonical ports spec r w)
    unfolding fetch contains
    fetch-Leads r w kept main = read-Leads r _ _ _ _ w (fetch_of main) kept

    -- The branch that is checked out.
    pub branch-Leads :
        (r : CheckoutResult) (w : W)
        → Same w
        → Leads
            (λ branch w'.
              Same w' × (same (text_of branch) (codes "main") ≡ true → on_main start ≡ true))
            (run_or ports r git_command_failed spec.path "branch" branch_argv w)
    branch-Leads r w kept =
        let after = Same-reads _ _ branch_argv w reads_branch kept in
        run_or-Leads _ r _ _ _ branch_argv w after.0
          (λ success. (after, λ named. sym kept.3 ∙ laws.branch_says _ _ w success named))

    pub read_head-Leads :
        (r empty : CheckoutResult) (err : CheckoutError) (w : W)
        → Same w
        → Leads (λ _ w'. Same w') (read_head canonical ports spec r empty err w)
    unfolding read_head contains
    read_head-Leads r empty err w kept =
        Ensures-bind (read-Leads r _ _ _ _ w (resolves "HEAD") kept)
          λ head w' kept'. Ensures-bind (require-Leads _ _ _ w' kept') λ _ w'' k. goes k.0

    pub read_status-Leads :
        (r : CheckoutResult) (w : W)
        → Same w
        → Leads
            (λ status w'. Same w' × (parse_status_paths status.stdout ≡ local_paths start))
            (read_status canonical ports spec r w)
    unfolding read_status contains
    read_status-Leads r w kept =
        let after = Same-reads _ _ status_argv w reads_status kept in
        run_or-Leads _ r _ _ _ status_argv w after.0
          (λ success. (after, laws.status_says _ _ w success ∙ kept.1))

    pub check_reachable-Leads :
        (r : CheckoutResult) (w : W)
        → Same w
        → Leads (λ _ w'. Same w') (check_reachable canonical ports spec r w)
    unfolding check_reachable contains
    check_reachable-Leads r w kept = read-Leads r _ _ _ _ w (compares _ _) kept

    pub check_directory-Leads :
        (info : PathInfo) (w : W)
        → Same w
        → Leads (λ _ w'. Same w') (check_directory canonical ports info w)
    unfolding check_directory require
    check_directory-Leads directory w kept = goes kept
    check_directory-Leads symlink w kept = leaves kept.0
    check_directory-Leads other_file w kept = leaves kept.0
    check_directory-Leads not_found w kept = leaves kept.0
    check_directory-Leads uninspected w kept = leaves kept.0
