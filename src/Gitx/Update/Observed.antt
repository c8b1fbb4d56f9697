-- ===== src/Gitx/Update/Observed.antt =====
-- `ObserveUpdate` only reads, and a newer candidate descends from the current commit.
use alex_cachyos.Prelude.{
  some, String, ◌≡◌, refl, eq_iff, is_empty, if◌then◌else◌, ◌∙◌, Bool, true, false, not, ◌&&◌, List,
  [], ◌∷◌, ◌==◌, contains, Points, arith, Bool-cases, inl, inr,
}
use alex_cachyos.Gitx.Safety.{GitReply, GitRunner}
use alex_cachyos.Gitx.Actions.{
  CheckoutError, PathInfo, directory, symlink, other_file, not_found, uninspected, Ports, Step,
  require, git_request, is_success, is_exit_one, run_or,
}
use alex_cachyos.Gitx.Actions.Ensures.{
  Reading, reads_origin, fetch_of, resolves, compares, Ensures, goes, leaves, Ensures-bind,
}
use alex_cachyos.Gitx.Update.{
  UpdateSpec, UpdateResult, UpdateCheck, accepted, refused, resolve_update_commit, compare_commits,
  first_answer, second_answer, validate_update_spec, observe_valid, run_checked, observe_update,
  check_directory, ancestor_argv,
}

-- What git promises: the commands that only read leave the checkout's `content`; `merge-base
-- --is-ancestor` succeeds only on an ancestor, and has the exit code 1 only where there is none. Any
-- other failure says nothing.
pub record UpdateLaws {W C : Type 0} (git : GitRunner W) (content : W → C)
    (is_ancestor : String → String → Bool) : Type 0 where
  pub reads :
      (cwd operation : String) (argv : List String) (w : W)
      → Reading argv
      → content (git (git_request cwd operation argv) w).1 ≡ content w
  pub descends :
      (cwd operation old new : String) (w : W)
      → is_success
          (git (git_request cwd operation ("merge-base" ∷ "--is-ancestor" ∷ old ∷ new ∷ [])) w).0
        ≡ true
      → is_ancestor old new ≡ true
  pub unrelated :
      (cwd operation old new : String) (w : W)
      → is_exit_one
          (git (git_request cwd operation ("merge-base" ∷ "--is-ancestor" ∷ old ∷ new ∷ [])) w).0
        ≡ true
      → is_ancestor old new ≡ false

-- A specification that is accepted has the branch `main`.
abbrev branch_of : UpdateCheck → String
branch_of (accepted spec) = spec.branch
branch_of (refused err) = "main"

validate_update_spec-main :
    (canonical : Points → Points) (spec : UpdateSpec)
    → branch_of (validate_update_spec canonical spec) ≡ "main"
unfolding validate_update_spec
validate_update_spec-main canonical spec =
    ground (arith, eq_iff (if is_empty spec.branch then "main" else spec.branch) "main")

module _ {W C : Type 0} (canonical : Points → Points) (ports : Ports W) (content : W → C)
    (is_ancestor : String → String → Bool) (laws : UpdateLaws ports.git content is_ancestor)
    (start : W) where
  abbrev pub Kept : W → Type 0
  Kept w = content w ≡ content start

  abbrev Leads : {A : Type 0} → (A → W → Type 0) → Step UpdateResult A × W → Type 0
  Leads Q step = Ensures Kept Q step

  require-Leads :
      (test : Bool) (r : UpdateResult) (err : CheckoutError) (w : W)
      → Kept w
      → Leads (λ _ w'. Kept w') (require test r err w)
  unfolding require
  require-Leads true r err w kept = goes kept
  require-Leads false r err w kept = leaves kept

  read-Leads :
      (r : UpdateResult) (err : CheckoutError) (cwd operation : String) (argv : List String) (w : W)
      → Reading argv
      → Kept w
      → Leads (λ _ w'. Kept w') (run_or ports r err cwd operation argv w)
  unfolding run_or
  read-Leads r err cwd operation argv w reading kept =
      Ensures-bind (require-Leads _ _ _ _ (laws.reads cwd operation argv w reading ∙ kept))
        λ _ w' kept'. goes kept'

  check_directory-Leads :
      (info : PathInfo) (w : W)
      → Kept w
      → Leads (λ _ w'. Kept w') (check_directory canonical ports info w)
  unfolding require
  check_directory-Leads directory w kept = goes kept
  check_directory-Leads symlink w kept = leaves kept
  check_directory-Leads other_file w kept = leaves kept
  check_directory-Leads not_found w kept = leaves kept
  check_directory-Leads uninspected w kept = leaves kept

  resolve-Leads :
      (r : UpdateResult) (cwd operation revision : String) (w : W)
      → Kept w
      → Leads (λ _ w'. Kept w') (resolve_update_commit canonical ports r cwd operation revision w)
  unfolding resolve_update_commit contains
  resolve-Leads r cwd operation revision w kept =
      Ensures-bind (read-Leads r _ _ _ _ w (resolves revision) kept)
        λ resolved w' kept'. Ensures-bind (require-Leads _ _ _ w' kept') λ _ w'' kept''. goes kept''

  -- The result says exactly whether the candidate is another commit that descends from the current one.
  abbrev pub SaysNewer : UpdateResult → W → Type 0
  SaysNewer result w =
      Kept w
      × (result.newer ≡ (
          not (result.current_commit == result.candidate_commit)
          && is_ancestor result.current_commit result.candidate_commit))

  second_answer-Leads :
      (result : UpdateResult) (reply : GitReply) (w : W)
      → SaysNewer result w
      → Leads SaysNewer (second_answer canonical ports result reply w)
  second_answer-Leads result reply w says = elim (Bool-cases (is_success reply)) [
    | inl success ↦ rw success (goes says)
    | inr failure ↦ rw failure (leaves says.0)
  ]

  first_answer-Leads :
      (cwd : String) (result : UpdateResult) (reply : GitReply) (w : W)
      → Kept w
      → result.newer ≡ false
      → (result.current_commit == result.candidate_commit) ≡ false
      → (is_success reply ≡ true → is_ancestor result.current_commit result.candidate_commit ≡ true)
      → (is_exit_one reply ≡ true
          → is_ancestor result.current_commit result.candidate_commit ≡ false)
      → Leads SaysNewer (first_answer canonical ports cwd result reply w)
  unfolding contains
  first_answer-Leads cwd result reply w kept old apart ancestor apart_from =
      elim (Bool-cases (is_success reply)) [
        | inl success ↦ rw success (goes (kept, ground (arith, ancestor success, apart)))
        | inr failure ↦ rw failure (elim (Bool-cases (is_exit_one reply)) [
          | inl unrelated ↦ rw unrelated (
              let argv =
                ancestor_argv canonical ports result.candidate_commit result.current_commit in
              let (reverse, after) = ports.git (git_request cwd "divergence" argv) w in
              second_answer-Leads result reverse after (
                laws.reads cwd "divergence" argv w (compares _ _) ∙ kept,
                ground (arith, apart_from unrelated, old),
              ))
          | inr broken ↦ rw broken (leaves kept)
        ])
      ]

  compare_commits-Leads :
      (cwd : String) (result : UpdateResult) (w : W)
      → Kept w
      → result.newer ≡ false
      → Leads SaysNewer (compare_commits canonical ports cwd result w)
  unfolding compare_commits contains
  compare_commits-Leads cwd result w kept old =
      elim (Bool-cases (result.current_commit == result.candidate_commit)) [
        | inl equal ↦ rw equal (goes (kept, ground (arith, equal, old)))
        | inr apart ↦ rw apart (
            let argv =
              ancestor_argv canonical ports result.current_commit result.candidate_commit in
            let (reply, after) = ports.git (git_request cwd "reachability" argv) w in
            first_answer-Leads cwd result reply after
              (laws.reads cwd "reachability" argv w (compares _ _) ∙ kept) old apart
              (laws.descends cwd "reachability" result.current_commit result.candidate_commit w)
              (laws.unrelated cwd "reachability" result.current_commit result.candidate_commit w))
      ]

  observe_valid-Leads :
      (spec : UpdateSpec)
      → spec.branch ≡ "main"
      → Leads SaysNewer (observe_valid canonical ports spec start)
  unfolding observe_valid
  observe_valid-Leads spec main = Ensures-bind (check_directory-Leads _ start refl) λ _ w1 k1.
      Ensures-bind (read-Leads _ _ _ _ _ w1 reads_origin k1) λ remote w2 k2.
        Ensures-bind (require-Leads _ _ _ w2 k2) λ _ w3 k3.
          Ensures-bind (read-Leads _ _ _ _ _ w3 (fetch_of main) k3) λ _ w4 k4.
            Ensures-bind (resolve-Leads _ _ _ _ w4 k4) λ current w5 k5.
              Ensures-bind (resolve-Leads _ _ _ _ w5 k5)
                λ candidate w6 k6. compare_commits-Leads _ _ w6 k6 refl

  checked-Leads :
      (check : UpdateCheck)
      → branch_of check ≡ "main"
      → Leads SaysNewer (run_checked canonical ports check start)
  checked-Leads (refused err) main = leaves refl
  checked-Leads (accepted spec) main = observe_valid-Leads spec main

  -- If git's reading commands leave the checkout as it is, and `merge-base --is-ancestor` succeeds only
  -- on an ancestor and exits with 1 only where there is none, then `ObserveUpdate` leaves the checkout
  -- as it is, whatever it returns, and without an error `Newer` says exactly whether the candidate is
  -- another commit that descends from the current one.
  pub observe_update-SaysNewer :
      (spec : UpdateSpec)
      → Ensures Kept SaysNewer (observe_update canonical (some ports) spec start)
  unfolding observe_update
  observe_update-SaysNewer spec = checked-Leads _ (validate_update_spec-main canonical spec)
