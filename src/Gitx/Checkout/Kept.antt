-- ===== src/Gitx/Checkout/Kept.antt =====
-- `AdvanceCheckout` keeps local changes.
use alex_cachyos.Prelude.{
  some, String, ◌≡◌, refl, sym, eq_iff, is_empty, if◌then◌else◌, ◌∙◌, subst, Bool, true, false,
  List, [], ◌∷◌, contains, Points, arith,
}
use alex_cachyos.Gitx.Status.{parse_nul_paths, paths_overlap}
use alex_cachyos.Gitx.Actions.{
  Ports, Step, proceed, ◌>>=◌, head_empty_after, git_command_failed, run_or,
}
use alex_cachyos.Gitx.Checkout.{
  CheckoutSpec, CheckoutResult, SpecCheck, accepted, refused, validate_spec, check_commit,
  validate_advance_spec, read_head, read_status, fast_forward, advance_to, advance_unless,
  advance_valid, run_checked, advance_checkout, with_status,
}
use alex_cachyos.Gitx.Actions.Ensures.{
  compares, lists_changes, Ensures, goes, Ensures-bind, Ensures-map, Ensures-state,
}
use alex_cachyos.Gitx.Checkout.Reads.{
  diff_argv, GitLaws, Same, run_or-Leads, require-Leads, Same-reads, check_origin-Leads,
  fetch-Leads, read_head-Leads, branch-Leads, read_status-Leads, check_reachable-Leads,
  check_directory-Leads,
}

module _ {W C : Type 0} (ports : Ports W) (spec : CheckoutSpec) (content : W → C)
    (local_paths changed_paths : W → List Points) (on_main : W → Bool)
    (laws : GitLaws ports spec.desired_commit content local_paths changed_paths on_main)
    (canonical : Points → Points) where
  abbrev SameAs : W → W → Type 0
  SameAs start w = Same laws start w

  abbrev Keeps : {A : Type 0} → W → Step CheckoutResult A × W → Type 0
  Keeps start step =
      Ensures (λ w. content w ≡ content start) (λ _ w. content w ≡ content start) step

  -- Behind the merge only the local changes' content is known.
  read_moved-Keeps :
      (r : CheckoutResult) (start w : W)
      → content w ≡ content start
      → Keeps start (
          (read_head canonical ports spec r (record r { resolved_commit = [] }) head_empty_after
              >>= λ head.
                  read_status canonical ports spec (record r { resolved_commit = head })
                  >>= λ status w'.
                      (proceed (with_status status (record r { resolved_commit = head })), w'))
            w)
  read_moved-Keeps r start w kept =
      Ensures-map
        (Ensures-bind (read_head-Leads laws w canonical spec r _ _ w (refl, refl, refl, refl))
          λ head w' same.
            Ensures-bind (read_status-Leads laws w canonical spec _ w' same)
              λ status w'' same'. goes same'.0.0)
        (λ w' k. k ∙ kept) (λ result w' k. k ∙ kept)

  fast_forward-Keeps :
      (r : CheckoutResult) (start w : W)
      → SameAs start w
      → on_main start ≡ true
      → paths_overlap (local_paths start) (changed_paths start) ≡ false
      → Keeps start (fast_forward canonical ports spec r w)
  unfolding fast_forward
  fast_forward-Keeps r start w kept main apart =
      let (c, l, p) = laws.checkout_keeps spec.path "checkout" w (kept.3 ∙ main) in
      Ensures-bind
        (run_or-Leads laws start
          (λ _ w'.
            (content w' ≡ content start)
            × (local_paths w' ≡ local_paths start)
            × (changed_paths w' ≡ changed_paths start))
          r _ _ _ ("checkout" ∷ "main" ∷ []) w (c ∙ kept.0)
          (λ _. (c ∙ kept.0, l ∙ kept.1, p ∙ kept.2)))
        λ _ w' same.
          let merged =
            laws.merge_keeps spec.path "merge" w' (cc (same.1, same.2, apart)) ∙ same.0 in
          Ensures-bind
            (run_or-Leads laws start (λ _ w''. content w'' ≡ content start) r _ _ _
              ("merge" ∷ "--ff-only" ∷ spec.desired_commit ∷ []) w' merged (λ _. merged))
            λ _ w'' kept'. read_moved-Keeps r start w'' kept'

  diff-Leads :
      (r : CheckoutResult) (start w : W)
      → SameAs start w
      → Ensures
          (λ w'. content w' ≡ content start)
          (λ changed w'. SameAs start w' × (parse_nul_paths changed.stdout ≡ changed_paths start))
          (run_or ports r git_command_failed spec.path "changed-paths"
            (diff_argv spec.desired_commit)
            w)
  unfolding contains
  diff-Leads r start w kept =
      let after =
        Same-reads laws start spec.path "changed-paths" (diff_argv spec.desired_commit) w
          (lists_changes _) kept in
      run_or-Leads laws start _ r _ _ _ (diff_argv spec.desired_commit) w after.0
        (λ success. (after, laws.diff_says _ _ w success ∙ kept.2))

  advance_to-Keeps :
      (r : CheckoutResult) (paths : List Points) (start w : W)
      → SameAs start w
      → on_main start ≡ true
      → paths ≡ local_paths start
      → Keeps start (advance_to canonical ports spec paths r w)
  unfolding advance_to contains
  advance_to-Keeps r paths start w kept main local =
      let after = Same-reads laws start _ _ _ w (compares _ _) kept in
      Ensures-bind (require-Leads laws start _ _ _ _ after) λ _ w1 (same1, _).
        Ensures-bind (diff-Leads r start w1 same1) λ changed w2 (same2, said).
          Ensures-bind (require-Leads laws start _ _ _ w2 same2) λ _ w3 (same3, apart).
            fast_forward-Keeps r start w3 same3 main (ground (arith, said, local, apart))

  advance_unless-Keeps :
      (there : Bool) (r : CheckoutResult) (paths : List Points) (start w : W)
      → SameAs start w
      → on_main start ≡ true
      → paths ≡ local_paths start
      → Keeps start (advance_unless canonical ports there spec paths r w)
  advance_unless-Keeps true r paths start w kept main local = goes kept.0
  advance_unless-Keeps false r paths start w kept main local =
      advance_to-Keeps r paths start w kept main local

  advance_valid-Keeps :
      (start : W) → spec.branch ≡ "main" → Keeps start (advance_valid canonical ports spec start)
  unfolding advance_valid
  advance_valid-Keeps start main =
      Ensures-bind
        (check_directory-Leads laws start canonical spec _ start (refl, refl, refl, refl))
        λ _ w1 same1.
          Ensures-bind (check_origin-Leads laws start canonical spec _ w1 same1) λ _ w2 same2.
            Ensures-bind (branch-Leads laws start canonical spec _ w2 same2)
              λ branch w3 (same3, says).
                Ensures-bind (require-Leads laws start _ _ _ w3 same3) λ _ w4 (same4, named).
                  Ensures-bind (fetch-Leads laws start canonical spec _ w4 same4 main) λ _ w5 same5.
                    Ensures-bind (read_head-Leads laws start canonical spec _ _ _ w5 same5)
                      λ head w6 same6.
                        Ensures-bind (read_status-Leads laws start canonical spec _ w6 same6)
                          λ status w7 (same7, said).
                            Ensures-bind
                              (check_reachable-Leads laws start canonical spec _ w7 same7)
                              λ _ w8 same8.
                                advance_unless-Keeps _ _ _ start w8 same8 (says named) said

-- A specification that is accepted has the given commit and the branch `main`.
abbrev commit_of : String → SpecCheck → String
commit_of commit (accepted spec) = spec.desired_commit
commit_of commit (refused err) = commit

abbrev branch_of : SpecCheck → String
branch_of (accepted spec) = spec.branch
branch_of (refused err) = "main"

abbrev HasCommit : String → SpecCheck → Type 0
HasCommit commit check = (commit_of commit check ≡ commit) × (branch_of check ≡ "main")

HasCommit-check_commit :
    (canonical : Points → Points) (commit : String) (check : SpecCheck)
    → HasCommit commit check
    → HasCommit commit (check_commit canonical check)
HasCommit-check_commit canonical commit (refused err) h = (refl, refl)
HasCommit-check_commit canonical commit (accepted spec) h = (ground arith, ground arith)

validate_spec-HasCommit :
    (canonical : Points → Points) (spec : CheckoutSpec)
    → HasCommit spec.desired_commit (validate_spec canonical spec)
unfolding validate_spec
validate_spec-HasCommit canonical spec = (
  ground arith,
  ground (arith, eq_iff (if is_empty spec.branch then "main" else spec.branch) "main"),
)

module _ {W C : Type 0} (ports : Ports W) (commit : String) (content : W → C)
    (local_paths changed_paths : W → List Points) (on_main : W → Bool)
    (laws : GitLaws ports commit content local_paths changed_paths on_main)
    (canonical : Points → Points) where
  checked_keeps :
      (check : SpecCheck) (start : W)
      → HasCommit commit check
      → content (run_checked canonical ports check (advance_valid canonical ports) start).1
        ≡ content start
  checked_keeps (refused err) start h = refl
  checked_keeps (accepted spec) start h =
      let laws' =
        subst (λ c. GitLaws ports c content local_paths changed_paths on_main) (sym h.0) laws in
      Ensures-state (
        advance_valid-Keeps ports spec content local_paths changed_paths on_main laws' canonical
          start h.1)

  -- If the git commands that `AdvanceCheckout` reads with leave the checkout as it is, if `branch
  -- --show-current` prints `main` only on that branch, where a checkout of `main` changes nothing, if
  -- `status` and `diff` report the local and the changed paths, and if a fast-forward keeps local
  -- changes on paths that it does not touch, then `AdvanceCheckout` keeps the content of the local
  -- changes, whatever it returns.
  pub advance_checkout_keeps :
      (spec : CheckoutSpec) (start : W)
      → spec.desired_commit ≡ commit
      → content (advance_checkout canonical (some ports) spec start).1 ≡ content start
  unfolding advance_checkout validate_advance_spec
  advance_checkout_keeps spec start wanted = checked_keeps _ start (
      HasCommit-check_commit canonical commit (validate_spec canonical spec) (
        subst (λ c. HasCommit c (validate_spec canonical spec)) wanted
          (validate_spec-HasCommit canonical spec)))
