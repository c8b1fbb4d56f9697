-- ===== src/Gitx/Checkpoint/Committed.antt =====
-- What a checkpoint that passes has proved.
use alex_cachyos.Prelude.{
  contains-sort_by, String, ◌≡◌, refl, ◌∙◌, sym, subst, Bool, true, false, not, ◌||◌, some, List,
  [], ◌∷◌, contains, sort_by, text_less, eq_iff, codes, arith, Bool-cases, inl, inr, is_nil, is_abs,
}
use Prim.Native.String.{◌++◌ as ◌<>◌}
use alex_cachyos.Gitx.Safety.{GitRunner, safe_run, validate_git_command}
use alex_cachyos.Gitx.Objects.{validate_object_path}
use alex_cachyos.Gitx.Actions.{is_success, git_request}
use alex_cachyos.Gitx.Checkpoint.{
  and_then, run, check_head_paths, worktree_argv, index_argv, check_sorted,
  validate_committed_paths,
}

-- What git promises: the three commands only read, and say what they say of the repository.
pub record CheckpointLaws {W : Type 0} (git : GitRunner W) (in_head : W → String → Bool)
    (worktree_clean index_clean : W → List String → Bool) : Type 0 where
  pub head :
      (cwd path : String) (w : W)
      → let (reply, after) =
          git
            (git_request cwd "checkpoint-head-path" ("cat-file" ∷ "-e" ∷ ("HEAD:" <> path) ∷ []))
            w in
        (◌≡◌ {A = W} after w) × (is_success reply ≡ in_head w path)
  pub worktree :
      (cwd : String) (paths : List String) (w : W)
      → let (reply, after) = git (git_request cwd "checkpoint-worktree" (worktree_argv paths)) w in
        (◌≡◌ {A = W} after w) × (is_success reply ≡ worktree_clean w paths)
  pub index :
      (cwd : String) (paths : List String) (w : W)
      → let (reply, after) = git (git_request cwd "checkpoint-index" (index_argv paths)) w in
        (◌≡◌ {A = W} after w) × (is_success reply ≡ index_clean w paths)

module _ {W : Type 0} (git : GitRunner W) (cwd : String) where
  -- A check that passes, passed its command.
  run_lem :
      (operation : String) (argv : List String) (w : W)
      → (run (some git) cwd operation argv w).0 ≡ true
      → let (reply, after) = git (git_request cwd operation argv) w in
        (is_success reply ≡ true) × (◌≡◌ {A = W} (run (some git) cwd operation argv w).1 after)
  unfolding run safe_run
  run_lem operation argv w passed =
      elim (Bool-cases (validate_git_command (git_request cwd operation argv))) [
        | inl valid ↦ (rw valid at passed, rw valid)
        | inr unsafe ↦ absurd (ground (arith, unsafe, passed))
      ]

  and_then_lem :
      (next : W → Bool × W) (step : Bool × W)
      → (and_then (some git) cwd next step).0 ≡ true
      → (step.0 ≡ true)
        × ((next step.1).0 ≡ true)
        × (◌≡◌ {A = W} (and_then (some git) cwd next step).1 (next step.1).1)
  and_then_lem next (true, w) passed = (refl, passed, refl)
  and_then_lem next (false, w) passed = cc

module _ {W : Type 0} (git : GitRunner W) (cwd : String) (in_head : W → String → Bool)
    (worktree_clean index_clean : W → List String → Bool)
    (laws : CheckpointLaws git in_head worktree_clean index_clean) (w : W) where
  head_paths-in_head :
      (paths : List String) (path : String)
      → (check_head_paths (some git) cwd paths w).0 ≡ true
      → (◌≡◌ {A = W} (check_head_paths (some git) cwd paths w).1 w)
        × (contains paths path ≡ true → in_head w path ≡ true)
  unfolding check_head_paths contains
  head_paths-in_head [] path passed = (refl, λ there. absurd (cc there))
  head_paths-in_head (p ∷ paths) path passed = elim (Bool-cases (validate_object_path (codes p))) [
    | inr unsafe ↦ absurd (ground (arith, unsafe, passed))
    | inl safe ↦
        let argv = "cat-file" ∷ "-e" ∷ ("HEAD:" <> p) ∷ [] in
        let step = run (some git) cwd "checkpoint-head-path" argv w in
        let (ran, rest, state) =
          and_then_lem git cwd (check_head_paths (some git) cwd paths) step (rw safe at passed) in
        let (success, moved) = run_lem git cwd "checkpoint-head-path" argv w ran in
        let (same, said) = laws.head cwd p w in
        let back = moved ∙ same in
        let (kept, found) =
          head_paths-in_head paths path
            (subst (λ v. (check_head_paths (some git) cwd paths v).0 ≡ true) back rest) in
        (
          rw safe (
              state ∙ subst (λ v. (check_head_paths (some git) cwd paths v).1 ≡ w) (sym back) kept),
          λ there. ground (arith, found, success, said, there, eq_iff p path),
        )
  ]

  -- A command that passes, run where the machine is as at the start.
  run-clean :
      (operation : String) (argv : List String) (verdict : Bool) (v : W)
      → (let (reply, after) = git (git_request cwd operation argv) w in
          (◌≡◌ {A = W} after w) × (is_success reply ≡ verdict))
      → ◌≡◌ {A = W} v w
      → (run (some git) cwd operation argv v).0 ≡ true
      → (verdict ≡ true) × (◌≡◌ {A = W} (run (some git) cwd operation argv v).1 w)
  run-clean operation argv verdict v says same ran =
      let here = subst (λ v'. (run (some git) cwd operation argv v').0 ≡ true) same ran in
      let (success, moved) = run_lem git cwd operation argv w here in
      (
        sym says.1 ∙ success,
        subst (λ v'. (run (some git) cwd operation argv v').1 ≡ w) (sym same) (moved ∙ says.0),
      )

  -- Every path is in HEAD, and neither the files nor the index differ from it at the listed ones.
  abbrev pub IsCommitted : (paths listed : List String) → Type 0
  IsCommitted paths listed =
      ((path : String) → contains paths path ≡ true → in_head w path ≡ true)
      × (worktree_clean w listed ≡ true)
      × (index_clean w listed ≡ true)

  check_sorted-IsCommitted :
      (paths : List String)
      → (check_sorted (some git) cwd paths w).0 ≡ true
      → IsCommitted paths paths
  check_sorted-IsCommitted paths passed =
      let heads = check_head_paths (some git) cwd paths w in
      let worktree = run (some git) cwd "checkpoint-worktree" (worktree_argv paths) in
      let index = run (some git) cwd "checkpoint-index" (index_argv paths) in
      let (ok, ran_index, _) =
        and_then_lem git cwd index (and_then (some git) cwd worktree heads) passed in
      let (ok_heads, ran_worktree, moved) = and_then_lem git cwd worktree heads ok in
      let same = (head_paths-in_head paths "" ok_heads).0 in
      let (clean, after) = run-clean _ _ _ heads.1 (laws.worktree cwd paths w) same ran_worktree in
      let (clean_index, _) = run-clean _ _ _ _ (laws.index cwd paths w) (moved ∙ after) ran_index in
      ((λ path. (head_paths-in_head paths path ok_heads).1), clean, clean_index)

  -- If git's three commands only read and say what they say of the repository, then a checkpoint that
  -- `ValidateCommittedPaths` lets pass has each of its paths in HEAD, and neither the files nor the
  -- index differ from HEAD at the sorted paths.
  pub validate_committed_paths-IsCommitted :
      (paths : List String)
      → (validate_committed_paths (some git) cwd paths w).0 ≡ true
      → IsCommitted paths (sort_by text_less paths)
  unfolding validate_committed_paths
  validate_committed_paths-IsCommitted paths passed =
      elim (Bool-cases (not (is_abs (codes cwd)) || is_nil paths)) [
        | inl bad ↦ absurd (ground (arith, bad, passed))
        | inr good ↦
            let (there, clean, clean_index) =
              check_sorted-IsCommitted (sort_by text_less paths) (rw good at passed) in
            ((λ path listed. there path (contains-sort_by paths path ∙ listed)), clean, clean_index)
      ]
