-- ===== src/Gitx/Checkpoint.antt =====
-- internal/gitx/checkpoint.go: `ValidateCommittedPaths`.
pub mod Committed
use Prim.Native.String.{◌++◌ as ◌<>◌}
use alex_cachyos.Prelude.{
  ℕ, zero, suc, String, Bool, true, false, not, ◌||◌, Option, none, some, List, [], ◌∷◌, ◌++◌,
  if◌then◌else◌, is_nil, codes, is_abs, sort_by, text_less,
}
use alex_cachyos.Gitx.Safety.{GitReply, GitRunner, safe_run}
use alex_cachyos.Gitx.Objects.{validate_object_path}
use alex_cachyos.Gitx.Actions.{is_success, git_request}

abbrev pub worktree_argv : List String → List String
worktree_argv paths = "diff" ∷ "--quiet" ∷ "HEAD" ∷ "--" ∷ paths

abbrev pub index_argv : List String → List String
index_argv paths = "diff" ∷ "--cached" ∷ "--quiet" ∷ "HEAD" ∷ "--" ∷ paths

module _ {W : Type 0} (runner : Option (GitRunner W)) (cwd : String) where
  -- A step says whether it succeeded; every failure is `ErrCheckpointPathNotCommitted`.
  abbrev Check : Type 0
  Check = W → Bool × W

  abbrev pub and_then : Check → Bool × W → Bool × W
  and_then next (true, w) = next w
  and_then next (false, w) = (false, w)

  abbrev answered : GitReply × W → Bool × W
  answered (reply, w) = (is_success reply, w)

  -- The closure `run`.
  unfoldable pub run : String → List String → Check
  run operation argv w = answered (safe_run runner (git_request cwd operation argv) w)

  unfoldable pub check_head_paths : List String → Check
  check_head_paths [] w = (true, w)
  check_head_paths (path ∷ paths) w =
      if validate_object_path (codes path)
      then and_then (check_head_paths paths)
          (run "checkpoint-head-path" ("cat-file" ∷ "-e" ∷ ("HEAD:" <> path) ∷ []) w)
      else (false, w)

  abbrev check_sorted : List String → Check
  check_sorted paths w =
      and_then (run "checkpoint-index" (index_argv paths))
        (and_then (run "checkpoint-worktree" (worktree_argv paths)) (check_head_paths paths w))

  abbrev pub is_missing : Option (GitRunner W) → Bool
  is_missing none = true
  is_missing (some _) = false

  -- `ValidateCommittedPaths`: whether it returns nil.
  unfoldable pub validate_committed_paths : List String → Check
  validate_committed_paths paths w =
      if is_missing runner || not (is_abs (codes cwd)) || is_nil paths
      then (false, w)
      else check_sorted (sort_by text_less paths) w
