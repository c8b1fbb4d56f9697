-- ===== src/Gitx/CheckoutExamples.antt =====
-- A checkout with local changes that follows its origin, and the same statements on it.
use Prim.Native.String.{◌++◌ as ◌<>◌}
use alex_cachyos.Prelude.{
  String, ◌≡◌, refl, Bool, true, false, List, [], ◌∷◌, ◌++◌, ◌==◌, some, codes, Points,
  if◌then◌else◌, contains, contains_text, contains_any, has_prefix, has_point, same, is_abs,
  trim_space, drop_spaces, sort_by, text_less, any, arith,
}
use alex_cachyos.Prelude.Paths.{clean_path, join_path, split_path}
use alex_cachyos.Runner.Request.{ExitCode}
use alex_cachyos.Gitx.Safety.{
  CommandRequest, GitReply, git_ran, GitRunner, is_commit_id, safe_run, validate_git_command,
  is_git_executable, is_unsafe_argument, is_force_flag, is_shell_option, git_subcommand,
}
use alex_cachyos.Gitx.Objects.{validate_object_path, has_parent_part}
use alex_cachyos.Gitx.Status.{
  renamed, untracked, count_records, git_paths_overlap, classify, nul_records,
  parse_status_porcelain, parse_status_paths, parse_nul_paths, paths_overlap, collect_paths,
  trim_slash,
}
use alex_cachyos.Gitx.Status.Printed.{parse_status-print_status}
use alex_cachyos.Gitx.Status.Format.{Entry, IsEntry, print_status, status_counts}
use alex_cachyos.Gitx.Status.Overlap.{related, segments_of, paths_overlap-related}
use alex_cachyos.Gitx.Actions.{require, run_or, directory, Ports}
use alex_cachyos.Gitx.Actions.Ensures.{Ensures}
use alex_cachyos.Gitx.Checkout.{
  CheckoutSpec, validate_spec, validate_advance_spec, check_directory, check_origin, fetch,
  read_head, read_status, check_reachable, advance_checkout, advance_valid, advance_to,
  fast_forward,
}
use alex_cachyos.Gitx.Checkout.Reads.{GitLaws}
use alex_cachyos.Gitx.Checkout.Kept.{advance_checkout_keeps}
use alex_cachyos.Gitx.Update.{UpdateSpec, observe_update}
use alex_cachyos.Gitx.Update.Observed.{UpdateLaws, Kept, SaysNewer, observe_update-SaysNewer}
use alex_cachyos.Gitx.Checkpoint.{validate_committed_paths, check_head_paths, run}
use alex_cachyos.Gitx.Checkpoint.Committed.{
  CheckpointLaws, IsCommitted, validate_committed_paths-IsCommitted,
}

-- A renamed file and an untracked one.
abbrev renamed_entry : Entry
renamed_entry = record {
  class = renamed;
  x = b'R';
  y = b' ';
  path = codes "new";
  old_path = codes "old";
}

abbrev untracked_entry : Entry
untracked_entry = record {
  class = untracked;
  x = b'?';
  y = b'?';
  path = codes "notes";
  old_path = [];
}

renamed_entry-IsEntry : IsEntry renamed_entry
unfolding has_point
renamed_entry-IsEntry = record {
  listed = refl;
  plain_path = refl;
  plain_old = refl;
  named = refl;
  named_old = refl;
}

untracked_entry-IsEntry : IsEntry untracked_entry
unfolding has_point
untracked_entry-IsEntry = record {
  listed = refl;
  plain_path = refl;
  plain_old = refl;
  named = refl;
  named_old = refl;
}

abbrev entries : List Entry
entries = renamed_entry ∷ untracked_entry ∷ []

parse_status-print_status_example :
    (parse_status_porcelain (print_status entries) ≡ status_counts entries)
    × (parse_status_paths (print_status entries) ≡ codes "new" ∷ codes "old" ∷ codes "notes" ∷ [])
parse_status-print_status_example =
    parse_status-print_status entries (renamed_entry-IsEntry, (untracked_entry-IsEntry, tt))

abbrev changed_files : List Points
changed_files = codes "cata" ∷ codes "docs/adr" ∷ []

paths_overlap-related_example :
    paths_overlap (codes "catalog/" ∷ codes "docs" ∷ []) changed_files
    ≡ any
        (λ l. any (λ r. related (segments_of l) (segments_of r)) changed_files)
        (codes "catalog/" ∷ codes "docs" ∷ [])
paths_overlap-related_example =
    paths_overlap-related (codes "catalog/" ∷ codes "docs" ∷ []) changed_files

-- The commit that is checked out, and the content of the file `notes`, which is not committed.
record Repo : Type 0 where
  head : String
  notes : Points

abbrev old_commit : String
old_commit = "1111111111111111111111111111111111111111"

abbrev new_commit : String
new_commit = "2222222222222222222222222222222222222222"

abbrev succeed : Points → GitReply
succeed stdout = git_ran (record { stdout = stdout; stderr = []; exit_code = ExitCode.exited 0 })

abbrev print : String → List String → Repo → Points
print subcommand args w =
    if subcommand == "remote"
    then codes "host:repo"
    else if subcommand == "branch"
    then codes "main\n"
    else if subcommand == "rev-parse"
    then (if contains args "HEAD" then codes w.head else codes new_commit)
    else if subcommand == "status"
    then codes " M notes" ++ 0 ∷ []
    else if subcommand == "diff"
    then codes "catalog" ++ 0 ∷ []
    else []

abbrev move : String → String → String
move subcommand head = if subcommand == "merge" then new_commit else head

abbrev answer : List String → GitRunner Repo
answer [] request w = (succeed [], w)
answer (subcommand ∷ args) request w =
    (succeed (print subcommand args w), record w { head = move subcommand w.head })

abbrev ports : Ports Repo
ports = record { lstat = λ path w. directory; git = λ request w. answer request.argv request w }

abbrev start : Repo
start = record { head = old_commit; notes = codes "draft" }

abbrev local_paths : Repo → List Points
local_paths w = codes "notes" ∷ []

abbrev changed_paths : Repo → List Points
changed_paths w = codes "catalog" ∷ []

answer-notes :
    (argv : List String) (request : CommandRequest) (w : Repo)
    → (answer argv request w).1.notes ≡ w.notes
answer-notes [] request w = refl
answer-notes (subcommand ∷ args) request w = refl

git_laws : GitLaws ports new_commit (λ w. w.notes) local_paths changed_paths (λ w. true)
unfolding parse_status_paths parse_nul_paths nul_records collect_paths
git_laws = record {
  reads = λ cwd operation argv w reading. (answer-notes argv _ w, refl, refl, refl);
  branch_says = λ cwd operation w success named. refl;
  status_says = λ cwd operation w success. refl;
  diff_says = λ cwd operation w success. refl;
  checkout_keeps = λ cwd operation w main. (refl, refl, refl);
  merge_keeps = λ cwd operation w apart. refl;
}

abbrev spec : CheckoutSpec
spec = record { path = "/repo"; remote = "host:repo"; branch = ""; desired_commit = new_commit }

advance_checkout_keeps_example :
    (advance_checkout (λ url. url) (some ports) spec start).1.notes ≡ codes "draft"
advance_checkout_keeps_example =
    advance_checkout_keeps ports new_commit (λ w. w.notes) local_paths changed_paths (λ w. true)
      git_laws (λ url. url) spec start refl

-- The checkout is at the desired commit then.
advanced : (advance_checkout (λ url. url) (some ports) spec start).1.head ≡ new_commit
unfolding advance_checkout validate_advance_spec validate_spec is_abs is_commit_id advance_valid
    check_directory require check_origin run_or same trim_space fetch read_head contains read_status
    check_reachable advance_to fast_forward classify collect_paths count_records git_paths_overlap
    nul_records parse_nul_paths parse_status_paths parse_status_porcelain paths_overlap trim_slash
    clean_path join_path split_path drop_spaces has_prefix
advanced = refl

update_laws : UpdateLaws ports.git (λ w. w.notes) (λ old new. true)
update_laws = record {
  reads = λ cwd operation argv w reading. answer-notes argv _ w;
  descends = λ cwd operation old new w success. refl;
  unrelated = λ cwd operation old new w failed. absurd (cc failed);
}

abbrev update : UpdateSpec
update = record { path = "/repo"; remote = "host:repo"; branch = "main" }

observe_update-SaysNewer_example :
    Ensures
      (Kept (λ url. url) ports (λ w. w.notes) (λ old new. true) update_laws start)
      (SaysNewer (λ url. url) ports (λ w. w.notes) (λ old new. true) update_laws start)
      (observe_update (λ url. url) (some ports) update start)
observe_update-SaysNewer_example =
    observe_update-SaysNewer (λ url. url) ports (λ w. w.notes) (λ old new. true) update_laws start
      update

-- The objects that `HEAD` names.
abbrev Objects : Type 0
Objects = List String

abbrev exit_of : Bool → ExitCode
exit_of true = ExitCode.exited 0
exit_of false = ExitCode.exited 1

abbrev is_found : List String → Objects → Bool
is_found (subcommand ∷ option ∷ name ∷ []) w =
    if subcommand == "cat-file" then contains w name else true
is_found _ w = true

abbrev objects_git : GitRunner Objects
objects_git request w = (
  git_ran (record { stdout = []; stderr = []; exit_code = exit_of (is_found request.argv w) }),
  w,
)

abbrev finds : Objects → String → Bool
finds w path = contains w ("HEAD:" <> path)

checkpoint_laws : CheckpointLaws objects_git finds (λ w paths. true) (λ w paths. true)
checkpoint_laws = record {
  head = λ cwd path w. (refl, ground arith);
  worktree = λ cwd paths w. (refl, refl);
  index = λ cwd paths w. (refl, refl);
}

abbrev committed : Objects
committed = "HEAD:go.mod" ∷ []

passes : (validate_committed_paths (some objects_git) "/repo" ("go.mod" ∷ []) committed).0 ≡ true
unfolding validate_committed_paths check_head_paths run safe_run validate_git_command
    is_git_executable is_unsafe_argument is_force_flag is_shell_option git_subcommand
    validate_object_path has_prefix has_point contains is_abs same sort_by has_parent_part
    contains_text contains_any
passes = refl

validate_committed_paths-IsCommitted_example :
    IsCommitted objects_git "/repo" finds
      (λ w paths. true)
      (λ w paths. true)
      checkpoint_laws
      committed
      ("go.mod" ∷ [])
      (sort_by text_less ("go.mod" ∷ []))
validate_committed_paths-IsCommitted_example =
    validate_committed_paths-IsCommitted objects_git "/repo" finds (λ w paths. true)
      (λ w paths. true) checkpoint_laws committed ("go.mod" ∷ []) passes
