-- ===== src/App/Examples.antt =====
-- An application of a plan, and rollbacks of a managed file.
use alex_cachyos.Prelude.{
  ℕ, ◌+◌, if◌then◌else◌, trim_space, drop_spaces, to_lower, same, sort_by, insert_sorted, String,
  ◌≡◌, refl, Bool, true, false, ◌&&◌, Option, none, some, List, [], ◌∷◌,
}
use alex_cachyos.Planner.Types.{Plan}
use alex_cachyos.App.Apply.{Receipt, Applier, LockReply, Publication, apply, execute, publish}
use alex_cachyos.App.Apply.Locking.{is_locked, apply-held}
use alex_cachyos.App.Rollback.{
  ManagedFileRollback, ManagedClass, IsSafe, plan_rollback_inverse, plan_rollback_inverse-IsSafe,
}
use alex_cachyos.App.Host.{
  find_owner, trim_dot, points_less, normalize_host_name, index_hosts, new_host_index, is_blank,
  resolve_host,
}
use alex_cachyos.App.Host.Resolved.{IsMatch, requested, is_indexed, resolve_host-IsMatch}
use alex_cachyos.Runner.Examples.{fold}

-- A machine that knows whether the lock is held.
abbrev held : Bool → Bool
held w = w

abbrev lock_reply : Bool → LockReply × Bool
lock_reply true = (LockReply.contended, true)
lock_reply false = (LockReply.locked, true)

abbrev applier : Applier Bool
applier = record {
  clone_envelope = λ envelope. some envelope;
  clone_plan = λ plan. some (plan, "digest");
  executor = some (λ plan dry w. ((record { outcomes = []; no_change = true }, none), w));
  store = some (λ receipt w. (Publication.unpublished "disk full", w));
  lock = lock_reply;
  release = λ w. (none, false);
}

abbrev envelope : Receipt
envelope = record {
  started_at = "";
  finished_at = "";
  status = "";
  no_change = false;
  dry_run = false;
  digest = "";
  network_required = [];
  steps = [];
  errors = [];
}

abbrev plan : Plan
plan = record { selection = record { only = []; with_modules = []; without = [] }; steps = [] }

acquires : (w : Bool) → held w ≡ false → held (lock_reply w).1 ≡ is_locked (lock_reply w).0
acquires true h = cc h
acquires false h = refl

executes :
    (planned : Plan) (dry : Bool) (w : Bool) → held (execute applier planned dry w).1 ≡ held w
unfolding execute
executes planned dry w = refl

publishes : (value : Receipt) (w : Bool) → held (publish applier value w).1 ≡ held w
unfolding publish
publishes value w = refl

apply-held_example : held (apply applier envelope plan false false).1 ≡ false
apply-held_example =
    apply-held applier held acquires (λ w. refl) executes publishes envelope plan false false refl

abbrev file : ManagedFileRollback
file = record {
  class = ManagedClass.created;
  target = "/etc/pam.d/sudo";
  after_hash = "0123456789abcdef0123456789abcdef0123456789abcdef0123456789abcdef";
  backup_path = "";
  backup_hash = "";
  live = record {
    exists = true;
    hash = "0123456789abcdef0123456789abcdef0123456789abcdef0123456789abcdef";
  };
}

plan_rollback_inverse-IsSafe_example : IsSafe file (plan_rollback_inverse file)
plan_rollback_inverse-IsSafe_example = plan_rollback_inverse-IsSafe file

abbrev known : List String
known = "zenbook" ∷ "Desk" ∷ []

-- A port that counts its calls.
abbrev port : ℕ → Option String × ℕ
port w = (some "zenbook.", w + 1)

resolve_host-IsMatch_example :
    IsMatch fold known (requested fold "" (port 0).0) (resolve_host fold port "" known 0).0
    × ((resolve_host fold port "" known 0).1
        ≡ (if is_blank fold "" && is_indexed (new_host_index fold known) then 1 else 0))
resolve_host-IsMatch_example = resolve_host-IsMatch fold port "" known 0

known-is_indexed : is_indexed (new_host_index fold known) ≡ true
unfolding new_host_index index_hosts find_owner normalize_host_name trim_space trim_dot drop_spaces
    points_less to_lower same sort_by insert_sorted
known-is_indexed = refl
