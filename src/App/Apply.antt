-- ===== src/App/Apply.antt =====
-- internal/app/apply.go: `Apply` and the receipt that it publishes. Canonical JSON, the plan's
-- digest, the executor, the lock and the receipt store are the ports of the applier.
pub mod Receipts
pub mod Locking
use alex_cachyos.Prelude.{
  ℕ, ◌+◌, String, Bool, true, false, not, ◌&&◌, ◌||◌, Option, none, some, List, [], ◌∷◌, ◌++◌, map,
  ◌==◌, if◌then◌else◌, contains, is_empty,
}
use alex_cachyos.Planner.Types.{Plan, Step, Disposition, Scope, NetworkClass}
use alex_cachyos.Planner.Types
use alex_cachyos.Planner.Network.{NetworkGroup, network_groups}
use alex_cachyos.Executor.Types.{Outcome, OutcomeName, Result}

-- `receipt.Step`
pub record ReceiptStep : Type 0 where
  pub id : String
  pub module_name : String
  pub scope : Scope
  pub network : NetworkClass
  pub disposition : Disposition
  pub outcome : OutcomeName
  pub started_at : String
  pub finished_at : String
  pub error_code : String

-- The fields of `receipt.Receipt` that `Apply` reads or sets; it hands on the others.
pub record Receipt : Type 0 where
  pub started_at : String
  pub finished_at : String
  pub status : String
  pub no_change : Bool
  pub dry_run : Bool
  pub digest : String
  pub network_required : List String
  pub steps : List ReceiptStep
  pub errors : List String

-- `safeOutcome`: any text that is no outcome's name becomes `failed`.
abbrev pub safe_outcome : OutcomeName → OutcomeName
safe_outcome OutcomeName.unset = OutcomeName.failed
safe_outcome outcome = outcome

abbrev pub error_codes : List String
error_codes =
    "disposition" ∷ "observe" ∷ "compare" ∷ "reobserve" ∷ "apply" ∷ "postobserve" ∷ "postcondition"
    ∷ "observer" ∷ "mutator" ∷ "blocked" ∷ "executor-failed" ∷ "executor-blocked"
    ∷ "lock-contention" ∷ "lock-failed" ∷ []

unfoldable pub safe_error_code : String → String
safe_error_code value = if contains error_codes value then value else ""

abbrev pub code_or : String → String → String
code_or fallback code = if is_empty code then fallback else code

-- The code of a failed or blocked step that has none.
abbrev pub default_code : OutcomeName → String → String
default_code OutcomeName.failed code = code_or "executor-failed" code
default_code OutcomeName.blocked code = code_or "executor-blocked" code
default_code outcome code = code

abbrev is_unset : Disposition → Bool
is_unset (Disposition.other text) = is_empty text
is_unset _ = false

abbrev pub map_outcome : String → String → Outcome → ReceiptStep
map_outcome started finished outcome = record {
  id = if is_empty outcome.step_id then (outcome.step).id else outcome.step_id;
  module_name =
      if is_empty outcome.module_name then (outcome.step).module_name else outcome.module_name;
  scope = (outcome.step).scope;
  network = (outcome.step).network;
  disposition =
      if is_unset outcome.disposition then (outcome.step).disposition else outcome.disposition;
  outcome = safe_outcome outcome.outcome;
  started_at = started;
  finished_at = finished;
  error_code = default_code (safe_outcome outcome.outcome) (safe_error_code outcome.error_code);
}

unfoldable pub map_outcomes : List Outcome → String → String → List ReceiptStep
map_outcomes outcomes started finished = map (map_outcome started finished) outcomes

unfoldable pub blocked_steps : Plan → String → String → String → List ReceiptStep
blocked_steps plan started finished code =
    map
      (λ step. record {
        id = step.id;
        module_name = step.module_name;
        scope = step.scope;
        network = step.network;
        disposition = step.disposition;
        outcome = OutcomeName.blocked;
        started_at = started;
        finished_at = finished;
        error_code = code;
      })
      plan.steps

abbrev pub mark_failure : Receipt → String → Receipt
mark_failure value code = record value {
  status = "failed";
  no_change = false;
  errors = value.errors ++ code ∷ [];
}

abbrev pub is_failure : OutcomeName → Bool
is_failure OutcomeName.failed = true
is_failure OutcomeName.blocked = true
is_failure _ = false

-- The loop of `setExecutionStatus`: the first failed or blocked outcome marks the failure.
unfoldable pub mark_outcomes : List Outcome → Receipt → Receipt
mark_outcomes [] value = value
mark_outcomes (outcome ∷ outcomes) value =
    let rest = mark_outcomes outcomes value in
    if is_failure (safe_outcome outcome.outcome)
    then mark_failure value "executor-blocked"
    else rest

abbrev mark_error : Option String → Result → Receipt → Receipt
mark_error none result value = mark_outcomes result.outcomes value
mark_error (some error) result value = mark_failure value "executor-failed"

abbrev is_none : Option String → Bool
is_none none = true
is_none (some _) = false

unfoldable pub set_execution_status : Receipt → Result → Option String → Receipt
set_execution_status value result error =
    mark_error error result
      (record value { status = "success"; no_change = is_none error && result.no_change })

abbrev pub network_operations : List NetworkGroup → List String
network_operations groups = map (λ group. group.operation) groups

pub data LockReply : Type 0 where
  locked contended refused : LockReply

pub data Publication : Type 0 where
  published unpublished : String → Publication

-- The collaborators, over the state `W` of the machine. An executor or a store that is nil is
-- `none`; an executor's error and a store's are texts.
pub record Applier (W : Type 0) : Type 0 where
  pub clone_envelope : Receipt → Option Receipt
  pub clone_plan : Plan → Option (Plan × String)
  pub executor : Option (Plan → Bool → W → (Result × Option String) × W)
  pub store : Option (Receipt → W → Publication × W)
  pub lock : W → LockReply × W
  pub release : W → Option String × W

pub record ApplyResult : Type 0 where
  pub receipt : Receipt
  pub receipt_path : String
  pub network_groups : List NetworkGroup

-- The errors that `joinErrors` joins.
pub data Fault : Type 0 where
  lock_contended lock_refused publication_unavailable : Fault
  unpublished_receipt unreleased execution : String → Fault

pub data Applied : Type 0 where
  invalid_envelope invalid_plan : Applied
  applied : ApplyResult → List Fault → Applied

abbrev no_result : Result
no_result = record { outcomes = []; no_change = false }

abbrev pub option_fault : (String → Fault) → Option String → List Fault
option_fault fault none = []
option_fault fault (some text) = fault text ∷ []

abbrev path_of : Publication → String
path_of (published path) = path
path_of (unpublished error) = ""

abbrev publication_faults : Publication → List Fault
publication_faults (published path) = []
publication_faults (unpublished error) = unpublished_receipt error ∷ []

module _ {W : Type 0} where
  abbrev run_executor :
      Option (Plan → Bool → W → (Result × Option String) × W)
      → Plan
      → Bool
      → W
      → (Result × Option String) × W
  run_executor none plan dry w = ((no_result, some "executor unavailable"), w)
  run_executor (some execute) plan dry w = execute plan dry w

  abbrev publish_to :
      Option (Receipt → W → Publication × W) → Receipt → W → (String × List Fault) × W
  publish_to none value w = (("", publication_unavailable ∷ []), w)
  publish_to (some publish) value w =
      let (publication, after) = publish value w in
      ((path_of publication, publication_faults publication), after)

  module _ (a : Applier W) where
    unfoldable pub execute : Plan → Bool → W → (Result × Option String) × W
    execute plan dry w = run_executor a.executor plan dry w

    unfoldable pub publish : Receipt → W → (String × List Fault) × W
    publish value w = publish_to a.store value w

    abbrev pub executed_receipt : Receipt → Result → Option String → Receipt
    executed_receipt value result error =
        set_execution_status
          (record value { steps = map_outcomes result.outcomes value.started_at value.finished_at })
          result error

    abbrev pub refused_receipt : Receipt → Plan → String → Receipt
    refused_receipt value plan code = record (mark_failure value code) {
      steps = blocked_steps plan value.started_at value.finished_at code;
    }

    abbrev pub finish_apply : Receipt → List NetworkGroup → String → List Fault → Applied
    finish_apply value groups path faults =
        applied (record { receipt = value; receipt_path = path; network_groups = groups }) faults

    unfoldable pub apply_dry : Receipt → Plan → List NetworkGroup → W → Applied × W
    apply_dry value plan groups w =
        let ((result, error), executed) = execute plan true w in
        let receipt = executed_receipt value result error in
        let ((path, faults), after) = publish receipt executed in
        (finish_apply receipt groups path (faults ++ option_fault execution error), after)

    unfoldable pub apply_refused :
        Receipt → Plan → List NetworkGroup → String → Fault → W → Applied × W
    apply_refused value plan groups code fault w =
        let receipt = refused_receipt value plan code in
        let ((path, faults), after) = publish receipt w in
        (finish_apply receipt groups path (fault ∷ faults), after)

    unfoldable pub apply_locked : Receipt → Plan → List NetworkGroup → W → Applied × W
    apply_locked value plan groups w =
        let ((result, error), executed) = execute plan false w in
        let receipt = executed_receipt value result error in
        let ((path, faults), stored) = publish receipt executed in
        let (release_error, after) = a.release stored in
        (
          finish_apply receipt groups path
              (faults ++ option_fault unreleased release_error ++ option_fault execution error),
          after,
        )

    abbrev pub with_lock : Receipt → Plan → List NetworkGroup → LockReply × W → Applied × W
    with_lock value plan groups (locked, w) = apply_locked value plan groups w
    with_lock value plan groups (contended, w) =
        apply_refused value plan groups "lock-contention" lock_contended w
    with_lock value plan groups (refused, w) =
        apply_refused value plan groups "lock-failed" lock_refused w

    -- The receipt before execution.
    abbrev pub prepare : Receipt → Bool → String → List NetworkGroup → Receipt
    prepare envelope dry digest groups = record envelope {
      dry_run = dry;
      digest = digest;
      network_required = network_operations groups;
      steps = [];
    }

    unfoldable pub apply_plan : Bool → Receipt → Plan → String → W → Applied × W
    apply_plan dry envelope plan digest w =
        let groups = network_groups plan in
        let value = prepare envelope dry digest groups in
        if dry then apply_dry value plan groups w else with_lock value plan groups (a.lock w)

    abbrev pub with_plan : Bool → Receipt → Option (Plan × String) → W → Applied × W
    with_plan dry envelope none w = (invalid_plan, w)
    with_plan dry envelope (some (plan, digest)) w = apply_plan dry envelope plan digest w

    abbrev pub with_envelope : Bool → Plan → Option Receipt → W → Applied × W
    with_envelope dry plan none w = (invalid_envelope, w)
    with_envelope dry plan (some envelope) w = with_plan dry envelope (a.clone_plan plan) w

    unfoldable pub apply : Receipt → Plan → Bool → W → Applied × W
    apply envelope plan dry w = with_envelope dry plan (a.clone_envelope envelope) w
