-- ===== src/Executor/Examples.antt =====
-- The executor and its command mutator on concrete plans.
use alex_cachyos.Prelude.{
  ℕ, zero, ◌+◌, ◌≡◌, ◌≢◌, refl, String, true, false, Option, none, some, List, [], ◌∷◌, All, ◌==◌,
  if◌then◌else◌, eq_iff, arith, same, lookup, insert, ltb, subst,
}
use alex_cachyos.Planner.Types.{JsonValue, Disposition, Step, scope_user, network_none}
use alex_cachyos.Executor.Types.{
  OutcomeName, ExecError, step_error, Stage, ErrorClass, Cause, Decoded, JsonLibrary, Observation,
  Ports,
}
use alex_cachyos.Executor.Engine.{
  equal_json, parse_single_json, compare_at, observe, confirm, settle, pending_step, converge,
  visit, run, fail, extend, execute,
}
use alex_cachyos.Executor.Engine.Steps.{Agrees, claims_state}
use alex_cachyos.Executor.Engine.Runs.{
  BrokeAt, ids, outcome_ids, execute-Agrees, execute_complete, execute-BrokeAt,
}
use alex_cachyos.Executor.Engine.DryRun.{execute_dry, with_mutator}
use alex_cachyos.Executor.Engine.Convergence.{
  HaveDistinctIds, IsQuietRun, looking, looking_ports, execute_converged, execute_twice,
}
use alex_cachyos.Runner.Request.{CommandRequest, ExitCode}
use alex_cachyos.Runner.Ports.{Runner, ran}
use alex_cachyos.Runner.Examples.{fold, request, request-valid}
use alex_cachyos.Executor.Command.{
  NetworkPort, CommandMutator, made, admit, register, new_command_mutator, mutate,
}
use alex_cachyos.Executor.Command.Registry.{IsAllowed, mutate-IsAllowed, mutate_keeps}
use alex_cachyos.Executor.Command.Running.{IsRun, IsStart}

-- A decoder of one-byte values that takes 0 for a syntax error.
abbrev decode : JsonValue → Decoded ℕ
decode [] = Decoded.eof
decode (zero ∷ rest) = Decoded.syntax_error
decode (byte ∷ rest) = Decoded.value byte rest

abbrev json : JsonLibrary
json = record { Value = ℕ; decode = decode; deep_equal = λ a b. same (a ∷ []) (b ∷ []) }

-- A machine with a state for each step.
abbrev Machine : Type 0
Machine = String → JsonValue

abbrev look : String → Machine → Observation
look id w = Observation.seen (w id)

abbrev update : Step → Machine → Option String × Machine
update step w = (none, λ id. if step.id == id then step.desired else w id)

abbrev new_machine : Machine
new_machine id = 1 ∷ []

abbrev step_named : String → JsonValue → Step
step_named id desired = record {
  id = id;
  module_name = "apps";
  depends_on = [];
  description = "";
  scope = scope_user;
  network = network_none;
  operation = "write";
  disposition = Disposition.satisfied;
  desired = desired;
  observed = [];
  inverse = none;
}

-- The first step changes its state, the second finds it as desired.
abbrev steps : List Step
steps = step_named "config" (2 ∷ []) ∷ step_named "theme" (1 ∷ []) ∷ []

abbrev ports : Ports Machine
ports = looking_ports json look (some update)

update_apart :
    (step : Step) (w : Machine) (id : String) → id ≢ step.id → look id (update step w).1 ≡ look id w
update_apart step w id h = ground (arith, eq_iff step.id id, h)

abbrev config : String
config = "config"

abbrev theme : String
theme = "theme"

different : config ≢ theme
different e = ground (arith, eq_iff config theme, e)

steps-HaveDistinctIds : HaveDistinctIds steps
steps-HaveDistinctIds = ((different, tt), (tt, tt))

runs-fine : (execute json ports false steps new_machine).1 ≡ none
unfolding execute run visit converge observe compare_at equal_json parse_single_json confirm settle
    pending_step fail extend same
runs-fine = refl

execute_twice_example :
    let w' = (execute json ports false steps new_machine).2 in
    IsQuietRun json look (some update) false w' (execute json ports false steps w')
execute_twice_example =
    execute_twice json look update update_apart steps new_machine (refl, (refl, tt))
      steps-HaveDistinctIds runs-fine

execute_converged_example : IsQuietRun json look none true new_machine (
    execute json (looking_ports json look none) true (step_named "theme" (1 ∷ []) ∷ []) new_machine)
unfolding equal_json parse_single_json same
execute_converged_example =
    execute_converged json look none true (step_named "theme" (1 ∷ []) ∷ []) new_machine
      ((refl, refl), tt)

execute-Agrees_example :
    All
      (λ o. claims_state o.outcome ≡ true → Agrees json o)
      (execute json ports false steps new_machine).0.outcomes
execute-Agrees_example = execute-Agrees json ports false steps new_machine

execute_complete_example :
    (outcome_ids (execute json ports false steps new_machine).0.outcomes ≡ ids steps)
    × All
        (λ o. o.outcome ≢ OutcomeName.failed)
        (execute json ports false steps new_machine).0.outcomes
execute_complete_example = execute_complete json ports false steps new_machine runs-fine

-- A mutator that reaches nothing.
abbrev idle : Step → Machine → Option String × Machine
idle step w = (none, w)

abbrev idle_error : ExecError
idle_error = step_error "config" Stage.postcondition ErrorClass.postcondition Cause.json_mismatch

runs-idle :
    (execute json (looking_ports json look (some idle)) false steps new_machine).1 ≡ some idle_error
unfolding execute run visit converge observe compare_at equal_json parse_single_json confirm settle
    pending_step fail extend same
runs-idle = refl

execute-BrokeAt_example :
    BrokeAt steps
      (execute json (looking_ports json look (some idle)) false steps new_machine).0.outcomes
      idle_error
execute-BrokeAt_example =
    execute-BrokeAt json (looking_ports json look (some idle)) false steps new_machine runs-idle

execute_dry_example :
    execute json (with_mutator (looking json look) (some update)) true steps new_machine
    ≡ execute json (with_mutator (looking json look) none) true steps new_machine
execute_dry_example = execute_dry json (looking json look) (some update) none steps new_machine

-- A runner that counts its commands, and a network that is there.
abbrev counting : Runner ℕ
counting r w = (ran (record { stdout = []; stderr = []; exit_code = ExitCode.exited 0 }), w + 1)

abbrev online : NetworkPort ℕ
online r w = (none, w)

abbrev mutator : CommandMutator ℕ
mutator = record { runner = counting; requests = ("update", request) ∷ []; network = some online }

mutator-made : new_command_mutator fold (some counting) (request ∷ []) (some online) ≡ made mutator
unfolding new_command_mutator register admit lookup insert
mutator-made = rw request-valid refl

abbrev update_step : Step
update_step = record (step_named "update" (2 ∷ [])) { scope = "system"; network = "required" }

mutate-runs : (mutate mutator update_step 0).0 ≡ none
unfolding mutate lookup
mutate-runs = refl

mutate-IsAllowed_example :
    (r : CommandRequest) × (lookup "update" mutator.requests ≡ some r)
    × IsAllowed fold update_step r
    × IsRun counting r (IsStart (some online) r 0) 1
unfolding mutate lookup
mutate-IsAllowed_example =
    mutate-IsAllowed fold (some counting) (request ∷ []) (some online) mutator-made update_step 0
      mutate-runs

abbrev port_of : Option (NetworkPort ℕ) → NetworkPort ℕ
port_of none = online
port_of (some port) = port

-- Some command has run.
abbrev IsStarted : ℕ → Type 0
IsStarted w = ltb 0 w ≡ true

counting-IsStarted : (r : CommandRequest) (w : ℕ) → IsStarted w → IsStarted (counting r w).1
counting-IsStarted r w h = ground (arith, h)

online-IsStarted :
    (port : NetworkPort ℕ) (r : CommandRequest) (w : ℕ)
    → mutator.network ≡ some port
    → IsStarted w
    → IsStarted (port r w).1
online-IsStarted port r w e h = subst (λ p. IsStarted (port_of p r w).1) e h

mutate_keeps_example : IsStarted (mutate mutator update_step 1).1
mutate_keeps_example =
    mutate_keeps fold (some counting) (request ∷ []) (some online) mutator-made update_step 1
      IsStarted (λ r w allowed h. counting-IsStarted r w h)
      (λ port r w e h. online-IsStarted port r w e h) refl
