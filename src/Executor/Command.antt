-- ===== src/Executor/Command.antt =====
-- internal/executor/command.go: the mutator that maps a step to one validated command.
pub mod Running
pub mod Registry
use alex_cachyos.Prelude.{
  ℕ, zero, String, Bool, true, false, ◌&&◌, ◌||◌, not, List, [], ◌∷◌, Option, none, some, Map,
  lookup, insert, ◌==◌, is_some, if◌then◌else◌,
}
use alex_cachyos.Planner.Types.{Step}
use alex_cachyos.Runner.Request.{
  ExitCode, CommandRequest, CommandResult, Field, Verdict, valid, invalid, validate_command_request,
}
use alex_cachyos.Runner.Ports.{RunReply, ran, failed, Runner, RunError}

pub data CommandError : Type 0 where
  runner_is_nil duplicate_operation : CommandError
  invalid_in_registry : Field → String → CommandError
  command_unavailable metadata_mismatch network_port_required : CommandError
  not_authorized : String → CommandError
  execution_failed : RunError → CommandError
  nonzero_exit : CommandError

-- `NetworkPort.Authorize`: nil or an error's text.
abbrev pub NetworkPort : Type 0 → Type 0
NetworkPort W = CommandRequest → W → Option String × W

pub record CommandMutator (W : Type 0) : Type 0 where
  pub runner : Runner W
  pub requests : Map CommandRequest
  pub network : Option (NetworkPort W)

pub data Made (A : Type 0) : Type 0 where
  made : A → Made A
  refused : CommandError → Made A

abbrev pub and_then : {A B : Type 0} → Made A → (A → Made B) → Made B
and_then (made a) f = f a
and_then (refused err) f = refused err

-- A request of the loop: refused, or put under its operation.
unfoldable pub admit : Verdict → CommandRequest → Map CommandRequest → Made (Map CommandRequest)
admit (invalid field reason) request registry = refused (invalid_in_registry field reason)
admit valid request registry =
    if is_some (lookup request.operation registry)
    then refused duplicate_operation
    else made (insert request.operation request registry)

module _ (fold : ℕ → ℕ) where
  -- The loop of `NewCommandMutator`, with `needsNetwork` beside the registry.
  unfoldable pub register :
      Map CommandRequest → Bool → List CommandRequest → Made (Map CommandRequest × Bool)
  register registry needs [] = made (registry, needs)
  register registry needs (request ∷ requests) =
      and_then (admit (validate_command_request fold request) request registry)
        λ more. register more (needs || request.network == "required") requests

  module _ {W : Type 0} where
    with_network :
        Runner W → Option (NetworkPort W) → Map CommandRequest × Bool → Made (CommandMutator W)
    with_network runner network (registry, needs) =
        if needs && not (is_some network)
        then refused network_port_required
        else made (record { runner = runner; requests = registry; network = network })

    -- `NewCommandMutator`; a runner that is nil is `none`.
    unfoldable pub new_command_mutator :
        Option (Runner W) → List CommandRequest → Option (NetworkPort W) → Made (CommandMutator W)
    unfolding with_network
    new_command_mutator none requests network = refused runner_is_nil
    new_command_mutator (some runner) requests network =
        and_then (register [] false requests) (with_network runner network)

is_zero : ExitCode → Bool
is_zero (ExitCode.exited zero) = true
is_zero _ = false

-- The error that a reply of the runner stands for.
reply_error : RunReply → Option CommandError
unfolding is_zero
reply_error (failed err) = some (execution_failed err)
reply_error (ran result) = if is_zero result.exit_code then none else some nonzero_exit

abbrev pub same_metadata : Step → CommandRequest → Bool
same_metadata step request = step.scope == request.scope && step.network == request.network

module _ {W : Type 0} where
  pub run_request : Runner W → CommandRequest → W → Option CommandError × W
  unfolding reply_error
  run_request runner request w = let (reply, w') = runner request w in (reply_error reply, w')

  authorized : Option String → Runner W → CommandRequest → W → Option CommandError × W
  unfolding run_request
  authorized (some text) runner request w = (some (not_authorized text), w)
  authorized none runner request w = run_request runner request w

  pub authorize : Option (NetworkPort W) → Runner W → CommandRequest → W → Option CommandError × W
  unfolding authorized
  authorize none runner request w = (some network_port_required, w)
  authorize (some network) runner request w =
      let (answer, w') = network request w in authorized answer runner request w'

  dispatch : Option CommandRequest → CommandMutator W → Step → W → Option CommandError × W
  unfolding authorize run_request
  dispatch none m step w = (some command_unavailable, w)
  dispatch (some request) m step w =
      if not (same_metadata step request)
      then (some metadata_mismatch, w)
      else if request.network == "required"
      then authorize m.network m.runner request w
      else run_request m.runner request w

  -- `(*CommandMutator).Mutate` of a mutator that `NewCommandMutator` made, whose runner is not nil.
  unfoldable pub mutate : CommandMutator W → Step → W → Option CommandError × W
  unfolding dispatch
  mutate m step w = dispatch (lookup step.id m.requests) m step w
