-- ===== src/Executor/Engine.antt =====
-- `(*Executor).Execute` of internal/executor/executor.go and `EqualJSON` of jsonvalue.go.
pub mod Steps
pub mod Runs
pub mod DryRun
pub mod Convergence
use alex_cachyos.Prelude.{
  String, Bool, true, false, ◌&&◌, List, [], ◌∷◌, ◌++◌, Option, none, some, ◌⊎◌, inl, inr,
  if◌then◌else◌,
}
use alex_cachyos.Planner.Types.{JsonValue, Disposition, Step}
use alex_cachyos.Planner.Types as P
use alex_cachyos.Executor.Types.{
  OutcomeName, unset, applied, projected, failed, Stage, ErrorClass, Port, stage_text, port_text,
  Side, FailureKind, Comparison, Cause, ExecError, step_error, missing_port, Outcome, Result,
  Decoded, JsonLibrary, Observation, Ports,
}

-- The loop's body ends by an error, which `fail` records, or gives a value to go on with.
pub data Reply (W A : Type 0) : Type 0 where
  stop : Outcome → ExecError → W → Reply W A
  next : A → W → Reply W A

abbrev pub Action : Type 0 → Type 0 → Type 0
Action W A = W → Reply W A

abbrev pub resume : {W A B : Type 0} → Reply W A → (A → Action W B) → Reply W B
resume (stop outcome err w) f = stop outcome err w
resume (next a w) f = f a w

infixl 5 ◌>>=◌
abbrev pub ◌>>=◌ : {W A B : Type 0} → Action W A → (A → Action W B) → Action W B
◌>>=◌ m f w = resume (m w) f

abbrev pub pure : {W A : Type 0} → A → Action W A
pure a w = next a w

abbrev pub new_outcome : Step → Outcome
new_outcome step = record {
  step = step;
  step_id = step.id;
  module_name = step.module_name;
  outcome = unset;
  disposition = step.disposition;
  desired = step.desired;
  observed = step.observed;
  no_change = false;
  projected = false;
  error_code = "";
}

abbrev pub set_observed : Outcome → JsonValue → Outcome
set_observed outcome observed = record outcome {
  observed = observed;
  step = record outcome.step { observed = observed };
}

abbrev pub error_code : ExecError → String
error_code (step_error id stage class cause) = stage_text stage
error_code (missing_port id port) = port_text port

unfoldable pub fail : Result → Outcome → ExecError → Result
fail result outcome err = record {
  outcomes =
      result.outcomes
      ++ record outcome { outcome = failed; no_change = false; error_code = error_code err } ∷ [];
  no_change = false;
}

unfoldable pub extend : Result → Outcome → Bool → Result
extend result outcome kept = record {
  outcomes = result.outcomes ++ outcome ∷ [];
  no_change = if kept then result.no_change else false;
}

module _ (json : JsonLibrary) where
  open json use {Value, decode, deep_equal}

  -- What stands behind the first value decides whether it is the only one.
  single : Decoded Value → Value → Value ⊎ FailureKind
  single Decoded.eof v = inl v
  single _ v = inr FailureKind.trailing

  parse_from : Decoded Value → Value ⊎ FailureKind
  unfolding single
  parse_from Decoded.eof = inr FailureKind.empty
  parse_from Decoded.syntax_error = inr FailureKind.malformed
  parse_from (Decoded.value v rest) = single (decode rest) v

  unfoldable pub parse_single_json : JsonValue → Value ⊎ FailureKind
  unfolding parse_from
  parse_single_json bytes = parse_from (decode bytes)

  compare_values : Value ⊎ FailureKind → Value ⊎ FailureKind → Comparison
  compare_values (inr kind) _ = Comparison.invalid Side.observed kind
  compare_values (inl _) (inr kind) = Comparison.invalid Side.desired kind
  compare_values (inl a) (inl b) = if deep_equal a b then Comparison.equal else Comparison.mismatch

  unfoldable pub equal_json : JsonValue → JsonValue → Comparison
  unfolding parse_single_json compare_values
  equal_json observed desired =
      compare_values (parse_single_json observed) (parse_single_json desired)

  -- `compare`: a mismatch is an answer, invalid JSON on either side an error of the stage.
  compare_class : Stage → ErrorClass
  compare_class Stage.postcondition = ErrorClass.postcondition
  compare_class _ = ErrorClass.comparison

  compare_result : {W : Type 0} → Comparison → Outcome → String → Stage → Action W Bool
  unfolding compare_class
  compare_result Comparison.equal outcome id stage = pure true
  compare_result Comparison.mismatch outcome id stage = pure false
  compare_result (Comparison.invalid side kind) outcome id stage =
      stop outcome (step_error id stage (compare_class stage) (Cause.comparison_error side kind))

  unfoldable pub compare_at :
      {W : Type 0} → Outcome → String → Stage → JsonValue → JsonValue → Action W Bool
  unfolding compare_result
  compare_at outcome id stage observed desired =
      compare_result (equal_json observed desired) outcome id stage

  module _ {W : Type 0} (obs : Step → W → Observation × W) where
    -- A call of the observer, with the stage that its error belongs to.
    read : Observation → Outcome → String → Stage → Action W JsonValue
    read (Observation.seen bytes) outcome id stage = pure bytes
    read (Observation.unseen err) outcome id stage =
        stop outcome (step_error id stage ErrorClass.observer (Cause.port_error err))

    unfoldable pub observe : Outcome → Stage → Step → Action W JsonValue
    unfolding read
    observe outcome stage step w =
        let (answer, w') = obs step w in read answer outcome step.id stage w'

    -- A mismatch is observed once more before the step counts as unequal.
    unfoldable pub confirm : Step → JsonValue → Bool → Action W (JsonValue × Bool)
    unfolding observe compare_at
    confirm step first true = pure (first, true)
    confirm step first false = do
      let seen_first = set_observed (new_outcome step) first
      second ← observe seen_first Stage.reobserve (record step { observed = first })
      let seen_second = set_observed seen_first second
      equal ← compare_at seen_second step.id Stage.compare second step.desired
      pure (second, equal)

    -- The step with the disposition that the loop gives it when its state differs.
    raise_disposition : Disposition → Disposition
    raise_disposition Disposition.satisfied = Disposition.apply
    raise_disposition d = d

    unfoldable pub pending_step : Step → JsonValue → Step
    unfolding raise_disposition
    pending_step step last = record step {
      disposition = raise_disposition step.disposition;
      observed = last;
    }

    check_post : Outcome → String → Bool → Action W Outcome
    check_post outcome id true = pure outcome
    check_post outcome id false =
        stop outcome
          (step_error id Stage.postcondition ErrorClass.postcondition Cause.json_mismatch)

    -- The mutator's error, or the observation behind it and the postcondition.
    after_mutate : Option String → Step → Action W Outcome
    unfolding observe compare_at check_post
    after_mutate (some err) step =
        stop (new_outcome step)
          (step_error step.id Stage.apply ErrorClass.mutator (Cause.port_error err))
    after_mutate none step = do
      post ← observe (new_outcome step) Stage.post_observe step
      let outcome = set_observed (new_outcome step) post
      equal ← compare_at outcome step.id Stage.postcondition post step.desired
      check_post outcome step.id equal

    mutate : Option (Step → W → Option String × W) → Step → Action W Outcome
    unfolding after_mutate
    mutate none step w = stop (new_outcome step) (missing_port step.id Port.mutator) w
    mutate (some mut) step w = let (answer, w') = mut step w in after_mutate answer step w'

    -- The outcome, and whether the result may keep its `NoChange`.
    unfoldable pub settle :
        Bool
        → Option (Step → W → Option String × W)
        → Step
        → JsonValue × Bool
        → Action W (Outcome × Bool)
    unfolding mutate pending_step
    settle dry mut step (last, true) =
        let settled = new_outcome (record step { disposition = Disposition.satisfied }) in
        pure (
          record (set_observed settled last) { outcome = OutcomeName.satisfied; no_change = true },
          true,
        )
    settle true mut step (last, false) = pure (
      record (new_outcome (pending_step step last)) { outcome = projected; projected = true },
      false,
    )
    settle false mut step (last, false) = do
      outcome ← mutate mut (pending_step step last)
      pure (record outcome { outcome = applied }, false)

    -- The body of the loop for a step that is neither blocked nor of an unknown disposition.
    unfoldable pub converge :
        Bool → Option (Step → W → Option String × W) → Step → Action W (Outcome × Bool)
    unfolding observe compare_at confirm settle
    converge dry mut step = do
      first ← observe (new_outcome step) Stage.observe step
      let seen_first = set_observed (new_outcome step) first
      equal ← compare_at seen_first step.id Stage.compare first step.desired
      state ← confirm step first equal
      settle dry mut step state

  module _ {W : Type 0} (ports : Ports W) where
    with_observer : Option (Step → W → Observation × W) → Bool → Step → Action W (Outcome × Bool)
    unfolding converge
    with_observer none dry step = stop (new_outcome step) (missing_port step.id Port.observer)
    with_observer (some obs) dry step = converge obs dry ports.mutator step

    visit_as : Disposition → Bool → Step → Action W (Outcome × Bool)
    unfolding with_observer
    visit_as Disposition.blocked dry step =
        pure (
          record (new_outcome step) { outcome = OutcomeName.blocked; error_code = "blocked" },
          true,
        )
    visit_as (Disposition.other text) dry step =
        stop (new_outcome step) (
          step_error step.id Stage.disposition ErrorClass.disposition Cause.unsupported_disposition)
    visit_as _ dry step = with_observer ports.observer dry step

    -- One round of the loop in `Execute`.
    unfoldable pub visit : Bool → Step → Action W (Outcome × Bool)
    unfolding visit_as
    visit dry step = visit_as step.disposition dry step

    unfoldable pub run : Bool → Result → List Step → W → Result × Option ExecError × W
    unfolding fail extend
    run dry result [] w = (result, none, w)
    run dry result (step ∷ steps) w = elim (visit dry step w) [
      | stop outcome err w' ↦ (fail result outcome err, some err, w')
      | next (outcome, kept) w' ↦ run dry (extend result outcome kept) steps w'
    ]

    unfoldable pub execute : Bool → List Step → W → Result × Option ExecError × W
    unfolding run
    execute dry steps = run dry (record { outcomes = []; no_change = true }) steps
