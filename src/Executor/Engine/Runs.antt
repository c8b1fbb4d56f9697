-- ===== src/Executor/Engine/Runs.antt =====
-- What `Execute` reports after a whole plan, finished or broken off.
use mathlib.Core.List.{append-nil, append_assoc}
use alex_cachyos.Prelude.{
  ◌≡◌, ◌≢◌, refl, String, Bool, true, false, not, ◌&&◌, Option, none, some, is_some, List, [], ◌∷◌,
  ◌++◌, map, all, All, arith,
}
use alex_cachyos.Planner.Types.{Step}
use alex_cachyos.Executor.Types.{OutcomeName, ExecError, Outcome, Result, JsonLibrary, Ports}
use alex_cachyos.Executor.Engine.{Reply, stop, next, error_code, visit, run, execute}
use alex_cachyos.Executor.Engine.Steps.{
  Agrees, is_quiet, claims_state, IsSound, visit-IsSound, visit-stop_id,
}

abbrev pub ids : List Step → List String
ids = map (λ step. step.id)

abbrev pub outcome_ids : List Outcome → List String
outcome_ids = map (λ o. o.step_id)

abbrev failed_outcome : Outcome → String → Outcome
failed_outcome o code = record o {
  outcome = OutcomeName.failed;
  no_change = false;
  error_code = code;
}

-- Where the loop broke off: the steps before, the failed one, and those left alone.
pub record BrokeAt (steps : List Step) (os : List Outcome) (err : ExecError) : Type 0 where
  pub before : List Step
  pub at : Step
  pub left : List Step
  pub done : List Outcome
  pub last : Outcome
  pub steps_split : steps ≡ before ++ at ∷ left
  pub outcomes_split : os ≡ done ++ last ∷ []
  pub done_ids : outcome_ids done ≡ ids before
  pub last_id : last.step_id ≡ at.id
  pub last_failed : last.outcome ≡ OutcomeName.failed
  pub last_code : last.error_code ≡ error_code err
  pub none_failed : All (λ o. o.outcome ≢ OutcomeName.failed) done

module _ (json : JsonLibrary) {W : Type 0} (ports : Ports W) (dry : Bool) where
  -- The loop without its accumulator.
  trail : List Step → W → List Outcome × Bool × Option ExecError × W
  trail [] w = ([], true, none, w)
  trail (step ∷ steps) w = elim (visit json ports dry step w) [
    | stop o err w' ↦ (failed_outcome o (error_code err) ∷ [], false, some err, w')
    | next (o, kept) w' ↦ let rest = trail steps w' in (o ∷ rest.0, kept && rest.1, rest.2, rest.3)
  ]

  run-trail :
      (steps : List Step) (r : Result) (w : W)
      → run json ports dry r steps w ≡ (
        record {
          outcomes = r.outcomes ++ (trail steps w).0;
          no_change = r.no_change && (trail steps w).1;
        },
        (trail steps w).2,
        (trail steps w).3,
      )
  unfolding run trail
  run-trail [] r w = simp append-nil (ground arith)
  run-trail (step ∷ steps) r w =
      grind (arith, λ (q : Result) (v : W). run-trail steps q v, append_assoc {0})

  -- A run of the loop: the steps, their outcomes, whether nothing changed, and the error.
  data Trace : List Step → List Outcome → Bool → Option ExecError → Type 0 where
    finished : Trace [] [] true none
    broke :
        {step : Step} {rest : List Step} {err : ExecError} (o : Outcome)
        → o.step_id ≡ step.id
        → Trace (step ∷ rest) (failed_outcome o (error_code err) ∷ []) false (some err)
    went_on :
        {step : Step} {rest : List Step} {o : Outcome} {os : List Outcome} {kept others : Bool}
        {e : Option ExecError}
        → IsSound json dry step o kept
        → Trace rest os others e
        → Trace (step ∷ rest) (o ∷ os) (kept && others) e

  trail-Trace :
      (steps : List Step) (w : W)
      → Trace steps (trail steps w).0 (trail steps w).1 (trail steps w).2
  unfolding trail
  trail-Trace [] w = finished
  trail-Trace (step ∷ steps) w = go (trail-Trace steps) (visit json ports dry step w) refl
    where
      go :
          ((v : W) → Trace steps (trail steps v).0 (trail steps v).1 (trail steps v).2)
          → (r : Reply W (Outcome × Bool)) → visit json ports dry step w ≡ r
          → Trace
              (step ∷ steps)
              (trail (step ∷ steps) w).0
              (trail (step ∷ steps) w).1
              (trail (step ∷ steps) w).2
      go rest (stop o err v) e = rw (e, trail) (broke o (visit-stop_id json ports dry step w v e))
      go rest (next (o, kept) v) e =
          rw (e, trail) (went_on (visit-IsSound json ports dry step w v e) (rest v))

  Trace-Agrees :
      {steps : List Step} {os : List Outcome} {k : Bool} {e : Option ExecError}
      → Trace steps os k e
      → All (λ o. claims_state o.outcome ≡ true → Agrees json o) os
  Trace-Agrees finished = tt
  Trace-Agrees (broke o h) = ((λ p. cc), tt)
  Trace-Agrees (went_on s t) = (s.agrees, Trace-Agrees t)

  Trace-quiet :
      {steps : List Step} {os : List Outcome} {k : Bool} {e : Option ExecError}
      → Trace steps os k e
      → k ≡ (all (λ o. is_quiet o.outcome) os && not (is_some e))
  Trace-quiet finished = refl
  Trace-quiet (broke o h) = refl
  Trace-quiet (went_on s t) = ground (arith, s.quiet, Trace-quiet t)

  -- No error: an outcome for each step, none of them failed.
  Trace-complete :
      {steps : List Step} {os : List Outcome} {k : Bool} {e : Option ExecError}
      → Trace steps os k e
      → e ≡ none
      → (outcome_ids os ≡ ids steps) × All (λ o. o.outcome ≢ OutcomeName.failed) os
  Trace-complete finished h = (refl, tt)
  Trace-complete (broke o g) h = cc
  Trace-complete (went_on s t) h =
      let (same, rest) = Trace-complete t h in (cc (s.same_id, same), (s.not_failed, rest))

  Trace-BrokeAt :
      {steps : List Step} {os : List Outcome} {k : Bool} {e : Option ExecError} {err : ExecError}
      → Trace steps os k e
      → e ≡ some err
      → BrokeAt steps os err
  Trace-BrokeAt finished h = cc
  Trace-BrokeAt (broke {step} {rest} o same) h = record {
    before = [];
    at = step;
    left = rest;
    done = [];
    last = _;
    steps_split = refl;
    outcomes_split = refl;
    done_ids = refl;
    last_id = same;
    last_failed = refl;
    last_code = ground arith;
    none_failed = tt;
  }
  Trace-BrokeAt (went_on {step} {o} s t) h =
      let b = Trace-BrokeAt t h in
      record {
        before = step ∷ b.before;
        at = b.at;
        left = b.left;
        done = o ∷ b.done;
        last = b.last;
        steps_split = cc b.steps_split;
        outcomes_split = cc b.outcomes_split;
        done_ids = cc (s.same_id, b.done_ids);
        last_id = b.last_id;
        last_failed = b.last_failed;
        last_code = b.last_code;
        none_failed = (s.not_failed, b.none_failed);
      }

module _ (json : JsonLibrary) {W : Type 0} (ports : Ports W) (dry : Bool) (steps : List Step)
    (w : W) where
  execute-trail : execute json ports dry steps w ≡ (
    record {
      outcomes = (trail json ports dry steps w).0;
      no_change = (trail json ports dry steps w).1;
    },
    (trail json ports dry steps w).2,
    (trail json ports dry steps w).3,
  )
  unfolding execute
  execute-trail = run-trail json ports dry steps (record { outcomes = []; no_change = true }) w

  -- Every outcome that reports a step as satisfied or applied holds an observation that
  -- `EqualJSON` finds equal to the step's desired value, also when the run breaks off later.
  pub execute-Agrees :
      All
        (λ o. claims_state o.outcome ≡ true → Agrees json o)
        (execute json ports dry steps w).0.outcomes
  execute-Agrees =
      rw execute-trail (Trace-Agrees json ports dry (trail-Trace json ports dry steps w))

  -- `NoChange` is reported exactly when there is no error and every outcome is satisfied or
  -- blocked.
  execute-no_change : (execute json ports dry steps w).0.no_change ≡ (
      all (λ o. is_quiet o.outcome) (execute json ports dry steps w).0.outcomes
      && not (is_some (execute json ports dry steps w).1))
  execute-no_change =
      rw execute-trail (Trace-quiet json ports dry (trail-Trace json ports dry steps w))

  -- Without an error there is one outcome for each step, in the plan's order, and none is failed.
  pub execute_complete :
      (execute json ports dry steps w).1 ≡ none
      → (outcome_ids (execute json ports dry steps w).0.outcomes ≡ ids steps)
        × All (λ o. o.outcome ≢ OutcomeName.failed) (execute json ports dry steps w).0.outcomes
  execute_complete =
      rw execute-trail (Trace-complete json ports dry (trail-Trace json ports dry steps w))

  -- With an error the outcomes are those of the steps before some step, in order and none failed,
  -- and one failed outcome for that step with the error's code; the later steps have none.
  pub execute-BrokeAt :
      {err : ExecError}
      → (execute json ports dry steps w).1 ≡ some err
      → BrokeAt steps (execute json ports dry steps w).0.outcomes err
  execute-BrokeAt h =
      rw execute-trail
        (Trace-BrokeAt json ports dry (trail-Trace json ports dry steps w) (rw execute-trail at h))
