-- ===== src/Executor/Engine/Convergence.antt =====
-- A machine that has the desired state is left alone, and a run that succeeds leads there.
use alex_cachyos.Prelude.{
  ◌≡◌, ◌≢◌, refl, sym, subst, ◌∙◌, String, Bool, true, false, Option, none, some, List, [], ◌∷◌,
  All, All-append, arith,
}
use alex_cachyos.Planner.Types.{JsonValue, Disposition, Step}
use alex_cachyos.Executor.Types.{
  OutcomeName, Comparison, ExecError, Outcome, Result, JsonLibrary, Observation, Ports,
}
use alex_cachyos.Executor.Engine.{Reply, stop, next, extend, equal_json, visit, run, execute}

abbrev pub is_runnable : Disposition → Bool
is_runnable Disposition.satisfied = true
is_runnable Disposition.apply = true
is_runnable Disposition.remove = true
is_runnable _ = false

-- No step has the identifier of a later one.
abbrev pub HaveDistinctIds : List Step → Type 0
HaveDistinctIds [] = Unit
HaveDistinctIds (step ∷ steps) = All (λ later. step.id ≢ later.id) steps × HaveDistinctIds steps

abbrev pub IsEqualAnswer : JsonLibrary → Observation → JsonValue → Type 0
IsEqualAnswer json (Observation.seen bytes) desired =
    equal_json json bytes desired ≡ Comparison.equal
IsEqualAnswer json (Observation.unseen _) desired = ⊥

abbrev IsQuietReply : {W : Type 0} → Reply W (Outcome × Bool) → W → Type 0
IsQuietReply (stop _ _ _) w = ⊥
IsQuietReply (next (o, kept) w') w = (kept ≡ true) × (o.outcome ≡ OutcomeName.satisfied) × (w' ≡ w)

module _ (json : JsonLibrary) {W : Type 0} (look : String → W → Observation) where
  -- An observer that looks and does not touch the machine.
  abbrev pub looking : Option (Step → W → Observation × W)
  looking = some (λ step w. (look step.id w, w))

  -- The step's state is the desired one, and its disposition lets the loop look.
  abbrev pub IsConverged : W → Step → Type 0
  IsConverged w step =
      (is_runnable step.disposition ≡ true) × IsEqualAnswer json (look step.id w) step.desired

  abbrev pub looking_ports : Option (Step → W → Option String × W) → Ports W
  looking_ports mut = record { observer = looking; mutator = mut }

  module _ (mut : Option (Step → W → Option String × W)) (dry : Bool) where
    visit_converged :
        (step : Step) (w : W)
        → IsConverged w step
        → IsQuietReply (visit json (looking_ports mut) dry step w) w
    unfolding visit
    visit_converged step w h = ground arith

    -- What `run` gives from a quiet result.
    abbrev pub IsQuietRun : W → Result × Option ExecError × W → Type 0
    IsQuietRun w (result, err, w') =
        (result.no_change ≡ true)
        × (err ≡ none)
        × (w' ≡ w)
        × All (λ o. o.outcome ≡ OutcomeName.satisfied) result.outcomes

    run_converged :
        (steps : List Step) (r : Result) (w : W)
        → All (IsConverged w) steps
        → r.no_change ≡ true
        → All (λ o. o.outcome ≡ OutcomeName.satisfied) r.outcomes
        → IsQuietRun w (run json (looking_ports mut) dry r steps w)
    unfolding run
    run_converged [] r w h n a = (n, refl, refl, a)
    run_converged (step ∷ steps) r w h n a =
        go (visit json (looking_ports mut) dry step w) refl (visit_converged step w h.0)
          (λ q. run_converged steps q w h.1)
      where
        go :
            (reply : Reply W (Outcome × Bool))
            → visit json (looking_ports mut) dry step w ≡ reply
            → IsQuietReply reply w
            → ((q : Result)
                → q.no_change ≡ true
                → All (λ o. o.outcome ≡ OutcomeName.satisfied) q.outcomes
                → IsQuietRun w (run json (looking_ports mut) dry q steps w))
            → IsQuietRun w (run json (looking_ports mut) dry r (step ∷ steps) w)
        go (stop _ _ _) e q rest = absurd q
        go (next (o, kept) w') e q rest =
            rw (e, run, q.0, q.2) (rest _ n (All-append _ r.outcomes (o ∷ []) a (q.1, tt)))

  -- A mutator that changes no other step's state.
  module _ (mut : Step → W → Option String × W)
      (apart : (step : Step) (w : W) (id : String)
        → id ≢ step.id
        → look id (mut step w).1 ≡ look id w) where
    abbrev ReachesState : Reply W (Outcome × Bool) → Step → Type 0
    ReachesState (stop _ _ _) step = Unit
    ReachesState (next _ w') step =
        is_runnable step.disposition ≡ true → IsEqualAnswer json (look step.id w') step.desired

    abbrev KeepsOthers : Reply W (Outcome × Bool) → Step → W → Type 0
    KeepsOthers (stop _ _ _) step w = Unit
    KeepsOthers (next _ w') step w = (id : String) → id ≢ step.id → look id w' ≡ look id w

    visit-ReachesState :
        (step : Step) (w : W)
        → ReachesState (visit json (looking_ports (some mut)) false step w) step
    unfolding visit
    visit-ReachesState step w = ground arith

    visit-KeepsOthers :
        (step : Step) (w : W)
        → KeepsOthers (visit json (looking_ports (some mut)) false step w) step w
    unfolding visit
    visit-KeepsOthers step w = grind (arith, apart)

    abbrev wet : Result → List Step → W → Result × Option ExecError × W
    wet = run json (looking_ports (some mut)) false

    run_round :
        (step : Step) (steps : List Step) (r : Result) (w : W)
        → (wet r (step ∷ steps) w).1 ≡ none
        → (o : Outcome) × (kept : Bool) × (w' : W) × (visit json
              (looking_ports (some mut))
              false
              step
              w
            ≡ next (o, kept) w')
          × (wet r (step ∷ steps) w ≡ wet (extend r o kept) steps w')
    unfolding run
    run_round step steps r w h = go (visit json (looking_ports (some mut)) false step w) refl
      where
        go :
            (reply : Reply W (Outcome × Bool))
            → visit json (looking_ports (some mut)) false step w ≡ reply
            → (o : Outcome) × (kept : Bool) × (w' : W) × (visit json
                  (looking_ports (some mut))
                  false
                  step
                  w
                ≡ next (o, kept) w')
              × (wet r (step ∷ steps) w ≡ wet (extend r o kept) steps w')
        go (stop o err w') e = absurd (cc (rw (e, run) at h))
        go (next (o, kept) w') e = (o, kept, w', e, rw (e, run))

    run-KeepsOthers :
        (steps : List Step) (r : Result) (w : W) (id : String)
        → (wet r steps w).1 ≡ none
        → All (λ step. id ≢ step.id) steps
        → look id (wet r steps w).2 ≡ look id w
    run-KeepsOthers [] r w id h fresh = unfold run in refl
    run-KeepsOthers (step ∷ steps) r w id h fresh =
        let (o, kept, w', e, same) = run_round step steps r w h in
        let keeps : KeepsOthers (next (o, kept) w') step w = rw e at (visit-KeepsOthers step w) in
        rw same
          (run-KeepsOthers steps (extend r o kept) w' id (rw same at h) fresh.1 ∙ keeps id fresh.0)

    run-IsConverged :
        (steps : List Step) (r : Result) (w : W)
        → (wet r steps w).1 ≡ none
        → All (λ step. is_runnable step.disposition ≡ true) steps
        → HaveDistinctIds steps
        → All (IsConverged (wet r steps w).2) steps
    run-IsConverged [] r w h runs distinct = tt
    run-IsConverged (step ∷ steps) r w h runs distinct =
        let (o, kept, w', e, same) = run_round step steps r w h in
        let reached : ReachesState (next (o, kept) w') step = rw e at (visit-ReachesState step w) in
        let untouched =
          run-KeepsOthers steps (extend r o kept) w' step.id (rw same at h) distinct.0 in
        subst (λ (end : Result × Option ExecError × W). All (IsConverged end.2) (step ∷ steps))
          (sym same)
          (
            (runs.0, rw untouched (reached runs.0)),
            run-IsConverged steps (extend r o kept) w' (rw same at h) runs.1 distinct.1,
          )

module _ (json : JsonLibrary) {W : Type 0} (look : String → W → Observation) where
  -- The observer only looks: it does not touch the machine, and what it sees depends on the step's
  -- identifier alone. If every step's disposition is satisfied, apply or remove (none is blocked or
  -- unsupported) and its state already equals its desired value as JSON, then a run of either kind,
  -- with or without a mutator, reports `NoChange` and no error, every outcome is satisfied, and the
  -- machine is as it was.
  pub execute_converged :
      (mut : Option (Step → W → Option String × W)) (dry : Bool) (steps : List Step) (w : W)
      → All (IsConverged json look w) steps
      → IsQuietRun json look mut dry w (execute json (looking_ports json look mut) dry steps w)
  unfolding execute
  execute_converged mut dry steps w h =
      run_converged json look mut dry steps (record { outcomes = []; no_change = true }) w h refl tt

  -- The observer only looks: it does not touch the machine, and what it sees depends on the step's
  -- identifier alone. If every step's disposition is satisfied, apply or remove (none is blocked or
  -- unsupported), the steps' identifiers differ, and no mutation touches another step's state, then a
  -- run without an error leaves the machine in a state in which a second run of the same plan changes
  -- nothing, has no error, and reports `NoChange` and every outcome as satisfied.
  pub execute_twice :
      (mut : Step → W → Option String × W)
      → ((step : Step) (w : W) (id : String) → id ≢ step.id → look id (mut step w).1 ≡ look id w)
      → (steps : List Step) (w : W) → All (λ step. is_runnable step.disposition ≡ true) steps
      → HaveDistinctIds steps
      → (execute json (looking_ports json look (some mut)) false steps w).1 ≡ none
      → let w' = (execute json (looking_ports json look (some mut)) false steps w).2 in
        IsQuietRun json look
          (some mut)
          false
          w'
          (execute json (looking_ports json look (some mut)) false steps w')
  execute_twice mut apart steps w runs distinct h =
      execute_converged (some mut) false steps _
        (unfold execute in run-IsConverged json look mut apart steps _ w h runs distinct)
