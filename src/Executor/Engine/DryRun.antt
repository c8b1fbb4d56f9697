-- ===== src/Executor/Engine/DryRun.antt =====
-- A dry run, and a machine that already has the desired state.
use mathlib.Core.Path.{fun_ext}
use alex_cachyos.Prelude.{◌≡◌, refl, String, Bool, true, false, Option, List, [], ◌∷◌, arith}
use alex_cachyos.Planner.Types.{JsonValue, Step}
use alex_cachyos.Executor.Types.{Result, JsonLibrary, Observation, Ports}
use alex_cachyos.Executor.Engine.{settle, visit, run, execute}

-- The ports with the given observer and mutator.
abbrev pub with_mutator :
    {W : Type 0}
    → Option (Step → W → Observation × W)
    → Option (Step → W → Option String × W)
    → Ports W
with_mutator obs mut = record { observer = obs; mutator = mut }

module _ (json : JsonLibrary) {W : Type 0} (obs : Option (Step → W → Observation × W))
    (mut mut' : Option (Step → W → Option String × W)) where
  settle_dry :
      (ob : Step → W → Observation × W) (step : Step) (state : JsonValue × Bool)
      → settle json ob true mut step state ≡ settle json ob true mut' step state
  unfolding settle
  settle_dry ob step (last, true) = refl
  settle_dry ob step (last, false) = refl

  visit_dry :
      (step : Step)
      → visit json (with_mutator obs mut) true step ≡ visit json (with_mutator obs mut') true step
  unfolding visit
  visit_dry step = fun_ext λ w. ground arith

  run_dry :
      (steps : List Step) (r : Result) (w : W)
      → run json (with_mutator obs mut) true r steps w
        ≡ run json (with_mutator obs mut') true r steps w
  unfolding run
  run_dry [] r w = refl
  run_dry (step ∷ steps) r w =
      grind (arith, visit_dry step, λ (q : Result) (v : W). run_dry steps q v)

  -- A dry run does the same whatever the mutator is, also with none: it never calls it.
  pub execute_dry :
      (steps : List Step) (w : W)
      → execute json (with_mutator obs mut) true steps w
        ≡ execute json (with_mutator obs mut') true steps w
  unfolding execute
  execute_dry steps w = run_dry steps (record { outcomes = []; no_change = true }) w
