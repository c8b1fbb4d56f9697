-- ===== src/Executor/Engine/Steps.antt =====
-- What one round of the executor's loop can end with.
use alex_cachyos.Prelude.{◌≡◌, ◌≢◌, refl, String, Bool, true, false, Option, none, some, arith}
use alex_cachyos.Planner.Types.{JsonValue, Disposition, Step}
use alex_cachyos.Executor.Types.{
  OutcomeName, Comparison, ExecError, Outcome, Stage, JsonLibrary, Observation, Ports,
}
use alex_cachyos.Executor.Engine.{
  Reply, stop, next, equal_json, resume, ◌>>=◌, new_outcome, set_observed, compare_at, confirm,
  settle, converge, with_observer, visit_as, visit,
}

-- What `EqualJSON` says of the observation and the desired value that an outcome holds.
abbrev pub Agrees : JsonLibrary → Outcome → Type 0
Agrees json o = equal_json json o.observed o.desired ≡ Comparison.equal

abbrev pub is_quiet : OutcomeName → Bool
is_quiet OutcomeName.satisfied = true
is_quiet OutcomeName.blocked = true
is_quiet _ = false

abbrev pub claims_state : OutcomeName → Bool
claims_state OutcomeName.satisfied = true
claims_state OutcomeName.applied = true
claims_state _ = false

-- The facts about an outcome that the loop appends for a step and goes on from.
pub record IsSound (json : JsonLibrary) (dry : Bool) (step : Step) (o : Outcome) (kept : Bool)
    : Type 0 where
  pub same_id : o.step_id ≡ step.id
  pub same_desired : o.desired ≡ step.desired
  pub quiet : kept ≡ is_quiet o.outcome
  pub flagged : is_quiet o.outcome ≡ false → o.no_change ≡ false
  pub agrees : claims_state o.outcome ≡ true → Agrees json o
  pub not_failed : o.outcome ≢ OutcomeName.failed
  pub projected_dry : o.outcome ≡ OutcomeName.projected → dry ≡ true
  pub applied_wet : o.outcome ≡ OutcomeName.applied → dry ≡ false

module _ (json : JsonLibrary) {W : Type 0} where
  module _ (obs : Step → W → Observation × W) (step : Step) where
    compare_at_lem :
        (o : Outcome) (id : String) (stage : Stage) (a b : JsonValue) (w w' : W) {equal : Bool}
        → compare_at json o id stage a b w ≡ next equal w'
        → equal ≡ true
        → equal_json json a b ≡ Comparison.equal
    unfolding compare_at
    compare_at_lem o id stage a b w w' h e = ground arith

    confirm_lem :
        (first : JsonValue) (equal : Bool) (w w' : W) (last : JsonValue) (equal' : Bool)
        → (equal ≡ true → equal_json json first step.desired ≡ Comparison.equal)
        → confirm json obs step first equal w ≡ next (last, equal') w'
        → equal' ≡ true
        → equal_json json last step.desired ≡ Comparison.equal
    unfolding confirm
    confirm_lem first true w w' last equal' agree h e = ground arith
    confirm_lem first false w w' last equal' agree h e = ground arith

    module _ (mut : Option (Step → W → Option String × W)) (dry : Bool) where
      settle-IsSound :
          (last : JsonValue) (equal : Bool) (w : W) {w' : W} {o : Outcome} {kept : Bool}
          → (equal ≡ true → equal_json json last step.desired ≡ Comparison.equal)
          → settle json obs dry mut step (last, equal) w ≡ next (o, kept) w'
          → IsSound json dry step o kept
      unfolding settle
      settle-IsSound last equal w agree h = ground arith

      resume-confirm :
          (first : JsonValue) (equal : Bool) (w w' : W) {o : Outcome} {kept : Bool}
          → (equal ≡ true → equal_json json first step.desired ≡ Comparison.equal)
          → (r : Reply W (JsonValue × Bool)) → confirm json obs step first equal w ≡ r
          → resume r (settle json obs dry mut step) ≡ next (o, kept) w'
          → IsSound json dry step o kept
      resume-confirm first equal w w' agree (stop _ _ _) e h = cc
      resume-confirm first equal w w' agree (next (last, equal') v) e h =
          settle-IsSound last equal' v (confirm_lem first equal w v last equal' agree e) h

      resume_compare :
          (first : JsonValue) (o₀ : Outcome) (w w' : W) {o : Outcome} {kept : Bool}
          → (r : Reply W Bool) → compare_at json o₀ step.id Stage.compare first step.desired w ≡ r
          → resume r (λ equal. confirm json obs step first equal >>= settle json obs dry mut step)
            ≡ next (o, kept) w'
          → IsSound json dry step o kept
      resume_compare first o₀ w w' (stop _ _ _) e h = cc
      resume_compare first o₀ w w' (next equal v) e h =
          resume-confirm first equal v w'
            (compare_at_lem o₀ step.id Stage.compare first step.desired w v e) _ refl h

      resume_observe :
          (r : Reply W JsonValue) (w' : W) {o : Outcome} {kept : Bool}
          → resume r (λ first.
            compare_at json
              (set_observed (new_outcome step) first)
              step.id
              Stage.compare
              first
              step.desired
            >>= λ equal. confirm json obs step first equal >>= settle json obs dry mut step)
            ≡ next (o, kept) w'
          → IsSound json dry step o kept
      resume_observe (stop _ _ _) w' h = cc
      resume_observe (next first v) w' h =
          resume_compare first (set_observed (new_outcome step) first) v w' _ refl h

      converge-IsSound :
          (w w' : W) {o : Outcome} {kept : Bool}
          → converge json obs dry mut step w ≡ next (o, kept) w'
          → IsSound json dry step o kept
      unfolding converge
      converge-IsSound w w' h = resume_observe _ w' h

  module _ (ports : Ports W) (dry : Bool) (step : Step) where
    with_observer-IsSound :
        (observer : Option (Step → W → Observation × W)) (w w' : W) {o : Outcome} {kept : Bool}
        → with_observer json ports observer dry step w ≡ next (o, kept) w'
        → IsSound json dry step o kept
    unfolding with_observer
    with_observer-IsSound none w w' h = cc
    with_observer-IsSound (some obs) w w' h = converge-IsSound obs step ports.mutator dry w w' h

    visit_as-IsSound :
        (d : Disposition) (w w' : W) {o : Outcome} {kept : Bool}
        → visit_as json ports d dry step w ≡ next (o, kept) w'
        → IsSound json dry step o kept
    unfolding visit_as
    visit_as-IsSound Disposition.blocked w w' h = ground arith
    visit_as-IsSound (Disposition.other text) w w' h = cc
    visit_as-IsSound _ w w' h = with_observer-IsSound ports.observer w w' h

    pub visit-IsSound :
        (w w' : W) {o : Outcome} {kept : Bool}
        → visit json ports dry step w ≡ next (o, kept) w'
        → IsSound json dry step o kept
    unfolding visit
    visit-IsSound w w' h = visit_as-IsSound step.disposition w w' h

    -- A round that ends in an error still names its step in the outcome.
    pub visit-stop_id :
        (w w' : W) {o : Outcome} {err : ExecError}
        → visit json ports dry step w ≡ stop o err w'
        → o.step_id ≡ step.id
    unfolding visit
    visit-stop_id w w' h = ground arith
