-- ===== src/Planner/Build/Accepted.antt =====
-- `BuildPlan` as a whole: what it returns with a plan and what it returns with a cycle.
use alex_cachyos.Prelude.{
  String, ◌≡◌, refl, sym, subst, Bool, true, false, ◌&&◌, List, [], ◌⊎◌, inl, inr, ◌∷◌, Map, keys,
  lookup, insert, if◌then◌else◌, contains, is_some, is_nil, arith,
}
use alex_cachyos.Planner.Types.{
  Selection, Step, Module, Plan, Attempt, ok, failed, ◌>>=◌, cycle, module_of,
}
use alex_cachyos.Planner.Graph.{remaining}
use alex_cachyos.Planner.Build.{
  all_module_edges, module_loop, module_cycle, check_cycle, build_plan, order_steps,
}
use alex_cachyos.Planner.Build.Edges.{all_module_edges-has_edge}
use alex_cachyos.Planner.Graph.Construction.{IsDistinct, IsInside}
use alex_cachyos.Planner.Graph.Order.{remaining-stuck}
use alex_cachyos.Planner.Build.Sorted.{names}
use alex_cachyos.Planner.Types.{duplicate_module}
use alex_cachyos.Planner.Select.{
  module_less, copy_steps, copy_modules, copy_definitions, validate_names, validate_selections,
  select_modules,
}
use alex_cachyos.Planner.Select.Supplied.{select_modules-is_chosen}
use alex_cachyos.Planner.Build.Steps.{insert-IsDistinct}
use alex_cachyos.Planner.Build.Plans.{
  IsOrderOf, IsStuck, waits, is_cycle, order_steps-IsOrderOf, order_steps-IsStuck,
}

abbrev IsDistinctCopy : Attempt (Map Module × Map Step) → Type 0
IsDistinctCopy (ok copies) = IsDistinct (keys copies.0)
IsDistinctCopy (failed e) = Unit

copy_modules-IsDistinct :
    (inputs : List Module) (modules : Map Module) (steps : Map Step)
    → IsDistinct (keys modules)
    → IsDistinctCopy (copy_modules inputs modules steps)
unfolding copy_modules
copy_modules-IsDistinct [] modules steps h = h
copy_modules-IsDistinct (input ∷ inputs) modules steps h =
    go (is_some (lookup input.name modules)) (copy_steps input.name input.steps steps)
      (λ copied all_steps.
        copy_modules-IsDistinct inputs (insert input.name (record input { steps = copied }) modules)
          all_steps (insert-IsDistinct input.name (record input { steps = copied }) modules h))
  where
    go :
        (b : Bool) (attempt : Attempt (List Step × Map Step))
        → ((copied : List Step) (all_steps : Map Step)
            → IsDistinctCopy (
                copy_modules inputs
                  (insert input.name (record input { steps = copied }) modules)
                  all_steps))
        → IsDistinctCopy (
            if b
            then failed (duplicate_module input.name)
            else attempt >>= λ (copied, all_steps).
                copy_modules inputs
                  (insert input.name (record input { steps = copied }) modules)
                  all_steps)
    go true attempt rest = tt
    go false (failed e) rest = tt
    go false (ok (copied, all_steps)) rest = rest copied all_steps

pub copy_definitions-IsDistinct :
    (inputs : List Module) (modules : Map Module) (steps : Map Step)
    → copy_definitions inputs ≡ ok (modules, steps)
    → IsDistinct (keys modules)
unfolding copy_definitions
copy_definitions-IsDistinct inputs modules steps e =
    subst IsDistinctCopy e (copy_modules-IsDistinct inputs [] [] (λ v. omega arith))

-- A selected module waits for the selected modules that it depends on, itself if it is one of them.
abbrev pub module_waits : List String → Map Module → String → String → Bool
module_waits selected modules u v =
    contains selected u && contains selected v && contains (module_of modules v).depends_on u

-- The cycle check of the modules.
module _ (selected : List String) (modules : Map Module) (distinct : IsDistinct selected) where
  edges-IsInside : IsInside (all_module_edges selected modules selected) selected
  edges-IsInside = (
    (λ u v e. ground (arith, e, all_module_edges-has_edge selected modules selected u v)),
    (λ u v e. ground (arith, e, all_module_edges-has_edge selected modules selected u v)),
  )

  loop_stuck :
      (v : String)
      → contains (remaining (module_loop selected modules).1) v ≡ true
      → (u : String) × (module_waits selected modules u v ≡ true)
        × (contains (remaining (module_loop selected modules).1) u ≡ true)
  unfolding module_loop
  loop_stuck v h =
      let (u, edge, waiting) =
        remaining-stuck module_less (λ names. names) (λ u xs. refl) selected
          (all_module_edges selected modules selected) edges-IsInside v h in
      (u, ground (arith, edge, all_module_edges-has_edge selected modules selected u v), waiting)

  module_cycle-remaining :
      is_nil (module_cycle selected modules) ≡ false
      → module_cycle selected modules ≡ remaining (module_loop selected modules).1
  unfolding module_cycle
  module_cycle-remaining h = ground (arith, h)

  pub module_cycle-IsStuck :
      is_nil (module_cycle selected modules) ≡ false
      → IsStuck (module_waits selected modules) (module_cycle selected modules)
  module_cycle-IsStuck h = (
    h,
    subst
        (λ nodes.
          (v : String)
          → contains nodes v ≡ true
          → (u : String) × (module_waits selected modules u v ≡ true) × (contains nodes u ≡ true))
        (sym (module_cycle-remaining h)) loop_stuck,
  )

validate_names-is_cycle :
    (field : String) (names : List String) (modules : Map Module)
    → is_cycle (validate_names field names modules) ≡ false
unfolding validate_names
validate_names-is_cycle field [] modules = refl
validate_names-is_cycle field (name ∷ names) modules =
    ground (arith, validate_names-is_cycle field names modules)

validate_selections-is_cycle :
    (selection : Selection) (modules : Map Module)
    → is_cycle (validate_selections selection modules) ≡ false
unfolding validate_selections
validate_selections-is_cycle selection modules = ground (
  arith,
  validate_names-is_cycle "only" selection.only modules,
  validate_names-is_cycle "with" selection.with_modules modules,
  validate_names-is_cycle "without" selection.without modules,
)

module _ (inputs : List Module) (selection : Selection) (modules : Map Module)
    (all_steps : Map Step) (selected : List String) (only : Bool)
    (copied : copy_definitions inputs ≡ ok (modules, all_steps))
    (chosen : select_modules modules selection ≡ ok (selected, only)) where
  build_plan-order_steps :
      (plan : Plan)
      → build_plan inputs selection ≡ ok plan
      → (plan.selection ≡ selection) × (order_steps selected modules all_steps only ≡ ok plan.steps)
  unfolding build_plan check_cycle
  build_plan-order_steps plan e = ground (arith, copied, chosen, e)

  -- A plan that `BuildPlan` returns has the given selection and, each once, the steps of the
  -- selected modules and no others. Every step stands behind the steps of the selected modules that
  -- its module depends on, and behind each step that it depends on itself, save one that the plan
  -- does not have if `only` names the selection.
  pub build_plan-IsOrderOf :
      (plan : Plan)
      → build_plan inputs selection ≡ ok plan
      → (plan.selection ≡ selection) × IsOrderOf selected modules only plan.steps
  build_plan-IsOrderOf plan e =
      let (same, ordered) = build_plan-order_steps plan e in
      (same, order_steps-IsOrderOf selected modules all_steps only plan.steps ordered)

  cycle_cases :
      (nodes : List String)
      → build_plan inputs selection ≡ failed (cycle nodes)
      → is_cycle (validate_selections selection modules) ≡ false
      → ((is_nil nodes ≡ false) × (module_cycle selected modules ≡ nodes))
        ⊎ (order_steps selected modules all_steps only ≡ failed (cycle nodes))
  unfolding build_plan check_cycle
  cycle_cases nodes e other = ground (arith, copied, chosen, e, other)

  -- If `BuildPlan` returns a `CycleError`, its nodes are at least one, and either each is a selected
  -- module that depends on one of them, or each is a step that waits for one of them, by its own
  -- dependencies or its module's. The one that a node waits for may be the node itself.
  pub build_plan-IsStuck :
      (nodes : List String)
      → build_plan inputs selection ≡ failed (cycle nodes)
      → IsStuck (module_waits selected modules) nodes ⊎ IsStuck (waits selected modules) nodes
  build_plan-IsStuck nodes e =
      let (_, _, _, once) =
        select_modules-is_chosen modules
          (copy_definitions-IsDistinct inputs modules all_steps copied) selection selected only
          chosen in
      elim (cycle_cases nodes e (validate_selections-is_cycle selection modules)) [
        | inl (some_node, same) ↦ inl (
            subst (IsStuck (module_waits selected modules)) same
              (module_cycle-IsStuck selected modules once (ground (arith, some_node, same))))
        | inr steps ↦ inr (order_steps-IsStuck selected modules all_steps only nodes steps)
      ]
