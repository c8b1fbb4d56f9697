-- ===== src/Planner/Build.antt =====
-- internal/planner/plan.go: `moduleCycle`, `orderSteps` and `BuildPlan`. The loops that call `add`
-- are written as the list of the edges that they add.
pub mod Edges
pub mod Steps
pub mod Sorted
pub mod Ordering
pub mod Plans
pub mod Accepted
use alex_cachyos.Prelude.{
  ℕ, zero, suc, ◌+◌, String, Bool, true, false, not, ◌&&◌, ◌||◌, Option, none, some, List, [], ◌∷◌,
  ◌++◌, map, select, Map, keys, lookup, insert, sort_by, ◌==◌, beq_nat, ltb, if◌then◌else◌,
  contains, is_some, is_nil, is_empty, text_less, length,
}
use alex_cachyos.Planner.Types.{
  Selection, Step, Module, Plan, Attempt, ok, failed, ◌>>=◌, PlanError, missing_step, cycle,
  module_of, step_of, ids,
}
use alex_cachyos.Planner.Graph.{Edge, Graph, State, build_graph, run_loop, remaining}
use alex_cachyos.Planner.Select.{
  module_less, step_less, copy_definitions, validate_selections, select_modules,
}

-- `if !selected[dependency] { continue }; add(dependency, name)`
unfoldable pub module_edges : List String → String → List String → List Edge
module_edges selected name [] = []
module_edges selected name (dependency ∷ dependencies) =
    let rest = module_edges selected name dependencies in
    if contains selected dependency then (dependency, name) ∷ rest else rest

unfoldable pub all_module_edges : List String → Map Module → List String → List Edge
all_module_edges selected modules [] = []
all_module_edges selected modules (name ∷ names) =
    module_edges selected name (module_of modules name).depends_on
    ++ all_module_edges selected modules names

-- The loop of `moduleCycle`, which goes through the successors in no particular order.
unfoldable pub module_loop : List String → Map Module → Graph × State
module_loop selected modules =
    let graph = build_graph selected (all_module_edges selected modules selected) in
    (graph, run_loop module_less (λ names. names) graph)

unfoldable pub module_cycle : List String → Map Module → List String
module_cycle selected modules =
    let (graph, final) = module_loop selected modules in
    if beq_nat (length final.done) (length selected) then [] else remaining final

-- `steps[step.ID] = step`
unfoldable pub put_steps : List Step → Map Step → Map Step
put_steps [] steps = steps
put_steps (step ∷ rest) steps = put_steps rest (insert step.id step steps)

unfoldable pub collect_steps : Map Module → List String → Map Step → Map Step
collect_steps modules [] steps = steps
collect_steps modules (name ∷ names) steps =
    collect_steps modules names (put_steps (module_of modules name).steps steps)

-- An edge from each of `froms` to each of `tos`.
unfoldable pub cross : List String → List String → List Edge
cross [] tos = []
cross (from ∷ froms) tos = map (λ to. (from, to)) tos ++ cross froms tos

-- The steps of a module come behind those of the selected modules it depends on.
unfoldable pub inherited_edges : Map Module → List Edge → List Edge
inherited_edges modules [] = []
inherited_edges modules ((dependency, name) ∷ edges) =
    cross (ids (module_of modules dependency).steps) (ids (module_of modules name).steps)
    ++ inherited_edges modules edges

-- The edges of a step's own dependencies.
unfoldable pub step_edges : Bool → Map Step → Map Step → String → List String → Attempt (List Edge)
step_edges only all_steps steps id [] = ok []
step_edges only all_steps steps id (dependency ∷ dependencies) =
    let rest = step_edges only all_steps steps id dependencies in
    if not (is_some (lookup dependency all_steps))
    then failed (missing_step id dependency)
    else if not (is_some (lookup dependency steps))
    then if only then rest else failed (missing_step id dependency)
    else rest >>= λ edges. ok ((dependency, id) ∷ edges)

unfoldable pub all_step_edges : Bool → Map Step → Map Step → List String → Attempt (List Edge)
all_step_edges only all_steps steps [] = ok []
all_step_edges only all_steps steps (id ∷ names) =
    let rest = all_step_edges only all_steps steps names in
    step_edges only all_steps steps id (step_of steps id).depends_on >>= λ edges.
    rest >>= λ others. ok (edges ++ others)

unfoldable pub step_loop : Map Step → List Edge → State
step_loop steps edges =
    run_loop (λ a b. step_less (step_of steps a) (step_of steps b)) (sort_by text_less)
      (build_graph (keys steps) edges)

unfoldable pub finish_order : Map Step → State → Attempt (List Step)
finish_order steps final =
    if beq_nat (length final.done) (length steps)
    then ok (map (step_of steps) final.done)
    else failed (cycle (remaining final))

unfoldable pub order_steps : List String → Map Module → Map Step → Bool → Attempt (List Step)
order_steps selected modules all_steps only =
    let steps = collect_steps modules selected [] in
    let inherited = inherited_edges modules (all_module_edges selected modules selected) in
    all_step_edges only all_steps steps (sort_by text_less (keys steps)) >>= λ edges.
    finish_order steps (step_loop steps (inherited ++ edges))

unfoldable pub check_cycle : List String → Attempt (Unit {0})
check_cycle nodes = if is_nil nodes then ok tt else failed (cycle nodes)

unfoldable pub build_plan : List Module → Selection → Attempt Plan
build_plan modules selection = copy_definitions modules >>= λ (by_name, all_steps).
    validate_selections selection by_name >>= λ _.
    select_modules by_name selection >>= λ (selected, only).
    check_cycle (module_cycle selected by_name) >>= λ _.
    order_steps selected by_name all_steps only >>= λ ordered.
    ok (record { selection = selection; steps = ordered })
