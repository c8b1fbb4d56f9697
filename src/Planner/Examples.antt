-- ===== src/Planner/Examples.antt =====
-- Plans of two modules and three steps.
use alex_cachyos.Prelude.{
  ◌≡◌, refl, String, true, false, not, none, some, List, [], ◌∷◌, map, select, reverse, Map, keys,
  insert, lookup, contains, sort_by, insert_sorted, eq_iff, arith, all, count, if◌then◌else◌,
  is_nil, is_empty, beq_nat, ◌&&◌, ◌||◌, ◌⊎◌,
}
use alex_cachyos.Planner.Types.{
  Step, Module, Selection, Plan, Disposition, ok, failed, cycle, is_ok, scope_user,
  network_required,
}
use alex_cachyos.Planner.Graph.{
  Edge, State, degree, has_edge, add_edge, add_edges, zero_degrees, build_graph, release, pop,
  drain, with_degree, start, run_loop, remaining,
}
use alex_cachyos.Planner.Graph.Construction.{IsDistinct, IsInside}
use alex_cachyos.Planner.Graph.Loop.{Ordered}
use alex_cachyos.Planner.Graph.Order.{run_loop-Finished}
use alex_cachyos.Planner.Select.{
  copy_steps, copy_modules, copy_definitions, validate_names, validate_selections, module_rank,
  module_less, step_less, add_names, delete_names, selected_names, enabled_names,
  close_dependencies, close_names, close, check_dependencies, check_names, base_selection, choose,
  select_modules,
}
use alex_cachyos.Planner.Select.Chosen.{is_chosen, is_ended, close-base_selection}
use alex_cachyos.Planner.Select.Supplied.{
  has_supply, select_modules-is_chosen, select_modules_total,
}
use alex_cachyos.Planner.Build.{
  module_edges, all_module_edges, module_loop, module_cycle, put_steps, collect_steps, cross,
  inherited_edges, step_edges, all_step_edges, step_loop, finish_order, order_steps, check_cycle,
  build_plan,
}
use alex_cachyos.Planner.Build.Plans.{IsOrderOf, IsStuck, waits}
use alex_cachyos.Planner.Build.Accepted.{
  copy_definitions-IsDistinct, module_waits, build_plan-IsOrderOf, build_plan-IsStuck,
}
use alex_cachyos.Planner.Removal.{
  Undone, is_named, is_invertible, module_names, check_removed, check_known, removal_steps,
  build_removal_plan, build_removal_plan-Undone, build_removal_plan-is_ok,
}
use alex_cachyos.Planner.Network.{grouped, is_member, network_groups, grouped-network_groups}

abbrev step_of_module : String → String → List String → Step
step_of_module name id dependencies = record {
  id = id;
  module_name = name;
  depends_on = dependencies;
  description = "";
  scope = scope_user;
  network = network_required;
  operation = "install";
  disposition = Disposition.apply;
  desired = 2 ∷ [];
  observed = 1 ∷ [];
  inverse = some (record { operation = "uninstall"; value = 1 ∷ [] });
}

abbrev bootstrap : Module
bootstrap = record {
  name = "bootstrap";
  enabled = true;
  depends_on = [];
  steps = step_of_module "bootstrap" "packages" [] ∷ [];
}

abbrev config : Step
config = step_of_module "apps" "config" []

abbrev theme : List String → Step
theme dependencies = step_of_module "apps" "theme" dependencies

abbrev apps : Step → Step → Module
apps first second = record {
  name = "apps";
  enabled = true;
  depends_on = "bootstrap" ∷ [];
  steps = first ∷ second ∷ [];
}

-- The plain modules, and some whose steps depend on each other.
abbrev inputs : List Module
inputs = apps (theme ("config" ∷ [])) config ∷ bootstrap ∷ []

abbrev looping : List Module
looping =
    apps (theme ("config" ∷ [])) (step_of_module "apps" "config" ("theme" ∷ [])) ∷ bootstrap ∷ []

abbrev everything : Selection
everything = record { only = []; with_modules = []; without = [] }

abbrev by_name : List Module → Map Module
by_name modules = map (λ m. (m.name, m)) modules

abbrev by_id : List Step → Map Step
by_id steps = map (λ s. (s.id, s)) steps

abbrev all_steps : Map Step
all_steps = by_id (theme ("config" ∷ []) ∷ config ∷ step_of_module "bootstrap" "packages" [] ∷ [])

abbrev selected : List String
selected = "apps" ∷ "bootstrap" ∷ []

copied : copy_definitions inputs ≡ ok (by_name inputs, all_steps)
unfolding copy_definitions copy_modules copy_steps insert lookup
copied = refl

chosen : select_modules (by_name inputs) everything ≡ ok (selected, false)
unfolding select_modules choose base_selection enabled_names delete_names add_names close
    close_names close_dependencies check_names check_dependencies selected_names module_less
    module_rank sort_by insert_sorted lookup contains
chosen = refl

abbrev plan : Plan
plan = record {
  selection = everything;
  steps = step_of_module "bootstrap" "packages" [] ∷ config ∷ theme ("config" ∷ []) ∷ [];
}

planned : build_plan inputs everything ≡ ok plan
unfolding build_plan copy_definitions copy_modules copy_steps insert lookup select_modules choose
    base_selection enabled_names delete_names add_names close close_names close_dependencies
    check_names check_dependencies selected_names module_less module_rank sort_by insert_sorted
    contains validate_selections validate_names check_cycle module_cycle module_loop
    all_module_edges module_edges build_graph zero_degrees add_edges add_edge has_edge run_loop
    start with_degree drain pop release order_steps collect_steps put_steps inherited_edges cross
    all_step_edges step_edges step_loop step_less finish_order
planned = refl

build_plan-IsOrderOf_example :
    (plan.selection ≡ everything) × IsOrderOf selected (by_name inputs) false plan.steps
build_plan-IsOrderOf_example =
    build_plan-IsOrderOf inputs everything (by_name inputs) all_steps selected false copied chosen
      plan planned

names-IsDistinct : IsDistinct (keys (by_name inputs))
names-IsDistinct = copy_definitions-IsDistinct inputs (by_name inputs) all_steps copied

select_modules-is_chosen_example :
    (false ≡ not (is_nil everything.only))
    × ((v : String) → contains selected v ≡ is_chosen (by_name inputs) everything v)
    × ((v : String)
        → contains selected v ≡ true
        → has_supply false (by_name inputs) (contains selected) v ≡ true)
    × IsDistinct selected
select_modules-is_chosen_example =
    select_modules-is_chosen (by_name inputs) names-IsDistinct everything selected false chosen

supplied :
    (v : String)
    → is_chosen (by_name inputs) everything v ≡ true
    → has_supply false (by_name inputs) (is_chosen (by_name inputs) everything) v ≡ true
unfolding lookup contains
supplied v h = ground (arith, h, eq_iff "apps" v, eq_iff "bootstrap" v)

select_modules_total_example : is_ok (select_modules (by_name inputs) everything) ≡ true
select_modules_total_example =
    select_modules_total (by_name inputs) names-IsDistinct everything supplied

-- The two steps that wait for each other.
abbrev looping_steps : Map Step
looping_steps = by_id (
    theme ("config" ∷ [])
    ∷ step_of_module "apps" "config" ("theme" ∷ [])
    ∷ step_of_module "bootstrap" "packages" []
    ∷ [])

copied_looping : copy_definitions looping ≡ ok (by_name looping, looping_steps)
unfolding copy_definitions copy_modules copy_steps insert lookup
copied_looping = refl

chosen_looping : select_modules (by_name looping) everything ≡ ok (selected, false)
unfolding select_modules choose base_selection enabled_names delete_names add_names close
    close_names close_dependencies check_names check_dependencies selected_names module_less
    module_rank sort_by insert_sorted lookup contains
chosen_looping = refl

refused_looping : build_plan looping everything ≡ failed (cycle ("config" ∷ "theme" ∷ []))
unfolding build_plan copy_definitions copy_modules copy_steps insert lookup select_modules choose
    base_selection enabled_names delete_names add_names close close_names close_dependencies
    check_names check_dependencies selected_names module_less module_rank sort_by insert_sorted
    contains validate_selections validate_names check_cycle module_cycle module_loop
    all_module_edges module_edges build_graph zero_degrees add_edges add_edge has_edge run_loop
    start with_degree drain pop release order_steps collect_steps put_steps inherited_edges cross
    all_step_edges step_edges step_loop step_less finish_order remaining
refused_looping = refl

build_plan-IsStuck_example :
    IsStuck (module_waits selected (by_name looping)) ("config" ∷ "theme" ∷ [])
    ⊎ IsStuck (waits selected (by_name looping)) ("config" ∷ "theme" ∷ [])
build_plan-IsStuck_example =
    build_plan-IsStuck looping everything (by_name looping) looping_steps selected false
      copied_looping chosen_looping ("config" ∷ "theme" ∷ []) refused_looping

abbrev undo_step : String → String → Step
undo_step name id = record {
  id = id;
  module_name = name;
  depends_on = [];
  description = "";
  scope = scope_user;
  network = network_required;
  operation = "uninstall";
  disposition = Disposition.remove;
  desired = 1 ∷ [];
  observed = 2 ∷ [];
  inverse = none;
}

abbrev undo_plan : Plan
undo_plan = record {
  selection = everything;
  steps = undo_step "apps" "theme" ∷ undo_step "apps" "config" ∷ [];
}

undone : build_removal_plan plan ("apps" ∷ []) ≡ ok undo_plan
unfolding build_removal_plan check_removed check_known removal_steps contains
undone = refl

build_removal_plan-Undone_example :
    Undone (reverse (select (is_named ("apps" ∷ [])) plan.steps)) undo_plan.steps
build_removal_plan-Undone_example = build_removal_plan-Undone plan ("apps" ∷ []) undo_plan undone

build_removal_plan-is_ok_example : is_ok (build_removal_plan plan ("apps" ∷ [])) ≡ (
    all (λ name. not (is_empty name)) ("apps" ∷ [])
    && all (contains (module_names plan.steps)) ("apps" ∷ [])
    && all (λ step. not (is_named ("apps" ∷ []) step) || is_invertible step.inverse) plan.steps)
build_removal_plan-is_ok_example = build_removal_plan-is_ok plan ("apps" ∷ [])

grouped-network_groups_example :
    grouped "install" (network_groups plan) ≡ select (is_member "install") plan.steps
grouped-network_groups_example = grouped-network_groups plan "install"

close-base_selection_example :
    (is_ended (close 3 [] (by_name inputs) (base_selection (by_name inputs) everything)) ≡ true)
    × (close 3 [] (by_name inputs) (base_selection (by_name inputs) everything)
        ≡ close 1 [] (by_name inputs) (base_selection (by_name inputs) everything))
close-base_selection_example = close-base_selection (by_name inputs) names-IsDistinct everything 2

abbrev nodes : List String
nodes = "a" ∷ "b" ∷ []

abbrev arrows : List Edge
arrows = ("b", "a") ∷ []

arrows-IsInside : IsInside arrows nodes
unfolding has_edge contains
arrows-IsInside =
    ((λ u v e. ground (arith, e, eq_iff "b" u)), (λ u v e. ground (arith, e, eq_iff "a" v)))

abbrev loop : State
loop = run_loop module_less (λ names. names) (build_graph nodes arrows)

run_loop-Finished_example :
    (loop.ready ≡ [])
    × ((v : String)
        → count v loop.done
          ≡ (if contains nodes v && beq_nat (degree loop.degrees v) 0 then 1 else 0))
    × Ordered arrows [] loop.done
run_loop-Finished_example =
    run_loop-Finished module_less (λ names. names) (λ v xs. refl) nodes arrows arrows-IsInside
