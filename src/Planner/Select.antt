-- ===== src/Planner/Select.antt =====
-- internal/planner/plan.go: `copyDefinitions`, `validateSelections` and `selectModules`. A map that
-- holds `true` for its keys is the list of the keys.
pub mod Chosen
pub mod Supplied
use alex_cachyos.Prelude.{
  ℕ, zero, suc, ◌+◌, String, Bool, true, false, not, ◌&&◌, ◌||◌, Option, none, some, List, [], ◌∷◌,
  ◌++◌, map, select, Map, keys, lookup, insert, sort_by, ◌==◌, beq_nat, ltb, if◌then◌else◌,
  contains, is_some, is_nil, is_empty, text_less, length,
}
use alex_cachyos.Planner.Types.{
  Selection, Step, Module, Attempt, ok, failed, unfinished, ◌>>=◌, PlanError, unknown_selection,
  missing_module, duplicate_module, duplicate_step, module_of,
}

-- `step.Module`, filled in with the name of the module that lists the step.
abbrev pub copy_step : String → Step → Step
copy_step name step = record step {
  module_name = if is_empty step.module_name then name else step.module_name;
}

unfoldable pub copy_steps : String → List Step → Map Step → Attempt (List Step × Map Step)
copy_steps name [] steps = ok ([], steps)
copy_steps name (input ∷ inputs) steps =
    let step = copy_step name input in
    let rest = copy_steps name inputs (insert step.id step steps) in
    if is_some (lookup step.id steps)
    then failed (duplicate_step step.id)
    else rest >>= λ (copied, all_steps). ok (step ∷ copied, all_steps)

unfoldable pub copy_modules : List Module → Map Module → Map Step → Attempt (Map Module × Map Step)
copy_modules [] modules steps = ok (modules, steps)
copy_modules (input ∷ inputs) modules steps =
    let next = λ (copied : List Step) (all_steps : Map Step).
      copy_modules inputs (insert input.name (record input { steps = copied }) modules) all_steps in
    if is_some (lookup input.name modules)
    then failed (duplicate_module input.name)
    else copy_steps input.name input.steps steps >>= λ (copied, all_steps). next copied all_steps

unfoldable pub copy_definitions : List Module → Attempt (Map Module × Map Step)
copy_definitions inputs = copy_modules inputs [] []

-- The first name of a selection list that no module has.
unfoldable pub validate_names : String → List String → Map Module → Attempt (Unit {0})
validate_names field [] modules = ok tt
validate_names field (name ∷ names) modules =
    let rest = validate_names field names modules in
    if is_some (lookup name modules) then rest else failed (unknown_selection field name)

unfoldable pub validate_selections : Selection → Map Module → Attempt (Unit {0})
validate_selections selection modules = validate_names "only" selection.only modules >>= λ _.
    validate_names "with" selection.with_modules modules >>= λ _.
    validate_names "without" selection.without modules

-- `canonicalRank`
abbrev pub canonical_rank : Map ℕ
canonical_rank =
    ("bootstrap", 0)
    ∷ ("fingerprint", 1)
    ∷ ("devtools", 2)
    ∷ ("apps", 3)
    ∷ ("vicinae", 4)
    ∷ ("desktop", 5)
    ∷ ("verify", 7)
    ∷ []

abbrev rank_or : Option ℕ → ℕ
rank_or none = 6
rank_or (some rank) = rank

unfoldable pub module_rank : String → ℕ
unfolding lookup
module_rank name = rank_or (lookup name canonical_rank)

unfoldable pub module_less : String → String → Bool
unfolding module_rank
module_less a b =
    if not (beq_nat (module_rank a) (module_rank b))
    then ltb (module_rank a) (module_rank b)
    else text_less a b

unfoldable pub step_less : Step → Step → Bool
unfolding module_rank
step_less a b =
    if not (beq_nat (module_rank a.module_name) (module_rank b.module_name))
    then ltb (module_rank a.module_name) (module_rank b.module_name)
    else text_less a.id b.id

-- `selected[name] = true`
abbrev pub add_name : List String → String → List String
add_name selected name = if contains selected name then selected else selected ++ name ∷ []

unfoldable pub add_names : List String → List String → List String
add_names selected [] = selected
add_names selected (name ∷ names) = add_names (add_name selected name) names

-- `delete(selected, name)` for each name.
unfoldable pub delete_names : List String → List String → List String
delete_names selected names = select (λ name. not (contains names name)) selected

unfoldable pub selected_names : List String → List String
selected_names selected = sort_by module_less selected

unfoldable pub enabled_names : Map Module → List String
enabled_names modules = keys (select (λ entry. (entry.1).enabled) modules)

-- The body of the closure's inner loop: a dependency that is missing, left out or not enabled is an
-- error, another one gets selected.
unfoldable pub close_dependencies :
    List String
    → Map Module
    → String
    → List String
    → List String × Bool
    → Attempt (List String × Bool)
close_dependencies without modules name [] state = ok state
close_dependencies without modules name (dependency ∷ dependencies) (selected, changed) =
    let next = close_dependencies without modules name dependencies in
    if not (is_some (lookup dependency modules))
    then failed (missing_module name dependency)
    else if contains selected dependency
    then next (selected, changed)
    else if contains without dependency || not (module_of modules dependency).enabled
    then failed (missing_module name dependency)
    else next (add_name selected dependency, true)

unfoldable pub close_names :
    List String → Map Module → List String → List String × Bool → Attempt (List String × Bool)
close_names without modules [] state = ok state
close_names without modules (name ∷ names) state =
    let next = close_names without modules names in
    close_dependencies without modules name (module_of modules name).depends_on state >>= next

-- `for { ... if !changed { break } }`, on fuel.
unfoldable pub close : ℕ → List String → Map Module → List String → Attempt (List String)
close zero without modules selected = failed unfinished
close (suc fuel) without modules selected =
    let next = close fuel without modules in
    close_names without modules (selected_names selected) (selected, false) >>= λ (closed, changed).
    if changed then next closed else ok closed

unfoldable pub check_dependencies :
    Bool → Map Module → List String → String → List String → Attempt (Unit {0})
check_dependencies only modules selected name [] = ok tt
check_dependencies only modules selected name (dependency ∷ dependencies) =
    let rest = check_dependencies only modules selected name dependencies in
    if not (is_some (lookup dependency modules))
    then failed (missing_module name dependency)
    else if not (contains selected dependency)
        && (not only || not (module_of modules dependency).enabled)
    then failed (missing_module name dependency)
    else rest

unfoldable pub check_names : Bool → Map Module → List String → List String → Attempt (Unit {0})
check_names only modules selected [] = ok tt
check_names only modules selected (name ∷ names) =
    let rest = check_names only modules selected names in
    check_dependencies only modules selected name (module_of modules name).depends_on >>= λ _. rest

unfoldable pub base_selection : Map Module → Selection → List String
base_selection modules selection =
    delete_names (add_names (enabled_names modules) selection.with_modules) selection.without

-- Each round of the closure that goes on selects one module more, so one round more than there are
-- modules is enough.
unfoldable pub choose : Map Module → Selection → Attempt (List String)
choose modules selection =
    if not (is_nil selection.only)
    then ok (add_names [] selection.only)
    else close (suc (length modules)) selection.without modules (base_selection modules selection)

unfoldable pub select_modules : Map Module → Selection → Attempt (List String × Bool)
select_modules modules selection =
    let only = not (is_nil selection.only) in
    choose modules selection >>= λ selected.
    check_names only modules selected (selected_names selected) >>= λ _. ok (selected, only)
