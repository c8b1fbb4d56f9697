-- ===== src/Planner/Removal.antt =====
-- internal/planner/removal.go: the plan that undoes the steps of some modules.
use alex_cachyos.Prelude.{
  String, ◌≡◌, refl, ap, Bool, true, false, not, ◌&&◌, ◌||◌, Option, none, some, List, [], ◌∷◌,
  ◌++◌, map, select, reverse, if◌then◌else◌, contains, is_empty, arith, all,
}
use mathlib.Core.List.{reverse-cons}
use alex_cachyos.Planner.Types.{
  Step, InverseDescriptor, Plan, remove, Attempt, ok, failed, ◌>>=◌, is_ok, unknown_selection,
  missing_inverse,
}

unfoldable pub check_removed : List String → Attempt (Unit {0})
check_removed [] = ok tt
check_removed (name ∷ names) =
    let rest = check_removed names in
    if is_empty name then failed (unknown_selection "remove" "") else rest

abbrev pub module_names : List Step → List String
module_names steps = map (λ step. step.module_name) steps

-- The source goes through a map here: which of several unknown names its error has is open.
unfoldable pub check_known : List Step → List String → Attempt (Unit {0})
check_known steps [] = ok tt
check_known steps (name ∷ names) =
    let rest = check_known steps names in
    if contains (module_names steps) name then rest else failed (unknown_selection "remove" name)

-- The step of an inverse.
abbrev pub invert : Step → InverseDescriptor → Step
invert step inverse = record {
  id = step.id;
  module_name = step.module_name;
  depends_on = [];
  description = step.description;
  scope = step.scope;
  network = step.network;
  operation = inverse.operation;
  disposition = remove;
  desired = inverse.value;
  observed = step.desired;
  inverse = none;
}

abbrev pub invert_step : Step → Option InverseDescriptor → Attempt Step
invert_step step none = failed (missing_inverse step.id)
invert_step step (some inverse) =
    if is_empty inverse.operation
    then failed (missing_inverse step.id)
    else ok (invert step inverse)

unfoldable pub removal_steps : List String → List Step → Attempt (List Step)
removal_steps names [] = ok []
removal_steps names (step ∷ steps) =
    let rest = removal_steps names steps in
    if not (contains names step.module_name)
    then rest
    else invert_step step step.inverse >>= λ undo. rest >>= λ undos. ok (undo ∷ undos)

unfoldable pub build_removal_plan : Plan → List String → Attempt Plan
build_removal_plan plan names = check_removed names >>= λ _. check_known plan.steps names >>= λ _.
    removal_steps names (reverse plan.steps) >>= λ steps.
    ok (record { selection = plan.selection; steps = steps })

-- A step has an inverse with an operation.
abbrev pub is_invertible : Option InverseDescriptor → Bool
is_invertible none = false
is_invertible (some inverse) = not (is_empty inverse.operation)

abbrev pub is_named : List String → Step → Bool
is_named names step = contains names step.module_name

-- What stands in the place of a step: the operation and value of its inverse, from the value that the
-- step has set, as a removal that depends on nothing and has no inverse itself.
abbrev pub Undoes : Step → Option InverseDescriptor → Step → Type 0
Undoes step none undo = ⊥
Undoes step (some inverse) undo =
    (undo.operation ≡ inverse.operation)
    × (undo.desired ≡ inverse.value)
    × (undo.observed ≡ step.desired)
    × (undo.disposition ≡ remove)
    × (undo.depends_on ≡ [])
    × (undo.inverse ≡ none)
    × (undo.id ≡ step.id)
    × (undo.module_name ≡ step.module_name)
    × (undo.description ≡ step.description)
    × (undo.scope ≡ step.scope)
    × (undo.network ≡ step.network)

-- The steps of one list undo those of another, one by one.
abbrev pub Undone : List Step → List Step → Type 0
Undone [] [] = Unit
Undone (step ∷ steps) (undo ∷ undos) =
    (is_invertible step.inverse ≡ true) × Undoes step step.inverse undo × Undone steps undos
Undone _ _ = ⊥

abbrev UndoneBy : List Step → Attempt (List Step) → Type 0
UndoneBy steps (ok undos) = Undone steps undos
UndoneBy steps (failed e) = Unit

removal_steps-Undone :
    (names : List String) (steps : List Step)
    → UndoneBy (select (is_named names) steps) (removal_steps names steps)
unfolding removal_steps
removal_steps-Undone names [] = tt
removal_steps-Undone names (step ∷ steps) = ground (arith, removal_steps-Undone names steps)

append_nil : (xs : List Step) → xs ++ [] ≡ xs
append_nil [] = refl
append_nil (x ∷ xs) = ap (◌∷◌ x) (append_nil xs)

select-append :
    (p : Step → Bool) (xs ys : List Step) → select p (xs ++ ys) ≡ select p xs ++ select p ys
select-append p [] ys = refl
select-append p (x ∷ xs) ys = ground (arith, select-append p xs ys)

select-reverse : (p : Step → Bool) (xs : List Step) → select p (reverse xs) ≡ reverse (select p xs)
select-reverse p [] = refl
select-reverse p (x ∷ xs) = ground (
  arith,
  ap (select p) (reverse-cons x xs),
  select-append p (reverse xs) (x ∷ []),
  select-reverse p xs,
  reverse-cons x (select p xs),
  append_nil (reverse (select p xs)),
)

-- A removal plan has one step for each step of the named modules, and no others, the last of them
-- first. Each of those has an inverse with an operation, and what stands for it has that operation,
-- the inverse's value as desired and the step's desired value as observed; it is a removal without
-- dependencies or an inverse, and keeps the step's identifier, module, description, scope and network.
pub build_removal_plan-Undone :
    (plan : Plan) (names : List String) (undo : Plan)
    → build_removal_plan plan names ≡ ok undo
    → Undone (reverse (select (is_named names) plan.steps)) undo.steps
unfolding build_removal_plan
build_removal_plan-Undone plan names undo e = ground (
  arith,
  e,
  removal_steps-Undone names (reverse plan.steps),
  select-reverse (is_named names) plan.steps,
)

removal_steps-is_ok :
    (names : List String) (steps : List Step)
    → is_ok (removal_steps names steps)
      ≡ all (λ step. not (is_named names step) || is_invertible step.inverse) steps
unfolding removal_steps
removal_steps-is_ok names [] = refl
removal_steps-is_ok names (step ∷ steps) = ground (arith, removal_steps-is_ok names steps)

all-append : (p : Step → Bool) (xs ys : List Step) → all p (xs ++ ys) ≡ (all p xs && all p ys)
all-append p [] ys = refl
all-append p (x ∷ xs) ys = ground (arith, all-append p xs ys)

all-reverse : (p : Step → Bool) (xs : List Step) → all p (reverse xs) ≡ all p xs
all-reverse p [] = refl
all-reverse p (x ∷ xs) =
    ground
      (arith, ap (all p) (reverse-cons x xs), all-append p (reverse xs) (x ∷ []), all-reverse p xs)

check_removed-is_ok :
    (names : List String) → is_ok (check_removed names) ≡ all (λ name. not (is_empty name)) names
unfolding check_removed
check_removed-is_ok [] = refl
check_removed-is_ok (name ∷ names) = ground (arith, check_removed-is_ok names)

check_known-is_ok :
    (steps : List Step) (names : List String)
    → is_ok (check_known steps names) ≡ all (contains (module_names steps)) names
unfolding check_known
check_known-is_ok steps [] = refl
check_known-is_ok steps (name ∷ names) = ground (arith, check_known-is_ok steps names)

-- A removal plan is made if and only if every name is a nonempty module name of the plan and every
-- step of the named modules has an inverse with an operation.
pub build_removal_plan-is_ok :
    (plan : Plan) (names : List String)
    → is_ok (build_removal_plan plan names) ≡ (
        all (λ name. not (is_empty name)) names
        && all (contains (module_names plan.steps)) names
        && all (λ step. not (is_named names step) || is_invertible step.inverse) plan.steps)
unfolding build_removal_plan
build_removal_plan-is_ok plan names = ground (
  arith,
  check_removed-is_ok names,
  check_known-is_ok plan.steps names,
  removal_steps-is_ok names (reverse plan.steps),
  all-reverse (λ step. not (is_named names step) || is_invertible step.inverse) plan.steps,
)
