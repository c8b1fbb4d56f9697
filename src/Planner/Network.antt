-- ===== src/Planner/Network.antt =====
-- internal/planner/network.go: the steps that need the network, in groups by operation.
use alex_cachyos.Prelude.{
  ℕ, ◌≤◌, ◌≡◌, refl, ap, Bool, not, ◌&&◌, List, [], ◌∷◌, ◌++◌, select, ◌==◌, eq_iff, if◌then◌else◌,
  count_if, arith, any, beq_nat,
}
use alex_cachyos.Planner.Types.{Step, Plan, Operation, network_required}

pub record NetworkGroup : Type 0 where
  pub operation : Operation
  pub steps : List Step

-- `groups[index].Steps = append(groups[index].Steps, step)`, with a new group at the end for an
-- operation that `indexes` lacks.
unfoldable pub add_to_group : Step → List NetworkGroup → List NetworkGroup
add_to_group step [] = record { operation = step.operation; steps = step ∷ [] } ∷ []
add_to_group step (group ∷ groups) =
    let rest = add_to_group step groups in
    if group.operation == step.operation
    then record group { steps = group.steps ++ step ∷ [] } ∷ groups
    else group ∷ rest

unfoldable pub group_steps : List Step → List NetworkGroup → List NetworkGroup
group_steps [] groups = groups
group_steps (step ∷ steps) groups =
    if not (step.network == network_required)
    then group_steps steps groups
    else group_steps steps (add_to_group step groups)

unfoldable pub network_groups : Plan → List NetworkGroup
network_groups plan = group_steps plan.steps []

-- The steps of an operation's group.
abbrev pub grouped : Operation → List NetworkGroup → List Step
grouped operation [] = []
grouped operation (group ∷ groups) =
    if group.operation == operation then group.steps else grouped operation groups

abbrev pub is_member : Operation → Step → Bool
is_member operation step = step.network == network_required && step.operation == operation

abbrev pub groups_of : Operation → List NetworkGroup → ℕ
groups_of operation = count_if (λ group. group.operation == operation)

append_nil : (xs : List Step) → xs ++ [] ≡ xs
append_nil [] = refl
append_nil (x ∷ xs) = ap (◌∷◌ x) (append_nil xs)

snoc-append : (xs : List Step) (y : Step) (zs : List Step) → (xs ++ y ∷ []) ++ zs ≡ xs ++ y ∷ zs
snoc-append [] y zs = refl
snoc-append (x ∷ xs) y zs = ap (◌∷◌ x) (snoc-append xs y zs)

grouped-add_to_group :
    (operation : Operation) (step : Step) (groups : List NetworkGroup)
    → grouped operation (add_to_group step groups) ≡ (
        if step.operation == operation
        then grouped operation groups ++ step ∷ []
        else grouped operation groups)
unfolding add_to_group
grouped-add_to_group operation step [] = ground arith
grouped-add_to_group operation step (group ∷ groups) = ground (
  arith,
  grouped-add_to_group operation step groups,
  eq_iff group.operation step.operation,
  eq_iff group.operation operation,
  eq_iff step.operation operation,
)

grouped-group_steps :
    (operation : Operation) (steps : List Step) (groups : List NetworkGroup)
    → grouped operation (group_steps steps groups)
      ≡ grouped operation groups ++ select (is_member operation) steps
unfolding group_steps
grouped-group_steps operation [] groups = ground (arith, append_nil (grouped operation groups))
grouped-group_steps operation (step ∷ steps) groups = ground (
  arith,
  grouped-group_steps operation steps groups,
  grouped-group_steps operation steps (add_to_group step groups),
  grouped-add_to_group operation step groups,
  snoc-append (grouped operation groups) step (select (is_member operation) steps),
)

groups_of-add_to_group :
    (operation : Operation) (step : Step) (groups : List NetworkGroup)
    → groups_of operation (add_to_group step groups) ≡ (
        if step.operation == operation && beq_nat (groups_of operation groups) 0
        then 1
        else groups_of operation groups)
unfolding add_to_group
groups_of-add_to_group operation step [] = ground arith
groups_of-add_to_group operation step (group ∷ groups) = ground (
  arith,
  groups_of-add_to_group operation step groups,
  eq_iff group.operation step.operation,
  eq_iff group.operation operation,
  eq_iff step.operation operation,
)

groups_of-group_steps :
    (operation : Operation) (steps : List Step) (groups : List NetworkGroup)
    → groups_of operation groups ≤ 1
    → groups_of operation (group_steps steps groups) ≡ (
        if beq_nat (groups_of operation groups) 0 && not (any (is_member operation) steps)
        then 0
        else 1)
unfolding group_steps
groups_of-group_steps operation [] groups h = ground arith
groups_of-group_steps operation (step ∷ steps) groups h = ground (
  arith,
  groups_of-group_steps operation steps groups,
  groups_of-group_steps operation steps (add_to_group step groups),
  groups_of-add_to_group operation step groups,
)

-- The group of each operation holds the plan's steps with this operation that need the network, in
-- the plan's order, and no others.
pub grouped-network_groups :
    (plan : Plan) (operation : Operation)
    → grouped operation (network_groups plan) ≡ select (is_member operation) plan.steps
unfolding network_groups
grouped-network_groups plan operation = grouped-group_steps operation plan.steps []

-- An operation has one group if some step of the plan with this operation needs the network, and
-- none otherwise.
groups_of-network_groups :
    (plan : Plan) (operation : Operation)
    → groups_of operation (network_groups plan)
      ≡ (if any (is_member operation) plan.steps then 1 else 0)
unfolding network_groups
groups_of-network_groups plan operation =
    ground (arith, groups_of-group_steps operation plan.steps [])
