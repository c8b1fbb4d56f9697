-- ===== src/Planner/Build/Plans.antt =====
-- The plans of `BuildPlan`: complete, in order, and refused where dependencies form a cycle.
use alex_cachyos.Prelude.{
  String, ◌≡◌, refl, ◌∙◌, sym, ap, subst, Bool, true, false, ◌||◌, List, [], ◌∷◌, ◌++◌, map, Map,
  if◌then◌else◌, contains, is_nil, length, beq_nat, arith, count,
}
use alex_cachyos.Planner.Types.{Step, Module, Attempt, ok, failed, cycle, step_of, is_ok, ids}
use alex_cachyos.Planner.Graph.{Edge, has_edge, remaining}
use alex_cachyos.Planner.Build.{step_edges, all_step_edges, finish_order, order_steps}
use alex_cachyos.Planner.Build.Edges.{
  inherits, inherited-inherits, edges_of, all_step_edges-has_edge,
}
use alex_cachyos.Planner.Build.Steps.{lists_step}
use alex_cachyos.Planner.Graph.Construction.{has_edge-append}
use alex_cachyos.Planner.Graph.Loop.{Ordered}
use alex_cachyos.Planner.Build.Sorted.{collected, inherited, names, own, wanted}
use alex_cachyos.Planner.Build.Ordering.{
  IsBehind, end, order_steps-finish, end_count, end-Ordered, end_known, end_stuck, end-remaining,
  order-IsBehind, ids-order,
}

-- Each text stands behind all those that it has to follow.
abbrev pub IsOrdered : (String → String → Bool) → List String → List String → Type 0
IsOrdered follows seen [] = Unit
IsOrdered follows seen (v ∷ order) =
    ((u : String) → follows u v ≡ true → contains seen u ≡ true)
    × IsOrdered follows (seen ++ v ∷ []) order

Ordered-IsOrdered :
    (edges : List Edge) (follows : String → String → Bool)
    → ((u v : String) → has_edge edges u v ≡ follows u v)
    → (seen order : List String) → Ordered edges seen order
    → IsOrdered follows seen order
Ordered-IsOrdered edges follows same seen [] h = tt
Ordered-IsOrdered edges follows same seen (v ∷ order) h =
    ((λ u e. h.0 u (same u v ∙ e)), Ordered-IsOrdered edges follows same (seen ++ v ∷ []) order h.1)

-- The steps of the selected modules, each once, behind the steps of the modules that their module
-- depends on and behind the steps they depend on themselves.
abbrev pub IsOrderOf : List String → Map Module → Bool → List Step → Type 0
IsOrderOf selected modules only steps =
    ((v : String) → count v (ids steps) ≡ (if lists_step modules selected v then 1 else 0))
    × IsOrdered (inherits selected modules) [] (ids steps)
    × IsBehind only (lists_step modules selected) [] steps

Ordered-left :
    (edges others : List Edge) (seen order : List String)
    → Ordered (edges ++ others) seen order
    → Ordered edges seen order
Ordered-left edges others seen [] h = tt
Ordered-left edges others seen (v ∷ order) h = (
  (λ u e. h.0 u (ground (arith, has_edge-append edges others u v, e))),
  Ordered-left edges others (seen ++ v ∷ []) order h.1,
)

-- An error that is a cycle.
abbrev pub is_cycle {ℓ} : {A : Type ℓ} → Attempt A → Bool
is_cycle (failed (cycle nodes)) = true
is_cycle _ = false

step_edges-is_cycle :
    (only : Bool) (all_steps steps : Map Step) (id : String) (dependencies : List String)
    → is_cycle (step_edges only all_steps steps id dependencies) ≡ false
unfolding step_edges
step_edges-is_cycle only all_steps steps id [] = refl
step_edges-is_cycle only all_steps steps id (d ∷ dependencies) =
    ground (arith, step_edges-is_cycle only all_steps steps id dependencies)

all_step_edges-is_cycle :
    (only : Bool) (all_steps steps : Map Step) (names : List String)
    → is_cycle (all_step_edges only all_steps steps names) ≡ false
unfolding all_step_edges
all_step_edges-is_cycle only all_steps steps [] = refl
all_step_edges-is_cycle only all_steps steps (id ∷ names) = ground (
  arith,
  all_step_edges-is_cycle only all_steps steps names,
  step_edges-is_cycle only all_steps steps id (step_of steps id).depends_on,
)

-- A step waits for another, for its module's dependencies or for its own.
abbrev pub waits : List String → Map Module → String → String → Bool
waits selected modules u v =
    inherits selected modules u v || contains (step_of (collected selected modules) v).depends_on u

-- The texts that an error names are some, and each waits for one of them.
abbrev pub IsStuck : (String → String → Bool) → List String → Type 0
IsStuck awaits nodes =
    (is_nil nodes ≡ false)
    × ((v : String)
        → contains nodes v ≡ true
        → (u : String) × (awaits u v ≡ true) × (contains nodes u ≡ true))

module _ (selected : List String) (modules : Map Module) (all_steps : Map Step) (only : Bool) where
  passed :
      (ordered : List Step)
      → order_steps selected modules all_steps only ≡ ok ordered
      → is_ok (own selected modules only all_steps) ≡ true
  unfolding order_steps
  passed ordered e = ground (arith, e)

  finished :
      (ordered : List Step) (p : is_ok (own selected modules only all_steps) ≡ true)
      → order_steps selected modules all_steps only ≡ ok ordered
      → (length (end selected modules only all_steps p).done ≡ length (collected selected modules))
        × (ordered
            ≡ map
                (step_of (collected selected modules))
                (end selected modules only all_steps p).done)
  unfolding finish_order
  finished ordered p e = ground (arith, e, order_steps-finish selected modules only all_steps p)

  pub order_steps-IsOrderOf :
      (ordered : List Step)
      → order_steps selected modules all_steps only ≡ ok ordered
      → IsOrderOf selected modules only ordered
  order_steps-IsOrderOf ordered e =
      let p = passed ordered e in
      let (full, steps) = finished ordered p e in
      let known = end_known selected modules only all_steps p in
      let same =
        ids-order selected modules only all_steps p (end selected modules only all_steps p).done
          known in
      let sorted : IsOrderOf selected modules only (
          map (step_of (collected selected modules)) (end selected modules only all_steps p).done) =
        (
          (λ v. ap (count v) same ∙ end_count selected modules only all_steps p full v),
          subst (IsOrdered (inherits selected modules) []) (sym same) (
              Ordered-IsOrdered (inherited selected modules) (inherits selected modules)
                (inherited-inherits selected modules) []
                (end selected modules only all_steps p).done
                (Ordered-left (inherited selected modules)
                  (edges_of (own selected modules only all_steps)) []
                  (end selected modules only all_steps p).done
                  (end-Ordered selected modules only all_steps p))),
          order-IsBehind selected modules only all_steps p []
              (end selected modules only all_steps p).done
              (end-Ordered selected modules only all_steps p) known,
        ) in
      subst (IsOrderOf selected modules only) (sym steps) sorted

  passed_cycle :
      (nodes : List String)
      → order_steps selected modules all_steps only ≡ failed (cycle nodes)
      → is_ok (own selected modules only all_steps) ≡ true
  unfolding order_steps
  passed_cycle nodes e = ground (
    arith,
    e,
    all_step_edges-is_cycle only all_steps (collected selected modules)
        (names selected modules only all_steps),
  )

  finished_cycle :
      (nodes : List String) (p : is_ok (own selected modules only all_steps) ≡ true)
      → order_steps selected modules all_steps only ≡ failed (cycle nodes)
      → (beq_nat
            (length (end selected modules only all_steps p).done)
            (length (collected selected modules))
          ≡ false)
        × (nodes ≡ remaining (end selected modules only all_steps p))
  unfolding finish_order
  finished_cycle nodes p e = ground (arith, e, order_steps-finish selected modules only all_steps p)

  wanted-waits :
      (p : is_ok (own selected modules only all_steps) ≡ true) (u v : String)
      → has_edge (wanted selected modules only all_steps) u v ≡ true
      → waits selected modules u v ≡ true
  wanted-waits p u v e = ground (
    arith,
    e,
    has_edge-append (inherited selected modules) (edges_of (own selected modules only all_steps)) u
        v,
    inherited-inherits selected modules u v,
    all_step_edges-has_edge only all_steps (collected selected modules)
        (names selected modules only all_steps) u v p,
  )

  pub order_steps-IsStuck :
      (nodes : List String)
      → order_steps selected modules all_steps only ≡ failed (cycle nodes)
      → IsStuck (waits selected modules) nodes
  order_steps-IsStuck nodes e =
      let p = passed_cycle nodes e in
      let (short, left) = finished_cycle nodes p e in
      let stuck : IsStuck (waits selected modules)
          (remaining (end selected modules only all_steps p)) =
        (
          end-remaining selected modules only all_steps p short,
          λ v h.
              let (u, edge, waiting) = end_stuck selected modules only all_steps p v h in
              (u, wanted-waits p u v edge, waiting),
        ) in
      subst (IsStuck (waits selected modules)) (sym left) stuck
