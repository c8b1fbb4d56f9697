-- ===== src/Planner/Build/Edges.antt =====
-- Which edges `moduleCycle` and `orderSteps` add.
use alex_cachyos.Prelude.{
  String, ◌≡◌, refl, ◌∙◌, any-append, Bool-cases, inl, inr, Bool, true, ◌&&◌, ◌||◌, List, [], ◌∷◌,
  map, Map, lookup, ◌==◌, eq_iff, contains, is_some, arith, all, any,
}
use alex_cachyos.Planner.Types.{Step, Module, Attempt, ok, failed, module_of, step_of, is_ok, ids}
use alex_cachyos.Planner.Graph.{Edge, has_edge}
use alex_cachyos.Planner.Build.{
  module_edges, all_module_edges, cross, inherited_edges, step_edges, all_step_edges,
}
use alex_cachyos.Planner.Graph.Construction.{has_edge-append}

module_edges-has_edge :
    (selected : List String) (name : String) (dependencies : List String) (u v : String)
    → has_edge (module_edges selected name dependencies) u v
      ≡ (contains dependencies u && contains selected u && name == v)
unfolding module_edges has_edge contains
module_edges-has_edge selected name [] u v = refl
module_edges-has_edge selected name (d ∷ dependencies) u v =
    ground (arith, module_edges-has_edge selected name dependencies u v, eq_iff d u)

pub all_module_edges-has_edge :
    (selected : List String) (modules : Map Module) (names : List String) (u v : String)
    → has_edge (all_module_edges selected modules names) u v
      ≡ (contains names v && contains selected u && contains (module_of modules v).depends_on u)
unfolding all_module_edges has_edge contains
all_module_edges-has_edge selected modules [] u v = refl
all_module_edges-has_edge selected modules (name ∷ names) u v = ground (
  arith,
  all_module_edges-has_edge selected modules names u v,
  eq_iff name v,
  module_edges-has_edge selected name (module_of modules name).depends_on u v,
  has_edge-append (module_edges selected name (module_of modules name).depends_on)
      (all_module_edges selected modules names) u v,
)

map-has_edge :
    (from : String) (tos : List String) (u v : String)
    → has_edge (map (λ to. (from, to)) tos) u v ≡ (from == u && contains tos v)
unfolding has_edge contains
map-has_edge from [] u v = ground arith
map-has_edge from (to ∷ tos) u v = ground (arith, map-has_edge from tos u v)

pub cross-has_edge :
    (froms tos : List String) (u v : String)
    → has_edge (cross froms tos) u v ≡ (contains froms u && contains tos v)
unfolding cross has_edge contains
cross-has_edge [] tos u v = refl
cross-has_edge (from ∷ froms) tos u v = ground (
  arith,
  cross-has_edge froms tos u v,
  map-has_edge from tos u v,
  has_edge-append (map (λ to. (from, to)) tos) (cross froms tos) u v,
)

-- An edge of the modules that a pair of steps inherits.
abbrev pub links : Map Module → String → String → Edge → Bool
links modules u v e =
    contains (ids (module_of modules e.0).steps) u && contains (ids (module_of modules e.1).steps) v

pub inherited_edges-has_edge :
    (modules : Map Module) (edges : List Edge) (u v : String)
    → has_edge (inherited_edges modules edges) u v ≡ any (links modules u v) edges
unfolding inherited_edges has_edge
inherited_edges-has_edge modules [] u v = refl
inherited_edges-has_edge modules (e ∷ edges) u v = ground (
  arith,
  inherited_edges-has_edge modules edges u v,
  cross-has_edge (ids (module_of modules e.0).steps) (ids (module_of modules e.1).steps) u v,
  has_edge-append (cross (ids (module_of modules e.0).steps) (ids (module_of modules e.1).steps))
      (inherited_edges modules edges) u v,
)

-- A step of a selected module waits for the steps of the selected modules that it depends on.
abbrev pub inherits : List String → Map Module → String → String → Bool
inherits selected modules u v =
    any
      (λ name.
        contains (ids (module_of modules name).steps) v
        && any (λ d. contains selected d && contains (ids (module_of modules d).steps) u)
            (module_of modules name).depends_on)
      selected

module_edges-links :
    (selected : List String) (modules : Map Module) (name : String) (dependencies : List String)
    (u v : String)
    → any (links modules u v) (module_edges selected name dependencies) ≡ (
        contains (ids (module_of modules name).steps) v
        && any
            (λ d. contains selected d && contains (ids (module_of modules d).steps) u)
            dependencies)
unfolding module_edges
module_edges-links selected modules name [] u v = ground arith
module_edges-links selected modules name (d ∷ dependencies) u v =
    ground (arith, module_edges-links selected modules name dependencies u v)

all_module_edges-links :
    (selected : List String) (modules : Map Module) (names : List String) (u v : String)
    → any (links modules u v) (all_module_edges selected modules names)
      ≡ any
          (λ name.
            contains (ids (module_of modules name).steps) v
            && any
                (λ d. contains selected d && contains (ids (module_of modules d).steps) u)
                (module_of modules name).depends_on)
          names
unfolding all_module_edges
all_module_edges-links selected modules [] u v = refl
all_module_edges-links selected modules (name ∷ names) u v = ground (
  arith,
  any-append (links modules u v) (module_edges selected name (module_of modules name).depends_on)
      (all_module_edges selected modules names),
  module_edges-links selected modules name (module_of modules name).depends_on u v,
  all_module_edges-links selected modules names u v,
)

pub inherited-inherits :
    (selected : List String) (modules : Map Module) (u v : String)
    → has_edge (inherited_edges modules (all_module_edges selected modules selected)) u v
      ≡ inherits selected modules u v
inherited-inherits selected modules u v =
    inherited_edges-has_edge modules (all_module_edges selected modules selected) u v
    ∙ all_module_edges-links selected modules selected u v

pub any-has_edge :
    (p : Edge → Bool) (edges : List Edge)
    → any p edges ≡ true
    → (u : String) × (v : String) × (has_edge edges u v ≡ true) × (p (u, v) ≡ true)
unfolding has_edge
any-has_edge p [] h = absurd (cc h)
any-has_edge p (e ∷ edges) h = elim (Bool-cases (p e)) [
  | inl here ↦ (e.0, e.1, ground (arith, eq_iff e.0 e.0, eq_iff e.1 e.1), here)
  | inr there ↦
      let (u, v, edge, holds) = any-has_edge p edges (ground (arith, h, there)) in
      (u, v, ground (arith, edge), holds)
]

pub has_edge-any :
    (p : Edge → Bool) (edges : List Edge) (u v : String)
    → has_edge edges u v ≡ true
    → p (u, v) ≡ true
    → any p edges ≡ true
unfolding has_edge
has_edge-any p [] u v h e = absurd (cc h)
has_edge-any p ((f, t) ∷ edges) u v h e =
    ground (arith, has_edge-any p edges u v, eq_iff f u, eq_iff t v)

-- The edges, where there are any.
abbrev pub edges_of : Attempt (List Edge) → List Edge
edges_of (ok edges) = edges
edges_of (failed e) = []

module _ (only : Bool) (all_steps steps : Map Step) where
  -- What `orderSteps` asks of a dependency.
  abbrev pub is_known : String → Bool
  is_known d = is_some (lookup d all_steps) && (is_some (lookup d steps) || only)

  pub step_edges-is_known :
      (id : String) (dependencies : List String)
      → is_ok (step_edges only all_steps steps id dependencies) ≡ all is_known dependencies
  unfolding step_edges
  step_edges-is_known id [] = refl
  step_edges-is_known id (d ∷ dependencies) = ground (arith, step_edges-is_known id dependencies)

  step_edges-has_edge :
      (id : String) (dependencies : List String) (u v : String)
      → is_ok (step_edges only all_steps steps id dependencies) ≡ true
      → has_edge (edges_of (step_edges only all_steps steps id dependencies)) u v
        ≡ (id == v && contains dependencies u && is_some (lookup u steps))
  unfolding step_edges has_edge contains
  step_edges-has_edge id [] u v h = ground arith
  step_edges-has_edge id (d ∷ dependencies) u v h =
      ground (arith, step_edges-has_edge id dependencies u v, eq_iff d u)

  abbrev pub step_known : String → Bool
  step_known id = all is_known (step_of steps id).depends_on

  pub all_step_edges-is_known :
      (names : List String)
      → is_ok (all_step_edges only all_steps steps names) ≡ all step_known names
  unfolding all_step_edges
  all_step_edges-is_known [] = refl
  all_step_edges-is_known (id ∷ names) =
      ground
        (arith, all_step_edges-is_known names, step_edges-is_known id (step_of steps id).depends_on)

  pub all_step_edges-has_edge :
      (names : List String) (u v : String)
      → is_ok (all_step_edges only all_steps steps names) ≡ true
      → has_edge (edges_of (all_step_edges only all_steps steps names)) u v
        ≡ (contains names v && contains (step_of steps v).depends_on u && is_some (lookup u steps))
  unfolding all_step_edges has_edge contains
  all_step_edges-has_edge [] u v h = refl
  all_step_edges-has_edge (id ∷ names) u v h = ground (
    arith,
    all_step_edges-has_edge names u v,
    eq_iff id v,
    step_edges-has_edge id (step_of steps id).depends_on u v,
    has_edge-append (edges_of (step_edges only all_steps steps id (step_of steps id).depends_on))
        (edges_of (all_step_edges only all_steps steps names)) u v,
  )
