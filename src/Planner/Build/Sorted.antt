-- ===== src/Planner/Build/Sorted.antt =====
-- What `orderSteps` gives: every step of the selected modules, once, behind those it depends on.
use alex_cachyos.Prelude.{
  contains-sort_by, String, ◌≡◌, ◌∙◌, sym, Bool, true, List, [], ◌∷◌, ◌++◌, Map, keys, eq_iff,
  contains, arith, sort_by, any, text_less,
}
use alex_cachyos.Planner.Types.{Step, Module, Attempt, module_of, is_ok, ids}
use alex_cachyos.Planner.Graph.{Edge, has_edge}
use alex_cachyos.Planner.Build.{all_module_edges, collect_steps, inherited_edges, all_step_edges}
use alex_cachyos.Planner.Build.Edges.{
  all_module_edges-has_edge, links, inherited_edges-has_edge, any-has_edge, edges_of,
  all_step_edges-has_edge,
}
use alex_cachyos.Planner.Build.Steps.{
  is_some-lookup, lists_step, contains-collect_steps, collect_steps-IsKeyed,
  collect_steps-IsDistinct, IsKeyed,
}
use alex_cachyos.Planner.Graph.Construction.{IsDistinct, IsInside, has_edge-append}

contains-any :
    (p : String → Bool) (names : List String) (v : String)
    → contains names v ≡ true
    → p v ≡ true
    → any p names ≡ true
unfolding contains
contains-any p [] v h e = absurd (cc h)
contains-any p (name ∷ names) v h e = ground (arith, contains-any p names v, eq_iff name v)

module _ (selected : List String) (modules : Map Module) where
  abbrev pub collected : Map Step
  collected = collect_steps modules selected []

  abbrev pub inherited : List Edge
  inherited = inherited_edges modules (all_module_edges selected modules selected)

  pub keyed : IsKeyed collected
  unfolding contains
  keyed = collect_steps-IsKeyed modules selected [] (λ v e. absurd (cc e))

  pub distinct : IsDistinct (keys collected)
  distinct = collect_steps-IsDistinct modules selected [] (λ v. omega arith)

  pub contains-collected :
      (v : String) → contains (keys collected) v ≡ lists_step modules selected v
  unfolding contains
  contains-collected v = ground (arith, contains-collect_steps modules selected [] v)

  linked :
      (u v : String)
      → has_edge inherited u v ≡ true
      → (lists_step modules selected u ≡ true) × (lists_step modules selected v ≡ true)
  linked u v h =
      let edges = all_module_edges selected modules selected in
      let (a, b, edge, holds) =
        any-has_edge (links modules u v) edges
          (sym (inherited_edges-has_edge modules edges u v) ∙ h) in
      let ends = all_module_edges-has_edge selected modules selected a b in
      (
        contains-any (λ name. contains (ids (module_of modules name).steps) u) selected a
            (ground (arith, ends, edge)) (ground (arith, holds)),
        contains-any (λ name. contains (ids (module_of modules name).steps) v) selected b
            (ground (arith, ends, edge)) (ground (arith, holds)),
      )

  module _ (only : Bool) (all_steps : Map Step) where
    abbrev pub names : List String
    names = sort_by text_less (keys collected)

    abbrev pub own : Attempt (List Edge)
    own = all_step_edges only all_steps collected names

    abbrev pub wanted : List Edge
    wanted = inherited ++ edges_of own

    module _ (passed : is_ok own ≡ true) where
      pub inside : IsInside wanted (keys collected)
      inside = (
        (λ u v e. ground (
          arith,
          linked u v,
          contains-collected u,
          is_some-lookup u collected,
          has_edge-append inherited (edges_of own) u v,
          e,
          all_step_edges-has_edge only all_steps collected names u v passed,
        )),
        (λ u v e. ground (
          arith,
          linked u v,
          contains-collected v,
          has_edge-append inherited (edges_of own) u v,
          e,
          contains-sort_by (keys collected) v,
          all_step_edges-has_edge only all_steps collected names u v passed,
        )),
      )
