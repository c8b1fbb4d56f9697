-- ===== src/Planner/Build/Ordering.antt =====
-- The order of the steps that `orderSteps` gives, and the cycles that it reports.
use alex_cachyos.Prelude.{
  contains-sort_by, contains-count, String, ◌≡◌, refl, ◌∙◌, sym, ap, subst, Bool, true, false, not,
  ◌&&◌, ◌||◌, List, [], ◌∷◌, ◌++◌, map, Map, keys, ◌==◌, eq_iff, if◌then◌else◌, contains, is_nil,
  length, beq_nat, arith, sort_by-count, sort_by, count, all, All, text_less,
}
use alex_cachyos.Planner.Types.{Step, Module, step_of, is_ok, ids}
use alex_cachyos.Planner.Graph.{has_edge, State, remaining}
use alex_cachyos.Planner.Select.{step_less}
use alex_cachyos.Planner.Build.{step_loop, finish_order, order_steps}
use alex_cachyos.Planner.Build.Edges.{
  is_known, step_known, edges_of, all_step_edges-is_known, all_step_edges-has_edge,
}
use alex_cachyos.Planner.Build.Steps.{is_some-lookup, lists_step}
use alex_cachyos.Planner.Graph.Construction.{has_edge-append}
use alex_cachyos.Planner.Graph.Loop.{Ordered}
use alex_cachyos.Planner.Graph.Order.{
  count-done, done-Ordered, done-full, length-keys, remaining-stuck, remaining-is_nil,
}
use alex_cachyos.Planner.Build.Sorted.{
  collected, inherited, keyed, distinct, contains-collected, names, own, wanted, inside,
}
use alex_cachyos.Planner.Select.Supplied.{all-contains, contains-all}

-- Every step is behind the steps that it depends on, where `listed` holds of the ids that must have
-- a place.
abbrev pub IsBehind : Bool → (String → Bool) → List String → List Step → Type 0
IsBehind only listed seen [] = Unit
IsBehind only listed seen (step ∷ steps) =
    (all (λ d. contains seen d || only && not (listed d)) step.depends_on ≡ true)
    × IsBehind only listed (seen ++ step.id ∷ []) steps

All-contains :
    (p : String → Bool) (order : List String)
    → ((v : String) → contains order v ≡ true → p v ≡ true)
    → All (λ v. p v ≡ true) order
unfolding contains
All-contains p [] h = tt
All-contains p (v ∷ order) h =
    (h v (ground (arith, eq_iff v v)), All-contains p order (λ u e. h u (ground (arith, e))))

module _ (selected : List String) (modules : Map Module) (only : Bool) (all_steps : Map Step)
    (passed : is_ok (own selected modules only all_steps) ≡ true) where
  known :
      (v : String)
      → contains (keys (collected selected modules)) v ≡ true
      → step_known only all_steps (collected selected modules) v ≡ true
  known v e =
      all-contains (step_known only all_steps (collected selected modules))
        (names selected modules only all_steps) v
        (sym (
            all_step_edges-is_known only all_steps (collected selected modules)
              (names selected modules only all_steps))
          ∙ passed)
        (contains-sort_by (keys (collected selected modules)) v ∙ e)

  own_edge :
      (u v : String)
      → contains (keys (collected selected modules)) v ≡ true
      → contains (step_of (collected selected modules) v).depends_on u ≡ true
      → contains (keys (collected selected modules)) u ≡ true
      → has_edge (wanted selected modules only all_steps) u v ≡ true
  own_edge u v e d k = ground (
    arith,
    e,
    d,
    k,
    is_some-lookup u (collected selected modules),
    contains-sort_by (keys (collected selected modules)) v,
    has_edge-append (inherited selected modules) (edges_of (own selected modules only all_steps)) u
        v,
    all_step_edges-has_edge only all_steps (collected selected modules)
        (names selected modules only all_steps) u v passed,
  )

  pub order-IsBehind :
      (seen order : List String)
      → Ordered (wanted selected modules only all_steps) seen order
      → All (λ v. contains (keys (collected selected modules)) v ≡ true) order
      → IsBehind only
          (lists_step modules selected)
          seen
          (map (step_of (collected selected modules)) order)
  order-IsBehind seen [] o k = tt
  order-IsBehind seen (v ∷ order) o k = (
    contains-all (λ d. contains seen d || only && not (lists_step modules selected d))
        (step_of (collected selected modules) v).depends_on
        (λ d e. ground (
          arith,
          o.0 d,
          own_edge d v (k.0) e,
          contains-collected selected modules d,
          is_some-lookup d (collected selected modules),
          all-contains (is_known only all_steps (collected selected modules))
              (step_of (collected selected modules) v).depends_on d (known v k.0) e,
        )),
    subst
        (λ id.
          IsBehind only (lists_step modules selected) (seen ++ id ∷ [])
            (map (step_of (collected selected modules)) order))
        (sym (keyed selected modules v k.0)) (order-IsBehind (seen ++ v ∷ []) order o.1 k.1),
  )

  pub ids-order :
      (order : List String)
      → All (λ v. contains (keys (collected selected modules)) v ≡ true) order
      → ids (map (step_of (collected selected modules)) order) ≡ order
  ids-order [] k = refl
  ids-order (v ∷ order) k = ground (arith, keyed selected modules v k.0, ids-order order k.1)

-- The loop of `orderSteps` for collected steps and the edges between them.
module _ (selected : List String) (modules : Map Module) (only : Bool) (all_steps : Map Step)
    (passed : is_ok (own selected modules only all_steps) ≡ true) where
  less : String → String → Bool
  less a b =
      step_less (step_of (collected selected modules) a) (step_of (collected selected modules) b)

  arranged : (v : String) (xs : List String) → count v (sort_by text_less xs) ≡ count v xs
  arranged v xs = sort_by-count text_less (λ y. y == v) xs

  abbrev pub end : State
  end = step_loop (collected selected modules) (wanted selected modules only all_steps)

  pub order_steps-finish :
      order_steps selected modules all_steps only ≡ finish_order (collected selected modules) end
  unfolding order_steps
  order_steps-finish = ground (arith, passed)

  pub end_count :
      length end.done ≡ length (collected selected modules)
      → (v : String) → count v end.done ≡ (if lists_step modules selected v then 1 else 0)
  unfolding step_loop less
  end_count full v =
      done-full less (sort_by text_less) arranged (keys (collected selected modules))
        (wanted selected modules only all_steps) (inside selected modules only all_steps passed)
        (distinct selected modules) (full ∙ sym (length-keys (collected selected modules))) v
      ∙ ap (λ b. if b then 1 else 0) (contains-collected selected modules v)

  pub end-Ordered : Ordered (wanted selected modules only all_steps) [] end.done
  unfolding step_loop less
  end-Ordered =
      done-Ordered less (sort_by text_less) arranged (keys (collected selected modules))
        (wanted selected modules only all_steps) (inside selected modules only all_steps passed)

  pub end_known : All (λ v. contains (keys (collected selected modules)) v ≡ true) end.done
  unfolding step_loop less
  end_known = All-contains (contains (keys (collected selected modules))) end.done (λ v e. ground (
    arith,
    e,
    contains-count end.done v,
    count-done less (sort_by text_less) arranged (keys (collected selected modules))
        (wanted selected modules only all_steps) (inside selected modules only all_steps passed) v,
  ))

  pub end_stuck :
      (v : String)
      → contains (remaining end) v ≡ true
      → (u : String) × (has_edge (wanted selected modules only all_steps) u v ≡ true)
        × (contains (remaining end) u ≡ true)
  unfolding step_loop less
  end_stuck v h =
      remaining-stuck less (sort_by text_less) arranged (keys (collected selected modules))
        (wanted selected modules only all_steps) (inside selected modules only all_steps passed) v h

  pub end-remaining :
      beq_nat (length end.done) (length (collected selected modules)) ≡ false
      → is_nil (remaining end) ≡ false
  unfolding step_loop less
  end-remaining short =
      remaining-is_nil less (sort_by text_less) arranged (keys (collected selected modules))
        (wanted selected modules only all_steps) (inside selected modules only all_steps passed)
        (distinct selected modules)
        (ground (arith, short, length-keys (collected selected modules)))
