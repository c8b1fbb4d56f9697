-- ===== src/Planner/Graph/Order.antt =====
-- What the loop of `moduleCycle` and `orderSteps` gives for a graph that `add` built.
use alex_cachyos.Prelude.{
  contains-count, ℕ, zero, suc, String, ◌≡◌, refl, sym, subst, ◌∙◌, Bool, true, false, not, ◌&&◌,
  List, [], ◌∷◌, ◌++◌, Map, keys, beq_nat, length, text_less, is_nil, ◌==◌, arith, count, contains,
  if◌then◌else◌, sort_by, sort_by-count,
}
use alex_cachyos.Planner.Graph.{
  Edge, Graph, has_edge, degree, State, drain, start, build_graph, with_degree, run_loop, remaining,
  pop, successors,
}
use alex_cachyos.Planner.Graph.Counts.{count_eq_length, count_le_length}
use alex_cachyos.Planner.Graph.Pending.{pending-pos}
use alex_cachyos.Planner.Graph.Construction.{
  IsDistinct, IsWellFormed, IsInside, count-with_degree, degree-keys, release-IsDistinct,
  build_graph-IsWellFormed, contains-build_graph, build_graph-has_edge,
}
use alex_cachyos.Planner.Graph.Loop.{
  Inv, Ordered, Finished, drain-unready, drain-pop, drain-Finished,
}

Ordered-has_edge :
    (edges wanted : List Edge) (seen order : List String)
    → ((u v : String) → has_edge edges u v ≡ has_edge wanted u v)
    → Ordered edges seen order
    → Ordered wanted seen order
Ordered-has_edge edges wanted seen [] same h = tt
Ordered-has_edge edges wanted seen (v ∷ order) same h =
    ((λ u e. h.0 u (same u v ∙ e)), Ordered-has_edge edges wanted (seen ++ v ∷ []) order same h.1)

pub length-keys {ℓ} : {V : Type ℓ} (degrees : Map V) → length (keys degrees) ≡ length degrees
length-keys [] = refl
length-keys (x ∷ degrees) = omega (arith, length-keys degrees)

drain-IsDistinct :
    (edges : List Edge) (less : String → String → Bool) (arrange : List String → List String)
    (fuel : ℕ) (s : State)
    → IsDistinct (keys s.degrees)
    → IsDistinct (keys (drain edges less arrange fuel s).degrees)
unfolding drain pop
drain-IsDistinct edges less arrange zero s h = h
drain-IsDistinct edges less arrange (suc fuel) s h =
    go (sort_by less s.ready) refl (drain-IsDistinct edges less arrange fuel)
  where
    go :
        (ys : List String)
        → sort_by less s.ready ≡ ys
        → ((t : State)
            → IsDistinct (keys t.degrees)
            → IsDistinct (keys (drain edges less arrange fuel t).degrees))
        → IsDistinct (keys (drain edges less arrange (suc fuel) s).degrees)
    go [] e next =
        subst (λ t. IsDistinct (keys t.degrees)) (sym (drain-unready edges less arrange fuel s e)) h
    go (id ∷ rest) e next =
        subst (λ t. IsDistinct (keys t.degrees))
          (sym (drain-pop edges less arrange fuel s id rest e))
          (next (pop edges less arrange id rest s)
            (release-IsDistinct (arrange (successors id edges)) s.degrees rest h))

start-Inv : (g : Graph) → IsWellFormed g → Inv g.edges (keys g.degrees) (start g)
unfolding start contains
start-Inv g h = (h.0, (λ v. ground (arith, count-with_degree (λ n. beq_nat n 0) g.degrees v h.4)))

module _ (less : String → String → Bool) (arrange : List String → List String)
    (arranged : (v : String) (xs : List String) → count v (arrange xs) ≡ count v xs)
    (names : List String) (edges : List Edge) (inside : IsInside edges names) where
  abbrev graph : Graph
  graph = build_graph names edges

  abbrev pub final : State
  final = run_loop less arrange graph

  well_formed : IsWellFormed graph
  well_formed = build_graph-IsWellFormed names edges inside

  finished : Finished graph.edges (keys graph.degrees) final
  unfolding run_loop start
  finished =
      drain-Finished graph.edges less arrange (keys graph.degrees) well_formed.1 well_formed.3
        arranged (length graph.degrees) (start graph) (start-Inv graph well_formed) tt
        (omega (arith, length-keys graph.degrees))

  -- A node is done, once, if and only if its counter is 0 at the end.
  pub count-done :
      (v : String)
      → count v final.done
        ≡ (if contains names v && beq_nat (degree final.degrees v) 0 then 1 else 0)
  count-done v =
      ground (arith, (finished.0).1 v, finished.2, contains-build_graph names edges inside v)

  pub done-Ordered : Ordered edges [] final.done
  done-Ordered =
      Ordered-has_edge graph.edges edges [] final.done (build_graph-has_edge names edges inside)
        finished.1

  pub done-IsDistinct : IsDistinct final.done
  done-IsDistinct v = ground (arith, count-done v)

  -- As many nodes done as there are: every node is done.
  pub done-all :
      length final.done ≡ length graph.degrees
      → (v : String) → contains names v ≡ true
      → count v final.done ≡ 1
  done-all e v h =
      let c =
        count_eq_length final.done (keys graph.degrees)
          (λ u. ground (
            arith,
            count-done u,
            contains-build_graph names edges inside u,
            contains-count (keys graph.degrees) u,
          ))
          (omega (arith, length-keys graph.degrees)) v in
      ground (
        arith,
        count-done v,
        contains-build_graph names edges inside v,
        contains-count (keys graph.degrees) v,
      )

  final-IsDistinct : IsDistinct (keys final.degrees)
  unfolding run_loop start
  final-IsDistinct =
      drain-IsDistinct graph.edges less arrange (length graph.degrees) (start graph) well_formed.4

  contains-remaining :
      (v : String) → contains (remaining final) v ≡ not (beq_nat (degree final.degrees v) 0)
  unfolding remaining
  contains-remaining v = ground (
    arith,
    contains-count (sort_by text_less (with_degree (λ n. not (beq_nat n 0)) final.degrees)) v,
    sort_by-count text_less (λ y. y == v) (with_degree (λ n. not (beq_nat n 0)) final.degrees),
    count-with_degree (λ n. not (beq_nat n 0)) final.degrees v final-IsDistinct,
    degree-keys final.degrees v,
  )

  -- A node that remains waits for another that remains.
  pub remaining-stuck :
      (v : String)
      → contains (remaining final) v ≡ true
      → (u : String) × (has_edge edges u v ≡ true) × (contains (remaining final) u ≡ true)
  remaining-stuck v h =
      let (u, edge, waits) =
        pending-pos graph.edges final.done v
          (ground (arith, contains-remaining v, (finished.0).0 v)) in
      (
        u,
        sym (build_graph-has_edge names edges inside u v) ∙ edge,
        ground (
          arith,
          contains-remaining u,
          count-done u,
          contains-count final.done u,
          well_formed.2 u v edge,
          contains-build_graph names edges inside u,
        ),
      )

  contains→count : IsDistinct names → (v : String) → count v (keys graph.degrees) ≡ count v names
  contains→count distinct v = ground (
    arith,
    distinct v,
    well_formed.4 v,
    contains-build_graph names edges inside v,
    contains-count (keys graph.degrees) v,
    contains-count names v,
  )

  pub length-degrees : IsDistinct names → length graph.degrees ≡ length names
  length-degrees distinct = omega (
    arith,
    length-keys graph.degrees,
    count_le_length (keys graph.degrees) names (λ v. omega (arith, contains→count distinct v)),
    count_le_length names (keys graph.degrees) (λ v. omega (arith, contains→count distinct v)),
  )

  nothing_remains :
      remaining final ≡ [] → (v : String) → contains names v ≡ true → count v final.done ≡ 1
  unfolding contains
  nothing_remains e v h = ground (arith, e, count-done v, contains-remaining v)

  -- If the loop stops before all nodes are done, some remain.
  pub remaining-is_nil :
      IsDistinct names
      → beq_nat (length final.done) (length names) ≡ false
      → is_nil (remaining final) ≡ false
  remaining-is_nil distinct short = go (remaining final) refl
    where
      go : (left : List String) → remaining final ≡ left → is_nil left ≡ false
      go [] e = absurd (
          ground (
            arith,
            short,
            count_le_length names final.done
                (λ v. ground (arith, nothing_remains e v, contains-count names v, distinct v)),
            count_le_length final.done names
                (λ v. ground (arith, count-done v, contains-count names v)),
          ))
      go (x ∷ left) e = refl

  pub done-full :
      IsDistinct names
      → length final.done ≡ length names
      → (v : String) → count v final.done ≡ (if contains names v then 1 else 0)
  done-full distinct full v =
      ground (arith, count-done v, done-all (omega (arith, full, length-degrees distinct)) v)

  -- Over a graph that `add` built from edges between the given nodes, as many rounds as there are
  -- nodes are enough: the loop stops since no node is ready any more. Then the nodes whose counter
  -- is 0 are done, each once, the others are not, and each node that is done came after every node
  -- with an edge to it.
  pub run_loop-Finished :
      ((run_loop less arrange (build_graph names edges)).ready ≡ [])
      × ((v : String)
          → count v (run_loop less arrange (build_graph names edges)).done ≡ (
              if contains names v
                && beq_nat (degree (run_loop less arrange (build_graph names edges)).degrees v) 0
              then 1
              else 0))
      × Ordered edges [] (run_loop less arrange (build_graph names edges)).done
  run_loop-Finished = (finished.2, count-done, done-Ordered)
