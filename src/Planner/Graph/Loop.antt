-- ===== src/Planner/Graph/Loop.antt =====
-- The loop of `moduleCycle` and `orderSteps`: what holds of its state, and that it ends.
use alex_cachyos.Prelude.{
  contains-count, ℕ, zero, suc, ◌+◌, ◌≤◌, String, ◌≡◌, refl, sym, subst, Bool, true, false, ◌&&◌,
  List, [], ◌∷◌, ◌++◌, beq_nat, length, length-append, ◌==◌, eq_iff, arith, count, count_if,
  contains, if◌then◌else◌, sort_by, sort_by-count,
}
use alex_cachyos.Planner.Graph.{Edge, has_edge, degree, successors, State, pop, drain}
use alex_cachyos.Planner.Graph.Counts.{count-append, contains-append, count_le_length}
use alex_cachyos.Planner.Graph.Pending.{
  pending, edge_count, count-successors, pending_snoc, pending-zero, release-degree, release-ready,
  has_edge-edge_count,
}

-- The counters count what is pending, and the nodes without a pending edge, and no others, are done
-- or ready, once.
abbrev pub Inv : List Edge → List String → State → Type 0
Inv edges nodes s =
    ((v : String) → degree s.degrees v ≡ pending edges s.done v)
    × ((v : String)
        → count v s.done + count v s.ready
          ≡ (if contains nodes v && beq_nat (degree s.degrees v) 0 then 1 else 0))

-- The nodes of `order` come after every node with an edge to them, where those of `seen` came
-- before.
abbrev pub Ordered : List Edge → List String → List String → Type 0
Ordered edges seen [] = Unit
Ordered edges seen (v ∷ order) =
    ((u : String) → has_edge edges u v ≡ true → contains seen u ≡ true)
    × Ordered edges (seen ++ v ∷ []) order

-- A state that satisfies all this, without a ready node left.
abbrev pub Finished : List Edge → List String → State → Type 0
Finished edges nodes s = Inv edges nodes s × Ordered edges [] s.done × (s.ready ≡ [])

Ordered-snoc :
    (edges : List Edge) (seen order : List String) (id : String)
    → Ordered edges seen order
    → ((u : String) → has_edge edges u id ≡ true → contains (seen ++ order) u ≡ true)
    → Ordered edges seen (order ++ id ∷ [])
Ordered-snoc edges seen [] id h last =
    (λ u e. ground (arith, last u e, contains-append seen [] u, contains-count [] u), tt)
Ordered-snoc edges seen (v ∷ order) id h last = (
  h.0,
  Ordered-snoc edges (seen ++ v ∷ []) order id h.1 (λ u e. ground (
    arith,
    last u e,
    contains-append seen (v ∷ order) u,
    contains-append (seen ++ v ∷ []) order u,
    contains-append seen (v ∷ []) u,
    contains-count (v ∷ order) u,
    contains-count (v ∷ []) u,
    contains-count order u,
  )),
)

no_item : (xs : List String) → count_if (λ x. true) xs ≡ 0 → xs ≡ []
no_item [] h = refl
no_item (x ∷ xs) h = absurd (omega arith)

module _ (edges : List Edge) (less : String → String → Bool) (arrange : List String → List String)
    (fuel : ℕ) (s : State) where
  pub drain-unready : sort_by less s.ready ≡ [] → drain edges less arrange (suc fuel) s ≡ s
  unfolding drain
  drain-unready e = ground (arith, e)

  pub drain-pop :
      (id : String) (rest : List String)
      → sort_by less s.ready ≡ id ∷ rest
      → drain edges less arrange (suc fuel) s
        ≡ drain edges less arrange fuel (pop edges less arrange id rest s)
  unfolding drain pop
  drain-pop id rest e = ground (arith, e)

module _ (edges : List Edge) (less : String → String → Bool) (arrange : List String → List String)
    (nodes : List String) (once : (u v : String) → edge_count edges u v ≤ 1)
    (inside : (u v : String) → has_edge edges u v ≡ true → contains nodes v ≡ true)
    (arranged : (v : String) (xs : List String) → count v (arrange xs) ≡ count v xs) where
  count_arranged : (id v : String) → count v (arrange (successors id edges)) ≡ edge_count edges id v
  count_arranged id v = omega (arith, arranged v (successors id edges), count-successors id v edges)

  arranged_once : (id v : String) → count v (arrange (successors id edges)) ≤ 1
  arranged_once id v = omega (arith, count_arranged id v, once id v)

  module _ (s : State) (id : String) (rest : List String) (h : Inv edges nodes s)
      (r : sort_by less s.ready ≡ id ∷ rest) where
    ready-count : (v : String) → count v s.ready ≡ count v (id ∷ rest)
    ready-count v = omega (
      arith,
      subst (λ ys. count v ys ≡ count v s.ready) r (sort_by-count less (λ y. y == v) s.ready),
    )

    not_done : contains s.done id ≡ false
    not_done = ground (arith, h.1 id, ready-count id, eq_iff id id, contains-count s.done id)

    pop-degree :
        (v : String)
        → degree (pop edges less arrange id rest s).degrees v
          ≡ pending edges (pop edges less arrange id rest s).done v
    unfolding pop
    pop-degree v = omega (
      arith,
      h.0 v,
      pending_snoc edges s.done id v not_done,
      count_arranged id v,
      release-degree (arrange (successors id edges)) s.degrees rest v (arranged_once id),
    )

    pop-count :
        (v : String)
        → count v (pop edges less arrange id rest s).done
            + count v (pop edges less arrange id rest s).ready
          ≡ (if contains nodes v && beq_nat (degree (pop edges less arrange id rest s).degrees v) 0
              then 1
              else 0)
    unfolding pop
    pop-count v = ground (
      arith,
      h.0 v,
      h.1 v,
      pending_snoc edges s.done id v not_done,
      count_arranged id v,
      release-degree (arrange (successors id edges)) s.degrees rest v (arranged_once id),
      release-ready (arrange (successors id edges)) s.degrees rest v (arranged_once id),
      ready-count v,
      count-append v s.done (id ∷ []),
      inside id v,
      has_edge-edge_count edges id v,
      once id v,
    )

    pop-Inv : Inv edges nodes (pop edges less arrange id rest s)
    pop-Inv = (pop-degree, pop-count)

    pop-Ordered : Ordered edges [] s.done → Ordered edges [] (pop edges less arrange id rest s).done
    unfolding pop
    pop-Ordered o = Ordered-snoc edges [] s.done id o (λ u e.
        pending-zero edges s.done u id
          (ground (arith, h.0 id, h.1 id, ready-count id, eq_iff id id)) e)

  full : (s : State) → Inv edges nodes s → length s.done + length s.ready ≤ length nodes
  full s h = omega (
    arith,
    length-append s.done s.ready,
    count_le_length (s.done ++ s.ready) nodes
        (λ v. ground (arith, h.1 v, count-append v s.done s.ready, contains-count nodes v)),
  )

  no_length : (xs : List String) → length xs ≡ 0 → xs ≡ []
  no_length [] h = refl
  no_length (x ∷ xs) h = absurd (omega arith)

  -- Fuel for as many rounds as there are nodes is enough.
  pub drain-Finished :
      (fuel : ℕ) (s : State)
      → Inv edges nodes s
      → Ordered edges [] s.done
      → length nodes ≤ fuel + length s.done
      → Finished edges nodes (drain edges less arrange fuel s)
  unfolding pop drain
  drain-Finished zero s h o f = (h, o, no_length s.ready (omega (arith, full s h)))
  drain-Finished (suc fuel) s h o f = go (sort_by less s.ready) refl (drain-Finished fuel)
    where
      go :
          (ys : List String)
          → sort_by less s.ready ≡ ys
          → ((t : State)
              → Inv edges nodes t
              → Ordered edges [] t.done
              → length nodes ≤ fuel + length t.done
              → Finished edges nodes (drain edges less arrange fuel t))
          → Finished edges nodes (drain edges less arrange (suc fuel) s)
      go [] e next =
          let finished : Finished edges nodes s = (
            h,
            o,
            no_item s.ready (
                omega (
                  arith,
                  subst (λ ys. count_if (λ x. true) ys ≡ count_if (λ x. true) s.ready) e
                      (sort_by-count less (λ x. true) s.ready),
                )),
          ) in
          subst (Finished edges nodes) (sym (drain-unready edges less arrange fuel s e)) finished
      go (id ∷ rest) e next =
          subst (Finished edges nodes) (sym (drain-pop edges less arrange fuel s id rest e)) (
            next (pop edges less arrange id rest s) (pop-Inv s id rest h e)
              (pop-Ordered s id rest h e o) (omega (arith, f, length-append s.done (id ∷ []))))
