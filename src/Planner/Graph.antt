-- ===== src/Planner/Graph.antt =====
-- The dependency graphs of internal/planner/plan.go: `add`, and the loop that takes ready nodes in
-- order, which `moduleCycle` and `orderSteps` both write out.
pub mod Counts
pub mod Pending
pub mod Loop
pub mod Construction
pub mod Order
use alex_cachyos.Prelude.{
  ℕ, zero, suc, ◌+◌, ◌-◌, String, Bool, true, false, not, ◌&&◌, ◌||◌, Option, none, some, List, [],
  ◌∷◌, ◌++◌, map, select, Map, keys, lookup, insert, sort_by, text_less, length, ◌==◌, beq_nat,
  if◌then◌else◌,
}

-- An edge leads from a dependency to what depends on it.
abbrev pub Edge : Type 0
Edge = String × String

abbrev pub is_edge : String → String → Edge → Bool
is_edge from to e = e.0 == from && e.1 == to

unfoldable pub has_edge : List Edge → String → String → Bool
has_edge [] from to = false
has_edge (e ∷ edges) from to = is_edge from to e || has_edge edges from to

-- The `edges` and `in` maps; a name that `degrees` lacks has degree 0.
pub record Graph : Type 0 where
  pub edges : List Edge
  pub degrees : Map ℕ

abbrev get_degree : Option ℕ → ℕ
get_degree none = 0
get_degree (some n) = n

abbrev pub degree : Map ℕ → String → ℕ
degree degrees name = get_degree (lookup name degrees)

-- A second edge between the same nodes changes nothing.
unfoldable pub add_edge : String → String → Graph → Graph
unfolding has_edge
add_edge from to g = if has_edge g.edges from to then g else record {
  edges = g.edges ++ (from, to) ∷ [];
  degrees = insert to (degree g.degrees to + 1) g.degrees;
}

-- The `add` calls of a nest of loops, in order.
unfoldable pub add_edges : List Edge → Graph → Graph
add_edges [] g = g
add_edges ((from, to) ∷ edges) g = add_edges edges (add_edge from to g)

-- `in[name] = 0` for each name.
unfoldable pub zero_degrees : List String → Map ℕ → Map ℕ
zero_degrees [] degrees = degrees
zero_degrees (name ∷ names) degrees = zero_degrees names (insert name 0 degrees)

unfoldable pub build_graph : List String → List Edge → Graph
build_graph names edges = add_edges edges (record { edges = []; degrees = zero_degrees names [] })

abbrev pub targets : List Edge → List String
targets edges = map (λ e. e.1) edges

-- The nodes that an edge leads to from `id`.
abbrev pub successors : String → List Edge → List String
successors id edges = targets (select (λ e. e.0 == id) edges)

-- The counter of each successor goes down by one, and a successor whose counter thereby gets to 0 is
-- put at the end of the ready nodes.
unfoldable pub release : List String → Map ℕ → List String → Map ℕ × List String
release [] degrees ready = (degrees, ready)
release (next ∷ nexts) degrees ready =
    release nexts (insert next (degree degrees next - 1) degrees)
      (if beq_nat (degree degrees next) 1 then ready ++ next ∷ [] else ready)

pub record State : Type 0 where
  pub degrees : Map ℕ
  pub ready : List String
  pub done : List String

module _ (edges : List Edge) (less : String → String → Bool)
    (arrange : List String → List String) where
  -- The body of the loop for the least ready node. `arrange` is the order in which its successors
  -- are gone through.
  unfoldable pub pop : String → List String → State → State
  pop id rest s =
      let (degrees, ready) = release (arrange (successors id edges)) s.degrees rest in
      record { degrees = degrees; ready = ready; done = s.done ++ id ∷ [] }

  -- `for len(ready) != 0`, on fuel.
  unfoldable pub drain : ℕ → State → State
  unfolding pop
  drain zero s = s
  drain (suc fuel) s = elim (sort_by less s.ready) [
    | [] ↦ s
    | id ∷ rest ↦ drain fuel (pop id rest s)
  ]

-- The names in `degrees` whose degree passes a test.
unfoldable pub with_degree : (ℕ → Bool) → Map ℕ → List String
with_degree test degrees = keys (select (λ entry. test entry.1) degrees)

unfoldable pub start : Graph → State
unfolding with_degree
start g = record {
  degrees = g.degrees;
  ready = with_degree (λ n. beq_nat n 0) g.degrees;
  done = [];
}

-- As many rounds as there are nodes: no node gets ready twice.
unfoldable pub run_loop : (String → String → Bool) → (List String → List String) → Graph → State
unfolding drain start
run_loop less arrange g = drain g.edges less arrange (length g.degrees) (start g)

-- The nodes that the loop leaves with a degree, sorted by name.
unfoldable pub remaining : State → List String
unfolding with_degree
remaining s = sort_by text_less (with_degree (λ n. not (beq_nat n 0)) s.degrees)
