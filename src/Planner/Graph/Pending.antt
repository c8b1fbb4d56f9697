-- ===== src/Planner/Graph/Pending.antt =====
-- How many edges still hold a node back, and what `release` does to the counters.
use alex_cachyos.Prelude.{
  contains-count, ℕ, ◌+◌, ◌-◌, ◌≤◌, ◌<◌, String, ◌≡◌, refl, true, false, not, ◌||◌, ◌&&◌, List, [],
  ◌∷◌, ◌++◌, Map, insert, lookup-insert, ltb, beq_nat, ◌==◌, eq_iff, inl, inr, Bool-cases, arith,
  count, count_if, contains, if◌then◌else◌,
}
use alex_cachyos.Planner.Graph.{Edge, is_edge, has_edge, degree, successors, release}
use alex_cachyos.Planner.Graph.Counts.{count-append, contains-append}

-- The edges into `v` from nodes that are not done.
abbrev pub pending : List Edge → List String → String → ℕ
pending edges done v = count_if (λ e. e.1 == v && not (contains done e.0)) edges

abbrev pub edge_count : List Edge → String → String → ℕ
edge_count edges u v = count_if (is_edge u v) edges

pub degree-insert :
    (k v : String) (n : ℕ) (degrees : Map ℕ)
    → degree (insert k n degrees) v ≡ (if k == v then n else degree degrees v)
degree-insert k v n degrees = ground (arith, lookup-insert k v n degrees)

pub has_edge-edge_count :
    (edges : List Edge) (u v : String) → has_edge edges u v ≡ ltb 0 (edge_count edges u v)
unfolding has_edge
has_edge-edge_count [] u v = refl
has_edge-edge_count (e ∷ edges) u v = ground (arith, has_edge-edge_count edges u v)

pub count-successors :
    (id v : String) (edges : List Edge) → count v (successors id edges) ≡ edge_count edges id v
count-successors id v [] = refl
count-successors id v (e ∷ edges) = ground (arith, count-successors id v edges)

contains_snoc :
    (done : List String) (id x : String)
    → contains (done ++ id ∷ []) x ≡ (contains done x || id == x)
contains_snoc done id x =
    ground (arith, contains-append done (id ∷ []) x, contains-count (id ∷ []) x)

-- A node that gets done no longer holds back its successors.
pub pending_snoc :
    (edges : List Edge) (done : List String) (id v : String)
    → contains done id ≡ false
    → pending edges done v ≡ pending edges (done ++ id ∷ []) v + edge_count edges id v
pending_snoc [] done id v h = omega arith
pending_snoc (e ∷ edges) done id v h = ground (
  arith,
  pending_snoc edges done id v h,
  contains_snoc done id e.0,
  eq_iff e.0 id,
  eq_iff id e.0,
  eq_iff e.1 v,
)

-- Nothing pending: every node with an edge to `v` is done.
pub pending-zero :
    (edges : List Edge) (done : List String) (u v : String)
    → pending edges done v ≡ 0
    → has_edge edges u v ≡ true
    → contains done u ≡ true
unfolding has_edge
pending-zero [] done u v h e = cc
pending-zero (e ∷ edges) done u v h p =
    ground (arith, pending-zero edges done u v, eq_iff e.0 u, eq_iff e.1 v)

-- Something pending: a node with an edge to `v` that is not done.
pub pending-pos :
    (edges : List Edge) (done : List String) (v : String)
    → 0 < pending edges done v
    → (u : String) × (has_edge edges u v ≡ true) × (contains done u ≡ false)
unfolding has_edge
pending-pos [] done v h = absurd (omega arith)
pending-pos (e ∷ edges) done v h = elim (Bool-cases (e.1 == v && not (contains done e.0))) [
  | inl here ↦ (e.0, ground (arith, eq_iff e.0 e.0, eq_iff e.1 v), ground arith)
  | inr there ↦
      let (u, edge, waits) = pending-pos edges done v (ground arith) in (u, ground arith, waits)
]

module _ (next : String) (nexts : List String) (h : (u : String) → count u (next ∷ nexts) ≤ 1) where
  once : (u : String) → count u nexts ≤ 1
  once u = ground (arith, h u)

  not_again : count next nexts ≡ 0
  not_again = ground (arith, h next, eq_iff next next)

-- `release` over a list that names no node twice.
pub release-degree :
    (nexts : List String) (degrees : Map ℕ) (ready : List String) (v : String)
    → ((u : String) → count u nexts ≤ 1)
    → degree (release nexts degrees ready).0 v ≡ degree degrees v - count v nexts
unfolding release
release-degree [] degrees ready v h = omega arith
release-degree (next ∷ nexts) degrees ready v h =
    let degrees' = insert next (degree degrees next - 1) degrees in
    let ready' = if beq_nat (degree degrees next) 1 then ready ++ next ∷ [] else ready in
    let rest = release-degree nexts degrees' ready' v (once next nexts h) in
    ground (
      arith,
      rest,
      degree-insert next v (degree degrees next - 1) degrees,
      not_again next nexts h,
      eq_iff next v,
    )

pub release-ready :
    (nexts : List String) (degrees : Map ℕ) (ready : List String) (v : String)
    → ((u : String) → count u nexts ≤ 1)
    → count v (release nexts degrees ready).1
      ≡ count v ready + (if ltb 0 (count v nexts) && beq_nat (degree degrees v) 1 then 1 else 0)
unfolding release
release-ready [] degrees ready v h = omega arith
release-ready (next ∷ nexts) degrees ready v h =
    let degrees' = insert next (degree degrees next - 1) degrees in
    let ready' = if beq_nat (degree degrees next) 1 then ready ++ next ∷ [] else ready in
    let rest = release-ready nexts degrees' ready' v (once next nexts h) in
    ground (
      arith,
      rest,
      degree-insert next v (degree degrees next - 1) degrees,
      not_again next nexts h,
      eq_iff next v,
      count-append v ready (next ∷ []),
    )
