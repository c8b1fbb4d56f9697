-- ===== src/Planner/Graph/Construction.antt =====
-- The graphs that `add` builds: counters that count the edges, no edge twice, every end a node.
use alex_cachyos.Prelude.{
  contains-count, ℕ, ◌+◌, ◌-◌, ◌≤◌, ◌<◌, String, ◌≡◌, refl, ◌∙◌, Bool, true, false, not, ◌||◌, ◌&&◌,
  List, [], ◌∷◌, ◌++◌, Map, keys, lookup, insert, beq_nat, ◌==◌, eq_iff, arith, count, count_if,
  contains, if◌then◌else◌,
}
use alex_cachyos.Planner.Graph.{
  Edge, Graph, is_edge, has_edge, degree, add_edge, add_edges, zero_degrees, build_graph,
  with_degree, release,
}
use alex_cachyos.Planner.Graph.Pending.{pending, edge_count, degree-insert, has_edge-edge_count}

-- No key twice.
abbrev pub IsDistinct : List String → Type 0
IsDistinct names = (v : String) → count v names ≤ 1

pub keys-insert :
    (k v : String) (n : ℕ) (degrees : Map ℕ)
    → count v (keys (insert k n degrees))
      ≡ (if contains (keys degrees) k then 0 else if k == v then 1 else 0) + count v (keys degrees)
unfolding insert contains
keys-insert k v n [] = ground arith
keys-insert k v n ((j, m) ∷ degrees) =
    ground (arith, keys-insert k v n degrees, eq_iff j k, eq_iff k v, eq_iff j v)

pub insert-IsDistinct :
    (k : String) (n : ℕ) (degrees : Map ℕ)
    → IsDistinct (keys degrees)
    → IsDistinct (keys (insert k n degrees))
insert-IsDistinct k n degrees h v =
    ground (arith, h v, keys-insert k v n degrees, contains-count (keys degrees) k, eq_iff k v)

pub release-IsDistinct :
    (nexts : List String) (degrees : Map ℕ) (ready : List String)
    → IsDistinct (keys degrees)
    → IsDistinct (keys (release nexts degrees ready).0)
unfolding release
release-IsDistinct [] degrees ready h = h
release-IsDistinct (next ∷ nexts) degrees ready h =
    release-IsDistinct nexts (insert next (degree degrees next - 1) degrees)
      (if beq_nat (degree degrees next) 1 then ready ++ next ∷ [] else ready)
      (insert-IsDistinct next (degree degrees next - 1) degrees h)

pub degree-keys :
    (degrees : Map ℕ) (v : String) → 0 < degree degrees v → contains (keys degrees) v ≡ true
unfolding lookup contains
degree-keys [] v h = absurd (omega arith)
degree-keys ((k, n) ∷ degrees) v h = ground (arith, degree-keys degrees v)

IsDistinct-tail : (k : String) (names : List String) → IsDistinct (k ∷ names) → IsDistinct names
IsDistinct-tail k names h v = ground (arith, h v)

-- The names that `with_degree` gives are the keys with such a degree.
pub count-with_degree :
    (test : ℕ → Bool) (degrees : Map ℕ) (v : String)
    → IsDistinct (keys degrees)
    → count v (with_degree test degrees)
      ≡ (if contains (keys degrees) v && test (degree degrees v) then 1 else 0)
unfolding with_degree lookup contains
count-with_degree test [] v h = refl
count-with_degree test ((k, n) ∷ degrees) v h = ground (
  arith,
  count-with_degree test degrees v (IsDistinct-tail k (keys degrees) h),
  h v,
  eq_iff k v,
  contains-count (keys degrees) v,
)

abbrev pub IsWellFormed : Graph → Type 0
IsWellFormed g =
    ((v : String) → degree g.degrees v ≡ pending g.edges [] v)
    × ((u v : String) → edge_count g.edges u v ≤ 1)
    × ((u v : String) → has_edge g.edges u v ≡ true → contains (keys g.degrees) u ≡ true)
    × ((u v : String) → has_edge g.edges u v ≡ true → contains (keys g.degrees) v ≡ true)
    × IsDistinct (keys g.degrees)

count_if-append :
    (p : Edge → Bool) (xs ys : List Edge) → count_if p (xs ++ ys) ≡ count_if p xs + count_if p ys
count_if-append p [] ys = omega arith
count_if-append p (x ∷ xs) ys = ground (arith, count_if-append p xs ys)

pub has_edge-append :
    (xs ys : List Edge) (u v : String)
    → has_edge (xs ++ ys) u v ≡ (has_edge xs u v || has_edge ys u v)
unfolding has_edge
has_edge-append [] ys u v = refl
has_edge-append (x ∷ xs) ys u v = ground (arith, has_edge-append xs ys u v)

module _ (from to : String) (g : Graph) where
  pub add_edge-has_edge :
      (u v : String)
      → has_edge (add_edge from to g).edges u v ≡ (has_edge g.edges u v || from == u && to == v)
  unfolding add_edge has_edge
  add_edge-has_edge u v =
      ground (arith, has_edge-append g.edges ((from, to) ∷ []) u v, eq_iff from u, eq_iff to v)

  module _ (source : contains (keys g.degrees) from ≡ true)
      (target : contains (keys g.degrees) to ≡ true) where
    pub add_edge-keys :
        (v : String) → count v (keys (add_edge from to g).degrees) ≡ count v (keys g.degrees)
    unfolding add_edge
    add_edge-keys v = ground (arith, keys-insert to v (degree g.degrees to + 1) g.degrees)

    contains-add_edge :
        (v : String) → contains (keys (add_edge from to g).degrees) v ≡ contains (keys g.degrees) v
    contains-add_edge v = ground (
      arith,
      add_edge-keys v,
      contains-count (keys g.degrees) v,
      contains-count (keys (add_edge from to g).degrees) v,
    )

    add_edge-degree :
        ((v : String) → degree g.degrees v ≡ pending g.edges [] v)
        → (v : String)
        → degree (add_edge from to g).degrees v ≡ pending (add_edge from to g).edges [] v
    unfolding add_edge contains
    add_edge-degree h v = ground (
      arith,
      h v,
      h to,
      degree-insert to v (degree g.degrees to + 1) g.degrees,
      eq_iff to v,
      count_if-append (λ e. e.1 == v && not (contains [] e.0)) g.edges ((from, to) ∷ []),
    )

    add_edge-edge_count :
        ((u v : String) → edge_count g.edges u v ≤ 1)
        → (u v : String) → edge_count (add_edge from to g).edges u v ≤ 1
    unfolding add_edge
    add_edge-edge_count h u v = ground (
      arith,
      h u v,
      count_if-append (is_edge u v) g.edges ((from, to) ∷ []),
      eq_iff from u,
      eq_iff to v,
      has_edge-edge_count g.edges from to,
    )

    pub add_edge-IsWellFormed : IsWellFormed g → IsWellFormed (add_edge from to g)
    add_edge-IsWellFormed h = (
      add_edge-degree h.0,
      add_edge-edge_count h.1,
      (λ u v e. ground (arith, h.2 u v, add_edge-has_edge u v, eq_iff from u, contains-add_edge u)),
      (λ u v e. ground (arith, h.3 u v, add_edge-has_edge u v, eq_iff to v, contains-add_edge v)),
      (λ v. omega (arith, h.4 v, add_edge-keys v)),
    )

ends_tail :
    (from to u v : String) (edges : List Edge)
    → has_edge edges u v ≡ true
    → has_edge ((from, to) ∷ edges) u v ≡ true
unfolding has_edge
ends_tail from to u v edges e = ground arith

ends_head : (from to : String) (edges : List Edge) → has_edge ((from, to) ∷ edges) from to ≡ true
unfolding has_edge
ends_head from to edges = ground (arith, eq_iff from from, eq_iff to to)

-- Every end of an edge stands in a list.
abbrev pub IsInside : List Edge → List String → Type 0
IsInside edges names =
    ((u v : String) → has_edge edges u v ≡ true → contains names u ≡ true)
    × ((u v : String) → has_edge edges u v ≡ true → contains names v ≡ true)

IsInside-tail :
    (from to : String) (edges : List Edge) (g : Graph)
    → IsInside ((from, to) ∷ edges) (keys g.degrees)
    → IsInside edges (keys (add_edge from to g).degrees)
IsInside-tail from to edges g h =
    let source = h.0 from to (ends_head from to edges) in
    let target = h.1 from to (ends_head from to edges) in
    (
      (λ u v e.
          contains-add_edge from to g source target u ∙ h.0 u v (ends_tail from to u v edges e)),
      (λ u v e.
          contains-add_edge from to g source target v ∙ h.1 u v (ends_tail from to u v edges e)),
    )

pub add_edges-IsWellFormed :
    (edges : List Edge) (g : Graph)
    → IsInside edges (keys g.degrees)
    → IsWellFormed g
    → IsWellFormed (add_edges edges g)
unfolding add_edges
add_edges-IsWellFormed [] g i h = h
add_edges-IsWellFormed ((from, to) ∷ edges) g i h =
    add_edges-IsWellFormed edges (add_edge from to g) (IsInside-tail from to edges g i) (
      add_edge-IsWellFormed from to g (i.0 from to (ends_head from to edges))
        (i.1 from to (ends_head from to edges)) h)

pub add_edges-has_edge :
    (edges : List Edge) (g : Graph) (u v : String)
    → has_edge (add_edges edges g).edges u v ≡ (has_edge g.edges u v || has_edge edges u v)
unfolding add_edges has_edge
add_edges-has_edge [] g u v = ground arith
add_edges-has_edge ((from, to) ∷ edges) g u v =
    ground
      (arith, add_edges-has_edge edges (add_edge from to g) u v, add_edge-has_edge from to g u v)

pub contains-add_edges :
    (edges : List Edge) (g : Graph) (v : String)
    → IsInside edges (keys g.degrees)
    → contains (keys (add_edges edges g).degrees) v ≡ contains (keys g.degrees) v
unfolding add_edges
contains-add_edges [] g v i = refl
contains-add_edges ((from, to) ∷ edges) g v i =
    contains-add_edges edges (add_edge from to g) v (IsInside-tail from to edges g i)
    ∙ contains-add_edge from to g (i.0 from to (ends_head from to edges))
        (i.1 from to (ends_head from to edges)) v

contains-zero_degrees :
    (names : List String) (degrees : Map ℕ) (v : String)
    → contains (keys (zero_degrees names degrees)) v
      ≡ (contains (keys degrees) v || contains names v)
unfolding zero_degrees contains
contains-zero_degrees [] degrees v = ground arith
contains-zero_degrees (name ∷ names) degrees v = ground (
  arith,
  contains-zero_degrees names (insert name 0 degrees) v,
  eq_iff name v,
  keys-insert name v 0 degrees,
  contains-count (keys degrees) v,
  contains-count (keys (insert name 0 degrees)) v,
)

zero_degrees-IsDistinct :
    (names : List String) (degrees : Map ℕ)
    → IsDistinct (keys degrees)
    → IsDistinct (keys (zero_degrees names degrees))
unfolding zero_degrees
zero_degrees-IsDistinct [] degrees h = h
zero_degrees-IsDistinct (name ∷ names) degrees h =
    zero_degrees-IsDistinct names (insert name 0 degrees) (insert-IsDistinct name 0 degrees h)

degree-zero_degrees :
    (names : List String) (degrees : Map ℕ) (v : String)
    → degree degrees v ≡ 0
    → degree (zero_degrees names degrees) v ≡ 0
unfolding zero_degrees
degree-zero_degrees [] degrees v h = h
degree-zero_degrees (name ∷ names) degrees v h =
    degree-zero_degrees names (insert name 0 degrees) v
      (ground (arith, degree-insert name v 0 degrees))

module _ (names : List String) where
  bare : Graph
  bare = record { edges = []; degrees = zero_degrees names [] }

  bare-IsWellFormed : IsWellFormed bare
  unfolding bare lookup has_edge
  bare-IsWellFormed = (
    (λ v. degree-zero_degrees names [] v refl),
    (λ u v. omega arith),
    (λ u v e. ground arith),
    (λ u v e. ground arith),
    zero_degrees-IsDistinct names [] (λ v. omega arith),
  )

  contains-bare : (v : String) → contains (keys bare.degrees) v ≡ contains names v
  unfolding bare contains
  contains-bare v = contains-zero_degrees names [] v

  bare-has_edge : (u v : String) → has_edge bare.edges u v ≡ false
  unfolding bare has_edge
  bare-has_edge u v = refl

  module _ (edges : List Edge) (i : IsInside edges names) where
    bare-IsInside : IsInside edges (keys bare.degrees)
    bare-IsInside = ((λ u v e. contains-bare u ∙ i.0 u v e), (λ u v e. contains-bare v ∙ i.1 u v e))

    pub build_graph-IsWellFormed : IsWellFormed (build_graph names edges)
    unfolding build_graph bare
    build_graph-IsWellFormed = add_edges-IsWellFormed edges bare bare-IsInside bare-IsWellFormed

    pub contains-build_graph :
        (v : String) → contains (keys (build_graph names edges).degrees) v ≡ contains names v
    unfolding build_graph bare
    contains-build_graph v = contains-add_edges edges bare v bare-IsInside ∙ contains-bare v

    pub build_graph-has_edge :
        (u v : String) → has_edge (build_graph names edges).edges u v ≡ has_edge edges u v
    unfolding build_graph bare
    build_graph-has_edge u v = ground (arith, add_edges-has_edge edges bare u v, bare-has_edge u v)
