-- ===== src/Planner/Build/Steps.antt =====
-- The steps that `orderSteps` collects from the selected modules.
use alex_cachyos.Prelude.{
  contains-count, ◌+◌, String, ◌≡◌, refl, Bool, true, ◌||◌, List, [], ◌∷◌, Map, keys, lookup,
  insert, lookup-insert, ◌==◌, eq_iff, if◌then◌else◌, contains, is_some, arith, count, any,
}
use alex_cachyos.Planner.Types.{Step, Module, module_of, step_of, ids}
use alex_cachyos.Planner.Build.{put_steps, collect_steps}
use alex_cachyos.Planner.Graph.Construction.{IsDistinct}

pub is_some-lookup {ℓ} :
    {V : Type ℓ} (k : String) (m : Map V) → is_some (lookup k m) ≡ contains (keys m) k
unfolding lookup contains
is_some-lookup k [] = refl
is_some-lookup k ((j, v) ∷ m) = ground (arith, is_some-lookup k m)

count-insert {ℓ} :
    {V : Type ℓ} (k v : String) (x : V) (m : Map V)
    → count v (keys (insert k x m))
      ≡ (if contains (keys m) k then 0 else if k == v then 1 else 0) + count v (keys m)
unfolding insert contains
count-insert k v x [] = ground arith
count-insert k v x ((j, y) ∷ m) =
    ground (arith, count-insert k v x m, eq_iff j k, eq_iff k v, eq_iff j v)

pub insert-IsDistinct {ℓ} :
    {V : Type ℓ} (k : String) (x : V) (m : Map V)
    → IsDistinct (keys m)
    → IsDistinct (keys (insert k x m))
insert-IsDistinct k x m h v =
    ground (arith, h v, count-insert k v x m, contains-count (keys m) k, eq_iff k v)

pub contains-insert {ℓ} :
    {V : Type ℓ} (k v : String) (x : V) (m : Map V)
    → contains (keys (insert k x m)) v ≡ (k == v || contains (keys m) v)
contains-insert k v x m = ground (
  arith,
  count-insert k v x m,
  contains-count (keys m) k,
  contains-count (keys m) v,
  contains-count (keys (insert k x m)) v,
  eq_iff k v,
)

put_steps-IsDistinct :
    (listed : List Step) (steps : Map Step)
    → IsDistinct (keys steps)
    → IsDistinct (keys (put_steps listed steps))
unfolding put_steps
put_steps-IsDistinct [] steps h = h
put_steps-IsDistinct (s ∷ listed) steps h =
    put_steps-IsDistinct listed (insert s.id s steps) (insert-IsDistinct s.id s steps h)

pub collect_steps-IsDistinct :
    (modules : Map Module) (names : List String) (steps : Map Step)
    → IsDistinct (keys steps)
    → IsDistinct (keys (collect_steps modules names steps))
unfolding collect_steps
collect_steps-IsDistinct modules [] steps h = h
collect_steps-IsDistinct modules (name ∷ names) steps h =
    collect_steps-IsDistinct modules names (put_steps (module_of modules name).steps steps)
      (put_steps-IsDistinct (module_of modules name).steps steps h)

contains-put_steps :
    (listed : List Step) (steps : Map Step) (v : String)
    → contains (keys (put_steps listed steps)) v
      ≡ (contains (keys steps) v || contains (ids listed) v)
unfolding put_steps contains
contains-put_steps [] steps v = ground arith
contains-put_steps (s ∷ listed) steps v =
    ground
      (arith, contains-put_steps listed (insert s.id s steps) v, contains-insert s.id v s steps)

-- Some module of the list has a step with this id.
abbrev pub lists_step : Map Module → List String → String → Bool
lists_step modules names v = any (λ name. contains (ids (module_of modules name).steps) v) names

pub contains-collect_steps :
    (modules : Map Module) (names : List String) (steps : Map Step) (v : String)
    → contains (keys (collect_steps modules names steps)) v
      ≡ (contains (keys steps) v || lists_step modules names v)
unfolding collect_steps
contains-collect_steps modules [] steps v = ground arith
contains-collect_steps modules (name ∷ names) steps v = ground (
  arith,
  contains-collect_steps modules names (put_steps (module_of modules name).steps steps) v,
  contains-put_steps (module_of modules name).steps steps v,
)

-- A map that has each step under its id.
abbrev pub IsKeyed : Map Step → Type 0
IsKeyed steps = (v : String) → contains (keys steps) v ≡ true → (step_of steps v).id ≡ v

insert-IsKeyed : (s : Step) (steps : Map Step) → IsKeyed steps → IsKeyed (insert s.id s steps)
insert-IsKeyed s steps h v e =
    ground (arith, lookup-insert s.id v s steps, contains-insert s.id v s steps, h v, eq_iff s.id v)

put_steps-IsKeyed :
    (listed : List Step) (steps : Map Step) → IsKeyed steps → IsKeyed (put_steps listed steps)
unfolding put_steps
put_steps-IsKeyed [] steps h = h
put_steps-IsKeyed (s ∷ listed) steps h =
    put_steps-IsKeyed listed (insert s.id s steps) (insert-IsKeyed s steps h)

pub collect_steps-IsKeyed :
    (modules : Map Module) (names : List String) (steps : Map Step)
    → IsKeyed steps
    → IsKeyed (collect_steps modules names steps)
unfolding collect_steps
collect_steps-IsKeyed modules [] steps h = h
collect_steps-IsKeyed modules (name ∷ names) steps h =
    collect_steps-IsKeyed modules names (put_steps (module_of modules name).steps steps)
      (put_steps-IsKeyed (module_of modules name).steps steps h)
