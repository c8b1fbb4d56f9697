-- ===== src/Planner/Select/Chosen.antt =====
-- Which modules `selectModules` selects.
use alex_cachyos.Prelude.{
  contains-count, ℕ, suc, ◌≤◌, String, ◌≡◌, refl, Bool, true, false, not, ◌&&◌, ◌||◌, List, [], ◌∷◌,
  Map, keys, lookup, eq_iff, if◌then◌else◌, contains, is_nil, length, arith, count,
}
use alex_cachyos.Planner.Types.{
  Selection, Module, Attempt, ok, failed, ◌>>=◌, unfinished, module_of,
}
use alex_cachyos.Planner.Select.{
  add_name, add_names, delete_names, selected_names, enabled_names, close_dependencies, close_names,
  close, base_selection, choose,
}
use alex_cachyos.Planner.Graph.Counts.{count-append, contains-append}
use alex_cachyos.Planner.Graph.Construction.{IsDistinct}

pub contains-add_names :
    (selected names : List String) (v : String)
    → contains (add_names selected names) v ≡ (contains selected v || contains names v)
unfolding add_names contains
contains-add_names selected [] v = ground arith
contains-add_names selected (name ∷ names) v = ground (
  arith,
  contains-add_names (add_name selected name) names v,
  eq_iff name v,
  contains-append selected (name ∷ []) v,
)

add_name-IsDistinct :
    (selected : List String) (name : String)
    → IsDistinct selected
    → IsDistinct (add_name selected name)
add_name-IsDistinct selected name h v =
    ground
      (arith, h v, count-append v selected (name ∷ []), contains-count selected v, eq_iff name v)

add_names-IsDistinct :
    (selected names : List String) → IsDistinct selected → IsDistinct (add_names selected names)
unfolding add_names
add_names-IsDistinct selected [] h = h
add_names-IsDistinct selected (name ∷ names) h =
    add_names-IsDistinct (add_name selected name) names (add_name-IsDistinct selected name h)

contains-delete_names :
    (selected names : List String) (v : String)
    → contains (delete_names selected names) v ≡ (contains selected v && not (contains names v))
unfolding delete_names contains
contains-delete_names [] names v = refl
contains-delete_names (s ∷ selected) names v =
    ground (arith, contains-delete_names selected names v, eq_iff s v)

delete_names-count :
    (selected names : List String) (v : String)
    → count v (delete_names selected names) ≡ (if contains names v then 0 else count v selected)
unfolding delete_names
delete_names-count [] names v = ground arith
delete_names-count (s ∷ selected) names v =
    ground (arith, delete_names-count selected names v, eq_iff s v)

enabled_names-le :
    (modules : Map Module) (v : String) → count v (enabled_names modules) ≤ count v (keys modules)
unfolding enabled_names
enabled_names-le [] v = omega arith
enabled_names-le ((name, m) ∷ modules) v = ground (arith, enabled_names-le modules v)

module _ (name : String) (m : Module) (modules : Map Module)
    (h : IsDistinct (keys ((name, m) ∷ modules))) where
  keys_tail : IsDistinct (keys modules)
  keys_tail v = ground (arith, h v)

  key_once : count name (keys modules) ≡ 0
  key_once = ground (arith, h name, eq_iff name name)

enabled_names-count :
    (modules : Map Module) (v : String)
    → IsDistinct (keys modules)
    → count v (enabled_names modules) ≡ (if (module_of modules v).enabled then 1 else 0)
unfolding enabled_names lookup contains
enabled_names-count [] v h = refl
enabled_names-count ((name, m) ∷ modules) v h = ground (
  arith,
  enabled_names-count modules v (keys_tail name m modules h),
  eq_iff name v,
  key_once name m modules h,
  enabled_names-le modules v,
)

-- The loop ended, with a selection or with an error of the source.
abbrev pub is_ended {ℓ} : {A : Type ℓ} → Attempt A → Bool
is_ended (failed unfinished) = false
is_ended _ = true

close_dependencies-is_ended :
    (without : List String) (modules : Map Module) (name : String) (dependencies : List String)
    (state : List String × Bool)
    → is_ended (close_dependencies without modules name dependencies state) ≡ true
unfolding close_dependencies
close_dependencies-is_ended without modules name [] state = refl
close_dependencies-is_ended without modules name (d ∷ dependencies) (selected, changed) = ground (
  arith,
  close_dependencies-is_ended without modules name dependencies (selected, changed),
  close_dependencies-is_ended without modules name dependencies (add_name selected d, true),
)

close_names-is_ended :
    (without : List String) (modules : Map Module) (names : List String)
    (state : List String × Bool)
    → is_ended (close_names without modules names state) ≡ true
unfolding close_names
close_names-is_ended without modules [] state = refl
close_names-is_ended without modules (name ∷ names) state =
    bound (close_dependencies without modules name (module_of modules name).depends_on state)
      (close_dependencies-is_ended without modules name (module_of modules name).depends_on state)
      (close_names without modules names) (close_names-is_ended without modules names)
  where
    bound :
        (attempt : Attempt (List String × Bool))
        → is_ended attempt ≡ true
        → (next : List String × Bool → Attempt (List String × Bool))
        → ((s : List String × Bool) → is_ended (next s) ≡ true)
        → is_ended (attempt >>= next) ≡ true
    bound (ok s) ended next rest = rest s
    bound (failed e) ended next rest = ended

-- A selection that a run of the closure gives is the one it began with.
abbrev Keeps : List String × Bool → Attempt (List String × Bool) → Type 0
Keeps state (ok state') = state' ≡ state
Keeps state (failed e) = Unit

module _ (without : List String) (modules : Map Module) (selected : List String)
    (h : (v : String)
      → (module_of modules v).enabled ≡ true
      → contains without v ≡ false
      → contains selected v ≡ true) where
  pub close_dependencies-Keeps :
      (changed : Bool) (name : String) (dependencies : List String)
      → Keeps
          (selected, changed)
          (close_dependencies without modules name dependencies (selected, changed))
  unfolding close_dependencies
  close_dependencies-Keeps changed name [] = refl
  close_dependencies-Keeps changed name (d ∷ dependencies) =
      ground (arith, close_dependencies-Keeps changed name dependencies, h d)

  close_names-Keeps :
      (changed : Bool) (names : List String)
      → Keeps (selected, changed) (close_names without modules names (selected, changed))
  unfolding close_names
  close_names-Keeps changed [] = refl
  close_names-Keeps changed (name ∷ names) = ground (
    arith,
    close_names-Keeps changed names,
    close_dependencies-Keeps changed name (module_of modules name).depends_on,
  )

  pub close-selected :
      (fuel : ℕ) (closed : List String)
      → close (suc fuel) without modules selected ≡ ok closed
      → closed ≡ selected
  unfolding close
  close-selected fuel closed e =
      ground (arith, close_names-Keeps false (selected_names selected), e)

  close-is_ended : (fuel : ℕ) → is_ended (close (suc fuel) without modules selected) ≡ true
  unfolding close
  close-is_ended fuel = ground (
    arith,
    close_names-Keeps false (selected_names selected),
    close_names-is_ended without modules (selected_names selected) (selected, false),
  )

  close_once :
      (fuel : ℕ) → close (suc fuel) without modules selected ≡ close 1 without modules selected
  unfolding close
  close_once fuel = ground (arith, close_names-Keeps false (selected_names selected))

-- The modules that a selection names.
abbrev pub is_chosen : Map Module → Selection → String → Bool
is_chosen modules selection v =
    if is_nil selection.only
    then not (contains selection.without v)
      && ((module_of modules v).enabled || contains selection.with_modules v)
    else contains selection.only v

module _ (modules : Map Module) (distinct : IsDistinct (keys modules)) where
  contains-enabled_names :
      (v : String) → contains (enabled_names modules) v ≡ (module_of modules v).enabled
  contains-enabled_names v =
      ground
        (arith, enabled_names-count modules v distinct, contains-count (enabled_names modules) v)

  pub contains-base_selection :
      (selection : Selection) (v : String)
      → contains (base_selection modules selection) v ≡ (
          not (contains selection.without v)
          && ((module_of modules v).enabled || contains selection.with_modules v))
  unfolding base_selection
  contains-base_selection selection v = ground (
    arith,
    contains-enabled_names v,
    contains-delete_names (add_names (enabled_names modules) selection.with_modules)
        selection.without v,
    contains-add_names (enabled_names modules) selection.with_modules v,
  )

  pub choose-contains :
      (selection : Selection) (selected : List String)
      → choose modules selection ≡ ok selected
      → (v : String) → contains selected v ≡ is_chosen modules selection v
  unfolding choose contains
  choose-contains selection selected e v = ground (
    arith,
    e,
    contains-add_names [] selection.only v,
    contains-base_selection selection v,
    close-selected selection.without modules (base_selection modules selection)
        (λ u on free. ground (arith, contains-base_selection selection u, on, free))
        (length modules) selected,
  )

  base-IsDistinct : (selection : Selection) → IsDistinct (base_selection modules selection)
  unfolding base_selection
  base-IsDistinct selection v = ground (
    arith,
    delete_names-count (add_names (enabled_names modules) selection.with_modules) selection.without
        v,
    add_names-IsDistinct (enabled_names modules) selection.with_modules
        (λ u. ground (arith, enabled_names-count modules u distinct)) v,
  )

  pub choose-IsDistinct :
      (selection : Selection) (selected : List String)
      → choose modules selection ≡ ok selected
      → IsDistinct selected
  unfolding choose
  choose-IsDistinct selection selected e v = ground (
    arith,
    e,
    add_names-IsDistinct [] selection.only (λ u. omega arith) v,
    base-IsDistinct selection v,
    close-selected selection.without modules (base_selection modules selection)
        (λ u on free. ground (arith, contains-base_selection selection u, on, free))
        (length modules) selected,
  )

  -- One round of the closure is enough: with any fuel for a round the loop ends, and as it does after
  -- its first round, since the enabled modules that no `without` names are selected from the start.
  pub close-base_selection :
      (selection : Selection) (fuel : ℕ)
      → (is_ended (close (suc fuel) selection.without modules (base_selection modules selection))
          ≡ true)
        × (close (suc fuel) selection.without modules (base_selection modules selection)
            ≡ close 1 selection.without modules (base_selection modules selection))
  close-base_selection selection fuel =
      let base = contains-base_selection selection in
      (
        close-is_ended selection.without modules (base_selection modules selection)
            (λ u on free. ground (arith, base u, on, free)) fuel,
        close_once selection.without modules (base_selection modules selection)
            (λ u on free. ground (arith, base u, on, free)) fuel,
      )
