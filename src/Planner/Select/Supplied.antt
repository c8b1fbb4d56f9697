-- ===== src/Planner/Select/Supplied.antt =====
-- The dependencies of the modules that `selectModules` selects, and when it selects at all.
use alex_cachyos.Prelude.{
  contains-count, ℕ, suc, String, ◌≡◌, refl, ◌∙◌, sym, Bool, true, false, not, ◌&&◌, ◌||◌, List, [],
  ◌∷◌, Map, keys, lookup, ◌==◌, eq_iff, if◌then◌else◌, contains, is_some, is_nil, length, arith,
  sort_by-count, sort_by, all,
}
use alex_cachyos.Planner.Types.{Selection, Module, ok, module_of, is_ok}
use alex_cachyos.Planner.Select.{
  selected_names, add_names, close_dependencies, close_names, close, check_dependencies,
  check_names, base_selection, choose, select_modules, module_less,
}
use alex_cachyos.Planner.Select.Chosen.{
  is_chosen, contains-add_names, choose-contains, choose-IsDistinct, contains-base_selection,
}
use alex_cachyos.Planner.Graph.Construction.{IsDistinct}

pub contains-selected_names :
    (selected : List String) (v : String)
    → contains (selected_names selected) v ≡ contains selected v
unfolding selected_names
contains-selected_names selected v = ground (
  arith,
  sort_by-count module_less (λ y. y == v) selected,
  contains-count selected v,
  contains-count (sort_by module_less selected) v,
)

-- A dependency that a module of the selection may have: a module that is selected, or, where `only`
-- names the selection, one that is enabled.
abbrev pub is_supplied : Bool → Map Module → (String → Bool) → String → Bool
is_supplied only modules selects d =
    is_some (lookup d modules) && (selects d || only && (module_of modules d).enabled)

abbrev pub has_supply : Bool → Map Module → (String → Bool) → String → Bool
has_supply only modules selects name =
    all (is_supplied only modules selects) (module_of modules name).depends_on

module _ (only : Bool) (modules : Map Module) (selected : List String) where
  check_dependencies_lem :
      (name : String) (dependencies : List String)
      → is_ok (check_dependencies only modules selected name dependencies)
        ≡ all (is_supplied only modules (contains selected)) dependencies
  unfolding check_dependencies
  check_dependencies_lem name [] = refl
  check_dependencies_lem name (d ∷ dependencies) =
      ground (arith, check_dependencies_lem name dependencies)

  check_names_lem :
      (names : List String)
      → is_ok (check_names only modules selected names)
        ≡ all (has_supply only modules (contains selected)) names
  unfolding check_names
  check_names_lem [] = refl
  check_names_lem (name ∷ names) = ground (
    arith,
    check_names_lem names,
    check_dependencies_lem name (module_of modules name).depends_on,
  )

pub all-contains :
    (p : String → Bool) (names : List String) (v : String)
    → all p names ≡ true
    → contains names v ≡ true
    → p v ≡ true
unfolding contains
all-contains p [] v h e = absurd (cc e)
all-contains p (name ∷ names) v h e = ground (arith, all-contains p names v, eq_iff name v)

pub contains-all :
    (p : String → Bool) (names : List String)
    → ((v : String) → contains names v ≡ true → p v ≡ true)
    → all p names ≡ true
unfolding contains
contains-all p [] h = refl
contains-all p (name ∷ names) h =
    ground (arith, h name, eq_iff name name, contains-all p names (λ v e. h v (ground (arith, e))))

all_ext :
    (p q : String → Bool) (names : List String)
    → ((v : String) → p v ≡ q v)
    → all p names ≡ all q names
all_ext p q [] h = refl
all_ext p q (name ∷ names) h = ground (arith, h name, all_ext p q names h)

-- Where all dependencies are selected, the closure has nothing to do.
module _ (without : List String) (modules : Map Module) (selected : List String) where
  close_dependencies-ok :
      (changed : Bool) (name : String) (dependencies : List String)
      → all (is_supplied false modules (contains selected)) dependencies ≡ true
      → close_dependencies without modules name dependencies (selected, changed)
        ≡ ok (selected, changed)
  unfolding close_dependencies
  close_dependencies-ok changed name [] h = refl
  close_dependencies-ok changed name (d ∷ dependencies) h =
      ground (arith, close_dependencies-ok changed name dependencies)

  close_names-ok :
      (changed : Bool) (names : List String)
      → all (has_supply false modules (contains selected)) names ≡ true
      → close_names without modules names (selected, changed) ≡ ok (selected, changed)
  unfolding close_names
  close_names-ok changed [] h = refl
  close_names-ok changed (name ∷ names) h = ground (
    arith,
    close_names-ok changed names,
    close_dependencies-ok changed name (module_of modules name).depends_on,
  )

  close-ok :
      (fuel : ℕ)
      → all (has_supply false modules (contains selected)) (selected_names selected) ≡ true
      → close (suc fuel) without modules selected ≡ ok selected
  unfolding close
  close-ok fuel h = ground (arith, close_names-ok false (selected_names selected) h)

module _ (modules : Map Module) (distinct : IsDistinct (keys modules)) (selection : Selection) where
  checked :
      (only : Bool) (selected : List String)
      → is_ok (check_names only modules selected (selected_names selected)) ≡ true
      → (v : String) → contains selected v ≡ true
      → has_supply only modules (contains selected) v ≡ true
  checked only selected h v e =
      all-contains (has_supply only modules (contains selected)) (selected_names selected) v
        (sym (check_names_lem only modules selected (selected_names selected)) ∙ h)
        (contains-selected_names selected v ∙ e)

  -- If no name has two modules and a selection succeeds, then the selected modules are those of
  -- `only`, or without `only` those that are enabled or named by `with` and not named by `without`,
  -- each once; and every dependency of theirs is a module that is selected or, under `only`, enabled.
  pub select_modules-is_chosen :
      (selected : List String) (only : Bool)
      → select_modules modules selection ≡ ok (selected, only)
      → (only ≡ not (is_nil selection.only))
        × ((v : String) → contains selected v ≡ is_chosen modules selection v)
        × ((v : String)
            → contains selected v ≡ true
            → has_supply only modules (contains selected) v ≡ true)
        × IsDistinct selected
  unfolding select_modules
  select_modules-is_chosen selected only e =
      let (chosen, kept, passed) = inner in
      (
        kept,
        choose-contains modules distinct selection selected chosen,
        checked only selected passed,
        choose-IsDistinct modules distinct selection selected chosen,
      )
    where
      inner :
          (choose modules selection ≡ ok selected)
          × (only ≡ not (is_nil selection.only))
          × (is_ok (check_names only modules selected (selected_names selected)) ≡ true)
      inner = ground (arith, e)

  all_chosen :
      (only : Bool) (selected : List String)
      → ((v : String) → contains selected v ≡ is_chosen modules selection v)
      → ((v : String)
          → is_chosen modules selection v ≡ true
          → has_supply only modules (is_chosen modules selection) v ≡ true)
      → all (has_supply only modules (contains selected)) (selected_names selected) ≡ true
  all_chosen only selected same h =
      contains-all (has_supply only modules (contains selected)) (selected_names selected) (λ v e.
        all_ext (is_supplied only modules (contains selected))
          (is_supplied only modules (is_chosen modules selection)) (module_of modules v).depends_on
          (λ d. ground (arith, same d))
        ∙ h v (sym (same v) ∙ sym (contains-selected_names selected v) ∙ e))

  picked : List String
  picked =
      if is_nil selection.only
      then base_selection modules selection
      else add_names [] selection.only

  contains-picked : (v : String) → contains picked v ≡ is_chosen modules selection v
  unfolding picked contains
  contains-picked v = ground (
    arith,
    contains-add_names [] selection.only v,
    contains-base_selection modules distinct selection v,
  )

  choose-picked :
      all
          (has_supply (not (is_nil selection.only)) modules (contains picked))
          (selected_names picked)
        ≡ true
      → choose modules selection ≡ ok picked
  unfolding choose picked
  choose-picked h = ground (
    arith,
    h,
    close-ok selection.without modules (base_selection modules selection) (length modules),
  )

  -- If no name has two modules and every dependency of a module that the selection names is a module
  -- that the selection names or, under `only`, one that is enabled, then the selection succeeds.
  pub select_modules_total :
      ((v : String)
        → is_chosen modules selection v ≡ true
        → has_supply (not (is_nil selection.only)) modules (is_chosen modules selection) v ≡ true)
      → is_ok (select_modules modules selection) ≡ true
  unfolding select_modules
  select_modules_total h =
      let supplied = all_chosen (not (is_nil selection.only)) picked contains-picked h in
      ground (
        arith,
        choose-picked supplied,
        supplied,
        check_names_lem (not (is_nil selection.only)) modules picked (selected_names picked),
      )
