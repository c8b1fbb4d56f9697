-- ===== src/Planner/Digest/Unordered.antt =====
-- The digest of a plan does not depend on how its sets are written down.
use alex_cachyos.Prelude.{
  String, ◌≡◌, refl, ap, ◌∙◌, List, [], ◌∷◌, map, SameSet, sorted_set-SameSet,
}
use alex_cachyos.Planner.Types.{Step, Selection, Plan}
use alex_cachyos.Planner.Digest.{
  Libraries, Writing, write_text, disposition_text, write_object, write_array, write_string_set,
  payload, write_canonical_json, write_selection, inverse_field, write_step, write_steps, normalize,
  digest,
}

-- Two steps agree, but for the order and the repetition of their dependencies.
abbrev pub SameStep : Step → Step → Type 0
SameStep s t =
    (record s { depends_on = [] } ≡ record t { depends_on = [] })
    × SameSet s.depends_on t.depends_on

abbrev pub SameSteps : List Step → List Step → Type 0
SameSteps [] [] = Unit
SameSteps [] (t ∷ ts) = ⊥
SameSteps (s ∷ ss) [] = ⊥
SameSteps (s ∷ ss) (t ∷ ts) = SameStep s t × SameSteps ss ts

abbrev pub SameSelection : Selection → Selection → Type 0
SameSelection a b =
    SameSet a.only b.only × SameSet a.with_modules b.with_modules × SameSet a.without b.without

-- Two plans agree, but for the order and the repetition in their selections and dependencies.
abbrev pub SamePlan : Plan → Plan → Type 0
SamePlan p q = SameSelection p.selection q.selection × SameSteps p.steps q.steps

module _ (libraries : Libraries) where
  write_string_set-SameSet :
      (xs ys : List String)
      → SameSet xs ys
      → write_string_set libraries xs ≡ write_string_set libraries ys
  unfolding write_string_set
  write_string_set-SameSet xs ys same =
      ap (λ set. write_array libraries (map (write_text libraries) set))
        (sorted_set-SameSet xs ys same)

  -- A step's fields around its dependencies.
  with_dependencies : Step → Writing → Writing
  unfolding write_step
  with_dependencies step dependencies = write_object libraries (
      ("id", write_text libraries step.id)
      ∷ ("module", write_text libraries step.module_name)
      ∷ ("description", write_text libraries step.description)
      ∷ ("dependsOn", dependencies)
      ∷ ("scope", write_text libraries step.scope)
      ∷ ("network", write_text libraries step.network)
      ∷ ("operation", write_text libraries step.operation)
      ∷ ("desired", write_canonical_json libraries (payload step.desired))
      ∷ ("observed", write_canonical_json libraries (payload step.observed))
      ∷ ("disposition", write_text libraries (disposition_text step.disposition))
      ∷ inverse_field libraries step.inverse)

  write_step-SameStep :
      (s t : Step) → SameStep s t → write_step libraries s ≡ write_step libraries t
  unfolding write_step with_dependencies
  write_step-SameStep s t (same, sets) =
      ap (λ step. with_dependencies step (write_string_set libraries s.depends_on)) same
      ∙ ap (with_dependencies (record t { depends_on = [] }))
          (write_string_set-SameSet s.depends_on t.depends_on sets)

  items-SameSteps :
      (ss ts : List Step)
      → SameSteps ss ts
      → map (write_step libraries) ss ≡ map (write_step libraries) ts
  items-SameSteps [] [] same = refl
  items-SameSteps [] (t ∷ ts) same = absurd same
  items-SameSteps (s ∷ ss) [] same = absurd same
  items-SameSteps (s ∷ ss) (t ∷ ts) same =
      λ i. write_step-SameStep s t same.0 i ∷ items-SameSteps ss ts same.1 i

  write_selection-SameSelection :
      (a b : Selection)
      → SameSelection a b
      → write_selection libraries a ≡ write_selection libraries b
  unfolding write_selection
  write_selection-SameSelection a b (only, wanted, without) = rw (
    write_string_set-SameSet _ _ only,
    write_string_set-SameSet _ _ wanted,
    write_string_set-SameSet _ _ without,
  )

  -- Plans that agree but for the order and the repetition of the names in their selections and in
  -- their steps' dependencies have the same digest, or the same error.
  pub digest-SamePlan : (p q : Plan) → SamePlan p q → digest libraries p ≡ digest libraries q
  unfolding digest normalize write_steps
  digest-SamePlan p q (selections, steps) = rw (
    write_selection-SameSelection p.selection q.selection selections,
    items-SameSteps p.steps q.steps steps,
  )
