-- ===== src/Planner/Digest/Apart.antt =====
-- The canonical form tells plans apart.
use alex_cachyos.Prelude.{
  ℕ, String, ◌≡◌, refl, sym, ap, subst, ◌∙◌, false, Option, none, some, List, [], ◌∷◌, ◌++◌,
  beq_nat, sorted_set, contains, SameSet, contains-sorted_set,
}
use alex_cachyos.Planner.Types.{JsonValue, InverseDescriptor, Step, Selection, Plan}
use alex_cachyos.Executor.Types.{Decoded, eof, syntax_error, value}
use alex_cachyos.Planner.Digest.{
  Libraries, written, disposition_text, write_text, write_object, write_string_set, payload,
  write_canonical_json, canonical_json, decoded, only_value, marshalled, write_selection,
  write_inverse, inverse_field, step_fields, plan_fields, write_step, write_steps, normalize,
}
use alex_cachyos.Planner.Digest.Splits.{
  JsonLaws, Splits, Splits-map, Fields, done, shorter, longer, both, bind-written, written_inj,
  text-Splits, object_starts, object_split, object-Splits,
}
use alex_cachyos.Planner.Digest.Arrays.{Pairwise, array-Splits}

module _ (libraries : Libraries) where
  -- Two payloads with one canonical form.
  abbrev pub SamePayload : JsonValue → JsonValue → Type 0
  SamePayload x y =
      write_canonical_json libraries (payload x) ≡ write_canonical_json libraries (payload y)

  abbrev pub AgreeingInverse : Option InverseDescriptor → Option InverseDescriptor → Type 0
  AgreeingInverse none none = Unit
  AgreeingInverse none (some j) = ⊥
  AgreeingInverse (some i) none = ⊥
  AgreeingInverse (some i) (some j) = (i.operation ≡ j.operation) × SamePayload i.value j.value

  -- Two steps agree in every field: in the set of their dependencies, the canonical form of their
  -- payloads, and the text of their dispositions.
  pub record AgreeingStep (s t : Step) : Type 0 where
    pub id : s.id ≡ t.id
    pub module_name : s.module_name ≡ t.module_name
    pub description : s.description ≡ t.description
    pub depends_on : SameSet s.depends_on t.depends_on
    pub scope : s.scope ≡ t.scope
    pub network : s.network ≡ t.network
    pub operation : s.operation ≡ t.operation
    pub desired : SamePayload s.desired t.desired
    pub observed : SamePayload s.observed t.observed
    pub disposition : disposition_text s.disposition ≡ disposition_text t.disposition
    pub inverse : AgreeingInverse s.inverse t.inverse

  pub record AgreeingPlan (p q : Plan) : Type 0 where
    pub only : SameSet p.selection.only q.selection.only
    pub with_modules : SameSet p.selection.with_modules q.selection.with_modules
    pub without : SameSet p.selection.without q.selection.without
    pub steps : Pairwise AgreeingStep p.steps q.steps

  module _ (laws : JsonLaws libraries) where
    marshalled-IsValue :
        (v : libraries.Value) (encoding : Option JsonValue) (x : List ℕ)
        → libraries.marshal v ≡ encoding
        → marshalled libraries encoding ≡ written x
        → laws.IsValue x
    marshalled-IsValue v none x is e = absurd (cc e)
    marshalled-IsValue v (some bytes) x is e =
        laws.marshal-IsValue v x (is ∙ ap (λ z. some z) (written_inj _ _ e))

    only_value-IsValue :
        (v : libraries.Value) (rest : Decoded libraries.Value) (x : List ℕ)
        → only_value libraries v rest ≡ written x
        → laws.IsValue x
    only_value-IsValue v eof x e = marshalled-IsValue v (libraries.marshal v) x refl e
    only_value-IsValue v syntax_error x e = absurd (cc e)
    only_value-IsValue v (value _ _) x e = absurd (cc e)

    decoded-IsValue :
        (front : Decoded libraries.Value) (x : List ℕ)
        → decoded libraries front ≡ written x
        → laws.IsValue x
    decoded-IsValue eof x e = absurd (cc e)
    decoded-IsValue syntax_error x e = absurd (cc e)
    decoded-IsValue (value v rest) x e = only_value-IsValue v (libraries.decode rest) x e

    payload-IsValue :
        (raw : JsonValue) (x : List ℕ)
        → write_canonical_json libraries (payload raw) ≡ written x
        → laws.IsValue x
    unfolding write_canonical_json canonical_json
    payload-IsValue [] x e = subst laws.IsValue (written_inj _ _ e) laws.null-IsValue
    payload-IsValue (byte ∷ raw) x e = decoded-IsValue (libraries.decode (byte ∷ raw)) x e

    payload-Splits :
        (r s : JsonValue)
        → Splits
            (write_canonical_json libraries (payload r))
            (write_canonical_json libraries (payload s))
            (SamePayload r s)
    payload-Splits r s x y a b wx wy ea eb e =
        let (equal, rest) =
          laws.value_apart x y a b (payload-IsValue r x wx) (payload-IsValue s y wy) ea eb e in
        (wx ∙ ap (λ z. written z) equal ∙ sym wy, rest)

    text_starts :
        (s : String) (p : List ℕ)
        → write_text libraries s ≡ written p
        → (c : ℕ) × (more : List ℕ) × (p ≡ c ∷ more) × (beq_nat c b']' ≡ false)
    text_starts s p e =
        let (more, quoted) = laws.text_quoted s in
        (b'"', more, sym (written_inj _ _ e) ∙ quoted, refl)

    equal_items : (xs ys : List String) → Pairwise (λ x y. x ≡ y) xs ys → xs ≡ ys
    equal_items [] [] agree = refl
    equal_items [] (y ∷ ys) agree = absurd agree
    equal_items (x ∷ xs) [] agree = absurd agree
    equal_items (x ∷ xs) (y ∷ ys) agree = λ i. agree.0 i ∷ equal_items xs ys agree.1 i

    set-Splits :
        (xs ys : List String)
        → Splits (write_string_set libraries xs) (write_string_set libraries ys) (SameSet xs ys)
    unfolding write_string_set
    set-Splits xs ys =
        Splits-map
          (λ agree v.
            sym (contains-sorted_set xs v)
            ∙ ap (λ set. contains set v) (equal_items (sorted_set xs) (sorted_set ys) agree)
            ∙ contains-sorted_set ys v)
          (array-Splits libraries laws (write_text libraries) (λ s t. s ≡ t)
            (text-Splits libraries laws) text_starts (sorted_set xs) (sorted_set ys))

    inverse-Splits :
        (i j : InverseDescriptor)
        → Splits
            (write_inverse libraries i)
            (write_inverse libraries j)
            ((i.operation ≡ j.operation) × SamePayload i.value j.value)
    unfolding write_inverse
    inverse-Splits i j =
        Splits-map (λ (operation, (payload, end)). (operation, payload))
          (object-Splits libraries laws (
            both (text-Splits libraries laws i.operation j.operation)
              (both (payload-Splits i.value j.value) done)))

    inverse-Fields :
        (i j : Option InverseDescriptor)
        → (P : Type 0) × Fields (inverse_field libraries i) (inverse_field libraries j) P
          × (P → AgreeingInverse i j)
    inverse-Fields none none = (Unit, done, λ end. end)
    inverse-Fields none (some j) = (⊥, shorter, λ end. end)
    inverse-Fields (some i) none = (⊥, longer, λ end. end)
    inverse-Fields (some i) (some j) = (_, both (inverse-Splits i j) done, λ (agree, end). agree)

    step-Splits :
        (s t : Step) → Splits (write_step libraries s) (write_step libraries t) (AgreeingStep s t)
    unfolding write_step
    step-Splits s t =
        let text = text-Splits libraries laws in
        let (P, inverses, agreeing) = inverse-Fields s.inverse t.inverse in
        Splits-map
          (λ (
            id,
            (
              name,
              (
                description,
                (
                  dependencies,
                  (scope, (network, (operation, (desired, (observed, (disposition, inverse)))))),
                ),
              ),
            ),
          ).
            record {
              id = id;
              module_name = name;
              description = description;
              depends_on = dependencies;
              scope = scope;
              network = network;
              operation = operation;
              desired = desired;
              observed = observed;
              disposition = disposition;
              inverse = agreeing inverse;
            })
          (object-Splits libraries laws (
            both (text s.id t.id) (
              both (text s.module_name t.module_name) (
                both (text s.description t.description) (
                  both (set-Splits s.depends_on t.depends_on) (
                    both (text s.scope t.scope) (
                      both (text s.network t.network) (
                        both (text s.operation t.operation) (
                          both (payload-Splits s.desired t.desired) (
                            both (payload-Splits s.observed t.observed) (
                              both
                                (text (disposition_text s.disposition)
                                  (disposition_text t.disposition))
                                inverses)))))))))))

    step_starts :
        (s : Step) (p : List ℕ)
        → write_step libraries s ≡ written p
        → (c : ℕ) × (more : List ℕ) × (p ≡ c ∷ more) × (beq_nat c b']' ≡ false)
    unfolding write_step
    step_starts s p e = object_starts libraries laws (step_fields libraries s) p e

    steps-Splits :
        (ss ts : List Step)
        → Splits (write_steps libraries ss) (write_steps libraries ts) (Pairwise AgreeingStep ss ts)
    unfolding write_steps
    steps-Splits ss ts =
        array-Splits libraries laws (write_step libraries) AgreeingStep step-Splits step_starts ss
          ts

    selection-Splits :
        (a b : Selection)
        → Splits (write_selection libraries a) (write_selection libraries b) (
            SameSet a.only b.only
            × (SameSet a.with_modules b.with_modules × (SameSet a.without b.without × Unit {0})))
    unfolding write_selection
    selection-Splits a b = object-Splits libraries laws (
        both (set-Splits a.only b.only) (
          both (set-Splits a.with_modules b.with_modules)
            (both (set-Splits a.without b.without) done)))

    -- If JSON's encodings say where they end, then two plans with the same canonical form agree: in the
    -- sets of their selections, and step by step in every field, where dependencies count as sets and
    -- payloads by their canonical form.
    pub normalize-AgreeingPlan :
        (p q : Plan) (bytes : List ℕ)
        → normalize libraries p ≡ written bytes
        → normalize libraries q ≡ written bytes
        → AgreeingPlan p q
    unfolding normalize
    normalize-AgreeingPlan p q bytes wp wq =
        let newline = λ (object : List ℕ). written (object ++ b'\n' ∷ []) in
        let (x, px, xs) =
          bind-written (write_object libraries (plan_fields libraries p)) newline bytes wp in
        let (y, qy, ys) =
          bind-written (write_object libraries (plan_fields libraries q)) newline bytes wq in
        let fields =
          both (selection-Splits p.selection q.selection)
            (both (steps-Splits p.steps q.steps) done) in
        let (((only, (wanted, (without, _))), (steps, _)), _) =
          object_split libraries laws fields x y (b'\n' ∷ []) (b'\n' ∷ []) px qy
            (written_inj _ _ xs ∙ sym (written_inj _ _ ys)) in
        record { only = only; with_modules = wanted; without = without; steps = steps }
