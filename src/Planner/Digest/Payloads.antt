-- ===== src/Planner/Digest/Payloads.antt =====
-- When a plan has a digest.
use alex_cachyos.Prelude.{
  ℕ, String, ◌≡◌, refl, ◌∙◌, Bool, true, false, ◌&&◌, ◌⊎◌, inl, inr, Option, none, some, List, [],
  ◌∷◌, ◌++◌, map, all, is_some, arith, sorted_set,
}
use alex_cachyos.Planner.Types.{Selection, JsonValue, InverseDescriptor, Step, Plan}
use alex_cachyos.Executor.Types.{Decoded, eof, syntax_error, value}
use alex_cachyos.Planner.Digest.{
  Libraries, Writing, written, refused, DigestError, enclosed, write_text, write_fields,
  write_object, write_items, write_array, write_string_set, payload, write_canonical_json,
  canonical_json, decoded, only_value, marshalled, write_selection, write_inverse, inverse_field,
  write_step, write_steps, normalize, hashed, digest, ◌>>=◌,
}

abbrev pub is_written : Writing → Bool
is_written (written bytes) = true
is_written (refused err) = false

abbrev pub is_digest : String ⊎ DigestError → Bool
is_digest (inl text) = true
is_digest (inr err) = false

module _ (libraries : Libraries) where
  open libraries use {Value, decode, marshal}

  abbrev is_end : Decoded Value → Bool
  is_end eof = true
  is_end _ = false

  -- One value that can be encoded again, with nothing behind it.
  abbrev is_one_value : Decoded Value → Bool
  is_one_value (value v rest) = is_end (decode rest) && is_some (marshal v)
  is_one_value _ = false

  -- A payload is missing, or one JSON value and nothing else.
  abbrev pub is_payload : JsonValue → Bool
  is_payload [] = true
  is_payload (byte ∷ raw) = is_one_value (decode (byte ∷ raw))

  marshalled-is_written :
      (encoding : Option JsonValue) → is_written (marshalled libraries encoding) ≡ is_some encoding
  marshalled-is_written none = refl
  marshalled-is_written (some bytes) = refl

  only-is_written :
      (v : Value) (behind : Decoded Value)
      → is_written (only_value libraries v behind) ≡ (is_end behind && is_some (marshal v))
  only-is_written v eof = marshalled-is_written (marshal v)
  only-is_written v syntax_error = refl
  only-is_written v (value _ _) = refl

  decoded-is_written :
      (front : Decoded Value) → is_written (decoded libraries front) ≡ is_one_value front
  decoded-is_written eof = refl
  decoded-is_written syntax_error = refl
  decoded-is_written (value v rest) = only-is_written v (decode rest)

  payload-is_written :
      (raw : JsonValue) → is_written (write_canonical_json libraries (payload raw)) ≡ is_payload raw
  unfolding write_canonical_json canonical_json
  payload-is_written [] = refl
  payload-is_written (byte ∷ raw) = decoded-is_written (decode (byte ∷ raw))

  abbrev pub is_inverse : Option InverseDescriptor → Bool
  is_inverse none = true
  is_inverse (some inverse) = is_payload inverse.value

  abbrev pub has_payloads : Step → Bool
  has_payloads step =
      is_payload step.desired && (is_payload step.observed && is_inverse step.inverse)

  write_fields-is_written :
      (first : Bool) (fields : List (String × Writing))
      → is_written (write_fields libraries first fields) ≡ all (λ field. is_written field.1) fields
  unfolding write_fields
  write_fields-is_written first [] = refl
  write_fields-is_written first ((name, written bytes) ∷ fields) =
      ground (arith, write_fields-is_written false fields)
  write_fields-is_written first ((name, refused err) ∷ fields) = refl

  write_items-is_written :
      (first : Bool) (items : List Writing)
      → is_written (write_items libraries first items) ≡ all is_written items
  unfolding write_items
  write_items-is_written first [] = refl
  write_items-is_written first (written bytes ∷ items) =
      ground (arith, write_items-is_written false items)
  write_items-is_written first (refused err ∷ items) = refl

  enclosed-is_written :
      (opening closing : ℕ) (items : Writing)
      → is_written (enclosed opening closing items) ≡ is_written items
  enclosed-is_written opening closing (written bytes) = refl
  enclosed-is_written opening closing (refused err) = refl

  object-is_written :
      (fields : List (String × Writing))
      → is_written (write_object libraries fields) ≡ all (λ field. is_written field.1) fields
  object-is_written fields =
      enclosed-is_written _ _ (write_fields libraries true fields)
      ∙ write_fields-is_written true fields

  array-is_written :
      (items : List Writing) → is_written (write_array libraries items) ≡ all is_written items
  array-is_written items =
      enclosed-is_written _ _ (write_items libraries true items) ∙ write_items-is_written true items

  texts-is_written :
      (texts : List String) → all is_written (map (write_text libraries) texts) ≡ true
  texts-is_written [] = refl
  texts-is_written (text ∷ texts) = texts-is_written texts

  set-is_written : (texts : List String) → is_written (write_string_set libraries texts) ≡ true
  unfolding write_string_set
  set-is_written texts = array-is_written _ ∙ texts-is_written (sorted_set texts)

  inverse-is_written :
      (inverse : Option InverseDescriptor)
      → all (λ field. is_written field.1) (inverse_field libraries inverse) ≡ is_inverse inverse
  unfolding write_inverse
  inverse-is_written none = refl
  inverse-is_written (some inverse) = ground (
    arith,
    object-is_written (
        ("operation", write_text libraries inverse.operation)
        ∷ ("value", write_canonical_json libraries (payload inverse.value))
        ∷ []),
    payload-is_written inverse.value,
  )

  step-is_written : (step : Step) → is_written (write_step libraries step) ≡ has_payloads step
  unfolding write_step
  step-is_written step =
      object-is_written _
      ∙ ground (
        arith,
        set-is_written step.depends_on,
        inverse-is_written step.inverse,
        payload-is_written step.desired,
        payload-is_written step.observed,
      )

  steps-is_written :
      (steps : List Step)
      → all is_written (map (write_step libraries) steps) ≡ all has_payloads steps
  steps-is_written [] = refl
  steps-is_written (step ∷ steps) = ground (arith, step-is_written step, steps-is_written steps)

  selection-is_written :
      (selection : Selection) → is_written (write_selection libraries selection) ≡ true
  unfolding write_selection
  selection-is_written selection =
      object-is_written _
      ∙ ground (
        arith,
        set-is_written selection.only,
        set-is_written selection.with_modules,
        set-is_written selection.without,
      )

  -- Behind the object only a newline and the digest follow.
  finished-is_written :
      (object : Writing)
      → is_digest (hashed libraries (object >>= λ bytes. written (bytes ++ b'\n' ∷ [])))
        ≡ is_written object
  finished-is_written (written bytes) = refl
  finished-is_written (refused err) = refl

  -- A plan has a digest exactly if each payload of its steps, those of their inverses included, is
  -- missing, or decodes to one JSON value that can be encoded again with nothing behind it.
  pub digest-is_payload :
      (plan : Plan) → is_digest (digest libraries plan) ≡ all has_payloads plan.steps
  unfolding digest normalize write_steps
  digest-is_payload plan =
      finished-is_written _
      ∙ object-is_written _
      ∙ ground (
        arith,
        selection-is_written plan.selection,
        array-is_written (map (write_step libraries) plan.steps),
        steps-is_written plan.steps,
      )
