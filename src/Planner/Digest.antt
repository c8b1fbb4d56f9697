-- ===== src/Planner/Digest.antt =====
-- internal/planner/digest.go: the canonical form of a plan, and its digest. The buffer is the bytes
-- that are written; an empty payload stands for the nil one, as `cloneJSONValue` makes it.
pub mod Unordered
pub mod Payloads
pub mod Splits
pub mod Arrays
pub mod Apart
use alex_cachyos.Prelude.{
  ℕ, String, Bool, true, false, ◌⊎◌, inl, inr, Option, none, some, List, [], ◌∷◌, ◌++◌, map, codes,
  sorted_set,
}
use alex_cachyos.Planner.Types.{
  JsonValue, Disposition, satisfied, apply, remove, blocked, other, InverseDescriptor, Step,
  Selection, Plan,
}
use alex_cachyos.Executor.Types.{Decoded, eof, syntax_error, value}

-- A step's payload as the digest meets it. A step's empty payload is nil: `cloneJSONValue` makes it so
-- in every step that `BuildPlan` and `BuildRemovalPlan` put into a plan.
abbrev pub payload : JsonValue → Option (List ℕ)
payload [] = none
payload (byte ∷ raw) = some (byte ∷ raw)

-- What is used of `encoding/json` and of `crypto/sha256`: a decoder of the front of an input, the
-- encodings of a decoded value and of a text, and the digest in hexadecimal digits.
pub record Libraries : Type 1 where
  pub Value : Type 0
  pub decode : JsonValue → Decoded Value
  pub marshal : Value → Option JsonValue
  pub marshal_text : String → JsonValue
  pub sha256 : List ℕ → String

pub data DigestError : Type 0 where
  invalid_payload multiple_values not_canonical : DigestError

pub data Writing : Type 0 where
  written : List ℕ → Writing
  refused : DigestError → Writing

infixr 20 ◌>>=◌
abbrev pub ◌>>=◌ : Writing → (List ℕ → Writing) → Writing
written bytes >>= f = f bytes
refused err >>= f = refused err

abbrev pub disposition_text : Disposition → String
disposition_text satisfied = "satisfied"
disposition_text apply = "apply"
disposition_text remove = "remove"
disposition_text blocked = "blocked"
disposition_text (other text) = text

-- A comma stands before every field or item but the first.
abbrev pub separator : Bool → List ℕ
separator true = []
separator false = b',' ∷ []

-- The items between brackets, or the fields between braces.
abbrev pub enclosed : ℕ → ℕ → Writing → Writing
enclosed opening closing items = items >>= λ bytes. written (opening ∷ (bytes ++ closing ∷ []))

module _ (libraries : Libraries) where
  open libraries use {Value, decode, marshal, marshal_text, sha256}

  abbrev pub write_text : String → Writing
  write_text text = written (marshal_text text)

  -- `writeField` for each of an object's fields, in order.
  unfoldable pub write_fields : Bool → List (String × Writing) → Writing
  write_fields first [] = written []
  write_fields first (field ∷ fields) = field.1 >>= λ bytes. write_fields false fields >>= λ rest.
      written (separator first ++ (marshal_text field.0 ++ b':' ∷ (bytes ++ rest)))

  abbrev pub write_object : List (String × Writing) → Writing
  write_object fields = enclosed b'{' b'}' (write_fields true fields)

  unfoldable pub write_items : Bool → List Writing → Writing
  write_items first [] = written []
  write_items first (item ∷ items) = item >>= λ bytes.
      write_items false items >>= λ rest. written (separator first ++ (bytes ++ rest))

  abbrev pub write_array : List Writing → Writing
  write_array items = enclosed b'[' b']' (write_items true items)

  unfoldable pub write_string_set : List String → Writing
  write_string_set values = write_array (map write_text (sorted_set values))

  abbrev pub marshalled : Option JsonValue → Writing
  marshalled none = refused not_canonical
  marshalled (some bytes) = written bytes

  abbrev pub only_value : Value → Decoded Value → Writing
  only_value v eof = marshalled (marshal v)
  only_value v syntax_error = refused invalid_payload
  only_value v (value _ _) = refused multiple_values

  abbrev pub decoded : Decoded Value → Writing
  decoded (value v rest) = only_value v (decode rest)
  decoded _ = refused invalid_payload

  unfoldable pub canonical_json : JsonValue → Writing
  canonical_json raw = decoded (decode raw)

  -- Only a payload that is nil, `none`, is written as null; one that is there and empty is decoded.
  unfoldable pub write_canonical_json : Option (List ℕ) → Writing
  write_canonical_json none = written (codes "null")
  write_canonical_json (some raw) = canonical_json raw

  unfoldable pub write_selection : Selection → Writing
  write_selection selection = write_object (
      ("only", write_string_set selection.only)
      ∷ ("with", write_string_set selection.with_modules)
      ∷ ("without", write_string_set selection.without)
      ∷ [])

  unfoldable pub write_inverse : InverseDescriptor → Writing
  write_inverse inverse = write_object (
      ("operation", write_text inverse.operation)
      ∷ ("value", write_canonical_json (payload inverse.value))
      ∷ [])

  abbrev pub inverse_field : Option InverseDescriptor → List (String × Writing)
  inverse_field none = []
  inverse_field (some inverse) = ("inverse", write_inverse inverse) ∷ []

  abbrev pub step_fields : Step → List (String × Writing)
  step_fields step =
      ("id", write_text step.id)
      ∷ ("module", write_text step.module_name)
      ∷ ("description", write_text step.description)
      ∷ ("dependsOn", write_string_set step.depends_on)
      ∷ ("scope", write_text step.scope)
      ∷ ("network", write_text step.network)
      ∷ ("operation", write_text step.operation)
      ∷ ("desired", write_canonical_json (payload step.desired))
      ∷ ("observed", write_canonical_json (payload step.observed))
      ∷ ("disposition", write_text (disposition_text step.disposition))
      ∷ inverse_field step.inverse

  unfoldable pub write_step : Step → Writing
  write_step step = write_object (step_fields step)

  unfoldable pub write_steps : List Step → Writing
  write_steps steps = write_array (map write_step steps)

  abbrev pub plan_fields : Plan → List (String × Writing)
  plan_fields plan =
      ("selection", write_selection plan.selection) ∷ ("steps", write_steps plan.steps) ∷ []

  unfoldable pub normalize : Plan → Writing
  normalize plan = write_object (plan_fields plan) >>= λ bytes. written (bytes ++ b'\n' ∷ [])

  -- `Digest`
  abbrev pub Digested : Type 0
  Digested = String ⊎ DigestError

  abbrev hashed : Writing → Digested
  hashed (written bytes) = inl (sha256 bytes)
  hashed (refused err) = inr err

  unfoldable pub digest : Plan → Digested
  digest plan = hashed (normalize plan)
