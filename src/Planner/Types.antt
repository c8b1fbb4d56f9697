-- ===== src/Planner/Types.antt =====
-- The types of internal/planner/plan.go. A Go slice or JSON value that is nil is not told apart
-- from an empty one: only digest.go does so, of JSON values, and `cloneJSONValue` makes an empty one
-- nil. A value that is copied is itself, so `cloneStep`, `cloneStrings` and the like have no
-- counterpart.
use alex_cachyos.Prelude.{
  ℕ, String, Bool, true, false, Option, none, some, List, [], map, Map, lookup,
}

-- The bytes of a JSON value.
abbrev pub JsonValue : Type 0
JsonValue = List ℕ

-- `Scope`, `NetworkClass` and `Operation` are texts in the source, with these constants.
abbrev pub Scope : Type 0
Scope = String

abbrev pub NetworkClass : Type 0
NetworkClass = String

abbrev pub Operation : Type 0
Operation = String

abbrev pub scope_user : Scope
scope_user = "user"

abbrev pub scope_system : Scope
scope_system = "system"

abbrev pub network_none : NetworkClass
network_none = "none"

abbrev pub network_required : NetworkClass
network_required = "required"

-- A disposition is a text too; `other` holds each text that is none of the four constants.
pub data Disposition : Type 0 where
  satisfied apply remove blocked : Disposition
  other : String → Disposition

pub record InverseDescriptor : Type 0 where
  pub operation : Operation
  pub value : JsonValue

pub record Step : Type 0 where
  pub id : String
  pub module_name : String
  pub depends_on : List String
  pub description : String
  pub scope : Scope
  pub network : NetworkClass
  pub operation : Operation
  pub disposition : Disposition
  pub desired : JsonValue
  pub observed : JsonValue
  pub inverse : Option InverseDescriptor

pub record Module : Type 0 where
  pub name : String
  pub enabled : Bool
  pub depends_on : List String
  pub steps : List Step

pub record Selection : Type 0 where
  pub only : List String
  pub with_modules : List String
  pub without : List String

pub record Plan : Type 0 where
  pub selection : Selection
  pub steps : List Step

-- The package's error types. A `CycleError` carries its nodes three times, and a
-- `MissingDependencyError` its names twice, for callers that know the fields by other names.
pub data PlanError : Type 0 where
  unknown_selection : (field name : String) → PlanError
  missing_module missing_step : (subject dependency : String) → PlanError
  duplicate_module : String → PlanError
  duplicate_step : String → PlanError
  cycle : List String → PlanError
  missing_inverse unknown_operation : String → PlanError
  -- No error of the source: a loop that has not ended when its fuel has.
  unfinished : PlanError

-- A value or an error.
pub data Attempt {ℓ} (A : Type ℓ) : Type ℓ where
  ok : A → Attempt A
  failed : PlanError → Attempt A

infixr 20 ◌>>=◌
abbrev pub ◌>>=◌ {ℓ κ} : {A : Type ℓ} → {B : Type κ} → Attempt A → (A → Attempt B) → Attempt B
ok a >>= f = f a
failed e >>= f = failed e

abbrev pub is_ok {ℓ} : {A : Type ℓ} → Attempt A → Bool
is_ok (ok _) = true
is_ok (failed _) = false

-- What a Go map gives for a missing key.
abbrev pub zero_module : Module
zero_module = record { name = ""; enabled = false; depends_on = []; steps = [] }

abbrev pub zero_step : Step
zero_step = record {
  id = "";
  module_name = "";
  depends_on = [];
  description = "";
  scope = "";
  network = "";
  operation = "";
  disposition = other "";
  desired = [];
  observed = [];
  inverse = none;
}

abbrev get_module : Option Module → Module
get_module none = zero_module
get_module (some m) = m

abbrev pub module_of : Map Module → String → Module
module_of modules name = get_module (lookup name modules)

abbrev get_step : Option Step → Step
get_step none = zero_step
get_step (some s) = s

abbrev pub step_of : Map Step → String → Step
step_of steps id = get_step (lookup id steps)

abbrev pub ids : List Step → List String
ids steps = map (λ step. step.id) steps
