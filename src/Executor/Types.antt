-- ===== src/Executor/Types.antt =====
-- The result and error types of internal/executor/executor.go and jsonvalue.go.
use alex_cachyos.Prelude.{String, Bool, List, Option}
use alex_cachyos.Planner.Types.{JsonValue, Disposition, Step}

-- The outcome constants of executor.go; a new outcome has none of them yet.
pub data OutcomeName : Type 0 where
  unset satisfied applied blocked projected failed : OutcomeName

pub data Stage : Type 0 where
  disposition observe compare reobserve apply post_observe postcondition : Stage

pub data ErrorClass : Type 0 where
  disposition observer comparison mutator postcondition : ErrorClass

pub data Port : Type 0 where
  observer mutator : Port

-- `string(stage)` and `string(port)`, as they stand in an outcome's error code.
abbrev pub stage_text : Stage → String
stage_text Stage.disposition = "disposition"
stage_text Stage.observe = "observe"
stage_text Stage.compare = "compare"
stage_text Stage.reobserve = "reobserve"
stage_text Stage.apply = "apply"
stage_text Stage.post_observe = "postobserve"
stage_text Stage.postcondition = "postcondition"

abbrev pub port_text : Port → String
port_text Port.observer = "observer"
port_text Port.mutator = "mutator"

pub data Side : Type 0 where
  observed desired : Side

pub data FailureKind : Type 0 where
  empty malformed trailing : FailureKind

-- The result of `EqualJSON`: nil, `ErrJSONMismatch`, or a `ComparisonError`.
pub data Comparison : Type 0 where
  equal mismatch : Comparison
  invalid : Side → FailureKind → Comparison

-- What a step error wraps: an error of a port, of which only its text is known, or one of the
-- package's own.
pub data Cause : Type 0 where
  port_error : String → Cause
  comparison_error : Side → FailureKind → Cause
  unsupported_disposition json_mismatch : Cause

pub data ExecError : Type 0 where
  step_error : String → Stage → ErrorClass → Cause → ExecError
  missing_port : String → Port → ExecError

pub record Outcome : Type 0 where
  pub step : Step
  pub step_id : String
  pub module_name : String
  pub outcome : OutcomeName
  pub disposition : Disposition
  pub desired : JsonValue
  pub observed : JsonValue
  pub no_change : Bool
  pub projected : Bool
  pub error_code : String

pub record Result : Type 0 where
  pub outcomes : List Outcome
  pub no_change : Bool

-- What `encoding/json` makes of the front of an input: its end, a syntax error, or one value and
-- the bytes behind it.
pub data Decoded (V : Type 0) : Type 0 where
  eof syntax_error : Decoded V
  value : V → JsonValue → Decoded V

-- The two operations of the Go libraries that `EqualJSON` rests on: `Decoder.Decode` with
-- `UseNumber`, and `reflect.DeepEqual` on what it decodes.
pub record JsonLibrary : Type 1 where
  pub Value : Type 0
  pub decode : JsonValue → Decoded Value
  pub deep_equal : Value → Value → Bool

-- An error of a port carries its text.
pub data Observation : Type 0 where
  seen : JsonValue → Observation
  unseen : String → Observation

-- The ports of an executor over the state `W` of the machine; a port that is nil is `none`.
pub record Ports (W : Type 0) : Type 0 where
  pub observer : Option (Step → W → Observation × W)
  pub mutator : Option (Step → W → Option String × W)
