-- ===== src/Runner/Ports.antt =====
-- The `Runner` interface of internal/runner/ports.go, over the state `W` of the machine.
use alex_cachyos.Prelude.{String}
use alex_cachyos.Runner.Request.{CommandRequest, CommandResult, Field}

-- An error with the `CommandResult` beside it: the program's refusals, where `ExitCode` is -1 and
-- nothing was run, and an error of the process with the result that it left.
pub data RunError : Type 0 where
  invalid_request : Field → String → RunError
  nil_delegate direct_system_execution : RunError
  process_error : CommandResult → String → RunError

pub data RunReply : Type 0 where
  ran : CommandResult → RunReply
  failed : RunError → RunReply

abbrev pub Runner : Type 0 → Type 0
Runner W = CommandRequest → W → RunReply × W
