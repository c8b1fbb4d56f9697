-- ===== src/Runner/Exec.antt =====
-- internal/runner/exec.go: the runner that starts a process, and the buffer that bounds its output.
pub mod Bounds
use alex_cachyos.Prelude.{
  ℕ, ◌-◌, ◌+◌, String, Bool, true, false, not, List, [], ◌∷◌, ◌++◌, Option, none, some, ◌==◌, ltb,
  codes, is_abs, length, take, if◌then◌else◌,
}
use alex_cachyos.Runner.Request.{
  ExitCode, exited, no_code, CommandRequest, CommandResult, Field, Verdict, valid, invalid,
  refuse_if, ◌>>◌, validate_command_request,
}
use alex_cachyos.Runner.Ports.{
  RunReply, ran, failed, Runner, RunError, invalid_request, direct_system_execution, process_error,
}

-- `boundedBuffer.Write`: the buffer behind the write. The count it returns is the length of `p`.
unfoldable pub write : ℕ → List ℕ → List ℕ → List ℕ
write limit buffer p =
    let remaining = limit - length buffer in
    if ltb 0 remaining
    then buffer ++ take (if ltb remaining (length p) then remaining else length p) p
    else buffer

-- The writes of a process to one of its streams, in order.
unfoldable pub write_all : ℕ → List ℕ → List (List ℕ) → List ℕ
unfolding write
write_all limit buffer [] = buffer
write_all limit buffer (p ∷ ps) = write_all limit (write limit buffer p) ps

-- How a process ends: well, with an exit error and its code, or with another error.
pub data ProcessError : Type 0 where
  exit_error : ExitCode → String → ProcessError
  other_error : String → ProcessError

-- What the operating system makes of a started process: what it writes to its two streams, how it
-- ends, and the error of the timed context, if it has one by then.
pub record ProcessEnd : Type 0 where
  pub stdout : List (List ℕ)
  pub stderr : List (List ℕ)
  pub error : Option ProcessError
  pub context_error : Option String

module _ (fold : ℕ → ℕ) where
  unfoldable pub validate_exec_request : CommandRequest → Verdict
  validate_exec_request r =
      validate_command_request fold r
      >> refuse_if (not (is_abs (codes r.executable))) Field.executable "must be an absolute path"

module _ (redact : List ℕ → List ℕ) where
  -- `redact` is the replacement by the two regular expressions.
  unfoldable pub redact_and_bound : List ℕ → ℕ → List ℕ
  redact_and_bound [] limit = []
  redact_and_bound (b ∷ output) limit =
      let redacted = redact (b ∷ output) in
      if ltb limit (length redacted) then take limit redacted else redacted

  -- The bytes of a stream that the result keeps, under the request's output policy.
  unfoldable pub stream : CommandRequest → List (List ℕ) → List ℕ
  unfolding write_all redact_and_bound
  stream r writes =
      if r.output_policy == "discard"
      then []
      else redact_and_bound (write_all r.output_limit [] writes) r.output_limit

  abbrev exit_code : Option ProcessError → ExitCode
  exit_code none = exited 0
  exit_code (some (exit_error code _)) = code
  exit_code (some (other_error _)) = no_code

  abbrev result_of : CommandRequest → ProcessEnd → CommandResult
  result_of r end = record {
    stdout = stream r end.stdout;
    stderr = stream r end.stderr;
    exit_code = exit_code end.error;
  }

  -- A context error takes the place of the process's own.
  abbrev error_text : ProcessError → Option String → String
  error_text _ (some text) = text
  error_text (exit_error _ text) none = text
  error_text (other_error text) none = text

  finish : CommandRequest → ProcessEnd → Option ProcessError → RunReply
  unfolding stream
  finish r end none = ran (result_of r end)
  finish r end (some err) =
      failed (process_error (result_of r end) (error_text err end.context_error))

  module _ (fold : ℕ → ℕ) {W : Type 0} (process : CommandRequest → W → ProcessEnd × W) where
    start : Verdict → CommandRequest → W → RunReply × W
    unfolding finish
    start (invalid field reason) r w = (failed (invalid_request field reason), w)
    start valid r w =
        if r.scope == "system"
        then (failed direct_system_execution, w)
        else (let (end, w') = process r w in (finish r end end.error, w'))

    -- `ExecRunner.Run`; a context is always given.
    unfoldable pub exec_run : Runner W
    unfolding start
    exec_run r = start (validate_exec_request fold r) r
