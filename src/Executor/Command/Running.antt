-- ===== src/Executor/Command/Running.antt =====
-- What it takes for a mutator to report that a request ran.
use alex_cachyos.Prelude.{
  String, ◌≡◌, refl, ap, Bool, true, false, Option, none, some, ◌==◌, arith, if◌then◌else◌, ◌⊎◌,
}
use alex_cachyos.Runner.Request.{CommandRequest, CommandResult, ExitCode}
use alex_cachyos.Runner.Ports.{Runner, RunReply, ran, failed}
use alex_cachyos.Executor.Command.{
  CommandError, NetworkPort, authorized, authorize, run_request, reply_error, is_zero,
}

-- From a state in which it may start, the runner ran the request to its end, with exit code 0, and
-- left the machine as it is after.
abbrev pub IsRun : {W : Type 0} → Runner W → CommandRequest → (W → Type 0) → W → Type 0
IsRun {W} runner r Starts after =
    (before : W) × Starts before
    × (result : CommandResult) × (runner r before ≡ (ran result, after))
    × (result.exit_code ≡ ExitCode.exited 0)

-- A request starts where the machine is, or, if it wants the network, where the network port leaves
-- the machine when it lets the request pass.
abbrev pub IsStart : {W : Type 0} → Option (NetworkPort W) → CommandRequest → W → W → Type 0
IsStart {W} network r w before =
    ((r.network == "required" ≡ false) × (before ≡ w))
    ⊎ ((r.network == "required" ≡ true)
        × (port : NetworkPort W) × (network ≡ some port)
        × (port r w ≡ (none, before)))

module _ {W : Type 0} (runner : Runner W) (r : CommandRequest) (Starts : W → Type 0) where
  abbrev RunsIfNone : Option CommandError × W → Type 0
  RunsIfNone answer = answer.0 ≡ none → IsRun runner r Starts answer.1

  pub if-IsRun :
      (b : Bool) (x y : Option CommandError × W)
      → (b ≡ true → RunsIfNone x)
      → (b ≡ false → RunsIfNone y)
      → RunsIfNone (if b then x else y)
  if-IsRun true x y p q = p refl
  if-IsRun false x y p q = q refl

  exited_zero : (code : ExitCode) → is_zero code ≡ true → code ≡ ExitCode.exited 0
  unfolding is_zero
  exited_zero (ExitCode.exited n) h = ground arith
  exited_zero ExitCode.no_code h = cc

  pub run_request-IsRun : (w : W) → Starts w → RunsIfNone (run_request runner r w)
  unfolding run_request reply_error
  run_request-IsRun w start h = go (runner r w).0 refl h
    where
      go :
          (reply : RunReply)
          → (runner r w).0 ≡ reply
          → reply_error reply ≡ none
          → IsRun runner r Starts (runner r w).1
      go (failed err) e h = cc
      go (ran result) e h = (
        w,
        start,
        result,
        ap (λ reply. (reply, (runner r w).1)) e,
        exited_zero result.exit_code (ground arith),
      )

  authorized-IsRun :
      (answer : Option String) (w : W)
      → (answer ≡ none → Starts w)
      → RunsIfNone (authorized answer runner r w)
  unfolding authorized
  authorized-IsRun none w start = run_request-IsRun w (start refl)
  authorized-IsRun (some text) w start = λ h. absurd (cc h)

  pub authorize-IsRun :
      (w : W) (network : Option (NetworkPort W))
      → ((port : NetworkPort W) → network ≡ some port → (port r w).0 ≡ none → Starts (port r w).1)
      → RunsIfNone (authorize network runner r w)
  unfolding authorize
  authorize-IsRun w none start = λ h. absurd (cc h)
  authorize-IsRun w (some port) start = authorized-IsRun (port r w).0 (port r w).1 (start port refl)
