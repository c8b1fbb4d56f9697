-- ===== src/Runner/Elevation.antt =====
-- internal/runner/elevation.go: system-scoped requests are wrapped in pkexec.
pub mod Wrapped
use alex_cachyos.Prelude.{
  ℕ, String, not, List, [], ◌∷◌, Option, none, some, ◌==◌, codes, is_abs, if◌then◌else◌,
}
use alex_cachyos.Runner.Request.{
  CommandRequest, Field, Verdict, valid, invalid, validate_command_request,
}
use alex_cachyos.Runner.Ports.{RunReply, failed, Runner, invalid_request, nil_delegate}

abbrev pub pkexec_executable : String
pkexec_executable = "/usr/bin/pkexec"

-- The request that the delegate gets for a system-scoped one.
abbrev pub wrap : CommandRequest → CommandRequest
wrap r = record r { executable = pkexec_executable; scope = "user"; argv = r.executable ∷ r.argv }

module _ {W : Type 0} where
  elevate : Verdict → Runner W → Runner W
  elevate (invalid field reason) delegate r w = (failed (invalid_request field reason), w)
  elevate valid delegate r w =
      if r.scope == "user"
      then delegate r w
      else if not (is_abs (codes r.executable))
      then (failed (invalid_request Field.executable "must be absolute for system scope"), w)
      else delegate (wrap r) w

  -- `(*ElevationRunner).Run`; the delegate is nil where it is `none`.
  unfoldable pub elevation_run : (ℕ → ℕ) → Option (Runner W) → Runner W
  unfolding elevate
  elevation_run fold none r w = (failed nil_delegate, w)
  elevation_run fold (some delegate) r w = elevate (validate_command_request fold r) delegate r w
