-- ===== src/Runner/Examples.antt =====
-- Command requests, the bounds of their output, and what becomes of them behind pkexec.
use alex_cachyos.Prelude.{
  ℕ, ◌≡◌, ◌≤◌, refl, ◌+◌, none, true, false, List, [], ◌∷◌, some, is_abs, length, to_lower, base,
  has_point, contains_any, same, has_prefix, sort_by, insert_sorted,
}
use alex_cachyos.Runner.Request.{
  CommandRequest, valid, validate_command_request, validate_text, has_shell_syntax, one_of, is_sudo,
  is_shell_executable, is_shell_form, forbidden_shell_form, validate_argv, validate_env,
  validate_executable, validate_bounds,
}
use alex_cachyos.Runner.Exec.{ProcessEnd, exec_run, stream}
use alex_cachyos.Runner.Exec.Bounds.{stream-le}
use alex_cachyos.Runner.Elevation.{elevation_run}
use alex_cachyos.Runner.Elevation.Wrapped.{is_argv_reply, elevation_run-shell_named}

-- No character beyond ASCII stands in these requests.
abbrev pub fold : ℕ → ℕ
fold c = c

abbrev pub request : CommandRequest
request = record {
  operation = "update";
  executable = "/usr/bin/pacman";
  argv = "-Syu" ∷ "--needed" ∷ [];
  cwd = "/";
  env = [];
  stdin = [];
  scope = "system";
  network = "required";
  output_policy = "stream-safe";
  timeout = 1000000;
  output_limit = 3;
  shell = false;
}

pub request-valid : validate_command_request fold request ≡ valid
unfolding validate_command_request validate_text has_shell_syntax has_point contains_any one_of
    is_sudo is_shell_executable is_shell_form forbidden_shell_form validate_argv validate_env
    validate_executable validate_bounds is_abs to_lower base same has_prefix sort_by insert_sorted
request-valid = refl

-- `pacman -Syu zsh`
abbrev zsh_request : CommandRequest
zsh_request = record request { argv = "-Syu" ∷ "zsh" ∷ [] }

zsh_request-valid : validate_command_request fold zsh_request ≡ valid
unfolding validate_command_request validate_text has_shell_syntax has_point contains_any one_of
    is_sudo is_shell_executable is_shell_form forbidden_shell_form validate_argv validate_env
    validate_executable validate_bounds is_abs to_lower base same has_prefix sort_by insert_sorted
zsh_request-valid = refl

abbrev quiet : ProcessEnd
quiet = record { stdout = []; stderr = []; error = none; context_error = none }

-- A process that counts its starts.
abbrev process : CommandRequest → ℕ → ProcessEnd × ℕ
process r w = (quiet, w + 1)

abbrev redact : List ℕ → List ℕ
redact output = output

elevation_run-shell_named_example :
    let (reply, w') = elevation_run fold (some (exec_run redact fold process)) zsh_request 0 in
    (is_argv_reply reply ≡ true) × (w' ≡ 0)
unfolding is_abs is_shell_executable one_of to_lower base same
elevation_run-shell_named_example =
    elevation_run-shell_named fold redact process zsh_request 0 zsh_request-valid refl refl refl

abbrev writes : List (List ℕ)
writes = (1 ∷ 2 ∷ []) ∷ (3 ∷ 4 ∷ []) ∷ []

stream-le_example : length (stream redact request writes) ≤ 3
stream-le_example = stream-le redact request writes
