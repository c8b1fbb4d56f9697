-- ===== src/Runner/Elevation/Wrapped.antt =====
-- What becomes of a request on its way through pkexec.
use alex_cachyos.Prelude.{
  ℕ, ◌+◌, String, ◌≡◌, refl, Bool, true, false, not, ◌||◌, List, [], ◌∷◌, some, ◌==◌, codes, base,
  is_abs, is_empty, sort_by, same, any, has_prefix, Points, has_point, contains_any, to_lower,
  has_point, contains_any, to_lower, arith,
}
use alex_cachyos.Runner.Request.{
  CommandRequest, Field, Verdict, valid, invalid, ◌>>◌, is_sudo, has_shell_syntax, key_less,
  is_shell_executable, is_shell_form, one_of, shell_flags, forbidden_shell_form, validate_text,
  validate_argv, validate_executable, validate_bounds, validate_env, validate_command_request,
}
use alex_cachyos.Runner.Ports.{Runner, RunReply, failed, invalid_request}
use alex_cachyos.Runner.Exec.{ProcessEnd, validate_exec_request, exec_run}
use alex_cachyos.Runner.Elevation.{wrap, elevation_run}

abbrev pkexec : String
pkexec = "/usr/bin/pkexec"

pkexec-not_pacman : same (base (codes pkexec)) (codes "pacman") ≡ false
unfolding base same
pkexec-not_pacman = refl

abbrev form_reason : String
form_reason = "contains a forbidden shell or sudo form"

-- An absolute path is no flag.
abs_no_flag :
    (s : Points)
    → is_abs s ≡ true
    → (one_of shell_flags s ≡ false)
      × (has_prefix s (codes "--command=") ≡ false)
      × (has_prefix s (codes "-c") ≡ false)
unfolding is_abs one_of same has_prefix
abs_no_flag [] h = cc
abs_no_flag (c ∷ s) h = ground arith

-- A refusal that names an argument.
abbrev pub is_argv_refusal : Verdict → Bool
is_argv_refusal (invalid (Field.argv _) _) = true
is_argv_refusal _ = false

-- A reply that passes such a refusal on.
abbrev pub is_argv_reply : RunReply → Bool
is_argv_reply (failed (invalid_request (Field.argv _) _)) = true
is_argv_reply _ = false

module _ (fold : ℕ → ℕ) where
  abbrev pub is_shell_named : String → Bool
  is_shell_named arg = is_shell_executable fold (codes arg)

  form_behind_pkexec :
      (arg : Points) → forbidden_shell_form fold (codes pkexec) arg ≡ is_shell_form fold arg
  unfolding forbidden_shell_form
  form_behind_pkexec arg = rw pkexec-not_pacman

  form_of_shell :
      (arg : Points) → is_shell_executable fold arg ≡ true → is_shell_form fold arg ≡ true
  unfolding is_shell_form
  form_of_shell arg h = rw h

  -- Without a shell's name the pacman exception makes no difference.
  form_elsewhere :
      (exe arg : Points)
      → is_shell_executable fold arg ≡ false
      → forbidden_shell_form fold exe arg ≡ is_shell_form fold arg
  unfolding forbidden_shell_form
  form_elsewhere exe arg h = ground arith

  form_of_executable :
      (exe : Points)
      → is_abs exe ≡ true
      → is_shell_executable fold exe ≡ false
      → is_sudo exe ≡ false
      → is_shell_form fold exe ≡ false
  unfolding is_shell_form
  form_of_executable exe h shell sudo =
      let (a, b, c) = abs_no_flag exe h in rw (shell, sudo, a, b, c)

  argv_rewrapped :
      (exe : String) (i j : ℕ) (args : List String)
      → validate_argv fold exe j args ≡ valid
      → any is_shell_named args ≡ false
      → validate_argv fold pkexec i args ≡ valid
  unfolding validate_argv validate_text
  argv_rewrapped exe i j [] h n = refl
  argv_rewrapped exe i j (arg ∷ args) h n = ground (
    arith,
    form_behind_pkexec (codes arg),
    form_elsewhere (codes exe) (codes arg),
    argv_rewrapped exe (i + 1) (j + 1) args,
  )

  argv_refused :
      (i : ℕ) (args : List String)
      → any is_shell_named args ≡ true
      → is_argv_refusal (validate_argv fold pkexec i args) ≡ true
  unfolding validate_argv validate_text
  argv_refused i [] h = cc
  argv_refused i (arg ∷ args) h =
      ground (
        arith,
        form_behind_pkexec (codes arg),
        form_of_shell (codes arg),
        argv_refused (i + 1) args,
      )

  -- The parts of a request's validation that the wrapping leaves as they are.
  record IsWrappable (r : CommandRequest) : Type 0 where
    operation : validate_text Field.operation r.operation ≡ valid
    named : is_empty r.operation ≡ false
    shell_exe : is_shell_executable fold (codes r.executable) ≡ false
    sudo_exe : is_sudo (codes r.executable) ≡ false
    text_exe : has_shell_syntax (codes r.executable) ≡ false
    cwd : is_empty r.cwd || not (is_abs (codes r.cwd)) ≡ false
    cwd_text : validate_text Field.cwd r.cwd ≡ valid
    no_shell : r.shell ≡ false
    argv : validate_argv fold r.executable 0 r.argv ≡ valid
    bounds : validate_bounds r ≡ valid
    env : validate_env fold 0 (sort_by key_less r.env) ≡ valid

  valid-IsWrappable : (r : CommandRequest) → validate_command_request fold r ≡ valid → IsWrappable r
  unfolding validate_command_request validate_executable validate_text
  valid-IsWrappable r h = ground arith

  pkexec_valid : validate_executable fold pkexec ≡ valid
  unfolding validate_executable validate_text has_shell_syntax has_point contains_any is_abs
      is_shell_executable to_lower base one_of is_sudo same
  pkexec_valid = refl

  bounds_wrapped :
      (r : CommandRequest) → validate_bounds r ≡ valid → validate_bounds (wrap r) ≡ valid
  unfolding validate_bounds
  bounds_wrapped r h = ground arith

  argv_wrapped :
      (exe : String) (args : List String)
      → is_abs (codes exe) ≡ true
      → is_shell_executable fold (codes exe) ≡ false
      → is_sudo (codes exe) ≡ false
      → has_shell_syntax (codes exe) ≡ false
      → validate_argv fold pkexec 0 (exe ∷ args) ≡ validate_argv fold pkexec 1 args
  unfolding validate_argv validate_text
  argv_wrapped exe args h shell sudo text =
      rw (form_behind_pkexec (codes exe), form_of_executable (codes exe) h shell sudo, sudo, text)

  wrapped_verdict :
      (r : CommandRequest)
      → IsWrappable r
      → is_abs (codes r.executable) ≡ true
      → validate_command_request fold (wrap r) ≡ (validate_argv fold pkexec 1 r.argv >> valid)
  unfolding validate_command_request
  wrapped_verdict r v h = ground (
    arith,
    pkexec_valid,
    bounds_wrapped r v.bounds,
    argv_wrapped r.executable r.argv h v.shell_exe v.sudo_exe v.text_exe,
  )

  -- A valid system request whose arguments name no shell is valid again behind pkexec, for the
  -- runner that starts it.
  wrap-valid :
      (r : CommandRequest)
      → validate_command_request fold r ≡ valid
      → is_abs (codes r.executable) ≡ true
      → any is_shell_named r.argv ≡ false
      → validate_exec_request fold (wrap r) ≡ valid
  unfolding validate_exec_request is_abs
  wrap-valid r h abs plain =
      let v = valid-IsWrappable r h in
      rw (wrapped_verdict r v abs, argv_rewrapped r.executable 1 0 r.argv v.argv plain)

  not_user : (s : String) → s ≡ "system" → (s == "user") ≡ false
  not_user s h = rw h

  module _ (redact : List ℕ → List ℕ) {W : Type 0} (process : CommandRequest → W → ProcessEnd × W)
      (r : CommandRequest) (w : W) where
    elevated :
        (delegate : Runner W)
        → validate_command_request fold r ≡ valid
        → r.scope ≡ "system"
        → is_abs (codes r.executable) ≡ true
        → elevation_run fold (some delegate) r w ≡ delegate (wrap r) w
    unfolding elevation_run
    elevated delegate h scope abs = rw (h, not_user r.scope scope, abs)

    exec_refused :
        is_argv_refusal (validate_exec_request fold r) ≡ true
        → (is_argv_reply (exec_run redact fold process r w).0 ≡ true)
          × ((exec_run redact fold process r w).1 ≡ w)
    unfolding exec_run
    exec_refused h = ground arith

  exec_refusal :
      (r : CommandRequest)
      → IsWrappable r
      → is_abs (codes r.executable) ≡ true
      → any is_shell_named r.argv ≡ true
      → is_argv_refusal (validate_exec_request fold (wrap r)) ≡ true
  unfolding validate_exec_request
  exec_refusal r v abs shell =
      rw (wrapped_verdict r v abs) (ground (arith, argv_refused 1 r.argv shell))

  -- A valid system request with an argument that is named like a shell, which only the pacman
  -- exception lets pass, is refused by the runner behind pkexec: it gets an invalid request error
  -- that names an argument, and no process is started.
  pub elevation_run-shell_named :
      (redact : List ℕ → List ℕ) {W : Type 0} (process : CommandRequest → W → ProcessEnd × W)
      (r : CommandRequest) (w : W)
      → validate_command_request fold r ≡ valid
      → r.scope ≡ "system"
      → is_abs (codes r.executable) ≡ true
      → any is_shell_named r.argv ≡ true
      → let (reply, w') = elevation_run fold (some (exec_run redact fold process)) r w in
        (is_argv_reply reply ≡ true) × (w' ≡ w)
  elevation_run-shell_named redact process r w h scope abs shell =
      rw (elevated redact process r w (exec_run redact fold process) h scope abs)
        (exec_refused redact process (wrap r) w (exec_refusal r (valid-IsWrappable r h) abs shell))
