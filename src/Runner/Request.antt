-- ===== src/Runner/Request.antt =====
-- `CommandRequest` and `ValidateCommandRequest` of internal/runner/ports.go.
use Prim.Native.String.{len}
use alex_cachyos.Prelude.{
  ℕ, ◌+◌, ◌*◌, ◌^◌, String, Bool, true, false, not, ◌&&◌, ◌||◌, ◌==◌, is_empty, Map, List, [], ◌∷◌,
  sort_by, text_less, beq_nat, ltb, leb, length, Points, codes, has_prefix, contains_text,
  has_point, contains_any, to_lower, is_abs, base, same, if◌then◌else◌,
}

-- `stdin` is a byte sequence; `timeout` is in nanoseconds, and with `output_limit` at least 0 here:
-- a negative one is refused like 0. Scope, network and output policy are texts in the source.
pub record CommandRequest : Type 0 where
  pub operation : String
  pub executable : String
  pub argv : List String
  pub cwd : String
  pub env : Map String
  pub stdin : List ℕ
  pub scope : String
  pub network : String
  pub output_policy : String
  pub timeout : ℕ
  pub output_limit : ℕ
  pub shell : Bool

-- An exit code of a process, or the -1 that stands for none.
pub data ExitCode : Type 0 where
  exited : ℕ → ExitCode
  no_code : ExitCode

pub record CommandResult : Type 0 where
  pub stdout : List ℕ
  pub stderr : List ℕ
  pub exit_code : ExitCode

abbrev pub max_env_entries : ℕ
max_env_entries = 32

abbrev pub max_env_bytes : ℕ
max_env_bytes = 8 * 2 ^ 10

abbrev pub max_stdin_bytes : ℕ
max_stdin_bytes = 2 ^ 20

abbrev pub max_output_limit : ℕ
max_output_limit = 16 * 2 ^ 20

-- ten minutes
abbrev pub max_timeout : ℕ
max_timeout = 10 * 60 * 10 ^ 9

-- The field that `invalidRequest` names.
pub data Field : Type 0 where
  operation executable cwd shell stdin scope network output_policy timeout output_limit env : Field
  argv : ℕ → Field
  env_name : String → Field

-- nil, or the error of `invalidRequest(field, reason)`.
pub data Verdict : Type 0 where
  valid : Verdict
  invalid : Field → String → Verdict

infixl 5 ◌>>◌
abbrev pub ◌>>◌ : Verdict → Verdict → Verdict
valid >> next = next
invalid field reason >> next = invalid field reason

abbrev pub refuse_if : Bool → Field → String → Verdict
refuse_if true field reason = invalid field reason
refuse_if false field reason = valid

abbrev pub shell_syntax : Points
shell_syntax = codes ";|&`$()<>\r\n"

unfoldable pub has_shell_syntax : Points → Bool
has_shell_syntax s = has_point 0 s || contains_any s shell_syntax

unfoldable pub validate_text : Field → String → Verdict
validate_text field text =
    refuse_if (has_shell_syntax (codes text)) field "contains NUL or shell syntax"

abbrev shells : List Points
shells =
    codes "sh"
    ∷ codes "bash"
    ∷ codes "dash"
    ∷ codes "zsh"
    ∷ codes "fish"
    ∷ codes "ksh"
    ∷ codes "csh"
    ∷ codes "tcsh"
    ∷ codes "ash"
    ∷ codes "rbash"
    ∷ []

abbrev pub shell_flags : List Points
shell_flags =
    codes "-c"
    ∷ codes "-lc"
    ∷ codes "-cl"
    ∷ codes "-ic"
    ∷ codes "-ci"
    ∷ codes "-xc"
    ∷ codes "-cx"
    ∷ codes "-ec"
    ∷ codes "-ce"
    ∷ codes "-lec"
    ∷ codes "-lce"
    ∷ []

unfoldable pub one_of : List Points → Points → Bool
unfolding same
one_of [] s = false
one_of (t ∷ ts) s = same s t || one_of ts s

unfoldable pub is_sudo : Points → Bool
is_sudo value = same (base value) (codes "sudo")

abbrev pub key_less : String × String → String × String → Bool
key_less a b = text_less a.0 b.0

unfoldable pub validate_bounds : CommandRequest → Verdict
validate_bounds r =
    refuse_if (has_point 0 r.stdin || ltb max_stdin_bytes (length r.stdin)) Field.stdin
      "contains NUL or exceeds its bound"
    >> refuse_if (not (r.scope == "user") && not (r.scope == "system")) Field.scope
        "must be user or system"
    >> refuse_if (not (r.network == "none") && not (r.network == "required")) Field.network
        "must be none or required"
    >> refuse_if
        (not (r.output_policy == "capture-redacted")
          && not (r.output_policy == "discard")
          && not (r.output_policy == "stream-safe"))
        Field.output_policy "is not supported"
    >> refuse_if (leb r.timeout 0 || ltb max_timeout r.timeout) Field.timeout
        "must be bounded and positive"
    >> refuse_if (leb r.output_limit 0 || ltb max_output_limit r.output_limit) Field.output_limit
        "must be bounded and positive"
    >> refuse_if (ltb max_env_entries (length r.env)) Field.env "has too many entries"

-- `fold` is the map of the Unicode tables beyond ASCII.
module _ (fold : ℕ → ℕ) where
  unfoldable pub is_shell_executable : Points → Bool
  is_shell_executable value = one_of shells (to_lower fold (base value))

  unfoldable pub is_shell_form : Points → Bool
  is_shell_form value =
      is_shell_executable value
      || is_sudo value
      || one_of shell_flags value
      || has_prefix value (codes "--command=")
      || has_prefix value (codes "-c") && ltb 2 (length value)

  -- A package name may be a shell's: pacman's arguments are data.
  unfoldable pub forbidden_shell_form : Points → Points → Bool
  forbidden_shell_form exe arg =
      if same (base exe) (codes "pacman") && is_shell_executable arg
      then false
      else is_shell_form arg

  unfoldable pub validate_argv : String → ℕ → List String → Verdict
  validate_argv exe i [] = valid
  validate_argv exe i (arg ∷ args) =
      refuse_if (is_sudo (codes arg) || forbidden_shell_form (codes exe) (codes arg)) (Field.argv i)
        "contains a forbidden shell or sudo form"
      >> validate_text (Field.argv i) arg
      >> validate_argv exe (i + 1) args

  -- `strings.NewReplacer("-", "_", ".", "_")`
  underscored : Points → Points
  underscored [] = []
  underscored (c ∷ s) = (if beq_nat c b'-' || beq_nat c b'.' then b'_' else c) ∷ underscored s

  abbrev name_markers : List Points
  name_markers =
      codes "password"
      ∷ codes "passwd"
      ∷ codes "secret"
      ∷ codes "token"
      ∷ codes "api_key"
      ∷ codes "auth"
      ∷ codes "credential"
      ∷ codes "cookie"
      ∷ codes "private_key"
      ∷ []

  abbrev value_markers : List Points
  value_markers =
      codes "secret"
      ∷ codes "password"
      ∷ codes "passwd"
      ∷ codes "api_key"
      ∷ codes "access_token"
      ∷ codes "auth_token"
      ∷ codes "bearer "
      ∷ codes "private key"
      ∷ codes "credential"
      ∷ codes "-----begin"
      ∷ []

  contains_one : List Points → Points → Bool
  unfolding contains_text
  contains_one [] s = false
  contains_one (marker ∷ markers) s = contains_text s marker || contains_one markers s

  unfoldable pub secret_like_environment : String → String → Bool
  unfolding underscored contains_one
  secret_like_environment name value =
      contains_one name_markers (underscored (to_lower fold (codes name)))
      || contains_one value_markers (to_lower fold (codes value))

  -- The loop over the environment in the order of its sorted names; `env_bytes` is the sum so far.
  unfoldable pub validate_env : ℕ → Map String → Verdict
  validate_env env_bytes [] = valid
  validate_env env_bytes ((key, value) ∷ rest) =
      let total = env_bytes + (len key + len value + 2) in
      refuse_if
        (is_empty key
          || contains_any (codes key) (0 ∷ codes "=\r\n")
          || contains_any (codes value) (0 ∷ codes "\r\n"))
        Field.env "contains an invalid name or value"
      >> refuse_if (secret_like_environment key value) (Field.env_name key)
          "contains a secret-like value"
      >> refuse_if (ltb max_env_bytes total) Field.env "exceeds its byte bound"
      >> validate_env total rest

  unfoldable pub validate_executable : String → Verdict
  validate_executable exe =
      refuse_if (is_empty exe) Field.executable "is empty"
      >> refuse_if (has_point b'/' (codes exe) && not (is_abs (codes exe))) Field.executable
          "must be absolute when it contains a path"
      >> refuse_if (is_shell_executable (codes exe) || is_sudo (codes exe)) Field.executable
          "invokes a forbidden shell or sudo"
      >> validate_text Field.executable exe

  unfoldable pub validate_command_request : CommandRequest → Verdict
  validate_command_request r =
      refuse_if (is_empty r.operation) Field.operation "is empty"
      >> validate_text Field.operation r.operation
      >> validate_executable r.executable
      >> refuse_if (is_empty r.cwd || not (is_abs (codes r.cwd))) Field.cwd
          "must be an absolute path"
      >> validate_text Field.cwd r.cwd
      >> refuse_if r.shell Field.shell "shell execution is forbidden"
      >> validate_argv r.executable 0 r.argv
      >> validate_bounds r
      >> validate_env 0 (sort_by key_less r.env)
