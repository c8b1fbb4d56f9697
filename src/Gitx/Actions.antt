-- ===== src/Gitx/Actions.antt =====
-- The steps of the git client's methods: each runs a command, inspects a path or leaves the method
-- with its result so far and an error. `Run` calls the client's runner as it is.
pub mod Ensures
use alex_cachyos.Prelude.{
  ℕ, String, Bool, true, false, Option, none, some, List, [], ◌∷◌, if◌then◌else◌, beq_nat,
}
use alex_cachyos.Runner.Request.{ExitCode}
use alex_cachyos.Gitx.Safety.{
  CommandRequest, CommandResult, GitError, GitReply, git_ran, git_failed, GitRunner,
}

pub data CheckoutError : Type 0 where
  nil_runner git_command_failed : CheckoutError
  path_not_absolute remote_required branch_not_main desired_required desired_not_commit :
      CheckoutError
  path_missing inspect_failed not_a_directory origin_mismatch not_on_main head_empty
        head_empty_after :
      CheckoutError
  unreachable diverged local_changes_overlap not_a_commit : CheckoutError

-- What `os.Lstat` says of a path.
pub data PathInfo : Type 0 where
  directory symlink other_file not_found uninspected : PathInfo

-- The file system and git, over the state `W` of the machine.
pub record Ports (W : Type 0) : Type 0 where
  pub lstat : String → W → PathInfo
  pub git : GitRunner W

-- A step goes on with a value, or the method returns.
pub data Step (R A : Type 0) : Type 0 where
  proceed : A → Step R A
  finish : R → Option CheckoutError → Step R A

abbrev pub Action : Type 0 → Type 0 → Type 0 → Type 0
Action W R A = W → Step R A × W

abbrev pub resume : {W R A B : Type 0} → (A → Action W R B) → Step R A × W → Step R B × W
resume f (proceed a, w) = f a w
resume f (finish r err, w) = (finish r err, w)

infixl 5 ◌>>=◌
abbrev pub ◌>>=◌ : {W R A B : Type 0} → Action W R A → (A → Action W R B) → Action W R B
◌>>=◌ m f w = resume f (m w)

infixl 5 ◌>>◌
abbrev pub ◌>>◌ : {W R A B : Type 0} → Action W R A → Action W R B → Action W R B
m >> k = m >>= λ _. k

abbrev pub leave : {W R A : Type 0} → R → Option CheckoutError → Action W R A
leave r err w = (finish r err, w)

-- Goes on if the test holds.
unfoldable pub require : {W R : Type 0} → Bool → R → CheckoutError → Action W R (Unit {0})
require true r err w = (proceed tt, w)
require false r err w = (finish r (some err), w)

abbrev pub git_request : String → String → List String → CommandRequest
git_request cwd operation argv = record {
  operation = operation;
  executable = "git";
  argv = argv;
  cwd = cwd;
}

abbrev exited_with : ℕ → ExitCode → Bool
exited_with n (ExitCode.exited m) = beq_nat m n
exited_with n ExitCode.no_code = false

-- `err != nil || result.ExitCode != 0` is false.
abbrev pub is_success : GitReply → Bool
is_success (git_failed result err) = false
is_success (git_ran result) = exited_with 0 result.exit_code

abbrev pub result_of : GitReply → CommandResult
result_of (git_failed result err) = result
result_of (git_ran result) = result

-- The command ran and failed with exit code 1.
abbrev pub is_exit_one : GitReply → Bool
is_exit_one reply = exited_with 1 (result_of reply).exit_code

module _ {W : Type 0} (ports : Ports W) {R : Type 0} where
  open ports use {git, lstat}

  -- `c.run`, whose error is handled by the caller.
  abbrev pub call : String → String → List String → Action W R GitReply
  call cwd operation argv w =
      let (reply, after) = git (git_request cwd operation argv) w in (proceed reply, after)

  -- A command whose failure ends the method with the given result and error.
  unfoldable pub run_or :
      R → CheckoutError → String → String → List String → Action W R CommandResult
  run_or r err cwd operation argv = call cwd operation argv >>= λ reply.
      require (is_success reply) r err >>= λ _ w. (proceed (result_of reply), w)

  -- `os.Lstat(path)`
  abbrev pub inspect : String → Action W R PathInfo
  inspect path w = (proceed (lstat path w), w)
