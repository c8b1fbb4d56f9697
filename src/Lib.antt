-- ===== src/Lib.antt =====
-- The configurator alex-cachyos brings a machine to a declared state: a catalog of modules is merged
-- and selected, a planner orders the modules' steps, an executor observes and changes the machine
-- step by step through commands that are validated before they run, and a receipt records what was
-- done, so that it can be undone. This library models the parts that decide, and leaves to
-- parameters what touches the machine.
--
-- The parts, and the files that model them:
--   * Prelude: lists, association lists for Go's maps, texts as code points, paths, sorts, and
--     sets of texts (Prelude/Sort).
--   * Planner (internal/planner): Planner/Types for the types of plan.go; Planner/Select for
--     `copyDefinitions`, `validateSelections` and `selectModules`; Planner/Graph for the dependency
--     graphs and the ready loop that `moduleCycle` and `orderSteps` both write out; Planner/Build for
--     these two and `BuildPlan`; Planner/Removal for removal.go and Planner/Network for network.go;
--     Planner/Digest for `Normalize` and `Digest` (digest.go).
--   * Runner (internal/runner): Runner/Request for `ValidateCommandRequest` (ports.go), Runner/Exec
--     for `ExecRunner` and its bounded buffer (exec.go), Runner/Elevation for the pkexec wrapper
--     (elevation.go).
--   * Executor (internal/executor): Executor/Engine for `Execute` (executor.go) and `EqualJSON`
--     (jsonvalue.go), Executor/Command for the mutator that maps a step to a command (command.go).
--   * Catalog (internal/catalog): Catalog/Values for merge_values.go, Catalog/Risks and
--     Catalog/Documents for types.go, Catalog/Sources for the pin maps of merge.go and Catalog/Merge for
--     `MergeDocuments`, Catalog/Checks for `Validate` (validate.go), Catalog/Repository for
--     `NewRepository` and `Resolve` (repository.go).
--   * App (internal/app): App/Apply for apply.go, App/Host for host.go, App/Rollback for
--     rollback_preconditions.go.
--   * Gitx (internal/gitx): Gitx/Safety for `ValidateGitCommand` and `SafeRunner`, Gitx/Objects for
--     `ObjectReader` (safety.go); Gitx/Status for git's output, Gitx/Actions for the client's steps and
--     Gitx/Checkout for `EnsureCheckout` and `AdvanceCheckout` (checkout.go); Gitx/Update for
--     `ObserveUpdate` (update.go) and Gitx/Checkpoint for `ValidateCommittedPaths` (checkpoint.go).
--   * Platform (internal/platform/cachyos): Platform/Policy for the evidence of a capability and the
--     ownership of assets (policy.go).
-- The files whose names end in Examples apply the theorems to concrete inputs.
--
-- The state of the machine is a type parameter `W`. An observer, a mutator, a runner, a network port,
-- a lock, a store or a process is a function from a state to its answer and the next state; a port
-- that is nil in the source is `none`. The executor calls the observer and the mutator, the mutator
-- calls the network port and the runner, the elevation runner calls its delegate, and `Apply` calls
-- the lock, the executor and the store, in the order of the source. `Resolve` merges and checks the
-- documents of a host, and the host policy asks the risk policy that it returns. A method of the git
-- client is a sequence of steps (Gitx/Actions), each of which goes on or leaves the method with the
-- result so far; what is known where it goes on and where it leaves is Gitx/Actions/Ensures.
--
-- Parameters for code outside the repository: the JSON decoder and `reflect.DeepEqual`
-- (Executor/Types.JsonLibrary), the Unicode tables of `strings.ToLower` beyond ASCII (`fold`), the
-- redaction by regular expressions (`redact`) and the operating system's processes (`process`).
-- The catalog's checks take `%q` (`quote`) and the lookup of an asset, and the git client takes git
-- itself, `os.Lstat` and `CanonicalRemote` (`canonical`), which rests on net/url. What git promises is
-- stated by the records Gitx/Checkout/Reads.GitLaws, Gitx/Update/Observed.UpdateLaws and
-- Gitx/Checkpoint/Committed.CheckpointLaws.
-- Planner/Digest.Libraries holds the JSON encoder and decoder and SHA-256 that `Digest` uses;
-- Planner/Digest/Splits.JsonLaws states that the encodings say where they end.
-- `Apply` also takes the receipt's canonical JSON and the plan's digest as ports.
--
-- Loops over slices are structural recursion. Two loops run on fuel: the ready loop of the planner on
-- as many rounds as the graph has nodes, and the closure of `selectModules` on one round more than
-- there are modules; both are shown to be enough. A closure that its fuel cut short would be the error
-- `unfinished`, which the source does not have. `%d` reads a number's digits off on as many rounds as
-- its value, each of which drops a digit. A Go map is an association list: where the source
-- iterates over a map in no particular order, it sorts the result, or the result is a set. Texts are
-- compared by code points, which for UTF-8 is the order of their bytes. Nil and empty slices are only
-- told apart where the source does (Catalog/Values.ListPatch, and the payloads that Planner/Digest
-- writes: a step's empty payload is nil, as `cloneJSONValue` leaves it). Contexts and copies of
-- values are not modelled, and error values keep the data that callers read.
--
-- Not modelled: decoding, schemas, pin validators and digest of a catalog, the file system (locks,
-- receipts, safe reads), git worktrees and tags, the deep copies of a catalog (a value of the model is
-- never changed), the observation of a running CachyOS system and the factories of its modules, the
-- command line and the shell scripts.
pub mod Prelude
pub mod Planner
pub mod Runner
pub mod Executor
pub mod Catalog
pub mod App
pub mod Gitx
pub mod Platform
