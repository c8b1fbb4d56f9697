-- ===== src/App/Rollback.antt =====
-- internal/app/rollback_preconditions.go: what a rollback does to a managed file.
use alex_cachyos.Prelude.{
  ℕ, String, ◌≡◌, refl, Bool, true, false, not, ◌&&◌, ◌||◌, ◌==◌, eq_iff, beq_nat, leb,
  if◌then◌else◌, length, all, codes, is_abs, is_empty, arith,
}

-- `ManagedClass` is a text in the source; `other` holds each that is none of the three constants.
pub data ManagedClass : Type 0 where
  created adopted package_owned : ManagedClass
  other : String → ManagedClass

pub record LiveFile : Type 0 where
  pub exists : Bool
  pub hash : String

pub record ManagedFileRollback : Type 0 where
  pub class : ManagedClass
  pub target : String
  pub after_hash : String
  pub backup_path : String
  pub backup_hash : String
  pub live : LiveFile

-- `RollbackInverse`: the action with the fields it sets.
pub data RollbackInverse : Type 0 where
  no_op remove_file : (target : String) → RollbackInverse
  restore_backup : (target backup : String) → RollbackInverse
  package_restore : (target restored : String) → RollbackInverse

pub data ConflictKind : Type 0 where
  live_mismatch live_missing backup_missing invalid_backup backup_not_allowed : ConflictKind
  invalid_class invalid_path invalid_hash : ConflictKind

pub data Decision : Type 0 where
  inverse : RollbackInverse → Decision
  conflict : ConflictKind → (target : String) → Decision

unfoldable pub valid_path : String → Bool
unfolding is_abs
valid_path path = not (is_empty path) && is_abs (codes path)

-- `(c < '0' || c > '9') && (c < 'a' || c > 'f')` refuses a byte. The bytes of a character beyond
-- ASCII are refused as its code point is.
abbrev pub is_hex : ℕ → Bool
is_hex c = leb b'0' c && leb c b'9' || leb b'a' c && leb c b'f'

unfoldable pub valid_sha256 : String → Bool
valid_sha256 hash = beq_nat (length (codes hash)) 64 && all is_hex (codes hash)

abbrev decide_created : ManagedFileRollback → Decision
decide_created file =
    if not (file.live).exists
    then inverse (no_op file.target)
    else if not (valid_sha256 (file.live).hash)
    then conflict invalid_hash file.target
    else if not ((file.live).hash == file.after_hash)
    then conflict live_mismatch file.target
    else inverse (remove_file file.target)

abbrev decide_adopted : ManagedFileRollback → Decision
decide_adopted file =
    if is_empty file.backup_path || is_empty file.backup_hash
    then conflict backup_missing file.target
    else if not (valid_path file.backup_path) || not (valid_sha256 file.backup_hash)
    then conflict invalid_backup file.target
    else if not (file.live).exists
    then conflict live_missing file.target
    else if not (valid_sha256 (file.live).hash)
    then conflict invalid_hash file.target
    else if not ((file.live).hash == file.after_hash)
    then conflict live_mismatch file.target
    else inverse (restore_backup file.target file.backup_path)

abbrev decide_package_owned : ManagedFileRollback → Decision
decide_package_owned file =
    if not (is_empty file.backup_path) || not (is_empty file.backup_hash)
    then conflict backup_not_allowed file.target
    else if not (file.live).exists
    then conflict live_missing file.target
    else if not (valid_sha256 (file.live).hash)
    then conflict invalid_hash file.target
    else if not ((file.live).hash == file.after_hash)
    then conflict live_mismatch file.target
    else inverse (package_restore file.target file.target)

abbrev decide : ManagedClass → ManagedFileRollback → Decision
decide created file = decide_created file
decide adopted file = decide_adopted file
decide package_owned file = decide_package_owned file
decide (other class) file = conflict invalid_class file.target

unfoldable pub plan_rollback_inverse : ManagedFileRollback → Decision
plan_rollback_inverse file =
    if not (valid_path file.target)
    then conflict invalid_path file.target
    else if not (valid_sha256 file.after_hash)
    then conflict invalid_hash file.target
    else decide file.class file

-- The live file is the one that was recorded.
abbrev pub IsRecorded : ManagedFileRollback → Type 0
IsRecorded file =
    ((file.live).exists ≡ true)
    × ((file.live).hash ≡ file.after_hash)
    × (valid_path file.target ≡ true)
    × (valid_sha256 file.after_hash ≡ true)

-- What an action supposes: none touches a file that is not as recorded.
abbrev pub IsSafe : ManagedFileRollback → Decision → Type 0
IsSafe file (inverse (no_op target)) =
    (target ≡ file.target) × (file.class ≡ created) × ((file.live).exists ≡ false)
IsSafe file (inverse (remove_file target)) =
    (target ≡ file.target) × (file.class ≡ created) × IsRecorded file
IsSafe file (inverse (restore_backup target backup)) =
    (target ≡ file.target)
    × (backup ≡ file.backup_path)
    × (file.class ≡ adopted)
    × IsRecorded file
    × (valid_path backup ≡ true)
    × (valid_sha256 file.backup_hash ≡ true)
IsSafe file (inverse (package_restore target restored)) =
    (target ≡ file.target)
    × (restored ≡ file.target)
    × (file.class ≡ package_owned)
    × IsRecorded file
    × (file.backup_path ≡ "")
    × (file.backup_hash ≡ "")
IsSafe file (conflict kind target) = target ≡ file.target

-- Every action that is planned names the recorded target. A file is only removed or restored if the
-- live content has the recorded hash; removal is for created files, the backup for adopted files
-- with a valid backup, and a package-owned file is restored from its package and has no backup.
-- Nothing is done for a created file that is gone. A conflict names the target.
pub plan_rollback_inverse-IsSafe :
    (file : ManagedFileRollback) → IsSafe file (plan_rollback_inverse file)
unfolding plan_rollback_inverse
plan_rollback_inverse-IsSafe file = ground (
  arith,
  eq_iff (file.live).hash file.after_hash,
  eq_iff file.backup_path "",
  eq_iff file.backup_hash "",
)

-- The conditions under which a rollback goes on.
abbrev pub class_allows : ManagedClass → ManagedFileRollback → Bool
class_allows created file = not (file.live).exists || (file.live).hash == file.after_hash
class_allows adopted file =
    valid_path file.backup_path
    && valid_sha256 file.backup_hash
    && (file.live).exists
    && (file.live).hash == file.after_hash
class_allows package_owned file =
    is_empty file.backup_path
    && is_empty file.backup_hash
    && (file.live).exists
    && (file.live).hash == file.after_hash
class_allows (other class) file = false

abbrev pub is_inverse : Decision → Bool
is_inverse (inverse _) = true
is_inverse (conflict _ _) = false

empty-valid_path : valid_path "" ≡ false
unfolding valid_path
empty-valid_path = refl

empty-valid_sha256 : valid_sha256 "" ≡ false
unfolding valid_sha256
empty-valid_sha256 = refl

-- An action is planned if and only if the target's path and the recorded hash are valid and the
-- class allows it: its file is as recorded, and its backup is valid or, where it may have none,
-- absent.
plan_rollback_inverse-is_inverse :
    (file : ManagedFileRollback)
    → is_inverse (plan_rollback_inverse file)
      ≡ (valid_path file.target && valid_sha256 file.after_hash && class_allows file.class file)
unfolding plan_rollback_inverse
plan_rollback_inverse-is_inverse file = ground (
  arith,
  eq_iff (file.live).hash file.after_hash,
  eq_iff file.backup_path "",
  eq_iff file.backup_hash "",
  empty-valid_path,
  empty-valid_sha256,
)
