-- ===== src/Archive/Steps.antt =====
-- archive/transaction.rs: the steps on the vault's directory that an operation is made of. An action
-- runs on the platform's state, the record that is advanced in place, and whether the target is
-- exposed.
use aiknowledge_sort_mit.Prelude.{ℕ, Bool, true, false, Text, Result, ok, err, ok_or, if◌then◌else◌}
use aiknowledge_sort_mit.Prelude.Paths.{parent}
use aiknowledge_sort_mit.Prelude.Execs.{Exec, pure, lift, catch, ◌>>=◌}
use aiknowledge_sort_mit.Vault.Records.{
  Platform, FileKind, IoError, not_found, io_failed, is_regular, Io,
}
use aiknowledge_sort_mit.Archive.Operations.{
  OperationRecord, ArchiveError, parent_not_directory, destination_missing_parent, archive_io,
  vault_record, owned_not_regular,
}

-- `OperationContext` and the vault; the paths of the context are functions of the operation's id.
pub record Run (p : Platform) : Type 0 where
  pub disk : p.State
  pub operation : OperationRecord
  pub exposed : Bool

-- `symlink_metadata` of a path that should be a regular file or be missing.
abbrev pub regular_or_missing : ArchiveError → Result IoError FileKind → Result ArchiveError Bool
regular_or_missing e (ok kind) = if is_regular kind then ok true else err e
regular_or_missing e (err not_found) = ok false
regular_or_missing e (err (io_failed t)) = err (archive_io t)

abbrev is_directory : FileKind → Bool
is_directory FileKind.directory_entry = true
is_directory _ = false

-- Whether the parent is there.
abbrev directory_present : Result IoError FileKind → Result ArchiveError Bool
directory_present (ok kind) = if is_directory kind then ok true else err parent_not_directory
directory_present (err not_found) = ok false
directory_present (err (io_failed t)) = err (archive_io t)

module _ (p : Platform) where
  abbrev pub Step : Type 0 → Type 0
  Step = Exec (Run p) ArchiveError

  -- An action on the disk alone.
  unfoldable pub on_disk : {A : Type 0} → (p.State → Result ArchiveError A × p.State) → Step A
  on_disk m s = ((m s.disk).0, record s { disk = (m s.disk).1 })

  abbrev pub on_records : {A : Type 0} → Io p A → Step A
  on_records m = on_disk (catch vault_record m)

  abbrev pub call_disk : (p.State → Result Text (Unit {0}) × p.State) → Step (Unit {0})
  call_disk m = on_disk (catch archive_io m)

  abbrev pub look : {A : Type 0} → (p.State → Result ArchiveError A) → Step A
  look m s = (m s.disk, s)

  abbrev pub clock : Step ℕ
  clock = on_disk (λ s. (ok (p.unix_time_ms s).0, (p.unix_time_ms s).1))

  -- `remove_file_if_present`.
  unfoldable pub remove_file_if_present : Text → Step (Unit {0})
  remove_file_if_present path = do
    present ← look (λ s. regular_or_missing owned_not_regular (p.symlink_metadata path s))
    if present then call_disk (p.remove_file path) else pure tt

  -- `let _ =` before an action.
  abbrev pub ignore : {A : Type 0} → Step A → Step (Unit {0})
  ignore m s = (ok tt, (m s).1)

  abbrev pub require_absent : ArchiveError → Text → Step (Unit {0})
  require_absent exists path = look (λ s. elim (p.symlink_metadata path s) [
    | ok kind ↦ err exists
    | err not_found ↦ ok tt
    | err (io_failed t) ↦ err (archive_io t)
  ])

  unfoldable pub ensure_destination_parent : Text → Step (Unit {0})
  ensure_destination_parent destination = do
    directory ← lift (ok_or (parent destination) destination_missing_parent)
    present ← look (λ s. directory_present (p.symlink_metadata directory s))
    if present then pure tt else call_disk (p.create_dir directory)
