-- ===== src/Archive/Transaction.antt =====
-- archive/transaction.rs: the operation that copies one reviewed source into the vault.
pub mod Keeping
use aiknowledge_sort_mit.Prelude.{
  ℕ, ◌==◌, Bool, true, false, not, ◌||◌, Option, none, some, List, [], ◌∷◌, ◌++◌, Text, codes,
  Result, ok, err, fail_if, ok_or, map_err, text_eq, if◌then◌else◌,
}
use aiknowledge_sort_mit.Prelude.Paths.{parent}
use aiknowledge_sort_mit.Prelude.Execs.{
  Exec, pure, lift, gets, modify, catch, continue, ◌>>=◌, ◌>>◌,
}
use aiknowledge_sort_mit.Identity.{ContentIdentity, identity_eq, from_reader}
use aiknowledge_sort_mit.Discovery.Roots.{
  FilePath, CapabilityRoot, directory_root, file_root, diagnostic_root,
}
use aiknowledge_sort_mit.Discovery.Opening.{FileSystem, open_trusted_drop_root}
use aiknowledge_sort_mit.Vault.Records.{
  Platform, FileKind, IoError, not_found, io_failed, RecordError, is_regular, io_text, Io,
  validate_relative_path, write_new_json, read_json,
}
use aiknowledge_sort_mit.Archive.Operations.{
  OperationState, OperationRecord, OperationAuditAnchor, ArchiveError, Formats, is_terminal,
  operation_record_path, audit_anchor_path, predecessor_missing, source_not_regular, source_size,
  source_changed, file_not_regular, parent_not_directory, destination_missing_parent, archive_io,
  vault_record, anchor_not_regular, anchor_mismatched, owned_not_regular,
}
use aiknowledge_sort_mit.Archive.Operations.Equality.{anchor_eq}
use aiknowledge_sort_mit.Archive.Operations.Advancing.{
  moved, sealed, operation_record_digest, verify_record_digest, terminal_anchor,
}
use aiknowledge_sort_mit.Archive.Steps.{
  Run, Step, on_disk, on_records, call_disk, look, clock, regular_or_missing,
  remove_file_if_present, ignore, require_absent, ensure_destination_parent,
}

-- How the source is read: the file system that the walk to it goes over, and the handle it ends with.
pub record SourceAccess (p : Platform) : Type 0 where
  pub file_system : p.State → FileSystem
  pub path_of : Text → FilePath
  pub len : ℕ → p.State → Result Text ℕ
  pub reads : ℕ → p.State → List (Result Text (List ℕ))
  pub rewind : ℕ → p.State → Result Text (Unit {0})
  pub copy_to : ℕ → Text → p.State → Result Text (Unit {0}) × p.State

module _ (p : Platform) (f : Formats) where
  unfoldable pub persist_operation : Step p (Unit {0})
  persist_operation = do
    r ← gets (λ (s : Run p). s.operation)
    lift (verify_record_digest f r)
    on_records p (write_new_json p f.operation_json (operation_record_path r) r)

  abbrev pub check_anchor :
      OperationAuditAnchor → OperationAuditAnchor → Result ArchiveError (Unit {0})
  check_anchor existing expected = fail_if (not (anchor_eq existing expected)) anchor_mismatched

  abbrev pub compare_anchor : OperationRecord → OperationAuditAnchor → Step p (Unit {0})
  compare_anchor r expected = do
    existing ← on_records p (read_json p f.anchor_json (audit_anchor_path r.operation_id))
    lift (check_anchor existing expected)

  abbrev pub write_anchor : OperationRecord → OperationAuditAnchor → Step p (Unit {0})
  write_anchor r expected =
      on_records p (write_new_json p f.anchor_json (audit_anchor_path r.operation_id) expected)

  -- `persist_terminal_anchor` of the record given.
  unfoldable pub persist_terminal_anchor : OperationRecord → Step p (Unit {0})
  persist_terminal_anchor r = do
    expected ← lift (terminal_anchor r)
    present ← look p (λ s.
        regular_or_missing anchor_not_regular
          (p.symlink_metadata (audit_anchor_path r.operation_id) s))
    if present then compare_anchor r expected else write_anchor r expected

  abbrev pub set_operation : OperationRecord → Run p → Run p
  set_operation r s = record s { operation = r }

  -- The end of `transition_required`, from the digest of the new record on.
  unfoldable pub persist_sealed : OperationState → OperationRecord → Step p (Unit {0})
  persist_sealed state r = do
    persist_operation
    if is_terminal state then persist_terminal_anchor r else pure tt

  abbrev pub set_sealed : OperationState → OperationRecord → Text → Step p (Unit {0})
  set_sealed state next digest = do
    modify (set_operation (sealed digest next))
    persist_sealed state (sealed digest next)

  unfoldable pub seal_and_persist : OperationState → OperationRecord → Step p (Unit {0})
  seal_and_persist state next = do
    modify (set_operation next)
    digest ← lift (operation_record_digest f next)
    set_sealed state next digest

  -- `transition_required` on the record that the operation has.
  unfoldable pub transition_from :
      OperationState → Text → Text → Option Text → OperationRecord → Step p (Unit {0})
  transition_from state invariant_result outcome failure_reason r = do
    previous ← lift (ok_or r.record_sha256 predecessor_missing)
    now ← clock p
    seal_and_persist state (moved now state invariant_result outcome failure_reason previous r)

  unfoldable pub transition_required :
      OperationState → Text → Text → Option Text → Step p (Unit {0})
  unfolding transition_from
  transition_required state invariant_result outcome failure_reason s =
      transition_from state invariant_result outcome failure_reason s.operation s

  -- `hash_vault_file`.
  unfoldable pub hash_vault_file : Text → Step p ContentIdentity
  hash_vault_file relative = do
    lift (map_err vault_record (validate_relative_path relative))
    kind ← look p (λ s. map_err (λ e. archive_io (io_text e)) (p.symlink_metadata relative s))
    lift (fail_if (not (is_regular kind)) file_not_regular)
    bytes ← look p (λ s. map_err archive_io (p.read_file relative s))
    lift (map_err archive_io (from_reader f.sha256 (ok bytes ∷ ok [] ∷ [])))

  abbrev pub opened_file : CapabilityRoot → Result ArchiveError ℕ
  opened_file (file_root _ file) = ok file
  opened_file (directory_root _ _) = err source_not_regular
  opened_file (diagnostic_root _ _ message) = err (archive_io message)

  module _ (a : SourceAccess p) where
    -- `open_verified_source`: the handle, after its size and its hash were compared.
    unfoldable pub open_verified_source : OperationRecord → Step p ℕ
    open_verified_source r = do
      file ←
          look p
            (λ s. opened_file (open_trusted_drop_root (a.file_system s) (a.path_of r.source_path)))
      size ← look p (λ s. map_err archive_io (a.len file s))
      lift (fail_if (not (size == r.byte_size)) source_size)
      identity ← look p (λ s. map_err archive_io (from_reader f.sha256 (a.reads file s)))
      lift (fail_if (not (identity_eq identity r.identity)) source_changed)
      look p (λ s. map_err archive_io (a.rewind file s))
      pure file
