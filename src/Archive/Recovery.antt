-- ===== src/Archive/Recovery.antt =====
-- archive/transaction.rs: what is done at the start for the operations that the journal has. The check
-- of undone operations, which is code of the undo's recovery, is an argument.
pub mod Settling
pub mod Listing
pub mod Keeping
pub mod Reading
pub mod Sound
use aiknowledge_sort_mit.Prelude.{
  ℕ, suc, ◌+◌, ◌==◌, Bool, true, false, not, ◌||◌, Option, none, some, List, [], ◌∷◌, ◌++◌, map,
  Text, codes, leb, any, sort_by, Result, ok, err, fail_if, ok_or, map_err, text_eq, if◌then◌else◌,
}
use aiknowledge_sort_mit.Prelude.Maps.{Map, get, insert}
use aiknowledge_sort_mit.Prelude.Paths.{extension, join}
use aiknowledge_sort_mit.Prelude.Execs.{
  Exec, pure, lift, gets, modify, catch, continue, ◌>>=◌, ◌>>◌,
}
use aiknowledge_sort_mit.Identity.{identity_eq, validate_identity}
use aiknowledge_sort_mit.Vault.Records.{
  Platform, IoError, not_found, io_failed, FileKind, read_json, write_new_json,
}
use aiknowledge_sort_mit.Archive.Operations.{
  OperationState, op_proposed, op_copying, op_verified, op_committed, op_failed, op_abandoned,
  OperationRecord, OperationAuditAnchor, ArchiveError, Formats, is_terminal, max_operation_records,
  staging_path_of, pending_registration_path_of, registration_path_of, audit_anchor_path,
  journal_too_large, journal_link, schema_unsupported, stream_empty, anchor_changed,
  anchor_not_regular, registration_mismatched, target_mismatched, archive_io, record_identity,
}
use aiknowledge_sort_mit.Archive.Operations.Equality.{anchor_eq, registration_eq}
use aiknowledge_sort_mit.Archive.Operations.Advancing.{
  is_audited_schema, terminal_anchor, registration_from_record,
}
use aiknowledge_sort_mit.Archive.Operations.Validation.{validate_reviewed, validate_operation_id}
use aiknowledge_sort_mit.Archive.Operations.Audit.{Entry, check_records}
use aiknowledge_sort_mit.Archive.Steps.{
  Run, Step, on_disk, on_records, call_disk, look, regular_or_missing, remove_file_if_present,
  require_absent,
}
use aiknowledge_sort_mit.Archive.Transaction.{
  SourceAccess, transition_required, persist_terminal_anchor, hash_vault_file,
}
use aiknowledge_sort_mit.Archive.Commit.{promote_registration}

-- Whether a path is there; a missing file is told apart from a call that failed.
abbrev pub present_or_missing : Result IoError FileKind → Result ArchiveError Bool
present_or_missing (ok kind) = ok true
present_or_missing (err not_found) = ok false
present_or_missing (err (io_failed t)) = err (archive_io t)

-- `symlink_metadata(..).is_ok()`.
abbrev pub looks_present : Result IoError FileKind → Bool
looks_present (ok kind) = true
looks_present (err e) = false

abbrev pub last_entry : List Entry → Option OperationRecord
last_entry [] = none
last_entry (e ∷ []) = some e.1
last_entry (_ ∷ e ∷ es) = last_entry (e ∷ es)

abbrev pub first_schema : List Entry → Option ℕ
first_schema [] = none
first_schema (e ∷ _) = some e.1.schema_version

-- What the recovery has done: `ReconciliationReport`.
pub record ReconciliationReport : Type 0 where
  pub recovered : ℕ
  pub abandoned : ℕ

module _ (p : Platform) (f : Formats) where
  abbrev pub compare_terminal :
      OperationAuditAnchor → OperationAuditAnchor → Result ArchiveError (Unit {0})
  compare_terminal anchor expected = fail_if (not (anchor_eq anchor expected)) anchor_changed

  abbrev pub read_anchor : Text → OperationRecord → Step p (Unit {0})
  read_anchor operation_id latest = do
    anchor ← on_records p (read_json p f.anchor_json (audit_anchor_path operation_id))
    expected ← lift (terminal_anchor latest)
    lift (compare_terminal anchor expected)

  -- Without an anchor, a terminal record gets one.
  abbrev pub write_missing : OperationRecord → Step p (Unit {0})
  write_missing latest =
      if is_terminal latest.state then persist_terminal_anchor p f latest else pure tt

  -- The anchor's part of `verify_operation_audit_stream`.
  unfoldable pub verify_anchor : Text → OperationRecord → Step p (Unit {0})
  verify_anchor operation_id latest = do
    present ← look p (λ s.
        regular_or_missing anchor_not_regular
          (p.symlink_metadata (audit_anchor_path operation_id) s))
    if present then read_anchor operation_id latest else write_missing latest

  -- `verify_operation_audit_stream`.
  unfoldable pub verify_stream : Text → List Entry → Step p (Unit {0})
  verify_stream operation_id entries = do
    lift (validate_operation_id operation_id)
    schema ← lift (ok_or (first_schema entries) stream_empty)
    lift (check_records f operation_id schema 0 none entries)
    latest ← lift (ok_or (last_entry entries) stream_empty)
    verify_anchor operation_id latest

  module _ (a : SourceAccess p) where
    abbrev pub remove_staging : Text → Step p (Unit {0})
    remove_staging id = remove_file_if_present p (staging_path_of id)

    abbrev pub remove_pending : Text → Step p (Unit {0})
    remove_pending id = remove_file_if_present p (pending_registration_path_of id)

    abbrev pub remove_registration : Text → Step p (Unit {0})
    remove_registration id = remove_file_if_present p (registration_path_of id)

    abbrev pub check_registration : OperationRecord → Step p (Unit {0})
    check_registration r = do
      registration ←
          on_records p (read_json p f.registration_json (registration_path_of r.operation_id))
      lift (
          fail_if (not (registration_eq registration (registration_from_record r)))
            registration_mismatched)

    abbrev pub write_registration : OperationRecord → Step p (Unit {0})
    write_registration r = on_records p (
        write_new_json p f.registration_json (registration_path_of r.operation_id)
          (registration_from_record r))

    abbrev pub complete_registration : OperationRecord → Step p (Unit {0})
    complete_registration r = do
      pending ← look p (λ s.
          present_or_missing (p.symlink_metadata (pending_registration_path_of r.operation_id) s))
      if pending then promote_registration p f a r.operation_id else write_registration r

    unfoldable pub recover_registration : OperationRecord → Step p (Unit {0})
    recover_registration r = do
      present ←
          look p
            (λ s. present_or_missing (p.symlink_metadata (registration_path_of r.operation_id) s))
      if present then check_registration r else complete_registration r

    unfoldable pub verify_committed : OperationRecord → Step p (Unit {0})
    verify_committed r = do
      target_identity ← hash_vault_file p f r.destination_path
      lift (fail_if (not (identity_eq target_identity r.identity)) target_mismatched)
      check_registration r

    abbrev pub abandon : Text → Step p (Unit {0})
    abandon reason =
        transition_required p f op_abandoned (codes "source-preserved") (codes "abandoned")
          (some reason)

    unfoldable pub abandon_operation : Text → OperationRecord → Step p (Unit {0})
    abandon_operation reason r = do
      remove_staging r.operation_id
      remove_pending r.operation_id
      remove_registration r.operation_id
      abandon reason

    unfoldable pub check_target : OperationRecord → Step p (Unit {0})
    check_target r = do
      identity ← hash_vault_file p f r.destination_path
      lift (fail_if (not (identity_eq identity r.identity)) target_mismatched)

    unfoldable pub recover_operation : OperationRecord → Step p (Unit {0})
    recover_operation r = do
      check_target r
      recover_registration r
      transition_required p f op_committed (codes "registered-original-preserved")
          (codes "committed") none
      remove_staging r.operation_id

    unfoldable pub remove_leftovers : Text → Step p (Unit {0})
    remove_leftovers id = do remove_staging id; remove_pending id

    abbrev pub one_recovered : ReconciliationReport → ReconciliationReport
    one_recovered report = record report { recovered = report.recovered + 1 }

    abbrev pub one_abandoned : ReconciliationReport → ReconciliationReport
    one_abandoned report = record report { abandoned = report.abandoned + 1 }

    abbrev pub keep_ended : OperationRecord → ReconciliationReport → Step p ReconciliationReport
    keep_ended r report = do remove_leftovers r.operation_id; pure report

    abbrev pub end_early :
        Text → OperationRecord → ReconciliationReport → Step p ReconciliationReport
    end_early reason r report = do abandon_operation reason r; pure (one_abandoned report)

    abbrev pub end_verified : OperationRecord → ReconciliationReport → Step p ReconciliationReport
    end_verified r report = do recover_operation r; pure (one_recovered report)

    abbrev pub end_unexposed : OperationRecord → ReconciliationReport → Step p ReconciliationReport
    end_unexposed r report =
        end_early (codes "Verified archive was not exposed and was safely abandoned") r report

    module _ (operation_is_undone : Text → p.State → Result ArchiveError Bool × p.State) where
      abbrev pub keep_committed :
          OperationRecord → ReconciliationReport → Step p ReconciliationReport
      keep_committed r report = do
        undone ← on_disk p (operation_is_undone r.operation_id)
        if undone then pure tt else verify_committed r
        remove_leftovers r.operation_id
        pure report

      -- The match on the state of the latest record.
      unfoldable pub settle_record :
          OperationState → OperationRecord → ReconciliationReport → Step p ReconciliationReport
      settle_record op_committed r report = keep_committed r report
      settle_record op_failed r report = keep_ended r report
      settle_record op_abandoned r report = keep_ended r report
      settle_record op_proposed r report =
          end_early (codes "Interrupted archive operation was safely abandoned") r report
      settle_record op_copying r report =
          end_early (codes "Interrupted archive operation was safely abandoned") r report
      settle_record op_verified r report = do
        exposed ← gets (λ (s : Run p). looks_present (p.symlink_metadata r.destination_path s.disk))
        if exposed then end_verified r report else end_unexposed r report

      -- The body of the loop of `reconcile_vault`, on the record of the run.
      unfoldable pub reconcile_record : ReconciliationReport → Step p ReconciliationReport
      reconcile_record report = do
        r ← gets (λ (s : Run p). s.operation)
        lift (map_err record_identity (validate_identity r.identity))
        lift (validate_reviewed r)
        settle_record r.state r report

      -- The loop over the latest records. The list of the records that they end with stands beside the
      -- report for the statements about it; the code returns the report alone.
      unfoldable pub reconcile_all :
          ReconciliationReport
          → List OperationRecord
          → p.State
          → Result ArchiveError (ReconciliationReport × List OperationRecord) × p.State
      reconcile_all report [] d = (ok (report, []), d)
      reconcile_all report (r ∷ rs) d =
          let one = reconcile_record report (record { disk = d; operation = r; exposed = false }) in
          elim one.0 [
            | err e ↦ (err e, one.1.disk)
            | ok next ↦
                let rest = reconcile_all next rs one.1.disk in
                elim rest.0 [
                  | err e ↦ (err e, rest.1)
                  | ok done ↦ (ok (done.0, one.1.operation ∷ done.1), rest.1)
                ]
          ]
