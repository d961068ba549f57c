-- ===== src/Archive/Recovery/Keeping.antt =====
-- archive/transaction.rs: the recovery of an operation changes only what a transition writes.
use aiknowledge_sort_mit.Prelude.{Bool, Text, Result, codes, none, some}
use aiknowledge_sort_mit.Prelude.Execs.{Keeps, Keeps->>=, Keeps-if}
use aiknowledge_sort_mit.Vault.Records.{Platform}
use aiknowledge_sort_mit.Archive.Operations.{
  OperationState, op_proposed, op_copying, op_verified, op_committed, op_failed, op_abandoned,
  OperationRecord, ArchiveError, Formats, staging_path_of,
}
use aiknowledge_sort_mit.Archive.Steps.{Run}
use aiknowledge_sort_mit.Archive.Transaction.{SourceAccess}
use aiknowledge_sort_mit.Archive.Transaction.Keeping.{
  Stable, on_disk-Keeps, remove_file-Keeps, hash-Keeps, transition-Keeps,
}
use aiknowledge_sort_mit.Archive.Commit.Keeping.{promote-Keeps}
use aiknowledge_sort_mit.Archive.Recovery.{
  ReconciliationReport, abandon_operation, check_registration, complete_registration, check_target,
  recover_registration, recover_operation, keep_committed, keep_ended, end_early, end_verified,
  settle_record, reconcile_record,
}
use aiknowledge_sort_mit.Archive.Recovery.Settling.{leftovers-Keeps, verify-Keeps}

module _ (p : Platform) (f : Formats) (a : SourceAccess p) (J : OperationRecord → Type 0)
    (stable : Stable p J f) where
  abbrev I : Run p → Type 0
  I s = J s.operation

  abandon-Keeps : (reason : Text) (r : OperationRecord) → Keeps I (abandon_operation p f a reason r)
  unfolding abandon_operation
  abandon-Keeps reason r = Keeps->>= I _ _ (remove_file-Keeps p J _) (λ _.
      Keeps->>= I _ _ (remove_file-Keeps p J _) (λ _.
        Keeps->>= I _ _ (remove_file-Keeps p J _) (λ _.
          transition-Keeps p J f stable op_abandoned (codes "source-preserved") (codes "abandoned")
            (some reason))))

  registration-Keeps : (r : OperationRecord) → Keeps I (check_registration p f a r)
  registration-Keeps r = Keeps->>= I _ _ (on_disk-Keeps p J _) (λ registration s h. h)

  complete-Keeps : (r : OperationRecord) → Keeps I (complete_registration p f a r)
  complete-Keeps r =
      Keeps->>= I _ _ (λ s h. h)
        (λ pending.
          Keeps-if I pending _ _ (promote-Keeps p f a J r.operation_id) (on_disk-Keeps p J _))

  recover_registration-Keeps : (r : OperationRecord) → Keeps I (recover_registration p f a r)
  unfolding recover_registration
  recover_registration-Keeps r =
      Keeps->>= I _ _ (λ s h. h)
        (λ present. Keeps-if I present _ _ (registration-Keeps r) (complete-Keeps r))

  check_target-Keeps : (r : OperationRecord) → Keeps I (check_target p f a r)
  unfolding check_target
  check_target-Keeps r = Keeps->>= I _ _ (hash-Keeps p J f r.destination_path) (λ identity s h. h)

  recover_operation-Keeps : (r : OperationRecord) → Keeps I (recover_operation p f a r)
  unfolding recover_operation
  recover_operation-Keeps r = Keeps->>= I _ _ (check_target-Keeps r) (λ _.
      Keeps->>= I _ _ (recover_registration-Keeps r) (λ _.
        Keeps->>= I _ _
          (transition-Keeps p J f stable op_committed (codes "registered-original-preserved")
            (codes "committed") none)
          (λ _. remove_file-Keeps p J (staging_path_of r.operation_id))))

  ended-Keeps :
      (r : OperationRecord) (report : ReconciliationReport) → Keeps I (keep_ended p f a r report)
  ended-Keeps r report = Keeps->>= I _ _ (leftovers-Keeps p f a J r.operation_id) (λ _ s h. h)

  early-Keeps :
      (reason : Text) (r : OperationRecord) (report : ReconciliationReport)
      → Keeps I (end_early p f a reason r report)
  early-Keeps reason r report = Keeps->>= I _ _ (abandon-Keeps reason r) (λ _ s h. h)

  verified-Keeps :
      (r : OperationRecord) (report : ReconciliationReport) → Keeps I (end_verified p f a r report)
  verified-Keeps r report = Keeps->>= I _ _ (recover_operation-Keeps r) (λ _ s h. h)

  module _ (operation_is_undone : Text → p.State → Result ArchiveError Bool × p.State) where
    committed-Keeps :
        (r : OperationRecord) (report : ReconciliationReport)
        → Keeps I (keep_committed p f a operation_is_undone r report)
    committed-Keeps r report = Keeps->>= I _ _ (on_disk-Keeps p J _) (λ undone.
        Keeps->>= I _ _ (verify-Keeps p f a operation_is_undone J r undone)
          (λ _. Keeps->>= I _ _ (leftovers-Keeps p f a J r.operation_id) (λ _ s h. h)))

    settle-Keeps :
        (state : OperationState) (r : OperationRecord) (report : ReconciliationReport)
        → Keeps I (settle_record p f a operation_is_undone state r report)
    unfolding settle_record
    settle-Keeps op_committed r report = committed-Keeps r report
    settle-Keeps op_failed r report = ended-Keeps r report
    settle-Keeps op_abandoned r report = ended-Keeps r report
    settle-Keeps op_proposed r report = early-Keeps _ r report
    settle-Keeps op_copying r report = early-Keeps _ r report
    settle-Keeps op_verified r report =
        Keeps->>= I _ _ (λ s h. h)
          (λ exposed. Keeps-if I exposed _ _ (verified-Keeps r report) (early-Keeps _ r report))

    pub reconcile_record-Keeps :
        (report : ReconciliationReport)
        → Keeps I (reconcile_record p f a operation_is_undone report)
    unfolding reconcile_record
    reconcile_record-Keeps report =
        Keeps->>= I _ _ (λ s h. h)
          (λ r.
            Keeps->>= I _ _ (λ s h. h)
              (λ _. Keeps->>= I _ _ (λ s h. h) (λ _. settle-Keeps r.state r report)))
