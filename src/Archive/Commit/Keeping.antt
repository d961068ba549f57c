-- ===== src/Archive/Commit/Keeping.antt =====
-- archive/transaction.rs: the parts of an operation keep what holds of its record.
use aiknowledge_sort_mit.Prelude.{ℕ, Bool, true, false, none, some, Text, codes, Result}
use aiknowledge_sort_mit.Prelude.Execs.{
  Exec, Keeps, Keeps->>=, Keeps-if, Keeps-catch, lift, modify, catch,
}
use aiknowledge_sort_mit.Vault.Records.{Platform}
use aiknowledge_sort_mit.Archive.Operations.{
  op_committed, op_copying, op_verified, op_failed, OperationRecord, ArchiveError, Formats,
  staging_path_of, pending_registration_path_of, registration_path_of,
}
use aiknowledge_sort_mit.Archive.Operations.Validation.{validate_reviewed}
use aiknowledge_sort_mit.Archive.Steps.{
  Run, Step, call_disk, ignore, remove_file_if_present, ensure_destination_parent,
}
use aiknowledge_sort_mit.Archive.Transaction.{
  SourceAccess, transition_required, hash_vault_file, open_verified_source,
}
use aiknowledge_sort_mit.Archive.Transaction.Keeping.{
  Holds, Stable, on_disk-Keeps, remove_file-Keeps, parent-Keeps, transition-Keeps, hash-Keeps,
  source-Keeps,
}
use aiknowledge_sort_mit.Archive.Commit.{
  TransactionFaults, TransactionFailure, rejected, promote_registration, required, when, fault,
  corrupt, stage, disturb, check_staged, copy_verified, link_target, set_exposed, finish, expose,
  execute_operation, cleanup_rejected_operation, reject_operation,
}

module _ (p : Platform) (f : Formats) (a : SourceAccess p) (J : OperationRecord → Type 0) where
  abbrev I : Run p → Type 0
  I = Holds p J

  call-Keeps : (m : p.State → Result Text (Unit {0}) × p.State) → Keeps I (call_disk p m)
  call-Keeps m = on_disk-Keeps p J (catch ArchiveError.archive_io m)

  ignore-Keeps : (m : Step p (Unit {0})) → Keeps I m → Keeps I (ignore p m)
  ignore-Keeps m h s i = h s i

  pub promote-Keeps : (id : Text) → Keeps I (promote_registration p f a id)
  unfolding promote_registration
  promote-Keeps id = Keeps->>= I _ _ (λ s h. h) (λ _. call-Keeps _)

  pub stage-Keeps : (source : ℕ) (staging : Text) → Keeps I (stage p f a source staging)
  unfolding stage
  stage-Keeps source staging = Keeps->>= I (call_disk p (p.open_new staging)) _ (call-Keeps _) (λ _.
      Keeps->>= I (call_disk p (a.copy_to source staging)) _ (call-Keeps _)
        (λ _. Keeps->>= I (call_disk p (p.flush staging)) _ (call-Keeps _) (λ _. call-Keeps _)))

  when-Keeps :
      (test : Bool) (m : Exec (Run p) TransactionFailure (Unit {0}))
      → Keeps I m
      → Keeps I (when p f a test m)
  when-Keeps true m h = h
  when-Keeps false m h = λ s i. i

  corrupt-Keeps : (staging : Text) → Keeps I (corrupt p f a staging)
  corrupt-Keeps staging =
      Keeps->>= I (required p f a (call_disk p (p.overwrite_start staging (codes "!"))))
        (λ _. required p f a (call_disk p (p.sync_all staging)))
        (Keeps-catch I rejected (call_disk p (p.overwrite_start staging (codes "!")))
          (call-Keeps (p.overwrite_start staging (codes "!"))))
        (λ _.
          Keeps-catch I rejected (call_disk p (p.sync_all staging))
            (call-Keeps (p.sync_all staging)))

  pub disturb-Keeps :
      (faults : TransactionFaults) (staging : Text) → Keeps I (disturb p f a faults staging)
  unfolding disturb
  disturb-Keeps faults staging =
      Keeps->>= I
        (fault p f a faults.stop_after_copy (codes "Simulated interruption after archive copy")) _
        (λ s h. h)
        (λ _.
          Keeps->>= I (when p f a faults.corrupt_staging (corrupt p f a staging)) _
            (when-Keeps faults.corrupt_staging (corrupt p f a staging) (corrupt-Keeps staging))
            (λ _ s h. h))

  pub staged-Keeps : (r : OperationRecord) → Keeps I (check_staged p f a r)
  unfolding check_staged
  staged-Keeps r =
      Keeps->>= I (hash_vault_file p f (staging_path_of r.operation_id)) _
        (hash-Keeps p J f (staging_path_of r.operation_id)) (λ _ s h. h)

  pub link-Keeps : (r : OperationRecord) → Keeps I (link_target p f a r)
  unfolding link_target
  link-Keeps r = Keeps->>= I _ _ (on_disk-Keeps p J _) (λ _.
      Keeps->>= I (ensure_destination_parent p r.destination_path) _
        (parent-Keeps p J r.destination_path) (λ _. Keeps->>= I _ _ (λ s h. h) (λ _. call-Keeps _)))

  pub removed-Keeps : (path : Text) → Keeps I (ignore p (remove_file_if_present p path))
  removed-Keeps path = ignore-Keeps (remove_file_if_present p path) (remove_file-Keeps p J path)

  module _ (stable : Stable p J f) where
    copying : Step p (Unit {0})
    copying = transition_required p f op_copying (codes "pending") (codes "copying") none

    verified : Step p (Unit {0})
    verified = transition_required p f op_verified (codes "sha256-match") (codes "verified") none

    required-Keeps : {A : Type 0} (m : Step p A) → Keeps I m → Keeps I (required p f a m)
    required-Keeps m h = Keeps-catch I rejected m h

    copy-Keeps :
        (faults : TransactionFaults) (r : OperationRecord) → Keeps I (copy_verified p f a faults r)
    unfolding copy_verified copying verified
    copy-Keeps faults r =
        Keeps->>= I (required p f a (lift (validate_reviewed r))) _
          (required-Keeps (lift (validate_reviewed r)) (λ s h. h))
          (λ _.
            Keeps->>= I (required p f a (open_verified_source p f a r)) _
              (required-Keeps (open_verified_source p f a r) (source-Keeps p J f a r))
              (λ source.
                Keeps->>= I (required p f a copying) _
                  (required-Keeps copying (transition-Keeps p J f stable _ _ _ _))
                  (λ _.
                    Keeps->>= I
                      (required p f a (stage p f a source (staging_path_of r.operation_id))) _
                      (required-Keeps (stage p f a source (staging_path_of r.operation_id))
                        (stage-Keeps source (staging_path_of r.operation_id)))
                      (λ _.
                        Keeps->>= I (disturb p f a faults (staging_path_of r.operation_id)) _
                          (disturb-Keeps faults (staging_path_of r.operation_id))
                          (λ _.
                            Keeps->>= I (required p f a (check_staged p f a r)) _
                              (required-Keeps (check_staged p f a r) (staged-Keeps r))
                              (λ _.
                                Keeps->>= I (required p f a (open_verified_source p f a r)) _
                                  (required-Keeps (open_verified_source p f a r)
                                    (source-Keeps p J f a r))
                                  (λ _.
                                    required-Keeps verified
                                      (transition-Keeps p J f stable _ _ _ _))))))))

    finish-Keeps : (id : Text) → Keeps I (finish p f a id)
    unfolding finish
    finish-Keeps id = Keeps->>= I (promote_registration p f a id) _ (promote-Keeps id) (λ _.
        Keeps->>= I
          (transition_required p f op_committed (codes "registered-original-preserved")
            (codes "committed") none)
          _ (transition-Keeps p J f stable _ _ _ _)
          (λ _.
            ignore-Keeps (remove_file_if_present p (staging_path_of id))
              (remove_file-Keeps p J (staging_path_of id))))

    expose-Keeps :
        (faults : TransactionFaults) (r : OperationRecord) → Keeps I (expose p f a faults r)
    unfolding expose
    expose-Keeps faults r =
        Keeps->>= I _ _ (λ s h. h)
          (λ _.
            Keeps->>= I (required p f a (link_target p f a r)) _
              (required-Keeps (link_target p f a r) (link-Keeps r))
              (λ _.
                Keeps->>= I (modify (set_exposed p f a)) _ (λ s h. h)
                  (λ _.
                    Keeps->>= I _ _ (λ s h. h)
                      (λ _.
                        required-Keeps (finish p f a r.operation_id)
                          (finish-Keeps r.operation_id)))))

    pub execute-Keeps : (faults : TransactionFaults) → Keeps I (execute_operation p f a faults)
    unfolding execute_operation
    execute-Keeps faults =
        Keeps->>= I _ _ (λ s h. h)
          (λ reviewed.
            Keeps->>= I (copy_verified p f a faults reviewed) _ (copy-Keeps faults reviewed)
              (λ _. Keeps->>= I _ _ (λ s h. h) (λ r. expose-Keeps faults r)))

    cleanup-Keeps : Keeps I (cleanup_rejected_operation p f a)
    unfolding cleanup_rejected_operation
    cleanup-Keeps =
        Keeps->>= I _ _ (λ s h. h)
          (λ r.
            Keeps->>= I _ _ (λ s h. h)
              (λ exposed. Keeps->>= I _ _ (removed-Keeps (staging_path_of r.operation_id)) (λ _.
                Keeps->>= I _ _ (removed-Keeps (pending_registration_path_of r.operation_id)) (λ _.
                  Keeps->>= I _ _ (removed-Keeps (registration_path_of r.operation_id))
                    (λ _. Keeps-if I exposed _ _ (removed-Keeps r.destination_path) (λ s h. h))))))

    pub reject-Keeps : (e : ArchiveError) → Keeps I (reject_operation p f a e)
    unfolding reject_operation
    reject-Keeps e = Keeps->>= I (cleanup_rejected_operation p f a) _ cleanup-Keeps (λ _.
        ignore-Keeps
          (transition_required p f op_failed (codes "rejected") (codes "not-committed")
            (some (f.error_text e)))
          (transition-Keeps p J f stable _ _ _ _))
