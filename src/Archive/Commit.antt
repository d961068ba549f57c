-- ===== src/Archive/Commit.antt =====
-- archive/transaction.rs: the execution of a plan, one operation for each item.
pub mod Keeping
pub mod Binding
pub mod Preserving
pub mod Gaps
pub mod Outcomes
use aiknowledge_sort_mit.Prelude.{
  ℕ, ◌==◌, Bool, true, false, not, Option, none, some, List, [], ◌∷◌, ◌++◌, Text, codes, length,
  count_if, is_some, utf8, Result, ok, err, fail_if, map_err, text_eq, if◌then◌else◌,
}
use aiknowledge_sort_mit.Prelude.Execs.{
  Exec, pure, lift, gets, modify, catch, continue, ◌>>=◌, ◌>>◌,
}
use aiknowledge_sort_mit.AgentAccess.Token.{encode_hex}
use aiknowledge_sort_mit.Identity.{ContentIdentity, identity_eq}
use aiknowledge_sort_mit.Profiles.Evidence.{ClassificationProposal}
use aiknowledge_sort_mit.Vault.Records.{Platform, Io, write_new_json}
use aiknowledge_sort_mit.Archive.Plans.{ArchivePlan, ArchivePlanItem}
use aiknowledge_sort_mit.Archive.Operations.{
  OperationState, op_proposed, op_copying, op_verified, op_committed, op_failed, OperationRecord,
  ArchiveError, Formats, staging_path_of, pending_registration_path_of, registration_path_of,
  staging_mismatch, destination_exists, registration_exists, simulated_fault,
  audited_operation_schema_version, classified_operation_schema_version,
}
use aiknowledge_sort_mit.Archive.Operations.Advancing.{
  seal_initial_record, registration_from_record,
}
use aiknowledge_sort_mit.Archive.Operations.Validation.{validate_reviewed}
use aiknowledge_sort_mit.Archive.Steps.{
  Run, Step, on_records, call_disk, ignore, require_absent, ensure_destination_parent,
  remove_file_if_present,
}
use aiknowledge_sort_mit.Archive.Transaction.{
  SourceAccess, persist_operation, transition_required, hash_vault_file, open_verified_source,
}

pub data ArchiveCommitStatus : Type 0 where
  all_committed partly_committed commit_failed : ArchiveCommitStatus

pub data ArchiveItemStatus : Type 0 where
  item_committed item_failed : ArchiveItemStatus

pub record ArchiveItemResult : Type 0 where
  pub operation_id : Text
  pub item_id : Text
  pub destination_path : Text
  pub identity : ContentIdentity
  pub status : ArchiveItemStatus
  pub failure_reason : Option Text

pub record ArchiveCommitResult : Type 0 where
  pub plan_id : Text
  pub status : ArchiveCommitStatus
  pub items : List ArchiveItemResult

pub record TransactionFaults : Type 0 where
  pub corrupt_staging : Bool
  pub reject_staging_read : Bool
  pub reject_registration : Bool
  pub stop_after_copy : Bool
  pub stop_after_exposure : Bool

abbrev pub no_faults : TransactionFaults
no_faults = record {
  corrupt_staging = false;
  reject_staging_read = false;
  reject_registration = false;
  stop_after_copy = false;
  stop_after_exposure = false;
}

pub data TransactionFailure : Type 0 where
  rejected : ArchiveError → TransactionFailure
  interrupted : Text → TransactionFailure

abbrev hashed_texts : List Text → List ℕ
hashed_texts [] = []
hashed_texts (t ∷ ts) = utf8 t ++ (0 ∷ hashed_texts ts)

abbrev hashed_id : Option Text → List ℕ
hashed_id none = []
hashed_id (some id) = utf8 id ++ 0 ∷ []

abbrev result_of : Text → ArchivePlanItem → ArchiveItemStatus → Option Text → ArchiveItemResult
result_of operation_id item status failure_reason = record {
  operation_id = operation_id;
  item_id = item.item_id;
  destination_path = item.destination_path;
  identity = item.identity;
  status = status;
  failure_reason = failure_reason;
}

unfoldable pub failed_without_operation : Text → List ArchivePlanItem → List ArchiveItemResult
failed_without_operation reason [] = []
failed_without_operation reason (item ∷ items) =
    result_of [] item item_failed (some reason) ∷ failed_without_operation reason items

abbrev pub is_committed : ArchiveItemResult → Bool
is_committed result = elim result.status [ item_committed ↦ true | item_failed ↦ false ]

unfoldable pub status_of : List ArchiveItemResult → ArchiveCommitStatus
unfolding count_if
status_of results =
    let committed = count_if is_committed results in
    if committed == 0
    then commit_failed
    else if committed == length results
    then all_committed
    else partly_committed

module _ (f : Formats) where
  abbrev hashed_classification : Option ClassificationProposal → List ℕ
  hashed_classification none = []
  hashed_classification (some classification) = f.classification_vec classification

  unfoldable pub confirmation_binding_sha256 : ArchivePlan → ArchivePlanItem → Text
  unfolding utf8
  confirmation_binding_sha256 plan item = encode_hex (
      f.sha256 (
        hashed_texts (
          plan.confirmation_nonce ∷ plan.plan_id ∷ plan.proposal_id ∷ plan.naming_batch_id
          ∷ plan.authority_id ∷ item.item_id ∷ item.source_path ∷ item.destination_path
          ∷ item.original_name ∷ item.canonical_name ∷ item.identity.algorithm
          ∷ item.identity.digest ∷ [])
        ++ f.naming_vec item.naming
        ++ hashed_id plan.classification_batch_id
        ++ hashed_classification item.classification))

  -- The record of `OperationContext::new`.
  unfoldable pub new_operation : ArchivePlan → ArchivePlanItem → Text → ℕ → OperationRecord
  new_operation plan item operation_id now = record {
    schema_version =
        if is_some item.classification
        then classified_operation_schema_version
        else audited_operation_schema_version;
    operation_id = operation_id;
    sequence = 0;
    state = op_proposed;
    actor = codes "desktop-user";
    recorded_at_unix_ms = now;
    action = codes "archive-original-with-canonical-name";
    selected_scope = item.source_path ∷ item.destination_path ∷ [];
    decision = codes "desktop-user-confirmed-reviewed-plan";
    plan_id = plan.plan_id;
    confirmation_binding_sha256 = confirmation_binding_sha256 plan item;
    authority_id = plan.authority_id;
    item_id = item.item_id;
    source_path = item.source_path;
    destination_path = item.destination_path;
    naming_batch_id = some plan.naming_batch_id;
    original_name = some item.original_name;
    canonical_name = some item.canonical_name;
    naming = some item.naming;
    classification_batch_id = plan.classification_batch_id;
    classification = item.classification;
    byte_size = item.byte_size;
    identity = item.identity;
    invariant_result = codes "pending";
    outcome = codes "proposed";
    failure_reason = none;
    previous_record_sha256 = none;
    record_sha256 = none;
  }

module _ (p : Platform) (f : Formats) (a : SourceAccess p) where
  abbrev pub Attempt : Type 0 → Type 0
  Attempt = Exec (Run p) TransactionFailure

  -- `map_err(TransactionFailure::Rejected)?`.
  abbrev pub required : {A : Type 0} → Step p A → Attempt A
  required m = catch rejected m

  abbrev pub when : Bool → Attempt (Unit {0}) → Attempt (Unit {0})
  when test m s = elim test [ true ↦ m s | false ↦ (ok tt, s) ]

  abbrev pub fault : Bool → Text → Attempt (Unit {0})
  fault test text = lift (fail_if test (interrupted text))

  -- `promote_registration`.
  unfoldable pub promote_registration : Text → Step p (Unit {0})
  promote_registration operation_id = do
    require_absent p registration_exists (registration_path_of operation_id)
    call_disk p
        (p.rename (pending_registration_path_of operation_id) (registration_path_of operation_id))

  abbrev pub corrupt : Text → Attempt (Unit {0})
  corrupt staging = do
    required (call_disk p (p.overwrite_start staging (codes "!")))
    required (call_disk p (p.sync_all staging))

  -- The copy into the staging file.
  unfoldable pub stage : ℕ → Text → Step p (Unit {0})
  stage source staging = do
    call_disk p (p.open_new staging)
    call_disk p (a.copy_to source staging)
    call_disk p (p.flush staging)
    call_disk p (p.sync_all staging)

  -- The faults that are asked for after the copy.
  unfoldable pub disturb : TransactionFaults → Text → Attempt (Unit {0})
  disturb faults staging = do
    fault faults.stop_after_copy (codes "Simulated interruption after archive copy")
    when faults.corrupt_staging (corrupt staging)
    lift (
        fail_if faults.reject_staging_read
          (rejected (simulated_fault (codes "Archive staging output is unreadable"))))

  unfoldable pub check_staged : OperationRecord → Step p (Unit {0})
  check_staged r = do
    staged_identity ← hash_vault_file p f (staging_path_of r.operation_id)
    lift (fail_if (not (identity_eq staged_identity r.identity)) staging_mismatch)

  -- `execute_operation` up to the verified copy.
  unfoldable pub copy_verified : TransactionFaults → OperationRecord → Attempt (Unit {0})
  copy_verified faults r = do
    required (lift (validate_reviewed r))
    source ← required (open_verified_source p f a r)
    required (transition_required p f op_copying (codes "pending") (codes "copying") none)
    required (stage source (staging_path_of r.operation_id))
    disturb faults (staging_path_of r.operation_id)
    required (check_staged r)
    required (open_verified_source p f a r)
    required (transition_required p f op_verified (codes "sha256-match") (codes "verified") none)

  -- The pending registration, and the link that exposes the target.
  unfoldable pub link_target : OperationRecord → Step p (Unit {0})
  link_target r = do
    on_records p (
        write_new_json p f.registration_json (pending_registration_path_of r.operation_id)
          (registration_from_record r))
    ensure_destination_parent p r.destination_path
    require_absent p destination_exists r.destination_path
    call_disk p (p.hard_link (staging_path_of r.operation_id) r.destination_path)

  abbrev pub set_exposed : Run p → Run p
  set_exposed s = record s { exposed = true }

  unfoldable pub finish : Text → Step p (Unit {0})
  finish operation_id = do
    promote_registration operation_id
    transition_required p f op_committed (codes "registered-original-preserved") (codes "committed")
        none
    ignore p (remove_file_if_present p (staging_path_of operation_id))

  -- `execute_operation` after the verified copy.
  unfoldable pub expose : TransactionFaults → OperationRecord → Attempt (Unit {0})
  expose faults r = do
    lift (
        fail_if faults.reject_registration
          (rejected (simulated_fault (codes "Archive registration was rejected"))))
    required (link_target r)
    modify set_exposed
    fault faults.stop_after_exposure (codes "Simulated interruption after archive exposure")
    required (finish r.operation_id)

  abbrev pub operation_of : Run p → OperationRecord
  operation_of s = s.operation

  unfoldable pub execute_operation : TransactionFaults → Attempt (Unit {0})
  execute_operation faults = do
    reviewed ← gets operation_of
    copy_verified faults reviewed
    verified ← gets operation_of
    expose faults verified

  unfoldable pub cleanup_rejected_operation : Step p (Unit {0})
  cleanup_rejected_operation = do
    r ← gets (λ (s : Run p). s.operation)
    exposed ← gets (λ (s : Run p). s.exposed)
    ignore p (remove_file_if_present p (staging_path_of r.operation_id))
    ignore p (remove_file_if_present p (pending_registration_path_of r.operation_id))
    ignore p (remove_file_if_present p (registration_path_of r.operation_id))
    if exposed then ignore p (remove_file_if_present p r.destination_path) else pure tt

  -- What `commit_one` does when the operation was rejected.
  unfoldable pub reject_operation : ArchiveError → Step p (Unit {0})
  reject_operation e = do
    cleanup_rejected_operation
    ignore p (
        transition_required p f op_failed (codes "rejected") (codes "not-committed")
          (some (f.error_text e)))

  abbrev settle :
      Text
      → ArchivePlanItem
      → Result TransactionFailure (Unit {0}) × Run p
      → ArchiveItemResult × p.State
  settle id item (ok done, s) = (result_of id item item_committed none, s.disk)
  settle id item (err (interrupted reason), s) =
      (result_of id item item_failed (some reason), s.disk)
  settle id item (err (rejected e), s) =
      (result_of id item item_failed (some (f.error_text e)), (reject_operation e s).1.disk)

  abbrev begun :
      TransactionFaults
      → Text
      → ArchivePlanItem
      → Result ArchiveError (Unit {0}) × Run p
      → ArchiveItemResult × p.State
  begun faults id item (err e, s) = (result_of id item item_failed (some (f.error_text e)), s.disk)
  begun faults id item (ok done, s) = settle id item (execute_operation faults s)

  abbrev sealed_run :
      TransactionFaults
      → Text
      → ArchivePlanItem
      → Result ArchiveError OperationRecord
      → p.State
      → ArchiveItemResult × p.State
  sealed_run faults id item (err e) d = (result_of id item item_failed (some (f.error_text e)), d)
  sealed_run faults id item (ok r) d =
      begun faults id item
        (persist_operation p f (record { disk = d; operation = r; exposed = false }))

  unfoldable pub commit_one :
      TransactionFaults → ArchivePlan → ArchivePlanItem → p.State → ArchiveItemResult × p.State
  commit_one faults plan item d =
      let drawn = p.new_uuid d in
      let timed = p.unix_time_ms drawn.1 in
      sealed_run faults drawn.0 item
        (seal_initial_record f (new_operation f plan item drawn.0 timed.0)) timed.1

  -- The loop over the items.
  unfoldable pub commit_all :
      TransactionFaults
      → ArchivePlan
      → List ArchivePlanItem
      → p.State
      → List ArchiveItemResult × p.State
  commit_all faults plan [] d = ([], d)
  commit_all faults plan (item ∷ items) d =
      let one = commit_one faults plan item d in
      let rest = commit_all faults plan items one.1 in (one.0 ∷ rest.0, rest.1)

  -- `commit_plan_with_faults`; the vault's lease is for `authority_id`.
  unfoldable pub commit_plan :
      TransactionFaults → ArchivePlan → Text → p.State → ArchiveCommitResult × p.State
  commit_plan faults plan authority_id d =
      let run = commit_all faults plan plan.items d in
      if text_eq plan.authority_id authority_id
      then (record { plan_id = plan.plan_id; status = status_of run.0; items = run.0 }, run.1)
      else (
        record {
          plan_id = plan.plan_id;
          status = commit_failed;
          items =
              failed_without_operation (codes "Archive plan Vault authority is no longer current")
                plan.items;
        },
        d,
      )
