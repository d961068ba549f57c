-- ===== src/Archive/Operations/Advancing.antt =====
-- archive/transaction.rs: a record's digest, and the record that follows another.
use aiknowledge_sort_mit.Prelude.{
  ℕ, ◌==◌, Bool, not, ◌||◌, Option, none, some, [], Text, take, is_some, text_eq, Result, ok, ◌>>=◌,
  ◌>>◌, fail_if, ok_or, map_err,
}
use aiknowledge_sort_mit.Prelude.Paths.{extension}
use aiknowledge_sort_mit.AgentAccess.Token.{encode_hex}
use aiknowledge_sort_mit.Vault.Records.{not_serialized}
use aiknowledge_sort_mit.Archive.Operations.{
  OperationState, OperationRecord, OperationAuditAnchor, OriginalRegistration, ArchiveError,
  Formats, initial_state_invalid, digest_missing, digest_invalid, anchor_not_terminal, vault_record,
  is_terminal, next_sequence, audited_operation_schema_version, classified_operation_schema_version,
  audit_anchor_schema_version,
}

-- `value.chars().take(512)`.
abbrev pub bounded_failure : Text → Text
bounded_failure = take 512

abbrev pub bounded_reason : Option Text → Option Text
bounded_reason none = none
bounded_reason (some reason) = some (bounded_failure reason)

abbrev pub is_audited_schema : ℕ → Bool
is_audited_schema v =
    v == audited_operation_schema_version || v == classified_operation_schema_version

-- A record without its own digest.
abbrev pub unsigned : OperationRecord → OperationRecord
unsigned r = record r { record_sha256 = none }

abbrev pub sealed : Text → OperationRecord → OperationRecord
sealed digest r = record r { record_sha256 = some digest }

-- What `transition_required` writes before the digest.
abbrev pub moved :
    ℕ → OperationState → Text → Text → Option Text → Text → OperationRecord → OperationRecord
moved now state invariant_result outcome failure_reason previous r = record r {
  sequence = next_sequence r.sequence;
  state = state;
  recorded_at_unix_ms = now;
  invariant_result = invariant_result;
  outcome = outcome;
  failure_reason = bounded_reason failure_reason;
  previous_record_sha256 = some previous;
}

module _ (f : Formats) where
  unfoldable pub operation_record_digest : OperationRecord → Result ArchiveError Text
  operation_record_digest r = do
    bytes ← map_err (λ e. vault_record (not_serialized e)) (f.operation_json.to_vec (unsigned r))
    ok (encode_hex (f.sha256 bytes))

  unfoldable pub verify_record_digest : OperationRecord → Result ArchiveError (Unit {0})
  verify_record_digest r = do
    recorded ← ok_or r.record_sha256 digest_missing
    digest ← operation_record_digest r
    fail_if (not (text_eq digest recorded)) digest_invalid

  unfoldable pub seal_initial_record : OperationRecord → Result ArchiveError OperationRecord
  seal_initial_record r = do
    fail_if
        (not (is_audited_schema r.schema_version)
          || not (r.sequence == 0)
          || is_some r.previous_record_sha256)
        initial_state_invalid
    digest ← operation_record_digest r
    ok (sealed digest r)

unfoldable pub terminal_anchor : OperationRecord → Result ArchiveError OperationAuditAnchor
terminal_anchor r = do
  fail_if (not (is_terminal r.state)) anchor_not_terminal
  digest ← ok_or r.record_sha256 digest_missing
  ok (record {
    schema_version = audit_anchor_schema_version;
    operation_id = r.operation_id;
    terminal_sequence = r.sequence;
    terminal_state = r.state;
    terminal_record_sha256 = digest;
  })

abbrev or_path : Option Text → Text → Text
or_path none path = path
or_path (some name) path = name

abbrev or_empty : Option Text → Text
or_empty none = []
or_empty (some t) = t

unfoldable pub registration_from_record : OperationRecord → OriginalRegistration
registration_from_record r = record {
  schema_version = r.schema_version;
  operation_id = r.operation_id;
  authority_id = r.authority_id;
  relative_path = r.destination_path;
  source_path = r.source_path;
  naming_batch_id = r.naming_batch_id;
  original_name = r.original_name;
  canonical_name = r.canonical_name;
  naming = r.naming;
  classification_batch_id = r.classification_batch_id;
  classification = r.classification;
  original_format = or_empty (extension (or_path r.original_name r.source_path));
  byte_size = r.byte_size;
  identity = r.identity;
}
