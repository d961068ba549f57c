-- ===== src/Archive/Operations.antt =====
-- archive/transaction.rs: the journal of operations. Each step of an operation is a record that names
-- the digest of the one before it, and a terminal record has an anchor.
pub mod Equality
pub mod Advancing
pub mod Validation
pub mod Audit
use aiknowledge_sort_mit.Prelude.{
  ℕ, zero, suc, ◌+◌, ◌-◌, ◌/◌, ◌%◌, ◌^◌, ◌==◌, Bool, true, false, not, ◌||◌, Option, none, some,
  List, [], ◌∷◌, ◌++◌, Text, codes, ltb, length, Result, if◌then◌else◌,
}
use aiknowledge_sort_mit.Prelude.Paths.{join}
use aiknowledge_sort_mit.Vault.Records.{Codec, RecordError}
use aiknowledge_sort_mit.Identity.{ContentIdentity, IdentityError}
use aiknowledge_sort_mit.Naming.Schema.{NamingDecisionEvidence}
use aiknowledge_sort_mit.Profiles.Evidence.{ClassificationProposal}

abbrev pub max_operation_records : ℕ
max_operation_records = 10_000

abbrev pub legacy_operation_schema_version : ℕ
legacy_operation_schema_version = 1

abbrev pub naming_operation_schema_version : ℕ
naming_operation_schema_version = 2

abbrev pub audited_operation_schema_version : ℕ
audited_operation_schema_version = 3

abbrev pub classified_operation_schema_version : ℕ
classified_operation_schema_version = 4

abbrev pub audit_anchor_schema_version : ℕ
audit_anchor_schema_version = 1

pub data OperationState : Type 0 where
  op_proposed op_copying op_verified op_committed op_failed op_abandoned : OperationState

abbrev pub file_label : OperationState → Text
file_label op_proposed = codes "proposed"
file_label op_copying = codes "copying"
file_label op_verified = codes "verified"
file_label op_committed = codes "committed"
file_label op_failed = codes "failed"
file_label op_abandoned = codes "abandoned"

abbrev pub is_terminal : OperationState → Bool
is_terminal op_committed = true
is_terminal op_failed = true
is_terminal op_abandoned = true
is_terminal _ = false

pub record OperationRecord : Type 0 where
  pub schema_version : ℕ
  pub operation_id : Text
  pub sequence : ℕ
  pub state : OperationState
  pub actor : Text
  pub recorded_at_unix_ms : ℕ
  pub action : Text
  pub selected_scope : List Text
  pub decision : Text
  pub plan_id : Text
  pub confirmation_binding_sha256 : Text
  pub authority_id : Text
  pub item_id : Text
  pub source_path : Text
  pub destination_path : Text
  pub naming_batch_id : Option Text
  pub original_name : Option Text
  pub canonical_name : Option Text
  pub naming : Option NamingDecisionEvidence
  pub classification_batch_id : Option Text
  pub classification : Option ClassificationProposal
  pub byte_size : ℕ
  pub identity : ContentIdentity
  pub invariant_result : Text
  pub outcome : Text
  pub failure_reason : Option Text
  pub previous_record_sha256 : Option Text
  pub record_sha256 : Option Text

pub record OperationAuditAnchor : Type 0 where
  pub schema_version : ℕ
  pub operation_id : Text
  pub terminal_sequence : ℕ
  pub terminal_state : OperationState
  pub terminal_record_sha256 : Text

pub record OriginalRegistration : Type 0 where
  pub schema_version : ℕ
  pub operation_id : Text
  pub authority_id : Text
  pub relative_path : Text
  pub source_path : Text
  pub naming_batch_id : Option Text
  pub original_name : Option Text
  pub canonical_name : Option Text
  pub naming : Option NamingDecisionEvidence
  pub classification_batch_id : Option Text
  pub classification : Option ClassificationProposal
  pub original_format : Text
  pub byte_size : ℕ
  pub identity : ContentIdentity

pub data ArchiveError : Type 0 where
  initial_state_invalid digest_missing digest_invalid predecessor_missing : ArchiveError
  anchor_not_terminal anchor_not_regular anchor_mismatched destination_outside : ArchiveError
  naming_batch_missing original_name_missing canonical_name_missing naming_missing : ArchiveError
  naming_mismatched classification_unexpected classification_batch_missing : ArchiveError
  classification_missing classification_unbound operation_id_invalid stream_empty : ArchiveError
  stream_broken anchor_changed journal_too_large journal_link schema_unsupported : ArchiveError
  source_not_regular source_size source_changed staging_mismatch file_not_regular : ArchiveError
  parent_not_directory destination_missing_parent destination_exists : ArchiveError
  registration_exists registration_mismatched target_mismatched not_found_operation : ArchiveError
  not_committed other_authority undone owned_not_regular : ArchiveError
  simulated_fault archive_io : Text → ArchiveError
  vault_record : RecordError → ArchiveError
  record_identity : IdentityError → ArchiveError

-- What is serialized, SHA-256, and the English texts of errors.
pub record Formats : Type 0 where
  pub sha256 : List ℕ → List ℕ
  pub operation_json : Codec OperationRecord
  pub anchor_json : Codec OperationAuditAnchor
  pub registration_json : Codec OriginalRegistration
  pub naming_vec : NamingDecisionEvidence → List ℕ
  pub classification_vec : ClassificationProposal → List ℕ
  pub error_text : ArchiveError → Text

-- A decimal number; a `u32` has at most ten digits.
unfoldable pub decimal_digits : ℕ → ℕ → Text → Text
decimal_digits zero n done = done
decimal_digits (suc fuel) n done =
    let more = decimal_digits fuel (n / 10) ((48 + n % 10) ∷ done) in
    if ltb n 10 then (48 + n) ∷ done else more

unfoldable pub zeros : ℕ → Text → Text
zeros zero t = t
zeros (suc n) t = b'0' ∷ zeros n t

-- `{:04}`.
unfoldable pub four_digits : ℕ → Text
unfolding decimal_digits zeros
four_digits n = let digits = decimal_digits 10 n [] in zeros (4 - length digits) digits

unfoldable pub operation_record_path : OperationRecord → Text
unfolding four_digits
operation_record_path r = join (codes ".aiks/operations") (
    r.operation_id
    ++ codes "-"
    ++ four_digits r.sequence
    ++ codes "-"
    ++ file_label r.state
    ++ codes ".json")

abbrev pub audit_anchor_path : Text → Text
audit_anchor_path operation_id =
    join (codes ".aiks/archive-audit-anchors") (operation_id ++ codes ".json")

abbrev pub staging_path_of : Text → Text
staging_path_of operation_id = join (codes ".aiks/staging") (operation_id ++ codes ".part")

abbrev pub pending_registration_path_of : Text → Text
pending_registration_path_of operation_id =
    join (codes ".aiks/pending-registrations") (operation_id ++ codes ".json")

abbrev pub registration_path_of : Text → Text
registration_path_of operation_id =
    join (codes ".aiks/registrations") (operation_id ++ codes ".json")

-- `saturating_add(1)` of a `u32`.
abbrev pub next_sequence : ℕ → ℕ
next_sequence n = if ltb (n + 1) (2 ^ 32) then n + 1 else 2 ^ 32 - 1
