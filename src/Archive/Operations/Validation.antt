-- ===== src/Archive/Operations/Validation.antt =====
-- archive/transaction.rs: what a record must be before anything is done for it.
use aiknowledge_sort_mit.Prelude.{
  ◌==◌, Bool, false, not, ◌&&◌, ◌||◌, Option, none, some, List, [], ◌∷◌, Text, codes, ltb, is_empty,
  is_some, all, byte_len, utf8, text_eq, is_ascii_digit, is_ascii_lowercase, Result, ok, ◌>>=◌,
  ◌>>◌, fail_if, ok_or, map_err, if◌then◌else◌,
}
use aiknowledge_sort_mit.Prelude.Paths.{Component, normal_component, components, file_name}
use aiknowledge_sort_mit.Vault.Records.{validate_relative_path}
use aiknowledge_sort_mit.Identity.{ContentIdentity, identity_eq}
use aiknowledge_sort_mit.Archive.Plans.{binding_valid, is_destination_proposed}
use aiknowledge_sort_mit.Archive.Operations.{
  OperationRecord, ArchiveError, destination_outside, naming_batch_missing, original_name_missing,
  canonical_name_missing, naming_missing, naming_mismatched, classification_unexpected,
  classification_batch_missing, classification_missing, classification_unbound,
  operation_id_invalid, vault_record, legacy_operation_schema_version,
  classified_operation_schema_version,
}

-- `Originals`, the digest and one more component.
abbrev pub in_intake_layout : Text → List Component → Bool
in_intake_layout digest (normal_component a ∷ normal_component b ∷ _ ∷ []) =
    text_eq a (codes "Originals") && text_eq b digest
in_intake_layout digest _ = false

unfoldable pub validate_destination : Text → ContentIdentity → Result ArchiveError (Unit {0})
validate_destination path identity = do
  map_err vault_record (validate_relative_path path)
  fail_if (not (in_intake_layout identity.digest (components path))) destination_outside

abbrev named_by : Option Text → Text → Bool
named_by none name = false
named_by (some found) name = text_eq found name

unfoldable pub validate_naming_record : OperationRecord → Result ArchiveError (Unit {0})
validate_naming_record r = if r.schema_version == legacy_operation_schema_version then ok tt else do
  naming_batch_id ← ok_or r.naming_batch_id naming_batch_missing
  original_name ← ok_or r.original_name original_name_missing
  canonical_name ← ok_or r.canonical_name canonical_name_missing
  naming ← ok_or r.naming naming_missing
  fail_if
      (is_empty naming_batch_id
        || not (text_eq original_name naming.original_name)
        || not (text_eq canonical_name naming.canonical_name)
        || not (named_by (file_name r.destination_path) canonical_name))
      naming_mismatched

unfoldable pub validate_classification_record : OperationRecord → Result ArchiveError (Unit {0})
validate_classification_record r =
    if ltb r.schema_version classified_operation_schema_version
    then fail_if (is_some r.classification_batch_id || is_some r.classification)
        classification_unexpected
    else do
      batch_id ← ok_or r.classification_batch_id classification_batch_missing
      classification ← ok_or r.classification classification_missing
      fail_if
          (is_empty batch_id
            || not (is_destination_proposed classification.status)
            || not classification.committable
            || not (is_some classification.destination)
            || not (identity_eq classification.source_identity r.identity)
            || is_empty classification.profile_id
            || is_empty classification.profile_version
            || not (binding_valid classification.rule_ids classification.semantic_decision_id)
            || is_empty classification.evidence)
          classification_unbound

unfoldable pub validate_operation_id : Text → Result ArchiveError (Unit {0})
validate_operation_id value =
    fail_if
      (is_empty value
        || ltb 128 (byte_len value)
        || not (
            all
              (λ byte.
                is_ascii_lowercase byte || is_ascii_digit byte || byte == b'-' || byte == b'_')
              (utf8 value)))
      operation_id_invalid

-- The checks with which `execute_operation` begins.
unfoldable pub validate_reviewed : OperationRecord → Result ArchiveError (Unit {0})
validate_reviewed r = do
  validate_destination r.destination_path r.identity
  validate_naming_record r
  validate_classification_record r
