-- ===== src/Profiles/Schema.antt =====
-- profiles/schema.rs: the data of a classification profile, and the checks of its texts.
use aiknowledge_sort_mit.Prelude.{
  ℕ, ◌*◌, ◌==◌, Bool, not, ◌||◌, Option, List, [], ◌∷◌, Text, codes, ltb, length, is_empty, any,
  all, byte_len, utf8, text_eq, member, is_ascii_alphanumeric, is_control, to_ascii_uppercase,
  Result, ok, ◌>>◌, fail_if,
}
use aiknowledge_sort_mit.Naming.Schema.{is_blank}
use aiknowledge_sort_mit.Naming.Normalize.{is_windows_reserved, before_first, ends_with_any}

abbrev pub max_profile_bytes : ℕ
max_profile_bytes = 1024 * 1024

abbrev pub max_rules : ℕ
max_rules = 1_000

abbrev pub max_categories : ℕ
max_categories = 2_000

abbrev pub max_destination_depth : ℕ
max_destination_depth = 16

abbrev pub max_taxonomy_depth : ℕ
max_taxonomy_depth = 4

abbrev pub max_requirements_per_rule : ℕ
max_requirements_per_rule = 32

abbrev pub max_provenance_evidence : ℕ
max_provenance_evidence = 64

abbrev pub max_aliases_per_category : ℕ
max_aliases_per_category = 16

abbrev pub max_metadata_dimensions : ℕ
max_metadata_dimensions = 32

abbrev pub max_node_triggers : ℕ
max_node_triggers = 16

abbrev pub max_profile_id_bytes : ℕ
max_profile_id_bytes = 128

abbrev pub max_title_bytes : ℕ
max_title_bytes = 256

abbrev pub max_term_bytes : ℕ
max_term_bytes = 512

pub data ProfileStatus : Type 0 where
  draft candidate approved rejected : ProfileStatus

pub data ProfileOwnership : Type 0 where
  owned first_party_authorized : ProfileOwnership

pub data EvidenceKind : Type 0 where
  document_text ocr_text transcript reliable_companion : EvidenceKind

pub data ReviewDisposition : Type 0 where
  important_indexed review_disposition : ReviewDisposition

pub data IndependentNodeTrigger : Type 0 where
  high_value cross_domain user_requested : IndependentNodeTrigger

pub record ProfileProvenance : Type 0 where
  pub source_title : Text
  pub ownership : ProfileOwnership
  pub evidence : List Text

pub record EvidenceRequirement : Type 0 where
  pub kind : EvidenceKind
  pub term : Text

pub record ClassificationRule : Type 0 where
  pub rule_id : Text
  pub destination : List Text
  pub all_of : List EvidenceRequirement

pub record ClassificationCategory : Type 0 where
  pub category_id : Text
  pub label : Text
  pub depth : ℕ
  pub parent_id : Option Text
  pub path : List Text
  pub aliases : List Text

pub record ProfileGovernance : Type 0 where
  pub maximum_depth : ℕ
  pub unique_primary_archive_category : Bool
  pub semantic_evidence_required : Bool
  pub metadata_only_dimensions : List Text
  pub insufficient_evidence_disposition : ReviewDisposition
  pub conflicting_evidence_disposition : ReviewDisposition
  pub archive_first : Bool
  pub cross_domain_knowledge_links : Bool
  pub independent_node_triggers : List IndependentNodeTrigger
  pub generated_indexes_link_only : Bool

pub record DeclarativeProfile : Type 0 where
  pub schema_version : ℕ
  pub profile_id : Text
  pub profile_version : Text
  pub title : Text
  pub status : ProfileStatus
  pub provenance : ProfileProvenance
  pub categories : List ClassificationCategory
  pub governance : Option ProfileGovernance
  pub rules : List ClassificationRule

pub data ProfileError : Type 0 where
  schema_unsupported provenance_count too_many_rules duplicate_rules rule_depth : ProfileError
  rule_not_in_taxonomy rule_requirements segment_unsafe segment_reserved : ProfileError
  taxonomy_in_version_one taxonomy_missing too_many_categories governance_depth : ProfileError
  triggers_invalid duplicate_categories category_depth too_many_aliases aliases_invalid :
      ProfileError
  parent_invalid parent_missing parent_path profile_size json_invalid not_candidate : ProfileError
  id_invalid text_invalid count_invalid duplicate_ids : Text → ProfileError

abbrev pub validate_id : Text → Text → Result ProfileError (Unit {0})
validate_id label value =
    fail_if
      (is_empty value
        || ltb max_profile_id_bytes (byte_len value)
        || not (
            all (λ byte. is_ascii_alphanumeric byte || byte == b'-' || byte == b'_' || byte == b'.')
              (utf8 value)))
      (id_invalid label)

abbrev pub validate_text : Text → ℕ → Text → Result ProfileError (Unit {0})
validate_text label max_bytes value =
    fail_if (is_blank value || ltb max_bytes (byte_len value) || any is_control value)
      (text_invalid label)

-- The characters that some platform forbids in a file name.
abbrev pub is_reserved_character : ℕ → Bool
is_reserved_character c =
    c == b'<'
    || c == b'>'
    || c == b':'
    || c == b'"'
    || c == b'/'
    || c == b'\\'
    || c == b'|'
    || c == b'?'
    || c == b'*'

unfoldable pub validate_destination_segment : Text → Result ProfileError (Unit {0})
validate_destination_segment segment = do
  validate_text (codes "profile destination segment") max_title_bytes segment
  fail_if
      (text_eq segment (codes ".")
        || text_eq segment (codes "..")
        || ends_with_any (b' ' ∷ b'.' ∷ []) segment
        || any is_reserved_character segment)
      segment_unsafe
  fail_if (is_windows_reserved (to_ascii_uppercase (before_first b'.' segment))) segment_reserved

unfoldable pub check_segments : List Text → Result ProfileError (Unit {0})
check_segments [] = ok tt
check_segments (segment ∷ segments) = do
  validate_destination_segment segment
  check_segments segments

-- The loop of `validate_unique_ids`: `unique` is the set of the values met.
unfoldable pub check_unique_ids : Text → List Text → List Text → Result ProfileError (Unit {0})
check_unique_ids label unique [] = ok tt
check_unique_ids label unique (value ∷ values) = do
  validate_id label value
  fail_if (member value unique) (duplicate_ids label)
  check_unique_ids label (value ∷ unique) values

unfoldable pub validate_unique_ids : Text → ℕ → List Text → Result ProfileError (Unit {0})
validate_unique_ids label maximum values = do
  fail_if (is_empty values || ltb maximum (length values)) (count_invalid label)
  check_unique_ids label [] values
