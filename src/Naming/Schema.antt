-- ===== src/Naming/Schema.antt =====
-- naming/schema.rs: the data of a naming request, and its validation.
use aiknowledge_sort_mit.Prelude.{
  ℕ, ◌==◌, Bool, true, false, not, ◌&&◌, ◌||◌, Option, List, [], ◌∷◌, Text, codes, ltb, length,
  is_empty, any, all, byte_len, utf8, text_eq, is_ascii_alphanumeric, is_control, is_whitespace,
  Result, ok, ◌>>◌, fail_if, map_err,
}
use aiknowledge_sort_mit.Identity.{ContentIdentity, IdentityError, validate_identity}

abbrev pub max_facts : ℕ
max_facts = 64

abbrev pub max_occupied_names : ℕ
max_occupied_names = 10_000

abbrev pub max_naming_item_id_bytes : ℕ
max_naming_item_id_bytes = 128

abbrev pub max_filename_bytes : ℕ
max_filename_bytes = 255

abbrev pub max_fact_value_bytes : ℕ
max_fact_value_bytes = 512

abbrev pub max_evidence_location_bytes : ℕ
max_evidence_location_bytes = 512

pub data NamingFactKind : Type 0 where
  project model regulation version subject : NamingFactKind

pub record NamingFact : Type 0 where
  pub kind : NamingFactKind
  pub value : Text
  pub evidence_location : Text

pub record NamingRequest : Type 0 where
  pub item_id : Text
  pub original_name : Text
  pub identity : ContentIdentity
  pub facts : List NamingFact
  pub occupied_names : List Text

pub record NamingPolicy : Type 0 where
  pub policy_id : Text
  pub policy_version : Text
  pub required_facts : List NamingFactKind
  pub separator : ℕ

pub data NamingStatus : Type 0 where
  proposed naming_review : NamingStatus

pub data NamingReviewReason : Type 0 where
  missing_evidence conflicting_evidence unsafe_name collision : NamingReviewReason

pub record NamingProposal : Type 0 where
  pub proposal_id : Text
  pub item_id : Text
  pub original_name : Text
  pub canonical_name : Option Text
  pub identity : ContentIdentity
  pub policy_id : Text
  pub policy_version : Text
  pub applied_rule : Text
  pub status : NamingStatus
  pub review_reason : Option NamingReviewReason
  pub facts : List NamingFact

pub record NamingDecisionEvidence : Type 0 where
  pub naming_proposal_id : Text
  pub original_name : Text
  pub canonical_name : Text
  pub policy_id : Text
  pub policy_version : Text
  pub applied_rule : Text
  pub facts : List NamingFact

abbrev pub canonical_policy : NamingPolicy
canonical_policy = record {
  policy_id = codes "canonical-v1";
  policy_version = codes "1.0.0";
  required_facts = subject ∷ [];
  separator = b'-';
}

pub data NamingError : Type 0 where
  item_id_invalid original_name_invalid original_name_path fact_count_invalid : NamingError
  fact_value_invalid fact_location_invalid duplicate_facts occupied_count : NamingError
  occupied_name_invalid : NamingError
  naming_identity_invalid : IdentityError → NamingError

abbrev pub kind_eq : NamingFactKind → NamingFactKind → Bool
kind_eq project project = true
kind_eq model model = true
kind_eq regulation regulation = true
kind_eq version version = true
kind_eq subject subject = true
kind_eq _ _ = false

abbrev pub fact_eq : NamingFact → NamingFact → Bool
fact_eq a b =
    kind_eq a.kind b.kind
    && text_eq a.value b.value
    && text_eq a.evidence_location b.evidence_location

-- `str::trim` leaves nothing.
abbrev pub is_blank : Text → Bool
is_blank = all is_whitespace

abbrev pub validate_naming_id : Text → Result NamingError (Unit {0})
validate_naming_id value =
    fail_if
      (is_empty value
        || ltb max_naming_item_id_bytes (byte_len value)
        || not (
            all (λ byte. is_ascii_alphanumeric byte || byte == b'-' || byte == b'_' || byte == b'.')
              (utf8 value)))
      item_id_invalid

-- `validate_text`, and with the bound of file names `validate_filename`: the label is in the error.
abbrev pub validate_text : NamingError → ℕ → Text → Result NamingError (Unit {0})
validate_text e max_bytes value =
    fail_if (is_blank value || ltb max_bytes (byte_len value) || any is_control value) e

abbrev pub validate_filename : NamingError → Text → Result NamingError (Unit {0})
validate_filename e = validate_text e max_filename_bytes

unfoldable pub validate_original_name : Text → Result NamingError (Unit {0})
validate_original_name value = do
  validate_filename original_name_invalid value
  fail_if
      (any (λ c. c == b'/' || c == b'\\') value
        || text_eq value (codes ".")
        || text_eq value (codes ".."))
      original_name_path

-- The loop over the facts: `seen` is the set of the facts met.
unfoldable pub check_facts : List NamingFact → List NamingFact → Result NamingError (Unit {0})
check_facts seen [] = ok tt
check_facts seen (fact ∷ facts) = do
  validate_text fact_value_invalid max_fact_value_bytes fact.value
  validate_text fact_location_invalid max_evidence_location_bytes fact.evidence_location
  fail_if (any (fact_eq fact) seen) duplicate_facts
  check_facts (fact ∷ seen) facts

unfoldable pub check_occupied : List Text → Result NamingError (Unit {0})
check_occupied [] = ok tt
check_occupied (name ∷ names) = do
  validate_filename occupied_name_invalid name
  check_occupied names

-- `NamingRequest::validate`.
unfoldable pub validate_request : NamingRequest → Result NamingError (Unit {0})
validate_request request = do
  validate_naming_id request.item_id
  validate_original_name request.original_name
  map_err naming_identity_invalid (validate_identity request.identity)
  fail_if (is_empty request.facts || ltb max_facts (length request.facts)) fact_count_invalid
  check_facts [] request.facts
  fail_if (ltb max_occupied_names (length request.occupied_names)) occupied_count
  check_occupied request.occupied_names
