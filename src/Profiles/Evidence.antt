-- ===== src/Profiles/Evidence.antt =====
-- profiles/proposal.rs: the data of evidence and of proposals, and `validate_evidence`.
use aiknowledge_sort_mit.Prelude.{
  ℕ, ◌*◌, Bool, true, false, ◌&&◌, ◌||◌, Option, List, [], ◌∷◌, Text, ltb, length, is_empty, any,
  byte_len, text_eq, is_control, Result, ok, ◌>>◌, fail_if, map_err,
}
use aiknowledge_sort_mit.Identity.{ContentIdentity, IdentityError, validate_identity}
use aiknowledge_sort_mit.Naming.Schema.{is_blank}
use aiknowledge_sort_mit.Profiles.Schema.{
  ProfileStatus, approved, EvidenceKind, document_text, ocr_text, transcript, reliable_companion,
  ProfileError,
}

abbrev pub max_evidence_references : ℕ
max_evidence_references = 256

abbrev pub max_reference_location_bytes : ℕ
max_reference_location_bytes = 256

abbrev pub max_evidence_text_bytes : ℕ
max_evidence_text_bytes = 64 * 1024

pub record EvidenceReference : Type 0 where
  pub kind : EvidenceKind
  pub location : Text
  pub text : Text

pub record EvidencePacket : Type 0 where
  pub source_identity : ContentIdentity
  pub references : List EvidenceReference

pub record EvidenceCitation : Type 0 where
  pub kind : EvidenceKind
  pub location : Text

pub data ProposalStatus : Type 0 where
  destination_proposed classification_review : ProposalStatus

pub data ReviewReason : Type 0 where
  no_evidence conflicting_rules : ReviewReason

pub record ClassificationProposal : Type 0 where
  pub proposal_id : Text
  pub source_identity : ContentIdentity
  pub profile_id : Text
  pub profile_version : Text
  pub status : ProposalStatus
  pub rule_ids : List Text
  pub semantic_decision_id : Option Text
  pub evidence : List EvidenceCitation
  pub destination : Option (List Text)
  pub review_reason : Option ReviewReason
  pub committable : Bool

pub record RuleMatch : Type 0 where
  pub rule_id : Text
  pub destination : List Text
  pub citations : List EvidenceCitation

pub data ClassifyError : Type 0 where
  evidence_count location_invalid reference_text_invalid : ClassifyError
  profile_invalid : ProfileError → ClassifyError
  evidence_identity : IdentityError → ClassifyError

abbrev pub evidence_kind_eq : EvidenceKind → EvidenceKind → Bool
evidence_kind_eq document_text document_text = true
evidence_kind_eq ocr_text ocr_text = true
evidence_kind_eq transcript transcript = true
evidence_kind_eq reliable_companion reliable_companion = true
evidence_kind_eq _ _ = false

abbrev pub citation_eq : EvidenceCitation → EvidenceCitation → Bool
citation_eq a b = evidence_kind_eq a.kind b.kind && text_eq a.location b.location

abbrev pub is_approved : ProfileStatus → Bool
is_approved approved = true
is_approved _ = false

-- The loop of `validate_evidence`.
unfoldable pub check_references : List EvidenceReference → Result ClassifyError (Unit {0})
check_references [] = ok tt
check_references (reference ∷ references) = do
  fail_if
      (is_blank reference.location
        || ltb max_reference_location_bytes (byte_len reference.location)
        || any is_control reference.location)
      location_invalid
  fail_if (is_blank reference.text || ltb max_evidence_text_bytes (byte_len reference.text))
      reference_text_invalid
  check_references references

unfoldable pub validate_evidence : EvidencePacket → Result ClassifyError (Unit {0})
validate_evidence evidence = do
  map_err evidence_identity (validate_identity evidence.source_identity)
  fail_if (is_empty evidence.references || ltb max_evidence_references (length evidence.references))
      evidence_count
  check_references evidence.references
