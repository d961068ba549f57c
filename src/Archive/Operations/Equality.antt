-- ===== src/Archive/Operations/Equality.antt =====
-- archive/transaction.rs: the equality of anchors and registrations, which is that of every field.
use aiknowledge_sort_mit.Prelude.{
  ◌==◌, Bool, true, false, ◌&&◌, Option, none, some, List, [], ◌∷◌, text_eq, texts_eq,
}
use aiknowledge_sort_mit.Identity.{identity_eq}
use aiknowledge_sort_mit.Naming.Schema.{fact_eq, NamingDecisionEvidence}
use aiknowledge_sort_mit.Profiles.Evidence.{
  citation_eq, ProposalStatus, destination_proposed, classification_review, ReviewReason,
  no_evidence, conflicting_rules, ClassificationProposal,
}
use aiknowledge_sort_mit.Archive.Operations.{
  OperationState, op_proposed, op_copying, op_verified, op_committed, op_failed, op_abandoned,
  OperationAuditAnchor, OriginalRegistration,
}

abbrev pub option_eq {ℓ} : {A : Type ℓ} → (A → A → Bool) → Option A → Option A → Bool
option_eq eq none none = true
option_eq eq none (some _) = false
option_eq eq (some _) none = false
option_eq eq (some a) (some b) = eq a b

unfoldable pub list_eq {ℓ} : {A : Type ℓ} → (A → A → Bool) → List A → List A → Bool
list_eq eq [] [] = true
list_eq eq [] (_ ∷ _) = false
list_eq eq (_ ∷ _) [] = false
list_eq eq (x ∷ xs) (y ∷ ys) = eq x y && list_eq eq xs ys

abbrev bool_eq : Bool → Bool → Bool
bool_eq true b = b
bool_eq false true = false
bool_eq false false = true

abbrev pub state_eq : OperationState → OperationState → Bool
state_eq op_proposed op_proposed = true
state_eq op_copying op_copying = true
state_eq op_verified op_verified = true
state_eq op_committed op_committed = true
state_eq op_failed op_failed = true
state_eq op_abandoned op_abandoned = true
state_eq _ _ = false

abbrev status_eq : ProposalStatus → ProposalStatus → Bool
status_eq destination_proposed destination_proposed = true
status_eq classification_review classification_review = true
status_eq _ _ = false

abbrev reason_eq : ReviewReason → ReviewReason → Bool
reason_eq no_evidence no_evidence = true
reason_eq conflicting_rules conflicting_rules = true
reason_eq _ _ = false

abbrev naming_evidence_eq : NamingDecisionEvidence → NamingDecisionEvidence → Bool
naming_evidence_eq a b =
    text_eq a.naming_proposal_id b.naming_proposal_id
    && text_eq a.original_name b.original_name
    && text_eq a.canonical_name b.canonical_name
    && text_eq a.policy_id b.policy_id
    && text_eq a.policy_version b.policy_version
    && text_eq a.applied_rule b.applied_rule
    && list_eq fact_eq a.facts b.facts

abbrev classification_eq : ClassificationProposal → ClassificationProposal → Bool
classification_eq a b =
    text_eq a.proposal_id b.proposal_id
    && identity_eq a.source_identity b.source_identity
    && text_eq a.profile_id b.profile_id
    && text_eq a.profile_version b.profile_version
    && status_eq a.status b.status
    && texts_eq a.rule_ids b.rule_ids
    && option_eq text_eq a.semantic_decision_id b.semantic_decision_id
    && list_eq citation_eq a.evidence b.evidence
    && option_eq texts_eq a.destination b.destination
    && option_eq reason_eq a.review_reason b.review_reason
    && bool_eq a.committable b.committable

unfoldable pub anchor_eq : OperationAuditAnchor → OperationAuditAnchor → Bool
anchor_eq a b =
    a.schema_version == b.schema_version
    && text_eq a.operation_id b.operation_id
    && a.terminal_sequence == b.terminal_sequence
    && state_eq a.terminal_state b.terminal_state
    && text_eq a.terminal_record_sha256 b.terminal_record_sha256

unfoldable pub registration_eq : OriginalRegistration → OriginalRegistration → Bool
unfolding list_eq
registration_eq a b =
    a.schema_version == b.schema_version
    && text_eq a.operation_id b.operation_id
    && text_eq a.authority_id b.authority_id
    && text_eq a.relative_path b.relative_path
    && text_eq a.source_path b.source_path
    && option_eq text_eq a.naming_batch_id b.naming_batch_id
    && option_eq text_eq a.original_name b.original_name
    && option_eq text_eq a.canonical_name b.canonical_name
    && option_eq naming_evidence_eq a.naming b.naming
    && option_eq text_eq a.classification_batch_id b.classification_batch_id
    && option_eq classification_eq a.classification b.classification
    && text_eq a.original_format b.original_format
    && a.byte_size == b.byte_size
    && identity_eq a.identity b.identity
