-- ===== src/Profiles/Proposing.antt =====
-- profiles/proposal.rs: `classify`, which proposes a destination that the evidence supports.
-- `str::to_lowercase` of Unicode is a parameter.
pub mod Grounds
pub mod Decisions
use aiknowledge_sort_mit.Prelude.{
  ℕ, ◌*◌, Bool, true, false, not, ◌&&◌, ◌||◌, Option, none, some, List, [], ◌∷◌, ◌++◌, map, Text,
  ltb, length, is_empty, any, find, dedup, byte_len, text_eq, text_le, texts_eq, texts_le, contains,
  is_control, sort_by, Result, ok, err, ◌>>=◌, ◌>>◌, fail_if, map_err, if◌then◌else◌,
}
use aiknowledge_sort_mit.Identity.{ContentIdentity, IdentityError, validate_identity}
use aiknowledge_sort_mit.Naming.Schema.{is_blank}
use aiknowledge_sort_mit.Profiles.Schema.{
  ProfileStatus, approved, EvidenceKind, document_text, ocr_text, transcript, reliable_companion,
  EvidenceRequirement, ClassificationRule, DeclarativeProfile, ProfileError,
}
use aiknowledge_sort_mit.Profiles.Taxonomy.{validate_profile}
use aiknowledge_sort_mit.Profiles.Evidence.{
  EvidenceReference, EvidencePacket, EvidenceCitation, destination_proposed, classification_review,
  ReviewReason, no_evidence, conflicting_rules, ClassificationProposal, RuleMatch, ClassifyError,
  profile_invalid, evidence_kind_eq, citation_eq, is_approved, validate_evidence,
}

abbrev pub citation_le : EvidenceCitation → EvidenceCitation → Bool
citation_le left right = text_le left.location right.location

abbrev pub all_citations : List RuleMatch → List EvidenceCitation
all_citations [] = []
all_citations (matched_rule ∷ matches) = matched_rule.citations ++ all_citations matches

-- The two lists that `flatten_matches` returns.
unfoldable pub flat_rule_ids : List RuleMatch → List Text
flat_rule_ids matches =
    dedup text_eq (sort_by text_le (map (λ matched_rule. matched_rule.rule_id) matches))

unfoldable pub flat_citations : List RuleMatch → List EvidenceCitation
flat_citations matches = dedup citation_eq (sort_by citation_le (all_citations matches))

-- The matches by destination: a `BTreeMap`, in the order of its keys.
abbrev pub Destinations : Type 0
Destinations = List (List Text × List RuleMatch)

-- `entry(destination).or_default().push(matched_rule)`.
unfoldable pub push_match : RuleMatch → Destinations → Destinations
push_match m [] = (m.destination, m ∷ []) ∷ []
push_match m ((key, ms) ∷ rest) =
    let later = push_match m rest in
    if texts_eq key m.destination
    then (key, ms ++ m ∷ []) ∷ rest
    else if texts_le m.destination key
    then (m.destination, m ∷ []) ∷ (key, ms) ∷ rest
    else (key, ms) ∷ later

unfoldable pub group_matches : Destinations → List RuleMatch → Destinations
unfolding push_match
group_matches done [] = done
group_matches done (m ∷ ms) = group_matches (push_match m done) ms

-- `into_values().flatten()`.
abbrev pub all_matches : Destinations → List RuleMatch
all_matches [] = []
all_matches ((_, ms) ∷ rest) = ms ++ all_matches rest

abbrev pub proposed_one :
    Text
    → DeclarativeProfile
    → ContentIdentity
    → List Text
    → List RuleMatch
    → ClassificationProposal
proposed_one proposal_id profile source_identity destination matched_rules = record {
  proposal_id = proposal_id;
  source_identity = source_identity;
  profile_id = profile.profile_id;
  profile_version = profile.profile_version;
  status = destination_proposed;
  rule_ids = flat_rule_ids matched_rules;
  semantic_decision_id = none;
  evidence = flat_citations matched_rules;
  destination = some destination;
  review_reason = none;
  committable = is_approved profile.status;
}

abbrev pub for_review :
    Text
    → DeclarativeProfile
    → ContentIdentity
    → ReviewReason
    → List RuleMatch
    → ClassificationProposal
for_review proposal_id profile source_identity reason matched_rules = record {
  proposal_id = proposal_id;
  source_identity = source_identity;
  profile_id = profile.profile_id;
  profile_version = profile.profile_version;
  status = classification_review;
  rule_ids = flat_rule_ids matched_rules;
  semantic_decision_id = none;
  evidence = flat_citations matched_rules;
  destination = none;
  review_reason = some reason;
  committable = false;
}

-- `classify` after the destinations are grouped.
unfoldable pub decide :
    Text → DeclarativeProfile → ContentIdentity → Destinations → ClassificationProposal
decide proposal_id profile source_identity [] =
    for_review proposal_id profile source_identity no_evidence []
decide proposal_id profile source_identity ((destination, matched_rules) ∷ []) =
    proposed_one proposal_id profile source_identity destination matched_rules
decide proposal_id profile source_identity (d ∷ e ∷ rest) =
    for_review proposal_id profile source_identity conflicting_rules (all_matches (d ∷ e ∷ rest))

abbrev pub cite : EvidenceReference → EvidenceCitation
cite reference = record { kind = reference.kind; location = reference.location }

module _ (to_lowercase : Text → Text) where
  abbrev pub supports : EvidenceRequirement → EvidenceReference → Bool
  supports requirement reference =
      evidence_kind_eq reference.kind requirement.kind
      && contains (to_lowercase requirement.term) (to_lowercase reference.text)

  -- The loop over the requirements of a rule: `none` when one of them has no reference.
  unfoldable pub cite_all :
      List EvidenceReference → List EvidenceRequirement → Option (List EvidenceCitation)
  cite_all references [] = some []
  cite_all references (requirement ∷ requirements) = elim (find (supports requirement) references) [
    | none ↦ none
    | some reference ↦ elim (cite_all references requirements) [
      | none ↦ none
      | some citations ↦ some (cite reference ∷ citations)
    ]
  ]

  -- The loop over the rules.
  unfoldable pub match_rules : List EvidenceReference → List ClassificationRule → List RuleMatch
  match_rules references [] = []
  match_rules references (rule ∷ rules) =
      let rest = match_rules references rules in
      elim (cite_all references rule.all_of) [
        | none ↦ rest
        | some citations ↦
            record { rule_id = rule.rule_id; destination = rule.destination; citations = citations }
            ∷ rest
      ]

  unfoldable pub classify :
      Text → DeclarativeProfile → EvidencePacket → Result ClassifyError ClassificationProposal
  classify proposal_id profile evidence = do
    map_err profile_invalid (validate_profile profile)
    validate_evidence evidence
    ok (
        decide proposal_id profile evidence.source_identity
          (group_matches [] (match_rules evidence.references profile.rules)))
