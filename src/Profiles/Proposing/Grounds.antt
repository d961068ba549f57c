-- ===== src/Profiles/Proposing/Grounds.antt =====
-- profiles/proposal.rs: what a proposal of `classify` rests on.
use aiknowledge_sort_mit.Prelude.{
  ◌≡◌, ◌↔◌, refl, Bool, true, some, List, [], ◌∷◌, Text, arith, inl, inr, subst, Bool-cases,
  texts_eq, texts_le, Option-cases, ok, any, find, any-find, is_some, All, All-append, dedup-All,
  sort_by, sort_by-All, text_eq_refl,
}
use aiknowledge_sort_mit.Profiles.Schema.{
  EvidenceKind, document_text, ocr_text, transcript, reliable_companion, EvidenceRequirement,
  ClassificationRule, DeclarativeProfile,
}
use aiknowledge_sort_mit.Profiles.Evidence.{
  EvidenceReference, EvidencePacket, EvidenceCitation, ClassificationProposal, RuleMatch,
  evidence_kind_eq, citation_eq, is_approved,
}
use aiknowledge_sort_mit.Profiles.Proposing.{
  Destinations, push_match, group_matches, all_matches, all_citations, citation_le, flat_citations,
  supports, cite, cite_all, match_rules, decide, classify,
}

kind_refl : (kind : EvidenceKind) → evidence_kind_eq kind kind ≡ true
kind_refl document_text = refl
kind_refl ocr_text = refl
kind_refl transcript = refl
kind_refl reliable_companion = refl

module _ (references : List EvidenceReference) where
  -- Some reference has the kind and the location.
  unfoldable pub is_cited : EvidenceCitation → Bool
  unfolding any
  is_cited citation = any (λ r. citation_eq (cite r) citation) references

  abbrev pub Cited : List EvidenceCitation → Type 0
  Cited = All (λ citation. is_cited citation ≡ true)

  abbrev pub AllCited : List RuleMatch → Type 0
  AllCited = All (λ (m : RuleMatch). Cited m.citations)

  abbrev pub GroupsCited : Destinations → Type 0
  GroupsCited = All (λ d. AllCited d.1)

  module _ (to_lowercase : Text → Text) where
    cite_all-Cited :
        (requirements : List EvidenceRequirement) {citations : List EvidenceCitation}
        → cite_all to_lowercase references requirements ≡ some citations
        → Cited citations
    unfolding cite_all is_cited
    cite_all-Cited [] {citations} h = subst Cited {x = []} {y = citations} (ground arith) tt
    cite_all-Cited (requirement ∷ requirements) {citations} h =
        elim (Option-cases (find (supports to_lowercase requirement) references)) [
          | inl absent ↦ absurd (ground arith)
          | inr (r, found) ↦ elim (Option-cases (cite_all to_lowercase references requirements)) [
            | inl absent ↦ absurd (ground arith)
            | inr (rest, others) ↦ subst Cited {x = cite r ∷ rest} {y = citations} (ground arith) (
              any-find (supports to_lowercase requirement) (λ s. citation_eq (cite s) (cite r))
                  references found (ground (arith, kind_refl r.kind, text_eq_refl r.location)),
              cite_all-Cited requirements others,
            )
          ]
        ]

    match_rules-AllCited :
        (rules : List ClassificationRule) → AllCited (match_rules to_lowercase references rules)
    unfolding match_rules
    match_rules-AllCited [] = tt
    match_rules-AllCited (rule ∷ rules) =
        elim (Option-cases (cite_all to_lowercase references rule.all_of)) [
          | inl absent ↦ rw (match_rules, absent) (match_rules-AllCited rules)
          | inr (citations, found) ↦
              rw (match_rules, found) (cite_all-Cited rule.all_of found, match_rules-AllCited rules)
        ]

  push_match-GroupsCited :
      (m : RuleMatch) (done : Destinations)
      → Cited m.citations
      → GroupsCited done
      → GroupsCited (push_match m done)
  unfolding push_match
  push_match-GroupsCited m [] h hs = ((h, tt), tt)
  push_match-GroupsCited m ((key, ms) ∷ rest) h hs =
      elim (Bool-cases (texts_eq key m.destination)) [
        | inl same ↦
            rw (push_match, same)
              (All-append (λ (n : RuleMatch). Cited n.citations) ms (m ∷ []) hs.0 (h, tt), hs.1)
        | inr other ↦ elim (Bool-cases (texts_le m.destination key)) [
          | inl before ↦ rw (push_match, other, before) ((h, tt), (hs.0, hs.1))
          | inr after ↦ rw (push_match, other, after) (hs.0, push_match-GroupsCited m rest h hs.1)
        ]
      ]

  group_matches-GroupsCited :
      (done : Destinations) (ms : List RuleMatch)
      → AllCited ms
      → GroupsCited done
      → GroupsCited (group_matches done ms)
  unfolding group_matches
  group_matches-GroupsCited done [] h hs = hs
  group_matches-GroupsCited done (m ∷ ms) h hs =
      group_matches-GroupsCited (push_match m done) ms h.1 (push_match-GroupsCited m done h.0 hs)

  all_matches-AllCited : (done : Destinations) → GroupsCited done → AllCited (all_matches done)
  all_matches-AllCited [] hs = tt
  all_matches-AllCited ((key, ms) ∷ rest) hs =
      All-append (λ (n : RuleMatch). Cited n.citations) ms (all_matches rest) hs.0
        (all_matches-AllCited rest hs.1)

  flat_citations-Cited : (ms : List RuleMatch) → AllCited ms → Cited (flat_citations ms)
  unfolding flat_citations
  flat_citations-Cited ms h =
      dedup-All (λ citation. is_cited citation ≡ true) citation_eq
        (sort_by citation_le (all_citations ms))
        (sort_by-All citation_le (λ citation. is_cited citation ≡ true) (all_citations ms)
          (from_matches ms h))
    where
      from_matches : (ms : List RuleMatch) → AllCited ms → Cited (all_citations ms)
      from_matches [] h = tt
      from_matches (m ∷ ms) h =
          All-append (λ citation. is_cited citation ≡ true) m.citations (all_citations ms) h.0
            (from_matches ms h.1)

-- What a proposal rests on: the file, the profile, and references of the evidence.
pub record Grounded (profile : DeclarativeProfile) (evidence : EvidencePacket)
    (proposal : ClassificationProposal) : Type 0 where
  pub of_source : proposal.source_identity ≡ evidence.source_identity
  pub of_profile : proposal.profile_id ≡ profile.profile_id
  pub of_version : proposal.profile_version ≡ profile.profile_version
  pub cited : Cited evidence.references proposal.evidence
  pub may_commit :
      (proposal.committable ≡ true)
      ↔ ((is_approved profile.status ≡ true) × (is_some proposal.destination ≡ true))

decide-Grounded :
    (proposal_id : Text) (profile : DeclarativeProfile) (evidence : EvidencePacket)
    (done : Destinations)
    → GroupsCited evidence.references done
    → Grounded profile evidence (decide proposal_id profile evidence.source_identity done)
unfolding decide
decide-Grounded proposal_id profile evidence [] hs = record {
  of_source = refl;
  of_profile = refl;
  of_version = refl;
  cited = flat_citations-Cited evidence.references [] tt;
  may_commit = (λ h. cc, λ h. cc);
}
decide-Grounded proposal_id profile evidence ((d, ms) ∷ []) hs = record {
  of_source = refl;
  of_profile = refl;
  of_version = refl;
  cited = flat_citations-Cited evidence.references ms hs.0;
  may_commit = (λ h. (h, refl), λ h. h.0);
}
decide-Grounded proposal_id profile evidence (d ∷ e ∷ rest) hs = record {
  of_source = refl;
  of_profile = refl;
  of_version = refl;
  cited =
      flat_citations-Cited evidence.references (all_matches (d ∷ e ∷ rest))
        (all_matches-AllCited evidence.references (d ∷ e ∷ rest) hs);
  may_commit = (λ h. cc, λ h. cc);
}

-- A proposal has the identity of the evidence and names the profile, each citation has the kind and
-- the location of a reference of the evidence, and the proposal may be committed exactly when the
-- profile is approved and a destination is proposed.
pub classify-Grounded :
    (to_lowercase : Text → Text) (proposal_id : Text) (profile : DeclarativeProfile)
    (evidence : EvidencePacket) {proposal : ClassificationProposal}
    → classify to_lowercase proposal_id profile evidence ≡ ok proposal
    → Grounded profile evidence proposal
unfolding classify
classify-Grounded to_lowercase proposal_id profile evidence {proposal} h =
    let ms = match_rules to_lowercase evidence.references profile.rules in
    subst (Grounded profile evidence)
      {x = decide proposal_id profile evidence.source_identity (group_matches [] ms)} {y = proposal}
      (ground arith)
      (decide-Grounded proposal_id profile evidence (group_matches [] ms) (
        group_matches-GroupsCited evidence.references [] ms
          (match_rules-AllCited evidence.references to_lowercase profile.rules) tt))
