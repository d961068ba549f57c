-- ===== src/Profiles/Proposing/Decisions.antt =====
-- profiles/proposal.rs: which destination `classify` proposes, against a description of the rules
-- alone.
use aiknowledge_sort_mit.Prelude.{
  ◌≡◌, ◌↔◌, refl, Bool, true, not, ◌&&◌, ◌||◌, some, List, [], ◌∷◌, ◌++◌, Text, arith, ok, any, all,
  is_some, is_some-find, texts_eq, texts_eq→eq, texts_eq_refl,
}
use aiknowledge_sort_mit.Profiles.Schema.{
  EvidenceRequirement, ClassificationRule, DeclarativeProfile,
}
use aiknowledge_sort_mit.Profiles.Evidence.{
  EvidenceReference, EvidencePacket, ClassificationProposal, RuleMatch,
}
use aiknowledge_sort_mit.Profiles.Proposing.{
  Destinations, push_match, group_matches, supports, cite_all, match_rules, decide, classify,
}

module _ (to_lowercase : Text → Text) (references : List EvidenceReference) where
  -- Every requirement of the rule has a reference that supports it.
  unfoldable pub rule_supported : ClassificationRule → Bool
  unfolding all any
  rule_supported rule =
      all (λ requirement. any (supports to_lowercase requirement) references) rule.all_of

  is_some-cite_all :
      (requirements : List EvidenceRequirement)
      → is_some (cite_all to_lowercase references requirements)
        ≡ all (λ requirement. any (supports to_lowercase requirement) references) requirements
  unfolding cite_all all
  is_some-cite_all [] = refl
  is_some-cite_all (requirement ∷ requirements) = ground (
    arith,
    is_some-cite_all requirements,
    is_some-find (supports to_lowercase requirement) references,
  )

  module _ (q : List Text → Bool) where
    any-match_rules :
        (rules : List ClassificationRule)
        → any (λ m. q m.destination) (match_rules to_lowercase references rules)
          ≡ any (λ rule. rule_supported rule && q rule.destination) rules
    unfolding match_rules any rule_supported
    any-match_rules [] = refl
    any-match_rules (rule ∷ rules) =
        ground (arith, any-match_rules rules, is_some-cite_all rule.all_of)

    all-match_rules :
        (rules : List ClassificationRule)
        → all (λ m. q m.destination) (match_rules to_lowercase references rules)
          ≡ all (λ rule. not (rule_supported rule) || q rule.destination) rules
    unfolding match_rules all rule_supported
    all-match_rules [] = refl
    all-match_rules (rule ∷ rules) =
        ground (arith, all-match_rules rules, is_some-cite_all rule.all_of)

any-push_match :
    (q : List Text → Bool) (m : RuleMatch) (done : Destinations)
    → any (λ d. q d.0) (push_match m done) ≡ (q m.destination || any (λ d. q d.0) done)
unfolding push_match any
any-push_match q m [] = ground arith
any-push_match q m ((key, ms) ∷ rest) =
    ground (arith, any-push_match q m rest, texts_eq→eq key m.destination)

all-push_match :
    (q : List Text → Bool) (m : RuleMatch) (done : Destinations)
    → all (λ d. q d.0) (push_match m done) ≡ (q m.destination && all (λ d. q d.0) done)
unfolding push_match all
all-push_match q m [] = ground arith
all-push_match q m ((key, ms) ∷ rest) =
    ground (arith, all-push_match q m rest, texts_eq→eq key m.destination)

any-group_matches :
    (q : List Text → Bool) (done : Destinations) (ms : List RuleMatch)
    → any (λ d. q d.0) (group_matches done ms)
      ≡ (any (λ m. q m.destination) ms || any (λ d. q d.0) done)
unfolding group_matches any
any-group_matches q done [] = refl
any-group_matches q done (m ∷ ms) =
    ground (arith, any-group_matches q (push_match m done) ms, any-push_match q m done)

all-group_matches :
    (q : List Text → Bool) (done : Destinations) (ms : List RuleMatch)
    → all (λ d. q d.0) (group_matches done ms)
      ≡ (all (λ m. q m.destination) ms && all (λ d. q d.0) done)
unfolding group_matches all
all-group_matches q done [] = refl
all-group_matches q done (m ∷ ms) =
    ground (arith, all-group_matches q (push_match m done) ms, all-push_match q m done)

-- Matches of one destination are one group.
one-group :
    (d : List Text) (ns ms : List RuleMatch)
    → all (λ m. texts_eq m.destination d) ms ≡ true
    → (ns' : List RuleMatch) × (group_matches ((d, ns) ∷ []) ms ≡ (d, ns') ∷ [])
unfolding group_matches push_match all
one-group d ns [] h = (ns, refl)
one-group d ns (m ∷ ms) h =
    let (ns', made) = one-group d (ns ++ m ∷ []) ms (ground arith) in
    (ns', ground (arith, made, texts_eq→eq m.destination d, texts_eq_refl d))

decide-group :
    (proposal_id : Text) (profile : DeclarativeProfile) (evidence : EvidencePacket) (d : List Text)
    (ms : List RuleMatch)
    → any (λ m. texts_eq m.destination d) ms ≡ true
    → all (λ m. texts_eq m.destination d) ms ≡ true
    → (decide proposal_id profile evidence.source_identity (group_matches [] ms)).destination
      ≡ some d
unfolding group_matches push_match all any decide
decide-group proposal_id profile evidence d [] some_match same = absurd (ground arith)
decide-group proposal_id profile evidence d (m ∷ ms) some_match same =
    let (ns, made) = one-group d (m ∷ []) ms (ground arith) in
    ground (arith, made, texts_eq→eq m.destination d)

group-decide :
    (proposal_id : Text) (profile : DeclarativeProfile) (evidence : EvidencePacket) (d : List Text)
    (done : Destinations)
    → (decide proposal_id profile evidence.source_identity done).destination ≡ some d
    → (any (λ g. texts_eq g.0 d) done ≡ true) × (all (λ g. texts_eq g.0 d) done ≡ true)
unfolding all any decide
group-decide proposal_id profile evidence d [] h = absurd (ground arith)
group-decide proposal_id profile evidence d ((e, ms) ∷ []) h =
    (ground (arith, texts_eq_refl d), ground (arith, texts_eq_refl d))
group-decide proposal_id profile evidence d (e ∷ f ∷ rest) h = absurd (ground arith)

-- A destination is proposed exactly when some rule that the evidence supports leads there, and every
-- rule that it supports does.
pub classify-destination_iff :
    (to_lowercase : Text → Text) (proposal_id : Text) (profile : DeclarativeProfile)
    (evidence : EvidencePacket) (d : List Text) {proposal : ClassificationProposal}
    → classify to_lowercase proposal_id profile evidence ≡ ok proposal
    → (proposal.destination ≡ some d) ↔ (
        (any
            (λ rule.
              rule_supported to_lowercase evidence.references rule && texts_eq rule.destination d)
            profile.rules
          ≡ true)
        × (all
              (λ rule.
                not (rule_supported to_lowercase evidence.references rule)
                || texts_eq rule.destination d)
              profile.rules
            ≡ true))
unfolding classify any all
classify-destination_iff to_lowercase proposal_id profile evidence d {proposal} h =
    let ms = match_rules to_lowercase evidence.references profile.rules in
    let some_match =
      any-match_rules to_lowercase evidence.references (λ e. texts_eq e d) profile.rules in
    let every_match =
      all-match_rules to_lowercase evidence.references (λ e. texts_eq e d) profile.rules in
    (
      λ e.
          let (hit, same) =
            group-decide proposal_id profile evidence d (group_matches [] ms) (ground arith) in
          (
            ground (arith, hit, some_match, any-group_matches (λ e. texts_eq e d) [] ms),
            ground (arith, same, every_match, all-group_matches (λ e. texts_eq e d) [] ms),
          ),
      λ e. ground (
        arith,
        decide-group proposal_id profile evidence d ms (ground (arith, e.0, some_match))
            (ground (arith, e.1, every_match)),
      ),
    )
