-- ===== src/Profiles/Witnesses.antt =====
-- A profile of two rules, and a reviewed source that one of them matches.
use aiknowledge_sort_mit.Prelude.{
  ◌≡◌, ◌↔◌, ◌&&◌, ◌||◌, not, refl, true, none, some, List, [], ◌∷◌, Text, codes, all, any, find,
  member, distinct, distinct_by, dedup, dedup_after, utf8, utf8_char, byte_len, text_eq, text_le,
  texts_eq, texts_le, contains, all_lower_hex, insert_by, sort_by, ok,
}
use aiknowledge_sort_mit.Prelude.Execs.{continue}
use aiknowledge_sort_mit.Prelude.Maps.{Map, get, insert, remove, retain}
use aiknowledge_sort_mit.Identity.{ContentIdentity, sha256_algorithm, validate_identity}
use aiknowledge_sort_mit.Discovery.Proposals.{ReviewedSource}
use aiknowledge_sort_mit.Naming.Normalize.{
  strip_prefix, decimal, parse_u8, is_windows_reserved, before_first, ends_with_any,
}
use aiknowledge_sort_mit.Naming.Batches.{batch_expiry, same_set}
use aiknowledge_sort_mit.Profiles.Schema.{
  approved, owned, document_text, ClassificationRule, DeclarativeProfile,
  validate_destination_segment, check_segments, check_unique_ids, validate_unique_ids,
}
use aiknowledge_sort_mit.Profiles.Taxonomy.{
  check_governance, check_aliases, last_is, check_category, categories_by_id, without_last,
  check_parent, check_parents, validate_taxonomy, check_terms, check_rules, check_evidence_texts,
  validate_profile,
}
use aiknowledge_sort_mit.Profiles.Evidence.{
  EvidencePacket, EvidenceReference, ClassificationProposal, destination_proposed, check_references,
  validate_evidence,
}
use aiknowledge_sort_mit.Profiles.Proposing.{
  flat_rule_ids, flat_citations, push_match, group_matches, cite_all, match_rules, decide, classify,
}
use aiknowledge_sort_mit.Profiles.Proposing.Grounds.{Grounded, classify-Grounded}
use aiknowledge_sort_mit.Profiles.Proposing.Decisions.{rule_supported, classify-destination_iff}
use aiknowledge_sort_mit.Profiles.Batches.{
  ClassificationItemInput, ClassificationBatch, StoredClassification, ClassificationIo,
  default_classification_ttl, reviewed_by_id, classify_all, classify_selection,
}
use aiknowledge_sort_mit.Profiles.Batches.Registry.{
  new_classification, store_batch, create_classification_at, consume_classification_at,
}
use aiknowledge_sort_mit.Profiles.Batches.Creating.{
  CreatedClassification, create_classification_at-Created,
}

-- All that classification computes with.
evaluates : Unit {0}
unfolding all any find member distinct distinct_by dedup dedup_after utf8 utf8_char byte_len text_eq
    text_le texts_eq texts_le contains all_lower_hex insert_by sort_by continue get insert remove
    retain validate_identity strip_prefix decimal parse_u8 is_windows_reserved before_first
    ends_with_any batch_expiry same_set validate_destination_segment check_segments check_unique_ids
    validate_unique_ids check_governance check_aliases last_is check_category categories_by_id
    without_last check_parent check_parents validate_taxonomy check_terms check_rules
    check_evidence_texts validate_profile check_references validate_evidence flat_rule_ids
    flat_citations push_match group_matches cite_all match_rules decide classify rule_supported
    reviewed_by_id classify_all classify_selection store_batch create_classification_at
    consume_classification_at
evaluates = tt

abbrev rule : Text → Text → Text → ClassificationRule
rule rule_id term folder = record {
  rule_id = rule_id;
  destination = codes "01-Research" ∷ folder ∷ [];
  all_of = record { kind = document_text; term = term } ∷ [];
}

abbrev profile : DeclarativeProfile
profile = record {
  schema_version = 1;
  profile_id = codes "fixture";
  profile_version = codes "1.0.0";
  title = codes "Fixture profile";
  status = approved;
  provenance = record {
    source_title = codes "Owned fixture";
    ownership = owned;
    evidence = codes "authorization:test" ∷ [];
  };
  categories = [];
  governance = none;
  rules =
      rule (codes "fixture.report") (codes "report") (codes "Reports")
      ∷ rule (codes "fixture.invoice") (codes "invoice") (codes "Invoices")
      ∷ [];
}

abbrev identity : ContentIdentity
identity = record {
  algorithm = sha256_algorithm;
  digest = codes "0123456789abcdef0123456789abcdef0123456789abcdef0123456789abcdef";
}

abbrev references : List EvidenceReference
references =
    record { kind = document_text; location = codes "page:3"; text = codes "quarterly report" } ∷ []

abbrev evidence : EvidencePacket
evidence = record { source_identity = identity; references = references }

abbrev reports : List Text
reports = codes "01-Research" ∷ codes "Reports" ∷ []

abbrev proposal : ClassificationProposal
proposal = record {
  proposal_id = codes "c1";
  source_identity = identity;
  profile_id = codes "fixture";
  profile_version = codes "1.0.0";
  status = destination_proposed;
  rule_ids = codes "fixture.report" ∷ [];
  semantic_decision_id = none;
  evidence = record { kind = document_text; location = codes "page:3" } ∷ [];
  destination = some reports;
  review_reason = none;
  committable = true;
}

classifies : classify (λ t. t) (codes "c1") profile evidence ≡ ok proposal
unfolding evaluates
classifies = refl

classify-Grounded_example : Grounded profile evidence proposal
classify-Grounded_example = classify-Grounded (λ t. t) (codes "c1") profile evidence classifies

classify-destination_iff_example : (proposal.destination ≡ some reports) ↔ (
    (any
        (λ rule. rule_supported (λ t. t) references rule && texts_eq rule.destination reports)
        profile.rules
      ≡ true)
    × (all
          (λ rule.
            not (rule_supported (λ t. t) references rule) || texts_eq rule.destination reports)
          profile.rules
        ≡ true))
classify-destination_iff_example =
    classify-destination_iff (λ t. t) (codes "c1") profile evidence reports {proposal = proposal}
      classifies

abbrev io : ClassificationIo
io = record {
  to_lowercase = λ t. t;
  unix_epoch = 0;
  draws = λ n. codes "c1";
  batch_id = codes "batch";
}

abbrev sources : List ReviewedSource
sources =
    record {
      item_id = codes "item1";
      path = codes "/docs/report.pdf";
      name = codes "report.pdf";
      byte_size = 12;
      identity = identity;
    }
    ∷ []

abbrev inputs : List ClassificationItemInput
inputs =
    record { item_id = codes "item1"; references = references; semantic_comparison_id = none } ∷ []

abbrev batch : ClassificationBatch
batch =
    new_classification (codes "batch") (codes "d1") profile 300_000
      (record { item_id = codes "item1"; proposal = proposal } ∷ [])

creates :
    (create_classification_at default_classification_ttl io
      (codes "d1")
      profile
      sources
      inputs
      0
      0
      []).0
    ≡ ok batch
unfolding evaluates
creates = refl

abbrev after : Map StoredClassification
after =
    (create_classification_at default_classification_ttl io (codes "d1") profile sources inputs 0 0
      []).1

create_classification_at-Created_example :
    CreatedClassification default_classification_ttl io
      (codes "d1")
      profile
      sources
      inputs
      0
      after
      batch
create_classification_at-Created_example =
    create_classification_at-Created default_classification_ttl io (codes "d1") profile sources
      inputs 0 0 [] {batch = batch} creates
