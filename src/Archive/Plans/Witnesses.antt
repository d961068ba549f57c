-- ===== src/Archive/Plans/Witnesses.antt =====
-- A plan of one item, with its classification.
use aiknowledge_sort_mit.Prelude.{
  ℕ, ◌<◌, ◌≡◌, refl, true, false, none, some, [], ◌∷◌, Text, codes, arith, all, any, member, utf8,
  utf8_char, byte_len, text_eq, text_le, all_lower_hex, insert_by, sort_by, ok, err, All, is_ok,
}
use aiknowledge_sort_mit.Prelude.Draws.{draw_from, unique_id}
use aiknowledge_sort_mit.Prelude.Execs.{continue}
use aiknowledge_sort_mit.Prelude.Maps.{Map, get, insert, remove, retain, from_list}
use aiknowledge_sort_mit.Prelude.Paths.{segments, later_components, components}
use aiknowledge_sort_mit.Identity.{ContentIdentity, sha256_algorithm, validate_identity}
use aiknowledge_sort_mit.Discovery.Proposals.{ReviewedSource}
use aiknowledge_sort_mit.Naming.Schema.{NamingStatus, NamingProposal}
use aiknowledge_sort_mit.Naming.Normalize.{
  strip_prefix, decimal, parse_u8, is_windows_reserved, before_first, ends_with_any,
}
use aiknowledge_sort_mit.Naming.Batches.{NamingBatch, batch_expiry}
use aiknowledge_sort_mit.Profiles.Schema.{document_text}
use aiknowledge_sort_mit.Profiles.Evidence.{ClassificationProposal, destination_proposed}
use aiknowledge_sort_mit.Profiles.Batches.{ClassificationBatch}
use aiknowledge_sort_mit.Archive.Plans.{
  ArchivePlan, StoredPlan, VaultSummary, authoritative, PlanError, default_plan_limits,
  validate_plan_name, classifications_of, take_classification, plan_item, plan_items, checked_items,
}
use aiknowledge_sort_mit.Archive.Plans.Registry.{PlanIo, new_plan, create_plan_at, consume_plan_at}
use aiknowledge_sort_mit.Archive.Plans.Creating.{
  CreatedPlan, create_plan_at-CreatedPlan, create_plan_at-consume_plan_at,
}
use aiknowledge_sort_mit.Archive.Plans.Consuming.{Later, consume_plan_at-once}
use aiknowledge_sort_mit.Archive.Plans.Layout.{InLayout, create_plan_at-InLayout}

-- All that planning computes with.
evaluates : Unit {0}
unfolding all any member utf8 utf8_char byte_len text_eq text_le all_lower_hex insert_by sort_by
    draw_from unique_id continue get insert remove retain from_list segments later_components
    components validate_identity strip_prefix decimal parse_u8 is_windows_reserved before_first
    ends_with_any batch_expiry validate_plan_name classifications_of take_classification plan_items
    checked_items create_plan_at consume_plan_at
evaluates = tt

abbrev identity : ContentIdentity
identity = record {
  algorithm = sha256_algorithm;
  digest = codes "0123456789abcdef0123456789abcdef0123456789abcdef0123456789abcdef";
}

abbrev source : ReviewedSource
source = record {
  item_id = codes "item1";
  path = codes "/docs/report.pdf";
  name = codes "report.pdf";
  byte_size = 12;
  identity = identity;
}

abbrev naming_proposal : NamingProposal
naming_proposal = record {
  proposal_id = codes "n1";
  item_id = codes "item1";
  original_name = codes "report.pdf";
  canonical_name = some (codes "Report-2024.pdf");
  identity = identity;
  policy_id = codes "canonical-v1";
  policy_version = codes "1.0.0";
  applied_rule = codes "ordered-cited-facts-v1";
  status = NamingStatus.proposed;
  review_reason = none;
  facts = [];
}

abbrev naming_batch : NamingBatch
naming_batch = record {
  batch_id = codes "nb";
  discovery_proposal_id = codes "d1";
  policy_id = codes "canonical-v1";
  policy_version = codes "1.0.0";
  expires_at_unix_ms = 1000;
  proposals = naming_proposal ∷ [];
}

abbrev classification : ClassificationProposal
classification = record {
  proposal_id = codes "c1";
  source_identity = identity;
  profile_id = codes "fixture";
  profile_version = codes "1.0.0";
  status = destination_proposed;
  rule_ids = codes "fixture.report" ∷ [];
  semantic_decision_id = none;
  evidence = record { kind = document_text; location = codes "page:3" } ∷ [];
  destination = some (codes "01-Research" ∷ []);
  review_reason = none;
  committable = true;
}

abbrev classification_batch : ClassificationBatch
classification_batch = record {
  batch_id = codes "cb";
  discovery_proposal_id = codes "d1";
  profile_id = codes "fixture";
  profile_version = codes "1.0.0";
  expires_at_unix_ms = 1000;
  items = record { item_id = codes "item1"; proposal = classification } ∷ [];
}

abbrev vault : VaultSummary
vault = record { authority_id = codes "v1"; display_path = codes "/vault"; status = authoritative }

abbrev io : PlanIo
io = record { unix_epoch = 0; draws = λ n. codes "p1"; nonce = codes "nonce" }

abbrev plan : ArchivePlan
plan =
    new_plan io (codes "p1") (codes "d1") (some classification_batch) naming_batch vault 300_000
      (plan_item source naming_proposal (codes "Report-2024.pdf") (some classification) ∷ [])

plans :
    (create_plan_at default_plan_limits io
      (codes "d1")
      (source ∷ [])
      (some classification_batch)
      naming_batch
      vault
      0
      0
      []).0
    ≡ ok plan
unfolding evaluates
plans = refl

abbrev after : Map StoredPlan
after =
    (create_plan_at default_plan_limits io (codes "d1") (source ∷ []) (some classification_batch)
      naming_batch vault 0 0 []).1

create_plan_at-CreatedPlan_example :
    CreatedPlan default_plan_limits
      (codes "d1")
      (source ∷ [])
      (some classification_batch)
      naming_batch
      vault
      0
      after
      plan
create_plan_at-CreatedPlan_example =
    create_plan_at-CreatedPlan default_plan_limits io (codes "d1") (source ∷ [])
      (some classification_batch) naming_batch vault 0 0 [] {plan = plan} plans

create_plan_at-InLayout_example : All InLayout plan.items
create_plan_at-InLayout_example =
    create_plan_at-InLayout default_plan_limits io (codes "d1") (source ∷ [])
      (some classification_batch) naming_batch vault 0 0 [] {plan = plan} plans

create_plan_at-consume_plan_at_example :
    (consume_plan_at (codes "p1") (codes "nonce") 9 after).0 ≡ ok plan
unfolding evaluates
create_plan_at-consume_plan_at_example =
    create_plan_at-consume_plan_at default_plan_limits io (codes "d1") (source ∷ [])
      (some classification_batch) naming_batch vault 0 0 [] 9 {plan = plan} plans refl (omega arith)

consume_plan_at-once_example :
    ((p : ArchivePlan)
      → (consume_plan_at (codes "p1") (codes "nonce") 9 after).0 ≡ ok p
      → (end : Map StoredPlan)
      → Later (codes "p1") end (consume_plan_at (codes "p1") (codes "nonce") 9 after).1
      → (other_nonce : Text) (later : ℕ)
      → is_ok (consume_plan_at (codes "p1") other_nonce later end).0 ≡ false)
    × ((e : PlanError)
        → (consume_plan_at (codes "p1") (codes "nonce") 9 after).0 ≡ err e
        → (j : Text) (stored : StoredPlan) → get j after ≡ some stored
        → 9 < stored.expires_at
        → get j (consume_plan_at (codes "p1") (codes "nonce") 9 after).1 ≡ some stored)
consume_plan_at-once_example = consume_plan_at-once (codes "p1") (codes "nonce") 9 after
