-- ===== src/Archive/Plans/Items.antt =====
-- archive/plan.rs: what each item of a plan is bound to.
use aiknowledge_sort_mit.Prelude.{
  ℕ, suc, subst, ◌≡◌, refl, true, Option, none, some, List, [], ◌∷◌, Text, arith, inl, inr,
  Option-cases, Result-cases, ok, length, All, Mem,
}
use aiknowledge_sort_mit.Prelude.Maps.{
  Map, get, remove, from_list, get-remove, get-from_list, any-get,
}
use aiknowledge_sort_mit.Identity.{validate_identity, identity_eq→eq}
use aiknowledge_sort_mit.Discovery.Proposals.{ReviewedSource}
use aiknowledge_sort_mit.Naming.Schema.{NamingProposal}
use aiknowledge_sort_mit.Naming.Batches.{NamingBatch}
use aiknowledge_sort_mit.Profiles.Evidence.{ClassificationProposal}
use aiknowledge_sort_mit.Profiles.Batches.{ClassificationBatch}
use aiknowledge_sort_mit.Archive.Plans.{
  ArchivePlanItem, destination_of, is_fit, naming_entries, classification_entries, is_approved_for,
  classifications_of, take_classification, without_classification, plan_item, plan_items,
  validate_plan_name,
}

-- The classification of an item: none without a batch; otherwise a fit proposal of the batch for the
-- item, for the same content.
abbrev pub ClassifiedBy : Option ClassificationBatch → ArchivePlanItem → Type 0
ClassifiedBy none item = item.classification ≡ none
ClassifiedBy (some batch) item =
    (proposal : ClassificationProposal) × (item.classification ≡ some proposal)
    × Mem (item.item_id, proposal) (classification_entries batch)
    × (is_fit batch proposal ≡ true)
    × (proposal.source_identity ≡ item.identity)

-- An item of a plan: the file that was reviewed, under the name that was approved for it.
pub record PlannedItem (sources : List ReviewedSource) (naming_batch : NamingBatch)
    (classification_batch : Option ClassificationBatch) (item : ArchivePlanItem) : Type 0 where
  pub source : ReviewedSource
  pub proposal : NamingProposal
  pub reviewed : Mem source sources
  pub same_source :
      (source.item_id ≡ item.item_id)
      × (source.path ≡ item.source_path)
      × (source.name ≡ item.original_name)
      × (source.byte_size ≡ item.byte_size)
      × (source.identity ≡ item.identity)
  pub proposed : Mem (item.item_id, proposal) (naming_entries naming_batch)
  pub approved : is_approved_for naming_batch source proposal ≡ true
  pub named : proposal.canonical_name ≡ some item.canonical_name
  pub name_valid : validate_plan_name item.canonical_name ≡ ok tt
  pub identity_valid : validate_identity item.identity ≡ ok tt
  pub destination : item.destination_path ≡ destination_of item.identity.digest item.canonical_name
  pub classified : ClassifiedBy classification_batch item

-- The map of classifications has only what the batch has.
abbrev pub ClassifiedPart :
    Option ClassificationBatch → Option (Map ClassificationProposal) → Type 0
ClassifiedPart none none = Unit {0}
ClassifiedPart none (some m) = ⊥
ClassifiedPart (some batch) none = ⊥
ClassifiedPart (some batch) (some m) =
    (k : Text) (proposal : ClassificationProposal)
    → get k m ≡ some proposal
    → Mem (k, proposal) (classification_entries batch) × (is_fit batch proposal ≡ true)

ClassifiedPart-remove :
    (batch : Option ClassificationBatch) (m : Option (Map ClassificationProposal)) (k : Text)
    → ClassifiedPart batch m
    → ClassifiedPart batch (without_classification k m)
ClassifiedPart-remove none none k h = tt
ClassifiedPart-remove none (some m) k h = h
ClassifiedPart-remove (some batch) none k h = h
ClassifiedPart-remove (some batch) (some m) k h =
    λ j proposal e. h j proposal (ground (arith, get-remove k j m))

take_classification-ClassifiedBy :
    (batch : Option ClassificationBatch) (m : Option (Map ClassificationProposal))
    (source : ReviewedSource) (proposal : NamingProposal) (canonical_name : Text)
    {classification : Option ClassificationProposal}
    → ClassifiedPart batch m
    → take_classification m source ≡ ok classification
    → ClassifiedBy batch (plan_item source proposal canonical_name classification)
unfolding take_classification
take_classification-ClassifiedBy none none source proposal canonical_name part h = ground arith
take_classification-ClassifiedBy none (some m) source proposal canonical_name part h = absurd part
take_classification-ClassifiedBy (some batch) none source proposal canonical_name part h =
    absurd part
take_classification-ClassifiedBy (some batch) (some m) source proposal canonical_name part h =
    elim (Option-cases (get source.item_id m)) [
      | inl absent ↦ absurd (ground arith)
      | inr (found, present) ↦
          let (listed, fit) = part source.item_id found present in
          (
            found,
            ground arith,
            listed,
            fit,
            ground (arith, identity_eq→eq found.source_identity source.identity),
          )
    ]

pub classifications_of-ClassifiedPart :
    (proposal_id : Text) (count : ℕ) (batch : Option ClassificationBatch)
    {m : Option (Map ClassificationProposal)}
    → classifications_of proposal_id count batch ≡ ok m
    → ClassifiedPart batch m
unfolding classifications_of
classifications_of-ClassifiedPart proposal_id count none {m} h =
    subst (ClassifiedPart none) {x = none} {y = m} (ground arith) tt
classifications_of-ClassifiedPart proposal_id count (some batch) {m} h =
    let proposals = from_list (classification_entries batch) in
    subst (ClassifiedPart (some batch)) {x = some proposals} {y = m} (ground arith) (λ k proposal e.
      (
        get-from_list k (classification_entries batch) e,
        any-get (is_fit batch) k proposals (ground arith) e,
      ))

module _ (all_sources : List ReviewedSource) (naming_batch : NamingBatch)
    (classification_batch : Option ClassificationBatch) where
  abbrev Planned : List ArchivePlanItem → Type 0
  Planned = All (PlannedItem all_sources naming_batch classification_batch)

  pub plan_items-Planned :
      (seen_ids seen_destinations : List Text) (proposals : Map NamingProposal)
      (classifications : Option (Map ClassificationProposal)) (sources : List ReviewedSource)
      {items : List ArchivePlanItem}
      → plan_items naming_batch seen_ids seen_destinations proposals classifications sources
        ≡ ok items
      → ((k : Text) (p : NamingProposal)
          → get k proposals ≡ some p
          → Mem (k, p) (naming_entries naming_batch))
      → ClassifiedPart classification_batch classifications
      → ((s : ReviewedSource) → Mem s sources → Mem s all_sources)
      → Planned items × (length items ≡ length sources)
  unfolding plan_items
  plan_items-Planned seen_ids seen_destinations proposals classifications [] {items} h named part
        given =
      subst (λ items. Planned items × (length items ≡ 0)) {x = []} {y = items} (ground arith)
        (tt, refl)
  plan_items-Planned seen_ids seen_destinations proposals classifications (source ∷ sources) {items}
        h named part given =
      elim (Option-cases (get source.item_id proposals)) [
        | inl absent ↦ absurd (ground arith)
        | inr (proposal, present) ↦ elim (Option-cases proposal.canonical_name) [
          | inl unnamed ↦ absurd (ground arith)
          | inr (name, has_name) ↦
              elim (Result-cases (take_classification classifications source)) [
                | inr (e, failed) ↦ absurd (ground arith)
                | inl (classification, taken) ↦
                    elim (Result-cases (
                      plan_items naming_batch (source.item_id ∷ seen_ids)
                        (destination_of source.identity.digest name ∷ seen_destinations)
                        (remove source.item_id proposals)
                        (without_classification source.item_id classifications) sources)) [
                          | inr (e, failed) ↦ absurd (ground arith)
                          | inl (rest, others) ↦
                              let (planned, size) =
                                plan_items-Planned (source.item_id ∷ seen_ids)
                                  (destination_of source.identity.digest name ∷ seen_destinations)
                                  (remove source.item_id proposals)
                                  (without_classification source.item_id classifications) sources
                                  others
                                  (λ k p e.
                                    named k p
                                      (ground (arith, get-remove source.item_id k proposals)))
                                  (ClassifiedPart-remove classification_batch classifications
                                    source.item_id part)
                                  (λ s e. given s (inr e)) in
                              subst (λ items. Planned items × (length items ≡ suc (length sources)))
                                {x = plan_item source proposal name classification ∷ rest}
                                {y = items} (ground arith)
                                (
                                  (
                                    record {
                                      source = source;
                                      proposal = proposal;
                                      reviewed = given source (inl refl);
                                      same_source = (refl, refl, refl, refl, refl);
                                      proposed = named source.item_id proposal present;
                                      approved = ground arith;
                                      named = has_name;
                                      name_valid = ground arith;
                                      identity_valid = ground arith;
                                      destination = refl;
                                      classified =
                                          take_classification-ClassifiedBy classification_batch
                                            classifications source proposal name part taken;
                                    },
                                    planned,
                                  ),
                                  omega (arith, size),
                                )
                        ]
              ]
        ]
      ]
