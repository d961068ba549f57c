-- ===== src/Archive/Plans/Creating.antt =====
-- archive/plan.rs: what a plan that is created binds, and that it can be confirmed.
use aiknowledge_sort_mit.Prelude.{
  ℕ, subst, ◌+◌, ◌<◌, ◌≡◌, refl, true, not, ◌&&◌, Option, some, List, [], ◌∷◌, map, Text, arith,
  inl, inr, Option-cases, Result-cases, Result, ok, length, all, text_eq_refl, text_eq→eq,
  text_eq_sym, member, distinct, sort_by, sort_by-All, distinct-sort_by, length-sort_by, All,
}
use aiknowledge_sort_mit.Prelude.Maps.{Map, get, remove, from_list, get-insert, get-from_list}
use aiknowledge_sort_mit.Prelude.Draws.{unique_id}
use aiknowledge_sort_mit.Prelude.Execs.{continue}
use aiknowledge_sort_mit.Discovery.Proposals.{ReviewedSource}
use aiknowledge_sort_mit.Naming.Schema.{NamingProposal}
use aiknowledge_sort_mit.Naming.Batches.{NamingBatch}
use aiknowledge_sort_mit.Profiles.Evidence.{ClassificationProposal}
use aiknowledge_sort_mit.Profiles.Batches.{ClassificationBatch}
use aiknowledge_sort_mit.Archive.Plans.{
  ArchivePlanItem, ArchivePlan, PlanRegistryLimits, StoredPlan, VaultSummary, PlanError,
  destination_of, valid_plan_id, naming_entries, classifications_of, take_classification,
  without_classification, plan_item, plan_items, plan_item_le, checked_items,
}
use aiknowledge_sort_mit.Archive.Plans.Registry.{
  PlanIo, current_plans, batch_id_of, create_plan_at, consume_plan_at,
}
use aiknowledge_sort_mit.Archive.Plans.Items.{
  PlannedItem, plan_items-Planned, classifications_of-ClassifiedPart,
}
use aiknowledge_sort_mit.Archive.Plans.Consuming.{consume_plan_at_iff}

abbrev pub destinations : List ArchivePlanItem → List Text
destinations = map (λ (item : ArchivePlanItem). item.destination_path)

all_outside :
    (d : Text) (seen xs : List Text)
    → all (λ x. not (member x (d ∷ seen))) xs
      ≡ (not (member d xs) && all (λ x. not (member x seen)) xs)
unfolding all member
all_outside d seen [] = refl
all_outside d seen (x ∷ xs) = ground (arith, all_outside d seen xs, text_eq_sym d x)

plan_items-distinct :
    (batch : NamingBatch) (seen_ids seen_destinations : List Text) (proposals : Map NamingProposal)
    (classifications : Option (Map ClassificationProposal)) (sources : List ReviewedSource)
    {items : List ArchivePlanItem}
    → plan_items batch seen_ids seen_destinations proposals classifications sources ≡ ok items
    → (all (λ x. not (member x seen_destinations)) (destinations items) ≡ true)
      × (distinct (destinations items) ≡ true)
unfolding plan_items all distinct
plan_items-distinct batch seen_ids seen_destinations proposals classifications [] {items} h =
    (ground arith, ground arith)
plan_items-distinct batch seen_ids seen_destinations proposals classifications (source ∷ sources)
      {items} h =
    elim (Option-cases (get source.item_id proposals)) [
      | inl absent ↦ absurd (ground arith)
      | inr (proposal, present) ↦ elim (Option-cases proposal.canonical_name) [
        | inl unnamed ↦ absurd (ground arith)
        | inr (name, has_name) ↦ elim (Result-cases (take_classification classifications source)) [
          | inr (e, failed) ↦ absurd (ground arith)
          | inl (classification, taken) ↦
              let destination = destination_of source.identity.digest name in
              elim (Result-cases (
                plan_items batch (source.item_id ∷ seen_ids) (destination ∷ seen_destinations)
                  (remove source.item_id proposals)
                  (without_classification source.item_id classifications) sources)) [
                    | inr (e, failed) ↦ absurd (ground arith)
                    | inl (rest, others) ↦
                        let (outside, apart) =
                          plan_items-distinct batch (source.item_id ∷ seen_ids)
                            (destination ∷ seen_destinations) (remove source.item_id proposals)
                            (without_classification source.item_id classifications) sources
                            others in
                        subst
                          (λ items.
                            (all (λ x. not (member x seen_destinations)) (destinations items)
                              ≡ true)
                            × (distinct (destinations items) ≡ true))
                          {x = plan_item source proposal name classification ∷ rest} {y = items}
                          (ground arith)
                          (
                            ground (
                              arith,
                              outside,
                              all_outside destination seen_destinations (destinations rest),
                            ),
                            ground (
                              arith,
                              outside,
                              apart,
                              all_outside destination seen_destinations (destinations rest),
                            ),
                          )
                  ]
        ]
      ]
    ]

-- What a plan that was created is, and where it is stored.
pub record CreatedPlan (limits : PlanRegistryLimits) (proposal_id : Text)
    (sources : List ReviewedSource) (classification_batch : Option ClassificationBatch)
    (naming_batch : NamingBatch) (vault : VaultSummary) (now : ℕ) (after : Map StoredPlan)
    (plan : ArchivePlan) : Type 0 where
  pub planned : All (PlannedItem sources naming_batch classification_batch) plan.items
  pub size : length plan.items ≡ length sources
  pub apart : distinct (destinations plan.items) ≡ true
  pub of_batches :
      (plan.proposal_id ≡ proposal_id)
      × (naming_batch.discovery_proposal_id ≡ proposal_id)
      × (plan.naming_batch_id ≡ naming_batch.batch_id)
      × (plan.classification_batch_id ≡ batch_id_of classification_batch)
  pub of_vault : plan.authority_id ≡ vault.authority_id
  pub stored : get plan.plan_id after ≡ some (record { expires_at = now + limits.ttl; plan = plan })

checked_items-Planned :
    (limits : PlanRegistryLimits) (proposal_id : Text) (sources : List ReviewedSource)
    (classification_batch : Option ClassificationBatch) (naming_batch : NamingBatch)
    (vault : VaultSummary) {items : List ArchivePlanItem}
    → checked_items limits proposal_id sources classification_batch naming_batch vault ≡ ok items
    → All (PlannedItem sources naming_batch classification_batch) items
      × (length items ≡ length sources)
      × (distinct (destinations items) ≡ true)
      × (naming_batch.discovery_proposal_id ≡ proposal_id)
unfolding checked_items
checked_items-Planned limits proposal_id sources classification_batch naming_batch vault {items} h =
    elim (Result-cases (classifications_of proposal_id (length sources) classification_batch)) [
      | inr (e, failed) ↦ absurd (ground arith)
      | inl (classifications, mapped) ↦
          let proposals = from_list (naming_entries naming_batch) in
          elim (Result-cases (plan_items naming_batch [] [] proposals classifications sources)) [
            | inr (e, failed) ↦ absurd (ground arith)
            | inl (unsorted, made) ↦
                let P = PlannedItem sources naming_batch classification_batch in
                let (planned, size) =
                  plan_items-Planned sources naming_batch classification_batch [] [] proposals
                    classifications sources made
                    (λ k p e. get-from_list k (naming_entries naming_batch) e)
                    (classifications_of-ClassifiedPart proposal_id (length sources)
                      classification_batch mapped)
                    (λ s e. e) in
                let (outside, apart) =
                  plan_items-distinct naming_batch [] [] proposals classifications sources made in
                (
                  subst (All P) {x = sort_by plan_item_le unsorted} {y = items} (ground arith)
                      (sort_by-All plan_item_le P unsorted planned),
                  ground (arith, size, length-sort_by plan_item_le unsorted),
                  ground (
                    arith,
                    apart,
                    distinct-sort_by plan_item_le (λ item. item.destination_path) unsorted,
                  ),
                  ground (arith, text_eq→eq naming_batch.discovery_proposal_id proposal_id),
                )
          ]
    ]

module _ (limits : PlanRegistryLimits) (io : PlanIo) (proposal_id : Text)
    (sources : List ReviewedSource) (classification_batch : Option ClassificationBatch)
    (naming_batch : NamingBatch) (vault : VaultSummary) (now wall_time : ℕ)
    (m : Map StoredPlan) where
  abbrev created : Result PlanError ArchivePlan × Map StoredPlan
  created =
      create_plan_at limits io proposal_id sources classification_batch naming_batch vault now
        wall_time m

  -- A plan that was created has one item for each reviewed source: each has the path, the size and
  -- the identity of a reviewed source, the name that the naming batch approved for it, a destination
  -- that is made of the two, and, with a classification batch, a fit classification of the same
  -- content. No two destinations are equal, and the plan is stored under its id until its time to
  -- live is over.
  pub create_plan_at-CreatedPlan :
      {plan : ArchivePlan}
      → created.0 ≡ ok plan
      → CreatedPlan limits proposal_id sources classification_batch naming_batch vault now created.1
          plan
  unfolding create_plan_at continue
  create_plan_at-CreatedPlan {plan} h =
      elim (Result-cases
        (checked_items limits proposal_id sources classification_batch naming_batch vault)) [
          | inr (e, failed) ↦ absurd (ground arith)
          | inl (items, checked) ↦
              let (planned, size, apart, same) =
                checked_items-Planned limits proposal_id sources classification_batch naming_batch
                  vault checked in
              record {
                planned =
                    subst (All (PlannedItem sources naming_batch classification_batch)) {x = items}
                      {y = plan.items} (ground arith) planned;
                size = ground (arith, size);
                apart = ground (arith, apart);
                of_batches = (ground arith, same, ground arith, ground arith);
                of_vault = ground arith;
                stored = ground (
                  arith,
                  get-insert (unique_id io.draws (current_plans now m)) plan.plan_id
                      (record { expires_at = now + limits.ttl; plan = plan }) (current_plans now m),
                  text_eq_refl plan.plan_id,
                );
              }
        ]

  -- A plan that was created is confirmed, until its time to live is over, by its id and the nonce
  -- that it shows, when both are of a valid form.
  pub create_plan_at-consume_plan_at :
      (later : ℕ) {plan : ArchivePlan}
      → created.0 ≡ ok plan
      → valid_plan_id plan.plan_id && valid_plan_id plan.confirmation_nonce ≡ true
      → later < now + limits.ttl
      → (consume_plan_at plan.plan_id plan.confirmation_nonce later created.1).0 ≡ ok plan
  create_plan_at-consume_plan_at later {plan} h valid current =
      let c = create_plan_at-CreatedPlan {plan = plan} h in
      (consume_plan_at_iff plan.plan_id plan.confirmation_nonce later created.1 plan).1 (
        valid,
        refl,
        (record { expires_at = now + limits.ttl; plan = plan }, c.stored, current, refl),
      )
