-- ===== src/Profiles/Batches/Creating.antt =====
-- profiles/classification.rs: what a batch of classifications binds, and when it is consumed.
use aiknowledge_sort_mit.Prelude.{
  ℕ, suc, subst, ◌+◌, ◌<◌, ◌≡◌, ◌↔◌, refl, true, not, ◌&&◌, none, some, List, [], ◌∷◌, Text, arith,
  inl, inr, Option-cases, Result-cases, ok, distinct, is_empty, ltb, text_eq, text_eq_refl, sort_by,
  sort_by-All, All, Mem,
}
use aiknowledge_sort_mit.Prelude.Maps.{Map, get, remove, get-remove, get-insert, get-retain}
use aiknowledge_sort_mit.Prelude.Execs.{continue}
use aiknowledge_sort_mit.Discovery.Proposals.{ReviewedSource}
use aiknowledge_sort_mit.Naming.Batches.{same_set}
use aiknowledge_sort_mit.Profiles.Schema.{DeclarativeProfile}
use aiknowledge_sort_mit.Profiles.Evidence.{EvidencePacket, is_approved}
use aiknowledge_sort_mit.Profiles.Proposing.{classify}
use aiknowledge_sort_mit.Profiles.Proposing.Grounds.{Grounded, classify-Grounded}
use aiknowledge_sort_mit.Profiles.Batches.{
  ClassificationItemInput, ClassificationBatchItem, ClassificationBatch, StoredClassification,
  ClassificationIo, reviewed_by_id, valid_classification_id, classify_all, classify_selection,
  item_le,
}
use aiknowledge_sort_mit.Profiles.Batches.Registry.{
  current_classifications, item_ids_of, store_batch, create_classification_at,
  consume_classification_at,
}

-- An item of a batch: its proposal is grounded in the identity of the reviewed source with its id,
-- and in the references of the input with its id.
pub record Classified (profile : DeclarativeProfile) (by_id : Map ReviewedSource)
    (inputs : List ClassificationItemInput) (item : ClassificationBatchItem) : Type 0 where
  pub source : ReviewedSource
  pub input : ClassificationItemInput
  pub found : get item.item_id by_id ≡ some source
  pub given : Mem input inputs
  pub same_id : input.item_id ≡ item.item_id
  pub grounded :
      Grounded profile
        (record { source_identity = source.identity; references = input.references })
        item.proposal

-- Every source of the first map is in the second.
abbrev PartOf : Map ReviewedSource → Map ReviewedSource → Type 0
PartOf sources by_id =
    (k : Text) (source : ReviewedSource) → get k sources ≡ some source → get k by_id ≡ some source

classify_all-Classified :
    (io : ClassificationIo) (profile : DeclarativeProfile) (n : ℕ)
    (by_id sources : Map ReviewedSource) (all_inputs inputs : List ClassificationItemInput)
    {items : List ClassificationBatchItem}
    → classify_all io profile n sources inputs ≡ ok items
    → PartOf sources by_id
    → ((i : ClassificationItemInput) → Mem i inputs → Mem i all_inputs)
    → All (Classified profile by_id all_inputs) items
unfolding classify_all
classify_all-Classified io profile n by_id sources all_inputs [] {items} h part given =
    subst (All (Classified profile by_id all_inputs)) {x = []} {y = items} (ground arith) tt
classify_all-Classified io profile n by_id sources all_inputs (input ∷ inputs) {items} h part
      given =
    elim (Option-cases (get input.item_id sources)) [
      | inl absent ↦ absurd (ground arith)
      | inr (source, present) ↦
          let evidence : EvidencePacket = record {
            source_identity = source.identity;
            references = input.references;
          } in
          elim (Result-cases (classify io.to_lowercase (io.draws n) profile evidence)) [
            | inr (e, failed) ↦ absurd (ground arith)
            | inl (proposal, made) ↦
                elim (Result-cases
                  (classify_all io profile (suc n) (remove input.item_id sources) inputs)) [
                    | inr (e, failed) ↦ absurd (ground arith)
                    | inl (rest, others) ↦
                        let item : ClassificationBatchItem = record {
                          item_id = input.item_id;
                          proposal = proposal;
                        } in
                        subst (All (Classified profile by_id all_inputs)) {x = item ∷ rest}
                          {y = items} (ground arith)
                          (
                            record {
                              source = source;
                              input = input;
                              found = part input.item_id source present;
                              given = given input (inl refl);
                              same_id = refl;
                              grounded =
                                  classify-Grounded io.to_lowercase (io.draws n) profile evidence
                                    made;
                            },
                            classify_all-Classified io profile (suc n) by_id
                                (remove input.item_id sources) all_inputs inputs others
                                (λ k s e.
                                  part k s (ground (arith, get-remove input.item_id k sources)))
                                (λ i e. given i (inr e)),
                          )
                  ]
          ]
    ]

classify_selection-Classified :
    (io : ClassificationIo) (discovery_id : Text) (profile : DeclarativeProfile)
    (sources : List ReviewedSource) (inputs : List ClassificationItemInput)
    {items : List ClassificationBatchItem}
    → classify_selection io discovery_id profile sources inputs ≡ ok items
    → (by_id : Map ReviewedSource) × (reviewed_by_id [] sources ≡ ok by_id)
      × (is_approved profile.status ≡ true)
      × All (Classified profile by_id inputs) items
unfolding classify_selection
classify_selection-Classified io discovery_id profile sources inputs {items} h =
    elim (Result-cases (reviewed_by_id [] sources)) [
      | inr (e, failed) ↦ absurd (ground arith)
      | inl (by_id, mapped) ↦ elim (Result-cases (classify_all io profile 0 by_id inputs)) [
        | inr (e, failed) ↦ absurd (ground arith)
        | inl (unsorted, made) ↦ (
          by_id,
          mapped,
          ground arith,
          subst (All (Classified profile by_id inputs)) {x = sort_by item_le unsorted} {y = items}
              (ground arith)
              (sort_by-All item_le (Classified profile by_id inputs) unsorted (
                classify_all-Classified io profile 0 by_id by_id inputs inputs made (λ k s e. e)
                  (λ i e. e))),
        )
      ]
    ]

-- What a batch that was created binds, and where it is stored.
pub record CreatedClassification (ttl : ℕ) (io : ClassificationIo) (discovery_id : Text)
    (profile : DeclarativeProfile) (sources : List ReviewedSource)
    (inputs : List ClassificationItemInput) (now : ℕ) (after : Map StoredClassification)
    (batch : ClassificationBatch) : Type 0 where
  pub by_id : Map ReviewedSource
  pub mapped : reviewed_by_id [] sources ≡ ok by_id
  pub approved_profile : is_approved profile.status ≡ true
  pub classified : All (Classified profile by_id inputs) batch.items
  pub of_discovery : batch.discovery_proposal_id ≡ discovery_id
  pub of_profile :
      (batch.profile_id ≡ profile.profile_id) × (batch.profile_version ≡ profile.profile_version)
  pub stored : get batch.batch_id after ≡ some (record { expires_at = now + ttl; batch = batch })

-- A batch of classifications that was created names the approved profile that it was made with and
-- its discovery proposal, each of its items is grounded in the reviewed source and the references
-- with the item's id, and it is stored under its id until its time to live is over.
pub create_classification_at-Created :
    (ttl : ℕ) (io : ClassificationIo) (discovery_id : Text) (profile : DeclarativeProfile)
    (sources : List ReviewedSource) (inputs : List ClassificationItemInput) (now wall_time : ℕ)
    (m : Map StoredClassification) {batch : ClassificationBatch}
    → (create_classification_at ttl io discovery_id profile sources inputs now wall_time m).0
      ≡ ok batch
    → CreatedClassification ttl io discovery_id profile sources inputs now
        (create_classification_at ttl io discovery_id profile sources inputs now wall_time m).1
        batch
unfolding create_classification_at store_batch continue
create_classification_at-Created ttl io discovery_id profile sources inputs now wall_time m {batch}
      h =
    elim (Result-cases (classify_selection io discovery_id profile sources inputs)) [
      | inr (e, failed) ↦ absurd (ground arith)
      | inl (items, made) ↦
          let (by_id, mapped, approved_profile, classified) =
            classify_selection-Classified io discovery_id profile sources inputs made in
          record {
            by_id = by_id;
            mapped = mapped;
            approved_profile = approved_profile;
            classified =
                subst (All (Classified profile by_id inputs)) {x = items} {y = batch.items}
                  (ground arith) classified;
            of_discovery = ground arith;
            of_profile = (ground arith, ground arith);
            stored = ground (
              arith,
              get-insert io.batch_id batch.batch_id
                  (record { expires_at = now + ttl; batch = batch })
                  (current_classifications now m),
              text_eq_refl batch.batch_id,
            );
          }
    ]

-- A batch is consumed exactly when both ids and the selection are valid, it is stored under its id
-- and has not expired, it was made for the discovery proposal and its items are those of the
-- selection; and then it is stored no more.
pub consume_classification_at_iff :
    (batch_id discovery_id : Text) (item_ids : List Text) (now : ℕ) (m : Map StoredClassification)
    (batch : ClassificationBatch)
    → (((consume_classification_at batch_id discovery_id item_ids now m).0 ≡ ok batch) ↔ (
        (valid_classification_id batch_id
            && valid_classification_id discovery_id
            && not (is_empty item_ids)
            && distinct item_ids
          ≡ true)
        × (text_eq batch.discovery_proposal_id discovery_id && same_set (item_ids_of batch) item_ids
            ≡ true)
        × ((stored : StoredClassification) × (get batch_id m ≡ some stored)
            × (now < stored.expires_at)
            × (stored.batch ≡ batch))))
      × ((consume_classification_at batch_id discovery_id item_ids now m).0 ≡ ok batch
          → get batch_id (consume_classification_at batch_id discovery_id item_ids now m).1 ≡ none)
unfolding consume_classification_at continue
consume_classification_at_iff batch_id discovery_id item_ids now m batch =
    let kept = get-retain (λ (s : StoredClassification). ltb now s.expires_at) batch_id m in
    let gone = get-remove batch_id batch_id (current_classifications now m) in
    elim (Option-cases (get batch_id m)) [
      | inl absent ↦ (
        (λ h. absurd (ground arith), λ h. absurd (ground (arith, h.2.1))),
        λ h. absurd (ground arith),
      )
      | inr (stored, present) ↦ (
        (
          λ h. (ground arith, ground arith, (stored, present, ground arith, ground arith)),
          λ h. ground (arith, h.2.1, h.2.2, h.2.3),
        ),
        λ h. ground (arith, gone, text_eq_refl batch_id),
      )
    ]
