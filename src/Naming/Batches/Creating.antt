-- ===== src/Naming/Batches/Creating.antt =====
-- naming/registry.rs: what `create_at` makes of the reviewed sources, and stores.
use aiknowledge_sort_mit.Prelude.{
  ℕ, subst, sym, ◌+◌, ◌≤◌, ◌<◌, ◌≡◌, refl, true, ◌&&◌, some, List, [], ◌∷◌, Text, arith, inl, inr,
  Option-cases, Result-cases, ok, length, ltb, text_eq_refl, text_eq→eq, eq→text_eq, sort_by,
  sort_by-All, All, suc,
}
use aiknowledge_sort_mit.Prelude.Maps.{
  Map, get, insert, remove, get-remove, get-insert, length-retain, length-insert, length-remove,
}
use aiknowledge_sort_mit.Prelude.Draws.{unique_id}
use aiknowledge_sort_mit.Prelude.Execs.{continue}
use aiknowledge_sort_mit.Discovery.Proposals.{ReviewedSource}
use aiknowledge_sort_mit.Naming.Schema.{
  NamingProposal, NamingRequest, NamingPolicy, canonical_policy,
}
use aiknowledge_sort_mit.Naming.Normalize.{Tables}
use aiknowledge_sort_mit.Naming.Proposing.{propose_name, find_name}
use aiknowledge_sort_mit.Naming.Batches.{
  NamingItemInput, NamingBatch, NamingBatchRegistryLimits, StoredBatch, proposal_ids, same_set,
  sources_by_id, check_inputs, propose_all, proposal_le, or_no_names,
}
use aiknowledge_sort_mit.Naming.Batches.Registry.{
  current_batches, BatchIo, create_at, consume_batch_at,
}
use aiknowledge_sort_mit.Naming.Batches.Consuming.{
  valid_opaque_id, valid_selection, consume_batch_at_iff,
}

-- A proposal keeps what the request says of its file.
propose_name-request :
    (u : Tables) (policy : NamingPolicy) (request : NamingRequest) (proposal : NamingProposal)
    → propose_name u policy request ≡ ok proposal
    → (proposal.item_id ≡ request.item_id)
      × (proposal.original_name ≡ request.original_name)
      × (proposal.identity ≡ request.identity)
unfolding propose_name
propose_name-request u policy request proposal h =
    elim (Result-cases (find_name u policy request)) [
      | inl (name, found) ↦ ground arith
      | inr (reason, reviewed) ↦ ground arith
    ]

-- Each source is stored under its own id.
abbrev pub Keyed : Map ReviewedSource → Type 0
Keyed m = (k : Text) (source : ReviewedSource) → get k m ≡ some source → source.item_id ≡ k

-- The file of a proposal is the one that was reviewed under its id.
pub record Reviewed (by_id : Map ReviewedSource) (proposal : NamingProposal) : Type 0 where
  pub source : ReviewedSource
  pub found : get proposal.item_id by_id ≡ some source
  pub same_id : source.item_id ≡ proposal.item_id
  pub same_name : proposal.original_name ≡ source.name
  pub same_identity : proposal.identity ≡ source.identity

sources_by_id-Keyed :
    (done : Map ReviewedSource) (sources : List ReviewedSource) {m : Map ReviewedSource}
    → sources_by_id done sources ≡ ok m
    → Keyed done
    → Keyed m
unfolding sources_by_id
sources_by_id-Keyed done [] h keyed = λ k source e. keyed k source (ground arith)
sources_by_id-Keyed done (s ∷ sources) {m} h keyed =
    sources_by_id-Keyed (insert s.item_id s done) sources (ground arith) (λ k source e.
      ground (arith, get-insert s.item_id k s done, keyed k source, text_eq→eq s.item_id k))

abbrev request_of : Map (List Text) → NamingItemInput → ReviewedSource → NamingRequest
request_of occupied input source = record {
  item_id = source.item_id;
  original_name = source.name;
  identity = source.identity;
  facts = input.facts;
  occupied_names = or_no_names (get input.item_id occupied);
}

propose_all-All :
    (u : Tables) (occupied : Map (List Text)) (by_id sources : Map ReviewedSource)
    (inputs : List NamingItemInput) {proposals : List NamingProposal}
    → propose_all u occupied sources inputs ≡ ok proposals
    → Keyed by_id
    → ((k : Text) (source : ReviewedSource)
        → get k sources ≡ some source
        → get k by_id ≡ some source)
    → All (Reviewed by_id) proposals × (length proposals ≡ length inputs)
unfolding propose_all
propose_all-All u occupied by_id sources [] {proposals} h keyed part =
    subst (λ ps. All (Reviewed by_id) ps × (length ps ≡ 0)) {x = []} {y = proposals} (ground arith)
      (tt, refl)
propose_all-All u occupied by_id sources (input ∷ inputs) {proposals} h keyed part =
    elim (Option-cases (get input.item_id sources)) [
      | inl absent ↦ absurd (ground arith)
      | inr (source, present) ↦
          let request = request_of occupied input source in
          elim (Result-cases (propose_name u canonical_policy request)) [
            | inr (e, failed) ↦ absurd (ground arith)
            | inl (proposal, made) ↦
                elim (Result-cases (propose_all u occupied (remove input.item_id sources) inputs)) [
                  | inr (e, failed) ↦ absurd (ground arith)
                  | inl (rest, others) ↦
                      let (same_id, same_name, same_identity) =
                        propose_name-request u canonical_policy request proposal made in
                      let (all_reviewed, size) =
                        propose_all-All u occupied by_id (remove input.item_id sources) inputs
                          others keyed
                          (λ k s e.
                            part k s (ground (arith, get-remove input.item_id k sources))) in
                      let own = keyed input.item_id source (part input.item_id source present) in
                      subst (λ ps. All (Reviewed by_id) ps × (length ps ≡ suc (length inputs)))
                        {x = proposal ∷ rest} {y = proposals} (ground arith)
                        (
                          (
                            record {
                              source = source;
                              found = ground (arith, own, part input.item_id source present);
                              same_id = sym same_id;
                              same_name = same_name;
                              same_identity = same_identity;
                            },
                            all_reviewed,
                          ),
                          omega (arith, size),
                        )
                ]
          ]
    ]

check_inputs-sources :
    (limits : NamingBatchRegistryLimits) (discovery_id : Text) (sources : List ReviewedSource)
    (inputs : List NamingItemInput) (occupied : Map (List Text)) {by_id : Map ReviewedSource}
    → check_inputs limits discovery_id sources inputs occupied ≡ ok by_id
    → sources_by_id [] sources ≡ ok by_id
unfolding check_inputs
check_inputs-sources limits discovery_id sources inputs occupied h = ground arith

no_source-Keyed : Keyed []
unfolding get
no_source-Keyed k source e = cc

-- What a batch that was created holds, and where it is stored.
pub record CreatedBatch (limits : NamingBatchRegistryLimits) (io : BatchIo) (discovery_id : Text)
    (sources : List ReviewedSource) (inputs : List NamingItemInput) (now : ℕ)
    (after : Map StoredBatch) (batch : NamingBatch) : Type 0 where
  pub by_id : Map ReviewedSource
  pub mapped : sources_by_id [] sources ≡ ok by_id
  pub reviewed : All (Reviewed by_id) batch.proposals
  pub of_discovery : batch.discovery_proposal_id ≡ discovery_id
  pub stored :
      get batch.batch_id after ≡ some (record { expires_at = now + limits.ttl; batch = batch })

-- A batch that was created is for the discovery proposal, each of its proposals has the name and the
-- identity of the reviewed source with the proposal's item id, and it is stored under its id until
-- its time to live is over.
pub create_at-CreatedBatch :
    (limits : NamingBatchRegistryLimits) (io : BatchIo) (discovery_id : Text)
    (sources : List ReviewedSource) (inputs : List NamingItemInput) (occupied : Map (List Text))
    (now wall_time : ℕ) (m : Map StoredBatch) {batch : NamingBatch}
    → (create_at limits io discovery_id sources inputs occupied now wall_time m).0 ≡ ok batch
    → CreatedBatch limits io discovery_id sources inputs now
        (create_at limits io discovery_id sources inputs occupied now wall_time m).1
        batch
unfolding create_at continue
create_at-CreatedBatch limits io discovery_id sources inputs occupied now wall_time m {batch} h =
    elim (Result-cases (check_inputs limits discovery_id sources inputs occupied)) [
      | inr (e, failed) ↦ absurd (ground arith)
      | inl (by_id, checked) ↦ elim (Result-cases (propose_all io.tables occupied by_id inputs)) [
        | inr (e, failed) ↦ absurd (ground arith)
        | inl (proposals, made) ↦
            let mapped = check_inputs-sources limits discovery_id sources inputs occupied checked in
            let all_reviewed =
              (propose_all-All io.tables occupied by_id by_id inputs made
                (sources_by_id-Keyed [] sources mapped no_source-Keyed) (λ k s e. e)).0 in
            record {
              by_id = by_id;
              mapped = mapped;
              reviewed =
                  subst (All (Reviewed by_id)) {x = sort_by proposal_le proposals}
                    {y = batch.proposals} (ground arith)
                    (sort_by-All proposal_le (Reviewed by_id) proposals all_reviewed);
              of_discovery = ground arith;
              stored = ground (
                arith,
                get-insert (unique_id io.draws (current_batches now m)) batch.batch_id
                    (record { expires_at = now + limits.ttl; batch = batch })
                    (current_batches now m),
                text_eq_refl batch.batch_id,
              );
            }
      ]
    ]

-- A batch that was created under an id of a valid form is consumed, until its time to live is over,
-- by its discovery proposal and each valid selection of the items that it has.
pub create_at-consume_batch_at :
    (limits : NamingBatchRegistryLimits) (io : BatchIo) (discovery_id : Text)
    (sources : List ReviewedSource) (inputs : List NamingItemInput) (occupied : Map (List Text))
    (now wall_time later : ℕ) (item_ids : List Text) (m : Map StoredBatch) {batch : NamingBatch}
    → (create_at limits io discovery_id sources inputs occupied now wall_time m).0 ≡ ok batch
    → valid_opaque_id batch.batch_id
        && valid_opaque_id discovery_id
        && valid_selection limits item_ids
      ≡ true
    → same_set (proposal_ids batch) item_ids ≡ true
    → later < now + limits.ttl
    → (consume_batch_at limits batch.batch_id discovery_id item_ids later
        (create_at limits io discovery_id sources inputs occupied now wall_time m).1).0
      ≡ ok batch
create_at-consume_batch_at limits io discovery_id sources inputs occupied now wall_time later
      item_ids m {batch} h valid same current =
    let c =
      create_at-CreatedBatch limits io discovery_id sources inputs occupied now wall_time m h in
    (consume_batch_at_iff limits batch.batch_id discovery_id item_ids later
        (create_at limits io discovery_id sources inputs occupied now wall_time m).1 batch).1
      (
        valid,
        ground (arith, same, eq→text_eq batch.discovery_proposal_id discovery_id c.of_discovery),
        (record { expires_at = now + limits.ttl; batch = batch }, c.stored, current, refl),
      )

-- The registry never holds more batches than its limit: neither method takes it over the limit,
-- whether it succeeds or fails.
pub batch_registry-bound :
    (limits : NamingBatchRegistryLimits) (io : BatchIo) (discovery_id batch_id : Text)
    (sources : List ReviewedSource) (inputs : List NamingItemInput) (occupied : Map (List Text))
    (item_ids : List Text) (now wall_time : ℕ) (m : Map StoredBatch)
    → length m ≤ limits.max_batches
    → (length (create_at limits io discovery_id sources inputs occupied now wall_time m).1
        ≤ limits.max_batches)
      × (length (consume_batch_at limits batch_id discovery_id item_ids now m).1
          ≤ limits.max_batches)
unfolding create_at consume_batch_at continue
batch_registry-bound limits io discovery_id batch_id sources inputs occupied item_ids now wall_time
      m le =
    (
      elim (Result-cases
          (create_at limits io discovery_id sources inputs occupied now wall_time m).0) [
            | inr (e, failed) ↦
                ground (arith, length-retain (λ (s : StoredBatch). ltb now s.expires_at) m)
            | inl (batch, made) ↦ ground (
              arith,
              length-retain (λ (s : StoredBatch). ltb now s.expires_at) m,
              length-insert (unique_id io.draws (current_batches now m))
                  (record { expires_at = now + limits.ttl; batch = batch }) (current_batches now m),
            )
          ],
      ground (
        arith,
        length-retain (λ (s : StoredBatch). ltb now s.expires_at) m,
        length-remove batch_id (current_batches now m),
      ),
    )
