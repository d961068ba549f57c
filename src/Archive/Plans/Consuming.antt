-- ===== src/Archive/Plans/Consuming.antt =====
-- archive/plan.rs: when `consume_at` gives a plan up, and what it leaves.
use aiknowledge_sort_mit.Prelude.{
  ℕ, ◌<◌, ◌≡◌, ◌↔◌, true, false, ◌&&◌, Option, none, some, List, ◌+◌, Text, arith, Result-cases,
  inl, inr, Option-cases, ok, err, ltb, is_ok, text_eq, text_eq_refl, text_eq→eq, eq→text_eq,
}
use aiknowledge_sort_mit.Prelude.Maps.{Map, get, get-remove, get-insert, get-retain}
use aiknowledge_sort_mit.Prelude.Execs.{continue}
use aiknowledge_sort_mit.Discovery.Proposals.{ReviewedSource}
use aiknowledge_sort_mit.Naming.Batches.{NamingBatch}
use aiknowledge_sort_mit.Profiles.Batches.{ClassificationBatch}
use aiknowledge_sort_mit.Archive.Plans.{
  ArchivePlan, PlanRegistryLimits, StoredPlan, VaultSummary, PlanError, valid_plan_id,
}
use aiknowledge_sort_mit.Archive.Plans.Registry.{
  PlanIo, current_plans, create_plan_at, consume_plan_at,
}

-- A plan is given up exactly when both ids are valid, it is stored under its id and has not expired,
-- and the nonce is the one that was shown with it; what is returned is the stored plan.
pub consume_plan_at_iff :
    (plan_id nonce : Text) (now : ℕ) (m : Map StoredPlan) (plan : ArchivePlan)
    → ((consume_plan_at plan_id nonce now m).0 ≡ ok plan) ↔ (
        (valid_plan_id plan_id && valid_plan_id nonce ≡ true)
        × (plan.confirmation_nonce ≡ nonce)
        × ((stored : StoredPlan) × (get plan_id m ≡ some stored)
            × (now < stored.expires_at)
            × (stored.plan ≡ plan)))
unfolding consume_plan_at continue
consume_plan_at_iff plan_id nonce now m plan =
    let kept = get-retain (λ (s : StoredPlan). ltb now s.expires_at) plan_id m in
    elim (Option-cases (get plan_id m)) [
      | inl absent ↦ (λ h. absurd (ground arith), λ h. absurd (ground (arith, h.2.1)))
      | inr (stored, present) ↦ (
        λ h. (
          ground arith,
          ground (arith, text_eq→eq stored.plan.confirmation_nonce nonce),
          (stored, present, ground arith, ground arith),
        ),
        λ h. ground (arith, h.2.1, h.2.2, h.2.3, eq→text_eq stored.plan.confirmation_nonce nonce),
      )
    ]

-- What may become of the registry: plans are consumed, and plans are created under other ids.
pub data Later (plan_id : Text) (end : Map StoredPlan) : Map StoredPlan → Type 0 where
  stays : Later plan_id end end
  consumes :
      {m : Map StoredPlan} (id nonce : Text) (now : ℕ)
      → Later plan_id end (consume_plan_at id nonce now m).1
      → Later plan_id end m
  creates :
      {m : Map StoredPlan} (limits : PlanRegistryLimits) (io : PlanIo) (proposal_id : Text)
      (sources : List ReviewedSource) (classification_batch : Option ClassificationBatch)
      (naming_batch : NamingBatch) (vault : VaultSummary) (now wall_time : ℕ)
      → ((plan : ArchivePlan)
          → (create_plan_at limits io proposal_id sources classification_batch naming_batch vault
              now wall_time m).0
            ≡ ok plan
          → text_eq plan.plan_id plan_id ≡ false)
      → Later plan_id end
          (create_plan_at limits io proposal_id sources classification_batch naming_batch vault now
            wall_time m).1
      → Later plan_id end m

consume-absent :
    (plan_id id nonce : Text) (now : ℕ) (m : Map StoredPlan)
    → get plan_id m ≡ none
    → get plan_id (consume_plan_at id nonce now m).1 ≡ none
unfolding consume_plan_at continue
consume-absent plan_id id nonce now m h = ground (
  arith,
  get-retain (λ (s : StoredPlan). ltb now s.expires_at) plan_id m,
  get-remove id plan_id (current_plans now m),
)

create-absent :
    (plan_id : Text) (limits : PlanRegistryLimits) (io : PlanIo) (proposal_id : Text)
    (sources : List ReviewedSource) (classification_batch : Option ClassificationBatch)
    (naming_batch : NamingBatch) (vault : VaultSummary) (now wall_time : ℕ) (m : Map StoredPlan)
    → ((plan : ArchivePlan)
        → (create_plan_at limits io proposal_id sources classification_batch naming_batch vault now
            wall_time m).0
          ≡ ok plan
        → text_eq plan.plan_id plan_id ≡ false)
    → get plan_id m ≡ none
    → get plan_id
        (create_plan_at limits io proposal_id sources classification_batch naming_batch vault now
          wall_time m).1
      ≡ none
unfolding create_plan_at continue
create-absent plan_id limits io proposal_id sources classification_batch naming_batch vault now
      wall_time m other h =
    let kept = get-retain (λ (s : StoredPlan). ltb now s.expires_at) plan_id m in
    elim (Result-cases
      (create_plan_at limits io proposal_id sources classification_batch naming_batch vault now
        wall_time m).0) [
          | inr (e, failed) ↦ ground (arith, kept)
          | inl (plan, made) ↦
              let differs = other plan made in
              ground (
                arith,
                kept,
                get-insert plan.plan_id plan_id
                    (record { expires_at = now + limits.ttl; plan = plan }) (current_plans now m),
              )
        ]

Later-absent :
    (plan_id : Text) (end m : Map StoredPlan)
    → Later plan_id end m
    → get plan_id m ≡ none
    → get plan_id end ≡ none
Later-absent plan_id end m stays h = h
Later-absent plan_id end m (consumes id nonce now rest) h =
    Later-absent plan_id end (consume_plan_at id nonce now m).1 rest
      (consume-absent plan_id id nonce now m h)
Later-absent plan_id end m
      (creates limits io proposal_id sources classification_batch naming_batch vault now wall_time
        other rest)
      h =
    Later-absent plan_id end
      (create_plan_at limits io proposal_id sources classification_batch naming_batch vault now
        wall_time m).1
      rest
      (create-absent plan_id limits io proposal_id sources classification_batch naming_batch vault
        now wall_time m other h)

absent-refused :
    (plan_id nonce : Text) (now : ℕ) (m : Map StoredPlan)
    → get plan_id m ≡ none
    → is_ok (consume_plan_at plan_id nonce now m).0 ≡ false
unfolding consume_plan_at continue
absent-refused plan_id nonce now m h =
    ground (arith, get-retain (λ (s : StoredPlan). ltb now s.expires_at) plan_id m)

consumed-absent :
    (plan_id nonce : Text) (now : ℕ) (m : Map StoredPlan) {plan : ArchivePlan}
    → (consume_plan_at plan_id nonce now m).0 ≡ ok plan
    → get plan_id (consume_plan_at plan_id nonce now m).1 ≡ none
unfolding consume_plan_at continue
consumed-absent plan_id nonce now m h =
    ground (arith, get-remove plan_id plan_id (current_plans now m), text_eq_refl plan_id)

-- A plan is confirmed once: after a call that returned it, and whatever plans are consumed, and
-- created under other ids, after that, a call under its id returns none, whatever nonce it has. A
-- call that fails leaves every plan that has not expired, so that a wrong nonce does not use a plan
-- up.
pub consume_plan_at-once :
    (plan_id nonce : Text) (now : ℕ) (m : Map StoredPlan)
    → ((plan : ArchivePlan)
        → (consume_plan_at plan_id nonce now m).0 ≡ ok plan
        → (end : Map StoredPlan) → Later plan_id end (consume_plan_at plan_id nonce now m).1
        → (other_nonce : Text) (later : ℕ)
        → is_ok (consume_plan_at plan_id other_nonce later end).0 ≡ false)
      × ((e : PlanError)
          → (consume_plan_at plan_id nonce now m).0 ≡ err e
          → (j : Text) (stored : StoredPlan) → get j m ≡ some stored
          → now < stored.expires_at
          → get j (consume_plan_at plan_id nonce now m).1 ≡ some stored)
unfolding consume_plan_at continue
consume_plan_at-once plan_id nonce now m = (
  λ plan h end after other_nonce later. absent-refused plan_id other_nonce later end (
      Later-absent plan_id end (consume_plan_at plan_id nonce now m).1 after
        (consumed-absent plan_id nonce now m h)),
  λ e h j stored present current.
      ground (arith, get-retain (λ (s : StoredPlan). ltb now s.expires_at) j m),
)
