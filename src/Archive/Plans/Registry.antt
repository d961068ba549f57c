-- ===== src/Archive/Plans/Registry.antt =====
-- archive/plan.rs: the methods of `ArchivePlanRegistry`, each one step on the locked map.
use aiknowledge_sort_mit.Prelude.{
  ℕ, ◌+◌, not, Option, none, some, List, Text, true, ltb, leb, length, is_some, text_eq, fail_if,
  ok_or, map_err, if◌then◌else◌,
}
use aiknowledge_sort_mit.Prelude.Maps.{Map, get, insert, remove, retain}
use aiknowledge_sort_mit.Prelude.Draws.{unique_id}
use aiknowledge_sort_mit.Prelude.Execs.{Exec, pure, lift, gets, modify, ◌>>=◌, ◌>>◌}
use aiknowledge_sort_mit.Discovery.Proposals.{ReviewedSource}
use aiknowledge_sort_mit.Naming.Batches.{NamingBatch, batch_expiry}
use aiknowledge_sort_mit.Profiles.Batches.{ClassificationBatch}
use aiknowledge_sort_mit.Archive.Plans.{
  plan_version, ArchivePlanItem, ArchivePlan, PlanRegistryLimits, StoredPlan, VaultSummary,
  PlanError, too_many_plans, unknown_plan, confirmation_mismatch, plan_expiry, validate_plan_id,
  checked_items,
}

-- What the platform supplies: the Unix epoch, the UUIDs and the nonce.
pub record PlanIo : Type 0 where
  pub unix_epoch : ℕ
  pub draws : ℕ → Text
  pub nonce : Text

abbrev pub current_plans : ℕ → Map StoredPlan → Map StoredPlan
current_plans now = retain (λ stored. ltb now stored.expires_at)

abbrev pub batch_id_of : Option ClassificationBatch → Option Text
batch_id_of none = none
batch_id_of (some batch) = some batch.batch_id

abbrev pub new_plan :
    PlanIo
    → Text
    → Text
    → Option ClassificationBatch
    → NamingBatch
    → VaultSummary
    → ℕ
    → List ArchivePlanItem
    → ArchivePlan
new_plan io plan_id proposal_id classification_batch naming_batch vault expires_at_unix_ms items =
    record {
      plan_id = plan_id;
      version = if is_some classification_batch then plan_version + 1 else plan_version;
      proposal_id = proposal_id;
      naming_batch_id = naming_batch.batch_id;
      classification_batch_id = batch_id_of classification_batch;
      authority_id = vault.authority_id;
      vault_path = vault.display_path;
      expires_at_unix_ms = expires_at_unix_ms;
      confirmation_nonce = io.nonce;
      source_preserved = true;
      items = items;
    }

-- `create_with_classification_at`.
unfoldable pub create_plan_at :
    PlanRegistryLimits
    → PlanIo
    → Text
    → List ReviewedSource
    → Option ClassificationBatch
    → NamingBatch
    → VaultSummary
    → ℕ
    → ℕ
    → Exec (Map StoredPlan) PlanError ArchivePlan
create_plan_at limits io proposal_id sources classification_batch naming_batch vault now wall_time =
    do
      items ←
          lift (checked_items limits proposal_id sources classification_batch naming_batch vault)
      expires_at_unix_ms ←
          lift (map_err plan_expiry (batch_expiry io.unix_epoch wall_time limits.ttl))
      modify (current_plans now)
      plans ← gets (λ m. m)
      lift (fail_if (leb limits.max_plans (length plans)) too_many_plans)
      let plan =
          new_plan io (unique_id io.draws plans) proposal_id classification_batch naming_batch vault
            expires_at_unix_ms items
      modify (
          insert (unique_id io.draws plans) (record { expires_at = now + limits.ttl; plan = plan }))
      pure plan

unfoldable pub consume_plan_at : Text → Text → ℕ → Exec (Map StoredPlan) PlanError ArchivePlan
consume_plan_at plan_id confirmation_nonce now = do
  lift (validate_plan_id plan_id)
  lift (validate_plan_id confirmation_nonce)
  modify (current_plans now)
  plans ← gets (λ m. m)
  stored ← lift (ok_or (get plan_id plans) unknown_plan)
  lift (
      fail_if (not (text_eq stored.plan.confirmation_nonce confirmation_nonce))
        confirmation_mismatch)
  modify (remove plan_id)
  pure stored.plan
