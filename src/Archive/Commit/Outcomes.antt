-- ===== src/Archive/Commit/Outcomes.antt =====
-- archive/transaction.rs: what `commit_plan_with_faults` reports.
use aiknowledge_sort_mit.Prelude.{
  ◌≤◌, ◌≡◌, ◌↔◌, refl, true, false, List, [], ◌∷◌, map, Text, codes, length, all, any, count_if,
  text_eq, arith, inl, inr, Result-cases, Bool-cases,
}
use aiknowledge_sort_mit.Vault.Records.{Platform}
use aiknowledge_sort_mit.Archive.Plans.{ArchivePlan, ArchivePlanItem}
use aiknowledge_sort_mit.Archive.Operations.{Formats}
use aiknowledge_sort_mit.Archive.Operations.Advancing.{seal_initial_record}
use aiknowledge_sort_mit.Archive.Steps.{Run}
use aiknowledge_sort_mit.Archive.Transaction.{SourceAccess, persist_operation}
use aiknowledge_sort_mit.Archive.Commit.{
  all_committed, commit_failed, ArchiveItemResult, TransactionFaults, rejected, interrupted,
  failed_without_operation, is_committed, status_of, new_operation, execute_operation, commit_one,
  commit_all, commit_plan,
}

count_if-all :
    (rs : List ArchiveItemResult)
    → (count_if is_committed rs ≤ length rs)
      × ((count_if is_committed rs ≡ length rs) ↔ (all is_committed rs ≡ true))
      × ((count_if is_committed rs ≡ 0) ↔ (any is_committed rs ≡ false))
unfolding count_if all any
count_if-all [] = (omega arith, (λ h. refl, λ h. refl), (λ h. refl, λ h. refl))
count_if-all (r ∷ rs) =
    let (le, same, zero_) = count_if-all rs in
    (
      ground (arith, le),
      (λ h. ground (arith, le, same), λ h. ground (arith, le, same)),
      (λ h. ground (arith, zero_), λ h. ground (arith, zero_)),
    )

-- The status of a list of results, in words: all of them, none of them, or some.
status_of-cases :
    (rs : List ArchiveItemResult)
    → ((status_of rs ≡ all_committed)
        ↔ ((any is_committed rs ≡ true) × (all is_committed rs ≡ true)))
      × ((status_of rs ≡ commit_failed) ↔ (any is_committed rs ≡ false))
unfolding status_of
status_of-cases rs =
    let (le, same, none_) = count_if-all rs in
    (
      (λ h. ground (arith, same, none_), λ h. ground (arith, same, none_, h.0, h.1)),
      (λ h. ground (arith, same, none_), λ h. ground (arith, same, none_)),
    )

-- What a result says of its item.
abbrev pub result_key : ArchiveItemResult → Text × Text
result_key r = (r.item_id, r.destination_path)

abbrev pub item_key : ArchivePlanItem → Text × Text
item_key i = (i.item_id, i.destination_path)

failed-keys :
    (reason : Text) (items : List ArchivePlanItem)
    → (map result_key (failed_without_operation reason items) ≡ map item_key items)
      × (any is_committed (failed_without_operation reason items) ≡ false)
unfolding failed_without_operation any
failed-keys reason [] = (refl, refl)
failed-keys reason (item ∷ items) =
    let (same, none_) = failed-keys reason items in (ground (arith, same), ground (arith, none_))

module _ (p : Platform) (f : Formats) (a : SourceAccess p) (faults : TransactionFaults) where
  commit_one-key :
      (plan : ArchivePlan) (item : ArchivePlanItem) (d : p.State)
      → result_key (commit_one p f a faults plan item d).0 ≡ item_key item
  unfolding commit_one
  commit_one-key plan item d =
      let drawn = p.new_uuid d in
      let timed = p.unix_time_ms drawn.1 in
      elim (Result-cases (seal_initial_record f (new_operation f plan item drawn.0 timed.0))) [
        | inr (e, failed) ↦ ground arith
        | inl (r, made) ↦
            let s : Run p = record { disk = timed.1; operation = r; exposed = false } in
            elim (Result-cases (persist_operation p f s).0) [
              | inr (e, failed) ↦ ground arith
              | inl (done, stored) ↦
                  elim (Result-cases
                    (execute_operation p f a faults (persist_operation p f s).1).0) [
                      | inl (done', ran) ↦ ground arith
                      | inr (rejected e, failed) ↦ ground arith
                      | inr (interrupted reason, failed) ↦ ground arith
                    ]
            ]
      ]

  commit_all-keys :
      (plan : ArchivePlan) (items : List ArchivePlanItem) (d : p.State)
      → map result_key (commit_all p f a faults plan items d).0 ≡ map item_key items
  unfolding commit_all
  commit_all-keys plan [] d = refl
  commit_all-keys plan (item ∷ items) d = ground (
    arith,
    commit_one-key plan item d,
    commit_all-keys plan items (commit_one p f a faults plan item d).1,
  )

  -- A commit reports on each item of the plan, in the plan's order, whatever fails. It is `committed`
  -- exactly when there are items and all of them are committed, and `failed` exactly when none is.
  -- Under another vault's authority nothing is committed and nothing on the disk changes.
  pub commit_plan-reports :
      (plan : ArchivePlan) (authority_id : Text) (d : p.State)
      → (map result_key (commit_plan p f a faults plan authority_id d).0.items
          ≡ map item_key plan.items)
        × (((commit_plan p f a faults plan authority_id d).0.status ≡ all_committed) ↔ (
            (any is_committed (commit_plan p f a faults plan authority_id d).0.items ≡ true)
            × (all is_committed (commit_plan p f a faults plan authority_id d).0.items ≡ true)))
        × (((commit_plan p f a faults plan authority_id d).0.status ≡ commit_failed)
            ↔ (any is_committed (commit_plan p f a faults plan authority_id d).0.items ≡ false))
        × (text_eq plan.authority_id authority_id ≡ false
            → (any is_committed (commit_plan p f a faults plan authority_id d).0.items ≡ false)
              × ((commit_plan p f a faults plan authority_id d).1 ≡ d))
  unfolding commit_plan
  commit_plan-reports plan authority_id d =
      elim (Bool-cases (text_eq plan.authority_id authority_id)) [
        | inl current ↦
            let rs = (commit_all p f a faults plan plan.items d).0 in
            let (whole, none_) = status_of-cases rs in
            (
              ground (arith, commit_all-keys plan plan.items d),
              (λ h. ground (arith, whole), λ h. ground (arith, whole, h.0, h.1)),
              (λ h. ground (arith, none_), λ h. ground (arith, none_)),
              λ other. absurd (ground arith),
            )
        | inr other ↦
            let reason = codes "Archive plan Vault authority is no longer current" in
            let (same, none_) = failed-keys reason plan.items in
            (
              ground (arith, same),
              (λ h. absurd (ground arith), λ h. absurd (ground (arith, none_, h.0))),
              (λ h. ground (arith, none_), λ h. ground arith),
              λ _. (ground (arith, none_), ground arith),
            )
      ]
