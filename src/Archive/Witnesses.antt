-- ===== src/Archive/Witnesses.antt =====
-- The theorems of the archive at an operation that is carried through, and at one that is recovered.
use aiknowledge_sort_mit.Prelude.{
  ◌≡◌, ◌≢◌, ◌↔◌, refl, Bool, true, false, Option, none, some, List, [], ◌∷◌, map, Text, codes, all,
  any, arith, ok, Result, text_eq, inl, inr, ap, sym, ◌∙◌, is_ok,
}
use aiknowledge_sort_mit.Archive.Operations.{
  OperationRecord, ArchiveError, Formats, op_copying, op_failed,
}
use aiknowledge_sort_mit.Archive.Operations.Advancing.{
  registration_from_record, sealed, seal_initial_record, operation_record_digest, unsigned,
}
use aiknowledge_sort_mit.Archive.Operations.Audit.{
  Entry, NoCollision, check_records, check_records_unique,
}
use aiknowledge_sort_mit.Archive.Steps.{Run}
use aiknowledge_sort_mit.Archive.Transaction.{transition_required}
use aiknowledge_sort_mit.Archive.Journal.{
  Move, move_on, advance, records_of, entry_of, records_of-check_records,
}
use aiknowledge_sort_mit.Archive.Commit.{
  no_faults, new_operation, execute_operation, reject_operation, commit_plan, is_committed,
  all_committed, commit_failed,
}
use aiknowledge_sort_mit.Archive.Commit.Outcomes.{result_key, item_key, commit_plan-reports}
use aiknowledge_sort_mit.Archive.Commit.Binding.{bound, execute_operation-bound}
use aiknowledge_sort_mit.Archive.Commit.Preserving.{Committed, execute_operation-Committed}
use aiknowledge_sort_mit.Archive.Commit.Gaps.{transition-gap}
use aiknowledge_sort_mit.Archive.Recovery.{ReconciliationReport, reconcile_record}
use aiknowledge_sort_mit.Archive.Recovery.Settling.{Settled, reconcile_record-Settled}
use aiknowledge_sort_mit.Archive.Recovery.Listing.{reconcile_vault}
use aiknowledge_sort_mit.Archive.Recovery.Sound.{Recovered, reconcile_vault-Recovered}
use aiknowledge_sort_mit.Archive.Originals.{
  VerifiedRegisteredOriginal, original, original_from_record,
}
use aiknowledge_sort_mit.Archive.Originals.Verified.{Verified, original_from_record-Verified}
use aiknowledge_sort_mit.Archive.Scenarios.{
  interrupted, journal_formats, interrupted_disk, list_journal, evaluates, full, memory, formats,
  source, item, plan, empty_disk, first, start,
}

abbrev finished : Run memory
finished = (execute_operation memory formats source no_faults start).1

executes : (execute_operation memory formats source no_faults start).0 ≡ ok tt
unfolding evaluates
executes = refl

execute_operation-Committed_example : Committed memory formats source no_faults start finished
execute_operation-Committed_example =
    execute_operation-Committed memory formats source no_faults start finished
      (λ i. (executes i, finished))

execute_operation-bound_example :
    (bound finished.operation ≡ bound first)
    × ((e : ArchiveError)
        → bound (reject_operation memory formats source e finished).1.operation ≡ bound first)
execute_operation-bound_example = execute_operation-bound memory formats source no_faults start

commit_plan-reports_example :
    (map result_key
        (commit_plan memory formats source no_faults plan (codes "v1") empty_disk).0.items
      ≡ map item_key plan.items)
    × (((commit_plan memory formats source no_faults plan (codes "v1") empty_disk).0.status
          ≡ all_committed)
        ↔ ((any is_committed
                (commit_plan memory formats source no_faults plan (codes "v1") empty_disk).0.items
              ≡ true)
            × (all is_committed
                  (commit_plan memory formats source no_faults plan (codes "v1") empty_disk).0.items
                ≡ true)))
    × (((commit_plan memory formats source no_faults plan (codes "v1") empty_disk).0.status
          ≡ commit_failed)
        ↔ (any is_committed
              (commit_plan memory formats source no_faults plan (codes "v1") empty_disk).0.items
            ≡ false))
    × (text_eq plan.authority_id (codes "v1") ≡ false
        → (any is_committed
              (commit_plan memory formats source no_faults plan (codes "v1") empty_disk).0.items
            ≡ false)
          × ((commit_plan memory formats source no_faults plan (codes "v1") empty_disk).1
              ≡ empty_disk))
commit_plan-reports_example =
    commit_plan-reports memory formats source no_faults plan (codes "v1") empty_disk

-- The plan is committed.
commits :
    (commit_plan memory formats source no_faults plan (codes "v1") empty_disk).0.status
    ≡ all_committed
unfolding evaluates
commits = refl

abbrev to_copying : Move
to_copying = record {
  now = 5;
  state = op_copying;
  invariant_result = codes "pending";
  outcome = codes "copying";
  failure_reason = none;
}

abbrev second : OperationRecord
second = sealed (codes "01") (move_on to_copying (codes "00") first)

abbrev entries : List Entry
entries = map entry_of (first ∷ second ∷ [])

seals : seal_initial_record formats (new_operation formats plan item (codes "a1") 5) ≡ ok first
unfolding evaluates
seals = refl

writes : records_of formats (to_copying ∷ []) first ≡ ok (first ∷ second ∷ [])
unfolding evaluates
writes = refl

records_of-check_records_example :
    check_records formats (codes "a1") first.schema_version 0 none entries ≡ ok tt
records_of-check_records_example =
    records_of-check_records formats plan item (codes "a1") 5 (to_copying ∷ []) {r = first}
      {rs = first ∷ second ∷ []} seals (omega arith) writes

differ : operation_record_digest formats first ≡ operation_record_digest formats second → ⊥
unfolding evaluates
differ h = ground arith

no_collision : NoCollision formats entries entries
no_collision x y (inl e) (inl e') h = ap (λ (z : Entry). unsigned z.1) (sym e ∙ e')
no_collision x y (inl e) (inr (inl e')) h = absurd (
    differ (
      ap (λ (z : Entry). operation_record_digest formats z.1) e
      ∙ h
      ∙ sym (ap (λ (z : Entry). operation_record_digest formats z.1) e')))
no_collision x y (inr (inl e)) (inl e') h = absurd (
    differ (
      ap (λ (z : Entry). operation_record_digest formats z.1) e'
      ∙ sym h
      ∙ sym (ap (λ (z : Entry). operation_record_digest formats z.1) e)))
no_collision x y (inr (inl e)) (inr (inl e')) h = ap (λ (z : Entry). unsigned z.1) (sym e ∙ e')
no_collision x y (inr (inr l)) m h = absurd l.lower
no_collision x y (inl e) (inr (inr l)) h = absurd l.lower
no_collision x y (inr (inl e)) (inr (inr l)) h = absurd l.lower

check_records_unique_example : (entries ≡ entries) × (◌≡◌ {A = Option Text} none none)
unfolding new_operation
check_records_unique_example =
    check_records_unique formats (codes "a1") 3 3 0 none none entries entries (codes "01")
      records_of-check_records_example records_of-check_records_example refl refl no_collision

abbrev start_full : Run full
start_full = record { disk = empty_disk; operation = first; exposed = false }

abbrev to_failed : Move
to_failed = record {
  now = 6;
  state = op_failed;
  invariant_result = codes "rejected";
  outcome = codes "not-committed";
  failure_reason = some (codes "failed");
}

abbrev third : OperationRecord
third = sealed (codes "02") (move_on to_failed (codes "01") second)

-- The write fails.
write_fails :
    is_ok
      (transition_required full formats op_copying
        (codes "pending")
        (codes "copying")
        none
        start_full).0
    ≡ false
unfolding evaluates
write_fails = refl

goes_on : advance formats to_copying first ≡ ok second
unfolding evaluates
goes_on = refl

fails_next :
    advance formats to_failed
      (transition_required full formats op_copying
        (codes "pending")
        (codes "copying")
        none
        start_full).1.operation
    ≡ ok third
unfolding evaluates
fails_next = refl

transition-gap_example :
    check_records formats (codes "a1") 3 0 none (entry_of first ∷ entry_of third ∷ []) ≢ ok tt
unfolding new_operation
transition-gap_example =
    transition-gap full formats op_copying (codes "pending") (codes "copying") none start_full
      second third to_failed goes_on fails_next (omega arith) (codes "a1") 3 0 none []

abbrev nothing_done : ReconciliationReport
nothing_done = record { recovered = 0; abandoned = 0 }

abbrev one_abandoned_report : ReconciliationReport
one_abandoned_report = record { recovered = 0; abandoned = 1 }

abbrev never_undone : Text → memory.State → Result ArchiveError Bool × memory.State
never_undone id d = (ok false, d)

abbrev abandoned_run : Run memory
abandoned_run = (reconcile_record memory formats source never_undone nothing_done start).1

abandons :
    (reconcile_record memory formats source never_undone nothing_done start).0
    ≡ ok one_abandoned_report
unfolding evaluates
abandons = refl

reconcile_record-Settled_example :
    Settled memory formats source first abandoned_run.operation nothing_done one_abandoned_report
reconcile_record-Settled_example =
    reconcile_record-Settled memory formats source never_undone nothing_done one_abandoned_report
      start abandoned_run (λ i. (abandons i, abandoned_run))

-- A journal with one operation that was interrupted before its copy.
abbrev recovery : Result ArchiveError (ReconciliationReport × List OperationRecord) × memory.State
recovery = reconcile_vault memory journal_formats list_journal source never_undone interrupted_disk

abbrev abandoned_later : OperationRecord
abandoned_later =
    (reconcile_record memory journal_formats source never_undone nothing_done
      (record { disk = interrupted_disk; operation = interrupted; exposed = false })).1.operation

recovers : recovery.0 ≡ ok (one_abandoned_report, abandoned_later ∷ [])
unfolding evaluates
recovers = refl

reconcile_vault-Recovered_example :
    Recovered memory journal_formats source never_undone list_journal interrupted_disk
      one_abandoned_report
      (abandoned_later ∷ [])
reconcile_vault-Recovered_example =
    reconcile_vault-Recovered memory journal_formats source never_undone list_journal
      interrupted_disk recovery.1 one_abandoned_report (abandoned_later ∷ [])
      (λ i. (recovers i, recovery.1))

-- The registration of the operation that was carried through.
abbrev registered_formats : Formats
registered_formats = record formats {
  registration_json = record {
    to_vec = λ r. ok (8 ∷ []);
    from_slice = λ bytes. some (registration_from_record finished.operation);
  };
}

abbrev given_out : VerifiedRegisteredOriginal
given_out =
    original finished.operation (registration_from_record finished.operation) (codes "Hi.txt")

gives_out :
    (original_from_record memory registered_formats source
      (codes "v1")
      never_undone
      finished.operation
      finished).0
    ≡ ok given_out
unfolding evaluates
gives_out = refl

original_from_record-Verified_example :
    Verified memory registered_formats source (codes "v1") finished.operation given_out
original_from_record-Verified_example =
    original_from_record-Verified memory registered_formats source (codes "v1") never_undone
      finished.operation finished gives_out
