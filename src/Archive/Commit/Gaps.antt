-- ===== src/Archive/Commit/Gaps.antt =====
-- archive/transaction.rs: a transition advances the record before it is written. When the write fails
-- and the operation is then recorded as failed, the journal has a gap.
use aiknowledge_sort_mit.Prelude.{
  ℕ, suc, ◌+◌, ◌<◌, ◌^◌, ◌≡◌, ◌≢◌, refl, List, ◌∷◌, Option, Text, arith, inl, inr, Result-cases,
  Option-cases, ok,
}
use aiknowledge_sort_mit.Prelude.Execs.{continue}
use aiknowledge_sort_mit.Vault.Records.{Platform}
use aiknowledge_sort_mit.Archive.Operations.{OperationState, OperationRecord, Formats}
use aiknowledge_sort_mit.Archive.Operations.Advancing.{moved, sealed, operation_record_digest}
use aiknowledge_sort_mit.Archive.Operations.Audit.{Entry, check_records, check-Accepted}
use aiknowledge_sort_mit.Archive.Steps.{Run, on_disk}
use aiknowledge_sort_mit.Archive.Transaction.{
  transition_required, transition_from, seal_and_persist,
}
use aiknowledge_sort_mit.Archive.Transaction.Keeping.{sealed-Keeps}
use aiknowledge_sort_mit.Archive.Journal.{Move, move_on, advance, entry_of}

module _ (f : Formats) where
  advance-sequence :
      (m : Move) (r : OperationRecord) {r' : OperationRecord}
      → advance f m r ≡ ok r'
      → r.sequence + 1 < 2 ^ 32
      → r'.sequence ≡ r.sequence + 1
  unfolding advance
  advance-sequence m r h small = elim (Option-cases r.record_sha256) [
    | inl missing ↦ absurd (ground arith)
    | inr (previous, present) ↦
        elim (Result-cases (operation_record_digest f (move_on m previous r))) [
          | inr (e, failed) ↦ absurd (ground arith)
          | inl (digest, made) ↦ ground arith
        ]
  ]

  two-steps :
      (m n : Move) (r : OperationRecord) {r1 r2 : OperationRecord}
      → advance f m r ≡ ok r1
      → advance f n r1 ≡ ok r2
      → r.sequence + 2 < 2 ^ 32
      → r2.sequence ≡ r.sequence + 2
  two-steps m n r {r1} {r2} h k small =
      let one = advance-sequence m r h (omega arith) in
      let two = advance-sequence n r1 {r' = r2} k (omega (arith, one)) in omega (arith, one, two)

module _ (p : Platform) (f : Formats) where
  -- Whether the write succeeds or fails, the record in memory is the next one.
  transition-next :
      (state : OperationState) (invariant_result outcome : Text) (reason : Option Text) (s : Run p)
      {next : OperationRecord}
      → advance f
          (record {
            now = (p.unix_time_ms s.disk).0;
            state = state;
            invariant_result = invariant_result;
            outcome = outcome;
            failure_reason = reason;
          })
          s.operation
        ≡ ok next
      → (transition_required p f state invariant_result outcome reason s).1.operation ≡ next
  unfolding transition_required transition_from seal_and_persist advance on_disk continue
  transition-next state invariant_result outcome reason s {next} h =
      elim (Option-cases s.operation.record_sha256) [
        | inl missing ↦ absurd (ground arith)
        | inr (previous, present) ↦
            let now = (p.unix_time_ms s.disk).0 in
            let moved_r = moved now state invariant_result outcome reason previous s.operation in
            elim (Result-cases (operation_record_digest f moved_r)) [
              | inr (e, failed) ↦ absurd (ground arith)
              | inl (digest, made) ↦
                  let kept =
                    sealed-Keeps p (λ r. r ≡ sealed digest moved_r) f state (sealed digest moved_r)
                      (record {
                        disk = (p.unix_time_ms s.disk).1;
                        operation = sealed digest moved_r;
                        exposed = s.exposed;
                      })
                      refl in
                  ground (arith, kept)
            ]
      ]

  -- A transition whose record could not be written still advances the record in memory. If the
  -- operation is then recorded as failed, by the next record of what is in memory, no stream in which
  -- that record follows the last one written is accepted: it misses an index.
  pub transition-gap :
      (state : OperationState) (invariant_result outcome : Text) (reason : Option Text) (s : Run p)
      (next r : OperationRecord) (failed : Move)
      → advance f
          (record {
            now = (p.unix_time_ms s.disk).0;
            state = state;
            invariant_result = invariant_result;
            outcome = outcome;
            failure_reason = reason;
          })
          s.operation
        ≡ ok next
      → advance f failed
          (transition_required p f state invariant_result outcome reason s).1.operation
        ≡ ok r
      → s.operation.sequence + 2 < 2 ^ 32
      → (id : Text) (schema index : ℕ) (previous : Option Text) (rest : List Entry)
      → check_records f id schema index previous (entry_of s.operation ∷ entry_of r ∷ rest) ≢ ok tt
  transition-gap state invariant_result outcome reason s next r failed h k small id schema index
        previous rest accepted =
      let same = transition-next state invariant_result outcome reason s {next = next} h in
      let later = two-steps f _ failed s.operation {r1 = next} {r2 = r} h (rw (← same) k) small in
      let (first, others) =
        check-Accepted f id schema index previous (entry_of s.operation) (entry_of r ∷ rest)
          accepted in
      let (second, _) =
        check-Accepted f id schema (suc index) s.operation.record_sha256 (entry_of r) rest others in
      omega (arith, later, first.at_index, second.at_index)
