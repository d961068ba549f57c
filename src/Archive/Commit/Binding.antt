-- ===== src/Archive/Commit/Binding.antt =====
-- archive/transaction.rs: what an operation binds stays bound, whatever becomes of it.
use aiknowledge_sort_mit.Prelude.{◌≡◌, refl, none, []}
use aiknowledge_sort_mit.Vault.Records.{Platform}
use aiknowledge_sort_mit.Archive.Operations.{op_proposed, OperationRecord, ArchiveError, Formats}
use aiknowledge_sort_mit.Archive.Steps.{Run}
use aiknowledge_sort_mit.Archive.Transaction.{SourceAccess}
use aiknowledge_sort_mit.Archive.Transaction.Keeping.{Stable}
use aiknowledge_sort_mit.Archive.Commit.{TransactionFaults, execute_operation, reject_operation}
use aiknowledge_sort_mit.Archive.Commit.Keeping.{execute-Keeps, reject-Keeps}

-- A record without what a transition writes.
abbrev pub bound : OperationRecord → OperationRecord
bound r = record r {
  sequence = 0;
  state = op_proposed;
  recorded_at_unix_ms = 0;
  invariant_result = [];
  outcome = [];
  failure_reason = none;
  previous_record_sha256 = none;
  record_sha256 = none;
}

module _ (p : Platform) (f : Formats) (a : SourceAccess p) where
  pub bound-Stable : (x : OperationRecord) → Stable p (λ r. bound r ≡ bound x) f
  bound-Stable x r h = (λ digest. h, λ now state invariant_result outcome reason previous. h)

  -- Whether an operation is committed, interrupted or rejected, and whatever calls of the disk fail on
  -- the way: its record names the plan, the item, the source, the destination, the names, the
  -- classification, the size and the identity that it named at the start. A rejection and its clean-up
  -- do not change them either.
  pub execute_operation-bound :
      (faults : TransactionFaults) (s : Run p)
      → (bound (execute_operation p f a faults s).1.operation ≡ bound s.operation)
        × ((e : ArchiveError)
            → bound (reject_operation p f a e (execute_operation p f a faults s).1).1.operation
              ≡ bound s.operation)
  execute_operation-bound faults s =
      let kept =
        execute-Keeps p f a (λ r. bound r ≡ bound s.operation) (bound-Stable s.operation) faults s
          refl in
      (
        kept,
        λ e.
            reject-Keeps p f a (λ r. bound r ≡ bound s.operation) (bound-Stable s.operation) e
              (execute_operation p f a faults s).1 kept,
      )
