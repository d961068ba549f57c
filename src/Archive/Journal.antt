-- ===== src/Archive/Journal.antt =====
-- archive/transaction.rs: the records that an operation writes, one after the other, are a stream
-- that the audit accepts.
use aiknowledge_sort_mit.Prelude.{
  ℕ, ◌+◌, ◌<◌, ◌^◌, ◌≡◌, refl, Bool, true, ◌&&◌, Option, none, some, List, [], ◌∷◌, map, Text,
  codes, length, text_eq, text_eq_refl, texts_eq, texts_eq_refl, arith, inl, inr, Result,
  Result-cases, ok, err, ◌>>=◌, ok_or, subst, sym,
}
use aiknowledge_sort_mit.Archive.Plans.{ArchivePlan, ArchivePlanItem}
use aiknowledge_sort_mit.Archive.Operations.{
  OperationState, OperationRecord, ArchiveError, Formats, predecessor_missing,
  operation_record_path,
}
use aiknowledge_sort_mit.Archive.Operations.Advancing.{
  is_audited_schema, moved, sealed, operation_record_digest, verify_record_digest,
  seal_initial_record,
}
use aiknowledge_sort_mit.Archive.Operations.Audit.{Entry, is_linked, previous_eq, check_records}
use aiknowledge_sort_mit.Archive.Commit.{new_operation}

-- The arguments of a transition, and the time of its record.
pub record Move : Type 0 where
  pub now : ℕ
  pub state : OperationState
  pub invariant_result : Text
  pub outcome : Text
  pub failure_reason : Option Text

abbrev pub move_on : Move → Text → OperationRecord → OperationRecord
move_on m previous r = moved m.now m.state m.invariant_result m.outcome m.failure_reason previous r

abbrev pub entry_of : OperationRecord → Entry
entry_of r = (operation_record_path r, r)

module _ (f : Formats) where
  -- What `transition_required` makes of the record before it writes it.
  unfoldable pub advance : Move → OperationRecord → Result ArchiveError OperationRecord
  advance m r = do
    previous ← ok_or r.record_sha256 predecessor_missing
    digest ← operation_record_digest f (move_on m previous r)
    ok (sealed digest (move_on m previous r))

  -- The records that transitions write after the first one.
  unfoldable pub records_of :
      List Move → OperationRecord → Result ArchiveError (List OperationRecord)
  records_of [] r = ok (r ∷ [])
  records_of (m ∷ ms) r = do next ← advance m r; rest ← records_of ms next; ok (r ∷ rest)

  -- What the audit wants of a record besides its place in the stream.
  abbrev has_form : OperationRecord → Bool
  has_form r =
      is_audited_schema r.schema_version
      && text_eq r.actor (codes "desktop-user")
      && text_eq r.action (codes "archive-original-with-canonical-name")
      && text_eq r.decision (codes "desktop-user-confirmed-reviewed-plan")
      && texts_eq r.selected_scope (r.source_path ∷ r.destination_path ∷ [])

  previous_eq_refl : (o : Option Text) → previous_eq o o ≡ true
  previous_eq_refl none = refl
  previous_eq_refl (some t) = text_eq_refl t

  form-is_linked :
      (r : OperationRecord)
      → has_form r ≡ true
      → is_linked r.operation_id r.schema_version r.sequence r.previous_record_sha256 (entry_of r)
        ≡ true
  form-is_linked r h = ground (
    arith,
    text_eq_refl r.operation_id,
    text_eq_refl (operation_record_path r),
    previous_eq_refl r.previous_record_sha256,
  )

  advance-ok :
      (m : Move) (r : OperationRecord) (d d' : Text)
      → r.record_sha256 ≡ some d
      → operation_record_digest f (move_on m d r) ≡ ok d'
      → advance m r ≡ ok (sealed d' (move_on m d r))
  unfolding advance
  advance-ok m r d d' own made = ground arith

  advance-fails :
      (m : Move) (r : OperationRecord) (d : Text) (ms : List Move) {e : ArchiveError}
      {rs : List OperationRecord}
      → r.record_sha256 ≡ some d
      → operation_record_digest f (move_on m d r) ≡ err e
      → records_of (m ∷ ms) r ≡ ok rs
      → ⊥
  unfolding advance records_of
  advance-fails m r d ms own failed h = ground arith

  records_of-accepted :
      (ms : List Move) (r : OperationRecord) (d : Text) {rs : List OperationRecord}
      → has_form r ≡ true
      → r.record_sha256 ≡ some d
      → operation_record_digest f r ≡ ok d
      → r.sequence + length ms < 2 ^ 32
      → records_of ms r ≡ ok rs
      → check_records f r.operation_id r.schema_version r.sequence r.previous_record_sha256
          (map entry_of rs)
        ≡ ok tt
  unfolding records_of check_records verify_record_digest operation_record_digest
  records_of-accepted [] r d {rs} form own computed bound h =
      subst
        (λ rs.
          check_records f r.operation_id r.schema_version r.sequence r.previous_record_sha256
            (map entry_of rs)
          ≡ ok tt)
        {x = r ∷ []} {y = rs} (ground arith)
        (ground (arith, form-is_linked r form, own, computed, text_eq_refl d))
  records_of-accepted (m ∷ ms) r d {rs} form own computed bound h =
      let moved_r = move_on m d r in
      elim (Result-cases (operation_record_digest f moved_r)) [
        | inr (e, failed) ↦ absurd (advance-fails m r d ms own failed h)
        | inl (d', made) ↦ elim (Result-cases (records_of ms (sealed d' moved_r))) [
          | inr (e, failed) ↦ absurd (ground (arith, advance-ok m r d d' own made))
          | inl (rest, others) ↦
              let later =
                records_of-accepted ms (sealed d' moved_r) d' form refl made (ground arith)
                  others in
              subst
                (λ rs.
                  check_records f r.operation_id r.schema_version r.sequence
                    r.previous_record_sha256 (map entry_of rs)
                  ≡ ok tt)
                {x = r ∷ rest} {y = rs} (ground (arith, advance-ok m r d d' own made))
                (ground (arith, later, form-is_linked r form, own, computed, text_eq_refl d))
        ]
      ]

  seal-sealed :
      (r : OperationRecord) {r' : OperationRecord}
      → seal_initial_record f r ≡ ok r'
      → (d : Text) × (operation_record_digest f r' ≡ ok d) × (r' ≡ sealed d r)
  unfolding seal_initial_record operation_record_digest
  seal-sealed r {r'} h = elim (Result-cases (operation_record_digest f r)) [
    | inr (e, failed) ↦ absurd (ground arith)
    | inl (d, made) ↦
        let same : r' ≡ sealed d r = ground arith in
        (d, subst (λ q. operation_record_digest f q ≡ ok d) (sym same) made, same)
  ]

  new_form :
      (plan : ArchivePlan) (item : ArchivePlanItem) (operation_id : Text) (now : ℕ)
      → has_form (new_operation f plan item operation_id now) ≡ true
  unfolding new_operation
  new_form plan item operation_id now = ground (
    arith,
    texts_eq_refl (item.source_path ∷ item.destination_path ∷ []),
    text_eq_refl (codes "desktop-user"),
    text_eq_refl (codes "archive-original-with-canonical-name"),
    text_eq_refl (codes "desktop-user-confirmed-reviewed-plan"),
  )

  -- The audit accepts what an operation writes: the records of a new operation of a plan and of the
  -- transitions after it, each in its file, are a stream that passes the check from the first index
  -- on, when the transitions are fewer than 2^32 and every record can be serialized.
  pub records_of-check_records :
      (plan : ArchivePlan) (item : ArchivePlanItem) (operation_id : Text) (now : ℕ) (ms : List Move)
      {r : OperationRecord} {rs : List OperationRecord}
      → seal_initial_record f (new_operation f plan item operation_id now) ≡ ok r
      → length ms < 2 ^ 32
      → records_of ms r ≡ ok rs
      → check_records f operation_id r.schema_version 0 none (map entry_of rs) ≡ ok tt
  unfolding new_operation
  records_of-check_records plan item operation_id now ms {r} {rs} h bound written =
      let (d, computed, same) = seal-sealed (new_operation f plan item operation_id now) h in
      let first = sealed d (new_operation f plan item operation_id now) in
      subst
        (λ (r : OperationRecord).
          records_of ms r ≡ ok rs
          → operation_record_digest f r ≡ ok d
          → check_records f operation_id r.schema_version 0 none (map entry_of rs) ≡ ok tt)
        {x = first} {y = r} (sym same)
        (λ written computed.
          records_of-accepted ms first d {rs = rs} (new_form plan item operation_id now) refl
            computed (omega arith) written)
        written computed
