-- ===== src/Archive/Recovery/Sound.antt =====
-- archive/transaction.rs: what a whole recovery rests on, from the listing of the journal to its
-- report.
use aiknowledge_sort_mit.Prelude.{
  ℕ, ◌+◌, ◌≡◌, refl, subst, ◌⊎◌, inl, inr, Bool, true, false, none, some, List, [], ◌∷◌, Text,
  arith, All, if◌then◌else◌, Result, ok, Result-cases, sort_by,
}
use aiknowledge_sort_mit.Prelude.Maps.{get}
use aiknowledge_sort_mit.Prelude.Execs.{pure, continue-eq-ok}
use aiknowledge_sort_mit.Vault.Records.{Platform}
use aiknowledge_sort_mit.Archive.Operations.{
  OperationRecord, ArchiveError, Formats, is_terminal, op_committed,
}
use aiknowledge_sort_mit.Archive.Operations.Audit.{Entry, check_records}
use aiknowledge_sort_mit.Archive.Steps.{Run}
use aiknowledge_sort_mit.Archive.Transaction.{SourceAccess}
use aiknowledge_sort_mit.Archive.Commit.Binding.{bound, bound-Stable}
use aiknowledge_sort_mit.Archive.Commit.Preserving.{step-ok}
use aiknowledge_sort_mit.Archive.Recovery.{
  ReconciliationReport, last_entry, verify_stream, reconcile_record, reconcile_all,
}
use aiknowledge_sort_mit.Archive.Recovery.Settling.{
  TargetHashed, open_operations, reconcile_record-Settled,
}
use aiknowledge_sort_mit.Archive.Recovery.Keeping.{reconcile_record-Keeps}
use aiknowledge_sort_mit.Archive.Recovery.Reading.{
  EntryRead, OnlyRead, collect-read, collect-OnlyRead,
}
use aiknowledge_sort_mit.Archive.Recovery.Listing.{
  JournalEntry, entry_le, has_audited, on_run, audit_stream, latest_of, latest_records,
  latest_operation_records, reconcile_vault,
}

module _ (p : Platform) (f : Formats) where
  -- A stream that the audit accepts whole.
  abbrev pub Audited : Text → List Entry → Type 0
  Audited operation_id records =
      (schema : ℕ) × (check_records f operation_id schema 0 none records ≡ ok tt)

  -- The record that a stream ends with, of an audited stream one that the audit accepts whole.
  abbrev pub LatestOf : Text → List Entry → OperationRecord → Type 0
  LatestOf operation_id records r =
      (last_entry records ≡ some r) × (has_audited records ≡ true → Audited operation_id records)

  abbrev pub EachLatest : List (Text × List Entry) → List OperationRecord → Type 0
  EachLatest [] [] = Unit
  EachLatest (stream ∷ streams) (r ∷ rs) =
      LatestOf stream.0 (sort_by entry_le stream.1) r × EachLatest streams rs
  EachLatest [] (_ ∷ _) = ⊥
  EachLatest (_ ∷ _) [] = ⊥

  verify_stream-Audited :
      (operation_id : Text) (records : List Entry) (s : Run p)
      → (verify_stream p f operation_id records s).0 ≡ ok tt
      → Audited operation_id records
  unfolding verify_stream
  verify_stream-Audited operation_id records s h =
      let (_, valid, h1) = continue-eq-ok _ _ _ h in
      let (schema, found, h2) = continue-eq-ok _ _ _ h1 in
      let (_, checked, h3) = continue-eq-ok _ _ _ h2 in (schema, checked)

  audit-Audited :
      (operation_id : Text) (r : OperationRecord) (records : List Entry) (d : p.State)
      → (audit_stream p f operation_id r records d).0 ≡ ok tt
      → has_audited records ≡ true
      → Audited operation_id records
  audit-Audited operation_id r records d h audited =
      verify_stream-Audited operation_id records
        (record { disk = d; operation = r; exposed = false })
        (subst
          (λ b.
            ((if b then on_run p f r (verify_stream p f operation_id records) else pure tt) d).0
            ≡ ok tt)
          audited h)

  latest_of-LatestOf :
      (operation_id : Text) (records : List Entry) (r : OperationRecord) (d : p.State)
      → (latest_of p f operation_id records d).0 ≡ ok r
      → LatestOf operation_id records r
  unfolding latest_of
  latest_of-LatestOf operation_id [] r d h = absurd (ground arith)
  latest_of-LatestOf operation_id (e ∷ es) r d h =
      let (_, audited, h1) = continue-eq-ok _ _ _ h in
      (ground arith, audit-Audited operation_id e.1 (e ∷ es) d audited)

  latest_records-EachLatest :
      (streams : List (Text × List Entry)) (rs : List OperationRecord) (d : p.State)
      → (latest_records p f streams d).0 ≡ ok rs
      → EachLatest streams rs
  unfolding latest_records
  latest_records-EachLatest [] rs d h = subst (EachLatest []) {x = []} {y = rs} (ground arith) tt
  latest_records-EachLatest (stream ∷ streams) rs d h =
      let (r, first, h1) = continue-eq-ok _ _ _ h in
      let (rest, others, h2) = continue-eq-ok _ _ _ h1 in
      subst (EachLatest (stream ∷ streams)) {x = r ∷ rest} {y = rs} (ground arith) (
        latest_of-LatestOf stream.0 (sort_by entry_le stream.1) r d first,
        latest_records-EachLatest streams rest _ others,
      )

  streams_empty :
      (listing : List (Result Text JournalEntry)) (d : p.State) → OnlyRead p f d listing []
  unfolding get
  streams_empty listing d id es found = absurd (ground arith)

  module _ (a : SourceAccess p)
      (operation_is_undone : Text → p.State → Result ArchiveError Bool × p.State) where
    -- What became of an operation: it is at an end, its record names what it named before, and it is
    -- committed only if it was before or its target hashed to its identity.
    abbrev pub Ends : OperationRecord → OperationRecord → Type 0
    Ends before after =
        (is_terminal after.state ≡ true)
        × (bound after ≡ bound before)
        × (after.state ≡ op_committed → (before.state ≡ op_committed) ⊎ TargetHashed p f a before)

    abbrev pub EachEnds : List OperationRecord → List OperationRecord → Type 0
    EachEnds [] [] = Unit
    EachEnds (r ∷ rs) (e ∷ es) = Ends r e × EachEnds rs es
    EachEnds [] (_ ∷ _) = ⊥
    EachEnds (_ ∷ _) [] = ⊥

    reconcile_all-EachEnds :
        (report report' : ReconciliationReport) (rs rs' : List OperationRecord) (d d' : p.State)
        → reconcile_all p f a operation_is_undone report rs d ≡ (ok (report', rs'), d')
        → EachEnds rs rs'
          × (report'.recovered + report'.abandoned
              ≡ report.recovered + report.abandoned + open_operations rs)
    unfolding reconcile_all
    reconcile_all-EachEnds report report' [] rs' d d' h =
        (subst (EachEnds []) {x = []} {y = rs'} (ground arith) tt, ground arith)
    reconcile_all-EachEnds report report' (r ∷ rs) rs' d d' h =
        let s : Run p = record { disk = d; operation = r; exposed = false } in
        let one = reconcile_record p f a operation_is_undone report s in
        elim (Result-cases one.0) [
          | inr (e, failed) ↦ absurd (ground arith)
          | inl (next, settled) ↦
              let rest = reconcile_all p f a operation_is_undone next rs one.1.disk in
              elim (Result-cases rest.0) [
                | inr (e, failed) ↦ absurd (ground arith)
                | inl (done, reconciled) ↦
                    let here =
                      reconcile_record-Settled p f a operation_is_undone report next s one.1
                        (λ i. (settled i, one.1)) in
                    let kept =
                      reconcile_record-Keeps p f a (λ o. bound o ≡ bound r) (bound-Stable p f a r)
                        operation_is_undone report s refl in
                    let (each, counted) =
                      reconcile_all-EachEnds next done.0 rs done.1 one.1.disk rest.1
                        (λ i. (reconciled i, rest.1)) in
                    (
                      subst (EachEnds (r ∷ rs)) {x = one.1.operation ∷ done.1} {y = rs'}
                          (ground arith) ((here.ended, kept, here.committed), each),
                      ground (arith, counted, here.counted),
                    )
              ]
        ]

    module _ (list_journal : p.State → Result Text (List (Result Text JournalEntry))) where
      -- What a recovery that returned a report did.
      pub record Recovered (d : p.State) (report : ReconciliationReport)
          (ended : List OperationRecord) : Type 0 where
        pub listing : List (Result Text JournalEntry)
        pub streams : List (Text × List Entry)
        pub latest : List OperationRecord
        pub listed : list_journal d ≡ ok listing
        pub all_read : All (EntryRead p f d streams) listing
        pub only_read : OnlyRead p f d listing streams
        pub last : EachLatest streams latest
        pub ends : EachEnds latest ended
        pub counted : report.recovered + report.abandoned ≡ open_operations latest

      -- A recovery that returns a report has read the whole listing of the journal: no entry of it is
      -- unreadable or a link, the record of each entry with the extension of one is supported and is
      -- in the stream of its operation, and the streams hold nothing else. It has taken the last
      -- record of each stream in the order of the sequence numbers, and has accepted the whole of each
      -- stream that has an audited record. Each of these operations then has a record in a terminal
      -- state that names what it named before, and is committed only if it was before or its target
      -- hashed to its identity; and the report counts exactly those that were not in a terminal state
      -- before.
      pub reconcile_vault-Recovered :
          (d d' : p.State) (report : ReconciliationReport) (ended : List OperationRecord)
          → reconcile_vault p f list_journal a operation_is_undone d ≡ (ok (report, ended), d')
          → Recovered d report ended
      unfolding reconcile_vault latest_operation_records
      reconcile_vault-Recovered d d' report ended h =
          let (latest, taken, h1) = step-ok _ _ _ h in
          let (streams, collected, h2) = continue-eq-ok _ _ _ taken in
          let (listing, mapped, h3) = continue-eq-ok _ _ _ collected in
          let (each, counted) =
            reconcile_all-EachEnds (record { recovered = 0; abandoned = 0 }) report latest ended _
              d' h1 in
          record {
            listing = listing;
            streams = streams;
            latest = latest;
            listed = elim (Result-cases (list_journal d)) [
              | inl (x, e) ↦ ground arith
              | inr (m, e) ↦ absurd (ground arith)
            ];
            all_read = collect-read p f 0 [] listing d {end = streams} h3;
            only_read =
                collect-OnlyRead p f 0 listing [] listing d {end = streams} h3 (λ x m. m)
                  (streams_empty listing d);
            last = latest_records-EachLatest streams latest _ h2;
            ends = each;
            counted = omega (arith, counted);
          }
