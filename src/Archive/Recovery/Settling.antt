-- ===== src/Archive/Recovery/Settling.antt =====
-- archive/transaction.rs: the recovery leaves every operation in a terminal state.
use aiknowledge_sort_mit.Prelude.{
  ℕ, ◌+◌, ◌≡◌, refl, sym, ◌∙◌, ap, subst, ◌⊎◌, Bool, true, false, Option, none, some, List, [], ◌∷◌,
  Text, codes, arith, inl, inr, Result, Result-cases, Option-cases, ok, if◌then◌else◌,
}
use aiknowledge_sort_mit.Prelude.Execs.{Keeps, Keeps->>=, continue, pure}
use aiknowledge_sort_mit.Identity.{identity_eq→eq}
use aiknowledge_sort_mit.Vault.Records.{Platform}
use aiknowledge_sort_mit.Archive.Operations.{
  OperationState, op_proposed, op_copying, op_verified, op_committed, op_failed, op_abandoned,
  OperationRecord, ArchiveError, Formats, is_terminal, staging_path_of,
  pending_registration_path_of,
}
use aiknowledge_sort_mit.Archive.Operations.Advancing.{operation_record_digest}
use aiknowledge_sort_mit.Archive.Steps.{Run, on_disk}
use aiknowledge_sort_mit.Archive.Transaction.{SourceAccess, transition_required, hash_vault_file}
use aiknowledge_sort_mit.Archive.Transaction.Keeping.{on_disk-Keeps, remove_file-Keeps, hash-Keeps}
use aiknowledge_sort_mit.Archive.Journal.{Move, move_on, advance}
use aiknowledge_sort_mit.Archive.Commit.Preserving.{transition-advance, step-ok}
use aiknowledge_sort_mit.Archive.Recovery.{
  ReconciliationReport, remove_staging, remove_pending, abandon_operation, check_target,
  recover_registration, verify_committed, recover_operation, remove_leftovers, keep_committed,
  keep_ended, end_early, end_verified, end_unexposed, settle_record, reconcile_record,
}

-- How many operations were not at an end.
abbrev pub open_operations : List OperationRecord → ℕ
open_operations [] = 0
open_operations (r ∷ rs) = (if is_terminal r.state then 0 else 1) + open_operations rs

module _ (f : Formats) where
  advance-state :
      (m : Move) (r : OperationRecord) {r' : OperationRecord}
      → advance f m r ≡ ok r'
      → r'.state ≡ m.state
  unfolding advance
  advance-state m r h = elim (Option-cases r.record_sha256) [
    | inl missing ↦ absurd (ground arith)
    | inr (previous, present) ↦
        elim (Result-cases (operation_record_digest f (move_on m previous r))) [
          | inr (e, failed) ↦ absurd (ground arith)
          | inl (digest, made) ↦ ground arith
        ]
  ]

module _ (p : Platform) (f : Formats) (a : SourceAccess p) where
  transition-state :
      (state : OperationState) (invariant_result outcome : Text) (reason : Option Text)
      (s s' : Run p)
      → transition_required p f state invariant_result outcome reason s ≡ (ok tt, s')
      → s'.operation.state ≡ state
  transition-state state invariant_result outcome reason s s' h =
      let (now, advanced) =
        transition-advance p f state invariant_result outcome reason s
          (ap (λ (x : Result ArchiveError (Unit {0}) × Run p). x.0) h) in
      ap (λ (x : Result ArchiveError (Unit {0}) × Run p). x.1.operation.state) (sym h)
      ∙ advance-state f _ s.operation advanced

  abandon-state :
      (reason : Text) (r : OperationRecord) (s s' : Run p)
      → abandon_operation p f a reason r s ≡ (ok tt, s')
      → s'.operation.state ≡ op_abandoned
  unfolding abandon_operation
  abandon-state reason r s s' h =
      let (_, h1, k1) = step-ok _ _ _ h in
      let (_, h2, k2) = step-ok _ _ _ k1 in
      let (_, h3, k3) = step-ok _ _ _ k2 in
      transition-state op_abandoned (codes "source-preserved") (codes "abandoned") (some reason) _
        s' k3

  -- The target was hashed, and has the identity of the record.
  abbrev pub TargetHashed : OperationRecord → Type 0
  TargetHashed r = (s : Run p) × ((hash_vault_file p f r.destination_path s).0 ≡ ok r.identity)

  check_target-hash :
      (r : OperationRecord) (s : Run p) → (check_target p f a r s).0 ≡ ok tt → TargetHashed r
  unfolding check_target continue
  check_target-hash r s h = elim (Result-cases (hash_vault_file p f r.destination_path s).0) [
    | inr (e, failed) ↦ absurd (ground arith)
    | inl (identity, made) ↦ (s, ground (arith, identity_eq→eq identity r.identity))
  ]

  recover-state :
      (r : OperationRecord) (s s' : Run p)
      → recover_operation p f a r s ≡ (ok tt, s')
      → (s'.operation.state ≡ op_committed) × TargetHashed r
  unfolding recover_operation
  recover-state r s s' h =
      let (_, h1, k1) = step-ok _ _ _ h in
      let (_, h2, k2) = step-ok _ _ _ k1 in
      let (_, h3, k3) = step-ok _ _ _ k2 in
      let s1 = (check_target p f a r s).1 in
      let s2 = (recover_registration p f a r s1).1 in
      let s3 =
        (transition_required p f op_committed (codes "registered-original-preserved")
          (codes "committed") none s2).1 in
      let kept =
        remove_file-Keeps p (λ o. o.state ≡ op_committed) (staging_path_of r.operation_id) s3
          (transition-state op_committed (codes "registered-original-preserved") (codes "committed")
            none s2 s3 (λ i. (h3 i, s3))) in
      (
        subst (λ (t : Run p). t.operation.state ≡ op_committed)
            (ap (λ (x : Result ArchiveError (Unit {0}) × Run p). x.1) k3) kept,
        check_target-hash r s h1,
      )

  -- What the recovery made of a record.
  pub record Settled (before after : OperationRecord) (report report' : ReconciliationReport)
      : Type 0 where
    pub ended : is_terminal after.state ≡ true
    pub counted :
        report'.recovered + report'.abandoned
        ≡ report.recovered + report.abandoned + (if is_terminal before.state then 0 else 1)
    pub committed : after.state ≡ op_committed → (before.state ≡ op_committed) ⊎ TargetHashed before

  pub leftovers-Keeps :
      (J : OperationRecord → Type 0) (id : Text)
      → Keeps (λ (s : Run p). J s.operation) (remove_leftovers p f a id)
  unfolding remove_leftovers
  leftovers-Keeps J id =
      Keeps->>= (λ (s : Run p). J s.operation) (remove_staging p f a id)
        (λ _. remove_pending p f a id) (remove_file-Keeps p J (staging_path_of id))
        (λ _. remove_file-Keeps p J (pending_registration_path_of id))

  report_of :
      {report report' : ReconciliationReport} {s s' : Run p}
      → pure {E = ArchiveError} report s ≡ (ok report', s')
      → (report ≡ report') × (s ≡ s')
  report_of h =
      (ground (arith, h), ap (λ (x : Result ArchiveError ReconciliationReport × Run p). x.1) h)

  -- An end that makes no transition.
  unmoved :
      (r : OperationRecord) (report report' : ReconciliationReport) (s s' : Run p)
      → is_terminal s.operation.state ≡ true
      → keep_ended p f a r report s ≡ (ok report', s')
      → Settled s.operation s'.operation report report'
  unmoved r report report' s s' terminal h =
      let (_, removed, h1) = step-ok _ _ _ h in
      let s1 = (remove_leftovers p f a r.operation_id s).1 in
      let (same, ends) = report_of h1 in
      let kept : s'.operation ≡ s.operation =
        sym (ap (λ (t : Run p). t.operation) ends)
        ∙ leftovers-Keeps (λ o. o ≡ s.operation) r.operation_id s refl in
      record {
        ended = ap (λ (o : OperationRecord). is_terminal o.state) kept ∙ terminal;
        counted = ground (arith, same);
        committed = λ e. inl (ground (arith, e, kept));
      }

  ends_early :
      (reason : Text) (r : OperationRecord) (report report' : ReconciliationReport) (s s' : Run p)
      → is_terminal s.operation.state ≡ false
      → end_early p f a reason r report s ≡ (ok report', s')
      → Settled s.operation s'.operation report report'
  ends_early reason r report report' s s' open_ h =
      let (_, abandoned, h1) = step-ok _ _ _ h in
      let s1 = (abandon_operation p f a reason r s).1 in
      let (same, ends) = report_of h1 in
      let state : s'.operation.state ≡ op_abandoned =
        sym (ap (λ (t : Run p). t.operation.state) ends)
        ∙ abandon-state reason r s s1 (λ i. (abandoned i, s1)) in
      record {
        ended = ground (arith, state);
        counted = ground (arith, same, open_);
        committed = λ e. absurd (ground (arith, e, state));
      }

  ends_verified :
      (r : OperationRecord) (report report' : ReconciliationReport) (s s' : Run p)
      → s.operation ≡ r
      → is_terminal s.operation.state ≡ false
      → end_verified p f a r report s ≡ (ok report', s')
      → Settled s.operation s'.operation report report'
  ends_verified r report report' s s' own open_ h =
      let (_, recovered, h1) = step-ok _ _ _ h in
      let s1 = (recover_operation p f a r s).1 in
      let (same, ends) = report_of h1 in
      let (state1, hashed) = recover-state r s s1 (λ i. (recovered i, s1)) in
      let state : s'.operation.state ≡ op_committed =
        sym (ap (λ (t : Run p). t.operation.state) ends) ∙ state1 in
      record {
        ended = ground (arith, state);
        counted = ground (arith, same, open_);
        committed = λ e. inr (subst TargetHashed (sym own) hashed);
      }

  module _ (operation_is_undone : Text → p.State → Result ArchiveError Bool × p.State) where
    pub verify-Keeps :
        (J : OperationRecord → Type 0) (r : OperationRecord) (undone : Bool)
        → Keeps
            (λ (s : Run p). J s.operation)
            (if undone then pure {E = ArchiveError} tt else verify_committed p f a r)
    unfolding verify_committed
    verify-Keeps J r true = λ s h. h
    verify-Keeps J r false =
        Keeps->>= (λ (s : Run p). J s.operation) (hash_vault_file p f r.destination_path) _
          (hash-Keeps p J f r.destination_path)
          (λ _.
            Keeps->>= (λ (s : Run p). J s.operation) _ _ (λ s h. h)
              (λ _.
                Keeps->>= (λ (s : Run p). J s.operation) _ _ (on_disk-Keeps p J _) (λ _ s h. h)))

    keep_committed-Settled :
        (r : OperationRecord) (report report' : ReconciliationReport) (s s' : Run p)
        → is_terminal s.operation.state ≡ true
        → keep_committed p f a operation_is_undone r report s ≡ (ok report', s')
        → Settled s.operation s'.operation report report'
    keep_committed-Settled r report report' s s' terminal h =
        let (undone, looked, h1) = step-ok _ _ _ h in
        let (_, verified, h2) = step-ok _ _ _ h1 in
        let s1 = (on_disk p (operation_is_undone r.operation_id) s).1 in
        let s2 = ((if undone then pure {E = ArchiveError} tt else verify_committed p f a r) s1).1 in
        let J : OperationRecord → Type 0 = λ o. o ≡ s.operation in
        let k2 : s2.operation ≡ s.operation =
          verify-Keeps J r undone s1
            (on_disk-Keeps p J (operation_is_undone r.operation_id) s refl) in
        let settled =
          unmoved r report report' s2 s'
            (ap (λ (o : OperationRecord). is_terminal o.state) k2 ∙ terminal) h2 in
        subst (λ o. Settled o s'.operation report report') k2 settled

    settle-Settled :
        (state : OperationState) (report report' : ReconciliationReport) (s s' : Run p)
        → s.operation.state ≡ state
        → settle_record p f a operation_is_undone state s.operation report s ≡ (ok report', s')
        → Settled s.operation s'.operation report report'
    unfolding settle_record
    settle-Settled op_committed report report' s s' e h =
        keep_committed-Settled s.operation report report' s s' (ground (arith, e)) h
    settle-Settled op_failed report report' s s' e h =
        unmoved s.operation report report' s s' (ground (arith, e)) h
    settle-Settled op_abandoned report report' s s' e h =
        unmoved s.operation report report' s s' (ground (arith, e)) h
    settle-Settled op_proposed report report' s s' e h =
        ends_early _ s.operation report report' s s' (ground (arith, e)) h
    settle-Settled op_copying report report' s s' e h =
        ends_early _ s.operation report report' s s' (ground (arith, e)) h
    settle-Settled op_verified report report' s s' e h =
        let (exposed, looked, h1) = step-ok _ _ _ h in
        split exposed report report' s s' (ground (arith, e)) h1
      where
        split :
            (exposed : Bool) (report report' : ReconciliationReport) (s s' : Run p)
            → is_terminal s.operation.state ≡ false
            → (if exposed
                  then end_verified p f a s.operation report
                  else end_unexposed p f a s.operation report)
                s
              ≡ (ok report', s')
            → Settled s.operation s'.operation report report'
        split true report report' s s' open_ h =
            ends_verified s.operation report report' s s' refl open_ h
        split false report report' s s' open_ h =
            ends_early _ s.operation report report' s s' open_ h

    -- A record that the recovery settles ends in a terminal state, and the report counts it when it was
    -- not in one before. It ends committed only when it was committed before, or when the target was
    -- there and hashed to the identity of the record.
    pub reconcile_record-Settled :
        (report report' : ReconciliationReport) (s s' : Run p)
        → reconcile_record p f a operation_is_undone report s ≡ (ok report', s')
        → Settled s.operation s'.operation report report'
    unfolding reconcile_record
    reconcile_record-Settled report report' s s' h =
        let (r, got, h1) = step-ok _ _ _ h in
        let (_, valid, h2) = step-ok _ _ _ h1 in
        let (_, reviewed, h3) = step-ok _ _ _ h2 in
        let same : r ≡ s.operation = ground (arith, got) in
        settle-Settled s.operation.state report report' s s' refl (
          subst
            (λ (o : OperationRecord).
              settle_record p f a operation_is_undone o.state o report s ≡ (ok report', s'))
            same h3)
