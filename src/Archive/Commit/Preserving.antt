-- ===== src/Archive/Commit/Preserving.antt =====
-- archive/transaction.rs: what has happened when an operation is committed.
use aiknowledge_sort_mit.Prelude.{
  ℕ, ◌≡◌, refl, sym, ◌∙◌, ap, subst, true, Option, none, Text, codes, arith, inl, inr, Result,
  Result-cases, Option-cases, ok, err, map_err,
}
use aiknowledge_sort_mit.Prelude.Execs.{Exec, continue, caught, continue-eq-ok}
use aiknowledge_sort_mit.Identity.{ContentIdentity, identity_eq→eq, from_reader}
use aiknowledge_sort_mit.Discovery.Roots.{
  FilePath, CapabilityRoot, file_root, directory_root, diagnostic_root,
}
use aiknowledge_sort_mit.Discovery.Opening.{open_trusted_drop_root}
use aiknowledge_sort_mit.Vault.Records.{Platform, not_found, io_failed, write_new_json}
use aiknowledge_sort_mit.Archive.Operations.{
  OperationState, op_committed, op_copying, op_verified, OperationRecord, destination_exists,
  ArchiveError, archive_io, Formats, staging_path_of, pending_registration_path_of,
  registration_path_of, registration_exists,
}
use aiknowledge_sort_mit.Archive.Operations.Advancing.{
  moved, sealed, operation_record_digest, registration_from_record,
}
use aiknowledge_sort_mit.Archive.Operations.Validation.{validate_reviewed}
use aiknowledge_sort_mit.Archive.Steps.{
  Run, Step, on_disk, call_disk, require_absent, ignore, on_records, ensure_destination_parent,
  remove_file_if_present,
}
use aiknowledge_sort_mit.Archive.Commit.Keeping.{
  stage-Keeps, disturb-Keeps, staged-Keeps, link-Keeps, promote-Keeps, removed-Keeps,
}
use aiknowledge_sort_mit.Archive.Transaction.{
  SourceAccess, transition_required, transition_from, seal_and_persist, hash_vault_file,
  open_verified_source, opened_file,
}
use aiknowledge_sort_mit.Archive.Transaction.Keeping.{sealed-Keeps, source-Keeps}
use aiknowledge_sort_mit.Archive.Journal.{Move, advance}
use aiknowledge_sort_mit.Archive.Commit.{
  TransactionFaults, TransactionFailure, rejected, stage, disturb, check_staged, copy_verified,
  link_target, finish, expose, execute_operation, set_exposed, promote_registration,
}

module _ (p : Platform) (f : Formats) where
  -- A transition that succeeded made the record that `advance` makes.
  pub transition-advance :
      (state : OperationState) (invariant_result outcome : Text) (reason : Option Text) (s : Run p)
      → (transition_required p f state invariant_result outcome reason s).0 ≡ ok tt
      → (now : ℕ) × (advance f
            (record {
              now = now;
              state = state;
              invariant_result = invariant_result;
              outcome = outcome;
              failure_reason = reason;
            })
            s.operation
          ≡ ok (transition_required p f state invariant_result outcome reason s).1.operation)
  unfolding transition_required transition_from seal_and_persist advance on_disk continue
  transition-advance state invariant_result outcome reason s h =
      elim (Option-cases s.operation.record_sha256) [
        | inl missing ↦ absurd (ground arith)
        | inr (previous, present) ↦
            let now = (p.unix_time_ms s.disk).0 in
            let next = moved now state invariant_result outcome reason previous s.operation in
            elim (Result-cases (operation_record_digest f next)) [
              | inr (e, failed) ↦ absurd (ground arith)
              | inl (digest, made) ↦
                  let kept =
                    sealed-Keeps p (λ r. r ≡ sealed digest next) f state (sealed digest next)
                      (record {
                        disk = (p.unix_time_ms s.disk).1;
                        operation = sealed digest next;
                        exposed = s.exposed;
                      })
                      refl in
                  (now, ground (arith, kept))
            ]
      ]

chain-ok :
    {S A B : Type 0} (r : Result ArchiveError A) (t : S) (k : A → Exec S TransactionFailure B)
    {b : B} {s' : S}
    → continue (caught rejected r t).0 k (caught rejected r t).1 ≡ (ok b, s')
    → (x : A) × (r ≡ ok x) × (k x t ≡ (ok b, s'))
unfolding continue
chain-ok (ok x) t k h = (x, refl, h)
chain-ok (err e) t k h = absurd (ground arith)

pub step-ok :
    {S E A B : Type 0} (r : Result E A) (t : S) (k : A → Exec S E B) {b : B} {s' : S}
    → continue r k t ≡ (ok b, s')
    → (x : A) × (r ≡ ok x) × (k x t ≡ (ok b, s'))
unfolding continue
step-ok (ok x) t k h = (x, refl, h)
step-ok (err e) t k h = absurd (ground arith)

caught-ok :
    {S A : Type 0} (r : Result ArchiveError A) (t : S) {b : A} {s' : S}
    → caught rejected r t ≡ (ok b, s')
    → (r ≡ ok b) × (t ≡ s')
caught-ok (ok x) t h = (ground arith, ground arith)
caught-ok (err e) t h = absurd (ground arith)

abbrev copying_at : ℕ → Move
copying_at now = record {
  now = now;
  state = op_copying;
  invariant_result = codes "pending";
  outcome = codes "copying";
  failure_reason = none;
}

abbrev verified_at : ℕ → Move
verified_at now = record {
  now = now;
  state = op_verified;
  invariant_result = codes "sha256-match";
  outcome = codes "verified";
  failure_reason = none;
}

abbrev committed_at : ℕ → Move
committed_at now = record {
  now = now;
  state = op_committed;
  invariant_result = codes "registered-original-preserved";
  outcome = codes "committed";
  failure_reason = none;
}

module _ (p : Platform) (f : Formats) (a : SourceAccess p) where
  -- A handle of the reviewed source: it was opened as a file along the path of the record, and its
  -- size and the hash of what was read from it are those of the record.
  pub record SourceReviewed (r : OperationRecord) (d : p.State) (handle : ℕ) : Type 0 where
    pub display_path : FilePath
    pub at_path :
        open_trusted_drop_root (a.file_system d) (a.path_of r.source_path)
        ≡ file_root display_path handle
    pub size : a.len handle d ≡ ok r.byte_size
    pub content : from_reader f.sha256 (a.reads handle d) ≡ ok r.identity

  opened-file :
      (root : CapabilityRoot) {handle : ℕ}
      → opened_file p f root ≡ ok handle
      → (path : FilePath) × (root ≡ file_root path handle)
  opened-file (file_root path file) {handle} h = (path, ap (file_root path) (ground arith))
  opened-file (directory_root path directory) h = absurd (ground arith)
  opened-file (diagnostic_root path category message) h = absurd (ground arith)

  source-Reviewed :
      (r : OperationRecord) (s : Run p) {handle : ℕ}
      → (open_verified_source p f a r s).0 ≡ ok handle
      → SourceReviewed r s.disk handle
  unfolding open_verified_source
  source-Reviewed r s {handle} h =
      let root = open_trusted_drop_root (a.file_system s.disk) (a.path_of r.source_path) in
      let (file, opened, h1) = continue-eq-ok _ _ _ h in
      let (size, measured, h2) = continue-eq-ok _ _ _ h1 in
      let (_, same_size, h3) = continue-eq-ok _ _ _ h2 in
      let (identity, hashed, h4) = continue-eq-ok _ _ _ h3 in
      let (_, same, h5) = continue-eq-ok _ _ _ h4 in
      let (_, rewound, h6) = continue-eq-ok _ _ _ h5 in
      let (path, at_path) = opened-file root opened in
      subst (SourceReviewed r s.disk) {x = file} {y = handle} (ground arith) (record {
        display_path = path;
        at_path = at_path;
        size = measured-ok (a.len file s.disk) size measured (ground arith);
        content =
            content-ok (from_reader f.sha256 (a.reads file s.disk)) identity hashed
              (identity_eq→eq identity r.identity (ground arith));
      })
    where
      measured-ok :
          (m : Result Text ℕ) (n : ℕ)
          → map_err archive_io m ≡ ok n
          → n ≡ r.byte_size
          → m ≡ ok r.byte_size
      measured-ok (ok k) n e same = ground arith
      measured-ok (err t) n e same = absurd (ground arith)

      content-ok :
          (m : Result Text ContentIdentity) (x : ContentIdentity)
          → map_err archive_io m ≡ ok x
          → x ≡ r.identity
          → m ≡ ok r.identity
      content-ok (ok k) n e same = ground (arith, same)
      content-ok (err t) n e same = absurd (ground arith)

  -- What `copy_verified` did, call by call: each call begins in the state that the one before left.
  pub record Copied (faults : TransactionFaults) (r : OperationRecord) (s s' : Run p) : Type 0 where
    pub reviewed : validate_reviewed r ≡ ok tt
    pub source : ℕ
    pub handle : ℕ
    pub opened_run : Run p
    pub copying_run : Run p
    pub staged_run : Run p
    pub left_run : Run p
    pub hashed_run : Run p
    pub checked_run : Run p
    pub opened : open_verified_source p f a r s ≡ (ok source, opened_run)
    pub journal_copying :
        transition_required p f op_copying (codes "pending") (codes "copying") none opened_run
        ≡ (ok tt, copying_run)
    pub staged :
        stage p f a source (staging_path_of r.operation_id) copying_run ≡ (ok tt, staged_run)
    pub undisturbed :
        disturb p f a faults (staging_path_of r.operation_id) staged_run ≡ (ok tt, left_run)
    pub hashed :
        hash_vault_file p f (staging_path_of r.operation_id) left_run ≡ (ok r.identity, hashed_run)
    pub first_review : SourceReviewed r s.disk source
    pub second_review : SourceReviewed r hashed_run.disk handle
    pub source_again : open_verified_source p f a r hashed_run ≡ (ok handle, checked_run)
    pub journal_verified :
        transition_required p f op_verified
          (codes "sha256-match")
          (codes "verified")
          none
          checked_run
        ≡ (ok tt, s')
    pub first_time : ℕ
    pub second_time : ℕ
    pub to_copying : advance f (copying_at first_time) s.operation ≡ ok copying_run.operation
    pub to_verified : advance f (verified_at second_time) copying_run.operation ≡ ok s'.operation

  check_staged-hash :
      (r : OperationRecord) (s : Run p)
      → (check_staged p f a r s).0 ≡ ok tt
      → ((hash_vault_file p f (staging_path_of r.operation_id) s).0 ≡ ok r.identity)
        × ((check_staged p f a r s).1 ≡ (hash_vault_file p f (staging_path_of r.operation_id) s).1)
  unfolding check_staged continue
  check_staged-hash r s h =
      elim (Result-cases (hash_vault_file p f (staging_path_of r.operation_id) s).0) [
        | inr (e, failed) ↦ absurd (ground arith)
        | inl (identity, made) ↦ (ground (arith, identity_eq→eq identity r.identity), ground arith)
      ]

  copy_verified-Copied :
      (faults : TransactionFaults) (r : OperationRecord) (s s' : Run p)
      → copy_verified p f a faults r s ≡ (ok tt, s')
      → Copied faults r s s'
  unfolding copy_verified
  copy_verified-Copied faults r s s' h =
      let staging = staging_path_of r.operation_id in
      let (_, reviewed, h1) = chain-ok _ _ _ h in
      let (source, opened, h2) = chain-ok _ _ _ h1 in
      let (_, copying, h3) = chain-ok _ _ _ h2 in
      let (_, staged, h4) = chain-ok _ _ _ h3 in
      let (_, undisturbed, h5) = step-ok _ _ _ h4 in
      let (_, checked, h6) = chain-ok _ _ _ h5 in
      let (again, reopened, h7) = chain-ok _ _ _ h6 in
      let (verified, ends) = caught-ok _ _ h7 in
      let s1 = (open_verified_source p f a r s).1 in
      let s2 = (transition_required p f op_copying (codes "pending") (codes "copying") none s1).1 in
      let s3 = (stage p f a source staging s2).1 in
      let s4 = (disturb p f a faults staging s3).1 in
      let s5 = (check_staged p f a r s4).1 in
      let s6 = (open_verified_source p f a r s5).1 in
      let J = λ (r : OperationRecord). r ≡ s2.operation in
      let (t1, advanced1) = transition-advance p f op_copying _ _ _ s1 copying in
      let (t2, advanced2) = transition-advance p f op_verified _ _ _ s6 verified in
      let (hashed, same) = check_staged-hash r s4 checked in
      let k1 = source-Keeps p (λ r. r ≡ s.operation) f a r s refl in
      let k4 =
        disturb-Keeps p f a J faults staging s3 (stage-Keeps p f a J source staging s2 refl) in
      let k6 = source-Keeps p J f a r s5 (staged-Keeps p f a J r s4 k4) in
      record {
        reviewed = reviewed;
        source = source;
        handle = again;
        opened_run = s1;
        copying_run = s2;
        staged_run = s3;
        left_run = s4;
        hashed_run = s5;
        checked_run = s6;
        opened = λ i. (opened i, s1);
        journal_copying = λ i. (copying i, s2);
        staged = λ i. (staged i, s3);
        undisturbed = λ i. (undisturbed i, s4);
        hashed = λ i. (hashed i, sym same i);
        first_review = source-Reviewed r s opened;
        second_review = source-Reviewed r s5 reopened;
        source_again = λ i. (reopened i, s6);
        journal_verified = λ i. (verified i, ends i);
        first_time = t1;
        second_time = t2;
        to_copying = subst (λ o. advance f (copying_at t1) o ≡ ok s2.operation) k1 advanced1;
        to_verified =
            subst (λ (t : Run p). advance f (verified_at t2) s2.operation ≡ ok t.operation) ends
              (subst
                (λ o.
                  advance f (verified_at t2) o
                  ≡ ok
                      (transition_required p f op_verified (codes "sha256-match") (codes "verified")
                        none s6).1.operation)
                k6 advanced2);
      }

  -- What `expose` did, call by call, from the state that `copy_verified` left.
  pub record Exposed (r : OperationRecord) (s s' : Run p) : Type 0 where
    pub registered_run : Run p
    pub parent_run : Run p
    pub linked_disk : p.State
    pub promoted_disk : p.State
    pub committed_run : Run p
    pub registered :
        on_records p
          (write_new_json p f.registration_json
            (pending_registration_path_of r.operation_id)
            (registration_from_record r))
          s
        ≡ (ok tt, registered_run)
    pub parent_there :
        ensure_destination_parent p r.destination_path registered_run ≡ (ok tt, parent_run)
    pub absent : p.symlink_metadata r.destination_path parent_run.disk ≡ err not_found
    pub linked :
        p.hard_link (staging_path_of r.operation_id) r.destination_path parent_run.disk
        ≡ (ok tt, linked_disk)
    pub unregistered :
        p.symlink_metadata (registration_path_of r.operation_id) linked_disk ≡ err not_found
    pub promoted :
        p.rename
          (pending_registration_path_of r.operation_id)
          (registration_path_of r.operation_id)
          linked_disk
        ≡ (ok tt, promoted_disk)
    pub journal_committed :
        transition_required p f op_committed
          (codes "registered-original-preserved")
          (codes "committed")
          none
          (record parent_run { disk = promoted_disk; exposed = true })
        ≡ (ok tt, committed_run)
    pub staging_dropped :
        (remove_file_if_present p (staging_path_of r.operation_id) committed_run).1 ≡ s'
    pub third_time : ℕ
    pub to_committed : advance f (committed_at third_time) s.operation ≡ ok s'.operation

  require_absent-missing :
      (e : ArchiveError) (path : Text) (s : Run p)
      → (require_absent p e path s).0 ≡ ok tt
      → p.symlink_metadata path s.disk ≡ err not_found
  require_absent-missing e path s h = elim (Result-cases (p.symlink_metadata path s.disk)) [
    | inl (kind, found) ↦ absurd (ground arith)
    | inr (not_found, missing) ↦ missing
    | inr (io_failed t, failed) ↦ absurd (ground arith)
  ]

  pub call-ok :
      (m : p.State → Result Text (Unit {0}) × p.State) (s : Run p)
      → (call_disk p m s).0 ≡ ok tt
      → (m s.disk).0 ≡ ok tt
  unfolding on_disk
  call-ok m s h = elim (Result-cases (m s.disk).0) [
    | inl (tt, done) ↦ done
    | inr (e, failed) ↦ absurd (ground arith)
  ]

  call-does :
      (m : p.State → Result Text (Unit {0}) × p.State) (s : Run p)
      → (call_disk p m s).0 ≡ ok tt
      → ((m s.disk).0 ≡ ok tt) × ((call_disk p m s).1 ≡ record s { disk = (m s.disk).1 })
  unfolding on_disk
  call-does m s h = elim (Result-cases (m s.disk).0) [
    | inl (tt, done) ↦ (done, rw done refl)
    | inr (e, failed) ↦ absurd (ground arith)
  ]

  abbrev pending : OperationRecord → Step p (Unit {0})
  pending r = on_records p (
      write_new_json p f.registration_json (pending_registration_path_of r.operation_id)
        (registration_from_record r))

  link_target-linked :
      (r : OperationRecord) (s : Run p)
      → (link_target p f a r s).0 ≡ ok tt
      → let s1 = (pending r s).1 in
        let s2 = (ensure_destination_parent p r.destination_path s1).1 in
        let linked = p.hard_link (staging_path_of r.operation_id) r.destination_path s2.disk in
        ((pending r s).0 ≡ ok tt)
        × ((ensure_destination_parent p r.destination_path s1).0 ≡ ok tt)
        × (p.symlink_metadata r.destination_path s2.disk ≡ err not_found)
        × (linked.0 ≡ ok tt)
        × ((link_target p f a r s).1 ≡ record s2 { disk = linked.1 })
  unfolding link_target
  link_target-linked r s h =
      let (_, written, h1) = step-ok _ _ _ (λ i. (h i, (link_target p f a r s).1)) in
      let (_, parent_there, h2) = step-ok _ _ _ h1 in
      let (_, missing, h3) = step-ok _ _ _ h2 in
      let s1 = (pending r s).1 in
      let s2 = (ensure_destination_parent p r.destination_path s1).1 in
      let (made, left) =
        call-does (p.hard_link (staging_path_of r.operation_id) r.destination_path) s2
          (ap (λ (x : Result ArchiveError (Unit {0}) × Run p). x.0) h3) in
      (
        written,
        parent_there,
        require_absent-missing destination_exists r.destination_path s2 missing,
        made,
        sym (ap (λ (x : Result ArchiveError (Unit {0}) × Run p). x.1) h3) ∙ left,
      )

  promote-does :
      (id : Text) (s : Run p)
      → (promote_registration p f a id s).0 ≡ ok tt
      → let moved = p.rename (pending_registration_path_of id) (registration_path_of id) s.disk in
        (p.symlink_metadata (registration_path_of id) s.disk ≡ err not_found)
        × (moved.0 ≡ ok tt)
        × ((promote_registration p f a id s).1 ≡ record s { disk = moved.1 })
  unfolding promote_registration
  promote-does id s h =
      let (_, missing, h1) = step-ok _ _ _ (λ i. (h i, (promote_registration p f a id s).1)) in
      let (made, left) =
        call-does (p.rename (pending_registration_path_of id) (registration_path_of id)) s
          (ap (λ (x : Result ArchiveError (Unit {0}) × Run p). x.0) h1) in
      (
        require_absent-missing registration_exists (registration_path_of id) s missing,
        made,
        sym (ap (λ (x : Result ArchiveError (Unit {0}) × Run p). x.1) h1) ∙ left,
      )

  abbrev commits : Step p (Unit {0})
  commits =
      transition_required p f op_committed (codes "registered-original-preserved")
        (codes "committed") none

  finish-does :
      (id : Text) (s s' : Run p)
      → finish p f a id s ≡ (ok tt, s')
      → let moved = p.rename (pending_registration_path_of id) (registration_path_of id) s.disk in
        (p.symlink_metadata (registration_path_of id) s.disk ≡ err not_found)
        × (moved.0 ≡ ok tt)
        × ((t : Run p) × (commits (record s { disk = moved.1 }) ≡ (ok tt, t))
            × ((remove_file_if_present p (staging_path_of id) t).1 ≡ s')
            × ((now : ℕ) × (advance f (committed_at now) s.operation ≡ ok s'.operation)))
  unfolding finish
  finish-does id s s' h =
      let (_, promoted, h1) = step-ok _ _ _ h in
      let (_, committed, h2) = step-ok _ _ _ h1 in
      let (missing, made, left) = promote-does id s promoted in
      let s1 = (promote_registration p f a id s).1 in
      let s2 = (commits s1).1 in
      let (now, advanced) = transition-advance p f op_committed _ _ _ s1 committed in
      let k1 = promote-Keeps p f a (λ r. r ≡ s.operation) id s refl in
      let k2 = removed-Keeps p f a (λ r. r ≡ s2.operation) (staging_path_of id) s2 refl in
      let ends : (ignore p (remove_file_if_present p (staging_path_of id)) s2).1 ≡ s' =
        ap (λ (x : Result ArchiveError (Unit {0}) × Run p). x.1) h2 in
      (
        missing,
        made,
        (
          s2,
          subst (λ x. commits x ≡ (ok tt, s2)) left (λ i. (committed i, s2)),
          ends,
          (
            now,
            subst (λ o. advance f (committed_at now) s.operation ≡ ok o)
                (sym k2 ∙ ap (λ (t : Run p). t.operation) ends)
                (subst (λ o. advance f (committed_at now) o ≡ ok s2.operation) k1 advanced),
          ),
        ),
      )

  expose-Exposed :
      (faults : TransactionFaults) (r : OperationRecord) (s s' : Run p)
      → expose p f a faults r s ≡ (ok tt, s')
      → Exposed r s s'
  unfolding expose
  expose-Exposed faults r s s' h =
      let (_, registered, h1) = step-ok _ _ _ h in
      let (_, linked, h2) = chain-ok _ _ _ h1 in
      let (_, exposed, h3) = step-ok _ _ _ h2 in
      let (_, running, h4) = step-ok _ _ _ h3 in
      let (finished, ends) = caught-ok _ _ h4 in
      let s1 = (link_target p f a r s).1 in
      let s3 = (finish p f a r.operation_id (set_exposed p f a s1)).1 in
      let registered_run = (pending r s).1 in
      let parent_run = (ensure_destination_parent p r.destination_path registered_run).1 in
      let done = p.hard_link (staging_path_of r.operation_id) r.destination_path parent_run.disk in
      let (written, there, absent, made, left) = link_target-linked r s linked in
      let u : Run p = record parent_run { disk = done.1; exposed = true } in
      let (missing, renamed, (t, committed, dropped, (now, advanced))) =
        finish-does r.operation_id u s3 (
          subst (λ x. finish p f a r.operation_id (set_exposed p f a x) ≡ (ok tt, s3)) left
            (λ i. (finished i, s3))) in
      let k1 = link-Keeps p f a (λ o. o ≡ s.operation) r s refl in
      let same : parent_run.operation ≡ s.operation =
        ap (λ (x : Run p). x.operation) (sym left) ∙ k1 in
      record {
        registered_run = registered_run;
        parent_run = parent_run;
        linked_disk = done.1;
        promoted_disk =
            (p.rename (pending_registration_path_of r.operation_id)
              (registration_path_of r.operation_id) done.1).1;
        committed_run = t;
        registered = λ i. (written i, registered_run);
        parent_there = λ i. (there i, parent_run);
        absent = absent;
        linked = λ i. (made i, done.1);
        unregistered = missing;
        promoted = λ i. (
          renamed i,
          (p.rename (pending_registration_path_of r.operation_id)
              (registration_path_of r.operation_id) done.1).1,
        );
        journal_committed = committed;
        staging_dropped = dropped ∙ ends;
        third_time = now;
        to_committed =
            subst (λ (t : Run p). advance f (committed_at now) s.operation ≡ ok t.operation) ends
              (subst (λ o. advance f (committed_at now) o ≡ ok s3.operation) same advanced);
      }

  -- An operation that was carried through to the end.
  pub record Committed (faults : TransactionFaults) (s s' : Run p) : Type 0 where
    pub verified : Run p
    pub copied : Copied faults s.operation s verified
    pub exposed : Exposed verified.operation verified s'

  -- An operation is committed only by these calls, in this order and each in the state that the one
  -- before left: the source was opened with the reviewed size and hash; the record moved to copying;
  -- the source was copied to the staging file, on which nothing but the faults that were asked for was
  -- done; the staging file hashed to the identity that was reviewed; the source, opened once more, had
  -- the reviewed size and hash; the record moved to verified; the registration was written as
  -- pending; the parent of the destination was there; the destination was missing, and the link from
  -- the staging file to it was made; the registration was missing, and the pending one renamed to it;
  -- the record moved to committed; and the removal of the staging file was tried. The record passed
  -- its checks, and its states are each sealed with the digest of the one before.
  pub execute_operation-Committed :
      (faults : TransactionFaults) (s s' : Run p)
      → execute_operation p f a faults s ≡ (ok tt, s')
      → Committed faults s s'
  unfolding execute_operation
  execute_operation-Committed faults s s' h =
      let (r, got, h1) = step-ok _ _ _ h in
      let (_, copied, h2) = step-ok _ _ _ h1 in
      let (r2, got2, h3) = step-ok _ _ _ h2 in
      let s1 = (copy_verified p f a faults r s).1 in
      let same : s.operation ≡ r = ground (arith, got) in
      let same2 : s1.operation ≡ r2 = ground (arith, got2) in
      record {
        verified = s1;
        copied =
            subst (λ o. Copied faults o s s1) (sym same)
              (copy_verified-Copied faults r s s1 (λ i. (copied i, s1)));
        exposed = subst (λ o. Exposed o s1 s') (sym same2) (expose-Exposed faults r2 s1 s' h3);
      }
