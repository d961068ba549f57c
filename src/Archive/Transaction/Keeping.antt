-- ===== src/Archive/Transaction/Keeping.antt =====
-- archive/transaction.rs: which steps keep what holds of an operation's record. Only a transition
-- writes it.
use aiknowledge_sort_mit.Prelude.{ℕ, Bool, true, false, Option, Text, Result, ok_or, if◌then◌else◌}
use aiknowledge_sort_mit.Prelude.Execs.{Keeps, Keeps->>=, Keeps-if, pure, lift, modify, ◌>>=◌}
use aiknowledge_sort_mit.Vault.Records.{Platform, read_json}
use aiknowledge_sort_mit.Archive.Operations.{
  OperationState, OperationRecord, OperationAuditAnchor, ArchiveError, Formats, is_terminal,
  anchor_not_regular, predecessor_missing, audit_anchor_path,
}
use aiknowledge_sort_mit.Archive.Operations.Advancing.{
  moved, sealed, operation_record_digest, terminal_anchor,
}
use aiknowledge_sort_mit.Archive.Steps.{
  Run, on_disk, on_records, regular_or_missing, look, clock, remove_file_if_present,
  ensure_destination_parent,
}
use aiknowledge_sort_mit.Archive.Transaction.{
  SourceAccess, set_operation, persist_sealed, set_sealed, seal_and_persist, check_anchor,
  compare_anchor, write_anchor, persist_operation, persist_terminal_anchor, transition_from,
  transition_required, hash_vault_file, open_verified_source,
}

module _ (p : Platform) (J : OperationRecord → Type 0) where
  -- The predicate holds of the operation's record.
  abbrev pub Holds : Run p → Type 0
  Holds s = J s.operation

  pub on_disk-Keeps :
      {A : Type 0} (m : p.State → Result ArchiveError A × p.State) → Keeps Holds (on_disk p m)
  unfolding on_disk
  on_disk-Keeps m s h = h

  pub remove_file-Keeps : (path : Text) → Keeps Holds (remove_file_if_present p path)
  unfolding remove_file_if_present
  remove_file-Keeps path =
      Keeps->>= Holds _ _ (λ s h. h)
        (λ present. Keeps-if Holds present _ _ (on_disk-Keeps _) (λ s h. h))

  pub parent-Keeps : (path : Text) → Keeps Holds (ensure_destination_parent p path)
  unfolding ensure_destination_parent
  parent-Keeps path =
      Keeps->>= Holds _ _ (λ s h. h)
        (λ directory.
          Keeps->>= Holds _ _ (λ s h. h)
            (λ present. Keeps-if Holds present _ _ (λ s h. h) (on_disk-Keeps _)))

  module _ (f : Formats) where
    pub persist-Keeps : Keeps Holds (persist_operation p f)
    unfolding persist_operation
    persist-Keeps =
        Keeps->>= Holds _ _ (λ s h. h)
          (λ r. Keeps->>= Holds _ _ (λ s h. h) (λ checked. on_disk-Keeps _))

    write-Keeps :
        (r : OperationRecord) (expected : OperationAuditAnchor) (present : Bool)
        → Keeps Holds
            (if present then compare_anchor p f r expected else write_anchor p f r expected)
    write-Keeps r expected true =
        Keeps->>= Holds
          (on_records p (read_json p f.anchor_json (audit_anchor_path r.operation_id)))
          (λ existing. lift (check_anchor p f existing expected)) (on_disk-Keeps _)
          (λ existing s h. h)
    write-Keeps r expected false = on_disk-Keeps _

    pub anchor-Keeps : (r : OperationRecord) → Keeps Holds (persist_terminal_anchor p f r)
    unfolding persist_terminal_anchor
    anchor-Keeps r =
        Keeps->>= Holds (lift (terminal_anchor r)) _ (λ s h. h)
          (λ expected.
            Keeps->>= Holds
              (look p (λ s.
                regular_or_missing anchor_not_regular
                  (p.symlink_metadata (audit_anchor_path r.operation_id) s)))
              (λ present.
                if present then compare_anchor p f r expected else write_anchor p f r expected)
              (λ s h. h) (write-Keeps r expected))

    pub sealed-Keeps :
        (state : OperationState) (r : OperationRecord) → Keeps Holds (persist_sealed p f state r)
    unfolding persist_sealed
    sealed-Keeps state r =
        Keeps->>= Holds (persist_operation p f)
          (λ _. if is_terminal state then persist_terminal_anchor p f r else pure tt) persist-Keeps
          (λ _.
            Keeps-if Holds (is_terminal state) (persist_terminal_anchor p f r) (pure tt)
              (anchor-Keeps r) (λ s h. h))

    set_operation-Keeps :
        (r : OperationRecord) → J r → Keeps {E = ArchiveError} Holds (modify (set_operation p f r))
    set_operation-Keeps r e s h = e

    set_sealed-Keeps :
        (state : OperationState) (next : OperationRecord) (digest : Text)
        → J (sealed digest next)
        → Keeps Holds (set_sealed p f state next digest)
    set_sealed-Keeps state next digest e =
        Keeps->>= Holds (modify (set_operation p f (sealed digest next)))
          (λ _. persist_sealed p f state (sealed digest next))
          (set_operation-Keeps (sealed digest next) e)
          (λ _. sealed-Keeps state (sealed digest next))

    seal_and_persist-Keeps :
        (state : OperationState) (next : OperationRecord)
        → J next
        → ((digest : Text) → J (sealed digest next))
        → Keeps Holds (seal_and_persist p f state next)
    unfolding seal_and_persist
    seal_and_persist-Keeps state next e sealed_next =
        Keeps->>= Holds (modify (set_operation p f next))
          (λ _. lift (operation_record_digest f next) >>= set_sealed p f state next)
          (set_operation-Keeps next e)
          (λ _.
            Keeps->>= Holds (lift (operation_record_digest f next)) (set_sealed p f state next)
              (λ s h. h) (λ digest. set_sealed-Keeps state next digest (sealed_next digest)))

    -- What a transition writes does not matter to the predicate.
    abbrev pub Stable : Type 0
    Stable =
        (r : OperationRecord)
        → J r
        → ((digest : Text) → J (sealed digest r))
          × ((now : ℕ) (state : OperationState) (invariant_result outcome : Text)
                (reason : Option Text) (previous : Text)
              → J (moved now state invariant_result outcome reason previous r))

    from-Keeps :
        Stable
        → (state : OperationState) (invariant_result outcome : Text) (reason : Option Text)
          (r : OperationRecord)
        → J r
        → Keeps Holds (transition_from p f state invariant_result outcome reason r)
    unfolding transition_from
    from-Keeps stable state invariant_result outcome reason r e =
        Keeps->>= Holds (lift (ok_or r.record_sha256 predecessor_missing))
          (λ previous. clock p >>= (λ now.
            seal_and_persist p f state
              (moved now state invariant_result outcome reason previous r)))
          (λ s h. h)
          (λ previous.
            Keeps->>= Holds (clock p)
              (λ now.
                seal_and_persist p f state
                  (moved now state invariant_result outcome reason previous r))
              (on_disk-Keeps _)
              (λ now.
                let next = moved now state invariant_result outcome reason previous r in
                let holds = (stable r e).1 now state invariant_result outcome reason previous in
                seal_and_persist-Keeps state next holds (stable next holds).0))

    pub transition-Keeps :
        Stable
        → (state : OperationState) (invariant_result outcome : Text) (reason : Option Text)
        → Keeps Holds (transition_required p f state invariant_result outcome reason)
    unfolding transition_required
    transition-Keeps stable state invariant_result outcome reason s h =
        from-Keeps stable state invariant_result outcome reason s.operation h s h

    pub hash-Keeps : (path : Text) → Keeps Holds (hash_vault_file p f path)
    unfolding hash_vault_file
    hash-Keeps path =
        Keeps->>= Holds _ _ (λ s h. h)
          (λ _.
            Keeps->>= Holds _ _ (λ s h. h)
              (λ _.
                Keeps->>= Holds _ _ (λ s h. h) (λ _. Keeps->>= Holds _ _ (λ s h. h) (λ _ s h. h))))

    module _ (a : SourceAccess p) where
      pub source-Keeps : (r : OperationRecord) → Keeps Holds (open_verified_source p f a r)
      unfolding open_verified_source
      source-Keeps r =
          Keeps->>= Holds _ _ (λ s h. h)
            (λ _.
              Keeps->>= Holds _ _ (λ s h. h)
                (λ _.
                  Keeps->>= Holds _ _ (λ s h. h)
                    (λ _.
                      Keeps->>= Holds _ _ (λ s h. h)
                        (λ _.
                          Keeps->>= Holds _ _ (λ s h. h)
                            (λ _. Keeps->>= Holds _ _ (λ s h. h) (λ _ s h. h))))))
