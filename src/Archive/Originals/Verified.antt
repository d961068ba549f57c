-- ===== src/Archive/Originals/Verified.antt =====
-- archive/transaction.rs: what a registered original that was given out is.
use aiknowledge_sort_mit.Prelude.{
  ◌≡◌, refl, ap, sym, subst, ◌∙◌, Bool, true, false, Text, arith, Result, ok, text_eq→eq,
}
use aiknowledge_sort_mit.Prelude.Execs.{Keeps, Keeps->>=, Keeps-catch, continue-eq-ok}
use aiknowledge_sort_mit.Identity.{identity_eq→eq}
use aiknowledge_sort_mit.Vault.Records.{Platform, Codec, read_json}
use aiknowledge_sort_mit.Archive.Operations.{
  OperationState, op_committed, op_proposed, op_copying, op_verified, op_failed, op_abandoned,
  OperationRecord, OriginalRegistration, ArchiveError, Formats, registration_path_of, vault_record,
}
use aiknowledge_sort_mit.Archive.Operations.Equality.{registration_eq, state_eq}
use aiknowledge_sort_mit.Archive.Operations.Advancing.{registration_from_record}
use aiknowledge_sort_mit.Archive.Steps.{Run, on_disk, on_records}
use aiknowledge_sort_mit.Archive.Transaction.{SourceAccess, hash_vault_file}
use aiknowledge_sort_mit.Archive.Recovery.{verify_committed}
use aiknowledge_sort_mit.Archive.Recovery.Settling.{TargetHashed}
use aiknowledge_sort_mit.Archive.Recovery.Reading.{read_json-Keeps}
use aiknowledge_sort_mit.Archive.Originals.{
  VerifiedRegisteredOriginal, original, was_committed, original_from_record,
}

module _ (p : Platform) (f : Formats) (a : SourceAccess p) where
  on_records-Keeps :
      {A : Type 0} (I : p.State → Type 0) (codec : Codec A) (path : Text)
      → Keeps (λ (s : Run p). I s.disk) (on_records p (read_json p codec path))
  unfolding on_disk
  on_records-Keeps I codec path s h =
      Keeps-catch I vault_record (read_json p codec path) (read_json-Keeps p f I codec path) s.disk
        h

  hash_disk-Keeps :
      (I : p.State → Type 0) (path : Text)
      → Keeps (λ (s : Run p). I s.disk) (hash_vault_file p f path)
  unfolding hash_vault_file
  hash_disk-Keeps I path =
      Keeps->>= (λ (s : Run p). I s.disk) _ _ (λ s h. h)
        (λ _.
          Keeps->>= (λ (s : Run p). I s.disk) _ _ (λ s h. h)
            (λ kind.
              Keeps->>= (λ (s : Run p). I s.disk) _ _ (λ s h. h)
                (λ _. Keeps->>= (λ (s : Run p). I s.disk) _ _ (λ s h. h) (λ bytes s h. h))))

  verify-Keeps :
      (I : p.State → Type 0) (r : OperationRecord)
      → Keeps (λ (s : Run p). I s.disk) (verify_committed p f a r)
  unfolding verify_committed
  verify-Keeps I r =
      Keeps->>= (λ (s : Run p). I s.disk) _ _ (hash_disk-Keeps I r.destination_path)
        (λ _.
          Keeps->>= (λ (s : Run p). I s.disk) _ _ (λ s h. h)
            (λ _.
              Keeps->>= (λ (s : Run p). I s.disk) _ _
                (on_records-Keeps I f.registration_json (registration_path_of r.operation_id))
                (λ registration s h. h)))

  abbrev registered_at : OperationRecord → p.State → Result ArchiveError OriginalRegistration
  registered_at r d =
      (on_records p (read_json p f.registration_json (registration_path_of r.operation_id))
        (record { disk = d; operation = r; exposed = false })).0

  -- A committed operation that was verified: the target has its identity, and the registration on the
  -- disk is the one that its record gives.
  verify-holds :
      (r : OperationRecord) (s : Run p)
      → (verify_committed p f a r s).0 ≡ ok tt
      → TargetHashed p f a r
        × ((registration : OriginalRegistration) × (registered_at r s.disk ≡ ok registration)
            × (registration_eq registration (registration_from_record r) ≡ true))
  unfolding verify_committed on_disk
  verify-holds r s h =
      let (identity, hashed, h1) = continue-eq-ok _ _ _ h in
      let (_, same, h2) = continue-eq-ok _ _ _ h1 in
      let (registration, read, h3) = continue-eq-ok _ _ _ h2 in
      let still = hash_disk-Keeps (λ d. s.disk ≡ d) r.destination_path s refl in
      (
        (s, ground (arith, hashed, same, identity_eq→eq identity r.identity)),
        (registration, ap (registered_at r) still ∙ read, ground (arith, h3)),
      )

  eq-committed : (r : OperationRecord) → was_committed r ≡ true → r.state ≡ op_committed
  eq-committed r h = committed r.state h
    where
      committed :
          (state : OperationState) → state_eq state op_committed ≡ true → state ≡ op_committed
      committed op_committed h = refl
      committed op_proposed h = absurd (ground arith)
      committed op_copying h = absurd (ground arith)
      committed op_verified h = absurd (ground arith)
      committed op_failed h = absurd (ground arith)
      committed op_abandoned h = absurd (ground arith)

  -- What is given out as a registered original.
  pub record Verified (authority_id : Text) (r : OperationRecord) (o : VerifiedRegisteredOriginal)
      : Type 0 where
    pub committed : r.state ≡ op_committed
    pub of_vault : r.authority_id ≡ authority_id
    pub target : TargetHashed p f a r
    pub same_ids : (o.operation_id ≡ r.operation_id) × (o.item_id ≡ r.item_id)
    pub same_paths : (o.relative_path ≡ r.destination_path) × (o.source_path ≡ r.source_path)
    pub same_content : (o.byte_size ≡ r.byte_size) × (o.identity ≡ r.identity)
    pub same_authority : o.authority_id ≡ authority_id

  original-fields :
      (r : OperationRecord) (registration : OriginalRegistration)
      → registration_eq registration (registration_from_record r) ≡ true
      → (registration.operation_id ≡ r.operation_id)
        × (registration.authority_id ≡ r.authority_id)
        × (registration.relative_path ≡ r.destination_path)
        × (registration.source_path ≡ r.source_path)
        × (registration.byte_size ≡ r.byte_size)
        × (registration.identity ≡ r.identity)
  unfolding registration_eq registration_from_record
  original-fields r registration h = (
    ground (arith, text_eq→eq registration.operation_id r.operation_id),
    ground (arith, text_eq→eq registration.authority_id r.authority_id),
    ground (arith, text_eq→eq registration.relative_path r.destination_path),
    ground (arith, text_eq→eq registration.source_path r.source_path),
    ground arith,
    ground (arith, identity_eq→eq registration.identity r.identity),
  )

  original-Verified :
      (authority_id : Text) (r : OperationRecord) (registration : OriginalRegistration)
      (name : Text)
      → r.state ≡ op_committed
      → r.authority_id ≡ authority_id
      → TargetHashed p f a r
      → registration_eq registration (registration_from_record r) ≡ true
      → Verified authority_id r (original r registration name)
  original-Verified authority_id r registration name committed of_vault target same =
      let (operation, authority, path, source, size, content) =
        original-fields r registration same in
      record {
        committed = committed;
        of_vault = of_vault;
        target = target;
        same_ids = (operation, refl);
        same_paths = (path, source);
        same_content = (size, content);
        same_authority = authority ∙ of_vault;
      }

  module _ (authority_id : Text)
      (operation_is_undone : Text → p.State → Result ArchiveError Bool × p.State) where
    -- An original is given out only from a committed operation of the vault's authority, after its
    -- target was hashed to the reviewed identity. Its ids, its paths, its size and its identity are
    -- those of the operation's record, although it is made from the registration that is read anew.
    pub original_from_record-Verified :
        (r : OperationRecord) (s : Run p) {o : VerifiedRegisteredOriginal}
        → (original_from_record p f a authority_id operation_is_undone r s).0 ≡ ok o
        → Verified authority_id r o
    unfolding original_from_record on_disk
    original_from_record-Verified r s {o} h =
        let (_, committed, h1) = continue-eq-ok _ _ _ h in
        let (_, of_vault, h2) = continue-eq-ok _ _ _ h1 in
        let (is_undone, answered, h3) = continue-eq-ok _ _ _ h2 in
        let (_, not_undone, h4) = continue-eq-ok _ _ _ h3 in
        let (_, verified, h5) = continue-eq-ok _ _ _ h4 in
        let (again, read_again, h6) = continue-eq-ok _ _ _ h5 in
        let (name, named, h7) = continue-eq-ok _ _ _ h6 in
        let t : Run p = record s { disk = (operation_is_undone r.operation_id s.disk).1 } in
        let (target, (registration, read, same)) = verify-holds r t verified in
        let still = verify-Keeps (λ d. t.disk ≡ d) r t refl in
        let one = sym read ∙ ap (registered_at r) still ∙ read_again in
        subst (Verified authority_id r) {x = original r again name} {y = o} (ground (arith, h7)) (
          original-Verified authority_id r again name (eq-committed r (ground (arith, committed)))
            (ground (arith, of_vault, text_eq→eq r.authority_id authority_id)) target
            (ground (arith, one, same)))
