-- ===== src/Archive/Originals.antt =====
-- archive/transaction.rs: the originals that the vault has registered, verified when they are asked
-- for. The check of undone operations and the listing of the journal are arguments.
pub mod Verified
use aiknowledge_sort_mit.Prelude.{
  Bool, true, false, not, Option, none, some, List, [], ◌∷◌, Text, ℕ, Result, ok, err, fail_if,
  ok_or, text_eq, text_le, sort_by, find, if◌then◌else◌,
}
use aiknowledge_sort_mit.Prelude.Paths.{file_name}
use aiknowledge_sort_mit.Prelude.Execs.{Exec, pure, lift, continue, ◌>>=◌, ◌>>◌}
use aiknowledge_sort_mit.Identity.{ContentIdentity}
use aiknowledge_sort_mit.Vault.Records.{Platform, read_json}
use aiknowledge_sort_mit.Archive.Operations.{
  OperationState, op_committed, OperationRecord, OriginalRegistration, ArchiveError, Formats,
  registration_path_of, not_found_operation, not_committed, other_authority, undone,
  canonical_name_missing,
}
use aiknowledge_sort_mit.Archive.Operations.Equality.{state_eq}
use aiknowledge_sort_mit.Archive.Operations.Validation.{validate_operation_id}
use aiknowledge_sort_mit.Archive.Steps.{Run, Step, on_disk, on_records}
use aiknowledge_sort_mit.Archive.Transaction.{SourceAccess}
use aiknowledge_sort_mit.Archive.Recovery.{verify_committed}
use aiknowledge_sort_mit.Archive.Recovery.Listing.{JournalEntry, on_run, latest_operation_records}

pub record VerifiedRegisteredOriginal : Type 0 where
  pub authority_id : Text
  pub operation_id : Text
  pub item_id : Text
  pub relative_path : Text
  pub source_path : Text
  pub canonical_name : Text
  pub original_format : Text
  pub byte_size : ℕ
  pub identity : ContentIdentity

abbrev pub name_or_file_name : Option Text → Text → Option Text
name_or_file_name none relative_path = file_name relative_path
name_or_file_name (some name) relative_path = some name

abbrev pub original : OperationRecord → OriginalRegistration → Text → VerifiedRegisteredOriginal
original r registration canonical_name = record {
  authority_id = registration.authority_id;
  operation_id = registration.operation_id;
  item_id = r.item_id;
  relative_path = registration.relative_path;
  source_path = registration.source_path;
  canonical_name = canonical_name;
  original_format = registration.original_format;
  byte_size = registration.byte_size;
  identity = registration.identity;
}

abbrev push_original :
    Option VerifiedRegisteredOriginal
    → List VerifiedRegisteredOriginal
    → List VerifiedRegisteredOriginal
push_original none rest = rest
push_original (some o) rest = o ∷ rest

abbrev pub was_committed : OperationRecord → Bool
was_committed r = state_eq r.state op_committed

unfoldable pub only_committed : List OperationRecord → List OperationRecord
only_committed [] = []
only_committed (r ∷ rs) = let rest = only_committed rs in if was_committed r then r ∷ rest else rest

abbrev pub operation_le : OperationRecord → OperationRecord → Bool
operation_le left right = text_le left.operation_id right.operation_id

module _ (p : Platform) (f : Formats) (a : SourceAccess p) (authority_id : Text)
    (operation_is_undone : Text → p.State → Result ArchiveError Bool × p.State) where
  -- `verified_registered_original_from_record`.
  unfoldable pub original_from_record : OperationRecord → Step p VerifiedRegisteredOriginal
  original_from_record r = do
    lift (fail_if (not (was_committed r)) not_committed)
    lift (fail_if (not (text_eq r.authority_id authority_id)) other_authority)
    is_undone ← on_disk p (operation_is_undone r.operation_id)
    lift (fail_if is_undone undone)
    verify_committed p f a r
    registration ←
        on_records p (read_json p f.registration_json (registration_path_of r.operation_id))
    canonical_name ← lift (
        ok_or (name_or_file_name registration.canonical_name registration.relative_path)
          canonical_name_missing)
    pure (original r registration canonical_name)

  abbrev kept_original :
      OperationRecord → Exec p.State ArchiveError (Option VerifiedRegisteredOriginal)
  kept_original r = do o ← on_run p f r (original_from_record r); pure (some o)

  -- The loop of `list_verified_registered_originals`.
  unfoldable pub originals_of :
      List OperationRecord → Exec p.State ArchiveError (List VerifiedRegisteredOriginal)
  originals_of [] = pure []
  originals_of (r ∷ rs) = do
    is_undone ← operation_is_undone r.operation_id
    kept ← if is_undone then pure none else kept_original r
    rest ← originals_of rs
    pure (push_original kept rest)

  module _ (list_journal : p.State → Result Text (List (Result Text JournalEntry))) where
    unfoldable pub list_verified_registered_originals :
        Exec p.State ArchiveError (List VerifiedRegisteredOriginal)
    list_verified_registered_originals = do
      latest ← latest_operation_records p f list_journal
      originals_of (sort_by operation_le (only_committed latest))

    unfoldable pub verified_registered_original :
        Text → Exec p.State ArchiveError VerifiedRegisteredOriginal
    verified_registered_original operation_id = do
      lift (validate_operation_id operation_id)
      latest ← latest_operation_records p f list_journal
      r ← lift (ok_or (find (λ r. text_eq r.operation_id operation_id) latest) not_found_operation)
      on_run p f r (original_from_record r)
