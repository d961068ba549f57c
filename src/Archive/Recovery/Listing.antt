-- ===== src/Archive/Recovery/Listing.antt =====
-- archive/transaction.rs: `latest_operation_records`, which lists the journal, and `reconcile_vault`
-- from the listing on. The listing of the directory is an argument: each of its entries may be
-- unreadable, and so may the type of an entry.
use aiknowledge_sort_mit.Prelude.{
  ℕ, ◌+◌, ◌==◌, Bool, false, not, ◌||◌, Option, none, some, List, [], ◌∷◌, ◌++◌, Text, codes, leb,
  any, sort_by, Result, err, fail_if, ok_or, map_err, text_eq, if◌then◌else◌,
}
use aiknowledge_sort_mit.Prelude.Maps.{Map, get, insert}
use aiknowledge_sort_mit.Prelude.Paths.{extension, join}
use aiknowledge_sort_mit.Prelude.Execs.{Exec, pure, lift, catch, ◌>>=◌, ◌>>◌}
use aiknowledge_sort_mit.Vault.Records.{Platform, read_json}
use aiknowledge_sort_mit.Archive.Operations.{
  OperationRecord, ArchiveError, Formats, max_operation_records, legacy_operation_schema_version,
  naming_operation_schema_version, journal_too_large, journal_link, schema_unsupported,
  stream_empty, archive_io, vault_record,
}
use aiknowledge_sort_mit.Archive.Operations.Advancing.{is_audited_schema}
use aiknowledge_sort_mit.Archive.Operations.Audit.{Entry}
use aiknowledge_sort_mit.Archive.Steps.{Step}
use aiknowledge_sort_mit.Archive.Transaction.{SourceAccess}
use aiknowledge_sort_mit.Archive.Recovery.{
  ReconciliationReport, last_entry, verify_stream, reconcile_all,
}

-- An entry of the directory; its type may be unreadable.
pub record JournalEntry : Type 0 where
  pub name : Text
  pub is_symlink : Result Text Bool

abbrev pub is_json : Option Text → Bool
is_json (some t) = text_eq t (codes "json")
is_json none = false

abbrev pub is_supported : ℕ → Bool
is_supported version =
    version == legacy_operation_schema_version
    || version == naming_operation_schema_version
    || is_audited_schema version

abbrev pub path_in_journal : Text → Text
path_in_journal name = join (codes ".aiks/operations") name

abbrev pub entries_or_empty : Option (List Entry) → List Entry
entries_or_empty none = []
entries_or_empty (some entries) = entries

-- `streams.entry(..).or_default().push(..)`, for an entry that was not skipped.
abbrev pub push_entry : Option Entry → Map (List Entry) → Map (List Entry)
push_entry none streams = streams
push_entry (some e) streams =
    insert e.1.operation_id (entries_or_empty (get e.1.operation_id streams) ++ (e ∷ [])) streams

abbrev pub entry_le : Entry → Entry → Bool
entry_le left right = leb left.1.sequence right.1.sequence

abbrev pub has_audited : List Entry → Bool
has_audited entries = any (λ (e : Entry). is_audited_schema e.1.schema_version) entries

module _ (p : Platform) (f : Formats) where
  abbrev pub read_record : Text → Exec p.State ArchiveError (Option Entry)
  read_record relative = do
    r ← catch vault_record (read_json p f.operation_json relative)
    lift (fail_if (not (is_supported r.schema_version)) schema_unsupported)
    pure (some (relative, r))

  unfoldable pub read_entry : JournalEntry → Exec p.State ArchiveError (Option Entry)
  read_entry entry = do
    link ← lift (map_err archive_io entry.is_symlink)
    lift (fail_if link journal_link)
    if is_json (extension entry.name) then read_record (path_in_journal entry.name) else pure none

  -- The loop over the directory: the index, and the streams read so far.
  unfoldable pub collect_streams :
      ℕ
      → Map (List Entry)
      → List (Result Text JournalEntry)
      → Exec p.State ArchiveError (Map (List Entry))
  collect_streams index streams [] = pure streams
  collect_streams index streams (listed ∷ rest) = do
    lift (fail_if (leb max_operation_records index) journal_too_large)
    entry ← lift (map_err archive_io listed)
    kept ← read_entry entry
    collect_streams (index + 1) (push_entry kept streams) rest

  -- A step of an operation, for its effect on the disk.
  abbrev pub on_run : {A : Type 0} → OperationRecord → Step p A → Exec p.State ArchiveError A
  on_run r m d =
      let done = m (record { disk = d; operation = r; exposed = false }) in (done.0, done.1.disk)

  abbrev pub audit_stream :
      Text → OperationRecord → List Entry → Exec p.State ArchiveError (Unit {0})
  audit_stream operation_id r records =
      if has_audited records then on_run r (verify_stream p f operation_id records) else pure tt

  unfoldable pub latest_of : Text → List Entry → Exec p.State ArchiveError OperationRecord
  latest_of operation_id [] = lift (err stream_empty)
  latest_of operation_id (e ∷ es) = do
    audit_stream operation_id e.1 (e ∷ es)
    lift (ok_or (last_entry (e ∷ es)) stream_empty)

  -- The loop over the streams.
  unfoldable pub latest_records :
      List (Text × List Entry) → Exec p.State ArchiveError (List OperationRecord)
  latest_records [] = pure []
  latest_records (stream ∷ streams) = do
    latest ← latest_of stream.0 (sort_by entry_le stream.1)
    rest ← latest_records streams
    pure (latest ∷ rest)

  module _ (list_journal : p.State → Result Text (List (Result Text JournalEntry))) where
    abbrev pub listed_streams : Exec p.State ArchiveError (Map (List Entry))
    listed_streams = do
      entries ← (λ d. (map_err archive_io (list_journal d), d))
      collect_streams 0 [] entries

    unfoldable pub latest_operation_records : Exec p.State ArchiveError (List OperationRecord)
    latest_operation_records = do streams ← listed_streams; latest_records streams

    unfoldable pub reconcile_vault :
        SourceAccess p
        → (Text → p.State → Result ArchiveError Bool × p.State)
        → Exec p.State ArchiveError (ReconciliationReport × List OperationRecord)
    reconcile_vault a operation_is_undone = do
      latest ← latest_operation_records
      reconcile_all p f a operation_is_undone (record { recovered = 0; abandoned = 0 }) latest
