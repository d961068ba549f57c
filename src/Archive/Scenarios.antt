-- ===== src/Archive/Scenarios.antt =====
-- A directory in memory, and an operation that archives a file of 32 bytes in it.
use aiknowledge_sort_mit.Prelude.{
  ℕ, suc, true, false, Option, none, some, List, [], ◌∷◌, ◌++◌, Text, codes, ltb, leb, length, all,
  any, find, member, all_lower_hex, utf8, utf8_char, byte_len, text_eq, text_le, texts_eq, Result,
  ok, err, sort_by, insert_by,
}
use aiknowledge_sort_mit.Prelude.Maps.{Map, get, insert, remove}
use aiknowledge_sort_mit.Prelude.Paths.{
  segments, later_components, components, last_normal, render, parent_components, parent,
  after_last_dot,
}
use aiknowledge_sort_mit.Prelude.Execs.{continue}
use aiknowledge_sort_mit.AgentAccess.Token.{encode_hex}
use aiknowledge_sort_mit.Identity.{
  ContentIdentity, sha256_algorithm, validate_identity, hash_reads, from_reader,
}
use aiknowledge_sort_mit.Discovery.Opening.{
  FileSystem, root_dir, normal, relative_components, absolute_capability_path,
  open_ancestor_directory, classify_opened_root, open_last, open_components, open_root_checked,
  open_trusted_drop_root,
}
use aiknowledge_sort_mit.Naming.Schema.{NamingDecisionEvidence}
use aiknowledge_sort_mit.Vault.Records.{
  Platform, FileKind, IoError, not_found, regular_file, validate_relative_path, publish,
  write_new_bytes, write_new_json, read_json,
}
use aiknowledge_sort_mit.Archive.Plans.{ArchivePlan, ArchivePlanItem}
use aiknowledge_sort_mit.Archive.Operations.{
  OperationRecord, Formats, decimal_digits, zeros, four_digits, operation_record_path,
}
use aiknowledge_sort_mit.Archive.Operations.Equality.{anchor_eq, registration_eq, list_eq}
use aiknowledge_sort_mit.Archive.Operations.Advancing.{
  operation_record_digest, verify_record_digest, seal_initial_record, terminal_anchor,
  registration_from_record, sealed,
}
use aiknowledge_sort_mit.Archive.Operations.Validation.{
  validate_destination, validate_naming_record, validate_classification_record,
  validate_operation_id, validate_reviewed,
}
use aiknowledge_sort_mit.Archive.Operations.Audit.{check_records}
use aiknowledge_sort_mit.Archive.Steps.{
  Run, on_disk, remove_file_if_present, ensure_destination_parent,
}
use aiknowledge_sort_mit.Archive.Transaction.{
  SourceAccess, persist_operation, persist_terminal_anchor, persist_sealed, seal_and_persist,
  transition_from, transition_required, hash_vault_file, open_verified_source,
}
use aiknowledge_sort_mit.Archive.Journal.{advance, records_of}
use aiknowledge_sort_mit.Archive.Commit.{
  failed_without_operation, status_of, confirmation_binding_sha256, new_operation,
  promote_registration, stage, disturb, check_staged, copy_verified, link_target, finish, expose,
  execute_operation, cleanup_rejected_operation, reject_operation, commit_one, commit_all,
  commit_plan,
}
use aiknowledge_sort_mit.Archive.Recovery.{
  recover_registration, verify_committed, abandon_operation, check_target, recover_operation,
  remove_leftovers, settle_record, reconcile_record, reconcile_all, verify_anchor, verify_stream,
}
use aiknowledge_sort_mit.Archive.Originals.{original_from_record}
use aiknowledge_sort_mit.Archive.Recovery.Listing.{
  JournalEntry, read_entry, collect_streams, latest_of, latest_records, latest_operation_records,
  reconcile_vault,
}

-- All that the archive computes with.
unfoldable pub evaluates : Unit {0}
unfolding all any find member all_lower_hex utf8 utf8_char byte_len text_eq text_le texts_eq get
    insert remove segments later_components components last_normal render parent_components parent
    after_last_dot continue encode_hex validate_identity hash_reads from_reader relative_components
    absolute_capability_path open_ancestor_directory classify_opened_root open_last open_components
    open_root_checked open_trusted_drop_root validate_relative_path publish write_new_bytes
    write_new_json read_json decimal_digits zeros four_digits operation_record_path anchor_eq
    registration_eq list_eq operation_record_digest verify_record_digest seal_initial_record
    terminal_anchor registration_from_record validate_destination validate_naming_record
    validate_classification_record validate_operation_id validate_reviewed check_records on_disk
    remove_file_if_present ensure_destination_parent persist_operation persist_terminal_anchor
    persist_sealed seal_and_persist transition_from transition_required hash_vault_file
    open_verified_source advance records_of failed_without_operation status_of
    confirmation_binding_sha256 new_operation promote_registration stage disturb check_staged
    copy_verified link_target finish expose execute_operation cleanup_rejected_operation
    reject_operation commit_one commit_all commit_plan recover_registration verify_committed
    abandon_operation check_target recover_operation remove_leftovers settle_record reconcile_record
    reconcile_all verify_anchor verify_stream read_entry collect_streams latest_of latest_records
    latest_operation_records reconcile_vault original_from_record sort_by insert_by
evaluates = tt

pub record Memory : Type 0 where
  pub files : Map (List ℕ)
  pub ticks : ℕ

abbrev kind_of : Option (List ℕ) → Result IoError FileKind
kind_of none = err not_found
kind_of (some bytes) = ok (regular_file (length bytes))

abbrev content_of : Option (List ℕ) → Result Text (List ℕ)
content_of none = err (codes "not found")
content_of (some bytes) = ok bytes

abbrev bytes_of : Option (List ℕ) → List ℕ
bytes_of none = []
bytes_of (some bytes) = bytes

abbrev done : Map (List ℕ) → Memory → Result Text (Unit {0}) × Memory
done files d = (ok tt, record d { files = files })

abbrev pub memory : Platform
memory = record {
  State = Memory;
  symlink_metadata = λ path d. kind_of (get path d.files);
  open_new = λ path d. done (insert path [] d.files) d;
  write_all = λ path bytes d. done (insert path (bytes_of (get path d.files) ++ bytes) d.files) d;
  overwrite_start = λ path bytes d. done (insert path bytes d.files) d;
  flush = λ path d. (ok tt, d);
  sync_all = λ path d. (ok tt, d);
  rename = λ from to d. done (insert to (bytes_of (get from d.files)) (remove from d.files)) d;
  hard_link = λ from to d. done (insert to (bytes_of (get from d.files)) d.files) d;
  remove_file = λ path d. done (remove path d.files) d;
  create_dir = λ path d. (ok tt, d);
  read_file = λ path d. content_of (get path d.files);
  new_uuid = λ d. (codes "a1", d);
  unix_time_ms = λ d. (d.ticks, record d { ticks = suc d.ticks });
}

-- A disk on which no file can be created.
abbrev pub full : Platform
full = record memory { open_new = λ path d. (err (codes "no space"), d) }

abbrev pub formats : Formats
formats = record {
  sha256 = λ bytes. bytes;
  operation_json = record { to_vec = λ r. ok (r.sequence ∷ []); from_slice = λ bytes. none };
  anchor_json = record { to_vec = λ r. ok (7 ∷ []); from_slice = λ bytes. none };
  registration_json = record { to_vec = λ r. ok (8 ∷ []); from_slice = λ bytes. none };
  naming_vec = λ evidence. 9 ∷ [];
  classification_vec = λ proposal. [];
  error_text = λ e. codes "failed";
}

abbrev source_files : FileSystem
source_files = record {
  components = λ path. root_dir ∷ normal (codes "docs") ∷ normal (codes "hi.txt") ∷ [];
  separator = codes "/";
  refuses_prefix = λ p. false;
  open_ambient_dir = λ path. ok 1;
  symlink_metadata = λ directory entry.
      ok (record { is_symlink = false; is_reparse = false; is_dir = true; is_file = false });
  open_nofollow = λ directory entry. ok (suc directory);
  metadata = λ opened. ok (record {
    is_symlink = false;
    is_reparse = false;
    is_dir = ltb opened 3;
    is_file = leb 3 opened;
  });
  reopen_dir = λ opened. ok opened;
}

abbrev content : List ℕ
content = codes "hhhhhhhhhhhhhhhhhhhhhhhhhhhhhhhh"

abbrev pub source : SourceAccess memory
source = record {
  file_system = λ d. source_files;
  path_of = λ path. record { display = path; components = codes "docs" ∷ codes "hi.txt" ∷ [] };
  len = λ file d. ok 32;
  reads = λ file d. ok content ∷ ok [] ∷ [];
  rewind = λ file d. ok tt;
  copy_to = λ file path d. done (insert path content d.files) d;
}

abbrev pub identity : ContentIdentity
identity = record {
  algorithm = sha256_algorithm;
  digest = codes "6868686868686868686868686868686868686868686868686868686868686868";
}

abbrev naming : NamingDecisionEvidence
naming = record {
  naming_proposal_id = codes "n1";
  original_name = codes "hi.txt";
  canonical_name = codes "Hi.txt";
  policy_id = codes "canonical-v1";
  policy_version = codes "1.0.0";
  applied_rule = codes "ordered-cited-facts-v1";
  facts = [];
}

abbrev pub item : ArchivePlanItem
item = record {
  item_id = codes "i1";
  source_path = codes "/docs/hi.txt";
  destination_path =
      codes "Originals/6868686868686868686868686868686868686868686868686868686868686868/Hi.txt";
  original_name = codes "hi.txt";
  canonical_name = codes "Hi.txt";
  naming = naming;
  classification = none;
  byte_size = 32;
  identity = identity;
}

abbrev pub plan : ArchivePlan
plan = record {
  plan_id = codes "p1";
  version = 2;
  proposal_id = codes "d1";
  naming_batch_id = codes "b1";
  classification_batch_id = none;
  authority_id = codes "v1";
  vault_path = codes "/vault";
  expires_at_unix_ms = 1000;
  confirmation_nonce = codes "c1";
  source_preserved = true;
  items = item ∷ [];
}

abbrev pub empty_disk : Memory
empty_disk = record { files = []; ticks = 5 }

-- The sealed record of the new operation.
abbrev pub first : OperationRecord
first = sealed (codes "00") (new_operation formats plan item (codes "a1") 5)

abbrev pub start : Run memory
start = record { disk = empty_disk; operation = first; exposed = false }

-- The record of a new operation whose id is a UUID, and a disk that has it.
abbrev pub interrupted : OperationRecord
interrupted =
    sealed (codes "00")
      (new_operation formats plan item (codes "0123456789abcdef0123456789abcdef") 5)

abbrev pub journal_formats : Formats
journal_formats = record formats {
  operation_json = record {
    to_vec = λ r. ok (r.sequence ∷ []);
    from_slice = λ bytes. some interrupted;
  };
}

abbrev pub interrupted_disk : Memory
interrupted_disk = record { files = (operation_record_path interrupted, 0 ∷ []) ∷ []; ticks = 5 }

abbrev pub list_journal : Memory → Result Text (List (Result Text JournalEntry))
list_journal d = ok (
    ok (record {
      name = codes "0123456789abcdef0123456789abcdef-0000-proposed.json";
      is_symlink = ok false;
    })
    ∷ [])
