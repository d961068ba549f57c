-- ===== src/Naming/Witnesses.antt =====
-- A batch of one name that is created and consumed, with the theorems at this input.
use aiknowledge_sort_mit.Prelude.{
  ℕ, ◌+◌, ◌-◌, ◌≡◌, ◌<◌, refl, false, some, List, [], ◌∷◌, map, Text, codes, any, all, find, member,
  distinct, utf8, utf8_char, byte_len, text_eq, text_le, all_lower_hex, insert_by, sort_by, ok, err,
  take, is_ok, is_ascii_alphanumeric, is_ascii_uppercase, is_ascii_lowercase, if◌then◌else◌,
}
use aiknowledge_sort_mit.Prelude.Draws.{draw_from, unique_id}
use aiknowledge_sort_mit.Prelude.Execs.{continue}
use aiknowledge_sort_mit.Prelude.Maps.{Map, get, insert, remove, retain}
use aiknowledge_sort_mit.AgentAccess.Token.{encode_hex}
use aiknowledge_sort_mit.Identity.{ContentIdentity, sha256_algorithm, validate_identity}
use aiknowledge_sort_mit.Discovery.Proposals.{ReviewedSource}
use aiknowledge_sort_mit.Naming.Schema.{
  NamingFact, subject, NamingRequest, canonical_policy, validate_original_name, check_facts,
  check_occupied, validate_request,
}
use aiknowledge_sort_mit.Naming.Normalize.{
  Tables, value_of, rsplit_once, before_first, original_extension, strip_prefix, decimal, parse_u8,
  is_windows_reserved, ends_with_any, normalize_chars, normalize_token, is_safe_stem,
  is_safe_extension, comparison_key, collect_values, join_values,
}
use aiknowledge_sort_mit.Naming.Proposing.{
  hashed_values, hashed_facts, check_required, naming_proposal_id, suffixed_name, free_name,
  find_name, name_proposal, propose_name,
}
use aiknowledge_sort_mit.Naming.Proposing.Names.{Found, propose_name-Found}
use aiknowledge_sort_mit.Naming.Batches.{
  NamingItemInput, NamingBatch, StoredBatch, BatchError, default_batch_limits, sources_by_id,
  occupied_count, propose_all, batch_expiry, check_inputs, same_set,
}
use aiknowledge_sort_mit.Naming.Batches.Registry.{BatchIo, new_batch, create_at, consume_batch_at}
use aiknowledge_sort_mit.Naming.Batches.Consuming.{Later, consume_batch_at-once}
use aiknowledge_sort_mit.Naming.Batches.Creating.{CreatedBatch, create_at-CreatedBatch}

-- All that naming computes with.
evaluates : Unit {0}
unfolding any all find member distinct utf8 utf8_char byte_len text_eq text_le all_lower_hex
    insert_by sort_by get insert remove retain continue draw_from unique_id encode_hex
    validate_identity validate_original_name check_facts check_occupied validate_request value_of
    rsplit_once before_first original_extension strip_prefix decimal parse_u8 is_windows_reserved
    ends_with_any normalize_chars normalize_token is_safe_stem is_safe_extension comparison_key
    collect_values join_values hashed_values hashed_facts check_required naming_proposal_id
    suffixed_name free_name find_name propose_name sources_by_id occupied_count propose_all
    batch_expiry check_inputs same_set create_at consume_batch_at
evaluates = tt

-- The tables at ASCII.
abbrev tables : Tables
tables = record {
  nfc = λ t. t;
  is_alphanumeric = is_ascii_alphanumeric;
  to_lowercase = λ c. (if is_ascii_uppercase c then c + 32 else c) ∷ [];
  to_uppercase = map (λ c. if is_ascii_lowercase c then c - 32 else c);
  sha256 = take 32;
}

abbrev identity : ContentIdentity
identity = record {
  algorithm = sha256_algorithm;
  digest = codes "0123456789abcdef0123456789abcdef0123456789abcdef0123456789abcdef";
}

abbrev fact : NamingFact
fact = record { kind = subject; value = codes "Reset plan"; evidence_location = codes "page:1" }

abbrev request : NamingRequest
request = record {
  item_id = codes "item1";
  original_name = codes "000123.pdf";
  identity = identity;
  facts = fact ∷ [];
  occupied_names = codes "reset-plan.PDF" ∷ [];
}

-- The name is occupied, up to the case of its letters.
abbrev name : Text
name = codes "Reset-plan--01234567.pdf"

proposed_name :
    propose_name tables canonical_policy request
    ≡ ok (name_proposal tables canonical_policy request name)
unfolding evaluates
proposed_name = refl

propose_name-Found_example : Found tables canonical_policy request name
propose_name-Found_example =
    propose_name-Found tables canonical_policy request
      (name_proposal tables canonical_policy request name) name proposed_name refl

abbrev io : BatchIo
io = record { tables = tables; unix_epoch = 0; draws = λ n. codes "batch" }

abbrev sources : List ReviewedSource
sources =
    record {
      item_id = codes "item1";
      path = codes "/docs/000123.pdf";
      name = codes "000123.pdf";
      byte_size = 12;
      identity = identity;
    }
    ∷ []

abbrev inputs : List NamingItemInput
inputs = record { item_id = codes "item1"; facts = fact ∷ [] } ∷ []

abbrev occupied : Map (List Text)
occupied = (codes "item1", codes "reset-plan.PDF" ∷ []) ∷ []

abbrev batch : NamingBatch
batch =
    new_batch (codes "batch") (codes "proposal1") 300_000
      (name_proposal tables canonical_policy request name ∷ [])

batch_passes :
    (create_at default_batch_limits io (codes "proposal1") sources inputs occupied 0 0 []).0
    ≡ ok batch
unfolding evaluates
batch_passes = refl

abbrev after : Map StoredBatch
after = (create_at default_batch_limits io (codes "proposal1") sources inputs occupied 0 0 []).1

create_at-CreatedBatch_example :
    CreatedBatch default_batch_limits io (codes "proposal1") sources inputs 0 after batch
create_at-CreatedBatch_example =
    create_at-CreatedBatch default_batch_limits io (codes "proposal1") sources inputs occupied 0 0
      [] {batch = batch} batch_passes

consume_batch_at-once_example :
    ((b : NamingBatch)
      → (consume_batch_at default_batch_limits
          (codes "batch")
          (codes "proposal1")
          (codes "item1" ∷ [])
          9
          after).0
        ≡ ok b
      → (end : Map StoredBatch)
      → Later
          (codes "batch")
          end
          (consume_batch_at default_batch_limits
            (codes "batch")
            (codes "proposal1")
            (codes "item1" ∷ [])
            9
            after).1
      → (other_id : Text) (other_ids : List Text) (later : ℕ)
      → is_ok (consume_batch_at default_batch_limits (codes "batch") other_id other_ids later end).0
        ≡ false)
    × ((e : BatchError)
        → (consume_batch_at default_batch_limits
            (codes "batch")
            (codes "proposal1")
            (codes "item1" ∷ [])
            9
            after).0
          ≡ err e
        → (j : Text) (stored : StoredBatch) → get j after ≡ some stored
        → 9 < stored.expires_at
        → get j
            (consume_batch_at default_batch_limits
              (codes "batch")
              (codes "proposal1")
              (codes "item1" ∷ [])
              9
              after).1
          ≡ some stored)
consume_batch_at-once_example =
    consume_batch_at-once default_batch_limits (codes "batch") (codes "proposal1")
      (codes "item1" ∷ []) 9 after
