-- ===== src/Identity/Reading.antt =====
-- identity.rs: `from_reader` over the chunks of a content, and `validate` of what it returns.
use mathlib.Core.List.{append-nil, append_assoc}
use aiknowledge_sort_mit.Prelude.{
  ℕ, zero, suc, is_ascii_digit, in_range, ◌*◌, ◌/◌, ◌%◌, ◌<◌, ◌≡◌, refl, Bool, true, ◌||◌, List, [],
  ◌∷◌, ◌++◌, map, Text, arith, length, All, all, codes, byte_len, utf8, utf8_char, text_eq_refl,
  all_lower_hex, Result, ok, sym, ap, ◌∙◌, Result-cases, inl, inr,
}
use aiknowledge_sort_mit.AgentAccess.Token.{encode_hex, hex_at}
use aiknowledge_sort_mit.AgentAccess.Token.Verify.{utf8_lower_hex}
use aiknowledge_sort_mit.Identity.{
  ContentIdentity, sha256_algorithm, validate_identity, hash_reads, from_reader,
}

length-encode_hex : (bytes : List ℕ) → length (encode_hex bytes) ≡ 2 * length bytes
unfolding encode_hex
length-encode_hex [] = refl
length-encode_hex (b ∷ bs) = ground (arith, length-encode_hex bs)

hex_at-all :
    (p : ℕ → Bool) (n : ℕ) (cs : List ℕ) → all p cs ≡ true → n < length cs → p (hex_at n cs) ≡ true
unfolding all
hex_at-all p n [] h lt = absurd (omega arith)
hex_at-all p zero (c ∷ cs) h lt = ground arith
hex_at-all p (suc n) (c ∷ cs) h lt = hex_at-all p n cs (ground arith) (omega arith)

abbrev lower_hex : ℕ → Bool
lower_hex byte = is_ascii_digit byte || in_range b'a' b'f' byte

hex_digit : (n : ℕ) → n < 16 → lower_hex (hex_at n (codes "0123456789abcdef")) ≡ true
unfolding all
hex_digit n lt = hex_at-all lower_hex n (codes "0123456789abcdef") refl lt

all_lower_hex-cons :
    (c : ℕ) (t : Text) → lower_hex c ≡ true → all_lower_hex t ≡ true → all_lower_hex (c ∷ t) ≡ true
unfolding all_lower_hex all utf8 utf8_char
all_lower_hex-cons c t digit h = ground arith

-- A list of bytes, and the other numbers that the hash may give.
abbrev pub Bytes : List ℕ → Type 0
Bytes = All (λ byte. byte < 256)

encode_hex-hex : (bytes : List ℕ) → Bytes bytes → all_lower_hex (encode_hex bytes) ≡ true
unfolding encode_hex all_lower_hex all utf8
encode_hex-hex [] h = refl
encode_hex-hex (b ∷ bs) h =
    let digits = codes "0123456789abcdef" in
    all_lower_hex-cons (hex_at (b / 16) digits) (hex_at (b % 16) digits ∷ encode_hex bs)
      (hex_digit (b / 16) (omega arith))
      (all_lower_hex-cons (hex_at (b % 16) digits) (encode_hex bs)
        (hex_digit (b % 16) (omega arith)) (encode_hex-hex bs h.1))

-- SHA-256 gives 32 bytes.
abbrev pub Gives32Bytes : (List ℕ → List ℕ) → Type 0
Gives32Bytes sha256 = (content : List ℕ) → (length (sha256 content) ≡ 32) × Bytes (sha256 content)

hashed_valid :
    (bytes : List ℕ)
    → length bytes ≡ 32
    → Bytes bytes
    → validate_identity (record { algorithm = sha256_algorithm; digest = encode_hex bytes }) ≡ ok tt
unfolding validate_identity byte_len
hashed_valid bytes size h =
    let hex = encode_hex-hex bytes h in
    ground (
      arith,
      hex,
      length-encode_hex bytes,
      utf8_lower_hex (encode_hex bytes) hex,
      text_eq_refl sha256_algorithm,
    )

-- With a hash that gives 32 bytes, an identity that `from_reader` returns passes `validate`.
pub from_reader-validate_identity :
    (sha256 : List ℕ → List ℕ) (reads : List (Result Text (List ℕ))) {identity : ContentIdentity}
    → Gives32Bytes sha256
    → from_reader sha256 reads ≡ ok identity
    → validate_identity identity ≡ ok tt
unfolding from_reader
from_reader-validate_identity sha256 reads {identity} gives h =
    elim (Result-cases (hash_reads [] reads)) [
      | inr (e, failed) ↦ absurd (ground arith)
      | inl (hashed, read) ↦
          ground (arith, hashed_valid (sha256 hashed) (gives hashed).0 (gives hashed).1)
    ]

-- Chunks that are not empty, as `read` returns them before the end.
abbrev pub chunk : ℕ × List ℕ → List ℕ
chunk (b, bs) = b ∷ bs

abbrev pub content : List (ℕ × List ℕ) → List ℕ
content [] = []
content (c ∷ cs) = chunk c ++ content cs

hash_reads-content :
    (hashed : List ℕ) (chunks : List (ℕ × List ℕ))
    → hash_reads hashed (map (λ c. ok (chunk c)) chunks) ≡ ok (hashed ++ content chunks)
unfolding hash_reads
hash_reads-content hashed [] = ap ok (sym (append-nil hashed))
hash_reads-content hashed ((b, bs) ∷ chunks) =
    hash_reads-content (hashed ++ b ∷ bs) chunks
    ∙ ap ok (append_assoc hashed (b ∷ bs) (content chunks))

-- However a content is cut into chunks, `from_reader` returns the SHA-256 of all its bytes.
pub from_reader-content :
    (sha256 : List ℕ → List ℕ) (chunks : List (ℕ × List ℕ))
    → from_reader sha256 (map (λ c. ok (chunk c)) chunks)
      ≡ ok (record { algorithm = sha256_algorithm; digest = encode_hex (sha256 (content chunks)) })
unfolding from_reader
from_reader-content sha256 chunks = rw (hash_reads-content [] chunks) refl
