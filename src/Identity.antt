-- ===== src/Identity.antt =====
-- identity.rs: the SHA-256 identity of a file's content. SHA-256 belongs to the crate sha2: the hash
-- is a parameter. A reader is the list of what its calls of `read` return.
pub mod Reading
mod Witnesses
use aiknowledge_sort_mit.Prelude.{
  ℕ, ◌==◌, Bool, true, false, not, ◌&&◌, ◌||◌, List, [], ◌∷◌, ◌++◌, Text, codes, byte_len, text_eq,
  text_eq→eq, text_eq_refl, ◌≡◌, arith, all_lower_hex, is_empty, Result, ok, err, ◌>>=◌, ◌>>◌,
  fail_if, if◌then◌else◌,
}
use aiknowledge_sort_mit.AgentAccess.Token.{encode_hex}

pub data IdentityError : Type 0 where
  algorithm_not_sha256 digest_not_hex : IdentityError

pub record ContentIdentity : Type 0 where
  pub algorithm : Text
  pub digest : Text

abbrev pub sha256_algorithm : Text
sha256_algorithm = codes "SHA-256"

abbrev pub sha256_hex_length : ℕ
sha256_hex_length = 64

-- `ContentIdentity::validate`.
unfoldable pub validate_identity : ContentIdentity → Result IdentityError (Unit {0})
validate_identity identity = do
  fail_if (not (text_eq identity.algorithm sha256_algorithm)) algorithm_not_sha256
  fail_if
      (not (byte_len identity.digest == sha256_hex_length) || not (all_lower_hex identity.digest))
      digest_not_hex

-- The equality of two identities.
abbrev pub identity_eq : ContentIdentity → ContentIdentity → Bool
identity_eq a b = text_eq a.algorithm b.algorithm && text_eq a.digest b.digest

pub identity_eq→eq : (a b : ContentIdentity) → identity_eq a b ≡ true → a ≡ b
identity_eq→eq a b h =
    ground (arith, text_eq→eq a.algorithm b.algorithm, text_eq→eq a.digest b.digest)

pub identity_eq_refl : (a : ContentIdentity) → identity_eq a a ≡ true
identity_eq_refl a = ground (arith, text_eq_refl a.algorithm, text_eq_refl a.digest)

-- The loop of `from_reader`: the hasher has `hashed`, and a read of no bytes is the end.
unfoldable pub hash_reads : List ℕ → List (Result Text (List ℕ)) → Result Text (List ℕ)
hash_reads hashed [] = ok hashed
hash_reads hashed (err e ∷ reads) = err e
hash_reads hashed (ok [] ∷ reads) = ok hashed
hash_reads hashed (ok (b ∷ bs) ∷ reads) = hash_reads (hashed ++ b ∷ bs) reads

module _ (sha256 : List ℕ → List ℕ) where
  unfoldable pub from_reader : List (Result Text (List ℕ)) → Result Text ContentIdentity
  from_reader reads = do
    hashed ← hash_reads [] reads
    ok (record { algorithm = sha256_algorithm; digest = encode_hex (sha256 hashed) })
