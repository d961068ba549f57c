-- ===== src/Identity/Witnesses.antt =====
-- A content that is read in two chunks, with the theorems at this input.
use aiknowledge_sort_mit.Prelude.{ℕ, zero, suc, ◌≡◌, refl, List, [], ◌∷◌, ok, arith}
use aiknowledge_sort_mit.AgentAccess.Token.{encode_hex}
use aiknowledge_sort_mit.Identity.{ContentIdentity, sha256_algorithm, hash_reads, from_reader}
use aiknowledge_sort_mit.Identity.Reading.{Bytes, Gives32Bytes, from_reader-content}

abbrev zeros : ℕ → List ℕ
zeros zero = []
zeros (suc n) = 0 ∷ zeros n

-- A hash that gives 32 bytes.
abbrev hash : List ℕ → List ℕ
hash bytes = zeros 32

zeros-Bytes : (n : ℕ) → Bytes (zeros n)
zeros-Bytes zero = tt
zeros-Bytes (suc n) = (omega arith, zeros-Bytes n)

hash_gives : Gives32Bytes hash
hash_gives bytes = (refl, zeros-Bytes 32)

abbrev chunks : List (ℕ × List ℕ)
chunks = (1, 2 ∷ []) ∷ (3, []) ∷ []

abbrev zero_identity : ContentIdentity
zero_identity = record { algorithm = sha256_algorithm; digest = encode_hex (hash (1 ∷ 2 ∷ 3 ∷ [])) }

from_reader-content_example :
    from_reader hash (ok (1 ∷ 2 ∷ []) ∷ ok (3 ∷ []) ∷ []) ≡ ok zero_identity
from_reader-content_example = from_reader-content hash chunks

zero_read : from_reader hash (ok (1 ∷ 2 ∷ []) ∷ ok (3 ∷ []) ∷ []) ≡ ok zero_identity
unfolding from_reader hash_reads
zero_read = refl
