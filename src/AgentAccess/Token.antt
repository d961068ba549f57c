-- ===== src/AgentAccess/Token.antt =====
-- agent_access/schema.rs: bearer tokens and their digests. SHA-256 and the random source belong to
-- other crates: the hash is a parameter, and the random bytes are an argument.
pub mod Verify
use Prim.Native.Nat.{bit_or, bit_xor}
use aiknowledge_sort_mit.Prelude.{
  ℕ, zero, suc, ◌/◌, ◌%◌, ◌==◌, Bool, true, false, ◌&&◌, Option, List, [], ◌∷◌, Text, codes, length,
  utf8, Result, ok, ◌>>=◌, ok_or, if◌then◌else◌,
}
use aiknowledge_sort_mit.AgentAccess.Errors.{Message, token_unavailable}

-- `HEX[n]`, for n below 16.
abbrev pub hex_at : ℕ → List ℕ → ℕ
hex_at n [] = 0
hex_at zero (c ∷ cs) = c
hex_at (suc n) (c ∷ cs) = hex_at n cs

unfoldable pub encode_hex : List ℕ → Text
encode_hex [] = []
encode_hex (byte ∷ bytes) =
    hex_at (byte / 16) (codes "0123456789abcdef")
    ∷ hex_at (byte % 16) (codes "0123456789abcdef")
    ∷ encode_hex bytes

-- The fold over the zipped bytes.
unfoldable pub difference : ℕ → List ℕ → List ℕ → ℕ
difference acc [] _ = acc
difference acc (left ∷ ls) [] = acc
difference acc (left ∷ ls) (right ∷ rs) = difference (bit_or acc (bit_xor left right)) ls rs

module _ (sha256 : List ℕ → List ℕ) where
  unfoldable pub token_digest : Text → Text
  token_digest token = encode_hex (sha256 (utf8 token))

  -- `issue_token`: 32 bytes of `getrandom`, which may fail, give the token and its digest.
  unfoldable pub issue_token : Option (List ℕ) → Result Message (Text × Text)
  issue_token random = do
    bytes ← ok_or random token_unavailable
    ok (encode_hex bytes, token_digest (encode_hex bytes))

  unfoldable pub verify_token : Text → Text → Bool
  verify_token candidate expected_digest =
      let actual = utf8 (token_digest candidate) in
      let expected = utf8 expected_digest in
      length actual == length expected && (difference 0 actual expected == 0)
