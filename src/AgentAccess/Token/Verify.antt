-- ===== src/AgentAccess/Token/Verify.antt =====
-- agent_access/schema.rs: the constant-time comparison of `verify_token`.
use Prim.Native.Nat.{bit_or, bit_xor}
use aiknowledge_sort_mit.Prelude.{
  ℕ, ◌≡◌, refl, ◌↔◌, true, List, [], ◌∷◌, Text, arith, length, utf8, utf8_char, all, all_lower_hex,
  sym, ◌∙◌, Option, none, some, ok,
}
use aiknowledge_sort_mit.Prelude.Bits.{bit_or-eq-zero, bit_xor-eq-zero, bit_xor_self}
use aiknowledge_sort_mit.AgentAccess.Token.{
  issue_token, encode_hex, token_digest, difference, verify_token,
}

difference_zero :
    (acc : ℕ) (xs ys : List ℕ)
    → difference acc xs ys ≡ 0
    → length xs ≡ length ys
    → (acc ≡ 0) × (xs ≡ ys)
unfolding difference
difference_zero acc [] [] h e = (h, refl)
difference_zero acc [] (y ∷ ys) h e = absurd (omega arith)
difference_zero acc (x ∷ xs) [] h e = absurd (omega arith)
difference_zero acc (x ∷ xs) (y ∷ ys) h e =
    let (folded, tails) = difference_zero (bit_or acc (bit_xor x y)) xs ys h (omega arith) in
    let (zero_acc, zero_xor) = bit_or-eq-zero acc (bit_xor x y) folded in
    (zero_acc, ground (arith, bit_xor-eq-zero x y zero_xor))

difference_self : (xs : List ℕ) → difference 0 xs xs ≡ 0
unfolding difference
difference_self [] = refl
difference_self (x ∷ xs) = ground (arith, bit_xor_self x, difference_self xs, or_zero)
  where
    or_zero : bit_or 0 0 ≡ 0
    or_zero = refl

-- A text whose bytes are lowercase hexadecimal digits is its own list of bytes.
pub utf8_lower_hex : (t : Text) → all_lower_hex t ≡ true → utf8 t ≡ t
unfolding all_lower_hex all utf8 utf8_char
utf8_lower_hex [] h = refl
utf8_lower_hex (c ∷ t) h = ground (arith, utf8_lower_hex t)

hex_of_eq : (s t : Text) → utf8 s ≡ utf8 t → all_lower_hex t ≡ true → all_lower_hex s ≡ true
unfolding all_lower_hex
hex_of_eq s t e h = rw e h

verify_parts :
    (sha256 : List ℕ → List ℕ) (candidate expected : Text)
    → verify_token sha256 candidate expected ≡ true
    → utf8 (token_digest sha256 candidate) ≡ utf8 expected
unfolding verify_token
verify_parts sha256 candidate expected h =
    (difference_zero 0 (utf8 (token_digest sha256 candidate)) (utf8 expected) (ground arith)
      (ground arith)).1

verify_self :
    (sha256 : List ℕ → List ℕ) (candidate : Text)
    → verify_token sha256 candidate (token_digest sha256 candidate) ≡ true
unfolding verify_token
verify_self sha256 candidate =
    ground (arith, difference_self (utf8 (token_digest sha256 candidate)))

-- Against a stored digest of lowercase hexadecimal digits, the check of a token passes exactly
-- when the digest of the token is the stored one.
pub verify_token_iff :
    (sha256 : List ℕ → List ℕ) (candidate expected : Text)
    → all_lower_hex expected ≡ true
    → (verify_token sha256 candidate expected ≡ true) ↔ (token_digest sha256 candidate ≡ expected)
verify_token_iff sha256 candidate expected hex = (
  λ h.
      let same = verify_parts sha256 candidate expected h in
      sym (utf8_lower_hex (token_digest sha256 candidate) (hex_of_eq _ expected same hex))
      ∙ same
      ∙ utf8_lower_hex expected hex,
  λ e. rw (← e) (verify_self sha256 candidate),
)

-- A token that was issued passes the check against the digest issued with it.
pub issue_token-verify_token :
    (sha256 : List ℕ → List ℕ) (random : Option (List ℕ)) {token digest : Text}
    → issue_token sha256 random ≡ ok (token, digest)
    → verify_token sha256 token digest ≡ true
unfolding issue_token
issue_token-verify_token sha256 none h = cc
issue_token-verify_token sha256 (some bytes) {token} {digest} h =
    ground (arith, verify_self sha256 (encode_hex bytes))
