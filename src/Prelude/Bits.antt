-- ===== src/Prelude/Bits.antt =====
-- When a bitwise combination of two numbers is zero.
use Prim.Native.Nat.{
  ℕ, zero, suc, ◌/◌, ◌%◌, ◌≤◌, max, digits, differ, bit_or, bit_xor, bit_or-bitwise,
  bit_xor-bitwise,
}
use native.Mathlib.Nat.{le_refl}
use mathlib.Core.Path.{◌≡◌, refl}
use native.Mathlib.Omega.{arith}

or_digits_zero : (n a b : ℕ) → a ≤ n → digits (λ x. x) max n a b ≡ 0 → (a ≡ 0) × (b ≡ 0)
or_digits_zero zero zero b fits h = (refl, h)
or_digits_zero zero (suc a) b fits h = absurd (omega arith)
or_digits_zero (suc n) zero b fits h = (refl, h)
or_digits_zero (suc n) (suc a) b fits h =
    let halves = or_digits_zero n (suc a / 2) (b / 2) (omega arith) (omega arith) in
    (omega arith, omega arith)

-- Two numbers whose `|` is zero are zero.
pub bit_or-eq-zero : (a b : ℕ) → bit_or a b ≡ 0 → (a ≡ 0) × (b ≡ 0)
bit_or-eq-zero a b h = or_digits_zero a a b (le_refl a) (rw bit_or-bitwise at h)

differ-eq-zero : (a b : ℕ) → differ a b ≡ 0 → a ≡ b
differ-eq-zero zero b h = omega arith
differ-eq-zero (suc a) zero h = h
differ-eq-zero (suc a) (suc b) h = omega (arith, differ-eq-zero a b h)

differ_self : (a : ℕ) → differ a a ≡ 0
differ_self zero = refl
differ_self (suc a) = differ_self a

xor_digits_zero : (n a b : ℕ) → a ≤ n → digits (λ x. x) differ n a b ≡ 0 → a ≡ b
xor_digits_zero zero zero b fits h = omega arith
xor_digits_zero zero (suc a) b fits h = absurd (omega arith)
xor_digits_zero (suc n) zero b fits h = omega arith
xor_digits_zero (suc n) (suc a) b fits h =
    let halves = xor_digits_zero n (suc a / 2) (b / 2) (omega arith) (omega arith) in
    let last = differ-eq-zero (suc a % 2) (b % 2) (omega arith) in omega arith

-- Two numbers whose `^` is zero are equal.
pub bit_xor-eq-zero : (a b : ℕ) → bit_xor a b ≡ 0 → a ≡ b
bit_xor-eq-zero a b h = xor_digits_zero a a b (le_refl a) (rw bit_xor-bitwise at h)

xor_digits_self : (n a : ℕ) → a ≤ n → digits (λ x. x) differ n a a ≡ 0
xor_digits_self zero zero fits = refl
xor_digits_self zero (suc a) fits = absurd (omega arith)
xor_digits_self (suc n) zero fits = refl
xor_digits_self (suc n) (suc a) fits =
    omega (arith, xor_digits_self n (suc a / 2) (omega arith), differ_self (suc a % 2))

pub bit_xor_self : (a : ℕ) → bit_xor a a ≡ 0
bit_xor_self a = rw bit_xor-bitwise (xor_digits_self a a (le_refl a))
