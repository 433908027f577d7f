-- ===== src/Prelude/Bits.antt =====
-- Laws of `&`, `|` and `^` at variables.
mod Digit
mod Split
use Prim.Native.Nat.{◌/◌, ℕ, ◌^◌, min, ◌*◌, max, ◌<◌, bit_and, ◌+◌, bit_or, ◌%◌, bit_xor}
use mathlib.Core.Path.{◌≡◌, refl}
use native.Mathlib.Omega.{arith}
use Digit.{and_step, or_step, xor_step}
use Split.{half_induction, op_split, op-lt}

xor_digit : (a b : ℕ) → bit_xor a b ≡ bit_xor (a / 2) (b / 2) * 2 + (a % 2 + b % 2) % 2
xor_digit a b = omega (arith, xor_step a b)

module _ (k p q r s : ℕ) (hr : r < 2 ^ k) (hs : s < 2 ^ k) where
  pub xor_split : bit_xor (p * 2 ^ k + r) (q * 2 ^ k + s) ≡ bit_xor p q * 2 ^ k + bit_xor r s
  xor_split = op_split bit_xor (λ x y. (x + y) % 2) xor_digit refl k p q r s hr hs

  pub or_split : bit_or (p * 2 ^ k + r) (q * 2 ^ k + s) ≡ bit_or p q * 2 ^ k + bit_or r s
  or_split = op_split bit_or max or_step refl k p q r s hr hs

  pub and_split : bit_and (p * 2 ^ k + r) (q * 2 ^ k + s) ≡ bit_and p q * 2 ^ k + bit_and r s
  and_split = op_split bit_and min and_step refl k p q r s hr hs

module _ (k a b : ℕ) (ha : a < 2 ^ k) (hb : b < 2 ^ k) where
  pub xor-lt : bit_xor a b < 2 ^ k
  xor-lt = op-lt bit_xor (λ x y. (x + y) % 2) xor_digit refl (λ x y hx hy. omega arith) k a b ha hb

  pub or-lt : bit_or a b < 2 ^ k
  or-lt = op-lt bit_or max or_step refl (λ x y hx hy. omega arith) k a b ha hb

  pub and-lt : bit_and a b < 2 ^ k
  and-lt = op-lt bit_and min and_step refl (λ x y hx hy. omega arith) k a b ha hb

pub xor-zero : (a : ℕ) → bit_xor a 0 ≡ a
xor-zero = half_induction (λ a. bit_xor a 0 ≡ a) refl (λ a pos ih. omega (arith, xor_step a 0, ih))

pub zero-xor : (b : ℕ) → bit_xor 0 b ≡ b
zero-xor = half_induction (λ b. bit_xor 0 b ≡ b) refl (λ b pos ih. omega (arith, xor_step 0 b, ih))

pub xor_self : (a : ℕ) → bit_xor a a ≡ 0
xor_self = half_induction (λ a. bit_xor a a ≡ 0) refl (λ a pos ih. omega (arith, xor_step a a, ih))

pub xor_comm : (a b : ℕ) → bit_xor a b ≡ bit_xor b a
xor_comm =
    half_induction (λ a. (b : ℕ) → bit_xor a b ≡ bit_xor b a)
      (λ b. omega (arith, zero-xor b, xor-zero b))
      (λ a pos ih b. omega (arith, xor_step a b, xor_step b a, ih (b / 2)))

pub xor_assoc : (a b c : ℕ) → bit_xor (bit_xor a b) c ≡ bit_xor a (bit_xor b c)
xor_assoc =
    half_induction (λ a. (b c : ℕ) → bit_xor (bit_xor a b) c ≡ bit_xor a (bit_xor b c))
      (λ b c. rw (zero-xor, zero-xor))
      (λ a pos ih b c. ground (
        arith,
        xor_step (bit_xor a b) c,
        xor_step a (bit_xor b c),
        xor_step a b,
        xor_step b c,
        ih (b / 2) (c / 2),
      ))

pub and-zero : (a : ℕ) → bit_and a 0 ≡ 0
and-zero = half_induction (λ a. bit_and a 0 ≡ 0) refl (λ a pos ih. omega (arith, and_step a 0, ih))

pub or-zero : (a : ℕ) → bit_or a 0 ≡ a
or-zero = half_induction (λ a. bit_or a 0 ≡ a) refl (λ a pos ih. omega (arith, or_step a 0, ih))

pub zero-or : (b : ℕ) → bit_or 0 b ≡ b
zero-or = half_induction (λ b. bit_or 0 b ≡ b) refl (λ b pos ih. omega (arith, or_step 0 b, ih))
