-- ===== src/Prelude/Bits/Digit.antt =====
-- The native bit operations, one binary digit at a time: each is a recursion on half the operands.
use Prim.Native.Nat.{◌≤◌, zero, ◌%◌, suc, ◌/◌, ℕ, ◌<◌, digits, ◌*◌, bitwise, ◌+◌, differ, min, max}
use Prim.Native.Nat.{bit_and, bit_or, bit_xor, bit_and-bitwise, bit_or-bitwise, bit_xor-bitwise}
use mathlib.Core.Path.{ap, ◌≡◌, refl}
use native.Mathlib.Nat.{le_refl}
use native.Mathlib.Omega.{arith}

-- More fuel than the first operand needs changes nothing.
module _ (z : ℕ → ℕ) (f : ℕ → ℕ → ℕ) where
  spare_fuel : (fuel more u v : ℕ) → u ≤ fuel → u ≤ more → digits z f fuel u v ≡ digits z f more u v
  spare_fuel zero zero u v enough spare = refl
  spare_fuel zero (suc more) zero v enough spare = refl
  spare_fuel (suc fuel) zero zero v enough spare = refl
  spare_fuel (suc fuel) (suc more) zero v enough spare = refl
  spare_fuel zero more (suc u) v enough spare = absurd (omega arith)
  spare_fuel (suc fuel) zero (suc u) v enough spare = absurd (omega arith)
  spare_fuel (suc fuel) (suc more) (suc u) v enough spare =
      ap (λ half. half * 2 + f (suc u % 2) (v % 2))
        (spare_fuel fuel more (suc u / 2) (v / 2) (omega arith) (omega arith))

  bitwise_step :
      (u : ℕ) (v : ℕ)
      → bitwise z f (suc u) v ≡ bitwise z f (suc u / 2) (v / 2) * 2 + f (suc u % 2) (v % 2)
  bitwise_step u v =
      ap (λ half. half * 2 + f (suc u % 2) (v % 2))
        (spare_fuel u (suc u / 2) (suc u / 2) (v / 2) (omega arith) (le_refl _))

differ_digit : (x y : ℕ) → x < 2 → y < 2 → differ x y ≡ (x + y) % 2
differ_digit zero y hx hy = omega arith
differ_digit (suc zero) zero hx hy = refl
differ_digit (suc zero) (suc zero) hx hy = refl
differ_digit (suc zero) (suc (suc y)) hx hy = absurd (omega arith)
differ_digit (suc (suc x)) y hx hy = absurd (omega arith)

pub and_step : (u : ℕ) (v : ℕ) → bit_and u v ≡ bit_and (u / 2) (v / 2) * 2 + min (u % 2) (v % 2)
and_step zero v = simp bit_and-bitwise (omega arith)
and_step (suc u) v = simp bit_and-bitwise (bitwise_step (λ _. 0) min u v)

pub or_step : (u : ℕ) (v : ℕ) → bit_or u v ≡ bit_or (u / 2) (v / 2) * 2 + max (u % 2) (v % 2)
or_step zero v = simp bit_or-bitwise (omega arith)
or_step (suc u) v = simp bit_or-bitwise (bitwise_step (λ y. y) max u v)

xor_step_differ :
    (u : ℕ) (v : ℕ) → bit_xor u v ≡ bit_xor (u / 2) (v / 2) * 2 + differ (u % 2) (v % 2)
xor_step_differ zero v = simp bit_xor-bitwise (omega arith)
xor_step_differ (suc u) v = simp bit_xor-bitwise (bitwise_step (λ y. y) differ u v)

pub xor_step : (u : ℕ) (v : ℕ) → bit_xor u v ≡ bit_xor (u / 2) (v / 2) * 2 + (u + v) % 2
xor_step u v =
    omega (arith, xor_step_differ u v, differ_digit (u % 2) (v % 2) (omega arith) (omega arith))
