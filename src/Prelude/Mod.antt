-- ===== src/Prelude/Mod.antt =====
-- Remainders by a variable, of a number less than two rounds.
use Prim.Native.Nat.{◌%◌, ◌<◌, ◌+◌, ◌*◌, ◌/◌, suc, ℕ, zero}
use mathlib.Core.Path.{◌≡◌}
use native.Mathlib.Omega.{arith}

division-zero : (n q r m : ℕ) → n * q + r ≡ m → m < n → r ≡ m
division-zero n zero r m e below = omega (arith, e)
division-zero n (suc q) r m e below = absurd (omega (arith, e, below))

division-one : (n q r m : ℕ) → n * q + r ≡ m + n → r < n → m < n → r ≡ m
division-one n zero r m e small below = absurd (omega (arith, e, small))
division-one n (suc q) r m e small below = division-zero n q r m (omega (arith, e)) below

pub mod-round : (n m : ℕ) → m < n → ((m + n) % n ≡ m) × (m % n ≡ m)
mod-round n m below = (
  division-one n ((m + n) / n) ((m + n) % n) m (omega arith) (omega (arith, below)) below,
  division-zero n (m / n) (m % n) m (omega arith) below,
)
