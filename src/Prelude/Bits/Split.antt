-- ===== src/Prelude/Bits/Split.antt =====
-- An operation that works digit by digit works on two halves of a word apart, and stays in width.
use Prim.Native.Nat.{◌^◌, ℕ, ◌/◌, zero, ◌≤◌, suc, ◌<◌, ◌*◌, ◌+◌, ◌%◌}
use mathlib.Core.Path.{◌≡◌, ap}
use native.Mathlib.Nat.{pow-suc}
use native.Mathlib.Omega.{arith}

-- Induction from half a number to the number.
pub half_induction {ℓ} :
    (P : ℕ → Type ℓ) → P 0 → ((a : ℕ) → 0 < a → P (a / 2) → P a) → (a : ℕ) → P a
half_induction P base step a = go a a (omega arith)
  where
    go : (n m : ℕ) → m ≤ n → P m
    go n zero h = base
    go zero (suc m) h = absurd (omega arith)
    go (suc n) (suc m) h = step (suc m) (omega arith) (go n (suc m / 2) (omega arith))

mul-pow-suc : (q k : ℕ) → q * 2 ^ suc k ≡ 2 * (q * 2 ^ k)
mul-pow-suc q k = omega (arith, ap (λ (t : ℕ). q * t) (pow-suc 2 k))

module _ (op g : ℕ → ℕ → ℕ) (step : (a b : ℕ) → op a b ≡ op (a / 2) (b / 2) * 2 + g (a % 2) (b % 2))
    (none : op 0 0 ≡ 0) where
  pub op_split :
      (k p q r s : ℕ)
      → r < 2 ^ k
      → s < 2 ^ k
      → op (p * 2 ^ k + r) (q * 2 ^ k + s) ≡ op p q * 2 ^ k + op r s
  op_split zero p q r s hr hs = ground (arith, none)
  op_split (suc k) p q r s hr hs = ground (
    arith,
    step (p * 2 ^ suc k + r) (q * 2 ^ suc k + s),
    step r s,
    mul-pow-suc p k,
    mul-pow-suc q k,
    mul-pow-suc (op p q) k,
    pow-suc 2 k,
    op_split k p q (r / 2) (s / 2) (omega (arith, pow-suc 2 k)) (omega (arith, pow-suc 2 k)),
  )

  pub op-lt :
      ((x y : ℕ) → x < 2 → y < 2 → g x y < 2) → (k a b : ℕ) → a < 2 ^ k → b < 2 ^ k → op a b < 2 ^ k
  op-lt digit zero a b ha hb = ground (arith, none)
  op-lt digit (suc k) a b ha hb = omega (
    arith,
    pow-suc 2 k,
    step a b,
    digit (a % 2) (b % 2) (omega arith) (omega arith),
    op-lt digit k (a / 2) (b / 2) (omega (arith, pow-suc 2 k)) (omega (arith, pow-suc 2 k)),
  )
