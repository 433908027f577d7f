-- ===== src/Prelude/Times.antt =====
-- Products of native numbers, by a factor that is a variable.
use Prim.Native.Nat.{◌*◌, ◌/◌, ◌<◌, ◌≤◌, suc, ℕ, zero}
use mathlib.Core.Path.{◌≡◌, refl, ap}
use mathlib.Core.Logic.{inl, inr}
use native.Mathlib.Omega.{arith}
use fastvideo.Prelude.Tests.{Bool-cases, ltb}

pub mul_mono : (a b c : ℕ) → a ≤ b → a * c ≤ b * c
mul_mono zero b c le = omega arith
mul_mono (suc a) zero c le = absurd (omega arith)
mul_mono (suc a) (suc b) c le = omega (arith, mul_mono a b c (omega arith))

pub times_cancel : (h a b : ℕ) → 0 < h → h * a ≡ h * b → a ≡ b
times_cancel h zero zero p e = refl
times_cancel h zero (suc b) p e = absurd (omega (arith, p, e))
times_cancel h (suc a) zero p e = absurd (omega (arith, p, e))
times_cancel h (suc a) (suc b) p e = ap suc (times_cancel h a b p (omega (arith, e)))

pub at_most_quotient : (a b c : ℕ) → a * suc b ≤ c → a ≤ c / suc b
at_most_quotient a b c h = elim (Bool-cases (ltb (c / suc b) a)) [
  | inl below ↦
      absurd (omega (arith, h, mul_mono (suc (c / suc b)) a (suc b) (ground (arith, below))))
  | inr above ↦ ground (arith, above)
]
