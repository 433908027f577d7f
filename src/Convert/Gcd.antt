-- ===== src/Convert/Gcd.antt =====
-- `_gcd` of src/sconvert_NV12toR8.c.
use fastvideo.Prelude.{
  ℕ, ◌≤◌, zero, suc, ◌≡◌, refl, ap, sym, ◌∙◌, ◌+◌, Option, ◌*◌, none, ◌/◌, some, ◌%◌, arith, ◌<◌,
  ◌⊎◌, inl, inr, ◌-◌,
}

-- The loop, with `fuel` rounds at most.
unfoldable pub gcd_loop : ℕ → ℕ → ℕ → Option ℕ
gcd_loop zero a b = none
gcd_loop (suc fuel) a zero = some a
gcd_loop (suc fuel) a (suc b) = gcd_loop fuel (suc b) (a % suc b)

unfoldable pub gcd : ℕ → ℕ → Option ℕ
unfolding gcd_loop
gcd a b = gcd_loop (b + 1) a b

abbrev pub Divides : ℕ → ℕ → Type 0
Divides k a = (q : ℕ) × (a ≡ q * k)

-- A common divisor that every common divisor divides.
pub record Greatest (a b g : ℕ) : Type 0 where
  pub left : Divides g a
  pub right : Divides g b
  pub above : (k : ℕ) → Divides k a → Divides k b → Divides k g

module _ (k : ℕ) where
  Divides-sum : (a b : ℕ) → Divides k a → Divides k b → Divides k (a + b)
  Divides-sum a b (p, e) (q, f) = (p + q, omega (arith, e, f))

  Divides-product : (x a : ℕ) → Divides k a → Divides k (a * x)
  Divides-product x a (q, e) = (q * x, ap (λ n. n * x) e ∙ swap_factors)
    where
      swap_factors : q * k * x ≡ q * x * k
      swap_factors = omega arith

  Divides-rest : (a b : ℕ) → Divides k b → Divides k (a + b) → Divides k a
  Divides-rest a b (q, e) (p, f) = elim (order p q) [
    | inl (d, more) ↦ (d, omega (arith, e, f, ap (λ n. n * k) more))
    | inr (d, less) ↦ (0, omega (arith, e, f, ap (λ n. n * k) less))
  ]
    where
      order : (p q : ℕ) → ((d : ℕ) × (p ≡ q + d)) ⊎ ((d : ℕ) × (q ≡ p + d))
      order p q = elim (sides p q) [
        | inl h ↦ inl (p - q, omega (arith, h))
        | inr h ↦ inr (q - p, omega (arith, h))
      ]
        where
          sides : (p q : ℕ) → (q ≤ p) ⊎ (p ≤ q)
          sides p q = ground arith

-- The quotient by a positive number.
division : (a b : ℕ) → a ≡ a % suc b + suc b * (a / suc b)
division a b = omega arith

remainder_below : (a b : ℕ) → a % suc b < suc b
remainder_below a b = omega arith

step-Greatest : (a b g : ℕ) → Greatest (suc b) (a % suc b) g → Greatest a (suc b) g
step-Greatest a b g t = record {
  left = whole g (
      Divides-sum g (a % suc b) (suc b * (a / suc b)) t.right
        (Divides-product g (a / suc b) (suc b) t.left));
  right = t.left;
  above = λ k in_a in_b. t.above k in_b (
      Divides-rest k (a % suc b) (suc b * (a / suc b)) (Divides-product k (a / suc b) (suc b) in_b)
        (parts k in_a));
}
  where
    whole : (k : ℕ) → Divides k (a % suc b + suc b * (a / suc b)) → Divides k a
    whole k (q, e) = (q, division a b ∙ e)

    parts : (k : ℕ) → Divides k a → Divides k (a % suc b + suc b * (a / suc b))
    parts k (q, e) = (q, sym (division a b) ∙ e)

loop-Greatest : (fuel a b : ℕ) → b < fuel → (g : ℕ) × (gcd_loop fuel a b ≡ some g) × Greatest a b g
unfolding gcd_loop
loop-Greatest zero a b enough = absurd (omega (arith, enough))
loop-Greatest (suc fuel) a zero enough = (
  a,
  refl,
  record { left = (1, omega arith); right = (0, omega arith); above = λ k in_a in_b. in_a },
)
loop-Greatest (suc fuel) a (suc b) enough =
    let (g, ran, t) =
      loop-Greatest fuel (suc b) (a % suc b) (omega (arith, enough, remainder_below a b)) in
    (g, ran, step-Greatest a b g t)

-- `_gcd` of any two numbers ends, in no more rounds than the second number counts and one, and returns
-- a common divisor of the two that every common divisor divides.
pub gcd-Greatest : (a b : ℕ) → (g : ℕ) × (gcd a b ≡ some g) × Greatest a b g
unfolding gcd
gcd-Greatest a b = loop-Greatest (b + 1) a b (omega arith)
