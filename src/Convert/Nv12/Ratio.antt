-- ===== src/Convert/Nv12/Ratio.antt =====
-- The ratio that `convert_create` of src/sconvert_NV12toR8.c sets.
use fastvideo.Prelude.{
  ℕ, ◌+◌, ◌*◌, ◌/◌, ◌%◌, ◌^◌, ◌<◌, ◌≡◌, ◌≢◌, Option, some, arith, zero, suc, refl, ap, ◌∙◌, ◌==◌,
  if◌then◌else◌, sym, false,
}
use fastvideo.Convert.{Config}
use fastvideo.Convert.Gcd.{gcd, gcd-Greatest, Divides, Greatest}
use fastvideo.Convert.Nv12.{Resize, Luma, reduced, created, create, create_luma, create_ratio}

-- The ratio of two numbers in lowest terms.
pub record Lowest (width stride : ℕ) (r : Resize) : Type 0 where
  pub same_ratio : r.numerator * stride ≡ width * r.denominator
  pub positive : 0 < r.denominator
  pub lowest : (k : ℕ) → Divides k r.numerator → Divides k r.denominator → k ≡ 1

-- A product of two that changes nothing is of two ones.
unit_right : (t k g : ℕ) → g ≢ 0 → g ≡ t * (k * g) → k ≡ 1
unit_right t zero g h e = absurd (h (omega (arith, e)))
unit_right t (suc zero) g h e = refl
unit_right zero (suc (suc k)) g h e = absurd (h (omega (arith, e)))
unit_right (suc t) (suc (suc k)) g h e = absurd (h (omega (arith, e)))

exact : (n q r p : ℕ) → n * q + r ≡ n * p → r < n → q ≡ p
exact n zero r zero e small = refl
exact n zero r (suc p) e small = absurd (omega (arith, e, small))
exact n (suc q) r zero e small = absurd (omega (arith, e, small))
exact n (suc q) r (suc p) e small = ap suc (exact n q r p (omega (arith, e)) small)

quotient : (p g : ℕ) → p * suc g / suc g ≡ p
quotient p g = exact (suc g) (p * suc g / suc g) (p * suc g % suc g) p (omega arith) (omega arith)

factors-Lowest :
    (w s g p q : ℕ) (r : Resize)
    → w ≢ 0
    → s ≢ 0
    → Greatest w s (suc g)
    → w ≡ p * suc g
    → s ≡ q * suc g
    → r.numerator ≡ p
    → r.denominator ≡ q
    → Lowest w s r
factors-Lowest w s g p q r wide long t e f num den = record {
  same_ratio =
      ap (λ n. n * s) num
      ∙ ap (λ n. p * n) f
      ∙ turned
      ∙ ap (λ n. n * q) (sym e)
      ∙ ap (λ n. w * n) (sym den);
  positive = omega (arith, positive_factor q f, den);
  lowest = λ k in_p in_q. unit k in_p in_q;
}
  where
    turned : p * (q * suc g) ≡ p * suc g * q
    turned = omega arith

    positive_factor : (q : ℕ) → s ≡ q * suc g → 0 < q
    positive_factor zero f = absurd (long (omega (arith, f)))
    positive_factor (suc q) f = omega arith

    multiple : (k x n : ℕ) → n ≡ x → Divides k n → Divides (k * suc g) (x * suc g)
    multiple k x n same (m, h) = (m, ap (λ y. y * suc g) (sym same ∙ h) ∙ grouped)
      where
        grouped : m * k * suc g ≡ m * (k * suc g)
        grouped = omega arith

    unit : (k : ℕ) → Divides k r.numerator → Divides k r.denominator → k ≡ 1
    unit k in_p in_q =
        let (m, h) = multiple k p r.numerator num in_p in
        let (n, i) = multiple k q r.denominator den in_q in
        let (c, whole) = t.above (k * suc g) (m, e ∙ h) (n, f ∙ i) in
        unit_right c k (suc g) (λ z. absurd (omega (arith, z))) whole

reduced-Lowest :
    (w s g : ℕ)
    → w ≢ 0
    → s ≢ 0
    → Greatest w s g
    → (r : Resize) × (reduced w s (some g) ≡ some r) × Lowest w s r
unfolding reduced
reduced-Lowest w s zero wide long t = let (p, e) = t.left in absurd (wide (omega (arith, e)))
reduced-Lowest w s (suc g) wide long t =
    let (p, e) = t.left in
    let (q, f) = t.right in
    let r : Resize = record { numerator = w / suc g; denominator = s / suc g } in
    (
      r,
      divided,
      factors-Lowest w s g p q r wide long t e f (ap (λ n. n / suc g) e ∙ quotient p g)
          (ap (λ n. n / suc g) f ∙ quotient q g),
    )
  where
    divided :
        reduced w s (some (suc g))
        ≡ some (record { numerator = w / suc g; denominator = s / suc g })
    divided =
        ap
          (λ b.
            if b
            then some (record { numerator = w; denominator = s })
            else some (record { numerator = w / suc g; denominator = s / suc g }))
          {x = suc g == 0} {y = false} (ground arith)

create_ratio-Lowest :
    (conv : Luma) (before : Resize)
    → conv.width ≢ 0
    → conv.src_stride ≢ 0
    → conv.width < 2 ^ 32
    → conv.src_stride < 2 ^ 32
    → (r : Resize) × (create_ratio conv before ≡ some r) × Lowest conv.width conv.src_stride r
unfolding create_ratio
create_ratio-Lowest conv before wide long fits_width fits_stride =
    let (g, ran, t) = gcd-Greatest conv.width conv.src_stride in
    let (r, divided, low) = reduced-Lowest conv.width conv.src_stride g wide long t in
    (r, entered ∙ ap (reduced conv.width conv.src_stride) ran ∙ divided, low)
  where
    entered :
        create_ratio conv before
        ≡ reduced conv.width conv.src_stride (gcd conv.width conv.src_stride)
    entered =
        ap
          (λ b.
            if b
            then some before
            else if conv.src_stride == 0
            then some before
            else computed conv.width conv.src_stride)
          {x = conv.width == 0} {y = false} (ground (arith, wide))
        ∙ ap (λ b. if b then some before else computed conv.width conv.src_stride)
            {x = conv.src_stride == 0} {y = false} (ground (arith, long))
        ∙ ap (λ n. reduced n (conv.src_stride % 2 ^ 32) (gcd n (conv.src_stride % 2 ^ 32)))
            {x = conv.width % 2 ^ 32} {y = conv.width} (omega (arith, fits_width))
        ∙ ap (λ n. reduced conv.width n (gcd conv.width n)) {x = conv.src_stride % 2 ^ 32}
            {y = conv.src_stride} (omega (arith, fits_stride))
      where
        computed : ℕ → ℕ → Option Resize
        computed w s = reduced (w % 2 ^ 32) (s % 2 ^ 32) (gcd (w % 2 ^ 32) (s % 2 ^ 32))

-- For a frame with a width, both it and its stride 32-bit numbers, `convert_create` ends and sets the ratio of
-- the width to the source's stride, in lowest terms and with a denominator that is not zero.
pub create-Lowest :
    (config : Config) (before : Resize)
    → config.parent.width ≢ 0
    → config.parent.width < 2 ^ 32
    → config.parent.stride < 2 ^ 32
    → (r : Resize) × (create config before ≡ some (create_luma config, r))
      × Lowest config.parent.width (create_luma config).src_stride r
unfolding create create_luma created
create-Lowest config before wide fits_width fits_stride =
    let (r, ran, low) =
      create_ratio-Lowest (create_luma config) before wide (λ e. wide (ground (arith, e)))
        fits_width (ground (arith, fits_width, fits_stride)) in
    (r, ap (created (create_luma config)) ran, low)
