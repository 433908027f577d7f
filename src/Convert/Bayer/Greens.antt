-- ===== src/Convert/Bayer/Greens.antt =====
-- What src/sconvert_BG10toR16.c makes of a frame whose rows are whole groups of four samples.
use fastvideo.Prelude.{
  ℕ, ◌+◌, refl, ◌*◌, ap, ◌/◌, ◌∙◌, ◌%◌, zero, ◌^◌, suc, ◌≡◌, List, ◌<◌, ◌≤◌, arith, none, some,
  drop, ◌==◌, length, get_or, if◌then◌else◌, length-drop, ◌-◌, inr, true, false,
}
use fastvideo.Rows.{copy_rows, copy_rows-Copied, get_or-drop}
use fastvideo.Convert.{Config}
use fastvideo.Convert.Bayer.{
  bayer_order, order_coefs, bayer_formats, coefs_of, bg10tor16_create, scale_sample, convert_groups,
  bg10tor16_convertline, given_stride, converted, convert_rows, bg10tor16_convert, first_coef,
  second_coef,
}
use fastvideo.Convert.Bayer.Scaled.{
  line, pick, length-line, get_or-line, convert_groups-line, scale-green, scale-other,
}

-- The image that keeps the green samples of `rows` rows of `w` samples, at the columns whose distance from the
-- first of the row has the parity `phase` in even rows and the other in odd ones.
pub record Greens (phase w rows : ℕ) (src dst out : List ℕ) : Type 0 where
  pub same_length : length out ≡ length dst
  pub green :
      (r c : ℕ)
      → r < rows
      → c < w
      → (r + c) % 2 ≡ phase
      → get_or out (r * w + c) 0 ≡ (get_or src (r * w + c) 0 + 4) / 8
  pub other : (r c : ℕ) → r < rows → c < w → (r + c) % 2 ≡ 1 - phase → get_or out (r * w + c) 0 ≡ 0
  pub beyond : (k : ℕ) → rows * w ≤ k → get_or out k 0 ≡ get_or dst k 0

-- The coefficient of a sample.
abbrev coef : List ℕ → ℕ → ℕ → ℕ
coef coefs r c = pick c (first_coef coefs r) (second_coef coefs r)

abbrev weighted : List ℕ → List ℕ → ℕ → ℕ → List ℕ
weighted coefs src m r = line m (drop (r * (4 * m)) src) (first_coef coefs r) (second_coef coefs r)

convertline-weighted :
    (coefs src : List ℕ) (m r : ℕ)
    → (r + 1) * (4 * m) ≤ length src
    → bg10tor16_convertline src (r * (8 * m)) (8 * m) (first_coef coefs r) (second_coef coefs r)
      ≡ some (weighted coefs src m r)
unfolding bg10tor16_convertline
convertline-weighted coefs src m r h =
    ap
      (λ n.
        if n == 0
        then convert_groups ((8 * m / 2 + 3) / 4) (drop (r * (8 * m) / 2) src) (first_coef coefs r)
            (second_coef coefs r)
        else none)
      {x = r * (8 * m) % 2} {y = 0} (omega arith)
    ∙ ap
        (λ n.
          convert_groups n (drop (r * (8 * m) / 2) src) (first_coef coefs r) (second_coef coefs r))
        {x = (8 * m / 2 + 3) / 4} {y = m} (omega arith)
    ∙ ap (λ n. convert_groups m (drop n src) (first_coef coefs r) (second_coef coefs r))
        {x = r * (8 * m) / 2} {y = r * (4 * m)} (omega arith)
    ∙ convert_groups-line m (drop (r * (4 * m)) src) (first_coef coefs r) (second_coef coefs r)
        (omega (arith, h, length-drop (r * (4 * m)) src))

-- Each sample is weighted by its coefficient.
record Weighted (coefs : List ℕ) (w rows : ℕ) (src dst out : List ℕ) : Type 0 where
  same_length : length out ≡ length dst
  sample :
      (r c : ℕ)
      → r < rows
      → c < w
      → get_or out (r * w + c) 0 ≡ scale_sample (get_or src (r * w + c) 0) (coef coefs r c)
  beyond : (k : ℕ) → rows * w ≤ k → get_or out k 0 ≡ get_or dst k 0

row_before : (rows w r len : ℕ) → rows * w ≤ len → r < rows → (r + 1) * w ≤ len
row_before zero w r len held below = absurd (omega (arith, below))
row_before (suc rows) w zero len held below = omega (arith, held)
row_before (suc rows) w (suc r) len held below =
    omega (arith, held, row_before rows w r (len - w) (omega (arith, held)) (omega (arith, below)))

rows-Weighted :
    (coefs src dst : List ℕ) (m rows : ℕ)
    → rows * (4 * m) ≤ length src
    → rows * (4 * m) ≤ length dst
    → (out : List ℕ) × (copy_rows rows 0
          (8 * m / 2)
          (λ i.
            bg10tor16_convertline src
              (i * (8 * m))
              (8 * m)
              (first_coef coefs i)
              (second_coef coefs i))
          dst
        ≡ some out)
      × Weighted coefs (4 * m) rows src dst out
rows-Weighted coefs src dst m rows given room =
    let (out, ran, c) =
      copy_rows-Copied rows 0 (4 * m)
        (λ i.
          bg10tor16_convertline src (i * (8 * m)) (8 * m) (first_coef coefs i)
            (second_coef coefs i))
        (weighted coefs src m) dst
        (λ j low below.
          convertline-weighted coefs src m j
            (row_before rows (4 * m) j (length src) given (omega (arith, below))))
        (λ j low below.
          length-line m (drop (j * (4 * m)) src) (first_coef coefs j) (second_coef coefs j))
        (omega (arith, room)) in
    (
      out,
      ap
            (λ w.
              copy_rows rows 0 w
                (λ i.
                  bg10tor16_convertline src (i * (8 * m)) (8 * m) (first_coef coefs i)
                    (second_coef coefs i))
                dst)
            {x = 8 * m / 2} {y = 4 * m} (omega arith)
          ∙ ran,
      record {
        same_length = c.same_length;
        sample = λ r k below in_row.
            c.inside r k (omega arith) (omega (arith, below)) in_row
            ∙ get_or-line m (drop (r * (4 * m)) src) (first_coef coefs r) (second_coef coefs r) k
                in_row
            ∙ ap (λ s. scale_sample s (coef coefs r k)) (get_or-drop src (r * (4 * m)) k);
        beyond = λ k h. c.outside k (inr (omega (arith, h)));
      },
    )

-- Where the green samples stand: `BGGR` starts a row with blue, `GBRG` with green.
abbrev pub green_phase : ℕ → ℕ
green_phase zero = 1
green_phase (suc format) = 0

-- The coefficient by the parity of the sample's place.
abbrev by_parity : ℕ → ℕ → ℕ
by_parity format parity = if parity == green_phase format then 32 else 0

coef-by_parity :
    (format r c : ℕ)
    → coef (order_coefs (bayer_formats format)) r c ≡ by_parity format ((r + c) % 2)
unfolding order_coefs
coef-by_parity format r c =
    table format (r % 2) (c % 2) (omega arith) (omega arith)
    ∙ ap (by_parity format) {x = (r % 2 + c % 2) % 2} {y = (r + c) % 2} (omega arith)
  where
    table :
        (format a b : ℕ)
        → a < 2
        → b < 2
        → (if b == 0
            then get_or (order_coefs (bayer_formats format)) (2 * a) 0
            else get_or (order_coefs (bayer_formats format)) (2 * a + 1) 0)
          ≡ by_parity format ((a + b) % 2)
    table zero zero zero low_a low_b = refl
    table zero zero (suc zero) low_a low_b = refl
    table zero (suc zero) zero low_a low_b = refl
    table zero (suc zero) (suc zero) low_a low_b = refl
    table (suc format) zero zero low_a low_b = refl
    table (suc format) zero (suc zero) low_a low_b = refl
    table (suc format) (suc zero) zero low_a low_b = refl
    table (suc format) (suc zero) (suc zero) low_a low_b = refl
    table format (suc (suc a)) b low_a low_b = absurd (omega (arith, low_a))
    table format a (suc (suc b)) low_a low_b = absurd (omega (arith, low_b))

Weighted-Greens :
    (format w rows : ℕ) (src dst out : List ℕ)
    → ((k : ℕ) → get_or src k 0 < 2 ^ 16)
    → Weighted (order_coefs (bayer_formats format)) w rows src dst out
    → Greens (green_phase format) w rows src dst out
Weighted-Greens format w rows src dst out words t = record {
  same_length = t.same_length;
  green = λ r c below in_row h.
      t.sample r c below in_row
      ∙ ap (scale_sample (get_or src (r * w + c) 0)) (
          coef-by_parity format r c
          ∙ ap (by_parity format) h
          ∙ ap (λ b. if b then 32 else 0) {x = green_phase format == green_phase format} {y = true}
              (ground arith))
      ∙ scale-green (get_or src (r * w + c) 0) (words (r * w + c));
  other = λ r c below in_row h.
      t.sample r c below in_row
      ∙ ap (scale_sample (get_or src (r * w + c) 0)) (
          coef-by_parity format r c
          ∙ ap (by_parity format) h
          ∙ ap (λ b. if b then 32 else 0) {x = 1 - green_phase format == green_phase format}
              {y = false} (ground arith))
      ∙ scale-other (get_or src (r * w + c) 0);
  beyond = t.beyond;
}

-- For a format with a known Bayer order, and rows of whole groups of four samples in memory of 16-bit words
-- that holds them, the converter is made and its conversion stays inside of both buffers: a green sample
-- becomes an eighth of its value, rounded, any other sample zero, and it returns the size it was given.
pub bg10tor16_convert-Greens :
    (config : Config) (format : ℕ) (src dst : List ℕ) (size stride m : ℕ)
    → bayer_order config.parent.format ≡ some format
    → given_stride size stride ≡ 8 * suc m
    → ((k : ℕ) → get_or src k 0 < 2 ^ 16)
    → size ≤ 2 * length src
    → size ≤ 2 * length dst
    → (coefs : List ℕ) × (out : List ℕ) × (bg10tor16_create (some config) ≡ some coefs)
      × (bg10tor16_convert coefs src dst size stride ≡ some (out, size))
      × Greens (green_phase format) (4 * suc m) (size / (8 * suc m)) src dst out
unfolding bg10tor16_create coefs_of bg10tor16_convert convert_rows converted
bg10tor16_convert-Greens config format src dst size stride m known step words given room =
    let rows : ℕ = size / (8 * suc m) in
    let held : rows * (8 * suc m) ≤ size = omega arith in
    let coefs : List ℕ = order_coefs (bayer_formats format) in
    let (out, ran, t) =
      rows-Weighted coefs src dst (suc m) rows (omega (arith, held, given))
        (omega (arith, held, room)) in
    (
      coefs,
      out,
      ap coefs_of known,
      ap (convert_rows coefs src dst size) step ∙ not_zero coefs ∙ ap (converted size) ran,
      Weighted-Greens format (4 * suc m) rows src dst out words t,
    )
  where
    not_zero :
        (coefs : List ℕ)
        → convert_rows coefs src dst size (8 * suc m)
          ≡ converted size (
              copy_rows
                (size / (8 * suc m))
                0
                (8 * suc m / 2)
                (λ i.
                  bg10tor16_convertline src
                    (i * (8 * suc m))
                    (8 * suc m)
                    (first_coef coefs i)
                    (second_coef coefs i))
                dst)
    not_zero coefs =
        ap
          (λ b.
            if b
            then none
            else converted size (
                copy_rows (size / (8 * suc m)) 0 (8 * suc m / 2)
                  (λ i.
                    bg10tor16_convertline src (i * (8 * suc m)) (8 * suc m) (first_coef coefs i)
                      (second_coef coefs i))
                  dst))
          {x = 8 * suc m == 0} {y = false} (ground arith)
