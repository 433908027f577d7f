-- ===== src/Convert/Bayer.antt =====
-- The converter of src/sconvert_BG10toR16.c: each row of 16-bit Bayer samples is weighted by two
-- coefficients in turn. Memory is a list of 16-bit words, so that a row may start at an even byte only.
pub mod Scaled
pub mod Greens
use fastvideo.Prelude.{
  ℕ, ◌+◌, [], ◌-◌, List, ◌*◌, ◌∷◌, ◌/◌, Option, ◌%◌, none, ◌^◌, some, ltb, set, ◌==◌, zero,
  if◌then◌else◌, suc, Bool, drop, length, get_or, ◌||◌, true, false,
}
use fastvideo.Rows.{copy_rows}
use fastvideo.Convert.{fourcc, DeviceConf, Config}

-- `BayerFormat_t`
pub record BayerFormat : Type 0 where
  pub green1 : ℕ
  pub red : ℕ
  pub green2 : ℕ
  pub blue : ℕ

-- `bayer_formats`
abbrev pub bayer_formats : ℕ → BayerFormat
bayer_formats zero = record { green1 = 1; red = 3; green2 = 2; blue = 0 }
bayer_formats (suc format) = record { green1 = 0; red = 2; green2 = 3; blue = 1 }

-- `FOURCC_BG10`, `FOURCC_BYR2`, `FOURCC_GB10` and `FOURCC_GB16`
abbrev pub fourcc_bg10 : ℕ
fourcc_bg10 = fourcc 66 71 49 48

abbrev pub fourcc_byr2 : ℕ
fourcc_byr2 = fourcc 66 89 82 50

abbrev pub fourcc_gb10 : ℕ
fourcc_gb10 = fourcc 71 66 49 48

abbrev pub fourcc_gb16 : ℕ
fourcc_gb16 = fourcc 71 66 49 54

-- The switch on the code.
unfoldable pub bayer_order : ℕ → Option ℕ
bayer_order code =
    if (code == fourcc_bg10) || (code == fourcc_byr2)
    then some 0
    else if (code == fourcc_gb10) || (code == fourcc_gb16)
    then some 1
    else none

-- The four coefficients, from memory that `calloc` cleared.
unfoldable pub order_coefs : BayerFormat → List ℕ
order_coefs f = set (set (set (set (0 ∷ 0 ∷ 0 ∷ 0 ∷ []) f.green1 32) f.green2 32) f.red 0) f.blue 0

unfoldable pub coefs_of : Option ℕ → Option (List ℕ)
unfolding order_coefs
coefs_of none = none
coefs_of (some format) = some (order_coefs (bayer_formats format))

-- `bg10tor16_create`, which returns the coefficients; the configuration is `none` for a null pointer.
unfoldable pub bg10tor16_create : Option Config → Option (List ℕ)
unfolding bayer_order coefs_of
bg10tor16_create none = none
bg10tor16_create (some config) = coefs_of (bayer_order config.parent.format)

-- One sample, in 32 bits.
unfoldable pub scale_sample : ℕ → ℕ → ℕ
scale_sample s coef =
    let rounded : ℕ = (s * coef % 2 ^ 32 + 128) % 2 ^ 32 / 2 ^ 8 in
    if ltb 0xFFFF rounded then 0xFFFF else rounded

unfoldable pub scale_four : List ℕ → ℕ → ℕ → Option (List ℕ) → Option (List ℕ)
unfolding scale_sample
scale_four xs c0 c1 none = none
scale_four (a ∷ b ∷ c ∷ d ∷ xs) c0 c1 (some rest) =
    some (scale_sample a c0 ∷ scale_sample b c1 ∷ scale_sample c c0 ∷ scale_sample d c1 ∷ rest)
scale_four xs c0 c1 (some rest) = none

-- `bg10tor16_convertline` on the memory from `xs` on, as its groups of four; `none` where it reads past the end.
unfoldable pub convert_groups : ℕ → List ℕ → ℕ → ℕ → Option (List ℕ)
unfolding scale_four
convert_groups zero xs c0 c1 = some []
convert_groups (suc n) xs c0 c1 = scale_four xs c0 c1 (convert_groups n (drop 4 xs) c0 c1)

-- `bg10tor16_convertline` of `size` bytes at the byte `offset`.
unfoldable pub bg10tor16_convertline : List ℕ → ℕ → ℕ → ℕ → ℕ → Option (List ℕ)
unfolding convert_groups
bg10tor16_convertline src offset size c0 c1 =
    if offset % 2 == 0
    then convert_groups ((size / 2 + 3) / 4) (drop (offset / 2) src) c0 c1
    else none

unfoldable pub given_stride : ℕ → ℕ → ℕ
given_stride size stride = if stride == 0 then size else stride

unfoldable pub converted : ℕ → Option (List ℕ) → Option (List ℕ × ℕ)
converted size none = none
converted size (some out) = some (out, size)

-- `coefs[0]` and `coefs[1]` of `conv->coefs + 2 * (i % 2)`
abbrev pub first_coef : List ℕ → ℕ → ℕ
first_coef coefs i = get_or coefs (2 * (i % 2)) 0

abbrev pub second_coef : List ℕ → ℕ → ℕ
second_coef coefs i = get_or coefs (2 * (i % 2) + 1) 0

-- The rows, `step` bytes apart; `none` where it divides by zero, or leaves its memory.
unfoldable pub convert_rows : List ℕ → List ℕ → List ℕ → ℕ → ℕ → Option (List ℕ × ℕ)
unfolding bg10tor16_convertline converted copy_rows
convert_rows coefs src dst size step =
    if step == 0
    then none
    else converted size (
        copy_rows (size / step) 0 (step / 2)
          (λ i.
            bg10tor16_convertline src (i * step) step (first_coef coefs i) (second_coef coefs i))
          dst)

-- `bg10tor16_convert` of `size` bytes.
unfoldable pub bg10tor16_convert : List ℕ → List ℕ → List ℕ → ℕ → ℕ → Option (List ℕ × ℕ)
unfolding given_stride convert_rows
bg10tor16_convert coefs src dst size stride =
    convert_rows coefs src dst size (given_stride size stride)

-- `bg10tor16_bpp`
abbrev pub bg10tor16_bpp : ℕ
bg10tor16_bpp = 2
