-- ===== src/Tests/Media.antt =====
-- Concrete runs of the converters.

use fastvideo.Prelude.{
  zero, suc, ◌<◌, ℕ, ◌≡◌, refl, ◌*◌, ◌∷◌, ◌^◌, ◌≤◌, ◌%◌, List, ◌/◌, [], some, get_or, arith,
}
use fastvideo.Convert.{Config, DeviceConf}
use fastvideo.Convert.Nv12.{
  Luma, Resize, used_stride, used_rows, create, create_luma, convert_copied,
}
use fastvideo.Convert.Nv12.Ratio.{Lowest, create-Lowest}
use fastvideo.Convert.Nv12.Plane.{PlaneOf, convert_copied-PlaneOf}
use fastvideo.Convert.Bayer.{
  bg10tor16_create, bg10tor16_convert, bayer_order, given_stride, fourcc_gb10,
}
use fastvideo.Convert.Bayer.Greens.{Greens, green_phase, bg10tor16_convert-Greens}

abbrev frame_conf : ℕ → DeviceConf
frame_conf format = record { format = format; width = 3; height = 2; stride = 4 }

abbrev stage_conf : ℕ → Config
stage_conf format = record { parent = frame_conf format; transfer = frame_conf format }

abbrev no_resize : Resize
no_resize = record { numerator = 1; denominator = 1 }

create-Lowest_example :
    (r : Resize) × (create (stage_conf 0) no_resize ≡ some (create_luma (stage_conf 0), r))
    × Lowest 3 (create_luma (stage_conf 0)).src_stride r
create-Lowest_example =
    create-Lowest (stage_conf 0) no_resize (λ e. absurd (omega (arith, e))) (omega arith)
      (omega arith)

abbrev luma : Luma
luma = record { width = 3; height = 2; src_stride = 4 }

abbrev padded : List ℕ
padded = 1 ∷ 2 ∷ 3 ∷ 0 ∷ 4 ∷ 5 ∷ 6 ∷ 0 ∷ []

abbrev blank : List ℕ
blank = 9 ∷ 9 ∷ 9 ∷ 9 ∷ 9 ∷ 9 ∷ 9 ∷ []

small_frame : 2 * used_stride luma 0 < 2 ^ 64
unfolding used_stride
small_frame = omega arith

small_plane : used_rows 2 (used_stride luma 0) 8 * 3 ≤ 7
unfolding used_stride used_rows
small_plane = omega arith

convert_copied-PlaneOf_example :
    (out : List ℕ) × (rows : ℕ) × (convert_copied luma padded blank 8 0
      ≡ some (out, 3 * rows % 2 ^ 64))
    × PlaneOf luma padded blank out (used_stride luma 0) 8 rows
convert_copied-PlaneOf_example =
    convert_copied-PlaneOf luma padded blank 8 0 small_frame (omega arith) small_plane

known_order : bayer_order fourcc_gb10 ≡ some 1
unfolding bayer_order
known_order = refl

one_stride : given_stride 8 0 ≡ 8 * 1
unfolding given_stride
one_stride = refl

abbrev samples : List ℕ
samples = 80 ∷ 40 ∷ 16 ∷ 8 ∷ []

samples_fit : (k : ℕ) → get_or samples k 0 < 2 ^ 16
samples_fit zero = omega arith
samples_fit (suc zero) = omega arith
samples_fit (suc (suc zero)) = omega arith
samples_fit (suc (suc (suc zero))) = omega arith
samples_fit (suc (suc (suc (suc k)))) = omega arith

bg10tor16_convert-Greens_example :
    (coefs : List ℕ) × (out : List ℕ) × (bg10tor16_create (some (stage_conf fourcc_gb10))
      ≡ some coefs)
    × (bg10tor16_convert coefs samples (0 ∷ 0 ∷ 0 ∷ 0 ∷ []) 8 0 ≡ some (out, 8))
    × Greens (green_phase 1) (4 * 1) (8 / (8 * 1)) samples (0 ∷ 0 ∷ 0 ∷ 0 ∷ []) out
bg10tor16_convert-Greens_example =
    bg10tor16_convert-Greens (stage_conf fourcc_gb10) 1 samples (0 ∷ 0 ∷ 0 ∷ 0 ∷ []) 8 0 0
      known_order one_stride samples_fit (omega arith) (omega arith)
