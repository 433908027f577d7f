-- ===== src/Convert/Nv12/Plane.antt =====
-- `convert_create` and `convert_convert` of src/sconvert_NV12toR8.c against the luma plane of the frame.
use fastvideo.Prelude.{
  ℕ, ◌+◌, ◌-◌, Bool, ◌*◌, true, ◌/◌, false, ◌%◌, List, ◌^◌, ltb, none, some, if◌then◌else◌, ◌<◌,
  ◌≤◌, ◌≡◌, arith, length, length-take, length-drop, get_or, drop, take, zero, suc, refl, ap, ◌∙◌,
  ◌⊎◌, inl, inr, leb,
}
use fastvideo.Rows.{copy_rows-Copied, read_bytes, get_or-drop, get_or-take}
use fastvideo.Convert.Nv12.{used_stride, Luma, used_rows, returning, convert_copied}

-- The first `rows` rows of the luma plane, `step` bytes apart in the source, without the bytes between them;
-- there are as many as the `size` bytes of the source hold, the image's height at most.
pub record PlaneOf (conv : Luma) (src dst out : List ℕ) (step size rows : ℕ) : Type 0 where
  pub same_length : length out ≡ length dst
  pub inside :
      (r c : ℕ)
      → r < rows
      → c < conv.width
      → get_or out (r * conv.width + c) 0 ≡ get_or src (r * step + c) 0
  pub outside : (k : ℕ) → rows * conv.width ≤ k → get_or out k 0 ≡ get_or dst k 0
  pub handed : rows * step ≤ size
  pub most : (rows ≡ conv.height) ⊎ (size < (rows + 1) * step)

-- The rows that a source holds: all of the image's, or as many as there are whole strides.
abbrev Held : ℕ → ℕ → ℕ → ℕ → Type 0
Held height step size rows = (rows * step ≤ size) × ((rows ≡ height) ⊎ (size < (rows + 1) * step))

rows-Held :
    (less : Bool) (height step size : ℕ)
    → less ≡ ltb size (height * step)
    → Held height step size (if less then size / step else height)
rows-Held true height zero size e = absurd (ground (arith, e))
rows-Held true height (suc step) size e = (omega arith, inr (omega arith))
rows-Held false height step size e = (ground (arith, e), inl refl)

used_rows-Held :
    (height step size : ℕ)
    → height * step < 2 ^ 64
    → Held height step size (used_rows height step size)
unfolding used_rows
used_rows-Held height step size small =
    rows-Held (ltb size (height * step % 2 ^ 64)) height step size
      (ap (λ n. ltb size n) {x = height * step % 2 ^ 64} {y = height * step} (omega (arith, small)))

stride_wide : (conv : Luma) (stride : ℕ) → conv.width ≤ used_stride conv stride
unfolding used_stride
stride_wide conv stride = ground arith

row_inside :
    (rows step w size row : ℕ) → rows * step ≤ size → row < rows → w ≤ step → row * step + w ≤ size
row_inside zero step w size row held below wide = absurd (omega (arith, below))
row_inside (suc rows) step w size zero held below wide = omega (arith, held, wide, below)
row_inside (suc rows) step w size (suc row) held below wide = omega (
  arith,
  held,
  row_inside rows step w (size - step) row (omega (arith, held)) (omega (arith, below)) wide,
)

abbrev plane : List ℕ → ℕ → ℕ → ℕ → List ℕ
plane src step w row = take w (drop (row * step) src)

-- With `SCONVERT_NV12TOR8_COPY`, given the bytes the device handed over and room for the rows they hold, the
-- conversion stays inside of both buffers, packs these rows of the luma plane and returns their size.
pub convert_copied-PlaneOf :
    (conv : Luma) (src dst : List ℕ) (size stride : ℕ)
    → conv.height * used_stride conv stride < 2 ^ 64
    → size ≤ length src
    → used_rows conv.height (used_stride conv stride) size * conv.width ≤ length dst
    → (out : List ℕ) × (rows : ℕ) × (convert_copied conv src dst size stride
        ≡ some (out, conv.width * rows % 2 ^ 64))
      × PlaneOf conv src dst out (used_stride conv stride) size rows
unfolding convert_copied returning read_bytes
convert_copied-PlaneOf conv src dst size stride small given room =
    let step : ℕ = used_stride conv stride in
    let rows : ℕ = used_rows conv.height step size in
    let (held, most) = used_rows-Held conv.height step size small in
    let inside : ((j : ℕ) → j < 0 + rows → j * step + conv.width ≤ size) = λ j below.
      row_inside rows step conv.width size j held (omega (arith, below))
        (stride_wide conv stride) in
    let (out, ran, c) =
      copy_rows-Copied rows 0 conv.width (λ row. read_bytes src (row * step) conv.width)
        (plane src step conv.width) dst
        (λ j low below. read j step conv.width (omega (arith, inside j below, given)))
        (λ j low below. length-plane j step conv.width (omega (arith, inside j below, given)))
        (omega (arith, room)) in
    (
      out,
      rows,
      ap (returning (conv.width * rows % 2 ^ 64)) ran,
      record {
        same_length = c.same_length;
        inside = λ r k below in_row.
            c.inside r k (omega arith) (omega (arith, below)) in_row
            ∙ get_or-take (drop (r * step) src) conv.width k in_row
            ∙ get_or-drop src (r * step) k;
        outside = λ k beyond. c.outside k (inr (omega (arith, beyond)));
        handed = held;
        most = most;
      },
    )
  where
    read :
        (j step w : ℕ)
        → j * step + w ≤ length src
        → read_bytes src (j * step) w ≡ some (plane src step w j)
    read j step w h =
        ap (λ b. if b then some (plane src step w j) else none)
          {x = leb (j * step + w) (length src)} {y = true} (ground (arith, h))

    length-plane : (j step w : ℕ) → j * step + w ≤ length src → length (plane src step w j) ≡ w
    length-plane j step w h =
        omega (arith, length-take w (drop (j * step) src), length-drop (j * step) src, h)
