-- ===== src/Tile/Rows/Unset.antt =====
-- The strides of the device of src/stile.c that copies the tiles, which nothing sets.
use mathlib.Core.Path.{subst}
use fastvideo.Buffers.{DeviceType, input, output, transfer, control, Outcome, done, fault}
use fastvideo.Prelude.{ℕ, ◌<◌, Bool, Option, none, some, ◌≡◌, refl, sym, ap, ◌∙◌, arith, ◌⊎◌}
use fastvideo.Tile.{TileConf, Grid, create}
use fastvideo.Tile.Rows.{
  TileDevice, stile_create, of_grid, stile_duplicate, duplicated, stile_start, started, xoffset,
  row_at, row_read,
}

-- An output whose strides are 0, as `calloc` leaves them.
abbrev Unset : TileDevice → Type 0
Unset dev = (dev.kind ≡ output) × (dev.src_stride ≡ 0) × (dev.src2dst_stride ≡ 0)

of_grid-cleared :
    (g : Option Grid) (dev : TileDevice)
    → of_grid g ≡ some dev
    → (dev.src_stride ≡ 0) × (dev.src2dst_stride ≡ 0)
unfolding of_grid
of_grid-cleared none dev made = absurd (cc)
of_grid-cleared (some g) dev made = (ground (arith, made), ground (arith, made))

stile_create-cleared :
    (kind : DeviceType) (conf : TileConf) (accepted : Bool) (dev : TileDevice)
    → stile_create kind conf accepted ≡ some dev
    → (dev.src_stride ≡ 0) × (dev.src2dst_stride ≡ 0)
unfolding stile_create
stile_create-cleared input conf accepted dev made = absurd (cc)
stile_create-cleared output conf accepted dev made = absurd (cc)
stile_create-cleared transfer conf accepted dev made =
    of_grid-cleared (create conf accepted) dev made
stile_create-cleared control conf accepted dev made = absurd (cc)

-- The device that is duplicated is the same but for its type.
duplicated-output :
    (kind : DeviceType) (dev dev1 dup : TileDevice)
    → duplicated kind dev ≡ some (dev1, dup)
    → (dev1.kind ≡ output)
      × (dev1.src_stride ≡ dev.src_stride)
      × (dev1.src2dst_stride ≡ dev.src2dst_stride)
      × (dev1.grid ≡ dev.grid)
unfolding duplicated
duplicated-output input dev dev1 dup made = absurd (cc)
duplicated-output output dev dev1 dup made = absurd (cc)
duplicated-output transfer dev dev1 dup made = same (sym (first made))
  where
    of_pair : Option (TileDevice × TileDevice) → TileDevice
    of_pair none = dev
    of_pair (some (a, b)) = a

    first : duplicated transfer dev ≡ some (dev1, dup) → record dev { kind = output } ≡ dev1
    first e = ap of_pair e

    same :
        dev1 ≡ record dev { kind = output }
        → (dev1.kind ≡ output)
          × (dev1.src_stride ≡ dev.src_stride)
          × (dev1.src2dst_stride ≡ dev.src2dst_stride)
          × (dev1.grid ≡ dev.grid)
    same e = (
      ap (λ (t : TileDevice). t.kind) e,
      ap (λ (t : TileDevice). t.src_stride) e,
      ap (λ (t : TileDevice). t.src2dst_stride) e,
      ap (λ (t : TileDevice). t.grid) e,
    )
duplicated-output control dev dev1 dup made = absurd (cc)

started-Unset :
    (bpp : ℕ) (kind : DeviceType) (dev : TileDevice)
    → kind ≡ output
    → (dev.src_stride ≡ 0) × (dev.src2dst_stride ≡ 0)
    → ((started bpp kind dev).src_stride ≡ 0)
      × ((started bpp kind dev).src2dst_stride ≡ 0)
      × ((started bpp kind dev).grid ≡ dev.grid)
unfolding started
started-Unset bpp input dev out strides = absurd (cc)
started-Unset bpp output dev out strides = (strides.0, strides.1, refl)
started-Unset bpp transfer dev out strides = absurd (cc)
started-Unset bpp control dev out strides = absurd (cc)

-- Every row of a tile is read at the start of the source, and no byte of it; or the width of a tile is 0, and the
-- call divides by it.
abbrev pub NoneRead : Grid → Outcome (ℕ × ℕ) → Type 0
NoneRead g result =
    ((0 < g.dst_width) × (result ≡ done (0, 0))) ⊎ ((g.dst_width ≡ 0) × (result ≡ fault))

row_read-NoneRead :
    (dev : TileDevice) (tx ty row : ℕ)
    → dev.src_stride ≡ 0
    → dev.src2dst_stride ≡ 0
    → NoneRead dev.grid (row_read dev tx ty row)
unfolding row_read row_at xoffset
row_read-NoneRead dev tx ty row src dst = ground (arith, src, dst)

-- A device that `stile_create` makes and `stile_duplicate` makes the source of tiles keeps both strides at 0 through
-- `stile_start`, whatever bytes a pixel has: for every row of every tile `stile_queue` hands no byte
-- to the converter, from the start of the frame, or it divides by a tile width of 0.
pub stile_start-NoneRead :
    (kind : DeviceType) (conf : TileConf) (accepted : Bool) (dev dev1 dup : TileDevice)
    (bpp tx ty row : ℕ)
    → stile_create kind conf accepted ≡ some dev
    → stile_duplicate dev ≡ some (dev1, dup)
    → NoneRead dev.grid (row_read (stile_start bpp dev1) tx ty row)
unfolding stile_duplicate stile_start
stile_start-NoneRead kind conf accepted dev dev1 dup bpp tx ty row made shared =
    let (src, dst) = stile_create-cleared kind conf accepted dev made in
    let (out, src1, dst1, grid1) = duplicated-output dev.kind dev dev1 dup shared in
    let (src2, dst2, grid2) = started-Unset bpp dev1.kind dev1 out (src1 ∙ src, dst1 ∙ dst) in
    subst (λ g. NoneRead g (row_read (stile_start bpp dev1) tx ty row)) (grid2 ∙ grid1)
      (row_read-NoneRead (started bpp dev1.kind dev1) tx ty row src2 dst2)
