-- ===== src/Tile/Rows.antt =====
-- The places in the source that `stile_queue` of src/stile.c copies the rows of a tile from: the device as
-- `stile_create` leaves it, `stile_duplicate`, `stile_start` and the offset of a row.
pub mod Unset
use fastvideo.Buffers.{DeviceType, input, output, transfer, Outcome, done, fault, endless}
use fastvideo.Prelude.{ℕ, ◌+◌, ◌*◌, ◌/◌, ◌%◌, ◌^◌, Bool, Option, none, some, ◌==◌, if◌then◌else◌}
use fastvideo.Tile.{TileConf, Grid, create}

-- The part of `STile_t` that the rows of a tile are found by; `curbuffer` is the number of a buffer.
pub record TileDevice : Type 0 where
  pub kind : DeviceType
  pub grid : Grid
  pub src_stride : ℕ
  pub src2dst_stride : ℕ
  pub curbuffer : Option ℕ

-- The device that `calloc` gives, with a grid.
abbrev cleared : DeviceType → Grid → TileDevice
cleared kind grid = record {
  kind = kind;
  grid = grid;
  src_stride = 0;
  src2dst_stride = 0;
  curbuffer = none;
}

abbrev no_grid : Grid
no_grid = record {
  src_width = 0;
  src_height = 0;
  dst_width = 0;
  dst_height = 0;
  ntiles_x = 0;
  ntiles_y = 0;
  ntiles = 0;
  tile_xoff = 0;
  tile_yoff = 0;
}

unfoldable pub of_grid : Option Grid → Option TileDevice
of_grid none = none
of_grid (some grid) = some (cleared transfer grid)

-- `stile_create` for a type; `accepted` is whether the converter's `create` gave a context.
unfoldable pub stile_create : DeviceType → TileConf → (accepted : Bool) → Option TileDevice
unfolding of_grid
stile_create transfer conf accepted = of_grid (create conf accepted)
stile_create _ conf accepted = none

unfoldable pub duplicated : DeviceType → TileDevice → Option (TileDevice × TileDevice)
duplicated transfer dev =
    some (record dev { kind = output }, cleared input (record no_grid { ntiles = dev.grid.ntiles }))
duplicated _ dev = none

-- `stile_duplicate`: the device after it, and the new one.
unfoldable pub stile_duplicate : TileDevice → Option (TileDevice × TileDevice)
unfolding duplicated
stile_duplicate dev = duplicated dev.kind dev

unfoldable pub started : ℕ → DeviceType → TileDevice → TileDevice
started bpp output dev = record dev { curbuffer = some 0 }
started bpp _ dev = record dev {
  src2dst_stride = dev.grid.dst_width * bpp % 2 ^ 32;
  src_stride = dev.grid.src_width * bpp % 2 ^ 32;
}

-- `stile_start`, where `bpp` is what the converter's `bpp` gives for the source.
unfoldable pub stile_start : ℕ → TileDevice → TileDevice
unfolding started
stile_start bpp dev = started bpp dev.kind dev

-- `xoffset0` of the tile at `tx`; its width divides, in `size_t`.
unfoldable pub xoffset : TileDevice → ℕ → Outcome ℕ
xoffset dev tx =
    if dev.grid.dst_width == 0
    then fault
    else done (
        (dev.grid.tile_xoff * (dev.src2dst_stride / dev.grid.dst_width) + tx * dev.src2dst_stride)
        % 2 ^ 32)

unfoldable pub row_at : TileDevice → ℕ → ℕ → Outcome ℕ → Outcome (ℕ × ℕ)
row_at dev ty row fault = fault
row_at dev ty row endless = endless
row_at dev ty row (done xoffset0) =
    let y0 : ℕ = (dev.grid.tile_yoff + ty * dev.grid.dst_height) % 2 ^ 32 in
    done (((y0 + row) % 2 ^ 32 * dev.src_stride + xoffset0) % 2 ^ 64, dev.src2dst_stride)

-- What the converter is called with for a row of the tile at `tx`, `ty`: the offset in the source, and the bytes.
unfoldable pub row_read : TileDevice → ℕ → ℕ → ℕ → Outcome (ℕ × ℕ)
unfolding xoffset row_at
row_read dev tx ty row = row_at dev ty row (xoffset dev tx)
