-- ===== src/Tile.antt =====
-- The grid of tiles that `stile_create` of src/stile.c lays over a frame.
pub mod Centred
pub mod Rows
pub mod Ring
use fastvideo.Prelude.{
  ◌+◌, ℕ, ◌-◌, Bool, ◌*◌, not, ◌/◌, ltb, ◌%◌, leb, ◌^◌, Option, ◌==◌, some, ◌&&◌, ◌||◌, none,
  if◌then◌else◌,
}

-- `STileConf_t`: the source's size, the tile's, where 0 is none, and the count asked for.
pub record TileConf : Type 0 where
  pub width : ℕ
  pub height : ℕ
  pub tile_width : ℕ
  pub tile_height : ℕ
  pub ntiles : ℕ

-- The part of `STile_t` that is the geometry.
pub record Grid : Type 0 where
  pub src_width : ℕ
  pub src_height : ℕ
  pub dst_width : ℕ
  pub dst_height : ℕ
  pub ntiles_x : ℕ
  pub ntiles_y : ℕ
  pub ntiles : ℕ
  pub tile_xoff : ℕ
  pub tile_yoff : ℕ

-- The tile's size and the tiles' number along one side of `src`; `count` where no size is asked for.
unfoldable pub side : ℕ → ℕ → ℕ → ℕ × ℕ
side src asked count = if ltb 0 asked then (asked, src / asked) else (src / count, count)

-- A smaller count than fits the first row leaves a part of that row.
unfoldable pub limit : ℕ → ℕ × ℕ → ℕ × ℕ
limit ntiles (nx, ny) =
    if not (ntiles == 0) && ltb ntiles (nx * ny % 2 ^ 32) && ltb ntiles nx
    then (ntiles, 1)
    else (nx, ny)

-- The margin that centres `n` tiles.
unfoldable pub margin : ℕ → ℕ → ℕ → ℕ
margin src n dst = if leb (n * dst % 2 ^ 32) src then (src - n * dst % 2 ^ 32) / 2 else 0

-- The geometry that `stile_create` computes.
unfoldable pub grid : TileConf → Grid
unfolding side limit margin
grid conf =
    let (dst_width, nx0) = side conf.width conf.tile_width 2 in
    let (dst_height, ny0) = side conf.height conf.tile_height 1 in
    let (nx, ny) = limit conf.ntiles (nx0, ny0) in
    record {
      src_width = conf.width;
      src_height = conf.height;
      dst_width = dst_width;
      dst_height = dst_height;
      ntiles_x = nx;
      ntiles_y = ny;
      ntiles = nx * ny % 2 ^ 32;
      tile_xoff = margin conf.width nx dst_width;
      tile_yoff = margin conf.height ny dst_height;
    }

-- `stile_create`: `accepted` is whether the converter's `create` gave a context.
unfoldable pub create : TileConf → (accepted : Bool) → Option Grid
unfolding grid
create conf accepted =
    if conf.width == 0 || conf.height == 0
    then none
    else if (grid conf).ntiles == 0 || not accepted
    then none
    else some (grid conf)
