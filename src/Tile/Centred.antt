-- ===== src/Tile/Centred.antt =====
-- How the grid of `stile_create` of src/stile.c lies over the source.
use mathlib.Core.Path.{subst, sym}
use native.Mathlib.Omega.{div_any}
use fastvideo.Prelude.Times.{mul_mono}
use fastvideo.Prelude.{
  ◌+◌, ℕ, Bool, ◌*◌, true, ◌/◌, false, ◌%◌, ◌^◌, ◌≤◌, some, ◌<◌, none, ◌≡◌, inl, inr, arith, ltb,
  not, if◌then◌else◌, ◌||◌, ◌&&◌, ◌==◌, Bool-cases, zero, suc,
}
use fastvideo.Tile.{TileConf, Grid, side, limit, margin, create, grid}

div-le : (a b : ℕ) → a / b * b ≤ a
div-le a b = omega (arith, div_any a b)

le_trans : {a b c : ℕ} → a ≤ b → b ≤ c → a ≤ c
le_trans h k = omega arith

side-le : (src asked count : ℕ) → (side src asked count).1 * (side src asked count).0 ≤ src
unfolding side
side-le src asked count = ground (arith, div-le src asked, div-le src count)

fewer_test : ℕ → ℕ → ℕ → Bool
fewer_test ntiles nx ny = not (ntiles == 0) && ltb ntiles (nx * ny % 2 ^ 32) && ltb ntiles nx

fewer-le : (ntiles nx ny : ℕ) → fewer_test ntiles nx ny ≡ true → (ntiles ≤ nx) × (1 ≤ ny)
unfolding fewer_test
fewer-le ntiles nx zero fewer = absurd (ground arith)
fewer-le ntiles nx (suc ny) fewer = ground arith

limit-le : (ntiles nx ny : ℕ) → ((limit ntiles (nx, ny)).0 ≤ nx) × ((limit ntiles (nx, ny)).1 ≤ ny)
unfolding limit fewer_test
limit-le ntiles nx ny = elim (Bool-cases (fewer_test ntiles nx ny)) [
  | inl fewer ↦ rw fewer (fewer-le ntiles nx ny fewer)
  | inr all ↦ rw all (omega arith, omega arith)
]

-- Tiles that fit lie inside, and what is left over is shared between the two margins.
margin-inside :
    (src n dst : ℕ)
    → src < 2 ^ 32
    → n * dst ≤ src
    → (margin src n dst * 2 + n * dst ≤ src) × (src ≤ margin src n dst * 2 + n * dst + 1)
unfolding margin
margin-inside src n dst fits inside = ground arith

-- Along both sides the tiles fit into the source, with the margin twice; at most one line of pixels is left over.
abbrev pub Centred : Grid → Type 0
Centred g =
    ((g.tile_xoff * 2 + g.ntiles_x * g.dst_width ≤ g.src_width)
      × (g.src_width ≤ g.tile_xoff * 2 + g.ntiles_x * g.dst_width + 1))
    × ((g.tile_yoff * 2 + g.ntiles_y * g.dst_height ≤ g.src_height)
        × (g.src_height ≤ g.tile_yoff * 2 + g.ntiles_y * g.dst_height + 1))

grid-Centred : (conf : TileConf) → conf.width < 2 ^ 32 → conf.height < 2 ^ 32 → Centred (grid conf)
unfolding grid
grid-Centred conf hw hh =
    let (dst_width, nx0) = side conf.width conf.tile_width 2 in
    let (dst_height, ny0) = side conf.height conf.tile_height 1 in
    let (nx, ny) = limit conf.ntiles (nx0, ny0) in
    let (lx, ly) = limit-le conf.ntiles nx0 ny0 in
    (
      margin-inside conf.width nx dst_width hw
          (le_trans (mul_mono nx nx0 dst_width lx) (side-le conf.width conf.tile_width 2)),
      margin-inside conf.height ny dst_height hh
          (le_trans (mul_mono ny ny0 dst_height ly) (side-le conf.height conf.tile_height 1)),
    )

guarded :
    (s t : Bool) (g h : Grid) → (if s then none else if t then none else some g) ≡ some h → h ≡ g
guarded true t g h e = absurd (cc)
guarded false true g h e = absurd (cc)
guarded false false g h e = cc

create-grid :
    (conf : TileConf) (accepted : Bool) (g : Grid) → create conf accepted ≡ some g → g ≡ grid conf
unfolding create
create-grid conf accepted g e =
    guarded (conf.width == 0 || conf.height == 0) ((grid conf).ntiles == 0 || not accepted)
      (grid conf) g e

-- For every configuration of a frame below 2 ^ 32 pixels on each side: where a grid is made, the tiles of its size and numbers fit into the source on both sides, centred: the margins take what is left,
-- but for one column and one row at most.
pub create-Centred :
    (conf : TileConf) (accepted : Bool) (g : Grid)
    → conf.width < 2 ^ 32
    → conf.height < 2 ^ 32
    → create conf accepted ≡ some g
    → Centred g
create-Centred conf accepted g hw hh made =
    subst Centred (sym (create-grid conf accepted g made)) (grid-Centred conf hw hh)
