-- ===== src/Convert/Plain.antt =====
-- The converter of src/sconvert_passthrough.c, as built without NEON.
use fastvideo.Prelude.{
  ℕ, Bool, ◌==◌, true, ◌||◌, false, List, none, Option, some, length, leb, if◌then◌else◌, blit,
  take,
}
use fastvideo.Convert.{fourcc, Config}

-- `passthrough_default_copy`; `none` where it leaves its memory.
unfoldable pub passthrough_default_copy : List ℕ → List ℕ → ℕ → Option (List ℕ × ℕ)
passthrough_default_copy src dst size =
    if leb size (length src)
    then if leb size (length dst) then some (blit dst 0 (take size src), size) else none
    else none

-- `FOURCC_AB24`, `FOURCC_XB24`, `FOURCC_AR24`, `FOURCC_XR24`, `FOURCC_BGR4`, `FOURCC_RGB4` and `FOURCC_RGBA`
unfoldable pub is_four_bytes : ℕ → Bool
is_four_bytes code =
    (code == fourcc 65 66 50 52)
    || (code == fourcc 88 66 50 52)
    || (code == fourcc 65 82 50 52)
    || (code == fourcc 88 82 50 52)
    || (code == fourcc 66 71 82 52)
    || (code == fourcc 82 71 66 52)
    || (code == fourcc 82 71 66 65)

-- `FOURCC_RGBP`, `FOURCC_R16`, `FOURCC_R12` and `FOURCC_R10`
unfoldable pub is_two_bytes : ℕ → Bool
is_two_bytes code =
    (code == fourcc 82 71 66 80)
    || (code == fourcc 82 49 54 32)
    || (code == fourcc 82 49 50 32)
    || (code == fourcc 82 49 48 32)

unfoldable pub bpp_of : ℕ → ℕ
unfolding is_four_bytes is_two_bytes
bpp_of code =
    if is_four_bytes code
    then 4
    else if code == fourcc 82 71 66 51
    then 3
    else if is_two_bytes code
    then 2
    else if code == fourcc 82 56 32 32
    then 1
    else 0

-- `passthrough_bpp`
unfoldable pub passthrough_bpp : Config → Bool → ℕ
unfolding bpp_of
passthrough_bpp config true = bpp_of config.transfer.format
passthrough_bpp config false = bpp_of config.parent.format
