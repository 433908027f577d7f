-- ===== src/Convert/Nv12.antt =====
-- The converter of src/sconvert_NV12toR8.c: the luma plane of an NV12 frame is its 8-bit gray image.
pub mod Plane
pub mod Ratio
use fastvideo.Prelude.{
  ℕ, ◌+◌, ◌-◌, Bool, ◌*◌, true, ◌/◌, false, ◌%◌, List, ◌^◌, Option, ltb, none, ◌==◌, some,
  if◌then◌else◌, ◌<◌, ◌≤◌, ◌≡◌,
}
use fastvideo.Rows.{copy_rows, read_bytes}
use fastvideo.Convert.{DeviceConf, Config}
use fastvideo.Convert.Gcd.{gcd}

-- `Convert_NV12toR8_t`
pub record Luma : Type 0 where
  pub width : ℕ
  pub height : ℕ
  pub src_stride : ℕ

-- The numbers of `convert_NV12toR8.resize`, which all users of the converter share.
pub record Resize : Type 0 where
  pub numerator : ℕ
  pub denominator : ℕ

-- `num` and `den` with `div` divided out.
unfoldable pub reduced : ℕ → ℕ → Option ℕ → Option Resize
reduced num den none = none
reduced num den (some div) =
    if div == 0
    then some (record { numerator = num; denominator = den })
    else some (record { numerator = num / div; denominator = den / div })

unfoldable pub create_ratio : Luma → Resize → Option Resize
create_ratio conv before =
    if conv.width == 0
    then some before
    else if conv.src_stride == 0
    then some before
    else reduced (conv.width % 2 ^ 32) (conv.src_stride % 2 ^ 32)
        (gcd (conv.width % 2 ^ 32) (conv.src_stride % 2 ^ 32))

unfoldable pub create_luma : Config → Luma
create_luma config = record {
  width = config.parent.width;
  height = config.parent.height;
  src_stride = if config.parent.stride == 0 then config.parent.width else config.parent.stride;
}

unfoldable pub created : Luma → Option Resize → Option (Luma × Resize)
created conv none = none
created conv (some after) = some (conv, after)

-- `convert_create` with the ratio left by its last call; `none` if it does not end.
unfoldable pub create : Config → Resize → Option (Luma × Resize)
unfolding create_luma create_ratio created
create config before = created (create_luma config) (create_ratio (create_luma config) before)

-- The rows of the source that `convert_convert` takes to be as long as this.
unfoldable pub used_stride : Luma → ℕ → ℕ
used_stride conv stride =
    let given : ℕ = if stride == 0 then conv.src_stride else stride in
    if ltb given conv.width then conv.width else given

-- The rows that the `size` bytes handed over hold, the image's at most.
unfoldable pub used_rows : ℕ → ℕ → ℕ → ℕ
used_rows height stride size = if ltb size (height * stride % 2 ^ 64) then size / stride else height

-- What is returned beside the memory written.
unfoldable pub returning : ℕ → Option (List ℕ) → Option (List ℕ × ℕ)
returning size none = none
returning size (some out) = some (out, size)

-- `convert_convert` with `SCONVERT_NV12TOR8_COPY`; `none` where it reads or writes outside of its memory.
unfoldable pub convert_copied : Luma → List ℕ → List ℕ → ℕ → ℕ → Option (List ℕ × ℕ)
unfolding copy_rows read_bytes used_stride used_rows returning
convert_copied conv src dst size stride =
    let step : ℕ = used_stride conv stride in
    let height : ℕ = used_rows conv.height step size in
    returning (conv.width * height % 2 ^ 64)
      (copy_rows height 0 conv.width (λ row. read_bytes src (row * step) conv.width) dst)

-- `convert_convert` without it: the buffer is passed on as it is, and the size cut to the luma plane.
unfoldable pub convert_aliased : Luma → ℕ → ℕ
unfolding used_rows
convert_aliased conv size = conv.width * used_rows conv.height conv.width size % 2 ^ 64

-- `convert_bpp`
unfoldable pub convert_bpp : Bool → ℕ
convert_bpp true = 2
convert_bpp false = 1
