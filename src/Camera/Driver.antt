-- ===== src/Camera/Driver.antt =====
-- The formats of a driver, which src/sv4l2.c reads and sets with calls on its descriptor.
use fastvideo.Prelude.{ℕ, ◌-◌, ◌^◌, List, Option}

-- The fields of `struct v4l2_pix_format` that are read or written.
pub record PixFormat : Type 0 where
  pub width : ℕ
  pub height : ℕ
  pub pixelformat : ℕ
  pub bytesperline : ℕ
  pub sizeimage : ℕ

-- `struct v4l2_frmsize_stepwise`, less the steps.
pub record SizeRange : Type 0 where
  pub min_width : ℕ
  pub max_width : ℕ
  pub min_height : ℕ
  pub max_height : ℕ

-- What `VIDIOC_ENUM_FRAMESIZES` answers up to the first call that fails.
pub data Sizes : Type 0 where
  refused continuous : Sizes
  stepwise : SizeRange → Sizes
  discrete : List (ℕ × ℕ) → Sizes

-- `VIDIOC_G_FMT`, `VIDIOC_S_FMT`, `VIDIOC_ENUM_FRAMESIZES` and `VIDIOC_ENUM_FMT` for the queue of the
-- device; a call that fails sets the error number.
pub record FormatDriver (State : Type 0) : Type 0 where
  pub get_format : State → Option PixFormat
  pub set_format : State → PixFormat → Option PixFormat × State
  pub sizes : State → ℕ → Sizes
  pub formats : State → List ℕ
  pub errno : State → ℕ

-- -1, as `uint32_t`.
abbrev pub failed32 : ℕ
failed32 = 2 ^ 32 - 1
