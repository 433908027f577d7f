-- ===== src/Camera.antt =====
-- The capture device of src/sv4l2.c, built with `V4L2_HAS_META` as defconfig sets it: which kind of queue of the driver it uses.
pub mod Kind
pub mod Memory
pub mod Request
pub mod Driver
pub mod Format
pub mod Prepare
pub mod Capable
pub mod Size
pub mod Rate
pub mod Stream
use fastvideo.Prelude.{Bool, true, ◌&&◌, false, ◌||◌, if◌then◌else◌}

-- `enum v4l2_buf_type`; `unset` is 0 and `invalid` -1.
pub data BufType : Type 0 where
  unset invalid video_capture video_output capture_mplane output_mplane meta_capture meta_output :
      BufType

-- The bits `MODE_CAPTURE`, `MODE_OUTPUT`, `MODE_MASTER`, `MODE_MPLANE`, `MODE_MEDIACTL` and `MODE_META` of `mode`.
pub record CameraMode : Type 0 where
  pub capture : Bool
  pub output : Bool
  pub master : Bool
  pub mplane : Bool
  pub mediactl : Bool
  pub meta : Bool

abbrev pub is_unset : BufType → Bool
is_unset BufType.unset = true
is_unset _ = false

abbrev pub is_invalid : BufType → Bool
is_invalid BufType.invalid = true
is_invalid _ = false

abbrev pub is_output_type : BufType → Bool
is_output_type video_output = true
is_output_type output_mplane = true
is_output_type _ = false

abbrev pub is_capture_type : BufType → Bool
is_capture_type video_capture = true
is_capture_type capture_mplane = true
is_capture_type _ = false

abbrev pub is_meta_type : BufType → Bool
is_meta_type meta_capture = true
is_meta_type meta_output = true
is_meta_type _ = false

-- The type for 0 and -1: a device that does both is an output first, and a capture where it is duplicated.
unfoldable pub default_type : BufType → CameraMode → BufType
default_type kind mode =
    let new_output : BufType = if mode.meta then meta_output else video_output in
    let new_capture : BufType = if mode.meta then meta_capture else video_capture in
    if is_unset kind && mode.output
    then new_output
    else if (is_unset kind || is_invalid kind) && mode.capture
    then new_capture
    else if is_invalid kind && mode.output
    then new_output
    else kind

abbrev pub meta_type : BufType → CameraMode → BufType
meta_type kind mode = if is_meta_type kind && mode.meta then kind else BufType.invalid

abbrev pub capture_type : BufType → CameraMode → BufType
capture_type kind mode =
    if is_capture_type kind
    then if mode.capture && mode.mplane
      then capture_mplane
      else if mode.capture
      then video_capture
      else meta_type kind mode
    else meta_type kind mode

unfoldable pub supported_type : BufType → CameraMode → BufType
supported_type kind mode =
    if is_output_type kind
    then if mode.output && mode.mplane
      then output_mplane
      else if mode.output
      then video_output
      else capture_type kind mode
    else capture_type kind mode

-- `_v4l2_getbuftype`
unfoldable pub getbuftype : BufType → CameraMode → BufType
unfolding default_type supported_type
getbuftype kind mode = supported_type (default_type kind mode) mode
