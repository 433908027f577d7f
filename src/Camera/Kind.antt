-- ===== src/Camera/Kind.antt =====
-- The kinds of queue that `_v4l2_getbuftype` of src/sv4l2.c chooses.
use fastvideo.Buffers.{DeviceType}
use fastvideo.Prelude.{Bool, true, false, ◌≡◌, arith, ◌&&◌, ◌||◌, Option, none, some}
use fastvideo.Camera.{
  BufType, CameraMode, getbuftype, default_type, supported_type, video_capture, video_output,
  capture_mplane, output_mplane, meta_capture, meta_output, is_output_type, is_capture_type,
  is_invalid, is_unset,
}
use fastvideo.Camera.Capable.{
  Capability, devicecapabilities, checked_mode, meta_checked, with_meta, joined_mode, device_caps,
}

-- A direction that was asked for is refused only where the mode has not got it.
abbrev pub Refused : BufType → CameraMode → Type 0
Refused BufType.unset mode = (mode.capture ≡ false) × (mode.output ≡ false)
Refused BufType.invalid mode = (mode.capture ≡ false) × (mode.output ≡ false)
Refused video_capture mode = mode.capture ≡ false
Refused capture_mplane mode = mode.capture ≡ false
Refused video_output mode = mode.output ≡ false
Refused output_mplane mode = mode.output ≡ false
Refused meta_capture mode = mode.meta ≡ false
Refused meta_output mode = mode.meta ≡ false

-- The output is what is asked for, or is chosen.
abbrev pub first_is_output : BufType → CameraMode → Bool
first_is_output kind mode = is_output_type kind || (is_unset kind && mode.output)

-- The capture is what is asked for, or is chosen.
abbrev pub first_is_capture : BufType → CameraMode → Bool
first_is_capture kind mode = is_capture_type kind || (is_invalid kind && mode.capture)

-- No type is asked for, so that one is chosen.
abbrev pub is_chosen : BufType → Bool
is_chosen kind = is_unset kind || is_invalid kind

-- A type of metadata is asked for as such, and is else chosen only in a direction of the mode.
abbrev pub is_asked : BufType → BufType → Bool
is_asked meta_capture meta_capture = true
is_asked meta_output meta_output = true
is_asked _ _ = false

-- What may be answered to `kind`: direction, planes and metadata are the mode's; where both directions are there, an
-- unset type becomes the output, and one that is -1 the capture. A type that is chosen is one of metadata exactly
-- where the mode is.
abbrev pub KindAnswers : BufType → CameraMode → BufType → Type 0
KindAnswers kind mode BufType.unset = ⊥
KindAnswers kind mode BufType.invalid = Refused kind mode
KindAnswers kind mode video_capture =
    (mode.capture ≡ true)
    × (mode.mplane ≡ false)
    × (first_is_output kind mode ≡ false)
    × ((is_chosen kind && mode.meta) ≡ false)
KindAnswers kind mode capture_mplane =
    (mode.capture ≡ true)
    × (mode.mplane ≡ true)
    × (first_is_output kind mode ≡ false)
    × ((is_chosen kind && mode.meta) ≡ false)
KindAnswers kind mode video_output =
    (mode.output ≡ true)
    × (mode.mplane ≡ false)
    × (first_is_capture kind mode ≡ false)
    × ((is_chosen kind && mode.meta) ≡ false)
KindAnswers kind mode output_mplane =
    (mode.output ≡ true)
    × (mode.mplane ≡ true)
    × (first_is_capture kind mode ≡ false)
    × ((is_chosen kind && mode.meta) ≡ false)
KindAnswers kind mode meta_capture =
    (mode.meta ≡ true)
    × ((is_asked kind meta_capture || (is_chosen kind && mode.capture)) ≡ true)
    × (first_is_output kind mode ≡ false)
KindAnswers kind mode meta_output =
    (mode.meta ≡ true)
    × ((is_asked kind meta_output || (is_chosen kind && mode.output)) ≡ true)
    × (first_is_capture kind mode ≡ false)

getbuftype-KindAnswers :
    (kind : BufType) (mode : CameraMode) → KindAnswers kind mode (getbuftype kind mode)
unfolding getbuftype default_type supported_type
getbuftype-KindAnswers kind mode = ground arith

has_direction :
    (mode : CameraMode)
    → (mode.capture || mode.output) ≡ true
    → is_invalid (getbuftype BufType.unset mode) ≡ false
unfolding getbuftype default_type supported_type
has_direction mode h = ground (arith, h)

-- A device whose capabilities are accepted has a queue: the type chosen first is valid, goes in a direction of the mode,
-- the output where the device does both, and is one of metadata exactly where the mode is, and else has its planes.
pub devicecapabilities-getbuftype :
    (answer : Option Capability) (mode : CameraMode) (kind : DeviceType)
    → (devicecapabilities answer mode kind).0 ≡ true
    → (is_invalid (getbuftype BufType.unset ((devicecapabilities answer mode kind).1)) ≡ false)
      × KindAnswers BufType.unset
          ((devicecapabilities answer mode kind).1)
          (getbuftype BufType.unset ((devicecapabilities answer mode kind).1))
unfolding devicecapabilities checked_mode meta_checked
devicecapabilities-getbuftype none mode kind accepted = absurd (ground (arith, accepted))
devicecapabilities-getbuftype (some cap) mode kind accepted =
    of_meta (with_meta (device_caps cap) mode) accepted
  where
    both_true : (a b : Bool) → (a && b) ≡ true → a ≡ true
    both_true a b h = ground (arith, h)

    of_meta :
        (m : Bool × CameraMode)
        → (meta_checked (device_caps cap) kind m).0 ≡ true
        → (is_invalid (getbuftype BufType.unset ((meta_checked (device_caps cap) kind m).1))
            ≡ false)
          × KindAnswers BufType.unset
              ((meta_checked (device_caps cap) kind m).1)
              (getbuftype BufType.unset ((meta_checked (device_caps cap) kind m).1))
    of_meta (false, mode1) h = absurd (ground (arith, h))
    of_meta (true, mode1) h =
        let mode2 : CameraMode = joined_mode (device_caps cap) kind mode1 in
        (
          has_direction mode2
              (both_true (mode2.capture || mode2.output) (device_caps cap).streaming h),
          getbuftype-KindAnswers BufType.unset mode2,
        )
