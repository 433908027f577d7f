-- ===== src/Camera/Capable.antt =====
-- `_v4l2_devicecapabilities` of src/sv4l2.c: which directions and planes the driver has.
use fastvideo.Buffers.{DeviceType, input, output, control}
use fastvideo.Prelude.{Bool, true, false, not, ◌&&◌, ◌||◌, Option, none, some, if◌then◌else◌}
use fastvideo.Camera.{CameraMode}

-- The bits of `capabilities` that are read.
pub record Caps : Type 0 where
  pub video_capture : Bool
  pub video_output : Bool
  pub meta_capture : Bool
  pub meta_output : Bool
  pub capture_mplane : Bool
  pub output_mplane : Bool
  pub m2m : Bool
  pub m2m_mplane : Bool
  pub io_mc : Bool
  pub streaming : Bool

-- What `VIDIOC_QUERYCAP` answers; `of_device` stands for `device_caps`, where the driver sets this field.
pub record Capability : Type 0 where
  pub capabilities : Caps
  pub of_device : Option Caps

abbrev pub device_caps : Capability → Caps
device_caps cap = elim cap.of_device [ none ↦ cap.capabilities | some caps ↦ caps ]

abbrev pub reads : DeviceType → Bool
reads input = true
reads control = true
reads _ = false

abbrev pub writes : DeviceType → Bool
writes output = true
writes control = true
writes _ = false

-- The bits that are joined to those of the configuration.
unfoldable pub joined_mode : Caps → DeviceType → CameraMode → CameraMode
joined_mode caps kind mode =
    let both : Bool = caps.m2m || caps.m2m_mplane in
    record mode {
      capture =
          mode.capture
          || ((caps.video_capture || caps.meta_capture || caps.capture_mplane) && reads kind)
          || both;
      output =
          mode.output
          || both
          || ((caps.video_output || caps.meta_output || caps.output_mplane) && writes kind);
      mplane = mode.mplane || caps.capture_mplane || caps.output_mplane || caps.m2m_mplane;
      mediactl = mode.mediactl || caps.io_mc;
    }

-- The mode that is set, and whether the device can be used: it has a direction, and streams.
unfoldable pub checked_mode : Caps → CameraMode → Bool × CameraMode
checked_mode caps mode = ((mode.capture || mode.output) && caps.streaming, mode)

-- Metadata is used where it is asked for, or where the device has nothing else: refused where it is not there.
unfoldable pub with_meta : Caps → CameraMode → Bool × CameraMode
with_meta caps mode =
    if not (caps.meta_capture || caps.meta_output)
    then (not mode.meta, mode)
    else if not mode.meta && not (caps.video_capture || caps.video_output)
    then (true, record mode { meta = true })
    else (true, mode)

unfoldable pub meta_checked : Caps → DeviceType → Bool × CameraMode → Bool × CameraMode
unfolding joined_mode checked_mode
meta_checked caps kind (false, mode) = (false, mode)
meta_checked caps kind (true, mode) = checked_mode caps (joined_mode caps kind mode)

-- `_v4l2_devicecapabilities`
unfoldable pub devicecapabilities : Option Capability → CameraMode → DeviceType → Bool × CameraMode
unfolding with_meta meta_checked
devicecapabilities none mode kind = (false, mode)
devicecapabilities (some cap) mode kind =
    let caps : Caps = device_caps cap in meta_checked caps kind (with_meta caps mode)
