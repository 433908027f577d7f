-- ===== src/Camera/Prepare.antt =====
-- `_sv4l2_prepare` of src/sv4l2.c, single plane.
use fastvideo.Buffers.{Outcome, done, fault, endless}
use fastvideo.Prelude.{ℕ, zero, Bool, not, ◌&&◌, Option, none, some, ◌==◌, if◌then◌else◌}
use fastvideo.Prelude.Int.{ℤ, pos, negsuc}
use fastvideo.Camera.{BufType, CameraMode, getbuftype}
use fastvideo.Camera.Driver.{FormatDriver, failed32}
use fastvideo.Camera.Format.{getfourcc, setpixformat}
use fastvideo.Camera.Size.{setframesize}
use fastvideo.Camera.Rate.{RateDriver, setfps_param, setfps_vblank}

-- `EBUSY`
abbrev pub ebusy : ℕ
ebusy = 16

-- The fields of `DeviceConf_t` that are read.
pub record CameraConf : Type 0 where
  pub fourcc : ℕ
  pub width : ℕ
  pub height : ℕ
  pub fps : ℤ

-- Without a configuration nothing is asked for.
abbrev pub asked_conf : Option CameraConf → CameraConf
asked_conf none = record { fourcc = 0; width = 0; height = 0; fps = negsuc 0 }
asked_conf (some conf) = conf

-- The formats and the rates of the queue of each type.
module _ {State : Type 0} (formats : BufType → FormatDriver State)
    (rates : BufType → RateDriver State) where
  prepared : Outcome (ℤ × State) → Outcome (ℤ × State)
  prepared (done (ret, s)) = done (pos 0, s)
  prepared fault = fault
  prepared endless = endless

  -- The rate, in blank lines of the frame where it cannot be set as such.
  unfoldable pub rate_or_blank : BufType → ℕ → ℕ → ℤ → Outcome (ℤ × State) → Outcome (ℤ × State)
  rate_or_blank kind width height fps (done (negsuc zero, s)) =
      setfps_vblank (rates kind) s width height fps
  rate_or_blank kind width height fps answer = answer

  unfoldable pub prepare_rate : BufType → ℤ → ℕ → ℕ → State → Outcome (ℤ × State)
  unfolding rate_or_blank prepared
  prepare_rate kind fps width height s =
      prepared (rate_or_blank kind width height fps (setfps_param (rates kind) s kind fps))

  -- The call failed, and not because the device streams already.
  abbrev is_refused : BufType → ℕ → State → Bool
  is_refused kind ret s = (ret == failed32) && not ((formats kind).errno s == ebusy)

  unfoldable pub prepare_size : BufType → ℤ → ℕ × ℕ × ℕ × State → Outcome (ℤ × State)
  unfolding prepare_rate
  prepare_size kind fps (ret, width, height, s) =
      if is_refused kind ret s then done (negsuc 0, s) else prepare_rate kind fps width height s

  -- Of metadata no size is set.
  unfoldable pub prepare_format : BufType → Bool → CameraConf → ℕ × State → Outcome (ℤ × State)
  unfolding prepare_size
  prepare_format kind meta conf (ret, s) =
      if is_refused kind ret s
      then done (negsuc 0, s)
      else if meta
      then prepare_rate kind conf.fps conf.width conf.height s
      else prepare_size kind conf.fps (setframesize (formats kind) s conf.width conf.height)

  -- Without a configuration the format is left to the driver.
  unfoldable pub asked_fourcc : BufType → Option CameraConf → State → ℕ
  asked_fourcc kind none s = 0
  asked_fourcc kind (some conf) s = getfourcc ((formats kind).formats s) conf.fourcc

  -- `_sv4l2_prepare`: the type that it chooses, and its answer.
  unfoldable pub sv4l2_prepare :
      State → BufType → CameraMode → Option CameraConf → BufType × Outcome (ℤ × State)
  unfolding prepare_format asked_fourcc
  sv4l2_prepare s kind mode conf =
      let chosen : BufType = getbuftype kind mode in
      (
        chosen,
        prepare_format chosen mode.meta (asked_conf conf)
            (setpixformat (formats chosen) s chosen (asked_fourcc chosen conf s)),
      )
