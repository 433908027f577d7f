-- ===== src/Camera/Rate.antt =====
-- `_v4l2_setfps_param`, `_v4l2_setfps_vblank` and `sv4l2_fps` of src/sv4l2.c.
pub mod Lines
use fastvideo.Buffers.{Outcome, done, fault}
use fastvideo.Prelude.{
  ℕ, zero, suc, ◌+◌, ◌*◌, ◌/◌, ◌%◌, ◌^◌, Bool, true, false, Option, none, some, ◌==◌, if◌then◌else◌,
  not,
}
use fastvideo.Prelude.Int.{ℤ, pos, negsuc, add32, sub32, pattern32, signed32}
use fastvideo.Camera.{BufType, is_unset}

-- `V4L2_CID_PIXEL_RATE`, `V4L2_CID_HBLANK` and `V4L2_CID_VBLANK`
pub data RateControl : Type 0 where
  pixel_rate hblank vblank : RateControl

-- `timeperframe`, a fraction of a second.
pub record FrameTime : Type 0 where
  pub numerator : ℕ
  pub denominator : ℕ

-- `VIDIOC_G_EXT_CTRLS`, `VIDIOC_S_EXT_CTRLS`, `VIDIOC_G_PARM` and `VIDIOC_S_PARM`. The value of a control is its 32-bit
-- pattern; setting one answers the value that is in force.
pub record RateDriver (State : Type 0) : Type 0 where
  pub get_control : State → RateControl → Option ℕ
  pub set_control : State → RateControl → ℕ → Option ℕ × State
  pub get_parm : State → Option FrameTime
  pub set_parm : State → FrameTime → Bool × State

abbrev value_or_zero : Option ℕ → ℕ
value_or_zero none = 0
value_or_zero (some value) = value

-- The lines of a frame at `pixelrate` and `fps`, less those that are shown; the line is not empty.
unfoldable pub blank_lines : ℕ → ℕ → ℕ → ℤ → ℕ
blank_lines pixelrate line height (pos zero) = sub32 (0 / suc line) height
blank_lines pixelrate line height (pos (suc n)) = sub32 (pixelrate / suc n / suc line) height
blank_lines pixelrate line height (negsuc n) =
    sub32 (pixelrate * pattern32 (negsuc n) % 2 ^ 32 / suc line) height

-- The rate of frames of `pixels` pixels.
unfoldable pub frame_rate : ℕ → ℕ → ℤ
frame_rate pixelrate zero = pos 0
frame_rate pixelrate (suc pixels) = signed32 (pixelrate / suc pixels)

module _ {State : Type 0} (d : RateDriver State) where
  blank_set : ℤ → Option ℕ × State → ℤ × State
  blank_set fps (none, s) = (negsuc 0, s)
  blank_set fps (some value, s) = (fps, s)

  -- A rate is set; a line without pixels is divided by.
  unfoldable pub set_blank : State → ℕ → ℕ → ℕ → ℤ → Outcome (ℤ × State)
  unfolding blank_lines blank_set
  set_blank s pixelrate zero height fps = fault
  set_blank s pixelrate (suc line) height fps =
      done (blank_set fps (d.set_control s vblank (blank_lines pixelrate line height fps)))

  unfoldable pub rate_at : State → ℕ → ℕ → ℤ → ℕ → Outcome (ℤ × State)
  unfolding set_blank frame_rate
  rate_at s width height (negsuc zero) pixelrate = done (
    frame_rate pixelrate (
        add32 (value_or_zero (d.get_control s vblank)) height
        * add32 width (value_or_zero (d.get_control s hblank))
        % 2 ^ 32),
    s,
  )
  rate_at s width height fps pixelrate =
      set_blank s pixelrate (add32 width (value_or_zero (d.get_control s hblank))) height fps

  unfoldable pub rate_known : State → ℕ → ℕ → ℤ → Option ℕ → Outcome (ℤ × State)
  unfolding rate_at
  rate_known s width height fps none = done (negsuc 0, s)
  rate_known s width height fps (some pixelrate) = rate_at s width height fps pixelrate

  -- `_v4l2_setfps_vblank`
  unfoldable pub setfps_vblank : State → ℕ → ℕ → ℤ → Outcome (ℤ × State)
  unfolding rate_known
  setfps_vblank s width height fps = rate_known s width height fps (d.get_control s pixel_rate)

  parm_set : ℤ → Bool × State → ℤ × State
  parm_set fps (true, s) = (fps, s)
  parm_set fps (false, s) = (negsuc 0, s)

  -- The rate that is read is the quotient; one that is set is compared with one part of the fraction only.
  unfoldable pub frame_time : State → ℤ → FrameTime → Outcome (ℤ × State)
  unfolding parm_set
  frame_time s (negsuc zero) parm = elim parm.numerator [
    | zero ↦ fault
    | suc n ↦ done (signed32 (parm.denominator / suc n), s)
  ]
  frame_time s (pos n) parm =
      if n == parm.denominator
      then done (pos n, s)
      else done (parm_set (pos n) (d.set_parm s (record { numerator = 1; denominator = n })))
  frame_time s (negsuc n) parm =
      if suc n == parm.numerator
      then done (negsuc n, s)
      else done (parm_set (negsuc n) (d.set_parm s (record { numerator = suc n; denominator = 1 })))

  unfoldable pub parm_known : State → ℤ → Option FrameTime → Outcome (ℤ × State)
  unfolding frame_time
  parm_known s fps none = done (negsuc 0, s)
  parm_known s fps (some parm) = frame_time s fps parm

  -- `_v4l2_setfps_param`; an invalid type is not below `V4L2_BUF_TYPE_VIDEO_CAPTURE`, as the type is unsigned.
  unfoldable pub setfps_param : State → BufType → ℤ → Outcome (ℤ × State)
  unfolding parm_known
  setfps_param s kind fps =
      if is_unset kind then done (negsuc 0, s) else parm_known s fps (d.get_parm s)

  unfoldable pub fps_or_blank : ℕ → ℕ → ℤ → Outcome (ℤ × State) → Outcome (ℤ × State)
  unfolding setfps_vblank
  fps_or_blank width height fps (done (negsuc zero, s)) = setfps_vblank s width height fps
  fps_or_blank width height fps answer = answer

  -- `sv4l2_fps`
  unfoldable pub sv4l2_fps : State → BufType → ℕ → ℕ → ℤ → Outcome (ℤ × State)
  unfolding fps_or_blank setfps_param
  sv4l2_fps s kind width height fps = fps_or_blank width height fps (setfps_param s kind fps)
