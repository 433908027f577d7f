-- ===== src/Tests/Capture.antt =====
-- Concrete runs of the capture device.
use fastvideo.Buffers.{input, done}
use fastvideo.Prelude.{
  ℕ, [], ◌∷◌, List, none, ◌≡◌, ◌<◌, ◌≤◌, ◌*◌, ◌+◌, ◌↔◌, some, length, refl, arith, true, false,
  Option, suc, sym, ap, ◌∙◌,
}
use fastvideo.Prelude.Int.{pos, negsuc, sub32}
use fastvideo.Camera.{BufType, CameraMode, getbuftype, is_invalid, video_capture, video_output}
use fastvideo.Camera.Capable.{Caps, Capability, devicecapabilities}
use fastvideo.Camera.Kind.{KindAnswers, devicecapabilities-getbuftype}
use fastvideo.Camera.Driver.{FormatDriver, PixFormat, Sizes}
use fastvideo.Camera.Size.{checkframesize, setframesize}
use fastvideo.Camera.Size.Exact.{AllLow, checkframesize-AllLow}
use fastvideo.Camera.Size.Kept.{IsFormatKept, setframesize-kept}
use fastvideo.Camera.Memory.{CameraBuffer}
use fastvideo.Camera.Request.{BufferDriver}
use fastvideo.Camera.Request.Ask.{Targets, BufferRequest, sv4l2_requestbuffer}
use fastvideo.Camera.Request.Plain.{descriptors}
use fastvideo.Camera.Request.Granted.{IsGranting}
use fastvideo.Camera.Request.Exported.{new_pool, filled_pool}
use fastvideo.Camera.Request.Shared.{sv4l2_requestbuffer-descriptors}
use fastvideo.Camera.Rate.{RateDriver, RateControl, pixel_rate, hblank, vblank, setfps_vblank}
use fastvideo.Camera.Rate.Lines.{IsBlankKept, setfps_vblank-read}

abbrev webcam_caps : Caps
webcam_caps = record {
  video_capture = true;
  video_output = false;
  meta_capture = true;
  meta_output = false;
  capture_mplane = false;
  output_mplane = false;
  m2m = false;
  m2m_mplane = false;
  io_mc = false;
  streaming = true;
}

abbrev no_mode : CameraMode
no_mode = record {
  capture = false;
  output = false;
  master = false;
  mplane = false;
  mediactl = false;
  meta = false;
}

abbrev webcam : Capability
webcam = record { capabilities = webcam_caps; of_device = none }

devicecapabilities-getbuftype_example :
    (is_invalid (getbuftype BufType.unset ((devicecapabilities (some webcam) no_mode input).1))
      ≡ false)
    × KindAnswers BufType.unset
        ((devicecapabilities (some webcam) no_mode input).1)
        (getbuftype BufType.unset ((devicecapabilities (some webcam) no_mode input).1))
unfolding devicecapabilities
devicecapabilities-getbuftype_example =
    devicecapabilities-getbuftype (some webcam) no_mode input refl

checkframesize-AllLow_example :
    (checkframesize (Sizes.discrete ((320, 240) ∷ (640, 480) ∷ (1280, 720) ∷ [])) 640 480
      ≡ (true, 640, 480))
    ↔ AllLow 480 ((320, 240) ∷ [])
checkframesize-AllLow_example =
    checkframesize-AllLow 640 480 ((320, 240) ∷ []) ((1280, 720) ∷ []) (omega arith) (omega arith)
      (omega arith, (λ e. absurd (omega (arith, e))), tt)

-- A driver that keeps what it is given.
abbrev plain_driver : FormatDriver PixFormat
plain_driver = record {
  get_format = λ s. some s;
  set_format = λ s f. (some f, f);
  sizes = λ s code. Sizes.discrete ((320, 240) ∷ (640, 480) ∷ (1280, 720) ∷ []);
  formats = λ s. [];
  errno = λ s. 0;
}

plain_driver-IsFormatKept : IsFormatKept plain_driver
plain_driver-IsFormatKept = record {
  kept = λ s s1 fmt fmt1 e. ap (λ p. some (p.1)) (sym e) ∙ ap (λ p. p.0) e;
  accepts = λ s fmt w h before after e. (_, _, refl, refl, refl);
}

abbrev small_format : PixFormat
small_format = record {
  width = 320;
  height = 240;
  pixelformat = 7;
  bytesperline = 640;
  sizeimage = 153600;
}

setframesize-kept_example :
    (fmt1 s1 : PixFormat) × (setframesize plain_driver small_format 640 480
      ≡ (fmt1.sizeimage, 640, 480, s1))
    × (some s1 ≡ some fmt1)
    × (fmt1.width ≡ 640)
    × (fmt1.height ≡ 480)
setframesize-kept_example =
    setframesize-kept plain_driver plain_driver-IsFormatKept small_format small_format 640 480
      ((320, 240) ∷ []) ((1280, 720) ∷ []) refl refl (omega arith) (omega arith)
      (omega arith, (λ e. absurd (omega (arith, e))), tt) (omega arith, tt)

abbrev sensor_control : ℕ → RateControl → Option ℕ
sensor_control s pixel_rate = some 1000000
sensor_control s hblank = some 80
sensor_control s vblank = some s

abbrev sensor_set : ℕ → RateControl → ℕ → Option ℕ × ℕ
sensor_set s vblank value = (some value, value)
sensor_set s _ value = (none, s)

-- A sensor whose state is its vertical blank.
abbrev sensor : RateDriver ℕ
sensor = record {
  get_control = sensor_control;
  set_control = sensor_set;
  get_parm = λ s. none;
  set_parm = λ s t. (false, s);
}

sensor-IsBlankKept : IsBlankKept sensor
sensor-IsBlankKept = record { kept = λ s value. (value, refl, refl, refl, refl) }

setfps_vblank-read_example :
    (s1 f lines : ℕ) × (setfps_vblank sensor 9 320 80 (pos 25) ≡ done (pos 25, s1))
    × (some s1 ≡ some (sub32 lines 80))
    × (setfps_vblank sensor s1 320 80 (negsuc 0) ≡ done (pos f, s1))
    × (25 ≤ f)
    × (1000000 < 25 * (suc lines * 400))
setfps_vblank-read_example =
    setfps_vblank-read sensor sensor-IsBlankKept 9 320 80 1000000 80 24 399 refl refl (omega arith)
      (omega arith) (omega arith) (omega arith) (omega arith)

-- A driver that grants what it is asked for, and exports from descriptor 5 on.
abbrev granting : BufferDriver ℕ
granting = record {
  reqbufs = λ s kind memory n. (some n, s);
  querybuf = λ s b. (some (record b { m = 4096; length = 100 }), s);
  expbuf = λ s kind i. (some (i + 5), s);
  mmap = λ s size offset. (4096, s + 1);
  munmap = λ s address size. s;
}

abbrev granting-IsGranting : IsGranting granting
granting-IsGranting = record {
  fd = λ kind i. i + 5;
  grants = λ s kind memory n. (s, refl);
  fills = λ s b. (4096, 100, s, refl);
  maps = λ s size offset. (4096, s + 1, refl, (λ e. omega (arith, e)));
  exports = λ s kind i. (s, refl);
}

sv4l2_requestbuffer-descriptors_example :
    (t : Targets) × (bs1 bs2 : List CameraBuffer) × (s1 s2 : ℕ) × (sv4l2_requestbuffer granting
        (new_pool video_capture false 2)
        BufferRequest.dmabuf_master
        0
      ≡ done (pos 0, some t, filled_pool video_capture true 2 2 bs1, s1))
    × (sv4l2_requestbuffer granting
          (new_pool video_output false 4)
          (BufferRequest.dmabuf t.entries t.size)
          s1
        ≡ done (pos 0, none, filled_pool video_output false 4 (length t.entries) bs2, s2))
    × (t.count ≡ 2)
    × (descriptors bs1 ≡ 5 ∷ 6 ∷ [])
    × (descriptors bs2 ≡ descriptors bs1)
sv4l2_requestbuffer-descriptors_example =
    sv4l2_requestbuffer-descriptors granting granting granting-IsGranting granting-IsGranting
      video_capture video_output 1 4 0
