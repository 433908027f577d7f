-- ===== src/Camera/Format.antt =====
-- `_sv4l2_getfourcc`, `_v4l2_setpixformat` and `sv4l2_getpixformat` of src/sv4l2.c, single plane.
use fastvideo.Prelude.{
  ℕ, zero, suc, List, [], ◌∷◌, Bool, true, false, not, ◌&&◌, Option, none, some, ◌==◌,
  if◌then◌else◌,
}
use fastvideo.Convert.{fourcc}
use fastvideo.Camera.{BufType, is_meta_type}
use fastvideo.Camera.Driver.{FormatDriver, PixFormat, failed32}

abbrev pub fourcc_ab24 : ℕ
fourcc_ab24 = fourcc 65 66 50 52

abbrev pub fourcc_xb24 : ℕ
fourcc_xb24 = fourcc 88 66 50 52

abbrev pub fourcc_ar24 : ℕ
fourcc_ar24 = fourcc 65 82 50 52

abbrev pub fourcc_xr24 : ℕ
fourcc_xr24 = fourcc 88 82 50 52

abbrev pub fourcc_rgb4 : ℕ
fourcc_rgb4 = fourcc 82 71 66 52

abbrev pub fourcc_bgr4 : ℕ
fourcc_bgr4 = fourcc 66 71 82 52

-- The only entry of `formats`.
abbrev pub fourcc_yuyv : ℕ
fourcc_yuyv = fourcc 89 85 89 86

abbrev pub is_listed : ℕ → List ℕ → Bool
is_listed code [] = false
is_listed code (x ∷ xs) = if x == code then true else is_listed code xs

-- The format that is tried where `code` is not listed.
abbrev pub instead : ℕ → Option ℕ
instead code =
    if code == fourcc_xb24
    then some fourcc_ab24
    else if code == fourcc_ab24
    then some fourcc_rgb4
    else if code == fourcc_xr24
    then some fourcc_ab24
    else if code == fourcc_ar24
    then some fourcc_bgr4
    else none

unfoldable pub getfourcc_in : ℕ → List ℕ → ℕ → ℕ
getfourcc_in zero formats code = code
getfourcc_in (suc fuel) formats code =
    if is_listed code formats
    then code
    else elim (instead code) [ none ↦ code | some other ↦ getfourcc_in fuel formats other ]

-- `_sv4l2_getfourcc`
unfoldable pub getfourcc : List ℕ → ℕ → ℕ
unfolding getfourcc_in
getfourcc formats code = getfourcc_in 3 formats code

-- The loop over the formats of the driver, with the one that is chosen so far, 0 for none.
unfoldable pub pick_format : ℕ → List ℕ → ℕ → ℕ
pick_format code [] chosen = chosen
pick_format code (x ∷ xs) chosen =
    let asked : ℕ = if code == 0 then chosen else x in
    let next : ℕ = if (asked == 0) && (x == fourcc_yuyv) then x else asked in
    pick_format code xs (if not (code == 0) && not (x == code) then chosen else next)

abbrev format_calls : ℕ → List ℕ → List (ℕ × Bool)
format_calls current [] = []
format_calls current (x ∷ xs) = (x, x == current) ∷ format_calls current xs

-- `fmt.meta.dataformat`, which shares its place with `fmt.pix.width`.
abbrev pub dataformat : PixFormat → ℕ
dataformat fmt = fmt.width

-- The format that is asked for: the one that is chosen, if any, the rest for the driver to choose.
unfoldable pub with_format : BufType → PixFormat → ℕ → PixFormat
with_format kind fmt chosen =
    if chosen == 0
    then fmt
    else if is_meta_type kind
    then record fmt { width = chosen }
    else record fmt { pixelformat = chosen; bytesperline = 0; sizeimage = 0 }

module _ {State : Type 0} (d : FormatDriver State) where
  set_answer : Option PixFormat × State → ℕ × State
  set_answer (none, s) = (failed32, s)
  set_answer (some fmt, s) = (fmt.pixelformat, s)

  unfoldable pub format_known : State → BufType → ℕ → Option PixFormat → ℕ × State
  unfolding set_answer pick_format with_format
  format_known s kind code none = (failed32, s)
  format_known s kind code (some fmt) = set_answer (
      d.set_format s (
        with_format kind fmt
          (pick_format code (d.formats s) (if is_meta_type kind then dataformat fmt else 0))))

  -- `_v4l2_setpixformat`; the modifiers are not used.
  unfoldable pub setpixformat : State → BufType → ℕ → ℕ × State
  unfolding format_known
  setpixformat s kind code = format_known s kind code (d.get_format s)

  -- `sv4l2_getpixformat` with a function to call: what it leaves in `V4L2_t`, its answer, and the calls in their order.
  unfoldable pub getpixformat : State → BufType → ℕ × Option PixFormat × List (ℕ × Bool)
  getpixformat s kind = elim (d.get_format s) [
    | none ↦ (failed32, none, [])
    | some fmt ↦
        let current : ℕ = if is_meta_type kind then dataformat fmt else fmt.pixelformat in
        (current, some fmt, format_calls current (d.formats s))
  ]
