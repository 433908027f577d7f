-- ===== src/Camera/Size.antt =====
-- `_v4l2_checkframesize`, `sv4l2_getframesize` and `_v4l2_setframesize` of src/sv4l2.c, single plane.
pub mod Exact
pub mod Kept
use fastvideo.Prelude.{
  ℕ, ◌*◌, ◌/◌, ◌%◌, ◌^◌, ◌-◌, List, [], ◌∷◌, Bool, true, false, ◌&&◌, Option, none, some, ltb, leb,
  ◌==◌, if◌then◌else◌,
}
use fastvideo.Camera.Driver.{FormatDriver, PixFormat, Sizes, SizeRange, failed32}
use fastvideo.Prelude.Int.{ℤ, pos, negsuc}

-- A value above `max` becomes `max`, then one below `min` becomes `min`.
abbrev pub clamp : ℕ → ℕ → ℕ → ℕ
clamp min max n = let top : ℕ = if ltb max n then max else n in if ltb top min then min else top

-- The loop over the sizes of the driver, with the size that is taken so far.
unfoldable pub pick_size : ℕ → List (ℕ × ℕ) → ℕ → ℕ → ℕ × ℕ
pick_size nbpixels [] width height = (width, height)
pick_size nbpixels ((w, h) ∷ sizes) width height =
    let fits : Bool = leb height h in
    let width1 : ℕ = if fits then w else width in
    let height1 : ℕ = if fits then h else height in
    let rest = pick_size nbpixels sizes width1 height1 in
    if fits && ltb 0 nbpixels && (nbpixels == h * w % 2 ^ 32) then (width1, height1) else rest

abbrev picked : ℕ × ℕ → Bool × ℕ × ℕ
picked (width, height) = (true, width, height)

-- `_v4l2_checkframesize`: whether it answers 0, and the width and the height that it leaves.
unfoldable pub checkframesize : Sizes → ℕ → ℕ → Bool × ℕ × ℕ
checkframesize Sizes.refused width height = (false, width, height)
checkframesize Sizes.continuous width height = (true, width, height)
checkframesize (Sizes.stepwise r) width height =
    (true, clamp r.min_width r.max_width width, clamp r.min_height r.max_height height)
checkframesize (Sizes.discrete sizes) width height =
    picked (pick_size (height * width % 2 ^ 32) sizes width height)

abbrev isset_size : PixFormat → List (ℕ × ℕ) → List (ℕ × ℕ × Bool)
isset_size fmt [] = []
isset_size fmt ((w, h) ∷ sizes) =
    (w, h, (w == fmt.width) && (h == fmt.height)) ∷ isset_size fmt sizes

unfoldable pub report_sizes : PixFormat → Sizes → ℤ × List (ℕ × ℕ × Bool)
report_sizes fmt Sizes.refused = (negsuc 0, [])
report_sizes fmt Sizes.continuous = (pos 0, [])
report_sizes fmt (Sizes.stepwise r) = (
  pos 0,
  (r.min_width, r.min_height, false)
      ∷ (fmt.width, fmt.height, true)
      ∷ (r.max_width, r.max_height, false)
      ∷ [],
)
report_sizes fmt (Sizes.discrete sizes) = (pos 0, isset_size fmt sizes)

module _ {State : Type 0} (d : FormatDriver State) where
  -- `sv4l2_getframesize`, with the calls of `framesize` in their order.
  unfoldable pub getframesize : State → ℤ × List (ℕ × ℕ × Bool)
  getframesize s = elim (d.get_format s) [
    | none ↦ (negsuc 0, [])
    | some fmt ↦ report_sizes fmt (d.sizes s fmt.pixelformat)
  ]

  -- The format that is asked for last, and the size of its images.
  unfoldable pub reread_size : ℕ → ℕ → State → Option PixFormat → ℕ × ℕ × ℕ × State
  reread_size width height s none = (failed32, width, height, s)
  reread_size width height s (some fmt) = (fmt.sizeimage, fmt.width, fmt.height, s)

  unfoldable pub apply_size : ℕ → ℕ → Option PixFormat × State → ℕ × ℕ × ℕ × State
  unfolding reread_size
  apply_size width height (none, s) = (failed32, width, height, s)
  apply_size width height (some set, s) = reread_size width height s (d.get_format s)

  -- The fields that are cleared are for the driver to choose.
  unfoldable pub ask_size : State → PixFormat → Bool × ℕ × ℕ → ℕ × ℕ × ℕ × State
  unfolding apply_size
  ask_size s fmt (false, width, height) = apply_size width height (d.set_format s fmt)
  ask_size s fmt (true, width, height) = apply_size width height (
      d.set_format s
        (record fmt { width = width; height = height; bytesperline = 0; sizeimage = 0 }))

  -- A height alone is widened to 16:9.
  unfoldable pub given_width : ℕ → ℕ → ℕ
  given_width width height =
      if ltb 0 height && (width == 0) then height * 16 % 2 ^ 32 / 9 else width

  unfoldable pub resize : State → ℕ → ℕ → Option PixFormat → ℕ × ℕ × ℕ × State
  unfolding ask_size given_width
  resize s width height none = (failed32, width, height, s)
  resize s width height (some fmt) =
      let wide : ℕ = given_width width height in
      ask_size s fmt (
        if ltb 0 wide && ltb 0 height
        then checkframesize (d.sizes s fmt.pixelformat) wide height
        else (false, wide, height))

  -- `_v4l2_setframesize`: its answer, and the width and the height behind its pointers.
  unfoldable pub setframesize : State → ℕ → ℕ → ℕ × ℕ × ℕ × State
  unfolding resize
  setframesize s width height = resize s width height (d.get_format s)
