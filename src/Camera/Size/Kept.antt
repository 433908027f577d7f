-- ===== src/Camera/Size/Kept.antt =====
-- The size that src/sv4l2.c asks for, and the one that the driver then has.
use fastvideo.Prelude.{
  ℕ, ◌*◌, ◌%◌, ◌/◌, ◌^◌, ◌<◌, List, ◌∷◌, ◌++◌, true, false, ◌&&◌, some, ltb, ◌==◌, if◌then◌else◌,
  ◌≡◌, ap, ◌∙◌, arith,
}
use fastvideo.Camera.Driver.{FormatDriver, PixFormat, Sizes}
use fastvideo.Camera.Size.{
  setframesize, resize, ask_size, apply_size, reread_size, given_width, checkframesize,
}
use fastvideo.Camera.Size.Exact.{AllLow, Others, checkframesize-AllLow}

-- As the interface of the kernel is documented: `VIDIOC_G_FMT` gives the format that `VIDIOC_S_FMT` answered, and a
-- size that is listed for a format is accepted as it is.
pub record IsFormatKept {State : Type 0} (d : FormatDriver State) : Type 0 where
  pub kept :
      (s s1 : State) (fmt fmt1 : PixFormat)
      → d.set_format s fmt ≡ (some fmt1, s1)
      → d.get_format s1 ≡ some fmt1
  pub accepts :
      (s : State) (fmt : PixFormat) (w h : ℕ) (before after : List (ℕ × ℕ))
      → d.sizes s fmt.pixelformat ≡ Sizes.discrete (before ++ ((w, h) ∷ after))
      → (fmt1 : PixFormat) × (s1 : State) × (d.set_format s
            (record fmt { width = w; height = h; bytesperline = 0; sizeimage = 0 })
          ≡ (some fmt1, s1))
        × (fmt1.width ≡ w)
        × (fmt1.height ≡ h)

module _ {State : Type 0} (d : FormatDriver State) where
  -- On a driver that keeps the format it answers and accepts the sizes it lists, a listed size without a higher one
  -- before it is set by `_v4l2_setframesize` as it is asked for, and is the size of the driver's format after.
  pub setframesize-kept :
      (k : IsFormatKept d) (s : State) (fmt : PixFormat) (width height : ℕ)
      (sizes rest : List (ℕ × ℕ))
      → d.get_format s ≡ some fmt
      → d.sizes s fmt.pixelformat ≡ Sizes.discrete (sizes ++ ((width, height) ∷ rest))
      → 0 < height * width
      → height * width < 2 ^ 32
      → Others width height sizes
      → AllLow height sizes
      → (fmt1 : PixFormat) × (s1 : State) × (setframesize d s width height
          ≡ (fmt1.sizeimage, width, height, s1))
        × (d.get_format s1 ≡ some fmt1)
        × (fmt1.width ≡ width)
        × (fmt1.height ≡ height)
  unfolding setframesize resize ask_size apply_size reread_size given_width
  setframesize-kept k s fmt width height sizes rest got listed some_pixels small others low =
      let (fmt1, s1, set, is_width, is_height) = k.accepts s fmt width height sizes rest listed in
      (
        fmt1,
        s1,
        ap (resize d s width height) got
            ∙ ap
                (λ b.
                  let wide : ℕ = if b then height * 16 % 2 ^ 32 / 9 else width in
                  ask_size d s fmt (
                    if ltb 0 wide && ltb 0 height
                    then checkframesize (d.sizes s fmt.pixelformat) wide height
                    else (false, wide, height)))
                {x = ltb 0 height && (width == 0)} {y = false} (ground (arith, some_pixels))
            ∙ ap
                (λ b. ask_size d s fmt (
                  if b
                  then checkframesize (d.sizes s fmt.pixelformat) width height
                  else (false, width, height)))
                {x = ltb 0 width && ltb 0 height} {y = true} (ground (arith, some_pixels))
            ∙ ap (λ l. ask_size d s fmt (checkframesize l width height)) listed
            ∙ ap (ask_size d s fmt)
                ((checkframesize-AllLow width height sizes rest some_pixels small others).1 low)
            ∙ ap (apply_size d width height) set
            ∙ ap (reread_size d width height s1) (k.kept s s1 _ fmt1 set)
            ∙ same is_width is_height fmt1.sizeimage s1,
        k.kept s s1 _ fmt1 set,
        is_width,
        is_height,
      )
    where
      same :
          {w h : ℕ}
          → w ≡ width
          → h ≡ height
          → (n : ℕ) (s1 : State) → ◌≡◌ {A = ℕ × ℕ × ℕ × State} (n, w, h, s1) (n, width, height, s1)
      same {w} {h} a b n s1 = ap (λ x. (n, x, h, s1)) a ∙ ap (λ y. (n, width, y, s1)) b
