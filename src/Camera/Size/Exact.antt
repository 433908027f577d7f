-- ===== src/Camera/Size/Exact.antt =====
-- When the size that is asked for is the size that src/sv4l2.c takes.
use fastvideo.Prelude.{
  ℕ, ◌*◌, ◌%◌, ◌^◌, ◌<◌, ◌≤◌, List, [], ◌∷◌, ◌++◌, true, false, ◌&&◌, ltb, leb, ◌==◌, if◌then◌else◌,
  ◌≡◌, ◌≢◌, ◌↔◌, ap, sym, ◌∙◌, refl, arith, Bool-cases, ◌⊎◌, inl, inr,
}
use fastvideo.Prelude.Times.{times_cancel}
use fastvideo.Camera.Size.{pick_size, checkframesize, picked}
use fastvideo.Camera.Driver.{Sizes}

abbrev pub AllLow : ℕ → List (ℕ × ℕ) → Type 0
AllLow height [] = Unit
AllLow height ((w, h) ∷ sizes) = (h ≤ height) × AllLow height sizes

-- Sizes of less than 2^32 pixels, none of which is `width` by `height`.
abbrev pub Others : ℕ → ℕ → List (ℕ × ℕ) → Type 0
Others width height [] = Unit
Others width height ((w, h) ∷ sizes) =
    (h * w < 2 ^ 32) × (h ≡ height → w ≢ width) × Others width height sizes

-- What one size of the list does to the size that is taken so far.
abbrev step_size : ℕ → ℕ → ℕ → ℕ → ℕ → (ℕ → ℕ → ℕ × ℕ) → ℕ × ℕ
step_size nbpixels w h x height next =
    if leb height h && ltb 0 nbpixels && (nbpixels == h * w % 2 ^ 32)
    then (if leb height h then w else x, if leb height h then h else height)
    else next (if leb height h then w else x) (if leb height h then h else height)

step_low :
    (nb w h x height : ℕ) (next : ℕ → ℕ → ℕ × ℕ)
    → h < height
    → step_size nb w h x height next ≡ next x height
step_low nb w h x height next low =
    ap
      (λ b.
        if b && ltb 0 nb && (nb == h * w % 2 ^ 32)
        then (if b then w else x, if b then h else height)
        else next (if b then w else x) (if b then h else height))
      {x = leb height h} {y = false} (ground (arith, low))

step_taken :
    (nb w h x height : ℕ) (next : ℕ → ℕ → ℕ × ℕ)
    → height ≤ h
    → (nb ≡ 0) ⊎ (nb ≢ h * w % 2 ^ 32)
    → step_size nb w h x height next ≡ next w h
step_taken nb w h x height next high other =
    ap
      (λ b.
        if b && ltb 0 nb && (nb == h * w % 2 ^ 32)
        then (if b then w else x, if b then h else height)
        else next (if b then w else x) (if b then h else height))
      {x = leb height h} {y = true} (ground (arith, high))
    ∙ ap (λ b. if b then (w, h) else next w h) {x = ltb 0 nb && (nb == h * w % 2 ^ 32)} {y = false}
        (ground (arith, other))

step_found :
    (nb w h x height : ℕ) (next : ℕ → ℕ → ℕ × ℕ)
    → height ≤ h
    → 0 < nb
    → nb ≡ h * w % 2 ^ 32
    → step_size nb w h x height next ≡ (w, h)
step_found nb w h x height next high some_pixels same =
    ap
      (λ b.
        if b && ltb 0 nb && (nb == h * w % 2 ^ 32)
        then (if b then w else x, if b then h else height)
        else next (if b then w else x) (if b then h else height))
      {x = leb height h} {y = true} (ground (arith, high))
    ∙ ap (λ b. if b then (w, h) else next w h) {x = ltb 0 nb && (nb == h * w % 2 ^ 32)} {y = true}
        (ground (arith, some_pixels, same))

-- A size below is passed over; another one is taken, for good where it has the pixels that are asked for.
step_cases :
    (nb w h x height : ℕ) (next : ℕ → ℕ → ℕ × ℕ)
    → ((h < height) × (step_size nb w h x height next ≡ next x height))
      ⊎ ((height ≤ h) × (nb ≡ h * w % 2 ^ 32) × (step_size nb w h x height next ≡ (w, h)))
      ⊎ ((height ≤ h) × (step_size nb w h x height next ≡ next w h))
step_cases nb w h x height next =
    by_height (Bool-cases (ltb h height)) (Bool-cases (nb == h * w % 2 ^ 32))
      (Bool-cases (ltb 0 nb))
  where
    by_height :
        (ltb h height ≡ true) ⊎ (ltb h height ≡ false)
        → ((nb == h * w % 2 ^ 32) ≡ true) ⊎ ((nb == h * w % 2 ^ 32) ≡ false)
        → (ltb 0 nb ≡ true) ⊎ (ltb 0 nb ≡ false)
        → ((h < height) × (step_size nb w h x height next ≡ next x height))
          ⊎ ((height ≤ h) × (nb ≡ h * w % 2 ^ 32) × (step_size nb w h x height next ≡ (w, h)))
          ⊎ ((height ≤ h) × (step_size nb w h x height next ≡ next w h))
    by_height (inl low) same some_pixels =
        inl (ground (arith, low), step_low nb w h x height next (ground (arith, low)))
    by_height (inr high) (inl same) (inl some_pixels) = inr (
        inl (
          ground (arith, high),
          ground (arith, same),
          step_found nb w h x height next (ground (arith, high)) (ground (arith, some_pixels))
              (ground (arith, same)),
        ))
    by_height (inr high) same (inr none_asked) = inr (
        inr (
          ground (arith, high),
          step_taken nb w h x height next (ground (arith, high)) (inl (ground (arith, none_asked))),
        ))
    by_height (inr high) (inr other) some_pixels = inr (
        inr (
          ground (arith, high),
          step_taken nb w h x height next (ground (arith, high)) (inr (ground (arith, other))),
        ))

-- The height never falls.
pick_size-rises :
    (nb : ℕ) (sizes : List (ℕ × ℕ)) (x height : ℕ) → height ≤ (pick_size nb sizes x height).1
unfolding pick_size
pick_size-rises nb [] x height = omega arith
pick_size-rises nb ((w, h) ∷ sizes) x height =
    elim (step_cases nb w h x height (pick_size nb sizes)) [
      | inl passed ↦ omega (arith, pick_size-rises nb sizes x height, ap (λ p. p.1) passed.1)
      | inr (inl found) ↦ omega (arith, found.0, ap (λ p. p.1) found.2)
      | inr (inr taken) ↦
          omega (arith, taken.0, pick_size-rises nb sizes w h, ap (λ p. p.1) taken.1)
    ]

module _ (width height : ℕ) (small : height * width < 2 ^ 32)
    (some_pixels : 0 < height * width) where
  finds :
      (rest : List (ℕ × ℕ)) (x : ℕ)
      → pick_size (height * width % 2 ^ 32) ((width, height) ∷ rest) x height ≡ (width, height)
  unfolding pick_size
  finds rest x =
      step_found (height * width % 2 ^ 32) width height x height
        (pick_size (height * width % 2 ^ 32) rest) (omega arith) (omega (arith, small, some_pixels))
        refl

  same_size :
      (w h : ℕ) → h * w < 2 ^ 32 → height * width % 2 ^ 32 ≡ h * w % 2 ^ 32 → h ≡ height → w ≡ width
  same_size w h below pixels is_height =
      times_cancel height w width (ground (arith, some_pixels))
        (omega (arith, small, below, pixels, ap (λ k. k * w) is_height))

  low-exact :
      (sizes rest : List (ℕ × ℕ)) (x : ℕ)
      → AllLow height sizes
      → Others width height sizes
      → pick_size (height * width % 2 ^ 32) (sizes ++ ((width, height) ∷ rest)) x height
        ≡ (width, height)
  unfolding pick_size
  low-exact [] rest x low others = finds rest x
  low-exact ((w, h) ∷ sizes) rest x low others =
      elim (step_cases (height * width % 2 ^ 32) w h x height
        (pick_size (height * width % 2 ^ 32) (sizes ++ ((width, height) ∷ rest)))) [
          | inl passed ↦ passed.1 ∙ low-exact sizes rest x low.1 others.2
          | inr (inl found) ↦ absurd (
              others.1 (omega (arith, found.0, low.0))
                (same_size w h others.0 found.1 (omega (arith, found.0, low.0))))
          | inr (inr taken) ↦
              taken.1
              ∙ ap
                  (λ k. pick_size (height * width % 2 ^ 32) (sizes ++ ((width, height) ∷ rest)) w k)
                  (omega (arith, taken.0, low.0))
              ∙ low-exact sizes rest w low.1 others.2
        ]

  exact-low :
      (sizes rest : List (ℕ × ℕ)) (x : ℕ)
      → Others width height sizes
      → pick_size (height * width % 2 ^ 32) (sizes ++ ((width, height) ∷ rest)) x height
        ≡ (width, height)
      → AllLow height sizes
  unfolding pick_size
  exact-low [] rest x others exact = tt
  exact-low ((w, h) ∷ sizes) rest x others exact =
      elim (step_cases (height * width % 2 ^ 32) w h x height
        (pick_size (height * width % 2 ^ 32) (sizes ++ ((width, height) ∷ rest)))) [
          | inl passed ↦
              (omega (arith, passed.0), exact-low sizes rest x others.2 (sym passed.1 ∙ exact))
          | inr (inl found) ↦
              let same : (w, h) ≡ (width, height) = sym found.2 ∙ exact in
              absurd (others.1 (ap (λ p. p.1) same) (ap (λ p. p.0) same))
          | inr (inr taken) ↦
              let after : pick_size (height * width % 2 ^ 32) (sizes ++ ((width, height) ∷ rest)) w
                    h
                  ≡ (width, height) =
                sym taken.1 ∙ exact in
              let is_height : h ≡ height = omega (
                arith,
                taken.0,
                pick_size-rises (height * width % 2 ^ 32) (sizes ++ ((width, height) ∷ rest)) w h,
                ap (λ p. p.1) after,
              ) in
              (
                omega (arith, is_height),
                exact-low sizes rest w others.2 (
                    ap
                      (λ k.
                        pick_size (height * width % 2 ^ 32) (sizes ++ ((width, height) ∷ rest)) w k)
                      (sym is_height)
                    ∙ after),
              )
        ]

  low_iff :
      (sizes rest : List (ℕ × ℕ))
      → Others width height sizes
      → (pick_size (height * width % 2 ^ 32) (sizes ++ ((width, height) ∷ rest)) width height
          ≡ (width, height))
        ↔ AllLow height sizes
  low_iff sizes rest others =
      (exact-low sizes rest width others, λ low. low-exact sizes rest width low others)

-- Of a driver that lists the size asked for, behind sizes other than this one, `_v4l2_checkframesize` takes
-- this size if and only if none of those before it is higher.
pub checkframesize-AllLow :
    (width height : ℕ) (sizes rest : List (ℕ × ℕ))
    → 0 < height * width
    → height * width < 2 ^ 32
    → Others width height sizes
    → (checkframesize (Sizes.discrete (sizes ++ ((width, height) ∷ rest))) width height
        ≡ (true, width, height))
      ↔ AllLow height sizes
unfolding checkframesize
checkframesize-AllLow width height sizes rest some_pixels small others =
    let both = low_iff width height small some_pixels sizes rest others in
    (λ e. both.0 (ap (λ p. (p.1, p.2)) e), λ low. ap picked (both.1 low))
