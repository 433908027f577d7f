-- ===== src/Camera/Rate/Lines.antt =====
-- The vertical blank that src/sv4l2.c computes from a rate, and the rate it reads back.
use fastvideo.Buffers.{done}
use fastvideo.Prelude.{
  ℕ, zero, suc, ◌+◌, ◌*◌, ◌/◌, ◌%◌, ◌^◌, ◌<◌, ◌≤◌, some, ◌≡◌, ap, ◌∙◌, refl, arith,
}
use fastvideo.Prelude.Times.{mul_mono, at_most_quotient}
use fastvideo.Prelude.Int.{pos, negsuc, add32, sub32, signed32}
use fastvideo.Camera.Rate.{
  RateDriver, pixel_rate, hblank, vblank, setfps_vblank, rate_known, rate_at, set_blank, blank_set,
  frame_rate, blank_lines, value_or_zero,
}

-- The lines are the most that fit a frame of 1 / `suc n` seconds.
lines_fit : (pixelrate n k : ℕ) → suc n * (pixelrate / suc n / suc k * suc k) ≤ pixelrate
lines_fit pixelrate n k =
    omega (
      arith,
      mul_mono (pixelrate / suc n / suc k * suc k) (pixelrate / suc n) (suc n) (omega arith),
    )

line_more : (pixelrate n k : ℕ) → pixelrate < suc n * (suc (pixelrate / suc n / suc k) * suc k)
line_more pixelrate n k = omega (
  arith,
  mul_mono (suc (pixelrate / suc n)) (suc (pixelrate / suc n / suc k) * suc k) (suc n)
      (omega arith),
)

-- The control of the vertical blank takes any value, and leaves the other two.
pub record IsBlankKept {State : Type 0} (d : RateDriver State) : Type 0 where
  pub kept :
      (s : State) (value : ℕ)
      → (s1 : State) × (d.set_control s vblank value ≡ (some value, s1))
        × (d.get_control s1 vblank ≡ some value)
        × (d.get_control s1 pixel_rate ≡ d.get_control s pixel_rate)
        × (d.get_control s1 hblank ≡ d.get_control s hblank)

blank_height :
    (pixelrate n k height : ℕ)
    → pixelrate < 2 ^ 31
    → height ≤ pixelrate / suc n / suc k
    → add32 (blank_lines pixelrate k height (pos (suc n))) height ≡ pixelrate / suc n / suc k
unfolding blank_lines
blank_height pixelrate n k height small fits = omega (arith, small, fits)

quotient_small :
    (pixelrate k : ℕ) → pixelrate < 2 ^ 31 → signed32 (pixelrate / suc k) ≡ pos (pixelrate / suc k)
quotient_small pixelrate k small = ground (arith, small, quotient_le)
  where
    quotient_le : pixelrate / suc k ≤ pixelrate
    quotient_le = omega (arith, mul_mono 1 (suc k) (pixelrate / suc k) (omega arith))

-- The rate of a frame of whole lines.
rate_read :
    (pixelrate n k total : ℕ)
    → pixelrate < 2 ^ 31
    → total ≡ pixelrate / suc n / suc k * suc k
    → 0 < total
    → (f : ℕ) × (frame_rate pixelrate (total % 2 ^ 32) ≡ pos f) × (suc n ≤ f)
unfolding frame_rate
rate_read pixelrate n k zero small is_total some_lines = absurd (omega (arith, some_lines))
rate_read pixelrate n k (suc t) small is_total some_lines =
    let fit : suc n * suc t ≤ pixelrate =
      omega (arith, lines_fit pixelrate n k, ap (λ m. suc n * m) is_total) in
    (
      pixelrate / suc t,
      ap (frame_rate pixelrate) {x = suc t % 2 ^ 32} {y = suc t}
            (omega (arith, small, fit, mul_mono 1 (suc n) (suc t) (omega arith)))
          ∙ quotient_small pixelrate t small,
      at_most_quotient (suc n) t pixelrate fit,
    )

module _ {State : Type 0} (d : RateDriver State) where
  -- On a driver that takes any vertical blank: where at least one and at most the lines that fit the time of a frame
  -- are shown, `_v4l2_setfps_vblank` sets a frame rate; the rate it reads back is not below, and a frame of one line
  -- more would take longer than the rate allows.
  pub setfps_vblank-read :
      (kept : IsBlankKept d) (s : State) (width height pixelrate blank n k : ℕ)
      → d.get_control s pixel_rate ≡ some pixelrate
      → d.get_control s hblank ≡ some blank
      → pixelrate < 2 ^ 31
      → width + blank ≡ suc k
      → suc k < 2 ^ 32
      → 0 < height
      → height ≤ pixelrate / suc n / suc k
      → (s1 : State) × (f lines : ℕ) × (setfps_vblank d s width height (pos (suc n))
          ≡ done (pos (suc n), s1))
        × (d.get_control s1 vblank ≡ some (sub32 lines height))
        × (setfps_vblank d s1 width height (negsuc 0) ≡ done (pos f, s1))
        × (suc n ≤ f)
        × (pixelrate < suc n * (suc lines * suc k))
  unfolding setfps_vblank rate_known rate_at set_blank blank_set value_or_zero blank_lines
  setfps_vblank-read kept s width height pixelrate blank n k rate_is blank_is small line_is narrow
        shown fits =
      let lines : ℕ = pixelrate / suc n / suc k in
      let (s1, set, now, rate_same, blank_same) = kept.kept s (sub32 lines height) in
      let line : add32 width blank ≡ suc k = omega (arith, line_is, narrow) in
      let (f, reads, enough) =
        rate_read pixelrate n k (lines * suc k) small refl
          (some_total (omega (arith, shown, fits))) in
      (
        s1,
        f,
        lines,
        ap (rate_known d s width height (pos (suc n))) rate_is
            ∙ ap (λ b. set_blank d s pixelrate (add32 width (value_or_zero b)) height (pos (suc n)))
                blank_is
            ∙ ap (λ l. set_blank d s pixelrate l height (pos (suc n))) line
            ∙ ap (λ a. done (blank_set d (pos (suc n)) a)) set,
        now,
        ap (rate_known d s1 width height (negsuc 0)) (rate_same ∙ rate_is)
            ∙ ap
                (λ b. done (
                  frame_rate pixelrate (
                      add32 (value_or_zero (d.get_control s1 vblank)) height
                      * add32 width (value_or_zero b)
                      % 2 ^ 32),
                  s1,
                ))
                (blank_same ∙ blank_is)
            ∙ ap
                (λ v. done (
                  frame_rate pixelrate
                      (add32 (value_or_zero v) height * add32 width blank % 2 ^ 32),
                  s1,
                ))
                now
            ∙ ap
                (λ l.
                  done (frame_rate pixelrate (add32 (sub32 lines height) height * l % 2 ^ 32), s1))
                line
            ∙ ap (λ h. done (frame_rate pixelrate (h * suc k % 2 ^ 32), s1))
                (blank_height pixelrate n k height small fits)
            ∙ ap (λ r. done (r, s1)) reads,
        enough,
        line_more pixelrate n k,
      )
    where
      some_total : 0 < pixelrate / suc n / suc k → 0 < pixelrate / suc n / suc k * suc k
      some_total h =
          omega (arith, mul_mono 1 (pixelrate / suc n / suc k) (suc k) (omega (arith, h)))
