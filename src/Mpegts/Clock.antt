-- ===== src/Mpegts/Clock.antt =====
-- The smoothed timeline of the frames, `_mpegts_smoothclock` of src/smpegts.c. A `uint32_t` is a
-- number below 2 ^ 32; an `int32_t` is the integer that it stands for.
pub mod Laws
use fastvideo.Prelude.{
  ◌%◌, ℕ, ◌^◌, Bool, ◌/◌, ltb, ◌≤◌, ◌≡◌, ◌-◌, ◌*◌, ◌+◌, ◌<◌, ◌==◌, ◌||◌, ◌&&◌, if◌then◌else◌,
}
use fastvideo.Prelude.Int.{
  ℤ, pos, negsuc, ◌+ℤ◌, ◌-ℤ◌, ltb_ℤ, leb_ℤ, div_ℤ, signed32, pattern32, add32, sub32,
}

-- The fields of `Dev_t` that the function keeps.
pub record Timeline : Type 0 where
  pub lastclock : ℕ
  pub smoothclock : ℕ
  pub period : ℤ

-- `SMOOTH_MAXDRIFT`, `SMOOTH_CORRECTION`, `SMOOTH_AVERAGE`
abbrev pub max_drift : ℕ
max_drift = 200 * 90

abbrev pub correction : ℕ
correction = 16

abbrev pub average : ℕ
average = 16

-- `period` after the interval is taken into account.
unfoldable pub next_period : ℤ → ℤ → ℤ
unfolding ◌+ℤ◌ ◌-ℤ◌
next_period period interval =
    if ltb_ℤ (pos 0) interval && ltb_ℤ interval (pos max_drift)
    then (if ltb_ℤ period (pos 0) || ltb_ℤ (pos 0) period
        then period +ℤ div_ℤ (interval -ℤ period) average
        else interval)
    else period

-- The drift passes the limit: `drift > SMOOTH_MAXDRIFT || drift < -SMOOTH_MAXDRIFT`.
abbrev pub far : ℤ → Bool
far drift = ltb_ℤ (pos max_drift) drift || ltb_ℤ drift (negsuc (max_drift - 1))

-- `if ((int32_t)(next - dev->smoothclock) <= 0) next = dev->smoothclock + 1;`
unfoldable pub keep_forward : ℕ → ℕ → ℕ
keep_forward smoothclock next =
    if leb_ℤ (signed32 (sub32 next smoothclock)) (pos 0) then add32 smoothclock 1 else next

-- How far the clock is ahead of a date, as an `int32_t`.
abbrev pub drift : ℕ → ℕ → ℤ
drift clock next = signed32 (sub32 clock next)

-- The branch of a known period: the date of the frame is `next`, one period after the last one.
unfoldable pub follow : ℕ → ℕ → ℕ → ℕ
unfolding keep_forward
follow next smoothclock clock =
    if far (drift clock next)
    then clock
    else keep_forward smoothclock (add32 next (pattern32 (div_ℤ (drift clock next) correction)))

-- What follows the update of the period: the value returned, and `smoothclock`.
unfoldable pub next_clock : ℤ → ℕ → ℕ → ℕ
unfolding follow keep_forward
next_clock period smoothclock clock =
    if ltb_ℤ (pos 0) period
    then follow (add32 smoothclock (pattern32 period)) smoothclock clock
    else keep_forward smoothclock clock

-- Every frame but the first.
unfoldable pub later_clock : Timeline → ℕ → ℕ × Timeline
unfolding next_period next_clock
later_clock t clock =
    let period : ℤ = next_period t.period (signed32 (sub32 clock t.lastclock)) in
    let next : ℕ = next_clock period t.smoothclock clock in
    (next, record { lastclock = clock; smoothclock = next; period = period })

unfoldable pub smoothclock : ℕ → Timeline → ℕ → ℕ × Timeline
unfolding later_clock
smoothclock fps t clock =
    if t.lastclock == 0
    then (
      clock,
      record {
        lastclock = clock;
        smoothclock = clock;
        period = pos (if ltb 0 fps then 90000 / fps else 0);
      },
    )
    else later_clock t clock
