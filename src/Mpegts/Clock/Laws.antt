-- ===== src/Mpegts/Clock/Laws.antt =====
-- The order and the distance of the dates that `_mpegts_smoothclock` of src/smpegts.c gives.
use fastvideo.Prelude.{◌^◌, ℕ, ◌≤◌, true, ◌-◌, false, ◌⊎◌, arith, ◌≡◌, ◌≢◌, ◌<◌}
use fastvideo.Prelude.Int.{
  ℤ, pos, negsuc, ◌+ℤ◌, ◌-ℤ◌, ◌≤ℤ◌, div_ℤ, signed32, pattern32, add32, sub32,
}
use fastvideo.Mpegts.Clock.{
  Timeline, max_drift, correction, drift, follow, next_period, far, keep_forward, next_clock,
  later_clock, smoothclock,
}

-- The period is a number of ticks from 0 to one second.
pub record IsPeriod (period : ℤ) : Type 0 where
  pub nonneg : pos 0 ≤ℤ period
  pub small : period ≤ℤ pos 90000

next_period-IsPeriod :
    (period interval : ℤ) → IsPeriod period → IsPeriod (next_period period interval)
unfolding next_period ◌+ℤ◌ ◌-ℤ◌
next_period-IsPeriod period interval v = ground arith

-- `next` lies strictly ahead of `smoothclock`, within half the range of the counter.
abbrev pub Ahead : ℕ → ℕ → Type 0
Ahead next smoothclock = pos 1 ≤ℤ signed32 (sub32 next smoothclock)

keep_forward-Ahead :
    (smooth next : ℕ) → smooth < 2 ^ 32 → next < 2 ^ 32 → Ahead (keep_forward smooth next) smooth
unfolding keep_forward
keep_forward-Ahead smooth next hs hn = ground arith

add32-lt : (a b : ℕ) → add32 a b < 2 ^ 32
add32-lt a b = omega arith

-- A date within the limit leads to one ahead of the last frame.
follow-Ahead :
    (next smooth clock : ℕ)
    → smooth < 2 ^ 32
    → far (drift clock next) ≡ false
    → Ahead (follow next smooth clock) smooth
unfolding follow
follow-Ahead next smooth clock hs near = rw near (
    keep_forward-Ahead smooth (add32 next (pattern32 (div_ℤ (drift clock next) correction))) hs
      (add32-lt next (pattern32 (div_ℤ (drift clock next) correction))))

-- The value and the clock are at most `max_drift` apart.
abbrev pub Near : ℕ → ℕ → Type 0
Near clock next = (negsuc (max_drift - 1) ≤ℤ drift clock next) × (drift clock next ≤ℤ pos max_drift)

follow-Near :
    (period smooth clock : ℕ)
    → 0 < period
    → period ≤ 90000
    → smooth < 2 ^ 32
    → clock < 2 ^ 32
    → Near clock (follow (add32 smooth period) smooth clock)
unfolding follow keep_forward
follow-Near period smooth clock hp hq hs hc = ground arith

-- What `Dev_t` holds between two frames: counters in their width, and a sound period.
pub record IsTimeline (t : Timeline) : Type 0 where
  pub last_fits : t.lastclock < 2 ^ 32
  pub smooth_fits : t.smoothclock < 2 ^ 32
  pub period_sound : IsPeriod t.period

next_clock-lt :
    (period : ℤ) (smooth clock : ℕ)
    → smooth < 2 ^ 32
    → clock < 2 ^ 32
    → next_clock period smooth clock < 2 ^ 32
unfolding next_clock follow keep_forward
next_clock-lt period smooth clock hs hc = ground arith

-- Every frame, the first one included, leaves the counters in their width and the period between 0
-- and 90000 ticks, records the clock as the last one, and returns the new `smoothclock`.
pub smoothclock-IsTimeline :
    (fps clock : ℕ) (t : Timeline)
    → clock < 2 ^ 32
    → IsTimeline t
    → IsTimeline (smoothclock fps t clock).1
      × ((smoothclock fps t clock).1.lastclock ≡ clock)
      × ((smoothclock fps t clock).1.smoothclock ≡ (smoothclock fps t clock).0)
unfolding smoothclock later_clock
smoothclock-IsTimeline fps clock t hc v = ground (
  arith,
  next_period-IsPeriod t.period (signed32 (sub32 clock t.lastclock)),
  next_clock-lt (next_period t.period (signed32 (sub32 clock t.lastclock))) t.smoothclock clock,
)

-- The date at which a frame is due: one period after the last one.
abbrev pub due : ℤ → ℕ → ℕ
due period smooth = add32 smooth (pattern32 period)

-- After the first frame the value returned lies strictly ahead of the last one, unless the
-- clock is more than `max_drift` away from the date due: then the value is the clock.
pub smoothclock-Ahead :
    (fps clock : ℕ) (t : Timeline)
    → clock < 2 ^ 32
    → IsTimeline t
    → t.lastclock ≢ 0
    → (let (next, t') = smoothclock fps t clock in
        Ahead next t.smoothclock
        ⊎ ((next ≡ clock) × (far (drift clock (due t'.period t.smoothclock)) ≡ true)))
unfolding smoothclock later_clock next_clock
smoothclock-Ahead fps clock t hc v started = ground (
  arith,
  follow-Ahead (due (next_period t.period (signed32 (sub32 clock t.lastclock))) t.smoothclock)
      t.smoothclock clock,
  keep_forward-Ahead t.smoothclock clock,
)

next_clock-Near :
    (period : ℤ) (smooth clock : ℕ)
    → IsPeriod period
    → pos 1 ≤ℤ period
    → smooth < 2 ^ 32
    → clock < 2 ^ 32
    → Near clock (next_clock period smooth clock)
unfolding next_clock
next_clock-Near (pos p) smooth clock v known hs hc =
    ground (arith, follow-Near p smooth clock, pattern32_small p)
  where
    pattern32_small : (n : ℕ) → n ≤ 90000 → pattern32 (pos n) ≡ n
    pattern32_small n h = omega arith
next_clock-Near (negsuc p) smooth clock v known hs hc = absurd (omega arith)

later_clock-Near :
    (clock : ℕ) (t : Timeline)
    → clock < 2 ^ 32
    → IsTimeline t
    → pos 1 ≤ℤ (later_clock t clock).1.period
    → Near clock (later_clock t clock).0
unfolding later_clock
later_clock-Near clock t hc v known =
    next_clock-Near (next_period t.period (signed32 (sub32 clock t.lastclock))) t.smoothclock clock
      (next_period-IsPeriod t.period (signed32 (sub32 clock t.lastclock)) v.period_sound) known
      v.smooth_fits hc

smoothclock_later :
    (fps clock : ℕ) (t : Timeline) → t.lastclock ≢ 0 → smoothclock fps t clock ≡ later_clock t clock
unfolding smoothclock
smoothclock_later fps clock t started = ground arith

-- After the first frame, once a period is known, the value returned is within `max_drift` of the clock.
pub smoothclock-Near :
    (fps clock : ℕ) (t : Timeline)
    → clock < 2 ^ 32
    → IsTimeline t
    → t.lastclock ≢ 0
    → pos 1 ≤ℤ (smoothclock fps t clock).1.period
    → Near clock (smoothclock fps t clock).0
smoothclock-Near fps clock t hc v started known =
    rw (smoothclock_later fps clock t started)
      (later_clock-Near clock t hc v (rw (smoothclock_later fps clock t started) at known))
