-- ===== src/Camera/Stream/Periodic.antt =====
-- The periodic control that `sv4l2_queue` of src/sv4l2.c sets.
use mathlib.Core.Path.{subst}
use fastvideo.Buffers.{Outcome, done}
use fastvideo.Prelude.{
  ℕ, suc, ◌+◌, ◌*◌, ◌%◌, ◌^◌, ◌<◌, ◌≤◌, Bool, true, false, not, ◌&&◌, Option, none, some, ◌==◌,
  if◌then◌else◌, get_elem?, get_or, ◌≡◌, ap, sym, ◌∙◌, arith, ◌⊎◌, inl, inr, Bool-cases,
}
use fastvideo.Prelude.Int.{ℤ}
use fastvideo.Camera.Memory.{CameraBuffer}
use fastvideo.Camera.Stream.{
  StreamDriver, Camera, sv4l2_queue, queue_found, queue_filled, queued_buffer, count_queue,
  periodiccontrol, control_set, fill_buffer,
}

-- The control can be set, and the calls that set it are counted.
pub record IsCounted (d : StreamDriver) : Type 0 where
  pub counted : d.State → ℕ
  pub sets :
      (s : d.State) (id : ℕ)
      → (s1 : d.State) × (d.set_control s id ≡ (true, s1)) × (counted s1 ≡ counted s + 1)
  pub queues : (s : d.State) (b : CameraBuffer) → counted ((d.qbuf s b).2) ≡ counted s

-- `n` calls of `sv4l2_queue` that return, whatever they answer.
pub data Queues (d : StreamDriver) : ℕ → Camera d → Camera d → Type 0 where
  no_more : {dev : Camera d} → Queues d 0 dev dev
  one_more :
      {n : ℕ} {dev dev1 dev2 : Camera d} (i : ℕ) (mem : Option ℕ) (bytesused : ℕ) (ret : ℤ)
      → sv4l2_queue d dev i mem bytesused ≡ done (ret, dev1)
      → Queues d n dev1 dev2
      → Queues d (suc n) dev dev2

module _ (d : StreamDriver) (c : IsCounted d) (p : ℕ) (small : suc p < 2 ^ 32) where
  -- The control is set after `suc p` calls without it.
  pub record IsPeriodic (dev : Camera d) : Type 0 where
    pub has : dev.has_periodic ≡ true
    pub every : dev.config_periodic ≡ suc p
    pub counter : dev.periodic ≤ suc p

  -- What a call does to the counters.
  Step : Camera d → Camera d → Type 0
  Step dev dev1 =
      IsPeriodic dev1
      × ((fired : ℕ) × (c.counted dev1.driver ≡ c.counted dev.driver + fired)
          × (fired * suc (suc p) + dev1.periodic ≡ dev.periodic + 1))

  count_queue-Step : (dev : Camera d) → IsPeriodic dev → Step dev (count_queue d dev)
  unfolding count_queue periodiccontrol control_set Step
  count_queue-Step dev is = by_counter (Bool-cases (dev.periodic == suc p))
    where
      test : Bool
      test =
          not (dev.config_periodic == 0)
          && dev.has_periodic
          && (dev.periodic == dev.config_periodic)

      step : Bool → Camera d
      step b =
          if b
          then periodiccontrol d (record dev { periodic = 0 })
          else record dev { periodic = (dev.periodic + 1) % 2 ^ 32 }

      by_counter :
          ((dev.periodic == suc p) ≡ true) ⊎ ((dev.periodic == suc p) ≡ false)
          → Step dev (count_queue d dev)
      by_counter (inl now) =
          let (s1, set, counts) = c.sets dev.driver dev.periodiccontrol in
          let fires : test ≡ true = ground (arith, now, is.every, is.has) in
          subst (λ b. Step dev (step b)) (sym fires)
            (subst (λ a. Step dev (control_set d (record dev { periodic = 0 }) a)) (sym set)
              (
                record { has = is.has; every = is.every; counter = omega arith },
                (1, counts, ground (arith, now)),
              ))
      by_counter (inr later) =
          let waits : test ≡ false = ground (arith, later, is.every) in
          subst (λ b. Step dev (step b)) (sym waits)
            (
              record {
                has = is.has;
                every = is.every;
                counter = ground (arith, later, is.counter, small);
              },
              (0, omega arith, ground (arith, later, is.counter, small)),
            )

  queue_found-Step :
      (dev dev1 : Camera d) (i : ℕ) (mem : Option ℕ) (bytesused : ℕ) (ret : ℤ)
      (o : Option CameraBuffer)
      → IsPeriodic dev
      → queue_found d dev i mem bytesused o ≡ done (ret, dev1)
      → Step dev dev1
  unfolding queue_found queue_filled queued_buffer Step
  queue_found-Step dev dev1 i mem bytesused ret none is ran = absurd (ground (arith, ran))
  queue_found-Step dev dev1 i mem bytesused ret (some b) is ran =
      let filled = fill_buffer (get_or dev.buffers 0 b) b mem bytesused in
      let counts = count_queue-Step dev is in
      subst (Step dev) (ap (answered dev) ran) (
        record { has = counts.0.has; every = counts.0.every; counter = counts.0.counter },
        (counts.1.0, c.queues (count_queue d dev).driver filled ∙ counts.1.1, counts.1.2),
      )
    where
      answered : Camera d → Outcome (ℤ × Camera d) → Camera d
      answered dev0 (done (ret0, dev2)) = dev2
      answered dev0 _ = dev0

  -- Where the control can be set: over any number of calls of `sv4l2_queue` that return, the control is set at each
  -- `periodic + 1`-th call counted from the last one, whatever the buffers are.
  pub Queues-fired :
      (n : ℕ) (dev dev1 : Camera d)
      → IsPeriodic dev
      → Queues d n dev dev1
      → (fired : ℕ) × (c.counted dev1.driver ≡ c.counted dev.driver + fired)
        × (fired * suc (suc p) + dev1.periodic ≡ dev.periodic + n)
        × (dev1.periodic ≤ suc p)
  unfolding Step sv4l2_queue
  Queues-fired n dev dev1 is no_more = (0, omega arith, omega arith, is.counter)
  Queues-fired n dev dev2 is (one_more {n = n1} {dev1 = dev1} i mem bytesused ret ran rest) =
      let (is1, (fired, counts, sum)) =
        queue_found-Step dev dev1 i mem bytesused ret (get_elem? dev.buffers i) is ran in
      let (fired1, counts1, sum1, counter1) = Queues-fired n1 dev1 dev2 is1 rest in
      (fired + fired1, omega (arith, counts, counts1), omega (arith, sum, sum1), counter1)
