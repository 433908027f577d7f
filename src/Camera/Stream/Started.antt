-- ===== src/Camera/Stream/Started.antt =====
-- `sv4l2_start` of src/sv4l2.c on a capture device.
use mathlib.Core.Path.{subst}
use mathlib.Core.List.{append_assoc, append-nil}
use fastvideo.Buffers.{Outcome, done, fault, endless}
use fastvideo.Prelude.{
  ℕ, zero, suc, ◌+◌, ◌<◌, ◌≤◌, List, [], ◌∷◌, ◌++◌, Bool, true, false, none, ◌⊎◌, inl, inr, ◌≢◌,
  length, if◌then◌else◌, ◌≡◌, ap, sym, ◌∙◌, refl, arith,
}
use fastvideo.Prelude.Int.{ℤ, pos, negsuc}
use fastvideo.Camera.Stream.{
  StreamDriver, Camera, is_capturing, sv4l2_queue, sv4l2_start, stream_queued, queue_buffers,
  switched,
}
use fastvideo.Camera.Stream.Ready.{
  IsDriverQueue, IsCameraReady, Taken, Absent, AllBelow, Unique, Numbered, sv4l2_queue-Took,
}
use fastvideo.Camera.Stream.Given.{Fit, taken-Fit}

-- The numbers from `n` on, `count` of them.
abbrev pub upto : ℕ → ℕ → List ℕ
upto n zero = []
upto n (suc count) = n ∷ upto (n + 1) count

below-Absent : (i : ℕ) (js : List ℕ) → AllBelow i js → Absent i js
below-Absent i [] below = tt
below-Absent i (j ∷ js) below = ((λ e. omega (arith, e, below.0)), below-Absent i js below.1)

below_more : (i : ℕ) (js : List ℕ) → AllBelow i js → AllBelow (i + 1) (js ++ (i ∷ []))
below_more i [] below = (omega arith, tt)
below_more i (j ∷ js) below = (omega (arith, below.0), below_more i js below.1)

upto-Absent : (i n count : ℕ) → i < n → Absent i (upto n count)
upto-Absent i n zero h = tt
upto-Absent i n (suc count) h =
    ((λ e. omega (arith, e, h)), upto-Absent i (n + 1) count (omega (arith, h)))

upto-Unique : (n count : ℕ) → Unique (upto n count)
upto-Unique n zero = tt
upto-Unique n (suc count) = (upto-Absent n (n + 1) count (omega arith), upto-Unique (n + 1) count)

upto_below : (n count limit : ℕ) → n + count ≤ limit → AllBelow limit (upto n count)
upto_below n zero limit h = tt
upto_below n (suc count) limit h =
    (omega (arith, h), upto_below (n + 1) count limit (omega (arith, h)))

module _ (d : StreamDriver) (q : IsDriverQueue d) where
  -- The loop queues `n` buffers from `index` on, behind those that the driver has.
  abbrev All : ℕ → ℕ → Camera d → Type 0
  All n index dev =
      (dev1 : Camera d) × (queue_buffers d n index dev ≡ done (pos 0, dev1))
      × (q.queued dev1.driver ≡ q.queued dev.driver ++ upto index n)
      × Numbered 0 dev1.buffers
      × (length dev1.buffers ≡ q.count)
      × (dev1.kind ≡ dev.kind)

  -- It stops at the buffer `index + k`, for which `sv4l2_queue` returns another number than 0.
  abbrev Stopped : ℕ → ℕ → Camera d → Type 0
  Stopped n index dev =
      (k : ℕ) × (ret : ℤ) × (dev1 dev2 : Camera d) × (queue_buffers d n index dev
        ≡ done (negsuc 0, dev2))
      × (k < n)
      × (q.queued dev1.driver ≡ q.queued dev.driver ++ upto index k)
      × (sv4l2_queue d dev1 (index + k) none 0 ≡ done (ret, dev2))
      × (ret ≢ pos 0)
      × Taken (index + k) (q.queued dev1.driver) ret (q.queued dev2.driver)
      × Numbered 0 dev2.buffers
      × (length dev2.buffers ≡ q.count)

  -- The body of the loop behind the call.
  abbrev behind_call : ℕ → ℕ → ℤ → Camera d → Outcome (ℤ × Camera d)
  behind_call n index ret dev = elim ret [
    | pos zero ↦ queue_buffers d n (index + 1) dev
    | _ ↦ done (negsuc 0, dev)
  ]

  behind_call-stops :
      (n index : ℕ) (ret : ℤ) (dev : Camera d)
      → ret ≢ pos 0
      → behind_call n index ret dev ≡ done (negsuc 0, dev)
  behind_call-stops n index (pos zero) dev other = absurd (other refl)
  behind_call-stops n index (pos (suc m)) dev other = refl
  behind_call-stops n index (negsuc m) dev other = refl

  one_call :
      (n index : ℕ) (ret : ℤ) (dev dev1 : Camera d)
      → sv4l2_queue d dev index none 0 ≡ done (ret, dev1)
      → queue_buffers d (suc n) index dev ≡ behind_call n index ret dev1
  unfolding queue_buffers
  one_call n index ret dev dev1 ran =
      ap
        (λ o. elim o [
          | fault ↦ fault
          | endless ↦ endless
          | done answer ↦ let (ret, dev3) = answer in behind_call n index ret dev3
        ])
        ran

  -- The loop behind a call that took the buffer `index`.
  one_more :
      (n index : ℕ) (dev dev1 : Camera d)
      → queue_buffers d (suc n) index dev ≡ queue_buffers d n (index + 1) dev1
      → q.queued dev1.driver ≡ q.queued dev.driver ++ (index ∷ [])
      → dev1.kind ≡ dev.kind
      → All n (index + 1) dev1 ⊎ Stopped n (index + 1) dev1
      → All (suc n) index dev ⊎ Stopped (suc n) index dev
  one_more n index dev dev1 ran put kind (inl (dev2, rested, queued, numbered, sized, kind2)) =
      inl (
        dev2,
        ran ∙ rested,
        queued
            ∙ ap (λ l. l ++ upto (index + 1) n) put
            ∙ append_assoc (q.queued dev.driver) (index ∷ []) (upto (index + 1) n),
        numbered,
        sized,
        kind2 ∙ kind,
      )
  one_more n index dev dev1 ran put kind
        (inr (k, ret, dev2, dev3, rested, below, queued, call, other, taken, numbered, sized)) =
      let next : index + 1 + k ≡ index + suc k = omega arith in
      inr (
        suc k,
        ret,
        dev2,
        dev3,
        ran ∙ rested,
        omega (arith, below),
        queued
            ∙ ap (λ l. l ++ upto (index + 1) k) put
            ∙ append_assoc (q.queued dev.driver) (index ∷ []) (upto (index + 1) k),
        subst (λ i. sv4l2_queue d dev2 i none 0 ≡ done (ret, dev3)) next call,
        other,
        subst (λ i. Taken i (q.queued dev2.driver) ret (q.queued dev3.driver)) next taken,
        numbered,
        sized,
      )

  queue_buffers-upto :
      (n index : ℕ) (dev : Camera d)
      → index + n ≡ q.count
      → length dev.buffers ≡ q.count
      → Numbered 0 dev.buffers
      → AllBelow index (q.queued dev.driver)
      → All n index dev ⊎ Stopped n index dev
  unfolding queue_buffers
  queue_buffers-upto zero index dev rest sized numbered below =
      inl (dev, refl, sym (append-nil (q.queued dev.driver)), numbered, sized, refl)
  queue_buffers-upto (suc n) index dev rest sized numbered below =
      let (ret, dev1, ran, took) =
        sv4l2_queue-Took d q dev index none 0 (omega (arith, rest)) sized numbered
          (below-Absent index (q.queued dev.driver) below) in
      elim took.queued [
        | inl (returned, put) ↦
            one_more n index dev dev1
              (one_call n index ret dev dev1 ran ∙ ap (λ r. behind_call n index r dev1) returned)
              put took.kind
              (queue_buffers-upto n (index + 1) dev1 (omega (arith, rest)) (took.sized ∙ sized)
                took.numbered
                (subst (AllBelow (index + 1)) (sym put)
                  (below_more index (q.queued dev.driver) below)))
        | inr (other, left) ↦
            let here : index ≡ index + 0 = omega arith in
            inr (
              0,
              ret,
              dev,
              dev1,
              one_call n index ret dev dev1 ran ∙ behind_call-stops n index ret dev1 other,
              omega arith,
              sym (append-nil (q.queued dev.driver)),
              subst (λ i. sv4l2_queue d dev i none 0 ≡ done (ret, dev1)) here ran,
              other,
              subst (λ i. Taken i (q.queued dev.driver) ret (q.queued dev1.driver)) here
                  took.queued,
              took.numbered,
              took.sized ∙ sized,
            )
      ]

  upto-Fit : (n : ℕ) → n ≤ q.count → Fit d q (upto 0 n)
  upto-Fit n inside = (upto_below 0 n q.count (omega (arith, inside)), upto-Unique 0 n)

  Fit-IsCameraReady :
      (dev : Camera d)
      → Numbered 0 dev.buffers
      → length dev.buffers ≡ q.count
      → Fit d q (q.queued dev.driver)
      → IsCameraReady d q dev
  Fit-IsCameraReady dev numbered sized (below, unique) = record {
    numbered = numbered;
    sized = sized;
    below = below;
    unique = unique;
  }

  -- The stream of a device with all its buffers queued is switched to `on`.
  abbrev pub Streams : Bool → ℤ → Camera d → Type 0
  Streams on ret dev =
      (s : d.State) × (dev1 : Camera d) × (d.streamon s dev.kind ≡ (on, dev1.driver))
      × (sv4l2_start d dev ≡ done (ret, dev1))
      × (q.queued dev1.driver ≡ upto 0 dev.nbuffers)
      × IsCameraReady d q dev1

  -- The buffers before `k` are queued, and `sv4l2_queue` of `k` returns another number than 0.
  abbrev pub Refuses : Camera d → Type 0
  Refuses dev =
      (k : ℕ) × (ret : ℤ) × (dev1 dev2 : Camera d) × (sv4l2_start d dev ≡ done (negsuc 0, dev2))
      × (k < dev.nbuffers)
      × (q.queued dev1.driver ≡ upto 0 k)
      × (sv4l2_queue d dev1 k none 0 ≡ done (ret, dev2))
      × (ret ≢ pos 0)
      × Taken k (upto 0 k) ret (q.queued dev2.driver)
      × IsCameraReady d q dev2

  switch_on :
      (dev dev1 : Camera d) (answer : Bool × d.State)
      → d.streamon dev1.driver dev1.kind ≡ answer
      → sv4l2_start d dev ≡ done (switched d dev1 (d.streamon dev1.driver dev1.kind))
      → q.queued dev1.driver ≡ upto 0 dev.nbuffers
      → dev.nbuffers ≡ q.count
      → Numbered 0 dev1.buffers
      → length dev1.buffers ≡ q.count
      → dev1.kind ≡ dev.kind
      → Streams true (pos 0) dev ⊎ Streams false (negsuc 0) dev
  unfolding switched
  switch_on dev dev1 (on, s) answered ran queued all numbered sized kind =
      elim on
          as (λ b.
            (d.streamon dev1.driver dev1.kind ≡ (b, s))
            → Streams true (pos 0) dev ⊎ Streams false (negsuc 0) dev) [
              | true ↦ λ e. inl (by true e)
              | false ↦ λ e. inr (by false e)
            ]
        answered
    where
      ends : Bool → ℤ
      ends b = if b then pos 0 else negsuc 0

      switched-ends : (b : Bool) → switched d dev1 (b, s) ≡ (ends b, record dev1 { driver = s })
      switched-ends true = refl
      switched-ends false = refl

      by : (b : Bool) → d.streamon dev1.driver dev1.kind ≡ (b, s) → Streams b (ends b) dev
      by b e =
          let now : q.queued s ≡ upto 0 dev.nbuffers =
            sym (ap (λ a. q.queued a.1) e) ∙ q.starts dev1.driver dev1.kind ∙ queued in
          (
            dev1.driver,
            record dev1 { driver = s },
            subst (λ k. d.streamon dev1.driver k ≡ (b, s)) kind e,
            ran ∙ ap (λ a. done (switched d dev1 a)) e ∙ ap done (switched-ends b),
            now,
            Fit-IsCameraReady (record dev1 { driver = s }) numbered sized
                (subst (Fit d q) (sym now) (upto-Fit dev.nbuffers (omega (arith, all)))),
          )

  -- Over a driver that may refuse any buffer but keeps the index and mapping of what it is given, that may fail to
  -- start the stream, and whose queue neither this nor a control changes: `sv4l2_start` of a capture device with all its
  -- buffers at their places, none of which the driver has yet, returns in one of three ways, and leaves the device
  -- ready. All buffers are queued in the order of their places, the stream is on and it returns 0; or the buffers
  -- before one are queued, `sv4l2_queue` of this one did not return 0, and it returns -1; or all are queued, the
  -- driver did not start the stream, and it returns -1.
  pub sv4l2_start-upto :
      (dev : Camera d)
      → is_capturing dev.kind ≡ true
      → dev.nbuffers ≡ q.count
      → length dev.buffers ≡ q.count
      → Numbered 0 dev.buffers
      → q.queued dev.driver ≡ []
      → Streams true (pos 0) dev ⊎ (Refuses dev ⊎ Streams false (negsuc 0) dev)
  unfolding sv4l2_start stream_queued
  sv4l2_start-upto dev capture all sized numbered empty =
      elim (queue_buffers-upto dev.nbuffers 0 dev (omega (arith, all)) sized numbered
        (subst (AllBelow 0) (sym empty) tt)) [
          | inl (dev1, ran, queued, numbered1, sized1, kind1) ↦
              elim (switch_on dev dev1 (d.streamon dev1.driver dev1.kind) refl
                (starts ∙ ap (stream_queued d) ran) (queued ∙ from_none dev.nbuffers) all numbered1
                sized1 kind1) [ inl on ↦ inl on | inr off ↦ inr (inr off) ]
          | inr (k, ret, dev1, dev2, ran, below, queued, call, other, taken, numbered2, sized2) ↦
              let k_of : 0 + k ≡ k = omega arith in
              let had : q.queued dev1.driver ≡ upto 0 k = queued ∙ from_none k in
              let took : Taken k (upto 0 k) ret (q.queued dev2.driver) =
                subst (λ l. Taken k l ret (q.queued dev2.driver)) had
                  (subst (λ i. Taken i (q.queued dev1.driver) ret (q.queued dev2.driver)) k_of
                    taken) in
              inr (
                inl (
                  k,
                  ret,
                  dev1,
                  dev2,
                  starts ∙ ap (stream_queued d) ran,
                  below,
                  had,
                  subst (λ i. sv4l2_queue d dev1 i none 0 ≡ done (ret, dev2)) k_of call,
                  other,
                  took,
                  Fit-IsCameraReady dev2 numbered2 sized2 (
                      taken-Fit d q k (upto 0 k) (q.queued dev2.driver) ret
                        (omega (arith, below, all))
                        (below-Absent k (upto 0 k) (upto_below 0 k k (omega arith)))
                        (upto-Fit k (omega (arith, below, all))) took),
                ))
        ]
    where
      from_none : (n : ℕ) → q.queued dev.driver ++ upto 0 n ≡ upto 0 n
      from_none n = ap (λ l. l ++ upto 0 n) empty

      starts : sv4l2_start d dev ≡ stream_queued d (queue_buffers d dev.nbuffers 0 dev)
      starts =
          ap
            (λ b.
              stream_queued d (if b then queue_buffers d dev.nbuffers 0 dev else done (pos 0, dev)))
            capture
