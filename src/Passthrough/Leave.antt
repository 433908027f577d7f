-- ===== src/Passthrough/Leave.antt =====
-- A frame out of the main device of src/spassthrough.c.
use mathlib.Core.Path.{subst, ap₂}
use fastvideo.Buffers.{dequeued, ready, Outcome, done, eagain, is_ready}
use fastvideo.Prelude.{
  ℕ, ◌+◌, ◌*◌, ◌/◌, ◌%◌, ◌^◌, Bool, true, false, List, [], ◌∷◌, Option, none, some, if◌then◌else◌,
  not, length, get_elem?, set, ◌≡◌, ◌⊎◌, inl, inr, refl, sym, ap, ◌∙◌, arith,
}
use fastvideo.Prelude.Int.{ℤ, pos, negsuc}
use fastvideo.Passthrough.{Buffer, Source, Sink, put_source, resized, signal}
use fastvideo.Passthrough.Queue.{is_queued}
use fastvideo.Passthrough.Dequeue.{
  Frame, end_shoot, give_frame, try_again, give_at, give_copy, dequeue_dup, dequeue_at,
  dequeue_from, dequeue_output,
}
use fastvideo.Passthrough.Linked.{frame_of, Apart, Linked, Linked-set, ready_count, ready_count-set}
use fastvideo.Passthrough.Order.{IsFifo}
use fastvideo.Passthrough.Enqueue.{has_target, target_at, is_some, IsFifo-same}

-- The first frame leaves, with its size scaled by the ratio, and the others stay in their order.
abbrev pub Left : Sink → ℕ → Frame → List (ℕ × Frame) → ℤ × Option Frame × Sink → Type 0
Left s i f es (ret, frame, s') =
    (ret ≡ pos i) × (frame ≡ some (record f { bytesused = resized s f.bytesused })) × IsFifo s' es

-- Nothing leaves: -1 with `EAGAIN`, and all frames wait on.
abbrev pub Waits : List (ℕ × Frame) → ℤ × Option Frame × Sink → Type 0
Waits es (ret, frame, s') = (ret ≡ negsuc 0) × (frame ≡ none) × (s'.errno ≡ eagain) × IsFifo s' es

abbrev idle_at : List Buffer → Option ℕ → Bool
idle_at bs none = false
idle_at bs (some cur) = elim (get_elem? bs cur) [
  | none ↦ false
  | some dst ↦ not (is_queued dst.state)
]

-- The duplicated device takes part, and has not given back the buffer that the frame was copied to.
abbrev pub is_blocked : Option Source → Bool → Bool
is_blocked none dry = false
is_blocked (some d) dry = if dry then false else idle_at d.buffers d.curbuffer

-- What becomes of the frames that wait.
abbrev pub Answer : Sink → List (ℕ × Frame) → ℤ × Option Frame × Sink → Type 0
Answer s [] r = Waits [] r
Answer s ((i, f) ∷ es) r =
    (Left s i f es r × (is_blocked s.dup s.state.dryrun ≡ false))
    ⊎ (Waits ((i, f) ∷ es) r × (is_blocked s.dup s.state.dryrun ≡ true))

module _ (s : Sink) (i : ℕ) (b : Buffer) (f : Frame) (es : List (ℕ × Frame))
    (v : IsFifo s ((i, f) ∷ es)) (here : get_elem? s.buffers i ≡ some b)
    (waits : is_ready b.state ≡ true) (same : frame_of b ≡ f) (apart : Apart i es)
    (rest : Linked s.buffers b.next es) where
  -- Any state with the buffers and the ratio of `s` gives its frame so.
  give_frame-Left :
      (t : Sink)
      → t.buffers ≡ s.buffers
      → t.numerator ≡ s.numerator
      → t.denominator ≡ s.denominator
      → Left s i f es (give_frame t i b)
  unfolding give_frame
  give_frame-Left t eb en ed =
      let free : Buffer = record b { state = dequeued } in
      (
        refl,
        ap₂ (λ (g : Frame) (n : ℕ). some (record g { bytesused = n })) same
            (ap₂ (λ n d. (b.bytesused * n % 2 ^ 64) / d) en ed
              ∙ ap (λ g. resized s g.bytesused) same),
        record {
          linked =
              subst (λ bs. Linked (set bs i free) b.next es) (sym eb)
                (Linked-set s.buffers i free b.next es apart rest);
          counted =
              fewer (ready_count (set s.buffers i free)) (ready_count-set s.buffers i b free here)
              ∙ ap (λ bs. ready_count (set bs i free)) (sym eb);
        },
      )
    where
      fewer :
          (n : ℕ)
          → n + (if is_ready b.state then 1 else 0) ≡ ready_count s.buffers + 0
          → length es ≡ n
      fewer n e = ground (arith, v.counted, waits)

  end_shoot-keeps :
      ((end_shoot s).buffers ≡ s.buffers)
      × ((end_shoot s).curbuffer ≡ s.curbuffer)
      × ((end_shoot s).numerator ≡ s.numerator)
      × ((end_shoot s).denominator ≡ s.denominator)
  unfolding end_shoot
  end_shoot-keeps = (ground arith, ground arith, ground arith, ground arith)

  abbrev Answers : Bool → Outcome (ℤ × Option Frame × Sink) → Type 0
  Answers blocked result =
      (r : ℤ × Option Frame × Sink) × (result ≡ done r)
      × ((Left s i f es r × (blocked ≡ false)) ⊎ (Waits ((i, f) ∷ es) r × (blocked ≡ true)))

  give_shoot : Answers false (done (give_frame (end_shoot s) i b))
  give_shoot =
      let (kb, kc, kn, kd) = end_shoot-keeps in
      (give_frame (end_shoot s) i b, refl, inl (give_frame-Left (end_shoot s) kb kn kd, refl))

  give_at-Answers :
      (d : Source) (cur : ℕ) (at_ : Option Buffer)
      → is_some at_ ≡ true
      → Answers
          (elim at_ as (λ _. Bool) [ none ↦ false | some dst ↦ not (is_queued dst.state) ])
          (give_at (end_shoot s) d cur i b at_)
  unfolding give_at
  give_at-Answers d cur none target = absurd (cc)
  give_at-Answers d cur (some dst) target =
      let (kb, kc, kn, kd) = end_shoot-keeps in
      let t : Sink = record (end_shoot s) {
        dup = some (record (put_source d cur (record dst { flags = b.flags; state = ready })) {
          completion = signal d.completion;
        });
      } in
      elim (is_queued dst.state)
        as (λ q.
          Answers (not q) (if q then done (give_frame t i b) else done (try_again (end_shoot s)))) [
            | true ↦ (give_frame t i b, refl, inl (give_frame-Left t kb kn kd, refl))
            | false ↦ (
              try_again (end_shoot s),
              refl,
              inr (
                (refl, refl, refl, IsFifo-same s (try_again (end_shoot s)).2 ((i, f) ∷ es) kb kc v),
                refl,
              ),
            )
          ]

  give_copy-Answers :
      (d : Source) (cur : Option ℕ)
      → target_at d.buffers cur ≡ true
      → Answers (idle_at d.buffers cur) (give_copy (end_shoot s) d i b cur)
  unfolding give_copy
  give_copy-Answers d none target = absurd (cc)
  give_copy-Answers d (some cur) target = give_at-Answers d cur (get_elem? d.buffers cur) target

  dequeue_dup-Answers :
      (dup : Option Source)
      → has_target dup ≡ true
      → Answers (is_blocked dup s.state.dryrun) (dequeue_dup s i b dup)
  unfolding dequeue_dup give_copy
  dequeue_dup-Answers none target = give_shoot
  dequeue_dup-Answers (some d) target =
      elim s.state.dryrun
        as (λ dry. Answers (if dry then false else idle_at d.buffers d.curbuffer) (
          if dry
          then done (give_frame (end_shoot s) i b)
          else give_copy (end_shoot s) d i b d.curbuffer)) [
            | true ↦ give_shoot
            | false ↦ give_copy-Answers d d.curbuffer target
          ]

-- The dequeue of the main device answers, and takes the frame that has waited longest: it leaves with its size
-- scaled by the ratio and the others stay in their order, unless the duplicated device takes part and has
-- not given back the buffer of its copy. Then, and where no frame waits, the call fails with `EAGAIN` and all frames
-- wait on.
pub dequeue_output-Answer :
    (s : Sink) (es : List (ℕ × Frame))
    → has_target s.dup ≡ true
    → IsFifo s es
    → (r : ℤ × Option Frame × Sink) × (dequeue_output s ≡ done r) × Answer s es r
unfolding dequeue_output dequeue_from dequeue_at
dequeue_output-Answer s [] target v = (
  try_again s,
  ap (dequeue_from s) v.linked,
  (refl, refl, refl, IsFifo-same s (try_again s).2 [] refl refl v),
)
dequeue_output-Answer s ((i, f) ∷ es) target v =
    let (at_, b, here, waits, same, apart, rest) = v.linked in
    let (r, ran, answer) =
      dequeue_dup-Answers s i b f es v here waits same apart rest s.dup target in
    (
      r,
      ap (dequeue_from s) at_
          ∙ ap (dequeue_at s i) here
          ∙ ap (λ t. if t then dequeue_dup s i b s.dup else done (try_again s)) waits
          ∙ ran,
      answer,
    )
