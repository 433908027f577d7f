-- ===== src/Stage.antt =====
-- The main device of src/spassthrough.c as the output of a pipe of src/fastvideo.c.
use mathlib.Core.Path.{subst}
use fastvideo.Buffers.{Outcome, done, fault, endless, eagain}
use fastvideo.Prelude.{
  ℕ, Bool, true, false, List, [], ◌∷◌, Option, none, some, if◌then◌else◌, get_elem?, ◌≡◌, ◌≢◌, ◌<◌,
  ltb, length, zero, suc, refl, sym, ap, ◌∙◌, arith, Bool-cases, inl, inr, ltb→lt,
}
use fastvideo.Prelude.Int.{ℤ, pos, negsuc}
use fastvideo.Passthrough.{Convert, Sink, Buffer}
use fastvideo.Passthrough.Queue.{queue, queue_output, queue_at, queue_buffer, is_dequeued}
use fastvideo.Passthrough.Dequeue.{dequeue_output}
use fastvideo.Passthrough.Order.{IsFifo, settled, settled-buffers, settled-curbuffer, settled-dup}
use fastvideo.Passthrough.Enqueue.{
  has_target, FaultsAt, EndlessAt, CopyFails, IsFifo-same, queue_output-Queued,
}
use fastvideo.Passthrough.Leave.{Answer, dequeue_output-Answer}
use fastvideo.Passthrough.Targets.{
  keeps_target, leaves_target, queue_output-target, dequeue_output-target,
}
use fastvideo.Passthrough.Converter.{
  converter, settled-converter, queue_output-converter, dequeue_output-converter,
}
use fastvideo.Transfer.{World, Frame, Ops}

-- The operations of a device keep a property of the state.
pub record Keeps (W : Type 0) (I : W → Type 0) (device : Ops W) : Type 0 where
  pub dequeue : (w : W) → I w → I (device.dequeue w).1
  pub queue : (f : Frame) (w : W) → I w → I (device.queue f w).1

-- The device between two calls; a fault stays.
abbrev pub Stage : Type 0
Stage = Outcome Sink

abbrev pub stage_errno : Stage → ℕ
stage_errno (done s) = s.errno
stage_errno _ = 0

abbrev pub stage_clear : Stage → Stage
stage_clear (done s) = done (record s { errno = 0 })
stage_clear fault = fault
stage_clear endless = endless

pub stage_cleared : (w : Stage) → stage_errno (stage_clear w) ≡ 0
stage_cleared (done s) = refl
stage_cleared fault = refl
stage_cleared endless = refl

abbrev pub stage_world : World Stage
stage_world = record { errno = stage_errno; clear = stage_clear; errno-clear = stage_cleared }

abbrev pub queue_answer : Outcome (ℤ × Sink) → Bool × Stage
queue_answer (done (pos n, s)) = (true, done s)
queue_answer (done (negsuc n, s)) = (false, done s)
queue_answer fault = (false, fault)
queue_answer endless = (false, endless)

abbrev pub stage_queue : Frame → Stage → Bool × Stage
stage_queue f (done s) = queue_answer (queue s (pos f.index) f.mem f.bytesused f.flags)
stage_queue f fault = (false, fault)
stage_queue f endless = (false, endless)

abbrev pub dequeue_answer :
    Outcome (ℤ × Option fastvideo.Passthrough.Dequeue.Frame × Sink) → Option Frame × Stage
dequeue_answer (done (pos n, some f, s)) =
    (some (record { index = n; mem = f.mem; bytesused = f.bytesused; flags = f.flags }), done s)
dequeue_answer (done (r, f, s)) = (none, done s)
dequeue_answer fault = (none, fault)
dequeue_answer endless = (none, endless)

abbrev pub stage_dequeue : Stage → Option Frame × Stage
stage_dequeue (done s) = dequeue_answer (dequeue_output s)
stage_dequeue fault = (none, fault)
stage_dequeue endless = (none, endless)

-- The converter is `copy`, and its ratio can be divided by.
abbrev pub Converts : Option Convert → Option Convert × ℕ → Type 0
Converts copy (copy1, denominator) = (copy1 ≡ copy) × (0 < denominator)

-- The frames of the stage are linked well, the duplicated device, where there is one, has a buffer, and the converter
-- is `copy`; or a call has failed as this converter does.
abbrev pub IsSound : Option Convert → Stage → Type 0
IsSound copy (done s) =
    (es : List (ℕ × fastvideo.Passthrough.Dequeue.Frame)) × IsFifo s es
    × (has_target s.dup ≡ true)
    × Converts copy (converter s)
IsSound copy fault = FaultsAt copy
IsSound copy endless = EndlessAt copy

in_range : (bs : List Buffer) (i : ℕ) → i < length bs → get_elem? bs i ≢ none
in_range [] i below e = absurd (omega (arith, below))
in_range (b ∷ bs) zero below e = absurd (ground (arith, e))
in_range (b ∷ bs) (suc i) below e = in_range bs i (omega (arith, below)) e

queue_failed :
    (copy : Option Convert) (o : Outcome (ℤ × Sink))
    → CopyFails copy o
    → IsSound copy (queue_answer o).1
queue_failed copy (done r) failed = absurd failed
queue_failed copy fault failed = failed
queue_failed copy endless failed = failed

module _ (s : Sink) (f : Frame) (es : List (ℕ × fastvideo.Passthrough.Dequeue.Frame))
    (v : IsFifo s es) (target : has_target s.dup ≡ true) (copy : Option Convert)
    (converts : Converts copy (converter s)) where
  queued :
      (b : Buffer)
      → get_elem? s.buffers f.index ≡ some b
      → is_dequeued b.state ≡ true
      → IsSound copy (queue_answer (queue_output s f.index f.mem f.bytesused f.flags)).1
  queued b found free =
      elim (queue_output-Queued s f.index b f.mem f.bytesused f.flags es found free target v) [
        | inl (used, s', ran, w) ↦
            subst (λ (o : Outcome (ℤ × Sink)). IsSound copy (queue_answer o).1) (sym ran)
              (
                _,
                w,
                ap keeps_target (sym ran)
                    ∙ queue_output-target s f.index f.mem f.bytesused f.flags target,
                subst (Converts copy)
                    (sym
                      (queue_output-converter s s' (pos 0) f.index f.mem f.bytesused f.flags ran))
                    converts,
              )
        | inr failed ↦ queue_failed copy (queue_output s f.index f.mem f.bytesused f.flags) (
            subst (λ c. CopyFails c (queue_output s f.index f.mem f.bytesused f.flags)) converts.0
              failed)
      ]

  refused :
      (b : Buffer)
      → get_elem? s.buffers f.index ≡ some b
      → is_dequeued b.state ≡ false
      → IsSound copy (queue_answer (queue_output s f.index f.mem f.bytesused f.flags)).1
  unfolding queue_output queue_at settled
  refused b found busy =
      let t : Sink = record (settled s) { errno = eagain } in
      subst (λ (o : Outcome (ℤ × Sink)). IsSound copy (queue_answer o).1)
        (sym (
          ap (queue_at (settled s) f.index f.mem f.bytesused f.flags)
            (ap (λ bs. get_elem? bs f.index) (settled-buffers s) ∙ found)
          ∙ ap
              (λ free.
                if free
                then queue_buffer (settled s) f.index b f.mem f.bytesused f.flags
                else done (negsuc 0, t))
              busy))
        (
          es,
          IsFifo-same s t es (settled-buffers s) (settled-curbuffer s) v,
          ap has_target (settled-dup s) ∙ target,
          subst (Converts copy) (sym (settled-converter s)) converts,
        )

  queue_output-IsSound :
      (here : Option Buffer)
      → get_elem? s.buffers f.index ≡ here
      → f.index < length s.buffers
      → IsSound copy (queue_answer (queue_output s f.index f.mem f.bytesused f.flags)).1
  queue_output-IsSound none found below = absurd (in_range s.buffers f.index below found)
  queue_output-IsSound (some b) found below = elim (Bool-cases (is_dequeued b.state)) [
    | inl free ↦ queued b found free
    | inr busy ↦ refused b found busy
  ]

  queue-IsSound : IsSound copy (stage_queue f (done s)).1
  unfolding queue
  queue-IsSound = by_range (ltb f.index (length s.buffers)) refl
    where
      by_range :
          (inside : Bool)
          → ltb f.index (length s.buffers) ≡ inside
          → IsSound copy
              (queue_answer (
                if inside
                then queue_output s f.index f.mem f.bytesused f.flags
                else done (negsuc 0, s))).1
      by_range true e =
          queue_output-IsSound (get_elem? s.buffers f.index) refl
            (ltb→lt f.index (length s.buffers) e)
      by_range false e = (es, v, target, converts)

sound_answer :
    (copy : Option Convert) (r : ℤ × Option fastvideo.Passthrough.Dequeue.Frame × Sink)
    → IsSound copy (done r.2)
    → IsSound copy (dequeue_answer (done r)).1
sound_answer copy (pos n, some f, s) h = h
sound_answer copy (pos n, none, s) h = h
sound_answer copy (negsuc n, f, s) h = h

Answer-IsFifo :
    (s : Sink) (es : List (ℕ × fastvideo.Passthrough.Dequeue.Frame))
    (r : ℤ × Option fastvideo.Passthrough.Dequeue.Frame × Sink)
    → Answer s es r
    → (left : List (ℕ × fastvideo.Passthrough.Dequeue.Frame)) × IsFifo r.2 left
Answer-IsFifo s [] r (ret, frame, again, w) = ([], w)
Answer-IsFifo s ((i, f) ∷ es) r (inl ((ret, frame, w), free)) = (es, w)
Answer-IsFifo s ((i, f) ∷ es) r (inr ((ret, frame, again, w), blocked)) = ((i, f) ∷ es, w)

dequeue-IsSound :
    (copy : Option Convert) (w : Stage) → IsSound copy w → IsSound copy (stage_dequeue w).1
dequeue-IsSound copy fault v = v
dequeue-IsSound copy endless v = v
dequeue-IsSound copy (done s) (es, v, target, converts) =
    let (r, ran, answer) = dequeue_output-Answer s es target v in
    let (left, w) = Answer-IsFifo s es r answer in
    subst
      (λ (o : Outcome (ℤ × Option fastvideo.Passthrough.Dequeue.Frame × Sink)).
        IsSound copy (dequeue_answer o).1)
      (sym ran)
      (sound_answer copy r (
        left,
        w,
        ap leaves_target (sym ran) ∙ dequeue_output-target s target,
        subst (Converts copy) (sym (dequeue_output-converter s r ran)) converts,
      ))

-- A stage with well-linked frames, with a buffer to copy to where there is a duplicated device, and whose converter, if
-- there is one, has a ratio that is not over 0, stays so under every dequeue, and every queue of whatever buffer:
-- one that it has and waits for, one that is busy, or one that it does not have. It faults, or does not return, only
-- where its converter does on some memory; without a converter it never does.
pub stage-Keeps :
    (copy : Option Convert) (eventfd : Option (ℕ → Stage → ℤ)) (start : Stage → Bool × Stage)
    (stop : Stage → Stage)
    → Keeps Stage (IsSound copy) (record {
      eventfd = eventfd;
      start = start;
      stop = stop;
      dequeue = stage_dequeue;
      queue = stage_queue;
    })
stage-Keeps copy eventfd start stop = record { dequeue = dequeue-IsSound copy; queue = queue_sound }
  where
    queue_sound : (f : Frame) (w : Stage) → IsSound copy w → IsSound copy (stage_queue f w).1
    queue_sound f fault v = v
    queue_sound f endless v = v
    queue_sound f (done s) (es, v, target, converts) = queue-IsSound s f es v target copy converts
