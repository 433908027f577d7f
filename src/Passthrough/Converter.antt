-- ===== src/Passthrough/Converter.antt =====
-- The converter and its ratio stay what they are through the operations of src/spassthrough.c.
use fastvideo.Buffers.{queued, Outcome, done, fault, endless, eagain, is_ready}
use fastvideo.Prelude.{
  ℕ, true, false, List, Option, none, some, if◌then◌else◌, get_elem?, ◌≡◌, refl, sym, ap, ◌∙◌,
  arith,
}
use fastvideo.Prelude.Int.{ℤ, negsuc}
use fastvideo.Passthrough.{Convert, Buffer, Source, Sink}
use fastvideo.Passthrough.Queue.{
  take_controls, take_shoot, is_dequeued, insert_last, finish_queue, copy_buffer, copy_put,
  copy_into, copy_queue, queue_dup, given, asked, queue_at, queue_buffer, queue_output,
}
use fastvideo.Passthrough.Dequeue.{
  Frame, end_shoot, give_frame, try_again, give_at, give_copy, dequeue_dup, dequeue_at,
  dequeue_from, dequeue_output,
}
use fastvideo.Passthrough.Order.{settled}

-- The converter, with the ratio's denominator.
abbrev pub converter : Sink → Option Convert × ℕ
converter s = (s.copy, s.denominator)

-- The converter of the state that a call leaves, and that of `s` where it leaves none.
abbrev left_by_queue : Sink → Outcome (ℤ × Sink) → Option Convert × ℕ
left_by_queue s0 (done (r, s)) = converter s
left_by_queue s0 fault = converter s0
left_by_queue s0 endless = converter s0

finish_queue-converter :
    (s : Sink) (id : ℕ) (b : Buffer) (used flags : ℕ)
    → left_by_queue s (finish_queue s id b used flags) ≡ converter s
unfolding finish_queue insert_last
finish_queue-converter s id b used flags = ground arith

copy_put-converter :
    (s : Sink) (d : Source) (cur id : ℕ) (b : Buffer) (flags : ℕ) (copy : Outcome (Buffer × ℕ))
    → left_by_queue s (copy_put s d cur id b flags copy) ≡ converter s
unfolding copy_put finish_queue insert_last
copy_put-converter s d cur id b flags fault = refl
copy_put-converter s d cur id b flags endless = refl
copy_put-converter s d cur id b flags (done (dst, used)) = ground arith

copy_queue-converter :
    (s : Sink) (d : Source) (id : ℕ) (b : Buffer) (used flags : ℕ) (cur : Option ℕ)
    → left_by_queue s (copy_queue s d id b used flags cur) ≡ converter s
unfolding copy_queue copy_into
copy_queue-converter s d id b used flags none = refl
copy_queue-converter s d id b used flags (some cur) = at_buffer (get_elem? d.buffers cur)
  where
    at_buffer :
        (here : Option Buffer)
        → left_by_queue s (copy_into s d cur id b used flags here) ≡ converter s
    at_buffer none = refl
    at_buffer (some dst) = copy_put-converter s d cur id b flags (copy_buffer s b dst used)

queue_dup-converter :
    (s : Sink) (id : ℕ) (b : Buffer) (used flags : ℕ) (dup : Option Source)
    → left_by_queue s (queue_dup s id b used flags dup) ≡ converter s
unfolding queue_dup
queue_dup-converter s id b used flags none = finish_queue-converter s id b used flags
queue_dup-converter s id b used flags (some d) =
    elim s.state.dryrun
      as (λ dry.
        left_by_queue s (
          if dry
          then finish_queue s id b used flags
          else copy_queue s d id b used flags d.curbuffer)
        ≡ converter s) [
          | true ↦ finish_queue-converter s id b used flags
          | false ↦ copy_queue-converter s d id b used flags d.curbuffer
        ]

queue_at-converter :
    (s : Sink) (id : ℕ) (mem : Option (List ℕ)) (used flags : ℕ) (here : Option Buffer)
    → left_by_queue s (queue_at s id mem used flags here) ≡ converter s
unfolding queue_at queue_buffer
queue_at-converter s id mem used flags none = refl
queue_at-converter s id mem used flags (some b) =
    elim (is_dequeued b.state)
      as (λ free.
        left_by_queue s (
          if free
          then queue_buffer s id b mem used flags
          else done (negsuc 0, record s { errno = eagain }))
        ≡ converter s) [
          | true ↦
              queue_dup-converter s id (record b { state = queued; mem = given mem b.mem })
                (asked used b.size) flags s.dup
          | false ↦ refl
        ]

pub settled-converter : (s : Sink) → converter (settled s) ≡ converter s
unfolding settled take_shoot take_controls
settled-converter s = ground arith

-- For a call that leaves the state `s1`.
pub queue_output-converter :
    (s s1 : Sink) (r : ℤ) (id : ℕ) (mem : Option (List ℕ)) (used flags : ℕ)
    → queue_output s id mem used flags ≡ done (r, s1)
    → converter s1 ≡ converter s
unfolding queue_output settled
queue_output-converter s s1 r id mem used flags ran =
    sym (ap (left_by_queue (settled s)) ran)
    ∙ queue_at-converter (settled s) id mem used flags (get_elem? (settled s).buffers id)
    ∙ settled-converter s

abbrev left_by_dequeue : Sink → Outcome (ℤ × Option Frame × Sink) → Option Convert × ℕ
left_by_dequeue s0 (done (r, f, s)) = converter s
left_by_dequeue s0 fault = converter s0
left_by_dequeue s0 endless = converter s0

end_shoot-converter : (s : Sink) → converter (end_shoot s) ≡ converter s
unfolding end_shoot
end_shoot-converter s = ground arith

give_copy-converter :
    (s : Sink) (d : Source) (id : ℕ) (b : Buffer) (cur : Option ℕ)
    → left_by_dequeue s (give_copy s d id b cur) ≡ converter s
unfolding give_copy give_at give_frame
give_copy-converter s d id b none = refl
give_copy-converter s d id b (some cur) = ground arith

dequeue_dup-converter :
    (s : Sink) (id : ℕ) (b : Buffer) (dup : Option Source)
    → left_by_dequeue s (dequeue_dup s id b dup) ≡ converter s
unfolding dequeue_dup give_frame end_shoot give_copy give_at
dequeue_dup-converter s id b none = end_shoot-converter s
dequeue_dup-converter s id b (some d) =
    ground (arith, end_shoot-converter s, give_copy-converter (end_shoot s) d id b d.curbuffer)

dequeue_from-converter :
    (s : Sink) (cur : Option ℕ) → left_by_dequeue s (dequeue_from s cur) ≡ converter s
unfolding dequeue_from dequeue_at
dequeue_from-converter s none = refl
dequeue_from-converter s (some id) = at_buffer (get_elem? s.buffers id)
  where
    at_buffer : (here : Option Buffer) → left_by_dequeue s (dequeue_at s id here) ≡ converter s
    at_buffer none = refl
    at_buffer (some b) =
        elim (is_ready b.state)
          as (λ waits.
            left_by_dequeue s (if waits then dequeue_dup s id b s.dup else done (try_again s))
            ≡ converter s) [ true ↦ dequeue_dup-converter s id b s.dup | false ↦ refl ]

-- For a call that leaves the state `r.2`.
pub dequeue_output-converter :
    (s : Sink) (r : ℤ × Option Frame × Sink)
    → dequeue_output s ≡ done r
    → converter r.2 ≡ converter s
unfolding dequeue_output
dequeue_output-converter s r ran =
    sym (ap (left_by_dequeue s) ran) ∙ dequeue_from-converter s s.curbuffer
