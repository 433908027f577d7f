-- ===== src/Passthrough/Targets.antt =====
-- The buffer of the duplicated device stays in place through the operations of src/spassthrough.c.
use fastvideo.Buffers.{ready, queued, Outcome, done, fault, endless, eagain, is_ready}
use fastvideo.Prelude.{
  ℕ, Bool, true, false, List, [], ◌∷◌, Option, none, some, if◌then◌else◌, get_elem?, ◌≡◌, set, refl,
  ap, ◌∙◌, zero, suc, arith,
}
use fastvideo.Prelude.Int.{ℤ, negsuc}
use fastvideo.Passthrough.{Buffer, Source, Sink, put_source, signal}
use fastvideo.Passthrough.Queue.{
  is_dequeued, is_queued, insert_last, finish_queue, copy_buffer, copy_put, copy_into, copy_queue,
  queue_dup, given, asked, queue_at, queue_buffer, queue_output,
}
use fastvideo.Passthrough.Dequeue.{
  Frame, end_shoot, give_frame, try_again, give_at, give_copy, dequeue_dup, dequeue_at,
  dequeue_from, dequeue_output,
}
use fastvideo.Passthrough.Order.{settled, settled-dup}
use fastvideo.Passthrough.Enqueue.{has_target, target_at}

-- The duplicated device of the state that a call leaves has a buffer.
abbrev pub keeps_target : Outcome (ℤ × Sink) → Bool
keeps_target (done (r, s)) = has_target s.dup
keeps_target fault = true
keeps_target endless = true

target-set :
    (bs : List Buffer) (i : ℕ) (b : Buffer) (cur : Option ℕ)
    → target_at bs cur ≡ true
    → target_at (set bs i b) cur ≡ true
target-set bs i b none h = h
target-set [] i b (some cur) h = h
target-set (x ∷ bs) zero b (some zero) h = refl
target-set (x ∷ bs) zero b (some (suc cur)) h = h
target-set (x ∷ bs) (suc i) b (some zero) h = refl
target-set (x ∷ bs) (suc i) b (some (suc cur)) h = target-set bs i b (some cur) h

finish_queue-target :
    (s : Sink) (id : ℕ) (b : Buffer) (used flags : ℕ)
    → has_target s.dup ≡ true
    → keeps_target (finish_queue s id b used flags) ≡ true
unfolding finish_queue insert_last
finish_queue-target s id b used flags h = ground (arith, h)

copy_put-target :
    (s : Sink) (d : Source) (cur id : ℕ) (b : Buffer) (flags : ℕ) (copy : Outcome (Buffer × ℕ))
    → target_at d.buffers d.curbuffer ≡ true
    → keeps_target (copy_put s d cur id b flags copy) ≡ true
unfolding copy_put
copy_put-target s d cur id b flags fault h = refl
copy_put-target s d cur id b flags endless h = refl
copy_put-target s d cur id b flags (done (dst, used)) h =
    finish_queue-target
      (record s { dup = some (put_source d cur (record dst { bytesused = used })) }) id b used flags
      (target-set d.buffers cur (record dst { bytesused = used }) d.curbuffer h)

copy_into-target :
    (s : Sink) (d : Source) (cur id : ℕ) (b : Buffer) (used flags : ℕ) (here : Option Buffer)
    → target_at d.buffers d.curbuffer ≡ true
    → keeps_target (copy_into s d cur id b used flags here) ≡ true
unfolding copy_into
copy_into-target s d cur id b used flags none h = refl
copy_into-target s d cur id b used flags (some dst) h =
    copy_put-target s d cur id b flags (copy_buffer s b dst used) h

copy_queue-target :
    (s : Sink) (d : Source) (id : ℕ) (b : Buffer) (used flags : ℕ) (cur : Option ℕ)
    → target_at d.buffers d.curbuffer ≡ true
    → has_target s.dup ≡ true
    → keeps_target (copy_queue s d id b used flags cur) ≡ true
unfolding copy_queue
copy_queue-target s d id b used flags none h k = k
copy_queue-target s d id b used flags (some cur) h k =
    copy_into-target s d cur id b used flags (get_elem? d.buffers cur) h

queue_dup-target :
    (s : Sink) (id : ℕ) (b : Buffer) (used flags : ℕ) (dup : Option Source)
    → has_target dup ≡ true
    → has_target s.dup ≡ true
    → keeps_target (queue_dup s id b used flags dup) ≡ true
unfolding queue_dup
queue_dup-target s id b used flags none h k = finish_queue-target s id b used flags k
queue_dup-target s id b used flags (some d) h k =
    elim s.state.dryrun
      as (λ dry.
        keeps_target (
          if dry
          then finish_queue s id b used flags
          else copy_queue s d id b used flags d.curbuffer)
        ≡ true) [
          | true ↦ finish_queue-target s id b used flags k
          | false ↦ copy_queue-target s d id b used flags d.curbuffer h k
        ]

queue_at-target :
    (s : Sink) (id : ℕ) (mem : Option (List ℕ)) (used flags : ℕ) (here : Option Buffer)
    → has_target s.dup ≡ true
    → keeps_target (queue_at s id mem used flags here) ≡ true
unfolding queue_at queue_buffer
queue_at-target s id mem used flags none h = refl
queue_at-target s id mem used flags (some b) h =
    elim (is_dequeued b.state)
      as (λ free.
        keeps_target (
          if free
          then queue_buffer s id b mem used flags
          else done (negsuc 0, record s { errno = eagain }))
        ≡ true) [
          | true ↦
              queue_dup-target s id (record b { state = queued; mem = given mem b.mem })
                (asked used b.size) flags s.dup h h
          | false ↦ h
        ]

pub queue_output-target :
    (s : Sink) (id : ℕ) (mem : Option (List ℕ)) (used flags : ℕ)
    → has_target s.dup ≡ true
    → keeps_target (queue_output s id mem used flags) ≡ true
unfolding queue_output settled
queue_output-target s id mem used flags h =
    queue_at-target (settled s) id mem used flags (get_elem? (settled s).buffers id)
      (ap has_target (settled-dup s) ∙ h)

abbrev pub leaves_target : Outcome (ℤ × Option Frame × Sink) → Bool
leaves_target (done (r, f, s)) = has_target s.dup
leaves_target fault = true
leaves_target endless = true

end_shoot-dup : (s : Sink) → (end_shoot s).dup ≡ s.dup
unfolding end_shoot
end_shoot-dup s = ground arith

give_at-target :
    (s : Sink) (d : Source) (cur id : ℕ) (b : Buffer) (here : Option Buffer)
    → target_at d.buffers d.curbuffer ≡ true
    → has_target s.dup ≡ true
    → leaves_target (give_at s d cur id b here) ≡ true
unfolding give_at give_frame
give_at-target s d cur id b none h k = refl
give_at-target s d cur id b (some dst) h k = either_way (is_queued dst.state)
  where
    given_target :
        target_at (set d.buffers cur (record dst { flags = b.flags; state = ready })) d.curbuffer
        ≡ true
    given_target =
        target-set d.buffers cur (record dst { flags = b.flags; state = ready }) d.curbuffer h

    either_way :
        (waits : Bool)
        → leaves_target (
            if waits
            then done (
                give_frame
                  (record s {
                    dup =
                        some
                          (record (put_source d cur
                            (record dst { flags = b.flags; state = ready })) {
                              completion = signal d.completion;
                            });
                  })
                  id
                  b)
            else done (try_again s))
          ≡ true
    either_way true = given_target
    either_way false = k

give_copy-target :
    (s : Sink) (d : Source) (id : ℕ) (b : Buffer) (cur : Option ℕ)
    → target_at d.buffers d.curbuffer ≡ true
    → has_target s.dup ≡ true
    → leaves_target (give_copy s d id b cur) ≡ true
unfolding give_copy
give_copy-target s d id b none h k = refl
give_copy-target s d id b (some cur) h k = give_at-target s d cur id b (get_elem? d.buffers cur) h k

dequeue_dup-target :
    (s : Sink) (id : ℕ) (b : Buffer) (dup : Option Source)
    → has_target dup ≡ true
    → has_target s.dup ≡ true
    → leaves_target (dequeue_dup s id b dup) ≡ true
unfolding dequeue_dup give_frame
dequeue_dup-target s id b none h k = ap has_target (end_shoot-dup s) ∙ k
dequeue_dup-target s id b (some d) h k =
    elim s.state.dryrun
      as (λ dry.
        leaves_target (
          if dry
          then done (give_frame (end_shoot s) id b)
          else give_copy (end_shoot s) d id b d.curbuffer)
        ≡ true) [
          | true ↦ ap has_target (end_shoot-dup s) ∙ k
          | false ↦
              give_copy-target (end_shoot s) d id b d.curbuffer h
                (ap has_target (end_shoot-dup s) ∙ k)
        ]

dequeue_at-target :
    (s : Sink) (id : ℕ) (here : Option Buffer)
    → has_target s.dup ≡ true
    → leaves_target (dequeue_at s id here) ≡ true
unfolding dequeue_at
dequeue_at-target s id none h = refl
dequeue_at-target s id (some b) h =
    elim (is_ready b.state)
      as (λ waits.
        leaves_target (if waits then dequeue_dup s id b s.dup else done (try_again s)) ≡ true) [
          | true ↦ dequeue_dup-target s id b s.dup h h
          | false ↦ h
        ]

dequeue_from-target :
    (s : Sink) (cur : Option ℕ)
    → has_target s.dup ≡ true
    → leaves_target (dequeue_from s cur) ≡ true
unfolding dequeue_from
dequeue_from-target s none h = h
dequeue_from-target s (some id) h = dequeue_at-target s id (get_elem? s.buffers id) h

pub dequeue_output-target :
    (s : Sink) → has_target s.dup ≡ true → leaves_target (dequeue_output s) ≡ true
unfolding dequeue_output
dequeue_output-target s h = dequeue_from-target s s.curbuffer h
