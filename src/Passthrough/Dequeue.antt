-- ===== src/Passthrough/Dequeue.antt =====
-- The other operations of src/spassthrough.c: `spassthrough_dequeue_output` of the main device, both
-- operations of the duplicated device, and the start of both.
use mathlib.Core.List.{map}
use fastvideo.Buffers.{dequeued, ready, queued, Outcome, done, fault, eagain, is_ready}
use fastvideo.Prelude.{
  ℕ, ◌+◌, ◌%◌, true, false, List, [], ◌∷◌, Option, none, some, if◌then◌else◌, ◌==◌, length,
  get_elem?,
}
use fastvideo.Prelude.Int.{ℤ, pos, negsuc}
use fastvideo.Passthrough.{Buffer, Source, Sink, put_source, put_sink, signal, drain, resized}
use fastvideo.Passthrough.Queue.{is_dequeued, is_queued}

-- What a dequeue writes through its pointers.
pub record Frame : Type 0 where
  pub mem : Option (List ℕ)
  pub bytesused : ℕ
  pub flags : ℕ

-- `MODE_SHOOTING`: one frame has gone to the duplicated device, and no other follows it.
unfoldable pub end_shoot : Sink → Sink
end_shoot s =
    if s.state.shooting
    then record s { state = record s.state { dryrun = true; shooting = false } }
    else s

-- The frame `b` at `id` leaves the list.
unfoldable pub give_frame : Sink → ℕ → Buffer → ℤ × Option Frame × Sink
give_frame s id b = (
  pos id,
  some (record { mem = b.mem; bytesused = resized s b.bytesused; flags = b.flags }),
  record (put_sink s id (record b { state = dequeued })) {
    curbuffer = b.next;
    completion = drain s.completion;
  },
)

abbrev pub try_again : Sink → ℤ × Option Frame × Sink
try_again s = (negsuc 0, none, record s { errno = eagain })

-- The duplicated device `d` is told of its copy of the frame, in the buffer `here` at `cur`, unless that
-- buffer is not its own to give.
unfoldable pub give_at :
    Sink → Source → ℕ → ℕ → Buffer → Option Buffer → Outcome (ℤ × Option Frame × Sink)
unfolding give_frame
give_at s d cur id b none = fault
give_at s d cur id b (some dst) =
    if is_queued dst.state
    then done (
        give_frame
          (record s {
            dup = some (record (put_source d cur (record dst { flags = b.flags; state = ready })) {
              completion = signal d.completion;
            });
          })
          id b)
    else done (try_again s)

unfoldable pub give_copy : Sink → Source → ℕ → Buffer → Option ℕ → Outcome (ℤ × Option Frame × Sink)
unfolding give_at
give_copy s d id b none = fault
give_copy s d id b (some cur) = give_at s d cur id b (get_elem? d.buffers cur)

-- Whether the other device takes part is decided before the shot ends.
unfoldable pub dequeue_dup : Sink → ℕ → Buffer → Option Source → Outcome (ℤ × Option Frame × Sink)
unfolding end_shoot give_copy
dequeue_dup s id b none = done (give_frame (end_shoot s) id b)
dequeue_dup s id b (some d) =
    if s.state.dryrun
    then done (give_frame (end_shoot s) id b)
    else give_copy (end_shoot s) d id b d.curbuffer

unfoldable pub dequeue_at : Sink → ℕ → Option Buffer → Outcome (ℤ × Option Frame × Sink)
unfolding dequeue_dup
dequeue_at s id none = fault
dequeue_at s id (some b) = if is_ready b.state then dequeue_dup s id b s.dup else done (try_again s)

unfoldable pub dequeue_from : Sink → Option ℕ → Outcome (ℤ × Option Frame × Sink)
unfolding dequeue_at
dequeue_from s none = done (try_again s)
dequeue_from s (some id) = dequeue_at s id (get_elem? s.buffers id)

-- `spassthrough_dequeue_output`, without a branch device.
unfoldable pub dequeue_output : Sink → Outcome (ℤ × Option Frame × Sink)
unfolding dequeue_from
dequeue_output s = dequeue_from s s.curbuffer

-- `spassthrough_dequeue_input`; the ratio of the duplicated device is 1.
unfoldable pub dequeue_input : Source → Outcome (ℤ × ℕ × Option Frame × Source)
dequeue_input d = elim d.curbuffer [
  | none ↦ fault
  | some id ↦ elim (get_elem? d.buffers id) [
    | none ↦ fault
    | some b ↦
        if is_ready b.state
        then done (
          pos id,
          0,
          some (record { mem = b.mem; bytesused = b.bytesused; flags = b.flags }),
          record (put_source d id (record b { state = dequeued })) {
            curbuffer = b.next;
            completion = drain d.completion;
          },
        )
        else done (negsuc 0, eagain, none, d)
  ]
]

-- `spassthrough_queue` of the duplicated device: `errno`, where it is set.
unfoldable pub queue_input : Source → ℤ → ℤ × ℕ × Source
queue_input d (negsuc n) = (negsuc 0, 0, d)
queue_input d (pos id) = elim (get_elem? d.buffers id) [
  | none ↦ (negsuc 0, 0, d)
  | some b ↦
      if is_dequeued b.state
      then (pos 0, 0, put_source d id (record b { state = queued }))
      else (negsuc 0, eagain, d)
]

-- `buffer_linkring` and the states, at the start of the duplicated device.
unfoldable pub link_ring : ℕ → ℕ → List Buffer → List Buffer
link_ring n i [] = []
link_ring n i (b ∷ bs) =
    record b { next = some ((i + 1) % n); state = queued } ∷ link_ring n (i + 1) bs

unfoldable pub start_source : Source → (event : Option ℕ) → Source
unfolding link_ring
start_source d event = record {
  buffers = link_ring (length d.buffers) 0 d.buffers;
  curbuffer = some 0;
  completion = elim d.completion [ none ↦ event | some n ↦ some n ];
}

abbrev pub free_buffer : Buffer → Buffer
free_buffer b = record b { state = dequeued }

-- Without a buffer to copy to, or with one of size 0, no copy is made.
unfoldable pub start_sink : Sink → (event : Option ℕ) → Outcome Sink
start_sink s event =
    let s1 : Sink = record s {
      buffers = map free_buffer s.buffers;
      completion = elim s.completion [ none ↦ event | some n ↦ some n ];
    } in
    elim s.copy [
      | none ↦ done s1
      | some convert ↦ elim s.dup [
        | none ↦ fault
        | some d ↦ elim (get_elem? d.buffers 0) [
          | none ↦ fault
          | some b ↦ if b.size == 0 then done (record s1 { copy = none }) else done s1
        ]
      ]
    ]
