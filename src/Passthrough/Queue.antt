-- ===== src/Passthrough/Queue.antt =====
-- A frame into the main device of src/spassthrough.c: `_passthrough_copy` and `spassthrough_queue_output`.
use fastvideo.Buffers.{BufferState, dequeued, ready, queued, Outcome, done, fault, endless, eagain}
use fastvideo.Prelude.{
  ℕ, zero, suc, ◌+◌, ◌-◌, ◌%◌, ◌^◌, Bool, true, false, ◌||◌, List, Option, none, some,
  if◌then◌else◌, ltb, ◌==◌, length, get_elem?, set,
}
use fastvideo.Prelude.Int.{ℤ, pos, negsuc}
use fastvideo.Passthrough.{
  Mode, Convert, Buffer, Source, Sink, put_source, put_sink, signal, resized,
}

abbrev pub is_dequeued : BufferState → Bool
is_dequeued dequeued = true
is_dequeued _ = false

abbrev pub is_queued : BufferState → Bool
is_queued queued = true
is_queued _ = false

unfoldable pub copy_result : Buffer → Outcome (Option (List ℕ) × ℕ) → Outcome (Buffer × ℕ)
copy_result dst (done (mem, written)) = done (record dst { mem = mem }, written)
copy_result dst fault = fault
copy_result dst endless = endless

unfoldable pub copy_with : Sink → Buffer → Buffer → ℕ → Option Convert → Outcome (Buffer × ℕ)
unfolding copy_result
copy_with s src dst bytesused none =
    done (record dst { mem = src.mem; dma_buf = src.dma_buf }, src.bytesused)
copy_with s src dst bytesused (some convert) =
    if ltb dst.size (resized s bytesused)
    then done (dst, 2 ^ 64 - 1)
    else copy_result dst (convert src.mem dst.mem bytesused src.stride)

-- `_passthrough_copy`: the destination, and the number that the function returns.
unfoldable pub copy_buffer : Sink → Buffer → Buffer → ℕ → Outcome (Buffer × ℕ)
unfolding copy_with
copy_buffer s src dst bytesused = copy_with s src dst bytesused s.copy

-- The settings of the other processes, taken over at each frame: their bits are added, and are gone.
abbrev pub add_mode : Mode → Mode → Mode
add_mode a b = record {
  shoot = a.shoot || b.shoot;
  shooting = a.shooting || b.shooting;
  tee = a.tee || b.tee;
  dryrun = a.dryrun || b.dryrun;
}

abbrev pub no_mode : Mode
no_mode = record { shoot = false; shooting = false; tee = false; dryrun = false }

unfoldable pub take_controls : Sink → Sink
take_controls s = elim s.controls [
  | none ↦ s
  | some c ↦
      let s1 : Sink = record s {
        state = add_mode s.state c.state;
        controls = some (record c { state = no_mode });
      } in
      let count : ℕ = (s.periodic + 1) % 2 ^ 32 in
      if c.periodic == 0
      then s1
      else if count == c.periodic
      then record s1 { periodic = 0; state = record s1.state { shoot = true } }
      else record s1 { periodic = count }
]

-- `MODE_SHOOT`: the next frame goes to the duplicated device.
unfoldable pub take_shoot : Sink → Sink
take_shoot s = elim s.dup [
  | none ↦ s
  | some d ↦
      if s.state.shoot
      then record s { state = record s.state { dryrun = false; shoot = false; shooting = true } }
      else s
]

-- Walks to the last buffer from `id` on, and links `new` behind it.
unfoldable pub link_last : ℕ → List Buffer → ℕ → ℕ → Outcome (List Buffer)
link_last zero buffers id new = endless
link_last (suc fuel) buffers id new = elim (get_elem? buffers id) [
  | none ↦ fault
  | some b ↦ elim b.next [
    | none ↦ done (set buffers id (record b { next = some new }))
    | some next ↦ link_last fuel buffers next new
  ]
]

-- The new frame becomes the last one of the list.
unfoldable pub insert_last : Sink → ℕ → Outcome Sink
unfolding link_last
insert_last s id = elim s.curbuffer [
  | none ↦ done (record s { curbuffer = some id })
  | some first ↦ elim (link_last (suc (length s.buffers)) s.buffers first id) [
    | done buffers ↦ done (record s { buffers = buffers })
    | fault ↦ fault
    | endless ↦ endless
  ]
]

-- The end of the queue: the frame is ready, and waits in the list.
unfoldable pub finish_queue : Sink → ℕ → Buffer → ℕ → ℕ → Outcome (ℤ × Sink)
unfolding insert_last
finish_queue s id b bytesused flags =
    let b1 : Buffer = record b {
      bytesused = bytesused;
      flags = flags;
      state = ready;
      next = none;
    } in
    elim (insert_last (put_sink s id b1) id) [
      | done s' ↦ done (pos 0, record s' { completion = signal s'.completion })
      | fault ↦ fault
      | endless ↦ endless
    ]

-- The copy for the buffer at `cur` of the duplicated device `d` is stored, and the frame's end follows.
unfoldable pub copy_put :
    Sink → Source → ℕ → ℕ → Buffer → ℕ → Outcome (Buffer × ℕ) → Outcome (ℤ × Sink)
unfolding finish_queue
copy_put s d cur id b flags (done (dst, used)) =
    finish_queue (record s { dup = some (put_source d cur (record dst { bytesused = used })) }) id b
      used flags
copy_put s d cur id b flags fault = fault
copy_put s d cur id b flags endless = endless

-- The copy into the buffer `here`.
unfoldable pub copy_into :
    Sink → Source → ℕ → ℕ → Buffer → ℕ → ℕ → Option Buffer → Outcome (ℤ × Sink)
unfolding copy_buffer copy_put
copy_into s d cur id b bytesused flags none = fault
copy_into s d cur id b bytesused flags (some dst) =
    copy_put s d cur id b flags (copy_buffer s b dst bytesused)

-- The buffer to copy into is the one at `curbuffer`.
unfoldable pub copy_queue : Sink → Source → ℕ → Buffer → ℕ → ℕ → Option ℕ → Outcome (ℤ × Sink)
unfolding copy_into
copy_queue s d id b bytesused flags none = done (negsuc 0, put_sink s id b)
copy_queue s d id b bytesused flags (some cur) =
    copy_into s d cur id b bytesused flags (get_elem? d.buffers cur)

unfoldable pub queue_dup : Sink → ℕ → Buffer → ℕ → ℕ → Option Source → Outcome (ℤ × Sink)
unfolding copy_queue
queue_dup s id b bytesused flags none = finish_queue s id b bytesused flags
queue_dup s id b bytesused flags (some d) =
    if s.state.dryrun
    then finish_queue s id b bytesused flags
    else copy_queue s d id b bytesused flags d.curbuffer

abbrev pub given : Option (List ℕ) → Option (List ℕ) → Option (List ℕ)
given (some mem) old = some mem
given none old = old

abbrev pub asked : ℕ → ℕ → ℕ
asked bytesused size = if bytesused == 0 then size else bytesused

unfoldable pub queue_buffer : Sink → ℕ → Buffer → Option (List ℕ) → ℕ → ℕ → Outcome (ℤ × Sink)
unfolding queue_dup
queue_buffer s id b mem bytesused flags =
    queue_dup s id (record b { state = queued; mem = given mem b.mem }) (asked bytesused b.size)
      flags s.dup

unfoldable pub queue_at : Sink → ℕ → Option (List ℕ) → ℕ → ℕ → Option Buffer → Outcome (ℤ × Sink)
unfolding queue_buffer
queue_at s id mem bytesused flags none = fault
queue_at s id mem bytesused flags (some b) =
    if is_dequeued b.state
    then queue_buffer s id b mem bytesused flags
    else done (negsuc 0, record s { errno = eagain })

-- `spassthrough_queue_output`, without a branch device.
unfoldable pub queue_output : Sink → ℕ → Option (List ℕ) → ℕ → ℕ → Outcome (ℤ × Sink)
unfolding take_controls take_shoot queue_at
queue_output s id mem bytesused flags =
    let s1 : Sink = take_shoot (take_controls s) in
    queue_at s1 id mem bytesused flags (get_elem? s1.buffers id)

-- `spassthrough_queue` of the main device.
unfoldable pub queue : Sink → ℤ → Option (List ℕ) → ℕ → ℕ → Outcome (ℤ × Sink)
unfolding queue_output
queue s (negsuc n) mem bytesused flags = done (negsuc 0, s)
queue s (pos id) mem bytesused flags =
    if ltb id (length s.buffers) then queue_output s id mem bytesused flags else done (negsuc 0, s)
