-- ===== src/Mpegts/Device/Ops.antt =====
-- The operations of the device of src/smpegts.c on its buffers: `mpegts_queue`, `mpegts_dequeue`,
-- `mpegts_start`, `mpegts_stop`.
pub mod Dequeue
pub mod Queue
use fastvideo.Buffers.{
  BufferState, DeviceType, Outcome, dequeued, done, eagain, endless, enomem, fault, input, invalid,
  is_busy, is_ready, output, queued, ready,
}
use fastvideo.Prelude.{
  ◌*◌, ℕ, ◌^◌, zero, ◌∷◌, suc, ◌-◌, Bool, ◌/◌, true, ◌%◌, false, ◌+◌, not, ◌||◌, List, ◌&&◌, [],
  ◌==◌, Option, if◌then◌else◌, none, some, ltb, length, get_elem?, set,
}
use fastvideo.Prelude.Int.{ℤ, pos, negsuc, ltb_ℤ}
use fastvideo.Mpegts.Transport.{Proto}
use fastvideo.Mpegts.Device.{Dev, FrameBuffer}
use fastvideo.Mpegts.Device.Frame.{Now, pushdata}

abbrev pub is_dma : FrameBuffer → Bool
is_dma b = ltb 0 b.dma_buf

abbrev pub or_else : Option (List ℕ) → Option (List ℕ) → Option (List ℕ)
or_else (some mem) old = some mem
or_else none old = old

-- The scan of `mpegts_dequeue`: `left` buffers still to look at, from `currentid + i` on.
unfoldable pub find_ready : List FrameBuffer → ℕ → ℕ → ℕ → Option ℕ
find_ready buffers currentid zero i = none
find_ready buffers currentid (suc left) i =
    let id : ℕ = (currentid + i) % length buffers in
    let rest : Option ℕ = find_ready buffers currentid left (i + 1) in
    elim (get_elem? buffers id) [
      | none ↦ rest
      | some b ↦ if is_ready b.state then some id else rest
    ]

-- A dma buffer that is given back is unmapped.
abbrev pub given_back : FrameBuffer → FrameBuffer
given_back b = record b { mem = if is_dma b then none else b.mem; state = dequeued }

module _ (p : Proto) where
  open p use {Ctx, connect, close, flush}

  abbrev pub put_buffer : Dev Ctx → ℕ → FrameBuffer → Dev Ctx
  put_buffer dev id b = record dev { buffers = set dev.buffers id b }

  -- The failure path of the queue: a frame lost on `EAGAIN` gives its buffer back.
  unfoldable pub give_back : ℕ → FrameBuffer → Dev Ctx → Dev Ctx
  give_back id b dev = if dev.errno == eagain then put_buffer dev id (given_back b) else dev

  unfoldable pub queue_result : ℕ → FrameBuffer → ℤ × Dev Ctx → ℤ × Dev Ctx
  unfolding give_back
  queue_result id b (ret, dev) =
      if ltb_ℤ ret (pos 0) then (negsuc 0, give_back id b dev) else (pos 0, dev)

  unfoldable pub queue_bytes : Dev Ctx → ℕ → FrameBuffer → Now → List ℕ → Outcome (ℤ × Dev Ctx)
  unfolding queue_result
  queue_bytes dev id b now bytes = elim (pushdata p (put_buffer dev id b) id b bytes now) [
    | none ↦ endless
    | some result ↦ done (queue_result id b result)
  ]

  -- The queued buffer `b` is pushed; without memory there is nothing to read.
  unfoldable pub queue_push : Dev Ctx → ℕ → FrameBuffer → Now → Outcome (ℤ × Dev Ctx)
  unfolding queue_bytes
  queue_push dev id b now = elim b.mem [
    | none ↦ fault
    | some bytes ↦ queue_bytes dev id b now bytes
  ]

  -- A dma buffer is mapped, unless it has the memory `locked` already.
  abbrev pub queue_dma :
      Dev Ctx → ℕ → FrameBuffer → Option (List ℕ) → Now → Option (List ℕ) → Outcome (ℤ × Dev Ctx)
  queue_dma dev id b mapped now (some locked) =
      done (negsuc 0, record (put_buffer dev id b) { errno = enomem })
  queue_dma dev id b mapped now none =
      queue_push dev id (record b { mem = or_else mapped b.mem; state = queued }) now

  unfoldable pub queue_buffer :
      Dev Ctx → ℕ → FrameBuffer → Option (List ℕ) → Option (List ℕ) → Now → Outcome (ℤ × Dev Ctx)
  unfolding queue_push
  queue_buffer dev id b mem mapped now =
      if is_dma b
      then queue_dma dev id b mapped now b.mem
      else queue_push dev id (record b { mem = or_else mem b.mem; state = queued }) now

  -- `mpegts_queue`: `mapped` is what `mmap` gives for the buffer's dma memory.
  unfoldable pub queue :
      Dev Ctx → ℤ → Option (List ℕ) → ℕ → ℕ → Option (List ℕ) → Now → Outcome (ℤ × Dev Ctx)
  unfolding queue_buffer
  queue dev (negsuc n) mem size flags mapped now = done (negsuc 0, dev)
  queue dev (pos id) mem size flags mapped now =
      if ltb (length dev.buffers) id
      then done (negsuc 0, dev)
      else elim (get_elem? dev.buffers id) [
        | none ↦ fault
        | some b ↦
            if is_busy b.state
            then done (negsuc 0, record dev { errno = eagain })
            else queue_buffer dev id (record b { bytesused = size; flags = flags }) mem mapped now
      ]

  -- `_client_flushdata`, and the count of the frames, which ends a connection after `maxframes`.
  unfoldable pub count_frame : Dev Ctx → Dev Ctx
  count_frame dev =
      let frames : ℕ = (dev.frames + 1) % 2 ^ 32 in
      let dev1 : Dev Ctx =
        (if frames == dev.config.maxframes
          then record dev { frames = 0; ctx = (connect (close dev.ctx)).1 }
          else record dev { frames = frames }) in
      if dev1.frames == 2 ^ 32 - 1 then record dev1 { frames = 0 } else dev1

  -- What `mpegts_dequeue` returns, with what it writes through `mem` and `bytesused`.
  pub record Dequeued : Type 0 where
    pub ret : ℤ
    pub mem : Option (List ℕ)
    pub bytesused : ℕ
    pub dev : Dev Ctx

  unfoldable pub dequeue_buffer : Dev Ctx → ℕ → FrameBuffer → Option (List ℕ) → ℕ → Dequeued
  unfolding count_frame
  dequeue_buffer dev id b mem bytesused = record {
    ret = pos id;
    mem = elim mem [ none ↦ none | some old ↦ (given_back b).mem ];
    bytesused = if bytesused == 0 then bytesused else b.size;
    dev =
        put_buffer (count_frame (record dev { currentid = id; ctx = flush dev.ctx })) id
          (given_back b);
  }

  -- `mpegts_dequeue`, called with `*mem` and `*bytesused` as the caller has them.
  unfoldable pub dequeue : Dev Ctx → Option (List ℕ) → ℕ → Outcome Dequeued
  unfolding find_ready dequeue_buffer
  dequeue dev mem bytesused =
      if length dev.buffers == 0
      then fault
      else elim (find_ready dev.buffers dev.currentid (length dev.buffers) 0) [
        | none ↦ done (record {
          ret = negsuc 0;
          mem = mem;
          bytesused = bytesused;
          dev = record dev { errno = eagain };
        })
        | some id ↦ elim (get_elem? dev.buffers id) [
          | none ↦ fault
          | some b ↦ done (dequeue_buffer dev id b mem bytesused)
        ]
      ]

  -- `mpegts_start` and `mpegts_stop`: a failed connection is retried later, and start succeeds.
  unfoldable pub start : Dev Ctx → ℤ × Dev Ctx
  start dev = (pos 0, record dev { currentid = 0; ctx = (connect dev.ctx).1 })

  unfoldable pub stop : Dev Ctx → ℤ × Dev Ctx
  stop dev = (pos 0, record dev { ctx = close dev.ctx })
