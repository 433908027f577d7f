-- ===== src/Camera/Stream.antt =====
-- `sv4l2_queue`, `sv4l2_dequeue`, `sv4l2_start`, `sv4l2_stop`, `sv4l2_fd` and `sv4l2_type` of src/sv4l2.c.
pub mod Started
pub mod Given
pub mod Periodic
pub mod Ready
use fastvideo.Buffers.{Outcome, done, fault, endless}
use fastvideo.Prelude.{
  ℕ, zero, suc, ◌+◌, ◌^◌, ◌%◌, List, [], ◌∷◌, Bool, true, false, not, ◌&&◌, Option, none, some, ltb,
  ◌==◌, if◌then◌else◌, get_elem?, get_or, set, bit_or,
}
use fastvideo.Prelude.Int.{ℤ, pos, negsuc}
use fastvideo.Camera.{BufType, CameraMode, video_capture, capture_mplane, meta_capture}
use fastvideo.Camera.Memory.{CameraBuffer, MemoryKind, is_userptr, set_plane}

-- What `VIDIOC_DQBUF` fills in of `struct v4l2_buffer`; `plane_bytesused` is that of the first plane.
pub record DequeuedBuffer : Type 0 where
  pub index : ℕ
  pub bytesused : ℕ
  pub plane_bytesused : ℕ
  pub keyframe : Bool

-- `VIDIOC_QBUF`, which may fill in the buffer, `VIDIOC_DQBUF`, `VIDIOC_STREAMON` and `VIDIOC_STREAMOFF` for a type,
-- and `VIDIOC_S_EXT_CTRLS` for one control, whose value is 0. The state holds the error number too.
pub record StreamDriver : Type 1 where
  pub State : Type 0
  pub qbuf : State → CameraBuffer → ℤ × CameraBuffer × State
  pub dqbuf : State → BufType → MemoryKind → Option DequeuedBuffer × State
  pub streamon : State → BufType → Bool × State
  pub streamoff : State → BufType → Bool × State
  pub set_control : State → ℕ → Bool × State

-- `V4L2_t` and, after `has_periodic` (whether `periodicfunc` is set), the fields of its configuration. The counter is the
-- pattern of an `int`.
pub record Camera (d : StreamDriver) : Type 0 where
  pub fd : ℤ
  pub kind : BufType
  pub mode : CameraMode
  pub nbuffers : ℕ
  pub buffers : List CameraBuffer
  pub periodic : ℕ
  pub has_periodic : Bool
  pub config_periodic : ℕ
  pub periodiccontrol : ℕ
  pub driver : d.State

-- What `sv4l2_dequeue` writes through its pointers; the flags are joined to those that are there.
pub record CameraFrame : Type 0 where
  pub mem : Option ℕ
  pub bytesused : ℕ
  pub flags : ℕ

-- The types whose buffers are queued before the stream starts.
abbrev pub is_capturing : BufType → Bool
is_capturing video_capture = true
is_capturing capture_mplane = true
is_capturing meta_capture = true
is_capturing _ = false

-- What the arguments change of the buffer; the kind of memory is that of the first buffer.
unfoldable pub fill_buffer : CameraBuffer → CameraBuffer → Option ℕ → ℕ → CameraBuffer
unfolding set_plane
fill_buffer first b mem bytesused =
    let used : CameraBuffer =
      if ltb 0 bytesused then record b { bytesused = bytesused % 2 ^ 32 } else b in
    elim mem [
      | none ↦ used
      | some address ↦ if is_userptr first.memory then set_plane used 0 address bytesused else used
    ]

module _ (d : StreamDriver) where
  unfoldable pub control_set : Camera d → Bool × d.State → Camera d
  control_set dev (true, s) = record dev { driver = s }
  control_set dev (false, s) = record dev { driver = s; periodiccontrol = 0; has_periodic = false }

  -- `_v4l2_periodiccontrol`
  unfoldable pub periodiccontrol : Camera d → Camera d
  unfolding control_set
  periodiccontrol dev = control_set dev (d.set_control dev.driver dev.periodiccontrol)

  unfoldable pub count_queue : Camera d → Camera d
  unfolding periodiccontrol
  count_queue dev =
      if not (dev.config_periodic == 0) && dev.has_periodic && (dev.periodic == dev.config_periodic)
      then periodiccontrol (record dev { periodic = 0 })
      else record dev { periodic = (dev.periodic + 1) % 2 ^ 32 }

  unfoldable pub queued_buffer : Camera d → ℕ → ℤ × CameraBuffer × d.State → Outcome (ℤ × Camera d)
  queued_buffer dev index (ret, b, s) =
      done (ret, record dev { buffers = set dev.buffers index b; driver = s })

  unfoldable pub queue_filled : Camera d → ℕ → CameraBuffer → Outcome (ℤ × Camera d)
  unfolding count_queue queued_buffer
  queue_filled dev index b =
      let dev1 : Camera d = count_queue dev in queued_buffer dev1 index (d.qbuf dev1.driver b)

  unfoldable pub queue_found :
      Camera d → ℕ → Option ℕ → ℕ → Option CameraBuffer → Outcome (ℤ × Camera d)
  unfolding queue_filled fill_buffer
  queue_found dev index mem bytesused none = fault
  queue_found dev index mem bytesused (some b) =
      queue_filled dev index (fill_buffer (get_or dev.buffers 0 b) b mem bytesused)

  -- `sv4l2_queue`; the flags change nothing.
  unfoldable pub sv4l2_queue : Camera d → ℕ → Option ℕ → ℕ → Outcome (ℤ × Camera d)
  unfolding queue_found
  sv4l2_queue dev index mem bytesused =
      queue_found dev index mem bytesused (get_elem? dev.buffers index)

  unfoldable pub dequeued_buffer :
      Camera d
      → ℕ
      → DequeuedBuffer
      → Option CameraBuffer
      → Outcome (ℤ × Option CameraFrame × Camera d)
  dequeued_buffer dev flags q none = fault
  dequeued_buffer dev flags q (some b) = done (
    pos q.index,
    some (record {
      mem = get_or b.map 0 none;
      bytesused = if dev.mode.mplane then q.plane_bytesused else q.bytesused;
      flags = if q.keyframe then bit_or flags 0x8 else flags;
    }),
    dev,
  )

  unfoldable pub after_dqbuf :
      Camera d → ℕ → Option DequeuedBuffer × d.State → Outcome (ℤ × Option CameraFrame × Camera d)
  unfolding dequeued_buffer
  after_dqbuf dev flags (none, s) = done (negsuc 0, none, record dev { driver = s })
  after_dqbuf dev flags (some q, s) =
      dequeued_buffer (record dev { driver = s }) flags q (get_elem? dev.buffers q.index)

  unfoldable pub dequeue_first :
      Camera d → ℕ → Option CameraBuffer → Outcome (ℤ × Option CameraFrame × Camera d)
  unfolding after_dqbuf
  dequeue_first dev flags none = fault
  dequeue_first dev flags (some first) =
      after_dqbuf dev flags (d.dqbuf dev.driver dev.kind first.memory)

  -- `sv4l2_dequeue`, with the flags that are there before it.
  unfoldable pub sv4l2_dequeue : Camera d → ℕ → Outcome (ℤ × Option CameraFrame × Camera d)
  unfolding dequeue_first
  sv4l2_dequeue dev flags = dequeue_first dev flags (get_elem? dev.buffers 0)

  -- Buffers are queued from `index` on, up to the first that fails.
  unfoldable pub queue_buffers : ℕ → ℕ → Camera d → Outcome (ℤ × Camera d)
  queue_buffers zero index dev = done (pos 0, dev)
  queue_buffers (suc n) index dev = elim (sv4l2_queue dev index none 0) [
    | fault ↦ fault
    | endless ↦ endless
    | done answer ↦
        let (ret, dev1) = answer in
        elim ret [ pos zero ↦ queue_buffers n (index + 1) dev1 | _ ↦ done (negsuc 0, dev1) ]
  ]

  unfoldable pub switched : Camera d → Bool × d.State → ℤ × Camera d
  switched dev (true, s) = (pos 0, record dev { driver = s })
  switched dev (false, s) = (negsuc 0, record dev { driver = s })

  unfoldable pub stream_queued : Outcome (ℤ × Camera d) → Outcome (ℤ × Camera d)
  unfolding switched
  stream_queued (done (pos n, dev)) = done (switched dev (d.streamon dev.driver dev.kind))
  stream_queued (done (negsuc n, dev)) = done (negsuc n, dev)
  stream_queued fault = fault
  stream_queued endless = endless

  -- `sv4l2_start`
  unfoldable pub sv4l2_start : Camera d → Outcome (ℤ × Camera d)
  unfolding stream_queued queue_buffers
  sv4l2_start dev =
      stream_queued
        (if is_capturing dev.kind then queue_buffers dev.nbuffers 0 dev else done (pos 0, dev))

  -- `sv4l2_stop`
  unfoldable pub sv4l2_stop : Camera d → ℤ × Camera d
  unfolding switched
  sv4l2_stop dev = switched dev (d.streamoff dev.driver dev.kind)

  -- `sv4l2_fd`
  unfoldable pub sv4l2_fd : Camera d → ℕ → ℤ
  sv4l2_fd dev writer = if writer == 0 then dev.fd else negsuc 0

  -- `sv4l2_type`
  unfoldable pub sv4l2_type : Camera d → BufType
  sv4l2_type dev = dev.kind
