-- ===== src/Camera/Request.antt =====
-- `sv4l2_requestbuffer_mmap`, `sv4l2_requestbuffer_dmabuf` and `sv4l2_requestbuffer_userptr` of src/sv4l2.c.
pub mod Export
pub mod Link
pub mod Plain
pub mod Granted
pub mod Exported
pub mod Shared
pub mod Destroy
pub mod Unmapped
pub mod Ask
use fastvideo.Buffers.{Outcome, done, fault, endless}
use fastvideo.Prelude.{
  ℕ, zero, suc, ◌+◌, ◌-◌, ◌^◌, List, [], ◌∷◌, Bool, true, false, not, ◌&&◌, Option, none, some, ltb,
  ◌==◌, if◌then◌else◌, length, get_or, set, take, drop, ◌++◌,
}
use fastvideo.Prelude.Int.{ℤ, pos, negsuc}
use fastvideo.Camera.{BufType}
use fastvideo.Camera.Memory.{
  CameraBuffer, MemoryKind, mmap, userptr, dmabuf, is_mmap, is_userptr, is_dmabuf, createbuffers,
  getdmafd, getsize, set_plane, map_plane, plane_at,
}

-- `VIDIOC_REQBUFS`, which answers a count, `VIDIOC_QUERYBUF`, which fills the buffer in, `VIDIOC_EXPBUF` for a type and
-- an index, and `mmap` of a length and an offset and `munmap` of an address and a length.
pub record BufferDriver (State : Type 0) : Type 0 where
  pub reqbufs : State → BufType → MemoryKind → ℕ → Option ℕ × State
  pub querybuf : State → CameraBuffer → Option CameraBuffer × State
  pub expbuf : State → BufType → ℕ → Option ℕ × State
  pub mmap : State → ℕ → ℕ → ℕ × State
  pub munmap : State → ℕ → ℕ → State

-- `MAP_FAILED`
abbrev pub map_failed : ℕ
map_failed = 2 ^ 64 - 1

-- The pointer `buffers`: null, to memory that was given back, or to an array.
pub data HeldBuffers : Type 0 where
  absent freed : HeldBuffers
  held : List CameraBuffer → HeldBuffers

-- The fields of `V4L2_t` that the buffers depend on; `config_nbuffers` is that of its configuration.
pub record Pool : Type 0 where
  pub kind : BufType
  pub master : Bool
  pub mplane : Bool
  pub nplanes : ℕ
  pub config_nbuffers : ℕ
  pub nbuffers : ℕ
  pub buffers : HeldBuffers

-- How the loop over the buffers ends: after all, at one that cannot be asked for, or at one that cannot be mapped.
pub data MapEnd : Type 0 where
  complete : MapEnd
  stopped : ℕ → MapEnd
  unmapped : MapEnd

abbrev pub new_buffers : Pool → MemoryKind → ℕ → List CameraBuffer
new_buffers p memory n = createbuffers p.kind p.mplane p.nplanes memory n

abbrev offset_of : CameraBuffer → ℕ → ℕ
offset_of b plane = if b.several then (plane_at b plane).m else b.m

module _ {State : Type 0} (d : BufferDriver State) where
  -- The planes of a buffer from `plane` on, up to one that cannot be mapped.
  unfoldable pub map_planes : ℕ → ℕ → CameraBuffer → State → Bool × CameraBuffer × State
  unfolding map_plane getsize
  map_planes zero plane b s = (true, b, s)
  map_planes (suc n) plane b s =
      let (address, s1) = d.mmap s (getsize b plane) (offset_of b plane) in
      let b1 : CameraBuffer = map_plane b plane (some address) in
      let rest = map_planes n (plane + 1) b1 s1 in
      if address == map_failed then (false, b1, s1) else rest

  unfoldable pub map_all : ℕ → ℕ → List CameraBuffer → State → MapEnd × List CameraBuffer × State
  unfolding map_planes
  map_all nplanes i [] s = (MapEnd.complete, [], s)
  map_all nplanes i (b ∷ bs) s =
      let (filled, s1) = d.querybuf s b in
      elim filled [
        | none ↦ (MapEnd.stopped i, b ∷ bs, s1)
        | some b1 ↦
            let (all, b2, s2) = map_planes nplanes 0 b1 s1 in
            let (end_at, rest, s3) = map_all nplanes (i + 1) bs s2 in
            if all then (end_at, b2 ∷ rest, s3) else (MapEnd.unmapped, b2 ∷ bs, s2)
      ]

  unfoldable pub mapped : Pool → MapEnd × List CameraBuffer × State → ℤ × Pool × State
  mapped p (MapEnd.complete, bs, s) = (pos 0, record p { buffers = HeldBuffers.held bs }, s)
  mapped p (MapEnd.stopped i, bs, s) =
      (negsuc 0, record p { nbuffers = i; buffers = HeldBuffers.held bs }, s)
  mapped p (MapEnd.unmapped, bs, s) = (negsuc 0, record p { buffers = HeldBuffers.held bs }, s)

  unfoldable pub mmap_granted : Pool → Option ℕ × State → ℤ × Pool × State
  unfolding mapped map_all
  mmap_granted p (none, s) = (negsuc 0, p, s)
  mmap_granted p (some n, s) =
      mapped (record p { nbuffers = n }) (map_all p.nplanes 0 (new_buffers p mmap n) s)

  unfoldable pub request_mmap : Pool → ℕ → State → ℤ × Pool × State
  unfolding mmap_granted
  request_mmap p count s = mmap_granted p (d.reqbufs s p.kind mmap count)

  -- The buffers of the other kind are given back first, and their number is asked for again.
  unfoldable pub mmap_again : Pool → Option ℕ × State → ℤ × Pool × State
  unfolding request_mmap
  mmap_again p (none, s) = (negsuc 0, p, s)
  mmap_again p (some n, s) = request_mmap (record p { buffers = HeldBuffers.freed }) p.nbuffers s

  -- `sv4l2_requestbuffer_mmap`
  unfoldable pub requestbuffer_mmap : Pool → ℕ → State → Outcome (ℤ × Pool × State)
  unfolding mmap_again
  requestbuffer_mmap p count s = elim p.buffers [
    | HeldBuffers.absent ↦ done (request_mmap p count s)
    | HeldBuffers.freed ↦ fault
    | HeldBuffers.held bs ↦ elim bs [
      | [] ↦ fault
      | b ∷ rest ↦
          if is_mmap b.memory
          then done (pos 0, p, s)
          else done (mmap_again p (d.reqbufs s b.kind b.memory 0))
    ]
  ]
