-- ===== src/Camera/Request/Export.antt =====
-- `sv4l2_requestbuffer_dmabuf` of src/sv4l2.c: buffers that are exported as descriptors.
use fastvideo.Buffers.{Outcome, done, fault, endless}
use fastvideo.Prelude.{
  ℕ, zero, suc, ◌+◌, ◌^◌, List, [], ◌∷◌, ◌&&◌, Option, none, some, ltb, if◌then◌else◌, get_or, set,
  take, drop, ◌++◌,
}
use fastvideo.Prelude.Int.{ℤ, pos, negsuc}
use fastvideo.Camera.Memory.{CameraBuffer, dmabuf, is_dmabuf, getdmafd, getsize, set_plane}
use fastvideo.Camera.Request.{
  BufferDriver, HeldBuffers, Pool, MapEnd, new_buffers, requestbuffer_mmap,
}

module _ {State : Type 0} (d : BufferDriver State) where
  -- `_v4l2_getbufferfd` of a buffer that is there.
  unfoldable pub getbufferfd : CameraBuffer → ℕ → State → Option ℕ × State
  unfolding getdmafd
  getbufferfd b plane s =
      let fd : ℕ = getdmafd b plane in
      if is_dmabuf b.memory && ltb 0 fd && ltb fd (2 ^ 31)
      then (some fd, s)
      else d.expbuf s b.kind b.index

  -- Every plane of the buffer is unmapped.
  unfoldable pub unmap_planes : ℕ → ℕ → CameraBuffer → State → CameraBuffer × State
  unfolding getsize
  unmap_planes zero plane b s = (b, s)
  unmap_planes (suc n) plane b s =
      let s1 : State = elim (get_or b.map plane none) [
        | none ↦ s
        | some address ↦ d.munmap s address (getsize b plane)
      ] in
      unmap_planes n (plane + 1) (record b { map = set b.map plane none }) s1

  -- The descriptor is set in the planes from `plane` on, `n` of `nplanes`.
  unfoldable pub export_planes : ℕ → ℕ → ℕ → ℕ → CameraBuffer → State → CameraBuffer × State
  unfolding unmap_planes set_plane
  export_planes nplanes zero plane fd b s = (b, s)
  export_planes nplanes (suc n) plane fd b s =
      let (b1, s1) = unmap_planes nplanes 0 (set_plane b plane fd (getsize b plane)) s in
      export_planes nplanes n (plane + 1) fd b1 s1

  -- The buffers that were mapped become descriptors, up to one that cannot be exported.
  unfoldable pub export_all : ℕ → ℕ → List CameraBuffer → State → MapEnd × List CameraBuffer × State
  unfolding export_planes getbufferfd
  export_all nplanes i [] s = (MapEnd.complete, [], s)
  export_all nplanes i (b ∷ bs) s =
      let (exported, s1) = getbufferfd b 0 s in
      elim exported [
        | none ↦ (MapEnd.stopped i, b ∷ bs, s1)
        | some fd ↦
            let (b1, s2) = export_planes nplanes nplanes 0 fd b s1 in
            let (end_at, rest, s3) = export_all nplanes (i + 1) bs s2 in (end_at, b1 ∷ rest, s3)
      ]

  -- The loop goes over the buffers that are counted.
  unfoldable pub export_used : Pool → List CameraBuffer → State → MapEnd × List CameraBuffer × State
  unfolding export_all
  export_used p bs s =
      let (end_at, exported, s1) = export_all p.nplanes 0 (take p.nbuffers bs) s in
      (end_at, exported ++ drop p.nbuffers bs, s1)

  -- The descriptors and the sizes of `nplanes` planes of the buffer that was exported.
  unfoldable pub copy_planes : ℕ → ℕ → CameraBuffer → CameraBuffer → CameraBuffer
  unfolding getdmafd getsize set_plane
  copy_planes zero plane old b = b
  copy_planes (suc n) plane old b =
      copy_planes n (plane + 1) old (set_plane b plane (getdmafd old plane) (getsize old plane))

  -- One buffer after the other; the buffers that were exported may be too few.
  unfoldable pub copy_all : ℕ → List CameraBuffer → List CameraBuffer → Option (List CameraBuffer)
  unfolding copy_planes
  copy_all nplanes olds [] = some []
  copy_all nplanes [] (b ∷ bs) = none
  copy_all nplanes (old ∷ olds) (b ∷ bs) = elim (copy_all nplanes olds bs) [
    | none ↦ none
    | some rest ↦ some (copy_planes nplanes 0 old b ∷ rest)
  ]

  unfoldable pub copied : Pool → State → Option (List CameraBuffer) → Outcome (ℤ × Pool × State)
  copied p s none = fault
  copied p s (some bs) = done (pos 0, record p { buffers = HeldBuffers.held bs }, s)

  -- New buffers of descriptors; the device that exported them has them set.
  unfoldable pub dmabuf_granted :
      Pool → Option (List CameraBuffer) → Option ℕ × State → Outcome (ℤ × Pool × State)
  unfolding copied copy_all
  dmabuf_granted p olds (none, s) = done (negsuc 0, p, s)
  dmabuf_granted p none (some n, s) =
      done
        (pos 0, record p { nbuffers = n; buffers = HeldBuffers.held (new_buffers p dmabuf n) }, s)
  dmabuf_granted p (some olds) (some n, s) =
      copied (record p { nbuffers = n }) s (copy_all p.nplanes olds (new_buffers p dmabuf n))

  unfoldable pub request_dmabuf :
      Pool → Option (List CameraBuffer) → ℕ → State → Outcome (ℤ × Pool × State)
  unfolding dmabuf_granted
  request_dmabuf p olds count s = dmabuf_granted p olds (d.reqbufs s p.kind dmabuf count)

  unfoldable pub exported_given_back :
      Pool → List CameraBuffer → ℕ → Option ℕ × State → Outcome (ℤ × Pool × State)
  unfolding request_dmabuf
  exported_given_back p bs count (none, s) = done (negsuc 0, p, s)
  exported_given_back p bs count (some n, s) = request_dmabuf p (some bs) count s

  -- The buffers that were mapped are given back before the new ones are asked for.
  unfoldable pub give_exported :
      Pool → ℕ → MapEnd × List CameraBuffer × State → Outcome (ℤ × Pool × State)
  unfolding exported_given_back
  give_exported p count (MapEnd.stopped i, bs, s) =
      done (negsuc 0, record p { nbuffers = i; buffers = HeldBuffers.held bs }, s)
  give_exported p count (MapEnd.unmapped, bs, s) = fault
  give_exported p count (MapEnd.complete, [], s) = fault
  give_exported p count (MapEnd.complete, b ∷ bs, s) =
      exported_given_back (record p { buffers = HeldBuffers.held (b ∷ bs) }) (b ∷ bs) count
        (d.reqbufs s b.kind b.memory 0)

  unfoldable pub export_mapped : ℕ → Outcome (ℤ × Pool × State) → Outcome (ℤ × Pool × State)
  unfolding give_exported export_used
  export_mapped count fault = fault
  export_mapped count endless = endless
  export_mapped count (done (negsuc r, p, s)) = done (negsuc 0, p, s)
  export_mapped count (done (pos r, p, s)) = elim p.buffers [
    | HeldBuffers.held bs ↦ give_exported p count (export_used p bs s)
    | _ ↦ fault
  ]

  -- A master maps buffers first, to export them.
  unfoldable pub dmabuf_asked : Pool → ℕ → State → Outcome (ℤ × Pool × State)
  unfolding export_mapped requestbuffer_mmap request_dmabuf
  dmabuf_asked p count s =
      if p.master
      then export_mapped count (requestbuffer_mmap d p count s)
      else request_dmabuf p none count s

  -- `sv4l2_requestbuffer_dmabuf`
  unfoldable pub requestbuffer_dmabuf : Pool → ℕ → State → Outcome (ℤ × Pool × State)
  unfolding dmabuf_asked
  requestbuffer_dmabuf p count s = elim p.buffers [
    | HeldBuffers.absent ↦ dmabuf_asked p count s
    | HeldBuffers.freed ↦ fault
    | HeldBuffers.held bs ↦ elim bs [
      | [] ↦ fault
      | b ∷ rest ↦ if is_dmabuf b.memory then done (pos 0, p, s) else dmabuf_asked p count s
    ]
  ]
