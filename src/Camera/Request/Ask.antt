-- ===== src/Camera/Request/Ask.antt =====
-- `sv4l2_requestbuffer_userptr`, `sv4l2_linkv4l2` and `sv4l2_requestbuffer` of src/sv4l2.c.
use fastvideo.Buffers.{Outcome, done, fault, endless}
use fastvideo.Prelude.{
  ℕ, zero, suc, ◌+◌, ◌*◌, List, [], ◌∷◌, ◌++◌, Bool, true, false, Option, none, some, ltb, ◌==◌,
  if◌then◌else◌, length, take, drop, replicate,
}
use fastvideo.Prelude.Int.{ℤ, pos, negsuc}
use fastvideo.Camera.Memory.{
  CameraBuffer, userptr, is_userptr, is_dmabuf, getdmafd, getmem, getsize, set_plane,
}
use fastvideo.Camera.Request.{BufferDriver, Pool, HeldBuffers, new_buffers, requestbuffer_mmap}
use fastvideo.Camera.Request.Export.{getbufferfd, requestbuffer_dmabuf}
use fastvideo.Camera.Request.Link.{fill_all, linkdma, write_all}

-- What is written through the pointers of a master: the number of buffers, one entry for each, and the size.
pub record Targets : Type 0 where
  pub count : ℕ
  pub entries : List ℕ
  pub size : ℕ

-- `enum buf_type_e` with the arguments of each; another device comes with the calls of its own descriptor.
pub data BufferRequest (State : Type 0) : Type 0 where
  sv4l2_master : BufferRequest State
  sv4l2 : BufferDriver State → Pool → BufferRequest State
  memory : List ℕ → ℕ → BufferRequest State
  memory_master : BufferRequest State
  dmabuf : List ℕ → ℕ → BufferRequest State
  dmabuf_master : BufferRequest State
  unknown : Bool → BufferRequest State

-- `t & buf_type_master`
abbrev pub is_master : {State : Type 0} → BufferRequest State → Bool
is_master sv4l2_master = true
is_master memory_master = true
is_master dmabuf_master = true
is_master (unknown master) = master
is_master _ = false

-- The address of a plane as a number, 0 for none.
abbrev pub address_of : CameraBuffer → ℕ → ℕ
address_of b plane = elim (getmem b plane) [ none ↦ 0 | some address ↦ address ]

-- The array of a master: an entry for each plane of each buffer.
unfoldable pub export_targets : (CameraBuffer → ℕ → ℕ) → Pool → HeldBuffers → Option Targets
unfolding write_all getsize
export_targets get p (HeldBuffers.held (b ∷ bs)) = some (record {
  count = p.nbuffers;
  entries =
      write_all get p.nplanes 0 (take p.nbuffers (b ∷ bs)) (replicate (p.nbuffers * p.nplanes) 0);
  size = getsize b 0;
})
export_targets get p _ = none

module _ {State : Type 0} (d : BufferDriver State) where
  unfoldable pub userptr_granted : Pool → List ℕ → ℕ → Option ℕ × State → ℤ × Pool × State
  unfolding fill_all
  userptr_granted p mems size (none, s) = (negsuc 0, p, s)
  userptr_granted p mems size (some n, s) = (
    pos 0,
    record p {
      nbuffers = n;
      buffers = HeldBuffers.held (fill_all p.nplanes mems size (new_buffers p userptr n));
    },
    s,
  )

  -- At most as many buffers as there are addresses.
  unfoldable pub request_userptr : Pool → ℕ → List ℕ → ℕ → State → ℤ × Pool × State
  unfolding userptr_granted
  request_userptr p count mems size s =
      userptr_granted p mems size
        (d.reqbufs s p.kind userptr (if ltb (length mems) count then length mems else count))

  unfoldable pub userptr_again : Pool → List ℕ → ℕ → Option ℕ × State → ℤ × Pool × State
  unfolding request_userptr
  userptr_again p mems size (none, s) = (negsuc 0, p, s)
  userptr_again p mems size (some n, s) =
      request_userptr (record p { buffers = HeldBuffers.freed }) p.nbuffers mems size s

  -- `sv4l2_requestbuffer_userptr`
  unfoldable pub requestbuffer_userptr : Pool → List ℕ → ℕ → State → Outcome (ℤ × Pool × State)
  unfolding userptr_again
  requestbuffer_userptr p mems size s = elim p.buffers [
    | HeldBuffers.absent ↦ done (request_userptr p p.config_nbuffers mems size s)
    | HeldBuffers.freed ↦ fault
    | HeldBuffers.held bs ↦ elim bs [
      | [] ↦ fault
      | b ∷ rest ↦
          if is_userptr b.memory
          then done (pos 0, p, s)
          else done (userptr_again p mems size (d.reqbufs s b.kind b.memory 0))
    ]
  ]

-- `d` is the driver of the target here.
module _ {State : Type 0} (d : BufferDriver State) where
  -- The descriptor of the target's buffer, with the size of each of its planes.
  unfoldable pub link_sizes : ℕ → ℕ → ℕ → CameraBuffer → CameraBuffer → CameraBuffer
  unfolding getsize set_plane
  link_sizes zero plane fd target b = b
  link_sizes (suc n) plane fd target b =
      link_sizes n (plane + 1) fd target (set_plane b plane fd (getsize target plane))

  -- How the loop ends, the buffers, and the number that is left; the target has none after its last buffer.
  unfoldable pub link_buffers :
      ℕ → ℕ → ℕ → List CameraBuffer → List CameraBuffer → State → ℤ × ℕ × List CameraBuffer × State
  unfolding link_sizes getbufferfd
  link_buffers nplanes nbuffers i [] targets s = (pos 0, nbuffers, [], s)
  link_buffers nplanes nbuffers i (b ∷ bs) [] s =
      (negsuc 0, if is_dmabuf b.memory then i else nbuffers, b ∷ bs, s)
  link_buffers nplanes nbuffers i (b ∷ bs) (target ∷ targets) s =
      let (exported, s1) = getbufferfd d target 0 s in
      let next = elim exported as (λ o. ℤ × ℕ × List CameraBuffer × State) [
        | none ↦ (negsuc 0, i, b ∷ bs, s1)
        | some fd ↦
            let (ret, left, rest, s2) = link_buffers nplanes nbuffers (i + 1) bs targets s1 in
            (ret, left, link_sizes nplanes 0 fd target b ∷ rest, s2)
      ] in
      if is_dmabuf b.memory then next else (negsuc 0, nbuffers, b ∷ bs, s)

  linked_buffers : Pool → List CameraBuffer → ℤ × ℕ × List CameraBuffer × State → ℤ × Pool × State
  linked_buffers p bs (ret, left, linked_bs, s) = (
    ret,
    record p { nbuffers = left; buffers = HeldBuffers.held (linked_bs ++ drop p.nbuffers bs) },
    s,
  )

  -- The buffers are of descriptors here, so that the target's are read.
  unfoldable pub link_held :
      Pool → Pool → List CameraBuffer → State → HeldBuffers → Outcome (ℤ × Pool × State)
  unfolding link_buffers linked_buffers
  link_held p target bs s (HeldBuffers.held targets) = done (
      linked_buffers p bs
        (link_buffers p.nplanes p.nbuffers 0 (take p.nbuffers bs) (take target.nbuffers targets) s))
  link_held p target bs s HeldBuffers.absent =
      done (linked_buffers p bs (link_buffers p.nplanes p.nbuffers 0 (take p.nbuffers bs) [] s))
  link_held p target bs s HeldBuffers.freed = fault

  -- `sv4l2_linkv4l2`
  unfoldable pub linkv4l2 : Pool → Pool → State → Outcome (ℤ × Pool × State)
  unfolding link_held
  linkv4l2 p target s = if p.nbuffers == 0 then done (pos 0, p, s) else elim p.buffers [
    | HeldBuffers.held bs ↦ link_held p target bs s target.buffers
    | _ ↦ fault
  ]

module _ {State : Type 0} (d : BufferDriver State) where
  abbrev RequestAnswer : Type 0
  RequestAnswer = Outcome (ℤ × Option Targets × Pool × State)

  unfoldable pub without_targets : Outcome (ℤ × Pool × State) → RequestAnswer
  without_targets (done (ret, p, s)) = done (ret, none, p, s)
  without_targets fault = fault
  without_targets endless = endless

  unfoldable pub targets_out : ℤ → Pool → State → Option Targets → RequestAnswer
  targets_out ret p s none = fault
  targets_out ret p s (some t) = done (ret, some t, p, s)

  unfoldable pub with_targets : (CameraBuffer → ℕ → ℕ) → Outcome (ℤ × Pool × State) → RequestAnswer
  unfolding targets_out export_targets
  with_targets get (done (pos zero, p, s)) =
      targets_out (pos 0) p s (export_targets get p p.buffers)
  with_targets get (done (ret, p, s)) = done (ret, none, p, s)
  with_targets get fault = fault
  with_targets get endless = endless

  then_linkv4l2 :
      BufferDriver State → Pool → Outcome (ℤ × Pool × State) → Outcome (ℤ × Pool × State)
  unfolding linkv4l2
  then_linkv4l2 td target (done (pos zero, p, s)) = linkv4l2 td p target s
  then_linkv4l2 td target answer = answer

  unfoldable pub after_linkdma : State → Outcome (ℤ × Pool) → Outcome (ℤ × Pool × State)
  after_linkdma s (done (ret, p)) = done (ret, p, s)
  after_linkdma s fault = fault
  after_linkdma s endless = endless

  unfoldable pub then_linkdma : List ℕ → ℕ → Outcome (ℤ × Pool × State) → Outcome (ℤ × Pool × State)
  unfolding after_linkdma linkdma
  then_linkdma targets size (done (pos zero, p, s)) = after_linkdma s (linkdma p targets size)
  then_linkdma targets size answer = answer

  unfoldable pub request_of : Pool → BufferRequest State → State → RequestAnswer
  unfolding without_targets with_targets then_linkv4l2 then_linkdma requestbuffer_userptr
  request_of p sv4l2_master s = without_targets (requestbuffer_dmabuf d p p.config_nbuffers s)
  request_of p (sv4l2 td target) s =
      without_targets (then_linkv4l2 td target (requestbuffer_dmabuf d p p.config_nbuffers s))
  request_of p (memory mems size) s = without_targets (requestbuffer_userptr d p mems size s)
  request_of p memory_master s =
      with_targets address_of (requestbuffer_mmap d p p.config_nbuffers s)
  request_of p (dmabuf targets size) s =
      without_targets (then_linkdma targets size (requestbuffer_dmabuf d p (length targets) s))
  request_of p dmabuf_master s =
      with_targets getdmafd (requestbuffer_dmabuf d p p.config_nbuffers s)
  request_of p (unknown master) s = done (negsuc 0, none, p, s)

  -- `sv4l2_requestbuffer`
  unfoldable pub sv4l2_requestbuffer : Pool → BufferRequest State → State → RequestAnswer
  unfolding request_of
  sv4l2_requestbuffer p t s = request_of (if is_master t then record p { master = true } else p) t s
