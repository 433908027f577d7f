-- ===== src/Mpegts/Device/Ops/Queue.antt =====
-- The branches of `mpegts_queue` of src/smpegts.c.
use fastvideo.Buffers.{Outcome, done, eagain, enomem, fault, is_busy, queued}
use fastvideo.Prelude.{
  ◌⊎◌, ℕ, ◌<◌, refl, ◌∙◌, ap, ◌≡◌, inl, ◌∷◌, inr, if◌then◌else◌, false, List, [], Option, none,
  some, ltb, length, get_elem?, arith, Bool-cases, Option-cases,
}
use fastvideo.Prelude.Int.{ℤ, pos, negsuc}
use fastvideo.Mpegts.Transport.{Proto}
use fastvideo.Mpegts.Device.{Dev, FrameBuffer}
use fastvideo.Mpegts.Device.Frame.{Now}
use fastvideo.Mpegts.Device.Ends.{pushdata_ends}
use fastvideo.Mpegts.Device.Ops.{
  is_dma, put_buffer, or_else, queue_result, queue_bytes, queue_push, queue_dma, queue_buffer,
  queue,
}
use fastvideo.Mpegts.Device.Ops.Dequeue.{get_elem?-below}

-- The memory that the call gives to the buffer: its mapping, or the caller's.
abbrev pub given_memory : FrameBuffer → Option (List ℕ) → Option (List ℕ) → Option (List ℕ)
given_memory b mem mapped = if is_dma b then mapped else mem

get_elem?-past {ℓ} : {A : Type ℓ} (xs : List A) → get_elem? xs (length xs) ≡ none
get_elem?-past [] = refl
get_elem?-past (x ∷ xs) = get_elem?-past xs

module _ (p : Proto) where
  open p use {Ctx}

  queue_push_ends :
      (dev : Dev Ctx) (id : ℕ) (b : FrameBuffer) (now : Now) (bytes : List ℕ)
      → b.mem ≡ some bytes
      → (out : ℤ × Dev Ctx) × (queue_push p dev id b now ≡ done out)
  unfolding queue_push queue_bytes
  queue_push_ends dev id b now bytes has =
      let (result, e) = pushdata_ends p (put_buffer p dev id b) id b bytes now in
      (
        queue_result p id b result,
        ap
              (λ m. elim m as (λ _. Outcome (ℤ × Dev Ctx)) [
                | none ↦ fault
                | some mem ↦ queue_bytes p dev id b now mem
              ])
              has
            ∙ rw (queue_bytes, e),
      )

  queue_buffer_ends :
      (dev : Dev Ctx) (id : ℕ) (b : FrameBuffer) (mem mapped : Option (List ℕ)) (now : Now)
      (bytes : List ℕ)
      → or_else (given_memory b mem mapped) b.mem ≡ some bytes
      → (out : ℤ × Dev Ctx) × (queue_buffer p dev id b mem mapped now ≡ done out)
  unfolding queue_buffer
  queue_buffer_ends dev id b mem mapped now bytes supplied =
      let ready_memory : Option (List ℕ) → FrameBuffer =
        λ m. record b { mem = or_else m b.mem; state = queued } in
      elim (Bool-cases (is_dma b)) [
        | inl dma ↦ elim (Option-cases b.mem) [
          | inl unlocked ↦
              let (out, e) =
                queue_push_ends dev id (ready_memory mapped) now bytes (rw dma at supplied) in
              (out, rw dma (ap (queue_dma p dev id b mapped now) unlocked ∙ e))
          | inr (old, locked) ↦ (
            (negsuc 0, record (put_buffer p dev id b) { errno = enomem }),
            rw dma (ap (queue_dma p dev id b mapped now) locked),
          )
        ]
        | inr plain ↦
            let (out, e) =
              queue_push_ends dev id (ready_memory mem) now bytes (rw plain at supplied) in
            (out, rw plain e)
      ]

  -- Queueing the number just past the last buffer passes the test of the function, and reads past the table.
  pub queue-past_end :
      (dev : Dev Ctx) (mem mapped : Option (List ℕ)) (size flags : ℕ) (now : Now)
      → queue p dev (pos (length dev.buffers)) mem size flags mapped now ≡ fault
  unfolding queue
  queue-past_end dev mem mapped size flags now =
      let inside : ltb (length dev.buffers) (length dev.buffers) ≡ false = ground arith in
      rw (inside, get_elem?-past dev.buffers)

  -- Queueing a buffer of the table returns for every transport, once the buffer has memory, its own or the one
  -- given with the call; and a buffer that is ready or queued is refused with `EAGAIN` and left as it is.
  pub queue-returns :
      (dev : Dev Ctx) (id : ℕ) (b : FrameBuffer) (mem mapped : Option (List ℕ)) (size flags : ℕ)
      (now : Now) (bytes : List ℕ)
      → get_elem? dev.buffers id ≡ some b
      → or_else (given_memory b mem mapped) b.mem ≡ some bytes
      → (out : ℤ × Dev Ctx) × (queue p dev (pos id) mem size flags mapped now ≡ done out)
        × ((is_busy b.state ≡ false) ⊎ (out ≡ (negsuc 0, record dev { errno = eagain })))
  unfolding queue
  queue-returns dev id b mem mapped size flags now bytes found supplied =
      let below : id < length dev.buffers = get_elem?-below dev.buffers id b found in
      let inside : ltb (length dev.buffers) id ≡ false = ground (arith, below) in
      elim (Bool-cases (is_busy b.state)) [
        | inl busy ↦ ((negsuc 0, record dev { errno = eagain }), rw (inside, found, busy), inr refl)
        | inr free ↦
            let (out, e) =
              queue_buffer_ends dev id (record b { bytesused = size; flags = flags }) mem mapped now
                bytes supplied in
            (out, rw (inside, found, free, e), inl free)
      ]
