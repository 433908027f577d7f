-- ===== src/Passthrough/Copies.antt =====
-- The size of a frame that src/spassthrough.c passes on without a converter.
use fastvideo.Buffers.{queued, done}
use fastvideo.Prelude.{
  ℕ, true, false, List, [], ◌∷◌, ◌++◌, Option, none, some, if◌then◌else◌, get_elem?, ◌≡◌, ap, ◌∙◌,
}
use fastvideo.Prelude.Int.{pos}
use fastvideo.Passthrough.{Buffer, Source, Sink, put_source}
use fastvideo.Passthrough.Queue.{
  is_dequeued, finish_queue, copy_buffer, copy_with, copy_put, copy_into, copy_queue, queue_dup,
  given, asked, queue_output,
}
use fastvideo.Passthrough.Dequeue.{Frame}
use fastvideo.Passthrough.Order.{
  IsFifo, finish_queue-IsFifo, settled, settled-buffers, settled-curbuffer,
}
use fastvideo.Passthrough.Enqueue.{IsFifo-same, settled-copy, not_ready, queue_output-free}

-- Without a converter the copy shares the memory, and has the size that the buffer had before.
copy_buffer-plain :
    (s : Sink) (src dst : Buffer) (bytesused : ℕ)
    → s.copy ≡ none
    → copy_buffer s src dst bytesused
      ≡ done (record dst { mem = src.mem; dma_buf = src.dma_buf }, src.bytesused)
unfolding copy_buffer copy_with
copy_buffer-plain s src dst bytesused e = ap (copy_with s src dst bytesused) e

-- Where the duplicated device takes part and there is no converter, a frame is passed on with the size that
-- its buffer had before the call, whatever size the call gives: a buffer that starts with size 0 never has another.
pub queue_output-stale_size :
    (s : Sink) (d : Source) (cur id : ℕ) (dst b : Buffer) (mem : Option (List ℕ))
    (bytesused flags : ℕ) (es : List (ℕ × Frame))
    → s.copy ≡ none
    → s.dup ≡ some d
    → d.curbuffer ≡ some cur
    → get_elem? d.buffers cur ≡ some dst
    → (settled s).state.dryrun ≡ false
    → get_elem? s.buffers id ≡ some b
    → is_dequeued b.state ≡ true
    → IsFifo s es
    → (s' : Sink) × (queue_output s id mem bytesused flags ≡ done (pos 0, s'))
      × IsFifo s' (
          es
          ++ ((id, record { mem = given mem b.mem; bytesused = b.bytesused; flags = flags }) ∷ []))
unfolding queue_dup copy_queue copy_into copy_put
queue_output-stale_size s d cur id dst b mem bytesused flags es plain dup at_ there wet found free
      v =
    let t : Sink = settled s in
    let b1 : Buffer = record b { state = queued; mem = given mem b.mem } in
    let size : ℕ = asked bytesused b.size in
    let dst' : Buffer = record dst {
      mem = b1.mem;
      dma_buf = b1.dma_buf;
      bytesused = b.bytesused;
    } in
    let s1 : Sink = record t { dup = some (put_source d cur dst') } in
    let (s', ran, w) =
      finish_queue-IsFifo s1 id b1 b b.bytesused flags es
        (ap (λ bs. get_elem? bs id) (settled-buffers s) ∙ found) (not_ready b.state free)
        (IsFifo-same s s1 es (settled-buffers s) (settled-curbuffer s) v) in
    (
      s',
      queue_output-free s id b mem bytesused flags found free
          ∙ ap (queue_dup t id b1 size flags) dup
          ∙ ap
              (λ dry.
                if dry
                then finish_queue t id b1 size flags
                else copy_queue t d id b1 size flags d.curbuffer)
              wet
          ∙ ap (copy_queue t d id b1 size flags) at_
          ∙ ap (copy_into t d cur id b1 size flags) there
          ∙ ap (copy_put t d cur id b1 flags)
              (copy_buffer-plain t b1 dst size (settled-copy s ∙ plain))
          ∙ ran,
      w,
    )
