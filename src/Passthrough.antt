-- ===== src/Passthrough.antt =====
-- The passthrough stage, src/spassthrough.c: the frames that the source queues wait in a list linked
-- through their buffers, and a copy of each goes to the buffers of the duplicated device.
pub mod Queue
pub mod Dequeue
pub mod Fifo
pub mod Linked
pub mod Order
pub mod Enqueue
pub mod Leave
pub mod Copies
pub mod Targets
pub mod Converter
pub mod Drained
use fastvideo.Buffers.{Outcome, BufferState, DeviceType, invalid, dequeued, ready, queued, eagain}
use fastvideo.Prelude.{
  ℕ, ◌+◌, ◌*◌, ◌/◌, ◌%◌, ◌^◌, Bool, true, false, List, [], ◌∷◌, Option, none, some, set,
}

-- The bits of `state`: `MODE_SHOOT`, `MODE_SHOOTING`, `MODE_TEE` and `MODE_DRYRUN`.
pub record Mode : Type 0 where
  pub shoot : Bool
  pub shooting : Bool
  pub tee : Bool
  pub dryrun : Bool

-- `Passthrough_Control_t`, which other processes write.
pub record Controls : Type 0 where
  pub state : Mode
  pub periodic : ℕ

-- `FrameBuffer_t`: `mem` is `none` for a null pointer, `next` the number of the buffer linked to.
pub record Buffer : Type 0 where
  pub mem : Option (List ℕ)
  pub dma_buf : ℕ
  pub size : ℕ
  pub stride : ℕ
  pub bytesused : ℕ
  pub flags : ℕ
  pub state : BufferState
  pub next : Option ℕ

-- The duplicated device: its buffers, of which `curbuffer` is one, and its event counter.
pub record Source : Type 0 where
  pub buffers : List Buffer
  pub curbuffer : Option ℕ
  pub completion : Option ℕ

-- What `copy` stands for: the converter writes the destination and returns the bytes written, if it does not
-- read or write outside of its memory.
abbrev pub Convert : Type 0
Convert = Option (List ℕ) → Option (List ℕ) → ℕ → ℕ → Outcome (Option (List ℕ) × ℕ)

-- `Passthrough_t` of the main device, with `errno`.
pub record Sink : Type 0 where
  pub buffers : List Buffer
  pub curbuffer : Option ℕ
  pub state : Mode
  pub controls : Option Controls
  pub periodic : ℕ
  pub numerator : ℕ
  pub denominator : ℕ
  pub copy : Option Convert
  pub dup : Option Source
  pub completion : Option ℕ
  pub errno : ℕ

abbrev pub put_source : Source → ℕ → Buffer → Source
put_source d id b = record d { buffers = set d.buffers id b }

abbrev pub put_sink : Sink → ℕ → Buffer → Sink
put_sink s id b = record s { buffers = set s.buffers id b }

-- `write` of 1 and `read` on an event counter that does not block.
abbrev pub signal : Option ℕ → Option ℕ
signal none = none
signal (some n) = some (n + 1)

abbrev pub drain : Option ℕ → Option ℕ
drain none = none
drain (some n) = some 0

-- A size scaled by the converter's ratio, in `size_t`.
abbrev pub resized : Sink → ℕ → ℕ
resized s size = (size * s.numerator % 2 ^ 64) / s.denominator
