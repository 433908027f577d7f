-- ===== src/Buffers.antt =====
-- What the devices share, from src/fastvideo.h and src/sconfig.h: the state of a buffer, the type of a
-- device, the error numbers, and how a call on the memory of a device ends.
use fastvideo.Prelude.{ℕ, Bool, true, false}

-- `FrameBuffer_state_e`
pub data BufferState : Type 0 where
  invalid dequeued ready queued : BufferState

-- `device_type_e`
pub data DeviceType : Type 0 where
  input output transfer control : DeviceType

-- `EAGAIN`
abbrev pub eagain : ℕ
eagain = 11

-- A call returns, reads or writes outside of its memory, or does not end.
pub data Outcome {ℓ} (A : Type ℓ) : Type ℓ where
  done : A → Outcome A
  fault : Outcome A
  endless : Outcome A

-- `ENOMEM`
abbrev pub enomem : ℕ
enomem = 12

abbrev pub is_ready : BufferState → Bool
is_ready ready = true
is_ready _ = false

-- `buffer->state != dequeued && buffer->state != invalid`
abbrev pub is_busy : BufferState → Bool
is_busy ready = true
is_busy queued = true
is_busy _ = false
