-- ===== src/Tests/Devices.antt =====
-- Concrete runs of the passthrough stage.
use fastvideo.Buffers.{done, fault, ready, queued, dequeued}
use fastvideo.Prelude.{true, ℕ, ◌≡◌, refl, ◌∷◌, false, List, [], none, Option, some}
use fastvideo.Prelude.Int.{ℤ, pos}
use fastvideo.Passthrough.{Convert, Buffer, Sink, Source}
use fastvideo.Passthrough.Queue.{no_mode, queue_output, take_shoot, take_controls}
use fastvideo.Passthrough.Dequeue.{Frame, dequeue_output}
use fastvideo.Passthrough.Order.{IsFifo, settled}
use fastvideo.Passthrough.Enqueue.{Entered, queue_output-Queued}
use fastvideo.Passthrough.Leave.{Answer, dequeue_output-Answer}
use fastvideo.Stage.{Keeps, Stage, IsSound, stage_dequeue, stage_queue, stage-Keeps}
use fastvideo.Passthrough.Drained.{Dequeues, leaving, dequeue_output-Dequeues}
use fastvideo.Passthrough.Copies.{queue_output-stale_size}

-- A stage of two free buffers with a byte each, and a duplicated device with one.
abbrev free_byte : ℕ → Buffer
free_byte byte = record {
  mem = some (byte ∷ []);
  dma_buf = 0;
  size = 1;
  stride = 0;
  bytesused = 0;
  flags = 0;
  state = dequeued;
  next = none;
}

abbrev monitor : Source
monitor = record {
  buffers = record (free_byte 9) { state = queued } ∷ [];
  curbuffer = some 0;
  completion = some 0;
}

abbrev stage : Sink
stage = record {
  buffers = free_byte 5 ∷ free_byte 6 ∷ [];
  curbuffer = none;
  state = no_mode;
  controls = none;
  periodic = 0;
  numerator = 1;
  denominator = 1;
  copy = none;
  dup = some monitor;
  completion = some 0;
  errno = 0;
}

stage-IsFifo : IsFifo stage []
stage-IsFifo = record { linked = refl; counted = refl }

-- The same stage with a frame in its first buffer.
abbrev loaded : Sink
loaded = record stage {
  buffers = record (free_byte 5) { bytesused = 1; flags = 2; state = ready } ∷ free_byte 6 ∷ [];
  curbuffer = some 0;
}

abbrev waiting : List (ℕ × Frame)
waiting = (0, record { mem = some (5 ∷ []); bytesused = 1; flags = 2 }) ∷ []

loaded-IsFifo : IsFifo loaded waiting
loaded-IsFifo = record {
  linked = (
    refl,
    record (free_byte 5) { bytesused = 1; flags = 2; state = ready },
    refl,
    refl,
    refl,
    tt,
    refl,
  );
  counted = refl;
}

-- A converter that copies the memory, and faults on a null pointer.
abbrev whole : Convert
whole none dst bytesused stride = fault
whole (some mem) dst bytesused stride = done (some mem, bytesused)

abbrev converting : Sink
converting = record loaded { copy = some whole }

converting-IsFifo : IsFifo converting waiting
converting-IsFifo = record { linked = loaded-IsFifo.linked; counted = refl }

queue_output-Queued_example :
    Entered (some whole) 1 (some (7 ∷ [])) 3 waiting (queue_output converting 1 (some (7 ∷ [])) 1 3)
queue_output-Queued_example =
    queue_output-Queued converting 1 (free_byte 6) (some (7 ∷ [])) 1 3 waiting refl refl refl
      converting-IsFifo

dequeue_output-Answer_example :
    (r : ℤ × Option Frame × Sink) × (dequeue_output loaded ≡ done r) × Answer loaded waiting r
dequeue_output-Answer_example = dequeue_output-Answer loaded waiting refl loaded-IsFifo

stage-wet : (settled stage).state.dryrun ≡ false
unfolding settled take_shoot take_controls
stage-wet = refl

queue_output-stale_size_example :
    (s' : Sink) × (queue_output stage 1 (some (7 ∷ 8 ∷ [])) 2 3 ≡ done (pos 0, s'))
    × IsFifo s' ((1, record { mem = some (7 ∷ 8 ∷ []); bytesused = 0; flags = 3 }) ∷ [])
queue_output-stale_size_example =
    queue_output-stale_size stage monitor 0 1 (record (free_byte 9) { state = queued })
      (free_byte 6) (some (7 ∷ 8 ∷ [])) 2 3 [] refl refl refl refl stage-wet refl refl stage-IsFifo

stage-Keeps_example : Keeps Stage (IsSound (some whole)) (record {
  eventfd = none;
  start = λ w. (true, w);
  stop = λ w. w;
  dequeue = stage_dequeue;
  queue = stage_queue;
})
stage-Keeps_example = stage-Keeps (some whole) none (λ w. (true, w)) (λ w. w)

abbrev unshared : Sink
unshared = record loaded { dup = none }

unshared-IsFifo : IsFifo unshared waiting
unshared-IsFifo = record { linked = loaded-IsFifo.linked; counted = refl }

dequeue_output-Dequeues_example :
    (s' : Sink) × Dequeues unshared (leaving 1 1 waiting) s' × IsFifo s' []
dequeue_output-Dequeues_example = dequeue_output-Dequeues unshared waiting refl unshared-IsFifo
