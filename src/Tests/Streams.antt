-- ===== src/Tests/Streams.antt =====
-- Concrete runs of a capture device that streams.
use fastvideo.Buffers.{done}
use fastvideo.Prelude.{
  length, ℕ, [], ◌∷◌, List, none, ◌++◌, ◌≡◌, ◌≤◌, ◌*◌, ◌+◌, some, refl, arith, true, false, Option,
  sym, ap, inl, ◌⊎◌,
}
use fastvideo.Prelude.Int.{pos, negsuc}
use fastvideo.Camera.{CameraMode, video_capture}
use fastvideo.Camera.Memory.{CameraBuffer, MemoryKind, createbuffers}
use fastvideo.Camera.Request.{BufferDriver, requestbuffer_mmap}
use fastvideo.Camera.Request.Granted.{IsGranting}
use fastvideo.Camera.Request.Exported.{new_pool, filled_pool}
use fastvideo.Camera.Request.Destroy.{sv4l2_destroy}
use fastvideo.Camera.Request.Unmapped.{IsTraced, sv4l2_destroy-unmapped}
use fastvideo.Camera.Stream.{StreamDriver, Camera, DequeuedBuffer, sv4l2_queue}
use fastvideo.Camera.Stream.Ready.{IsDriverQueue, IsCameraReady, Without, Failed}
use fastvideo.Camera.Stream.Started.{Streams, Refuses, sv4l2_start-upto}
use fastvideo.Camera.Stream.Given.{Gives, sv4l2_dequeue-Gives}
use fastvideo.Camera.Stream.Periodic.{IsCounted, no_more, one_more, Queues-fired}

abbrev first_in : List ℕ → Option DequeuedBuffer × List ℕ
first_in [] = (none, [])
first_in (i ∷ rest) =
    (some (record { index = i; bytesused = 5; plane_bytesused = 5; keyframe = true }), rest)

-- A driver that gives the buffers back in the order it takes them.
abbrev fifo : StreamDriver
fifo = record {
  State = List ℕ;
  qbuf = λ s b. (pos 0, b, s ++ (b.index ∷ []));
  dqbuf = λ s kind memory. first_in s;
  streamon = λ s kind. (true, s);
  streamoff = λ s kind. (true, []);
  set_control = λ s id. (true, s);
}

fifo_gives : (s s1 : List ℕ) (q : DequeuedBuffer) → first_in s ≡ (some q, s1) → Without q.index s s1
fifo_gives [] s1 q e = absurd (ground (arith, e))
fifo_gives (i ∷ rest) s1 q e = ([], s1, same_front, refl)
  where
    index_of : Option DequeuedBuffer → ℕ
    index_of none = i
    index_of (some r) = r.index

    same_front : ◌≡◌ {A = List ℕ} (i ∷ rest) (q.index ∷ s1)
    same_front = ap (λ p. index_of p.0 ∷ p.1) e

fifo_fails : (s s1 : List ℕ) → first_in s ≡ (none, s1) → Failed s s1
fifo_fails [] s1 e = inl (sym (ap (λ p. p.1) e))
fifo_fails (i ∷ rest) s1 e = absurd (ground (arith, e))

abbrev fifo-IsDriverQueue : IsDriverQueue fifo
fifo-IsDriverQueue = record {
  count = 2;
  queued = λ s. s;
  takes = λ s b below absent. (pos 0, b, s ++ (b.index ∷ []), refl, refl, refl, inl (refl, refl));
  gives = λ s s1 kind memory q e. fifo_gives s s1 q e;
  fails = λ s s1 kind memory e. fifo_fails s s1 e;
  starts = λ s kind. refl;
  controls = λ s id. refl;
}

abbrev capture_mode : CameraMode
capture_mode = record {
  capture = true;
  output = false;
  master = false;
  mplane = false;
  mediactl = false;
  meta = false;
}

abbrev two_buffers : List CameraBuffer
two_buffers = createbuffers video_capture false 1 MemoryKind.mmap 2

abbrev idle : Camera fifo
idle = record {
  fd = pos 3;
  kind = video_capture;
  mode = capture_mode;
  nbuffers = 2;
  buffers = two_buffers;
  periodic = 0;
  has_periodic = true;
  config_periodic = 1;
  periodiccontrol = 9;
  driver = [];
}

sv4l2_start-upto_example :
    Streams fifo fifo-IsDriverQueue true (pos 0) idle
    ⊎ (Refuses fifo fifo-IsDriverQueue idle ⊎ Streams fifo fifo-IsDriverQueue false (negsuc 0) idle)
unfolding createbuffers
sv4l2_start-upto_example =
    sv4l2_start-upto fifo fifo-IsDriverQueue idle refl refl refl (refl, (refl, tt)) refl

abbrev busy : Camera fifo
busy = record idle { driver = 1 ∷ 0 ∷ [] }

busy-IsCameraReady : IsCameraReady fifo fifo-IsDriverQueue busy
unfolding createbuffers
busy-IsCameraReady = record {
  numbered = (refl, (refl, tt));
  sized = refl;
  below = (omega arith, (omega arith, tt));
  unique = (((λ e. omega (arith, e)), tt), (tt, tt));
}

sv4l2_dequeue-Gives_example : Gives fifo fifo-IsDriverQueue busy 0 none 0
sv4l2_dequeue-Gives_example =
    sv4l2_dequeue-Gives fifo fifo-IsDriverQueue busy 0 none 0 busy-IsCameraReady (omega arith)

-- A driver that counts the calls that set a control.
abbrev tally : StreamDriver
tally = record {
  State = ℕ;
  qbuf = λ s b. (pos 0, b, s);
  dqbuf = λ s kind memory. (none, s);
  streamon = λ s kind. (true, s);
  streamoff = λ s kind. (true, s);
  set_control = λ s id. (true, s + 1);
}

abbrev tally-IsCounted : IsCounted tally
tally-IsCounted = record {
  counted = λ s. s;
  sets = λ s id. (s + 1, refl, refl);
  queues = λ s b. refl;
}

abbrev counting : Camera tally
counting = record {
  fd = pos 3;
  kind = video_capture;
  mode = capture_mode;
  nbuffers = 2;
  buffers = two_buffers;
  periodic = 0;
  has_periodic = true;
  config_periodic = 1;
  periodiccontrol = 9;
  driver = 4;
}

abbrev counted_once : Camera tally
counted_once = record counting { periodic = 1 }

abbrev fired_once : Camera tally
fired_once = record counting { driver = 5 }

counting_first : sv4l2_queue tally counting 0 none 0 ≡ done (pos 0, counted_once)
unfolding sv4l2_queue createbuffers
counting_first = refl

counting_second : sv4l2_queue tally counted_once 1 none 0 ≡ done (pos 0, fired_once)
unfolding sv4l2_queue createbuffers
counting_second = refl

Queues-fired_example :
    (fired : ℕ) × (fired_once.driver ≡ counting.driver + fired)
    × (fired * 2 + fired_once.periodic ≡ counting.periodic + 2)
    × (fired_once.periodic ≤ 1)
Queues-fired_example =
    Queues-fired tally tally-IsCounted 0 (omega arith) 2 counting fired_once
      (record { has = refl; every = refl; counter = omega arith })
      (one_more 0 none 0 (pos 0) counting_first (one_more 1 none 0 (pos 0) counting_second no_more))

abbrev rest_of : List (ℕ × ℕ) → List (ℕ × ℕ)
rest_of [] = []
rest_of (m ∷ ms) = ms

-- A driver whose state is the mappings that exist.
abbrev mapper : BufferDriver (List (ℕ × ℕ))
mapper = record {
  reqbufs = λ s kind memory n. (some n, s);
  querybuf = λ s b. (some (record b { m = 4096; length = 100 }), s);
  expbuf = λ s kind i. (some (i + 5), s);
  mmap = λ s size offset. (4096, s ++ ((4096, size) ∷ []));
  munmap = λ s address size. rest_of s;
}

mapper-IsGranting : IsGranting mapper
mapper-IsGranting = record {
  fd = λ kind i. i + 5;
  grants = λ s kind memory n. (s, refl);
  fills = λ s b. (4096, 100, s, refl);
  maps = λ s size offset. (4096, s ++ ((4096, size) ∷ []), refl, (λ e. omega (arith, e)));
  exports = λ s kind i. (s, refl);
}

abbrev mapper-IsTraced : IsTraced mapper
mapper-IsTraced = record {
  live = λ s. s;
  maps = λ s size offset valid. refl;
  unmaps = λ s address size rest e. ap rest_of e;
  requests = λ s kind memory n. refl;
  queries = λ s b. refl;
}

sv4l2_destroy-unmapped_example :
    (bs : List CameraBuffer) × (s1 s2 : List (ℕ × ℕ)) × (requestbuffer_mmap mapper
        (new_pool video_capture false 4)
        3
        []
      ≡ done (pos 0, filled_pool video_capture false 4 3 bs, s1))
    × (length s1 ≡ 3)
    × (sv4l2_destroy mapper (λ s. s) (filled_pool video_capture false 4 3 bs) s1 ≡ done s2)
    × (s2 ≡ [])
sv4l2_destroy-unmapped_example =
    sv4l2_destroy-unmapped mapper mapper-IsGranting mapper-IsTraced (λ s. s) (λ s. refl)
      video_capture 4 3 [] refl
