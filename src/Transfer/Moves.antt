-- ===== src/Transfer/Moves.antt =====
-- The `do` loop of src/fastvideo.c as a sequence of moves of one buffer each.
use fastvideo.Prelude.{
  ℕ, ◌≡◌, zero, ◌≤◌, suc, refl, ap, Bool, true, false, Option, none, some, List, [], ◌∷◌, length,
  arith, ◌⊎◌, inl, inr, ◌≢◌, ◌==◌, if◌then◌else◌, ==_iff,
}
use fastvideo.Buffers.{eagain}
use fastvideo.Transfer.{
  World, Frame, Ops, Transferred, failed, nothing, relayed, Drained, bump, main_transferbuffer,
  after_dequeue, after_queue, drain_on, drain_pipe,
}

module _ {W : Type 0} (world : World W) (input output : Ops W) where
  -- Buffers that `input` gave and `output` accepted, one after the other and each as it was given.
  pub data Moves : W → List Frame → W → Type 0 where
    stop : (w : W) → Moves w [] w
    move :
        {w w1 w2 w3 : W} {f : Frame} {fs : List Frame}
        → input.dequeue (world.clear w) ≡ (some f, w1)
        → output.queue f w1 ≡ (true, w2)
        → Moves w2 fs w3
        → Moves w (f ∷ fs) w3

  -- Why no more buffers move: `input` has none or fails, or `output` refuses one, which goes back to `input`
  -- when it is to be tried again, or fails.
  pub data Halt : W → Transferred → W → Type 0 where
    empty :
        {w w1 : W}
        → input.dequeue (world.clear w) ≡ (none, w1)
        → world.errno w1 ≡ eagain
        → Halt w nothing w1
    source_failed :
        {w w1 : W}
        → input.dequeue (world.clear w) ≡ (none, w1)
        → world.errno w1 ≢ eagain
        → Halt w failed w1
    pushed_back :
        {w w1 w2 : W} {f : Frame}
        → input.dequeue (world.clear w) ≡ (some f, w1)
        → output.queue f w1 ≡ (false, w2)
        → world.errno w2 ≡ eagain
        → Halt w nothing (world.clear (input.queue f w2).1)
    sink_failed :
        {w w1 w2 : W} {f : Frame}
        → input.dequeue (world.clear w) ≡ (some f, w1)
        → output.queue f w1 ≡ (false, w2)
        → world.errno w2 ≢ eagain
        → Halt w failed w2

  -- One call: a move, or a halt.
  data Call (w : W) : Transferred × W → Type 0 where
    moved :
        {w1 w2 : W} {f : Frame}
        → input.dequeue (world.clear w) ≡ (some f, w1)
        → output.queue f w1 ≡ (true, w2)
        → Call w (relayed, w2)
    halted : {r : Transferred} {w1 : W} → Halt w r w1 → Call w (r, w1)

  queue-Call :
      (w w1 : W) (f : Frame) (answer : Bool × W)
      → input.dequeue (world.clear w) ≡ (some f, w1)
      → output.queue f w1 ≡ answer
      → Call w (after_queue world input f answer)
  unfolding after_queue
  queue-Call w w1 f (true, w2) given taken = moved given taken
  queue-Call w w1 f (false, w2) given taken = again (world.errno w2 == eagain) refl
    where
      again :
          (b : Bool)
          → (world.errno w2 == eagain) ≡ b
          → Call w (if b then (nothing, world.clear (input.queue f w2).1) else (failed, w2))
      again true e = halted (pushed_back given taken ((==_iff (world.errno w2) eagain).0 e))
      again false e = halted (sink_failed given taken (ground (arith, e)))

  dequeue-Call :
      (w : W) (answer : Option Frame × W)
      → input.dequeue (world.clear w) ≡ answer
      → Call w (after_dequeue world input output answer)
  unfolding after_dequeue
  dequeue-Call w (none, w1) given = again (world.errno w1 == eagain) refl
    where
      again :
          (b : Bool)
          → (world.errno w1 == eagain) ≡ b
          → Call w (if b then (nothing, w1) else (failed, w1))
      again true e = halted (empty given ((==_iff (world.errno w1) eagain).0 e))
      again false e = halted (source_failed given (ground (arith, e)))
  dequeue-Call w (some f, w1) given = queue-Call w w1 f (output.queue f w1) given refl

  transfer-Call : (w : W) → Call w (main_transferbuffer world input output w)
  unfolding main_transferbuffer
  transfer-Call w = dequeue-Call w (input.dequeue (world.clear w)) refl

  -- The whole loop: at most `limit` moves, and either a halt or as many moves as there may be.
  pub record Run (limit : ℕ) (w : W) (d : Drained W) : Type 0 where
    pub frames : List Frame
    pub middle : W
    pub moves : Moves w frames middle
    pub counted : d.frames ≡ length frames
    pub bounded : length frames ≤ limit
    pub ended :
        Halt middle d.ret d.world
        ⊎ ((length frames ≡ limit) × (d.ret ≡ relayed) × (d.world ≡ middle))

  further :
      {w w1 w2 : W} {f : Frame} {d : Drained W} {limit : ℕ}
      → input.dequeue (world.clear w) ≡ (some f, w1)
      → output.queue f w1 ≡ (true, w2)
      → Run limit w2 d
      → Run (suc limit) w (bump d)
  further {f = f} given taken run = record {
    frames = f ∷ run.frames;
    middle = run.middle;
    moves = move given taken run.moves;
    counted = ap suc run.counted;
    bounded = omega (arith, run.bounded);
    ended = elim run.ended [
      | inl halt ↦ inl halt
      | inr (full, last, same) ↦ inr (ap suc full, last, same)
    ];
  }

  Halt-Run :
      {w w1 : W} {r : Transferred} (left : ℕ)
      → Halt w r w1
      → Run (suc left) w (drain_on world left input output (r, w1))
  unfolding drain_on
  Halt-Run {w} {r = nothing} left halt = record {
    frames = [];
    middle = w;
    moves = stop w;
    counted = refl;
    bounded = omega arith;
    ended = inl halt;
  }
  Halt-Run {w} {r = failed} left halt = record {
    frames = [];
    middle = w;
    moves = stop w;
    counted = refl;
    bounded = omega arith;
    ended = inl halt;
  }
  Halt-Run {r = relayed} left halt = elim halt [ ]

  drain_on-Run :
      (left : ℕ) (w : W) (call : Transferred × W)
      → Call w call
      → Run (suc left) w (drain_on world left input output call)
  unfolding drain_on
  drain_on-Run left w _ (halted halt) = Halt-Run left halt
  drain_on-Run zero w _ (moved {w2 = w2} {f = f} given taken) = record {
    frames = f ∷ [];
    middle = w2;
    moves = move given taken (stop w2);
    counted = refl;
    bounded = omega arith;
    ended = inr (refl, refl, refl);
  }
  drain_on-Run (suc left) w _ (moved {w2 = w2} given taken) =
      further given taken
        (drain_on-Run left w2 (main_transferbuffer world input output w2) (transfer-Call w2))

  -- The loop of at most `suc left` transfers passes buffers on in the order the input gives them, each as it
  -- was given and none twice, counts them, and ends with the result of the call that halted it or when it has
  -- passed on as many as it may.
  pub drain_pipe-Run : (left : ℕ) (w : W) → Run (suc left) w (drain_pipe world left input output w)
  unfolding drain_pipe
  drain_pipe-Run left w =
      drain_on-Run left w (main_transferbuffer world input output w) (transfer-Call w)
