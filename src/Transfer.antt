-- ===== src/Transfer.antt =====
-- The transfer of buffers between the devices of a pipe, `main_transferbuffer` and the two passes of
-- `main_loop` in src/fastvideo.c, over devices that are known by their operations only.
pub mod Moves
use fastvideo.Prelude.{
  ℕ, ◌+◌, ◌-◌, Bool, true, ◌&&◌, false, ◌||◌, Option, ◌≡◌, none, ◌==◌, some, if◌then◌else◌, zero,
  List, suc, [], ◌∷◌, ◌++◌,
}
use fastvideo.Prelude.Int.{ℤ, pos, negsuc}
use fastvideo.Buffers.{eagain, Outcome, done, fault, endless}

-- The state that the devices share, with `errno`.
pub record World (W : Type 0) : Type 0 where
  pub errno : W → ℕ
  pub clear : W → W
  pub errno-clear : (w : W) → errno (clear w) ≡ 0

-- What passes between two devices; `mem` is the memory that the pointer points to, `none` for null.
pub record Frame : Type 0 where
  pub index : ℕ
  pub mem : Option (List ℕ)
  pub bytesused : ℕ
  pub flags : ℕ

-- `FastVideoDevice_ops_t` on its device: `start` and `queue` tell whether they succeed, and `dequeue` gives
-- `none` where the source gets a negative index.
pub record Ops (W : Type 0) : Type 0 where
  pub eventfd : Option (ℕ → W → ℤ)
  pub start : W → Bool × W
  pub stop : W → W
  pub dequeue : W → Option Frame × W
  pub queue : Frame → W → Bool × W

-- `FastVideoPipe_t`
pub record Pipe (W : Type 0) : Type 0 where
  pub input : Ops W
  pub output : Ops W

-- The results -1, 0 and 1.
pub data Transferred : Type 0 where
  failed nothing relayed : Transferred

-- The end of the `do` loop: its last result and how many buffers it relayed.
pub record Drained (W : Type 0) : Type 0 where
  pub ret : Transferred
  pub frames : ℕ
  pub world : W

-- The end of a pass over the pipes: `count`, and whether the daemon was killed.
pub record Passed (W : Type 0) : Type 0 where
  pub count : ℕ
  pub killed : Bool
  pub world : W

-- `MAX_DRAIN_PER_ITERATION`
abbrev pub max_drain : ℕ
max_drain = 16

abbrev pub bump : {W : Type 0} → Drained W → Drained W
bump d = record { ret = d.ret; frames = suc d.frames; world = d.world }

-- `ret == -1`
abbrev pub is_failed : Transferred → Bool
is_failed failed = true
is_failed _ = false

-- `fd > 0`
abbrev pub is_positive : ℤ → Bool
is_positive (pos zero) = false
is_positive (pos (suc n)) = true
is_positive (negsuc n) = false

-- `fd < 0`
abbrev pub is_negative : ℤ → Bool
is_negative (pos n) = false
is_negative (negsuc n) = true

-- `fd > 0 && FD_ISSET(fd, &set)`
abbrev pub is_set : (ℕ → Bool) → ℤ → Bool
is_set fds (pos zero) = false
is_set fds (pos (suc n)) = fds (suc n)
is_set fds (negsuc n) = false

abbrev pub watched_fd : {W : Type 0} → (ℕ → W → ℤ) → W → ℤ
watched_fd eventfd w = if is_negative (eventfd 1 w) then eventfd 2 w else eventfd 1 w

-- The descriptor that the pass back watches; the operation is called without a test where it is missing.
abbrev pub fd_of : {W : Type 0} → W → Option (ℕ → W → ℤ) → Outcome ℤ
fd_of w none = fault
fd_of w (some eventfd) = done (watched_fd eventfd w)

-- Only the buffers of the last pipe are counted.
abbrev pub counted : {W : Type 0} → List (Pipe W) → ℕ → Drained W → ℕ
counted [] count d = count + d.frames
counted (pipe ∷ pipes) count d = count

-- A pipe of the first pass: whether it is watched, and whether its loop, which leaves the count and the state
-- given last, ends with a fatal result.
abbrev pub served : {W : Type 0} → Bool → Bool → (ℕ → W → Passed W) → ℕ → W → ℕ → W → Passed W
served false fatal next count w count1 w1 = next count w
served true false next count w count1 w1 = next count1 w1
served true true next count w count1 w1 = record { count = count1; killed = true; world = w1 }

-- The same of the pass back.
abbrev pub returned :
    {W : Type 0} → Bool → Bool → (W → Outcome (Passed W)) → W → W → Outcome (Passed W)
returned false fatal next w w1 = next w
returned true false next w w1 = next w1
returned true true next w w1 = done (record { count = 0; killed = true; world = w1 })

abbrev pub with_fd : {W : Type 0} → (ℤ → Outcome (Passed W)) → Outcome ℤ → Outcome (Passed W)
with_fd pass (done fd) = pass fd
with_fd pass fault = fault
with_fd pass endless = endless

-- `if (start(dev) == -1) return -1;`
abbrev pub if_started : {W : Type 0} → (W → Bool × W) → Bool × W → Bool × W
if_started next (false, w) = (false, w)
if_started next (true, w) = next w

module _ {W : Type 0} (world : World W) where
  -- The answer of the output to a buffer that came from `input`.
  unfoldable pub after_queue : Ops W → Frame → Bool × W → Transferred × W
  after_queue input frame (true, w) = (relayed, w)
  after_queue input frame (false, w) =
      if world.errno w == eagain
      then (nothing, world.clear (input.queue frame w).1)
      else (failed, w)

  unfoldable pub after_dequeue : Ops W → Ops W → Option Frame × W → Transferred × W
  unfolding after_queue
  after_dequeue input output (none, w) =
      if world.errno w == eagain then (nothing, w) else (failed, w)
  after_dequeue input output (some frame, w) = after_queue input frame (output.queue frame w)

  unfoldable pub main_transferbuffer : Ops W → Ops W → W → Transferred × W
  unfolding after_dequeue
  main_transferbuffer input output w = after_dequeue input output (input.dequeue (world.clear w))

  -- The `do` loop after one transfer, with room for `left` more.
  unfoldable pub drain_on : ℕ → Ops W → Ops W → Transferred × W → Drained W
  unfolding main_transferbuffer
  drain_on left input output (failed, w) = record { ret = failed; frames = 0; world = w }
  drain_on left input output (nothing, w) = record { ret = nothing; frames = 0; world = w }
  drain_on zero input output (relayed, w) = record { ret = relayed; frames = 1; world = w }
  drain_on (suc left) input output (relayed, w) =
      bump (drain_on left input output (main_transferbuffer input output w))

  -- The `do` loop of at most `suc left` transfers.
  unfoldable pub drain_pipe : ℕ → Ops W → Ops W → W → Drained W
  unfolding drain_on
  drain_pipe left input output w = drain_on left input output (main_transferbuffer input output w)

  -- `ret == -1 && (fd > 0 || ! errno)`
  unfoldable pub is_fatal : ℤ → Drained W → Bool
  is_fatal fd d = is_failed d.ret && (is_positive fd || (world.errno d.world == 0))

  -- `pipe->input->ops->eventfd(dev, 0)`, or -1 without this operation.
  unfoldable pub input_fd : Ops W → W → ℤ
  input_fd device w = elim device.eventfd [ none ↦ negsuc 0 | some eventfd ↦ eventfd 0 w ]

  -- The pass from the first pipe to the last, with the descriptors that `select` found readable.
  unfoldable pub forward : (ℕ → Bool) → List (Pipe W) → ℕ → W → Passed W
  unfolding input_fd drain_pipe is_fatal
  forward rfds [] count w = record { count = count; killed = false; world = w }
  forward rfds (pipe ∷ pipes) count w =
      let fd : ℤ = input_fd pipe.input w in
      let d : Drained W = drain_pipe (max_drain - 1) pipe.input pipe.output w in
      served (is_negative fd || is_set rfds fd) (is_fatal fd d) (forward rfds pipes) count w
        (counted pipes count d) d.world

  unfoldable pub output_fd : Ops W → W → Outcome ℤ
  output_fd device w = fd_of w device.eventfd

  -- The pass from the last pipe to the first, given in this order.
  unfoldable pub backward : (ℕ → Bool) → (ℕ → Bool) → List (Pipe W) → W → Outcome (Passed W)
  unfolding output_fd drain_pipe is_fatal
  backward rfds wfds [] w = done (record { count = 0; killed = false; world = w })
  backward rfds wfds (pipe ∷ pipes) w =
      let d : Drained W = drain_pipe (max_drain - 1) pipe.output pipe.input w in
      with_fd
        (λ fd.
          returned (is_negative fd || is_set rfds fd || is_set wfds fd) (is_fatal fd d)
            (backward rfds wfds pipes) w d.world)
        (output_fd pipe.output w)

  -- The devices are started, the output of a pipe before its input; false at the first that does not.
  unfoldable pub start_pipes : List (Pipe W) → W → Bool × W
  start_pipes [] w = (true, w)
  start_pipes (pipe ∷ pipes) w =
      if_started (λ w1. if_started (start_pipes pipes) (pipe.input.start w1)) (pipe.output.start w)

  unfoldable pub stop_pipes : List (Pipe W) → W → W
  stop_pipes [] w = w
  stop_pipes (pipe ∷ pipes) w = stop_pipes pipes (pipe.input.stop (pipe.output.stop w))
