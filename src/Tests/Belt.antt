-- ===== src/Tests/Belt.antt =====
-- Concrete runs of the transfer of buffers and of the loops over lists.
use fastvideo.Buffers.{eagain}
use fastvideo.Prelude.{ℕ, Bool, List, ◌≡◌, [], refl, ◌∷◌, true, Option, none, some, arith}
use fastvideo.Prelude.Int.{ℤ, pos}
use fastvideo.Transfer.{World, Frame, Ops, drain_pipe}
use fastvideo.Transfer.Moves.{Run, drain_pipe-Run}
use fastvideo.Chain.{Node, Heap, for_next, fastvideolist_first}
use fastvideo.Chain.Extend.{IsList}
use fastvideo.Chain.Built.{insert_all, insert_all-for_next}
use fastvideo.Chain.Linked.{Chain, chain_end, link}
use fastvideo.Chain.Loops.{Walked, for_next_all, for_next-fastvideolist_first}

-- A source with a list of frames, and a sink that takes them; `errno` is the last part of the state.
abbrev Belt : Type 0
Belt = List Frame × List Frame × ℕ

abbrev belt_errno : Belt → ℕ
belt_errno (from, to, errno) = errno

abbrev belt_clear : Belt → Belt
belt_clear (from, to, errno) = (from, to, 0)

belt_cleared : (w : Belt) → belt_errno (belt_clear w) ≡ 0
belt_cleared (from, to, errno) = refl

abbrev belt : World Belt
belt = record { errno = belt_errno; clear = belt_clear; errno-clear = belt_cleared }

abbrev take_frame : Belt → Option Frame × Belt
take_frame ([], to, errno) = (none, ([], to, eagain))
take_frame (f ∷ from, to, errno) = (some f, (from, to, errno))

abbrev put_frame : Frame → Belt → Bool × Belt
put_frame f (from, to, errno) = (true, (from, f ∷ to, errno))

abbrev always : ℕ → Belt → ℤ
always writer w = pos 3

abbrev device : Ops Belt
device = record {
  eventfd = some always;
  start = λ w. (true, w);
  stop = λ w. w;
  dequeue = take_frame;
  queue = put_frame;
}

abbrev frame : ℕ → Frame
frame n = record { index = n; mem = some (n ∷ []); bytesused = 100; flags = 0 }

abbrev two_frames : Belt
two_frames = (frame 1 ∷ frame 2 ∷ [], [], 0)

drain_pipe-Run_example :
    Run belt device device 16 two_frames (drain_pipe belt 15 device device two_frames)
drain_pipe-Run_example = drain_pipe-Run belt device device 15 two_frames

-- A list of two entities.
abbrev first_node : Node
first_node = record { entity = 70; next = some 1; previous = none; last = some 1; iterator = none }

abbrev second_node : Node
second_node = record { entity = 80; next = none; previous = some 0; last = none; iterator = none }

abbrev two_nodes : Heap
two_nodes = first_node ∷ second_node ∷ []

two_nodes-Chain : Chain two_nodes none (0 ∷ 1 ∷ []) (70 ∷ 80 ∷ [])
two_nodes-Chain =
    link none first_node refl refl refl refl
      (link (some 0) second_node refl refl refl refl (chain_end (some 1)))

for_next_all_example :
    (h1 : Heap) × (for_next 3 two_nodes (some 0) ≡ some (h1, 70 ∷ 80 ∷ []))
    × Walked 0 (0 ∷ 1 ∷ []) (70 ∷ 80 ∷ []) h1
for_next_all_example =
    for_next_all 3 two_nodes 0 first_node (1 ∷ []) (70 ∷ 80 ∷ []) two_nodes-Chain refl refl
      (omega arith)

for_next-fastvideolist_first_example :
    (h1 h2 : Heap) × (fastvideolist_first two_nodes (some 0) ≡ some (h1, some 0))
    × (for_next 2 h1 (some 0) ≡ some (h2, 80 ∷ []))
    × Walked 0 (0 ∷ 1 ∷ []) (70 ∷ 80 ∷ []) h2
for_next-fastvideolist_first_example =
    for_next-fastvideolist_first 2 two_nodes 0 first_node (1 ∷ []) 70 (80 ∷ []) two_nodes-Chain refl
      (omega arith)

two_nodes-IsList : IsList two_nodes 0 (70 ∷ 80 ∷ [])
two_nodes-IsList = record {
  places = 1 ∷ [];
  chain = two_nodes-Chain;
  first = first_node;
  here = refl;
  ends = refl;
  rewound = refl;
  distinct = ((λ e. absurd (omega (arith, e)), tt), (tt, tt));
}

insert_all-for_next_example :
    (h1 : Heap) × (list : Option ℕ) × (h2 : Heap) × (insert_all two_nodes none (10 ∷ 20 ∷ 30 ∷ [])
      ≡ some (h1, list))
    × (for_next 4 h1 list ≡ some (h2, 10 ∷ 20 ∷ 30 ∷ []))
insert_all-for_next_example = insert_all-for_next 4 two_nodes (10 ∷ 20 ∷ 30 ∷ []) (omega arith)
