-- ===== src/Tile/Ring.antt =====
-- The ring of slots between `stile_queue` and `stile_dequeue` of src/stile.c: the writer puts the tiles of
-- a frame in, the reader takes them out.
pub mod Fifo
pub mod Put
pub mod Take
use fastvideo.Buffers.{BufferState, dequeued, is_ready, ready}
use fastvideo.Prelude.{
  ◌+◌, ℕ, ◌-◌, Bool, ◌%◌, ltb, true, length, Option, ◌==◌, some, get_elem?, none, set, List, [],
  ◌∷◌, false, if◌then◌else◌,
}

-- One of `buffers`: its state, and the bytes of its memory that are in use.
pub record Slot : Type 0 where
  pub state : BufferState
  pub tile : List ℕ

-- The reader's device: `buffers`, of which there are `nbuffers`, and the ids into them.
pub record Ring : Type 0 where
  pub slots : List Slot
  pub writeid : ℕ
  pub readid : ℕ
  pub pending : ℕ

-- The body of the loop over the tiles, `tile` being what the converter wrote: `none` is `EAGAIN`.
unfoldable pub put : Ring → List ℕ → Option Ring
put r tile = elim (get_elem? r.slots r.writeid) [
  | none ↦ none
  | some slot ↦
      if is_ready slot.state
      then none
      else some (record {
        slots = set r.slots r.writeid (record { state = BufferState.ready; tile = tile });
        writeid = (r.writeid + 1) % length r.slots;
        readid = r.readid;
        pending = if ltb (length r.slots) (r.pending + 1) then length r.slots else r.pending + 1;
      })
]

-- All tiles of a frame: those before the first that finds no slot stay in the ring.
unfoldable pub put_all : Ring → List (List ℕ) → Bool × Ring
put_all r [] = (true, r)
put_all r (tile ∷ tiles) = elim (put r tile) [ none ↦ (false, r) | some r' ↦ put_all r' tiles ]

-- The reader's dequeue: the id, the bytes, and the ring behind it.
unfoldable pub take_tile : Ring → Option (ℕ × List ℕ × Ring)
take_tile r = if r.pending == 0 then none else elim (get_elem? r.slots r.readid) [
  | none ↦ none
  | some slot ↦ some (
    r.readid,
    slot.tile,
    record {
      slots = set r.slots r.readid (record slot { state = BufferState.dequeued });
      writeid = r.writeid;
      readid = (r.readid + 1) % length r.slots;
      pending = r.pending - 1;
    },
  )
]
