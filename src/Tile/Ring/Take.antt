-- ===== src/Tile/Ring/Take.antt =====
-- The reader's side of the ring of src/stile.c against a queue of tiles.
use fastvideo.Buffers.{BufferState}
use mathlib.Core.Path.{ap₂}
use fastvideo.Prelude.{
  ◌+◌, ℕ, ◌-◌, suc, ◌%◌, ltb, true, length, ◌==◌, some, get_elem?, none, set, List, [], ◌∷◌, arith,
  ◌≡◌, ◌≤◌, ◌<◌, ap, sym, ◌⊎◌, ◌∙◌, length-set, get_elem?-set_self, get_elem?-set_ne, Bool-cases,
  Option-cases, inl, inr,
}
use fastvideo.Tile.Ring.{Slot, Ring, take_tile}
use fastvideo.Tile.Ring.Fifo.{
  wrap, tile_of, ready_at, tiles_from, tiles_from-set_other, tiles_from-round, next_id,
  get_elem?-none, IsRing, contents,
}

-- Where the ring takes a tile from.
take_ring : Ring → Slot → Ring
take_ring r slot = record {
  slots = set r.slots r.readid (record slot { state = BufferState.dequeued });
  writeid = r.writeid;
  readid = (r.readid + 1) % length r.slots;
  pending = r.pending - 1;
}

-- The tiles behind the first one, from the id that the code goes on to.
tiles_from-next :
    (n : ℕ) (slots : List Slot) (i k : ℕ)
    → i < n
    → suc k ≤ n
    → tiles_from n slots (i + 1) k ≡ tiles_from n slots ((i + 1) % n) k
tiles_from-next n slots i k inside short = elim (Bool-cases (ltb (i + 1) n)) [
  | inl ahead ↦ ap (λ j. tiles_from n slots j k) (ground (arith, ahead, next_id n i inside))
  | inr last ↦
      ap (λ j. tiles_from n slots j k) (ground (arith, last, inside))
      ∙ tiles_from-round n slots 0 k (omega (arith, short))
      ∙ ap (λ j. tiles_from n slots j k) (ground (arith, last, next_id n i inside))
]

take_ring-contents :
    (r : Ring) (slot : Slot)
    → IsRing r
    → 0 < r.pending
    → get_elem? r.slots r.readid ≡ some slot
    → contents r ≡ slot.tile ∷ contents (take_ring r slot)
unfolding take_ring tiles_from
take_ring-contents r slot v more found =
    let n : ℕ = length r.slots in
    let q : ℕ = r.pending - 1 in
    let free : Slot = record slot { state = BufferState.dequeued } in
    let some_more : r.pending ≡ suc q = omega (arith, more) in
    ap (tiles_from n r.slots r.readid) some_more
    ∙ ap₂ ◌∷◌
        (ap (λ i. tile_of (get_elem? r.slots i)) (ground (arith, v.read_in)) ∙ ap tile_of found)
        (sym (
            tiles_from-set_other n r.slots (r.readid + 1) q (r.readid + n) free
              (omega (arith, v.pending_in, more)) (omega arith) (omega (arith, v.read_in)))
          ∙ ap (λ i. tiles_from n (set r.slots i free) (r.readid + 1) q) (ground (arith, v.read_in))
          ∙ tiles_from-next n (set r.slots r.readid free) r.readid q v.read_in
              (omega (arith, v.pending_in, more))
          ∙ ap (λ l. tiles_from l (set r.slots r.readid free) ((r.readid + 1) % n) q)
              (sym (length-set r.slots r.readid free)))

take_ring-IsRing : (r : Ring) (slot : Slot) → IsRing r → 0 < r.pending → IsRing (take_ring r slot)
unfolding take_ring
take_ring-IsRing r slot v more = record {
  read_in = ground (arith, same_length, next, v.read_in);
  pending_in = omega (arith, same_length, v.pending_in);
  write_at = v.write_at ∙ ground (arith, same_length, next, v.read_in, more, v.pending_in);
  marks = λ k below.
      ap₂ (λ l i. ready_at (get_elem? slots' (wrap l (i + k)))) same_length next
      ∙ mark k (omega (arith, same_length, below));
}
  where
    n : ℕ
    n = length r.slots

    free : Slot
    free = record slot { state = BufferState.dequeued }

    slots' : List Slot
    slots' = set r.slots r.readid free

    same_length : length slots' ≡ length r.slots
    same_length = length-set r.slots r.readid free

    next : (r.readid + 1) % n ≡ wrap n (r.readid + 1)
    next = next_id n r.readid v.read_in

    mark :
        (k : ℕ)
        → k < n
        → ready_at (get_elem? slots' (wrap n (wrap n (r.readid + 1) + k))) ≡ ltb k (r.pending - 1)
    mark k below = elim (Bool-cases (k + 1 == n)) [
      | inl last ↦
          ap (λ i. ready_at (get_elem? slots' i)) (ground (arith, last, v.read_in))
          ∙ ap ready_at (get_elem?-set_self r.slots r.readid free v.read_in)
          ∙ ground (arith, last, v.pending_in)
      | inr other ↦
          ap ready_at (get_elem?-set_ne r.slots free (ground (arith, other, v.read_in, below)))
          ∙ ap (λ i. ready_at (get_elem? r.slots i)) (ground (arith, other, v.read_in, below))
          ∙ v.marks (k + 1) (ground (arith, other, below))
          ∙ ground (arith, more)
    ]

-- The tile that is taken is the one that has waited longest, and nothing is taken only if none waits.
pub take_tile-cases :
    (r : Ring)
    → IsRing r
    → ((tile : List ℕ) × (r' : Ring) × (take_tile r ≡ some (r.readid, tile, r'))
        × IsRing r'
        × (contents r ≡ tile ∷ contents r'))
      ⊎ ((take_tile r ≡ none) × (contents r ≡ []))
unfolding take_tile take_ring tiles_from
take_tile-cases r v = elim (Bool-cases (r.pending == 0)) [
  | inl empty ↦
      inr
        (rw (take_tile, empty), ap (tiles_from (length r.slots) r.slots r.readid) (none_wait empty))
  | inr more ↦ elim (Option-cases (get_elem? r.slots r.readid)) [
    | inl missing ↦ absurd (omega (arith, get_elem?-none r.slots r.readid missing, v.read_in))
    | inr (slot, found) ↦
        let some_wait : 0 < r.pending = ground (arith, more) in
        inl (
          slot.tile,
          take_ring r slot,
          rw (take_tile, more, found),
          take_ring-IsRing r slot v some_wait,
          take_ring-contents r slot v some_wait found,
        )
  ]
]
  where
    none_wait : (r.pending == 0) ≡ true → r.pending ≡ 0
    none_wait e = ground (arith, e)
