-- ===== src/Tile/Ring/Put.antt =====
-- The writer's side of the ring of src/stile.c against a queue of tiles.
use fastvideo.Buffers.{BufferState, is_ready}
use mathlib.Core.Path.{ap₂}
use fastvideo.Prelude.{
  ◌+◌, ℕ, suc, ◌%◌, ltb, true, length, ◌==◌, some, get_elem?, none, set, List, [], ◌∷◌, ◌++◌, false,
  if◌then◌else◌, arith, ◌≡◌, ◌<◌, ap, ◌⊎◌, ◌∙◌, length-set, not, get_elem?-set_self,
  get_elem?-set_ne, Bool-cases, Option-cases, inl, inr,
}
use fastvideo.Tile.Ring.{Slot, Ring, put}
use fastvideo.Tile.Ring.Fifo.{
  wrap, tile_of, ready_at, tiles_from, tiles_from-append, tiles_from-set_other, next_id,
  get_elem?-none, IsRing, contents,
}

-- Where the ring puts and what it puts there.
put_ring : Ring → List ℕ → Ring
put_ring r tile = record {
  slots = set r.slots r.writeid (record { state = BufferState.ready; tile = tile });
  writeid = (r.writeid + 1) % length r.slots;
  readid = r.readid;
  pending = if ltb (length r.slots) (r.pending + 1) then length r.slots else r.pending + 1;
}

module _ (r : Ring) (v : IsRing r) where
  write_in : r.writeid < length r.slots
  write_in = ground (arith, v.write_at, v.read_in, v.pending_in)

  -- The slot to write to is ready exactly when the ring is full.
  write_mark : ready_at (get_elem? r.slots r.writeid) ≡ not (ltb r.pending (length r.slots))
  write_mark = elim (Bool-cases (ltb r.pending (length r.slots))) [
    | inl room ↦ rw room (at_write ∙ v.marks r.pending (ground (arith, room)) ∙ ground arith)
    | inr full ↦ rw full (
        ap (λ i. ready_at (get_elem? r.slots i)) (round full)
        ∙ v.marks 0 (omega (arith, v.read_in))
        ∙ ground (arith, full, v.read_in))
  ]
    where
      at_write :
          ready_at (get_elem? r.slots r.writeid)
          ≡ ready_at (get_elem? r.slots (wrap (length r.slots) (r.readid + r.pending)))
      at_write = ap (λ i. ready_at (get_elem? r.slots i)) v.write_at

      round :
          ltb r.pending (length r.slots) ≡ false → r.writeid ≡ wrap (length r.slots) (r.readid + 0)
      round full = v.write_at ∙ ground (arith, full, v.pending_in, v.read_in)

put_ring-contents :
    (r : Ring) (tile : List ℕ)
    → IsRing r
    → r.pending < length r.slots
    → contents (put_ring r tile) ≡ contents r ++ (tile ∷ [])
unfolding put_ring
put_ring-contents r tile v room =
    let n : ℕ = length r.slots in
    let slot : Slot = record { state = BufferState.ready; tile = tile } in
    let end : ℕ = r.readid + r.pending in
    ap₂ (λ l k. tiles_from l (set r.slots r.writeid slot) r.readid k)
      (length-set r.slots r.writeid slot) (ground (arith, room))
    ∙ ap (λ w. tiles_from n (set r.slots w slot) r.readid (suc r.pending)) v.write_at
    ∙ tiles_from-append n (set r.slots (wrap n end) slot) r.readid r.pending
    ∙ ap₂ (λ ts t. ts ++ (t ∷ []))
        (tiles_from-set_other n r.slots r.readid r.pending end slot (omega arith)
          (omega (arith, room)) (omega (arith, room, v.read_in)))
        (ap tile_of
          (get_elem?-set_self r.slots (wrap n end) slot (ground (arith, room, v.read_in))))

put_ring-IsRing :
    (r : Ring) (tile : List ℕ) → IsRing r → r.pending < length r.slots → IsRing (put_ring r tile)
unfolding put_ring
put_ring-IsRing r tile v room = record {
  read_in = ground (arith, same_length, v.read_in);
  pending_in = ground (arith, same_length, room);
  write_at =
      next_id n r.writeid (write_in r v) ∙ ground (arith, same_length, v.write_at, v.read_in, room);
  marks = λ k below.
      ap (λ l. ready_at (get_elem? slots' (wrap l (r.readid + k)))) same_length
      ∙ mark k (omega (arith, same_length, below));
}
  where
    n : ℕ
    n = length r.slots

    slot : Slot
    slot = record { state = BufferState.ready; tile = tile }

    slots' : List Slot
    slots' = set r.slots r.writeid slot

    same_length : length slots' ≡ length r.slots
    same_length = length-set r.slots r.writeid slot

    mark :
        (k : ℕ)
        → k < n
        → ready_at (get_elem? slots' (wrap n (r.readid + k)))
          ≡ ltb k (if ltb n (r.pending + 1) then n else r.pending + 1)
    mark k below = elim (Bool-cases (k == r.pending)) [
      | inl here ↦
          ap (λ i. ready_at (get_elem? slots' i)) (ground (arith, here, v.write_at))
          ∙ ap ready_at (get_elem?-set_self r.slots r.writeid slot (write_in r v))
          ∙ ground (arith, here, room)
      | inr other ↦
          ap ready_at (
            get_elem?-set_ne r.slots slot
              (ground (arith, other, v.write_at, v.read_in, below, room)))
          ∙ v.marks k below
          ∙ ground (arith, other, room)
    ]

-- A tile is put behind those that wait to be read, or is refused, and then every slot holds a tile that waits.
pub put-cases :
    (r : Ring) (tile : List ℕ)
    → IsRing r
    → ((r' : Ring) × (put r tile ≡ some r') × IsRing r' × (contents r' ≡ contents r ++ (tile ∷ [])))
      ⊎ ((put r tile ≡ none) × (r.pending ≡ length r.slots))
unfolding put put_ring
put-cases r tile v = elim (Option-cases (get_elem? r.slots r.writeid)) [
  | inl missing ↦ absurd (omega (arith, get_elem?-none r.slots r.writeid missing, write_in r v))
  | inr (slot, found) ↦ elim (Bool-cases (is_ready slot.state)) [
    | inl waiting ↦ inr (rw (put, found, waiting), full_ring (ap ready_at found ∙ waiting))
    | inr free ↦ inl (
      put_ring r tile,
      rw (put, found, free),
      put_ring-IsRing r tile v (room (ap ready_at found ∙ free)),
      put_ring-contents r tile v (room (ap ready_at found ∙ free)),
    )
  ]
]
  where
    full_ring : ready_at (get_elem? r.slots r.writeid) ≡ true → r.pending ≡ length r.slots
    full_ring e = ground (arith, e, write_mark r v, v.pending_in)

    room : ready_at (get_elem? r.slots r.writeid) ≡ false → r.pending < length r.slots
    room e = ground (arith, e, write_mark r v, v.pending_in)
