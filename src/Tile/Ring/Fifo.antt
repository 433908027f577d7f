-- ===== src/Tile/Ring/Fifo.antt =====
-- A queue of tiles as the view of the ring of src/stile.c, and the order that its ids keep.
use fastvideo.Buffers.{is_ready}
use mathlib.Core.Path.{ap₂}
use fastvideo.Prelude.Mod.{mod-round}
use fastvideo.Prelude.{
  ◌+◌, ℕ, ◌-◌, zero, suc, Bool, ◌%◌, ltb, length, Option, some, get_elem?, none, set, List, [], ◌∷◌,
  ◌++◌, false, if◌then◌else◌, arith, ◌≡◌, ◌≤◌, ◌<◌, refl, ap, ◌∙◌, get_elem?-set_ne, Bool-cases,
  inl, inr,
}
use fastvideo.Tile.Ring.{Slot, Ring}

abbrev pub wrap : ℕ → ℕ → ℕ
wrap n i = if ltb i n then i else i - n

abbrev pub tile_of : Option Slot → List ℕ
tile_of none = []
tile_of (some slot) = slot.tile

-- The `k` tiles from `start` on, in the reader's order, in a ring of `n` slots.
unfoldable pub tiles_from : ℕ → List Slot → ℕ → ℕ → List (List ℕ)
tiles_from n slots start zero = []
tiles_from n slots start (suc k) =
    tile_of (get_elem? slots (wrap n start)) ∷ tiles_from n slots (start + 1) k

-- One more tile stands at the end.
pub tiles_from-append :
    (n : ℕ) (slots : List Slot) (start k : ℕ)
    → tiles_from n slots start (suc k)
      ≡ tiles_from n slots start k ++ (tile_of (get_elem? slots (wrap n (start + k))) ∷ [])
unfolding tiles_from
tiles_from-append n slots start zero =
    ap (λ i. tile_of (get_elem? slots (wrap n i)) ∷ []) (omega arith)
tiles_from-append n slots start (suc k) =
    ap (λ ts. tile_of (get_elem? slots (wrap n start)) ∷ ts)
      (tiles_from-append n slots (start + 1) k
        ∙ ap (λ i. tiles_from n slots (start + 1) k ++ (tile_of (get_elem? slots (wrap n i)) ∷ []))
            (omega arith))

-- A slot outside of the tiles may change.
pub tiles_from-set_other :
    (n : ℕ) (slots : List Slot) (start k end : ℕ) (slot : Slot)
    → start + k ≤ end
    → end < start + n
    → end < n + n
    → tiles_from n (set slots (wrap n end) slot) start k ≡ tiles_from n slots start k
unfolding tiles_from
tiles_from-set_other n slots start zero end slot h1 h2 h3 = refl
tiles_from-set_other n slots start (suc k) end slot h1 h2 h3 =
    ap₂ ◌∷◌ (ap tile_of (get_elem?-set_ne slots slot (ground arith))) (
      tiles_from-set_other n slots (start + 1) k end slot (omega (arith, h1)) (omega (arith, h2))
        h3)

-- Places a round ahead are the same slots.
pub tiles_from-round :
    (n : ℕ) (slots : List Slot) (start k : ℕ)
    → start + k ≤ n
    → tiles_from n slots (start + n) k ≡ tiles_from n slots start k
unfolding tiles_from
tiles_from-round n slots start zero h = refl
tiles_from-round n slots start (suc k) h =
    ap₂ ◌∷◌ (ap (λ i. tile_of (get_elem? slots i)) (ground arith)) (
      ap (λ i. tiles_from n slots i k) (omega arith)
      ∙ tiles_from-round n slots (start + 1) k (omega (arith, h)))

pub next_id : (n i : ℕ) → i < n → (i + 1) % n ≡ wrap n (i + 1)
next_id n i below = elim (Bool-cases (ltb (i + 1) n)) [
  | inl inside ↦ rw inside ((mod-round n (i + 1) (ground (arith, inside))).1)
  | inr last ↦ rw last (last_id (ground (arith, last)))
]
  where
    last_id : n ≡ i + 1 → (i + 1) % n ≡ i + 1 - n
    last_id e =
        ap (λ k. k % n) (omega (arith, e)) ∙ (mod-round n 0 (omega arith)).0 ∙ omega (arith, e)

abbrev pub ready_at : Option Slot → Bool
ready_at none = false
ready_at (some slot) = is_ready slot.state

-- The ids lie in the ring, and the slots that are ready are those with a tile to read.
pub record IsRing (r : Ring) : Type 0 where
  pub read_in : r.readid < length r.slots
  pub pending_in : r.pending ≤ length r.slots
  pub write_at : r.writeid ≡ wrap (length r.slots) (r.readid + r.pending)
  pub marks :
      (k : ℕ)
      → k < length r.slots
      → ready_at (get_elem? r.slots (wrap (length r.slots) (r.readid + k))) ≡ ltb k r.pending

-- The tiles to read, the next one first.
abbrev pub contents : Ring → List (List ℕ)
contents r = tiles_from (length r.slots) r.slots r.readid r.pending

pub get_elem?-none {ℓ} : {A : Type ℓ} (xs : List A) (i : ℕ) → get_elem? xs i ≡ none → length xs ≤ i
get_elem?-none [] i e = omega arith
get_elem?-none (x ∷ xs) zero e = absurd (cc)
get_elem?-none (x ∷ xs) (suc i) e = omega (arith, get_elem?-none xs i e)
