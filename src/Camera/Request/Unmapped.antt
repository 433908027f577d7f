-- ===== src/Camera/Request/Unmapped.antt =====
-- What src/sv4l2.c maps with one plane, and what it unmaps.
use fastvideo.Buffers.{done}
use fastvideo.Prelude.{
  ℕ, zero, suc, ◌+◌, List, [], ◌∷◌, ◌++◌, Bool, true, false, Option, none, some, if◌then◌else◌,
  ◌==◌, get_or, set, length, ◌≡◌, ◌≢◌, ap, sym, ◌∙◌, refl, arith,
}
use fastvideo.Prelude.Int.{pos}
use mathlib.Core.List.{append_assoc, append-nil}
use fastvideo.Camera.{BufType}
use fastvideo.Camera.Memory.{
  CameraBuffer, MemoryKind, mmap, map_plane, getsize, buffers_from, new_buffer, createbuffers,
}
use fastvideo.Camera.Request.{
  BufferDriver, MapEnd, map_failed, map_planes, map_all, offset_of, requestbuffer_mmap,
  request_mmap, mmap_granted, mapped,
}
use fastvideo.Camera.Request.Granted.{IsGranting}
use fastvideo.Camera.Request.Exported.{new_pool, filled_pool, take_all}
use fastvideo.Camera.Request.Plain.{Plain-new}
use fastvideo.Camera.Request.Destroy.{destroy_planes, destroy_all, sv4l2_destroy}

-- The mappings that exist, each an address and a length, the oldest first. Only the calls that map and unmap change
-- them, and the oldest may be unmapped with its length.
pub record IsTraced {State : Type 0} (d : BufferDriver State) : Type 0 where
  pub live : State → List (ℕ × ℕ)
  pub maps :
      (s : State) (size offset : ℕ)
      → (d.mmap s size offset).0 ≢ map_failed
      → live ((d.mmap s size offset).1) ≡ live s ++ (((d.mmap s size offset).0, size) ∷ [])
  pub unmaps :
      (s : State) (address size : ℕ) (rest : List (ℕ × ℕ))
      → live s ≡ (address, size) ∷ rest
      → live (d.munmap s address size) ≡ rest
  pub requests :
      (s : State) (kind : BufType) (memory : MemoryKind) (n : ℕ)
      → live ((d.reqbufs s kind memory n).1) ≡ live s
  pub queries : (s : State) (b : CameraBuffer) → live ((d.querybuf s b).1) ≡ live s

-- The mappings of the first planes.
abbrev pub mappings : List CameraBuffer → List (ℕ × ℕ)
mappings [] = []
mappings (b ∷ bs) = elim (get_or b.map 0 none) [
  | none ↦ mappings bs
  | some address ↦ (address, b.size) ∷ mappings bs
]

-- Buffers with one plane and room for its address.
abbrev pub Empty : List CameraBuffer → Type 0
Empty [] = Unit
Empty (b ∷ bs) = (b.several ≡ false) × ((rest : List (Option ℕ)) × (b.map ≡ none ∷ rest)) × Empty bs

Empty-new : (kind : BufType) (i n : ℕ) → Empty (buffers_from kind false 1 mmap i n)
unfolding buffers_from new_buffer
Empty-new kind i zero = tt
Empty-new kind i (suc n) = (refl, (_, refl), Empty-new kind (i + 1) n)

module _ {State : Type 0} (d : BufferDriver State) (t : IsTraced d) where
  destroy_all-live :
      (bs : List CameraBuffer) (s : State) (rest : List (ℕ × ℕ))
      → t.live s ≡ mappings bs ++ rest
      → t.live (destroy_all d 1 bs s) ≡ rest
  unfolding destroy_all destroy_planes
  destroy_all-live [] s rest exist = exist
  destroy_all-live (b ∷ bs) s rest exist =
      by_map (get_or b.map 0 none) (λ s1 e. destroy_all-live bs s1 rest e) exist
    where
      by_map :
          (o : Option ℕ)
          → ((s1 : State) → t.live s1 ≡ mappings bs ++ rest → t.live (destroy_all d 1 bs s1) ≡ rest)
          → t.live s
            ≡ (elim o as (λ x. List (ℕ × ℕ)) [
              | none ↦ mappings bs
              | some address ↦ (address, b.size) ∷ mappings bs
            ])
              ++ rest
          → t.live (
              destroy_all d 1 bs
                (elim o as (λ x. State) [ none ↦ s | some address ↦ d.munmap s address b.size ]))
            ≡ rest
      by_map none next e = next s e
      by_map (some address) next e =
          next (d.munmap s address b.size) (t.unmaps s address b.size (mappings bs ++ rest) e)

-- What mapping the only plane of a buffer leaves in it.
mapped_plane :
    (b : CameraBuffer) (address : ℕ) (rest : List (Option ℕ))
    → b.several ≡ false
    → b.map ≡ none ∷ rest
    → (get_or (map_plane b 0 (some address)).map 0 none ≡ some address)
      × ((map_plane b 0 (some address)).size ≡ getsize b 0)
unfolding map_plane getsize
mapped_plane b address rest plain empty =
    let same_map : (map_plane b 0 (some address)).map ≡ set b.map 0 (some address) = ground arith in
    (
      ap (λ m. get_or m 0 none) same_map ∙ ap (λ m. get_or (set m 0 (some address)) 0 none) empty,
      ground (arith, plain),
    )

module _ {State : Type 0} (d : BufferDriver State) (g : IsGranting d) (t : IsTraced d) where
  front : CameraBuffer → MapEnd × List CameraBuffer × State → MapEnd × List CameraBuffer × State
  front b (end_at, bs, s) = (end_at, b ∷ bs, s)

  map_one-live :
      (b : CameraBuffer) (s : State) (rest : List (Option ℕ))
      → b.several ≡ false
      → b.map ≡ none ∷ rest
      → (b1 : CameraBuffer) × (s1 : State) × (address : ℕ) × (map_planes d 1 0 b s ≡ (true, b1, s1))
        × (get_or b1.map 0 none ≡ some address)
        × (t.live s1 ≡ t.live s ++ ((address, b1.size) ∷ []))
  unfolding map_planes
  map_one-live b s rest plain empty =
      let (address, s1, got, valid) = g.maps s (getsize b 0) (offset_of b 0) in
      let (at_front, sized) = mapped_plane b address rest plain empty in
      (
        map_plane b 0 (some address),
        s1,
        address,
        ap
              (λ a.
                if a.0 == map_failed
                then (false, map_plane b 0 (some (a.0)), a.1)
                else (true, map_plane b 0 (some (a.0)), a.1))
              got
            ∙ ap
                (λ q.
                  if q
                  then (false, map_plane b 0 (some address), s1)
                  else (true, map_plane b 0 (some address), s1))
                {x = address == map_failed} {y = false} (ground (arith, valid)),
        at_front,
        sym (ap (λ a. t.live (a.1)) got)
            ∙ t.maps s (getsize b 0) (offset_of b 0) (λ e. valid (sym (ap (λ a. a.0) got) ∙ e))
            ∙ ap (λ a. t.live s ++ ((a.0, getsize b 0) ∷ [])) got
            ∙ ap (λ n. t.live s ++ ((address, n) ∷ [])) (sym sized),
      )

  map_all-live :
      (bs : List CameraBuffer) (j : ℕ) (s : State)
      → Empty bs
      → (bs1 : List CameraBuffer) × (s1 : State) × (map_all d 1 j bs s ≡ (MapEnd.complete, bs1, s1))
        × (t.live s1 ≡ t.live s ++ mappings bs1)
        × (length bs1 ≡ length bs)
        × (length (mappings bs1) ≡ length bs)
  unfolding map_all front
  map_all-live [] j s empty = ([], s, refl, sym (append-nil (t.live s)), refl, refl)
  map_all-live (b ∷ bs) j s empty =
      let (m, size, s1, filled) = g.fills s b in
      let (b2, s2, address, got, at_front, lives) =
        map_one-live (record b { m = m; length = size }) s1 empty.1.0 empty.0 empty.1.1 in
      let (bs3, s3, ran, lives3, same, many) = map_all-live bs (j + 1) s2 empty.2 in
      let after : Bool × CameraBuffer × State → MapEnd × List CameraBuffer × State = λ a.
        if a.0
        then (front a.1 (map_all d 1 (j + 1) bs a.2))
        else (MapEnd.unmapped, a.1 ∷ bs, a.2) in
      let more : mappings (b2 ∷ bs3) ≡ (address, b2.size) ∷ mappings bs3 =
        ap
          (λ o. elim o as (λ x. List (ℕ × ℕ)) [
            | none ↦ mappings bs3
            | some a ↦ (a, b2.size) ∷ mappings bs3
          ])
          at_front in
      (
        b2 ∷ bs3,
        s3,
        ap
              (λ q. elim q.0 as (λ o. MapEnd × List CameraBuffer × State) [
                | none ↦ (MapEnd.stopped j, b ∷ bs, q.1)
                | some b1 ↦ after (map_planes d 1 0 b1 q.1)
              ])
              filled
            ∙ ap after got
            ∙ ap (front b2) ran,
        lives3
            ∙ ap (λ l. l ++ mappings bs3) lives
            ∙ append_assoc (t.live s1) ((address, b2.size) ∷ []) (mappings bs3)
            ∙ ap (λ l. l ++ ((address, b2.size) ∷ mappings bs3))
                (sym (ap (λ a. t.live (a.1)) filled) ∙ t.queries s b)
            ∙ ap (λ l. t.live s ++ l) (sym more),
        ap suc same,
        ap length more ∙ ap suc many,
      )

  -- Over a driver that grants and maps what it is asked for and whose descriptor is closed without an effect on the
  -- mappings: a device with one plane and no buffers yet maps each of its buffers, and `sv4l2_destroy` unmaps each
  -- with the length that was mapped, so that no mapping is left.
  pub sv4l2_destroy-unmapped :
      (close : State → State) (closes : (s : State) → t.live (close s) ≡ t.live s) (kind : BufType)
      (count n : ℕ) (s : State)
      → t.live s ≡ []
      → (bs : List CameraBuffer) × (s1 s2 : State) × (requestbuffer_mmap d
            (new_pool kind false count)
            n
            s
          ≡ done (pos 0, filled_pool kind false count n bs, s1))
        × (length (t.live s1) ≡ n)
        × (sv4l2_destroy d close (filled_pool kind false count n bs) s1 ≡ done s2)
        × (t.live s2 ≡ [])
  unfolding requestbuffer_mmap request_mmap mmap_granted mapped createbuffers sv4l2_destroy
  sv4l2_destroy-unmapped close closes kind count n s none_yet =
      let (s1, granted) = g.grants s kind mmap n in
      let news : List CameraBuffer = buffers_from kind false 1 mmap 0 n in
      let (plain, sized) = Plain-new mmap kind 0 n in
      let (bs, s2, ran, lives, same, many) = map_all-live news 0 s1 (Empty-new kind 0 n) in
      let start : t.live s1 ≡ [] =
        sym (ap (λ a. t.live (a.1)) granted) ∙ t.requests s kind mmap n ∙ none_yet in
      let now : t.live s2 ≡ mappings bs = lives ∙ ap (λ l. l ++ mappings bs) start in
      (
        bs,
        s2,
        close (destroy_all d 1 bs s2),
        ap (λ a. done (mmap_granted d (new_pool kind false count) a)) granted
            ∙ ap (λ a. done (mapped d (record (new_pool kind false count) { nbuffers = n }) a)) ran,
        ap length now ∙ many ∙ sized,
        ap (λ l. done (close (destroy_all d 1 l s2))) ((take_all bs n (same ∙ sized)).0),
        closes (destroy_all d 1 bs s2)
            ∙ destroy_all-live d t bs s2 [] (now ∙ sym (append-nil (mappings bs))),
      )
