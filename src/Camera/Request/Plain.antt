-- ===== src/Camera/Request/Plain.antt =====
-- Buffers of src/sv4l2.c with one plane, and the array of descriptors between two devices.
use mathlib.Core.Path.{subst}
use mathlib.Core.List.{append_assoc}
use fastvideo.Buffers.{done}
use fastvideo.Prelude.{
  not, ◌||◌, ◌==◌, ℕ, zero, suc, ◌+◌, ◌<◌, List, [], ◌∷◌, ◌++◌, false, none, some, if◌then◌else◌,
  length, get_elem?, set, ◌≡◌, ap, sym, ◌∙◌, refl, arith,
}
use fastvideo.Prelude.Int.{pos, negsuc}
use fastvideo.Camera.{BufType}
use fastvideo.Camera.Memory.{
  CameraBuffer, MemoryKind, is_dmabuf, dmabuf, buffers_from, new_buffer, getdmafd, set_plane,
}
use fastvideo.Camera.Request.Link.{
  link_all, link_planes, linked_front, put_front, write_all, write_planes,
}

-- The descriptors of buffers with one plane.
abbrev pub descriptors : List CameraBuffer → List ℕ
descriptors [] = []
descriptors (b ∷ bs) = b.m ∷ descriptors bs

-- Buffers with one plane, of one kind of memory and one type, with their places from `i` on as their indexes.
abbrev pub Plain : MemoryKind → BufType → ℕ → List CameraBuffer → Type 0
Plain memory kind i [] = Unit
Plain memory kind i (b ∷ bs) =
    (b.several ≡ false)
    × (b.memory ≡ memory)
    × (b.kind ≡ kind)
    × (b.index ≡ i)
    × Plain memory kind (suc i) bs

pub Plain-new :
    (memory : MemoryKind) (kind : BufType) (i n : ℕ)
    → Plain memory kind i (buffers_from kind false 1 memory i n)
      × (length (buffers_from kind false 1 memory i n) ≡ n)
unfolding buffers_from new_buffer
Plain-new memory kind i zero = (tt, refl)
Plain-new memory kind i (suc n) =
    let rest = Plain-new memory kind (suc i) n in
    let next : suc i ≡ i + 1 = omega arith in
    (
      (
        refl,
        refl,
        refl,
        refl,
        subst (λ k. Plain memory kind (suc i) (buffers_from kind false 1 memory k n)) next rest.0,
      ),
      ap suc (subst (λ k. length (buffers_from kind false 1 memory k n) ≡ n) next rest.1),
    )

pub fd_plain : (b : CameraBuffer) → b.several ≡ false → getdmafd b 0 ≡ b.m
unfolding getdmafd
fd_plain b plain = ground (arith, plain)

set_behind :
    (before : List ℕ) (z v : ℕ) (zeros : List ℕ)
    → set (before ++ (z ∷ zeros)) (length before) v ≡ (before ++ (v ∷ [])) ++ zeros
set_behind [] z v zeros = refl
set_behind (x ∷ before) z v zeros = ap (λ l. x ∷ l) (set_behind before z v zeros)

length_one : (before : List ℕ) (v : ℕ) → length before + 1 ≡ length (before ++ (v ∷ []))
length_one [] v = omega arith
length_one (x ∷ before) v = omega (arith, length_one before v)

get_behind :
    (before : List ℕ) (v : ℕ) (after : List ℕ)
    → get_elem? (before ++ (v ∷ after)) (length before) ≡ some v
get_behind [] v after = refl
get_behind (x ∷ before) v after = get_behind before v after

length_behind :
    (before : List ℕ) (v : ℕ) (after : List ℕ) → length before < length (before ++ (v ∷ after))
length_behind [] v after = omega arith
length_behind (x ∷ before) v after = omega (arith, length_behind before v after)

-- The entries of an array that is filled from one place on.
pub write_all-descriptors :
    (bs : List CameraBuffer) (memory : MemoryKind) (kind : BufType) (k : ℕ) (before zeros : List ℕ)
    → Plain memory kind k bs
    → length zeros ≡ length bs
    → write_all getdmafd 1 (length before) bs (before ++ zeros) ≡ before ++ descriptors bs
unfolding write_all write_planes getdmafd
write_all-descriptors [] memory kind k before [] plain same = refl
write_all-descriptors [] memory kind k before (z ∷ zeros) plain same = absurd (omega (arith, same))
write_all-descriptors (b ∷ bs) memory kind k before [] plain same = absurd (omega (arith, same))
write_all-descriptors (b ∷ bs) memory kind k before (z ∷ zeros) plain same =
    ap
      (λ v.
        write_all getdmafd 1 (length before + 1) bs (set (before ++ (z ∷ zeros)) (length before) v))
      (fd_plain b plain.0)
    ∙ ap (write_all getdmafd 1 (length before + 1) bs) (set_behind before z b.m zeros)
    ∙ ap (λ n. write_all getdmafd 1 n bs ((before ++ (b.m ∷ [])) ++ zeros)) (length_one before b.m)
    ∙ write_all-descriptors bs memory kind (suc k) (before ++ (b.m ∷ [])) zeros plain.4
        (omega (arith, same))
    ∙ append_assoc before (b.m ∷ []) (descriptors bs)

pub set_plain :
    (b : CameraBuffer) (e size : ℕ)
    → b.several ≡ false
    → ((set_plane b 0 e size).m ≡ e)
      × ((set_plane b 0 e size).several ≡ false)
      × ((set_plane b 0 e size).memory ≡ b.memory)
      × ((set_plane b 0 e size).kind ≡ b.kind)
      × ((set_plane b 0 e size).index ≡ b.index)
unfolding set_plane
set_plain b e size plain = ground (arith, plain)

-- Buffers of descriptors take the entries of the array in order.
pub link_all-descriptors :
    (bs : List CameraBuffer) (kind : BufType) (k : ℕ) (before entries : List ℕ) (size : ℕ)
    → Plain dmabuf kind k bs
    → length entries ≡ length bs
    → (bs1 : List CameraBuffer) × (link_all 1
          (length bs)
          (length before)
          (before ++ entries)
          size
          bs
        ≡ done (pos 0, bs1))
      × (descriptors bs1 ≡ entries)
unfolding link_all link_planes linked_front set_plane
link_all-descriptors [] kind k before [] size plain same = ([], refl, refl)
link_all-descriptors [] kind k before (e ∷ entries) size plain same = absurd (omega (arith, same))
link_all-descriptors (b ∷ bs) kind k before [] size plain same = absurd (omega (arith, same))
link_all-descriptors (b ∷ bs) kind k before (e ∷ entries) size plain same =
    let (bs1, ran, taken) =
      link_all-descriptors bs kind (suc k) (before ++ (e ∷ [])) entries size plain.4
        (omega (arith, same)) in
    (
      set_plane b 0 e size ∷ bs1,
      ap
            (λ t.
              if t
              then done (negsuc 0, b ∷ bs)
              else linked_front (link_planes 1 0 (length before) (before ++ (e ∷ entries)) size b)
                  (link_all 1 (length bs) (length before + 1) (before ++ (e ∷ entries)) size bs))
            {x = not (is_dmabuf b.memory) || (length before == length (before ++ (e ∷ entries)))}
            {y = false} (ground (arith, plain.1, length_behind before e entries))
          ∙ ap
              (λ o.
                linked_front (elim o [ none ↦ none | some fd ↦ some (set_plane b 0 fd size) ])
                  (link_all 1 (length bs) (length before + 1) (before ++ (e ∷ entries)) size bs))
              (get_behind before e entries)
          ∙ ap
              (λ n.
                put_front (set_plane b 0 e size)
                  (link_all 1 (length bs) n (before ++ (e ∷ entries)) size bs))
              (length_one before e)
          ∙ ap
              (λ l.
                put_front (set_plane b 0 e size)
                  (link_all 1 (length bs) (length (before ++ (e ∷ []))) l size bs))
              (sym (append_assoc before (e ∷ []) entries))
          ∙ ap (put_front (set_plane b 0 e size)) ran,
      ap (λ m. m ∷ descriptors bs1) {x = (set_plane b 0 e size).m} {y = e}
            ((set_plain b e size plain.0).0)
          ∙ ap (λ l. e ∷ l) taken,
    )
