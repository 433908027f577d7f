-- ===== src/Camera/Request/Granted.antt =====
-- What src/sv4l2.c makes of a driver that grants its buffers.

use fastvideo.Prelude.{
  ◌&&◌, ltb, ◌==◌, ℕ, zero, suc, ◌+◌, ◌^◌, List, [], ◌∷◌, Bool, true, false, Option, none, some,
  if◌then◌else◌, length, ◌≡◌, ◌≢◌, ap, ◌∙◌, refl, arith,
}
use fastvideo.Camera.{BufType}
use fastvideo.Camera.Memory.{
  CameraBuffer, MemoryKind, is_dmabuf, dmabuf, mmap, getdmafd, getsize, set_plane, map_plane,
}
use fastvideo.Camera.Request.{BufferDriver, MapEnd, map_failed, map_all, map_planes, offset_of}
use fastvideo.Camera.Request.Export.{
  export_all, export_planes, unmap_planes, getbufferfd, copy_all, copy_planes,
}
use fastvideo.Camera.Request.Plain.{Plain, descriptors, set_plain, fd_plain}

abbrev pub fds : (BufType → ℕ → ℕ) → BufType → ℕ → ℕ → List ℕ
fds fd kind i zero = []
fds fd kind i (suc n) = fd kind i ∷ fds fd kind (suc i) n

-- A driver that grants the buffers that are asked for: it fills in the place and the length of each, maps it, and
-- exports it under a descriptor of its own.
pub record IsGranting {State : Type 0} (d : BufferDriver State) : Type 0 where
  pub fd : BufType → ℕ → ℕ
  pub grants :
      (s : State) (kind : BufType) (memory : MemoryKind) (n : ℕ)
      → (s1 : State) × (d.reqbufs s kind memory n ≡ (some n, s1))
  pub fills :
      (s : State) (b : CameraBuffer)
      → (m size : ℕ) × (s1 : State) × (d.querybuf s b
          ≡ (some (record b { m = m; length = size }), s1))
  pub maps :
      (s : State) (size offset : ℕ)
      → (address : ℕ) × (s1 : State) × (d.mmap s size offset ≡ (address, s1))
        × (address ≢ map_failed)
  pub exports :
      (s : State) (kind : BufType) (i : ℕ)
      → (s1 : State) × (d.expbuf s kind i ≡ (some (fd kind i), s1))

module _ {State : Type 0} (d : BufferDriver State) (g : IsGranting d) where
  front : CameraBuffer → MapEnd × List CameraBuffer × State → MapEnd × List CameraBuffer × State
  front b (end_at, bs, s) = (end_at, b ∷ bs, s)

  map_one :
      (b : CameraBuffer) (s : State)
      → (b1 : CameraBuffer) × (s1 : State) × (map_planes d 1 0 b s ≡ (true, b1, s1))
        × (b1.several ≡ b.several)
        × (b1.memory ≡ b.memory)
        × (b1.kind ≡ b.kind)
        × (b1.index ≡ b.index)
  unfolding map_planes map_plane
  map_one b s =
      let (address, s1, mapped, valid) = g.maps s (getsize b 0) (offset_of b 0) in
      (
        map_plane b 0 (some address),
        s1,
        ap
              (λ a.
                if a.0 == map_failed
                then (false, map_plane b 0 (some (a.0)), a.1)
                else (true, map_plane b 0 (some (a.0)), a.1))
              mapped
            ∙ ap
                (λ t.
                  if t
                  then (false, map_plane b 0 (some address), s1)
                  else (true, map_plane b 0 (some address), s1))
                {x = address == map_failed} {y = false} (ground (arith, valid)),
        ground arith,
        ground arith,
        ground arith,
        ground arith,
      )

  pub map_all-Plain :
      (bs : List CameraBuffer) (kind : BufType) (i j : ℕ) (s : State)
      → Plain mmap kind i bs
      → (bs1 : List CameraBuffer) × (s1 : State) × (map_all d 1 j bs s ≡ (MapEnd.complete, bs1, s1))
        × Plain mmap kind i bs1
        × (length bs1 ≡ length bs)
  unfolding map_all front
  map_all-Plain [] kind i j s plain = ([], s, refl, tt, refl)
  map_all-Plain (b ∷ bs) kind i j s plain =
      let (m, size, s1, filled) = g.fills s b in
      let (b2, s2, mapped, several, memory, kinds, index) =
        map_one (record b { m = m; length = size }) s1 in
      let (bs3, s3, ran, plain3, same) = map_all-Plain bs kind (suc i) (j + 1) s2 plain.4 in
      let after : Bool × CameraBuffer × State → MapEnd × List CameraBuffer × State = λ a.
        if a.0
        then (front a.1 (map_all d 1 (j + 1) bs a.2))
        else (MapEnd.unmapped, a.1 ∷ bs, a.2) in
      (
        b2 ∷ bs3,
        s3,
        ap
              (λ q. elim q.0 as (λ o. MapEnd × List CameraBuffer × State) [
                | none ↦ (MapEnd.stopped j, b ∷ bs, q.1)
                | some b1 ↦ after (map_planes d 1 0 b1 q.1)
              ])
              filled
            ∙ ap after mapped
            ∙ ap (front b2) ran,
        (several ∙ plain.0, memory ∙ plain.1, kinds ∙ plain.2, index ∙ plain.3, plain3),
        ap suc same,
      )

  exported_one :
      (b : CameraBuffer) (kind : BufType) (i : ℕ) (s : State)
      → b.memory ≡ mmap
      → b.kind ≡ kind
      → b.index ≡ i
      → (s1 : State) × (getbufferfd d b 0 s ≡ (some (g.fd kind i), s1))
  unfolding getbufferfd
  exported_one b kind i s memory is_kind index =
      let (s1, exported) = g.exports s kind i in
      (
        s1,
        ap (λ t. if t then (some (getdmafd b 0), s) else d.expbuf s b.kind b.index)
              {x = is_dmabuf b.memory && ltb 0 (getdmafd b 0) && ltb (getdmafd b 0) (2 ^ 31)}
              {y = false} (ground (arith, memory))
            ∙ ap (λ k. d.expbuf s k b.index) is_kind
            ∙ ap (d.expbuf s kind) index
            ∙ exported,
      )

  pub export_all-Plain :
      (bs : List CameraBuffer) (kind : BufType) (i j : ℕ) (s : State)
      → Plain mmap kind i bs
      → (bs1 : List CameraBuffer) × (s1 : State) × (export_all d 1 j bs s
          ≡ (MapEnd.complete, bs1, s1))
        × Plain mmap kind i bs1
        × (length bs1 ≡ length bs)
        × (descriptors bs1 ≡ fds g.fd kind i (length bs))
  unfolding export_all export_planes unmap_planes front
  export_all-Plain [] kind i j s plain = ([], s, refl, tt, refl, refl)
  export_all-Plain (b ∷ bs) kind i j s plain =
      let (s1, exported) = exported_one b kind i s plain.1 plain.2 plain.3 in
      let fd : ℕ = g.fd kind i in
      let (is_fd, several, memory, kinds, index) = set_plain b fd (getsize b 0) plain.0 in
      let both = export_planes d 1 1 0 fd b s1 in
      let (bs3, s3, ran, plain3, same, given) =
        export_all-Plain bs kind (suc i) (j + 1) both.1 plain.4 in
      (
        both.0 ∷ bs3,
        s3,
        ap
              (λ q. elim q.0 as (λ o. MapEnd × List CameraBuffer × State) [
                | none ↦ (MapEnd.stopped j, b ∷ bs, q.1)
                | some f ↦
                    front (export_planes d 1 1 0 f b q.1).0
                      (export_all d 1 (j + 1) bs (export_planes d 1 1 0 f b q.1).1)
              ])
              exported
            ∙ ap (front both.0) ran,
        (several, memory ∙ plain.1, kinds ∙ plain.2, index ∙ plain.3, plain3),
        ap suc same,
        ap (λ m. m ∷ descriptors bs3) is_fd ∙ ap (λ l. fd ∷ l) given,
      )

  pub copy_all-Plain :
      (olds news : List CameraBuffer) (kind : BufType) (i : ℕ)
      → Plain mmap kind i olds
      → Plain dmabuf kind i news
      → length news ≡ length olds
      → (bs1 : List CameraBuffer) × (copy_all d 1 olds news ≡ some bs1)
        × Plain dmabuf kind i bs1
        × (length bs1 ≡ length olds)
        × (descriptors bs1 ≡ descriptors olds)
  unfolding copy_all copy_planes
  copy_all-Plain [] [] kind i plain plain1 same = ([], refl, tt, refl, refl)
  copy_all-Plain [] (b ∷ bs) kind i plain plain1 same = absurd (omega (arith, same))
  copy_all-Plain (old ∷ olds) [] kind i plain plain1 same = absurd (omega (arith, same))
  copy_all-Plain (old ∷ olds) (b ∷ bs) kind i plain plain1 same =
      let (bs3, ran, plain3, same3, given) =
        copy_all-Plain olds bs kind (suc i) plain.4 plain1.4 (omega (arith, same)) in
      let (is_fd, several, memory, kinds, index) =
        set_plain b (getdmafd old 0) (getsize old 0) plain1.0 in
      (
        set_plane b 0 (getdmafd old 0) (getsize old 0) ∷ bs3,
        ap
            (λ o. elim o as (λ r. Option (List CameraBuffer)) [
              | none ↦ none
              | some rest ↦ some (set_plane b 0 (getdmafd old 0) (getsize old 0) ∷ rest)
            ])
            ran,
        (several, memory ∙ plain1.1, kinds ∙ plain1.2, index ∙ plain1.3, plain3),
        ap suc same3,
        ap (λ m. m ∷ descriptors bs3) (is_fd ∙ fd_plain old plain.0) ∙ ap (λ l. old.m ∷ l) given,
      )
