-- ===== src/Camera/Request/Exported.antt =====
-- What the buffers of a master of src/sv4l2.c are after it exported them, with one plane.

use mathlib.Core.List.{append-nil}
use fastvideo.Buffers.{done}
use fastvideo.Prelude.{
  ℕ, zero, suc, List, [], ◌∷◌, ◌++◌, Bool, true, false, some, length, take, drop, ◌≡◌, ap, ◌∙◌,
  refl, arith,
}
use fastvideo.Prelude.Int.{pos}
use fastvideo.Camera.{BufType}
use fastvideo.Camera.Memory.{CameraBuffer, dmabuf, mmap, createbuffers, buffers_from}
use fastvideo.Camera.Request.{
  BufferDriver, Pool, HeldBuffers, MapEnd, requestbuffer_mmap, request_mmap, mmap_granted, mapped,
}
use fastvideo.Camera.Request.Export.{
  requestbuffer_dmabuf, dmabuf_asked, export_mapped, export_used, export_all, give_exported,
  exported_given_back, request_dmabuf, dmabuf_granted, copied, copy_all,
}
use fastvideo.Camera.Request.Plain.{Plain, descriptors, Plain-new}
use fastvideo.Camera.Request.Granted.{
  IsGranting, fds, map_all-Plain, export_all-Plain, copy_all-Plain,
}

pub take_all :
    (bs : List CameraBuffer) (n : ℕ) → length bs ≡ n → (take n bs ≡ bs) × (drop n bs ≡ [])
take_all [] zero same = (refl, refl)
take_all [] (suc n) same = absurd (omega (arith, same))
take_all (b ∷ bs) zero same = absurd (omega (arith, same))
take_all (b ∷ bs) (suc n) same =
    let rest = take_all bs n (omega (arith, same)) in (ap (λ l. b ∷ l) rest.0, rest.1)

-- A device with one plane that has no buffers yet.
abbrev pub new_pool : BufType → Bool → ℕ → Pool
new_pool kind master count = record {
  kind = kind;
  master = master;
  mplane = false;
  nplanes = 1;
  config_nbuffers = count;
  nbuffers = 0;
  buffers = HeldBuffers.absent;
}

-- The same device with its buffers.
abbrev pub filled_pool : BufType → Bool → ℕ → ℕ → List CameraBuffer → Pool
filled_pool kind master count n bs = record (new_pool kind master count) {
  nbuffers = n;
  buffers = HeldBuffers.held bs;
}

module _ {State : Type 0} (d : BufferDriver State) (g : IsGranting d) (kind : BufType)
    (count : ℕ) where
  mmap-granted :
      (master : Bool) (n : ℕ) (s : State)
      → (bs : List CameraBuffer) × (s1 : State) × (requestbuffer_mmap d
            (new_pool kind master count)
            n
            s
          ≡ done (pos 0, filled_pool kind master count n bs, s1))
        × Plain mmap kind 0 bs
        × (length bs ≡ n)
  unfolding requestbuffer_mmap request_mmap mmap_granted mapped createbuffers
  mmap-granted master n s =
      let (s1, granted) = g.grants s kind mmap n in
      let (plain, sized) = Plain-new mmap kind 0 n in
      let (bs, s2, ran, plain2, same) =
        map_all-Plain d g (buffers_from kind false 1 mmap 0 n) kind 0 0 s1 plain in
      (
        bs,
        s2,
        ap (λ a. done (mmap_granted d (new_pool kind master count) a)) granted
            ∙ ap (λ a. done (mapped d (record (new_pool kind master count) { nbuffers = n }) a))
                ran,
        plain2,
        same ∙ sized,
      )

  -- The buffers are all exported, none is behind those that are counted.
  used-exported :
      (n : ℕ) (bs bs2 : List CameraBuffer) (s s2 : State)
      → length bs ≡ n
      → export_all d 1 0 bs s ≡ (MapEnd.complete, bs2, s2)
      → export_used d (filled_pool kind true count n bs) bs s ≡ (MapEnd.complete, bs2, s2)
  unfolding export_used
  used-exported n bs bs2 s s2 same ran =
      let (all, no_more) = take_all bs n same in
      ap (λ l. behind (export_all d 1 0 l s) (drop n bs)) all
      ∙ ap (λ l. behind (export_all d 1 0 bs s) l) no_more
      ∙ ap (λ a. behind a []) ran
      ∙ ap (λ l. (MapEnd.complete, l, s2)) (append-nil bs2)
    where
      behind :
          MapEnd × List CameraBuffer × State
          → List CameraBuffer
          → MapEnd × List CameraBuffer × State
      behind (end_at, l, s1) rest = (end_at, l ++ rest, s1)

  -- The exported buffers become as many new ones, with the same descriptors.
  given-exported :
      (n : ℕ) (p : Pool) (bs : List CameraBuffer) (s : State)
      → p.kind ≡ kind
      → p.mplane ≡ false
      → p.nplanes ≡ 1
      → Plain mmap kind 0 bs
      → length bs ≡ suc n
      → (bs1 : List CameraBuffer) × (s1 : State) × (give_exported d p
            (suc n)
            (MapEnd.complete, bs, s)
          ≡ done (pos 0, record p { nbuffers = suc n; buffers = HeldBuffers.held bs1 }, s1))
        × Plain dmabuf kind 0 bs1
        × (length bs1 ≡ suc n)
        × (descriptors bs1 ≡ descriptors bs)
  unfolding give_exported exported_given_back request_dmabuf dmabuf_granted copied createbuffers
  given-exported n p [] s is_kind one_plane single plain same = absurd (omega (arith, same))
  given-exported n p (b ∷ bs) s is_kind one_plane single plain same =
      let (s1, back) = g.grants s b.kind b.memory 0 in
      let (s2, granted) = g.grants s1 p.kind dmabuf (suc n) in
      let (plain_news, sized) = Plain-new dmabuf kind 0 (suc n) in
      let (bs3, ran, plain3, same3, given) =
        copy_all-Plain d g (b ∷ bs) (buffers_from kind false 1 dmabuf 0 (suc n)) kind 0 plain
          plain_news (omega (arith, sized, same)) in
      let p1 : Pool = record p { buffers = HeldBuffers.held (b ∷ bs) } in
      (
        bs3,
        s2,
        ap (exported_given_back d p1 (b ∷ bs) (suc n)) back
            ∙ ap (dmabuf_granted d p1 (some (b ∷ bs))) granted
            ∙ ap
                (λ k.
                  copied d (record p1 { nbuffers = suc n }) s2
                    (copy_all d p.nplanes (b ∷ bs)
                      (buffers_from k p.mplane p.nplanes dmabuf 0 (suc n))))
                is_kind
            ∙ ap
                (λ m.
                  copied d (record p1 { nbuffers = suc n }) s2
                    (copy_all d p.nplanes (b ∷ bs)
                      (buffers_from kind m p.nplanes dmabuf 0 (suc n))))
                one_plane
            ∙ ap
                (λ k.
                  copied d (record p1 { nbuffers = suc n }) s2
                    (copy_all d k (b ∷ bs) (buffers_from kind false k dmabuf 0 (suc n))))
                single
            ∙ ap (copied d (record p1 { nbuffers = suc n }) s2) ran,
        plain3,
        same3 ∙ same,
        given,
      )

  pub dmabuf-granted :
      (n : ℕ) (s : State)
      → (bs : List CameraBuffer) × (s1 : State) × (requestbuffer_dmabuf d
            (new_pool kind true count)
            (suc n)
            s
          ≡ done (pos 0, filled_pool kind true count (suc n) bs, s1))
        × Plain dmabuf kind 0 bs
        × (length bs ≡ suc n)
        × (descriptors bs ≡ fds g.fd kind 0 (suc n))
  unfolding requestbuffer_dmabuf dmabuf_asked export_mapped
  dmabuf-granted n s =
      let (bs, s1, ran, plain, same) = mmap-granted true (suc n) s in
      let (bs1, s2, exported, plain1, same1, given) = export_all-Plain d g bs kind 0 0 s1 plain in
      let (bs2, s3, granted, plain2, same2, given2) =
        given-exported n (filled_pool kind true count (suc n) bs) bs1 s2 refl refl refl plain1
          (same1 ∙ same) in
      (
        bs2,
        s3,
        ap (export_mapped d (suc n)) ran
            ∙ ap (give_exported d (filled_pool kind true count (suc n) bs) (suc n))
                (used-exported (suc n) bs bs1 s1 s2 same exported)
            ∙ granted,
        plain2,
        same2,
        given2 ∙ given ∙ ap (fds g.fd kind 0) same,
      )
