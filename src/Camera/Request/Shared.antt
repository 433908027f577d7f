-- ===== src/Camera/Request/Shared.antt =====
-- The descriptors that one device of src/sv4l2.c exports, and those that another one takes.

use fastvideo.Buffers.{done}
use fastvideo.Prelude.{
  ℕ, suc, ◌*◌, List, [], ◌∷◌, true, false, none, some, length, replicate, ◌≡◌, ap, sym, ◌∙◌, refl,
  arith, length-replicate,
}
use fastvideo.Prelude.Int.{pos}
use fastvideo.Camera.{BufType}
use fastvideo.Camera.Memory.{CameraBuffer, dmabuf, createbuffers, buffers_from, getdmafd}
use fastvideo.Camera.Request.{BufferDriver, Pool, HeldBuffers}
use fastvideo.Camera.Request.Export.{
  requestbuffer_dmabuf, dmabuf_asked, request_dmabuf, dmabuf_granted,
}
use fastvideo.Camera.Request.Link.{linkdma, link_all, linked_pool, write_all}
use fastvideo.Camera.Request.Ask.{
  Targets, BufferRequest, sv4l2_requestbuffer, request_of, with_targets, targets_out,
  export_targets, then_linkdma, after_linkdma, without_targets,
}
use fastvideo.Camera.Request.Plain.{
  Plain, descriptors, Plain-new, write_all-descriptors, link_all-descriptors,
}
use fastvideo.Camera.Request.Granted.{IsGranting, fds}
use fastvideo.Camera.Request.Exported.{new_pool, filled_pool, take_all, dmabuf-granted}

module _ {State : Type 0} (d : BufferDriver State) (g : IsGranting d) (kind : BufType)
    (count : ℕ) where
  -- The array that a master hands out has the descriptor of each buffer at its place.
  targets-descriptors :
      (n : ℕ) (bs : List CameraBuffer)
      → Plain dmabuf kind 0 bs
      → length bs ≡ suc n
      → (t : Targets) × (export_targets getdmafd
            (filled_pool kind true count (suc n) bs)
            (HeldBuffers.held bs)
          ≡ some t)
        × (t.count ≡ suc n)
        × (t.entries ≡ descriptors bs)
  unfolding export_targets
  targets-descriptors n [] plain same = absurd (omega (arith, same))
  targets-descriptors n (b ∷ bs) plain same = (
    _,
    refl,
    refl,
    ap (λ l. write_all getdmafd 1 0 l (replicate (suc n * 1) 0))
          ((take_all (b ∷ bs) (suc n) same).0)
        ∙ write_all-descriptors (b ∷ bs) dmabuf kind 0 [] (replicate (suc n * 1) 0) plain
            (length-replicate (suc n * 1) 0 ∙ omega (arith, same)),
  )

  -- A device without buffers takes the descriptors it is given, one for each of its new buffers.
  dmabuf-linked :
      (entries : List ℕ) (size : ℕ) (s : State)
      → (bs : List CameraBuffer) × (s1 : State) × (sv4l2_requestbuffer d
            (new_pool kind false count)
            (BufferRequest.dmabuf entries size)
            s
          ≡ done (pos 0, none, filled_pool kind false count (length entries) bs, s1))
        × (descriptors bs ≡ entries)
  unfolding sv4l2_requestbuffer request_of requestbuffer_dmabuf dmabuf_asked request_dmabuf
      dmabuf_granted then_linkdma after_linkdma linkdma linked_pool without_targets createbuffers
  dmabuf-linked entries size s =
      let n : ℕ = length entries in
      let (s1, granted) = g.grants s kind dmabuf n in
      let (plain, sized) = Plain-new dmabuf kind 0 n in
      let news : List CameraBuffer = buffers_from kind false 1 dmabuf 0 n in
      let (bs, ran, taken) = link_all-descriptors news kind 0 [] entries size plain (sym sized) in
      let p1 : Pool = filled_pool kind false count n news in
      (
        bs,
        s1,
        ap
              (λ a.
                without_targets d (
                  then_linkdma d entries size
                    (dmabuf_granted d (new_pool kind false count) none a)))
              granted
            ∙ ap
                (λ k.
                  without_targets d
                    (after_linkdma d s1 (linked_pool p1 (link_all 1 k 0 entries size news))))
                (sym sized)
            ∙ ap (λ o. without_targets d (after_linkdma d s1 (linked_pool p1 o))) ran,
        taken,
      )

-- Of two devices with one plane and no buffers yet, over drivers that grant the buffers they are asked for: the first
-- one as a master makes its buffers and hands out one descriptor for each, those that its driver exports, and the
-- second one, given these, makes as many buffers with the same descriptors in the same order.
pub sv4l2_requestbuffer-descriptors :
    {State : Type 0} (d1 d2 : BufferDriver State) (g1 : IsGranting d1) (g2 : IsGranting d2)
    (kind1 kind2 : BufType) (n count : ℕ) (s : State)
    → (t : Targets) × (bs1 bs2 : List CameraBuffer) × (s1 s2 : State) × (sv4l2_requestbuffer d1
          (new_pool kind1 false (suc n))
          BufferRequest.dmabuf_master
          s
        ≡ done (pos 0, some t, filled_pool kind1 true (suc n) (suc n) bs1, s1))
      × (sv4l2_requestbuffer d2
            (new_pool kind2 false count)
            (BufferRequest.dmabuf t.entries t.size)
            s1
          ≡ done (pos 0, none, filled_pool kind2 false count (length t.entries) bs2, s2))
      × (t.count ≡ suc n)
      × (descriptors bs1 ≡ fds g1.fd kind1 0 (suc n))
      × (descriptors bs2 ≡ descriptors bs1)
unfolding sv4l2_requestbuffer request_of with_targets targets_out
sv4l2_requestbuffer-descriptors d1 d2 g1 g2 kind1 kind2 n count s =
    let (bs1, s1, ran, plain, same, exported) = dmabuf-granted d1 g1 kind1 (suc n) n s in
    let (t, handed, counted, entries) = targets-descriptors d1 g1 kind1 (suc n) n bs1 plain same in
    let (bs2, s2, ran2, taken) = dmabuf-linked d2 g2 kind2 count t.entries t.size s1 in
    (
      t,
      bs1,
      bs2,
      s1,
      s2,
      ap (with_targets d1 getdmafd) ran
          ∙ ap (targets_out d1 (pos 0) (filled_pool kind1 true (suc n) (suc n) bs1) s1) handed,
      ran2,
      counted,
      exported,
      taken ∙ entries,
    )
