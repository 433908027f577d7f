-- ===== src/Camera/Request/Link.antt =====
-- `sv4l2_requestbuffer_userptr`, `sv4l2_linkv4l2`, `sv4l2_linkdma` and `sv4l2_requestbuffer` of src/sv4l2.c.
use fastvideo.Buffers.{Outcome, done, fault, endless}
use fastvideo.Prelude.{
  ℕ, zero, suc, ◌+◌, List, [], ◌∷◌, not, ◌||◌, Option, none, some, ◌==◌, if◌then◌else◌, length,
  get_elem?, set,
}
use fastvideo.Prelude.Int.{ℤ, pos, negsuc}
use fastvideo.Camera.Memory.{CameraBuffer, is_dmabuf, set_plane}
use fastvideo.Camera.Request.{Pool, HeldBuffers}

-- The planes of a buffer from `plane` on are set to `m`.
unfoldable pub fill_planes : ℕ → ℕ → ℕ → ℕ → CameraBuffer → CameraBuffer
unfolding set_plane
fill_planes zero plane m size b = b
fill_planes (suc n) plane m size b = fill_planes n (plane + 1) m size (set_plane b plane m size)

-- As many buffers as there are addresses.
unfoldable pub fill_all : ℕ → List ℕ → ℕ → List CameraBuffer → List CameraBuffer
unfolding fill_planes
fill_all nplanes mems size [] = []
fill_all nplanes [] size (b ∷ bs) = b ∷ bs
fill_all nplanes (mem ∷ mems) size (b ∷ bs) =
    fill_planes nplanes 0 mem size b ∷ fill_all nplanes mems size bs

-- The planes of a buffer from `plane` on, each with the descriptor at `at`, one further for each plane.
unfoldable pub link_planes : ℕ → ℕ → ℕ → List ℕ → ℕ → CameraBuffer → Option CameraBuffer
unfolding set_plane
link_planes zero plane at targets size b = some b
link_planes (suc n) plane at targets size b = elim (get_elem? targets at) [
  | none ↦ none
  | some fd ↦ link_planes n (plane + 1) (at + 1) targets size (set_plane b plane fd size)
]

abbrev pub put_front :
    CameraBuffer → Outcome (ℤ × List CameraBuffer) → Outcome (ℤ × List CameraBuffer)
put_front b (done (ret, bs)) = done (ret, b ∷ bs)
put_front b fault = fault
put_front b endless = endless

unfoldable pub linked_front :
    Option CameraBuffer → Outcome (ℤ × List CameraBuffer) → Outcome (ℤ × List CameraBuffer)
linked_front none rest = fault
linked_front (some b) rest = put_front b rest

-- `n` buffers from the one at `i` on.
unfoldable pub link_all :
    ℕ → ℕ → ℕ → List ℕ → ℕ → List CameraBuffer → Outcome (ℤ × List CameraBuffer)
unfolding link_planes linked_front
link_all nplanes zero i targets size bs = done (pos 0, bs)
link_all nplanes (suc n) i targets size [] = fault
link_all nplanes (suc n) i targets size (b ∷ bs) =
    let rest = link_all nplanes n (i + 1) targets size bs in
    if not (is_dmabuf b.memory) || (i == length targets)
    then done (negsuc 0, b ∷ bs)
    else linked_front (link_planes nplanes 0 i targets size b) rest

unfoldable pub linked_pool : Pool → Outcome (ℤ × List CameraBuffer) → Outcome (ℤ × Pool)
linked_pool p (done (ret, bs)) = done (ret, record p { buffers = HeldBuffers.held bs })
linked_pool p fault = fault
linked_pool p endless = endless

-- `sv4l2_linkdma`
unfoldable pub linkdma : Pool → List ℕ → ℕ → Outcome (ℤ × Pool)
unfolding link_all linked_pool
linkdma p targets size = elim p.buffers [
  | HeldBuffers.held bs ↦ linked_pool p (link_all p.nplanes p.nbuffers 0 targets size bs)
  | _ ↦ if p.nbuffers == 0 then done (pos 0, p) else fault
]

-- The `nplanes` entries of one buffer, each at its plane behind `at`, written into the array.
unfoldable pub write_planes : (CameraBuffer → ℕ → ℕ) → ℕ → ℕ → ℕ → CameraBuffer → List ℕ → List ℕ
write_planes get zero plane at b targets = targets
write_planes get (suc n) plane at b targets =
    write_planes get n (plane + 1) (at + 1) b (set targets at (get b plane))

unfoldable pub write_all : (CameraBuffer → ℕ → ℕ) → ℕ → ℕ → List CameraBuffer → List ℕ → List ℕ
unfolding write_planes
write_all get nplanes i [] targets = targets
write_all get nplanes i (b ∷ bs) targets =
    write_all get nplanes (i + 1) bs (write_planes get nplanes 0 i b targets)
