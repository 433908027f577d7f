-- ===== src/Camera/Request/Destroy.antt =====
-- `sv4l2_destroy` of src/sv4l2.c, as far as the buffers and the descriptor go.
use fastvideo.Buffers.{Outcome, done, fault}
use fastvideo.Prelude.{
  ℕ, zero, suc, ◌+◌, List, [], ◌∷◌, none, some, if◌then◌else◌, ◌==◌, get_or, take,
}
use fastvideo.Camera.Memory.{CameraBuffer}
use fastvideo.Camera.Request.{BufferDriver, Pool, HeldBuffers}

module _ {State : Type 0} (d : BufferDriver State) where
  -- Each plane that is mapped is unmapped, with the length of the buffer.
  unfoldable pub destroy_planes : ℕ → ℕ → CameraBuffer → State → State
  destroy_planes zero plane b s = s
  destroy_planes (suc n) plane b s =
      destroy_planes n (plane + 1) b
        (elim (get_or b.map plane none) [ none ↦ s | some address ↦ d.munmap s address b.size ])

  unfoldable pub destroy_all : ℕ → List CameraBuffer → State → State
  unfolding destroy_planes
  destroy_all nplanes [] s = s
  destroy_all nplanes (b ∷ bs) s = destroy_all nplanes bs (destroy_planes nplanes 0 b s)

  -- `sv4l2_destroy`; `close` closes the descriptor. Buffers that were given back would be freed once more.
  unfoldable pub sv4l2_destroy : (State → State) → Pool → State → Outcome State
  unfolding destroy_all
  sv4l2_destroy close p s = elim p.buffers [
    | HeldBuffers.absent ↦ if p.nbuffers == 0 then done (close s) else fault
    | HeldBuffers.freed ↦ fault
    | HeldBuffers.held bs ↦ done (close (destroy_all p.nplanes (take p.nbuffers bs) s))
  ]
