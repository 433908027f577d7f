-- ===== src/Camera/Stream/Ready.antt =====
-- The queue of the driver behind src/sv4l2.c, and a call of `sv4l2_queue` on a buffer that is not in it.
use mathlib.Core.Path.{subst}
use fastvideo.Buffers.{done}
use fastvideo.Prelude.{
  ℕ, zero, suc, ◌+◌, ◌%◌, ◌^◌, ◌<◌, List, [], ◌∷◌, ◌++◌, Bool, true, false, not, ◌&&◌, Option, none,
  some, ◌==◌, if◌then◌else◌, length, get_elem?, get_or, set, ◌≡◌, ◌≢◌, ◌⊎◌, ap, sym, ◌∙◌, refl,
  arith, length-set,
}
use fastvideo.Prelude.Int.{ℤ, pos}
use fastvideo.Camera.{BufType}
use fastvideo.Camera.Memory.{CameraBuffer, MemoryKind, set_plane}
use fastvideo.Camera.Stream.{
  StreamDriver, Camera, DequeuedBuffer, sv4l2_queue, queue_found, queue_filled, fill_buffer,
  count_queue, periodiccontrol, control_set, queued_buffer,
}

abbrev pub Absent : ℕ → List ℕ → Type 0
Absent i [] = Unit
Absent i (j ∷ js) = (i ≢ j) × Absent i js

abbrev pub Unique : List ℕ → Type 0
Unique [] = Unit
Unique (j ∷ js) = Absent j js × Unique js

abbrev pub AllBelow : ℕ → List ℕ → Type 0
AllBelow n [] = Unit
AllBelow n (j ∷ js) = (j < n) × AllBelow n js

-- Each buffer has its place as its index, counted from `n`.
abbrev pub Numbered : ℕ → List CameraBuffer → Type 0
Numbered n [] = Unit
Numbered n (b ∷ bs) = (b.index ≡ n) × Numbered (suc n) bs

-- What `VIDIOC_QBUF` may do with the buffer `i`: it takes it and returns 0, or it fails, and has the buffer or not.
abbrev pub Taken : ℕ → List ℕ → ℤ → List ℕ → Type 0
Taken i old ret new =
    ((ret ≡ pos 0) × (new ≡ old ++ (i ∷ [])))
    ⊎ ((ret ≢ pos 0) × ((new ≡ old) ⊎ (new ≡ old ++ (i ∷ []))))

-- The places `new` are those of `old` but for `i`.
abbrev pub Without : ℕ → List ℕ → List ℕ → Type 0
Without i old new =
    (before after : List ℕ) × (old ≡ before ++ (i ∷ after)) × (new ≡ before ++ after)

-- What a failed `VIDIOC_DQBUF` leaves: what there was, or, as with `EIO`, one buffer fewer.
abbrev pub Failed : List ℕ → List ℕ → Type 0
Failed old new = (new ≡ old) ⊎ ((i : ℕ) × Without i old new)

-- What is asked of the kernel, for `count` buffers that were requested: of a buffer that is not queued,
-- `VIDIOC_QBUF` keeps the index and the mapping, and takes it or fails; `VIDIOC_DQBUF` gives a buffer that was queued,
-- and may lose one where it fails; `VIDIOC_STREAMON` may fail, and it and the controls do not change what is queued.
pub record IsDriverQueue (d : StreamDriver) : Type 0 where
  pub count : ℕ
  pub queued : d.State → List ℕ
  pub takes :
      (s : d.State) (b : CameraBuffer)
      → b.index < count
      → Absent b.index (queued s)
      → (ret : ℤ) × (b1 : CameraBuffer) × (s1 : d.State) × (d.qbuf s b ≡ (ret, b1, s1))
        × (b1.index ≡ b.index)
        × (b1.map ≡ b.map)
        × Taken b.index (queued s) ret (queued s1)
  pub gives :
      (s s1 : d.State) (kind : BufType) (memory : MemoryKind) (q : DequeuedBuffer)
      → d.dqbuf s kind memory ≡ (some q, s1)
      → Without q.index (queued s) (queued s1)
  pub fails :
      (s s1 : d.State) (kind : BufType) (memory : MemoryKind)
      → d.dqbuf s kind memory ≡ (none, s1)
      → Failed (queued s) (queued s1)
  pub starts : (s : d.State) (kind : BufType) → queued ((d.streamon s kind).1) ≡ queued s
  pub controls : (s : d.State) (id : ℕ) → queued ((d.set_control s id).1) ≡ queued s

Numbered-get :
    (n : ℕ) (bs : List CameraBuffer) (i : ℕ) (b : CameraBuffer)
    → Numbered n bs
    → get_elem? bs i ≡ some b
    → b.index ≡ n + i
Numbered-get n [] i b numbered found = absurd (ground (arith, found))
Numbered-get n (x ∷ bs) zero b numbered found = ground (arith, numbered.0, found)
Numbered-get n (x ∷ bs) (suc i) b numbered found =
    omega (arith, Numbered-get (suc n) bs i b numbered.1 found)

Numbered-set :
    (n : ℕ) (bs : List CameraBuffer) (i : ℕ) (b : CameraBuffer)
    → Numbered n bs
    → b.index ≡ n + i
    → Numbered n (set bs i b)
Numbered-set n [] i b numbered e = tt
Numbered-set n (x ∷ bs) zero b numbered e = (omega (arith, e), numbered.1)
Numbered-set n (x ∷ bs) (suc i) b numbered e =
    (numbered.0, Numbered-set (suc n) bs i b numbered.1 (omega (arith, e)))

pub found_below :
    (bs : List CameraBuffer) (i : ℕ)
    → i < length bs
    → (b : CameraBuffer) × (get_elem? bs i ≡ some b)
found_below [] i h = absurd (omega (arith, h))
found_below (b ∷ bs) zero h = (b, refl)
found_below (b ∷ bs) (suc i) h = found_below bs i (omega (arith, h))

fill_buffer-index :
    (first b : CameraBuffer) (mem : Option ℕ) (n : ℕ)
    → ((fill_buffer first b mem n).index ≡ b.index) × ((fill_buffer first b mem n).map ≡ b.map)
unfolding fill_buffer set_plane
fill_buffer-index first b mem n = ground arith

module _ (d : StreamDriver) (q : IsDriverQueue d) where
  -- A device whose driver is given the buffers by their places, none twice.
  pub record IsCameraReady (dev : Camera d) : Type 0 where
    pub numbered : Numbered 0 dev.buffers
    pub sized : length dev.buffers ≡ q.count
    pub below : AllBelow q.count (q.queued dev.driver)
    pub unique : Unique (q.queued dev.driver)

  -- The driver has taken the buffer, or has failed with `ret`; the device is else as it was.
  pub record Took (dev : Camera d) (i : ℕ) (ret : ℤ) (dev1 : Camera d) : Type 0 where
    pub queued : Taken i (q.queued dev.driver) ret (q.queued dev1.driver)
    pub numbered : Numbered 0 dev1.buffers
    pub sized : length dev1.buffers ≡ length dev.buffers
    pub kind : dev1.kind ≡ dev.kind

  count_queue-keeps :
      (dev : Camera d)
      → (q.queued (count_queue d dev).driver ≡ q.queued dev.driver)
        × ((count_queue d dev).buffers ≡ dev.buffers)
        × ((count_queue d dev).kind ≡ dev.kind)
  unfolding count_queue periodiccontrol control_set
  count_queue-keeps dev =
      by_test (
        not (dev.config_periodic == 0) && dev.has_periodic && (dev.periodic == dev.config_periodic))
    where
      set_keeps :
          (dev1 : Camera d) (answer : Bool × d.State)
          → (q.queued (control_set d dev1 answer).driver ≡ q.queued answer.1)
            × ((control_set d dev1 answer).buffers ≡ dev1.buffers)
            × ((control_set d dev1 answer).kind ≡ dev1.kind)
      set_keeps dev1 (true, s) = (refl, refl, refl)
      set_keeps dev1 (false, s) = (refl, refl, refl)

      Kept : Camera d → Type 0
      Kept dev1 =
          (q.queued dev1.driver ≡ q.queued dev.driver)
          × (dev1.buffers ≡ dev.buffers)
          × (dev1.kind ≡ dev.kind)

      by_test :
          (b : Bool)
          → Kept (
              if b
              then periodiccontrol d (record dev { periodic = 0 })
              else record dev { periodic = (dev.periodic + 1) % 2 ^ 32 })
      by_test true =
          let k =
            set_keeps (record dev { periodic = 0 })
              (d.set_control dev.driver dev.periodiccontrol) in
          (k.0 ∙ q.controls dev.driver dev.periodiccontrol, k.1, k.2)
      by_test false = (refl, refl, refl)

  queue_takes :
      (dev : Camera d) (i : ℕ) (b : CameraBuffer)
      → b.index ≡ i
      → i < q.count
      → Absent i (q.queued dev.driver)
      → Numbered 0 dev.buffers
      → (ret : ℤ) × (dev1 : Camera d) × (queued_buffer d dev i (d.qbuf dev.driver b)
          ≡ done (ret, dev1))
        × Taken i (q.queued dev.driver) ret (q.queued dev1.driver)
        × Numbered 0 dev1.buffers
        × (length dev1.buffers ≡ length dev.buffers)
        × (dev1.kind ≡ dev.kind)
  unfolding queued_buffer
  queue_takes dev i b is_i below absent numbered =
      let (ret, b1, s1, taken, index, maps, queued) =
        q.takes dev.driver b (omega (arith, is_i, below))
          (subst (λ k. Absent k (q.queued dev.driver)) (sym is_i) absent) in
      (
        ret,
        record dev { buffers = set dev.buffers i b1; driver = s1 },
        ap (queued_buffer d dev i) taken,
        subst (λ k. Taken k (q.queued dev.driver) ret (q.queued s1)) is_i queued,
        Numbered-set 0 dev.buffers i b1 numbered (omega (arith, index, is_i)),
        length-set dev.buffers i b1,
        refl,
      )

  -- `sv4l2_queue` returns on a buffer that the driver has not got, whatever its arguments.
  pub sv4l2_queue-Took :
      (dev : Camera d) (i : ℕ) (mem : Option ℕ) (bytesused : ℕ)
      → i < q.count
      → length dev.buffers ≡ q.count
      → Numbered 0 dev.buffers
      → Absent i (q.queued dev.driver)
      → (ret : ℤ) × (dev1 : Camera d) × (sv4l2_queue d dev i mem bytesused ≡ done (ret, dev1))
        × Took dev i ret dev1
  unfolding sv4l2_queue queue_found queue_filled
  sv4l2_queue-Took dev i mem bytesused inside sized numbered absent =
      let (b, found) = found_below dev.buffers i (omega (arith, inside, sized)) in
      let filled = fill_buffer (get_or dev.buffers 0 b) b mem bytesused in
      let (same_queue, same_buffers, same_kind) = count_queue-keeps dev in
      let is_i : filled.index ≡ i =
        (fill_buffer-index (get_or dev.buffers 0 b) b mem bytesused).0
        ∙ omega (arith, Numbered-get 0 dev.buffers i b numbered found) in
      let (ret, dev1, ran, queued, numbered1, sized1, kind1) =
        queue_takes (count_queue d dev) i filled is_i inside
          (subst (Absent i) (sym same_queue) absent)
          (subst (Numbered 0) (sym same_buffers) numbered) in
      (
        ret,
        dev1,
        ap (queue_found d dev i mem bytesused) found ∙ ran,
        record {
          queued = subst (λ l. Taken i l ret (q.queued dev1.driver)) same_queue queued;
          numbered = numbered1;
          sized = sized1 ∙ ap length same_buffers;
          kind = kind1 ∙ same_kind;
        },
      )
