-- ===== src/Camera/Stream/Given.antt =====
-- `sv4l2_dequeue` of src/sv4l2.c, and the buffer it gives queued again.
use mathlib.Core.Path.{subst}
use fastvideo.Buffers.{done}
use fastvideo.Prelude.{
  ℕ, ◌<◌, List, [], ◌∷◌, ◌++◌, Option, none, some, get_elem?, get_or, ◌≡◌, ◌≢◌, ap, sym, ◌∙◌, refl,
  arith, ◌⊎◌, inl, inr,
}
use fastvideo.Prelude.Int.{ℤ, pos, negsuc}
use fastvideo.Camera.Memory.{CameraBuffer}
use fastvideo.Camera.Stream.{
  StreamDriver, Camera, CameraFrame, DequeuedBuffer, sv4l2_queue, sv4l2_dequeue, after_dqbuf,
  dequeue_first, dequeued_buffer,
}
use fastvideo.Camera.Stream.Ready.{
  IsDriverQueue, IsCameraReady, Taken, Without, Failed, Absent, AllBelow, Unique, sv4l2_queue-Took,
  found_below,
}

below_middle :
    (n i : ℕ) (before after : List ℕ)
    → AllBelow n (before ++ (i ∷ after))
    → (i < n) × AllBelow n (before ++ after)
below_middle n i [] after below = (below.0, below.1)
below_middle n i (j ∷ before) after below =
    let rest = below_middle n i before after below.1 in (rest.0, (below.0, rest.1))

Absent-middle :
    (k i : ℕ) (before after : List ℕ)
    → Absent k (before ++ (i ∷ after))
    → (k ≢ i) × Absent k (before ++ after)
Absent-middle k i [] after absent = (absent.0, absent.1)
Absent-middle k i (j ∷ before) after absent =
    let rest = Absent-middle k i before after absent.1 in (rest.0, (absent.0, rest.1))

Unique-middle :
    (i : ℕ) (before after : List ℕ)
    → Unique (before ++ (i ∷ after))
    → Absent i (before ++ after) × Unique (before ++ after)
Unique-middle i [] after unique = (unique.0, unique.1)
Unique-middle i (j ∷ before) after unique =
    let rest = Unique-middle i before after unique.1 in
    let apart = Absent-middle j i before after unique.0 in
    (((λ e. apart.0 (sym e)), rest.0), (apart.1, rest.1))

below_end : (n i : ℕ) (js : List ℕ) → AllBelow n js → i < n → AllBelow n (js ++ (i ∷ []))
below_end n i [] below h = (h, tt)
below_end n i (j ∷ js) below h = (below.0, below_end n i js below.1 h)

Absent-end : (k i : ℕ) (js : List ℕ) → Absent k js → k ≢ i → Absent k (js ++ (i ∷ []))
Absent-end k i [] absent h = (h, tt)
Absent-end k i (j ∷ js) absent h = (absent.0, Absent-end k i js absent.1 h)

Unique-end : (i : ℕ) (js : List ℕ) → Unique js → Absent i js → Unique (js ++ (i ∷ []))
Unique-end i [] unique absent = (tt, tt)
Unique-end i (j ∷ js) unique absent =
    (Absent-end j i js unique.0 (λ e. absent.0 (sym e)), Unique-end i js unique.1 absent.1)

module _ (d : StreamDriver) (q : IsDriverQueue d) where
  -- A device without one of the buffers that the driver had is ready too.
  Without-IsCameraReady :
      (dev : Camera d) (s : d.State) (i : ℕ)
      → IsCameraReady d q dev
      → Without i (q.queued dev.driver) (q.queued s)
      → (i < q.count) × Absent i (q.queued s) × IsCameraReady d q (record dev { driver = s })
  Without-IsCameraReady dev s i ready (before, after, had, has) =
      let (inside, below) =
        below_middle q.count i before after (subst (AllBelow q.count) had ready.below) in
      let (absent, unique) = Unique-middle i before after (subst Unique had ready.unique) in
      (
        inside,
        subst (Absent i) (sym has) absent,
        record {
          numbered = ready.numbered;
          sized = ready.sized;
          below = subst (AllBelow q.count) (sym has) below;
          unique = subst Unique (sym has) unique;
        },
      )

  same-IsCameraReady :
      (dev : Camera d) (s : d.State)
      → IsCameraReady d q dev
      → q.queued s ≡ q.queued dev.driver
      → IsCameraReady d q (record dev { driver = s })
  same-IsCameraReady dev s ready kept = record {
    numbered = ready.numbered;
    sized = ready.sized;
    below = subst (AllBelow q.count) (sym kept) ready.below;
    unique = subst Unique (sym kept) ready.unique;
  }

  Failed-IsCameraReady :
      (dev : Camera d) (s : d.State)
      → IsCameraReady d q dev
      → Failed (q.queued dev.driver) (q.queued s)
      → IsCameraReady d q (record dev { driver = s })
  Failed-IsCameraReady dev s ready (inl kept) = same-IsCameraReady dev s ready kept
  Failed-IsCameraReady dev s ready (inr (i, lost)) = (Without-IsCameraReady dev s i ready lost).2

  -- The buffers are below the count, and none is there twice.
  abbrev pub Fit : List ℕ → Type 0
  Fit l = AllBelow q.count l × Unique l

  pub taken-Fit :
      (i : ℕ) (old new : List ℕ) (ret : ℤ)
      → i < q.count
      → Absent i old
      → Fit old
      → Taken i old ret new
      → Fit new
  taken-Fit i old new ret inside absent (below, unique) taken = elim taken [
    | inl (zero_ret, e) ↦ subst Fit (sym e) put
    | inr (other, left) ↦ elim left [
      | inl e ↦ subst Fit (sym e) (below, unique)
      | inr e ↦ subst Fit (sym e) put
    ]
  ]
    where
      put : Fit (old ++ (i ∷ []))
      put = (below_end q.count i old below inside, Unique-end i old unique absent)

  -- Queueing a buffer that the driver has not got keeps the device ready, whether the driver takes it or not.
  ready_queue :
      (dev : Camera d) (i : ℕ) (mem : Option ℕ) (bytesused : ℕ)
      → IsCameraReady d q dev
      → i < q.count
      → Absent i (q.queued dev.driver)
      → (ret : ℤ) × (dev1 : Camera d) × (sv4l2_queue d dev i mem bytesused ≡ done (ret, dev1))
        × IsCameraReady d q dev1
        × Taken i (q.queued dev.driver) ret (q.queued dev1.driver)
  ready_queue dev i mem bytesused ready inside absent =
      let (ret, dev1, ran, took) =
        sv4l2_queue-Took d q dev i mem bytesused inside ready.sized ready.numbered absent in
      let (below, unique) =
        taken-Fit i (q.queued dev.driver) (q.queued dev1.driver) ret inside absent
          (ready.below, ready.unique) took.queued in
      (
        ret,
        dev1,
        ran,
        record {
          numbered = took.numbered;
          sized = took.sized ∙ ready.sized;
          below = below;
          unique = unique;
        },
        took.queued,
      )

  -- What a dequeue may do: it fails, and the driver has what it had or one buffer fewer; or a buffer that the driver
  -- had is given with its memory. Queueing this one again, in any way, returns: with 0 where the driver takes it, behind
  -- the others, and with what the driver answers where it fails.
  abbrev pub Gives : Camera d → ℕ → Option ℕ → ℕ → Type 0
  Gives dev flags mem bytesused =
      ((dev1 : Camera d) × (sv4l2_dequeue d dev flags ≡ done (negsuc 0, none, dev1))
        × IsCameraReady d q dev1
        × Failed (q.queued dev.driver) (q.queued dev1.driver))
      ⊎ ((i : ℕ) × (f : CameraFrame) × (b : CameraBuffer) × (dev1 : Camera d) × (sv4l2_dequeue d dev
              flags
            ≡ done (pos i, some f, dev1))
          × IsCameraReady d q dev1
          × (get_elem? dev.buffers i ≡ some b)
          × (f.mem ≡ get_or b.map 0 none)
          × Without i (q.queued dev.driver) (q.queued dev1.driver)
          × ((ret : ℤ) × (dev2 : Camera d) × (sv4l2_queue d dev1 i mem bytesused ≡ done (ret, dev2))
              × IsCameraReady d q dev2
              × Taken i (q.queued dev1.driver) ret (q.queued dev2.driver)))

  -- Over a driver that gives only buffers that it has, that may lose one where it fails to give one, that may refuse
  -- any buffer but keeps the index and mapping of what it is given, and whose queue no control changes: a ready device
  -- with a buffer answers every dequeue without a fault, and stays ready. It fails and the driver has what it had
  -- or one buffer fewer, or it gives a buffer that the driver had, with its memory, and queueing this one again
  -- returns 0 with the buffer behind the others, or the driver's failure, and the device stays ready.
  pub sv4l2_dequeue-Gives :
      (dev : Camera d) (flags : ℕ) (mem : Option ℕ) (bytesused : ℕ)
      → IsCameraReady d q dev
      → 0 < q.count
      → Gives dev flags mem bytesused
  unfolding sv4l2_dequeue after_dqbuf dequeue_first dequeued_buffer
  sv4l2_dequeue-Gives dev flags mem bytesused ready some_buffer =
      let (first, first_found) =
        found_below dev.buffers 0 (omega (arith, ready.sized, some_buffer)) in
      by_answer first first_found (d.dqbuf dev.driver dev.kind first.memory) refl
    where
      by_answer :
          (first : CameraBuffer)
          → get_elem? dev.buffers 0 ≡ some first
          → (a : Option DequeuedBuffer × d.State) → d.dqbuf dev.driver dev.kind first.memory ≡ a
          → Gives dev flags mem bytesused
      by_answer first found (none, s1) got =
          let left = q.fails dev.driver s1 dev.kind first.memory got in
          inl (
            record dev { driver = s1 },
            ap (dequeue_first d dev flags) found ∙ ap (after_dqbuf d dev flags) got,
            Failed-IsCameraReady dev s1 ready left,
            left,
          )
      by_answer first found (some r, s1) got =
          let left = q.gives dev.driver s1 dev.kind first.memory r got in
          let (inside, absent, ready1) = Without-IsCameraReady dev s1 r.index ready left in
          let (b, b_found) = found_below dev.buffers r.index (omega (arith, inside, ready.sized)) in
          inr (
            r.index,
            _,
            b,
            record dev { driver = s1 },
            ap (dequeue_first d dev flags) found
                ∙ ap (after_dqbuf d dev flags) got
                ∙ ap (dequeued_buffer d (record dev { driver = s1 }) flags r) b_found,
            ready1,
            b_found,
            refl,
            left,
            ready_queue (record dev { driver = s1 }) r.index mem bytesused ready1 inside absent,
          )
