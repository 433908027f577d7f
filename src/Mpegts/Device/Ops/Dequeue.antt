-- ===== src/Mpegts/Device/Ops/Dequeue.antt =====
-- The scan and the branches of `mpegts_dequeue` of src/smpegts.c.
use fastvideo.Buffers.{done, eagain, is_ready}
use mathlib.Core.Path.{subst}
use fastvideo.Prelude.{
  ◌%◌, ℕ, ◌≢◌, zero, suc, ◌^◌, refl, ◌≤◌, sym, ap, ◌≡◌, inl, ◌-◌, inr, ◌+◌, Bool, ◌⊎◌, true, ◌∙◌,
  false, ◌<◌, List, ◌∷◌, [], ◌==◌, Option, if◌then◌else◌, none, some, ltb, length, get_elem?, set,
  arith, Bool-cases, Option-cases,
}
use fastvideo.Prelude.Mod.{mod-round}
use fastvideo.Prelude.Int.{pos, negsuc}
use fastvideo.Mpegts.Transport.{Proto}
use fastvideo.Mpegts.Device.{Dev, FrameBuffer}
use fastvideo.Mpegts.Device.Ops.{
  find_ready, count_frame, given_back, dequeue_buffer, dequeue, Dequeued,
}

abbrev IsReadyAt : List FrameBuffer → ℕ → Type 0
IsReadyAt buffers id =
    (b : FrameBuffer) × (get_elem? buffers id ≡ some b) × (is_ready b.state ≡ true)

some-injective {ℓ} : {A : Type ℓ} {a b : A} → some a ≡ some b → a ≡ b
some-injective e = cc

none≢some {ℓ} : {A : Type ℓ} {a : A} → none ≢ some a
none≢some e = cc

-- One step of the scan.
abbrev look : Option FrameBuffer → ℕ → Option ℕ → Option ℕ
look here id rest = elim here [ none ↦ rest | some b ↦ if is_ready b.state then some id else rest ]

look-ready :
    (buffers : List FrameBuffer) (here : Option FrameBuffer) (at_ id : ℕ) (rest : Option ℕ)
    → get_elem? buffers at_ ≡ here
    → (rest ≡ some id → IsReadyAt buffers id)
    → look here at_ rest ≡ some id
    → IsReadyAt buffers id
look-ready buffers none at_ id rest here later e = later e
look-ready buffers (some b) at_ id rest here later e = elim (Bool-cases (is_ready b.state)) [
  | inl here_ready ↦ (
    b,
    subst (λ k. get_elem? buffers k ≡ some b) (some-injective (rw here_ready at e)) here,
    here_ready,
  )
  | inr not_ready ↦ later (rw not_ready at e)
]

-- What a scan finds is a ready buffer.
find_ready-some :
    (buffers : List FrameBuffer) (currentid left i id : ℕ)
    → find_ready buffers currentid left i ≡ some id
    → IsReadyAt buffers id
unfolding find_ready
find_ready-some buffers currentid zero i id e = absurd (none≢some e)
find_ready-some buffers currentid (suc left) i id e =
    look-ready buffers (get_elem? buffers ((currentid + i) % length buffers))
      ((currentid + i) % length buffers) id (find_ready buffers currentid left (i + 1)) refl
      (find_ready-some buffers currentid left (i + 1) id) e

look-none :
    (here : Option FrameBuffer) (id : ℕ) (rest : Option ℕ)
    → look here id rest ≡ none
    → ((b : FrameBuffer) → here ≡ some b → is_ready b.state ≡ false) × (rest ≡ none)
look-none none id rest e = ((λ b found. absurd (none≢some found)), e)
look-none (some b) id rest e = elim (Bool-cases (is_ready b.state)) [
  | inl here_ready ↦ absurd (none≢some (sym (rw here_ready at e)))
  | inr not_ready ↦ (
    (λ c found. subst (λ x. is_ready x.state ≡ false) (some-injective found) not_ready),
    rw not_ready at e,
  )
]

ℕ-cases : (i k : ℕ) → (i ≡ k) ⊎ (i ≢ k)
ℕ-cases i k = ground arith

-- A scan that finds nothing has looked at every place from `i` on.
find_ready-none :
    (buffers : List FrameBuffer) (currentid left i k : ℕ)
    → i ≤ k
    → k < i + left
    → find_ready buffers currentid left i ≡ none
    → (b : FrameBuffer) → get_elem? buffers ((currentid + k) % length buffers) ≡ some b
    → is_ready b.state ≡ false
unfolding find_ready
find_ready-none buffers currentid zero i k low high e b found = absurd (omega (arith, low, high))
find_ready-none buffers currentid (suc left) i k low high e b found =
    let id : ℕ = (currentid + i) % length buffers in
    let both : _ =
      look-none (get_elem? buffers id) id (find_ready buffers currentid left (i + 1)) e in
    elim (ℕ-cases i k) [
      | inl same ↦
          both.0 b (ap (λ j. get_elem? buffers ((currentid + j) % length buffers)) same ∙ found)
      | inr other ↦
          find_ready-none buffers currentid left (i + 1) k (omega (arith, low, other))
            (omega (arith, high)) both.1 b found
    ]

-- The place of `id` in a round that starts at `currentid`.
abbrev turn : ℕ → ℕ → ℕ → ℕ
turn n currentid id = if ltb id currentid then id + n - currentid else id - currentid

turn-sum :
    (n currentid id : ℕ)
    → currentid < n
    → (currentid + turn n currentid id ≡ id + n) ⊎ (currentid + turn n currentid id ≡ id)
turn-sum n currentid id inside = ground arith

turn-place :
    (n currentid id : ℕ) → currentid < n → id < n → (currentid + turn n currentid id) % n ≡ id
turn-place n currentid id inside below = elim (turn-sum n currentid id inside) [
  | inl wraps ↦ ap (λ t. t % n) wraps ∙ (mod-round n id below).0
  | inr ahead ↦ ap (λ t. t % n) ahead ∙ (mod-round n id below).1
]

turn-below : (n currentid id : ℕ) → currentid < n → id < n → turn n currentid id < 0 + n
turn-below n currentid id inside below = ground arith

pub get_elem?-below {ℓ} :
    {A : Type ℓ} (xs : List A) (i : ℕ) (a : A) → get_elem? xs i ≡ some a → i < length xs
get_elem?-below [] i a e = absurd (none≢some e)
get_elem?-below (x ∷ xs) zero a e = ground arith
get_elem?-below (x ∷ xs) (suc i) a e = omega (arith, get_elem?-below xs i a e)

-- The scan of `mpegts_dequeue` looks at every buffer.
scan-none :
    (buffers : List FrameBuffer) (currentid : ℕ)
    → currentid < length buffers
    → find_ready buffers currentid (length buffers) 0 ≡ none
    → (id : ℕ) (b : FrameBuffer) → get_elem? buffers id ≡ some b
    → is_ready b.state ≡ false
scan-none buffers currentid inside e id b found =
    let n : ℕ = length buffers in
    let below : id < n = get_elem?-below buffers id b found in
    find_ready-none buffers currentid n 0 (turn n currentid id) (ground arith)
      (turn-below n currentid id inside below) e b
      (ap (get_elem? buffers) (turn-place n currentid id inside below) ∙ found)

if-same {ℓ} :
    {A : Type ℓ} {B : Type 0} (t : Bool) (f : A → B) (x y : A) (v : B)
    → f x ≡ v
    → f y ≡ v
    → f (if t then x else y) ≡ v
if-same true f x y v ex ey = ex
if-same false f x y v ex ey = ey

-- Is any buffer of the list ready?
abbrev pub any_ready : List FrameBuffer → Bool
any_ready [] = false
any_ready (b ∷ bs) = if is_ready b.state then true else any_ready bs

any_ready-none :
    (bs : List FrameBuffer)
    → ((id : ℕ) (b : FrameBuffer) → get_elem? bs id ≡ some b → is_ready b.state ≡ false)
    → any_ready bs ≡ false
any_ready-none [] never = refl
any_ready-none (b ∷ bs) never =
    rw (never 0 b refl) (any_ready-none bs (λ id c e. never (suc id) c e))

module _ (p : Proto) where
  open p use {Ctx}

  -- A dequeued buffer: it was ready, its place in the list is given back, and the device counts on.
  abbrev pub IsGiven : Dev Ctx → Dequeued p → Type 0
  IsGiven dev out =
      (id : ℕ) × (b : FrameBuffer) × (get_elem? dev.buffers id ≡ some b)
      × (is_ready b.state ≡ true)
      × (out.ret ≡ pos id)
      × (out.dev.buffers ≡ set dev.buffers id (given_back b))
      × (out.dev.currentid ≡ id)

  -- Nothing to dequeue: no buffer is ready, and nothing but `errno` changes.
  abbrev pub IsEmpty : Dev Ctx → Dequeued p → Type 0
  IsEmpty dev out =
      (any_ready dev.buffers ≡ false)
      × (out.ret ≡ negsuc 0)
      × (out.dev ≡ record dev { errno = eagain })

  count_frame-keeps :
      {B : Type 0} (f : Dev Ctx → B) (dev : Dev Ctx)
      → ((n : ℕ) (c : Ctx) → f (record dev { frames = n; ctx = c }) ≡ f dev)
      → f (count_frame p dev) ≡ f dev
  unfolding count_frame
  count_frame-keeps f dev keeps =
      let frames : ℕ = (dev.frames + 1) % 2 ^ 32 in
      let again : Dev Ctx = record dev { frames = 0; ctx = (p.connect (p.close dev.ctx)).1 } in
      let on : Dev Ctx = record dev { frames = frames } in
      if-same ((if frames == dev.config.maxframes then again else on).frames == 2 ^ 32 - 1) f _ _
        (f dev)
        (if-same (frames == dev.config.maxframes) (λ d. f (record d { frames = 0 })) again on
          (f dev) (keeps 0 again.ctx) (keeps 0 dev.ctx))
        (if-same (frames == dev.config.maxframes) f again on (f dev) (keeps 0 again.ctx)
          (keeps frames dev.ctx))

  dequeue_buffer-IsGiven :
      (dev : Dev Ctx) (mem : Option (List ℕ)) (bytesused id : ℕ) (b : FrameBuffer)
      → get_elem? dev.buffers id ≡ some b
      → is_ready b.state ≡ true
      → IsGiven dev (dequeue_buffer p dev id b mem bytesused)
  unfolding dequeue_buffer
  dequeue_buffer-IsGiven dev mem bytesused id b found here_ready =
      let flushed : Dev Ctx = record dev { currentid = id; ctx = p.flush dev.ctx } in
      (
        id,
        b,
        found,
        here_ready,
        refl,
        ap (λ bs. set bs id (given_back b))
            (count_frame-keeps (λ d. d.buffers) flushed (λ n c. refl)),
        count_frame-keeps (λ d. d.currentid) flushed (λ n c. refl),
      )

  -- The dequeue of a device with buffers always returns: either it gives back a buffer that was ready, under
  -- its number, and scans from there the next time; or it returns -1 with `EAGAIN`, no buffer of the list being
  -- ready, and leaves the rest of the device as it is.
  pub dequeue-cases :
      (dev : Dev Ctx) (mem : Option (List ℕ)) (bytesused : ℕ)
      → dev.currentid < length dev.buffers
      → (out : Dequeued p) × (dequeue p dev mem bytesused ≡ done out)
        × (IsGiven dev out ⊎ IsEmpty dev out)
  unfolding dequeue
  dequeue-cases dev mem bytesused inside =
      let some_buffers : (length dev.buffers == 0) ≡ false = ground (arith, inside) in
      elim (Option-cases (find_ready dev.buffers dev.currentid (length dev.buffers) 0)) [
        | inl nothing ↦ (
          record {
            ret = negsuc 0;
            mem = mem;
            bytesused = bytesused;
            dev = record dev { errno = eagain };
          },
          rw (some_buffers, nothing),
          inr (
            any_ready-none dev.buffers (scan-none dev.buffers dev.currentid inside nothing),
            refl,
            refl,
          ),
        )
        | inr (id, found) ↦
            let (b, here, here_ready) =
              find_ready-some dev.buffers dev.currentid (length dev.buffers) 0 id found in
            (
              dequeue_buffer p dev id b mem bytesused,
              rw (some_buffers, found, here),
              inl (dequeue_buffer-IsGiven dev mem bytesused id b here here_ready),
            )
      ]
