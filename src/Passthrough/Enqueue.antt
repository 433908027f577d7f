-- ===== src/Passthrough/Enqueue.antt =====
-- A frame through the queue of the main device of src/spassthrough.c, with its copy for the other device.
use mathlib.Core.Path.{subst}
use fastvideo.Buffers.{
  invalid, BufferState, dequeued, ready, queued, Outcome, done, fault, endless, eagain, is_ready,
}
use fastvideo.Prelude.{
  ℕ, Bool, true, false, List, [], ◌∷◌, ◌++◌, Option, none, some, if◌then◌else◌, get_elem?, ◌≡◌, inl,
  inr, ◌⊎◌, refl, sym, ap, ltb, arith, ◌-◌, ◌^◌, ◌∙◌,
}
use fastvideo.Prelude.Int.{ℤ, pos, negsuc}
use fastvideo.Passthrough.{Convert, Buffer, Source, Sink, put_source, resized}
use fastvideo.Passthrough.Queue.{
  is_dequeued, finish_queue, copy_buffer, copy_with, copy_result, copy_put, take_shoot,
  take_controls, copy_into, copy_queue, queue_dup, given, asked, queue_at, queue_buffer,
  queue_output,
}
use fastvideo.Passthrough.Dequeue.{Frame}
use fastvideo.Passthrough.Linked.{Linked, ready_count}
use fastvideo.Passthrough.Order.{
  IsFifo, finish_queue-IsFifo, settled, settled-buffers, settled-curbuffer, settled-dup,
}

abbrev pub is_some {ℓ} : {A : Type ℓ} → Option A → Bool
is_some none = false
is_some (some a) = true

abbrev pub target_at : List Buffer → Option ℕ → Bool
target_at bs none = false
target_at bs (some cur) = is_some (get_elem? bs cur)

-- The duplicated device, where there is one, has a buffer to copy to.
abbrev pub has_target : Option Source → Bool
has_target none = true
has_target (some d) = target_at d.buffers d.curbuffer

-- The converter faults on some memory, and does not end on some.
abbrev pub FaultsAt : Option Convert → Type 0
FaultsAt none = ⊥
FaultsAt (some convert) =
    (src dst : Option (List ℕ)) × (bytesused stride : ℕ) × (convert src dst bytesused stride
      ≡ fault)

abbrev pub EndlessAt : Option Convert → Type 0
EndlessAt none = ⊥
EndlessAt (some convert) =
    (src dst : Option (List ℕ)) × (bytesused stride : ℕ) × (convert src dst bytesused stride
      ≡ endless)

-- A call ends with a fault, or not at all, as the converter does.
abbrev pub CopyFails {ℓ} : {A : Type ℓ} → Option Convert → Outcome A → Type 0
CopyFails copy (done a) = ⊥
CopyFails copy fault = FaultsAt copy
CopyFails copy endless = EndlessAt copy

-- A copy returns, or fails as the converter does.
abbrev CopyEnd : Option Convert → Outcome (Buffer × ℕ) → Type 0
CopyEnd copy (done r) = Unit
CopyEnd copy fault = FaultsAt copy
CopyEnd copy endless = EndlessAt copy

copy_with-CopyEnd :
    (s : Sink) (src dst : Buffer) (bytesused : ℕ) (copy : Option Convert)
    → CopyEnd copy (copy_with s src dst bytesused copy)
unfolding copy_with copy_result
copy_with-CopyEnd s src dst bytesused none = tt
copy_with-CopyEnd s src dst bytesused (some convert) =
    elim (ltb dst.size (resized s bytesused))
      as (λ small. CopyEnd (some convert) (
        if small
        then done (dst, 2 ^ 64 - 1)
        else copy_result dst (convert src.mem dst.mem bytesused src.stride))) [
          | true ↦ tt
          | false ↦ by_result (convert src.mem dst.mem bytesused src.stride) refl
        ]
  where
    by_result :
        (o : Outcome (Option (List ℕ) × ℕ))
        → convert src.mem dst.mem bytesused src.stride ≡ o
        → CopyEnd (some convert) (copy_result dst o)
    by_result (done (mem, written)) ran = tt
    by_result fault ran = (src.mem, dst.mem, bytesused, src.stride, ran)
    by_result endless ran = (src.mem, dst.mem, bytesused, src.stride, ran)

copy_buffer-CopyEnd :
    (s : Sink) (src dst : Buffer) (bytesused : ℕ) → CopyEnd s.copy (copy_buffer s src dst bytesused)
unfolding copy_buffer
copy_buffer-CopyEnd s src dst bytesused = copy_with-CopyEnd s src dst bytesused s.copy

pub settled-copy : (s : Sink) → (settled s).copy ≡ s.copy
unfolding settled take_shoot take_controls
settled-copy s = ground arith

pub IsFifo-same :
    (s t : Sink) (es : List (ℕ × Frame))
    → t.buffers ≡ s.buffers
    → t.curbuffer ≡ s.curbuffer
    → IsFifo s es
    → IsFifo t es
IsFifo-same s t es eb ec v = record {
  linked =
      subst (λ bs. Linked bs t.curbuffer es) (sym eb)
        (subst (λ ptr. Linked s.buffers ptr es) (sym ec) v.linked);
  counted = v.counted ∙ sym (ap ready_count eb);
}

-- The frame stands at the end of the queue, with the memory that the call gave or that the buffer had.
abbrev pub Queued : ℕ → Option (List ℕ) → ℕ → List (ℕ × Frame) → Outcome (ℤ × Sink) → Type 0
Queued id mem flags es result =
    (used : ℕ) × (s' : Sink) × (result ≡ done (pos 0, s'))
    × IsFifo s' (es ++ ((id, record { mem = mem; bytesused = used; flags = flags }) ∷ []))

-- The frame is queued, or the converter has failed.
abbrev pub Entered :
    Option Convert → ℕ → Option (List ℕ) → ℕ → List (ℕ × Frame) → Outcome (ℤ × Sink) → Type 0
Entered copy id mem flags es result = Queued id mem flags es result ⊎ CopyFails copy result

module _ (s : Sink) (id : ℕ) (b old : Buffer) (bytesused flags : ℕ) (es : List (ℕ × Frame))
    (found : get_elem? s.buffers id ≡ some old) (idle : is_ready old.state ≡ false)
    (v : IsFifo s es) where
  plain : Entered s.copy id b.mem flags es (finish_queue s id b bytesused flags)
  plain =
      let (s', ran, w) = finish_queue-IsFifo s id b old bytesused flags es found idle v in
      inl (bytesused, s', ran, w)

  copy_put-Entered :
      (d : Source) (cur : ℕ) (copy : Outcome (Buffer × ℕ))
      → CopyEnd s.copy copy
      → Entered s.copy id b.mem flags es (copy_put s d cur id b flags copy)
  unfolding copy_put
  copy_put-Entered d cur (done (dst, used)) ends =
      let s1 : Sink = record s {
        dup = some (put_source d cur (record dst { bytesused = used }));
      } in
      let (s', ran, w) =
        finish_queue-IsFifo s1 id b old used flags es found idle
          (IsFifo-same s s1 es refl refl v) in
      inl (used, s', ran, w)
  copy_put-Entered d cur fault ends = inr ends
  copy_put-Entered d cur endless ends = inr ends

  copy_into-Entered :
      (d : Source) (cur : ℕ) (here : Option Buffer)
      → is_some here ≡ true
      → Entered s.copy id b.mem flags es (copy_into s d cur id b bytesused flags here)
  unfolding copy_into
  copy_into-Entered d cur none target = absurd (cc)
  copy_into-Entered d cur (some dst) target =
      copy_put-Entered d cur (copy_buffer s b dst bytesused) (copy_buffer-CopyEnd s b dst bytesused)

  copy_queue-Entered :
      (d : Source) (cur : Option ℕ)
      → target_at d.buffers cur ≡ true
      → Entered s.copy id b.mem flags es (copy_queue s d id b bytesused flags cur)
  unfolding copy_queue
  copy_queue-Entered d none target = absurd (cc)
  copy_queue-Entered d (some cur) target = copy_into-Entered d cur (get_elem? d.buffers cur) target

  queue_dup-Entered :
      (dup : Option Source)
      → has_target dup ≡ true
      → Entered s.copy id b.mem flags es (queue_dup s id b bytesused flags dup)
  unfolding queue_dup
  queue_dup-Entered none target = plain
  queue_dup-Entered (some d) target =
      elim s.state.dryrun
        as (λ dry. Entered s.copy id b.mem flags es (
          if dry
          then finish_queue s id b bytesused flags
          else copy_queue s d id b bytesused flags d.curbuffer)) [
            | true ↦ plain
            | false ↦ copy_queue-Entered d d.curbuffer target
          ]

pub not_ready : (x : BufferState) → is_dequeued x ≡ true → is_ready x ≡ false
not_ready invalid e = refl
not_ready dequeued e = refl
not_ready ready e = cc
not_ready queued e = refl

-- A free buffer is queued with the settings that the other processes left.
pub queue_output-free :
    (s : Sink) (id : ℕ) (b : Buffer) (mem : Option (List ℕ)) (bytesused flags : ℕ)
    → get_elem? s.buffers id ≡ some b
    → is_dequeued b.state ≡ true
    → queue_output s id mem bytesused flags
      ≡ queue_dup
          (settled s)
          id
          (record b { state = queued; mem = given mem b.mem })
          (asked bytesused b.size)
          flags
          s.dup
unfolding queue_output queue_at queue_buffer settled
queue_output-free s id b mem bytesused flags found free =
    ap (queue_at (settled s) id mem bytesused flags)
      (ap (λ bs. get_elem? bs id) (settled-buffers s) ∙ found)
    ∙ ap
        (λ t.
          if t
          then queue_buffer (settled s) id b mem bytesused flags
          else done (negsuc 0, record (settled s) { errno = eagain }))
        free
    ∙ ap
        (queue_dup (settled s) id (record b { state = queued; mem = given mem b.mem })
          (asked bytesused b.size) flags)
        (settled-dup s)

-- The frame of a free buffer goes to the end of the queue, with the memory that the call gave, or the buffer's own,
-- and with the flags of the call; all the frames that wait stay, in their order. So it is whatever the settings of
-- other processes are, with a copy for the duplicated device or without, as long as that device has a buffer to
-- copy to. Else the call faults, or does not end, as the converter does on some memory.
pub queue_output-Queued :
    (s : Sink) (id : ℕ) (b : Buffer) (mem : Option (List ℕ)) (bytesused flags : ℕ)
    (es : List (ℕ × Frame))
    → get_elem? s.buffers id ≡ some b
    → is_dequeued b.state ≡ true
    → has_target s.dup ≡ true
    → IsFifo s es
    → Entered s.copy id (given mem b.mem) flags es (queue_output s id mem bytesused flags)
queue_output-Queued s id b mem bytesused flags es found free target v =
    let b1 : Buffer = record b { state = queued; mem = given mem b.mem } in
    let same_call = queue_output-free s id b mem bytesused flags found free in
    subst (λ o. Entered s.copy id (given mem b.mem) flags es o) (sym same_call)
      (subst
        (λ copy.
          Entered copy id (given mem b.mem) flags es
            (queue_dup (settled s) id b1 (asked bytesused b.size) flags s.dup))
        (settled-copy s)
        (queue_dup-Entered (settled s) id b1 b (asked bytesused b.size) flags es
          (ap (λ bs. get_elem? bs id) (settled-buffers s) ∙ found) (not_ready b.state free)
          (IsFifo-same s (settled s) es (settled-buffers s) (settled-curbuffer s) v) s.dup target))
