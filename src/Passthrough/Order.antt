-- ===== src/Passthrough/Order.antt =====
-- The order of the frames in the main device of src/spassthrough.c.
use mathlib.Core.Path.{subst}
use fastvideo.Buffers.{ready, done, is_ready}
use fastvideo.Prelude.{
  ℕ, suc, ◌<◌, false, List, [], ◌∷◌, ◌++◌, none, some, length, get_elem?, set, ◌≡◌, refl, sym,
  arith, length-append, get_elem?-set_self,
}
use fastvideo.Prelude.Int.{pos}
use fastvideo.Passthrough.{Buffer, Sink, put_sink, signal}
use fastvideo.Passthrough.Queue.{take_controls, take_shoot, insert_last, finish_queue}
use fastvideo.Passthrough.Dequeue.{Frame}
use fastvideo.Passthrough.Linked.{
  frame_of, Apart, Linked, Linked-set, Apart-not_ready, ready_count, ready_count-set,
  ready_count-le, get_elem?-lt,
}
use fastvideo.Passthrough.Fifo.{link_last-Appended}

-- The frames that wait, the first one to go out first.
pub record IsFifo (s : Sink) (es : List (ℕ × Frame)) : Type 0 where
  pub linked : Linked s.buffers s.curbuffer es
  pub counted : length es ≡ ready_count s.buffers

-- What stands of a queued buffer once it is ready.
abbrev pub final : Buffer → ℕ → ℕ → Buffer
final b used flags = record b { bytesused = used; flags = flags; state = ready; next = none }

abbrev pub Inserts : Sink → ℕ → Buffer → ℕ → ℕ → List (ℕ × Frame) → Type 0
Inserts s id b used flags es =
    (s' : Sink) × (finish_queue s id b used flags ≡ done (pos 0, s'))
    × IsFifo s' (es ++ ((id, frame_of (final b used flags)) ∷ []))

pub finish_queue-IsFifo :
    (s : Sink) (id : ℕ) (b old : Buffer) (used flags : ℕ) (es : List (ℕ × Frame))
    → get_elem? s.buffers id ≡ some old
    → is_ready old.state ≡ false
    → IsFifo s es
    → Inserts s id b used flags es
unfolding finish_queue insert_last
finish_queue-IsFifo s id b old used flags [] found idle v =
    let b1 : Buffer = final b used flags in
    let below : id < length s.buffers = get_elem?-lt s.buffers id old found in
    (
      record (put_sink s id b1) { curbuffer = some id; completion = signal s.completion },
      ground (arith, v.linked),
      record {
        linked = (refl, b1, get_elem?-set_self s.buffers id b1 below, refl, refl, tt, refl);
        counted = ground (arith, v.counted, ready_count-set s.buffers id old b1 found, idle);
      },
    )
finish_queue-IsFifo s id b old used flags ((i, f) ∷ es) found idle v =
    let b1 : Buffer = final b used flags in
    let off : Apart id ((i, f) ∷ es) =
      Apart-not_ready s.buffers id old s.curbuffer ((i, f) ∷ es) found idle v.linked in
    let bs : List Buffer = set s.buffers id b1 in
    let more : ready_count bs ≡ suc (ready_count s.buffers) =
      ground (arith, ready_count-set s.buffers id old b1 found, idle) in
    let on : Linked bs (some i) ((i, f) ∷ es) =
      subst (λ ptr. Linked bs ptr ((i, f) ∷ es)) v.linked.0
        (Linked-set s.buffers id b1 s.curbuffer ((i, f) ∷ es) off v.linked) in
    let (bs', ran, a) =
      link_last-Appended id b1 (suc (length bs)) bs i f es
        (omega (arith, v.counted, ready_count-le bs, more))
        (get_elem?-set_self s.buffers id b1 (get_elem?-lt s.buffers id old found)) refl refl off
        on in
    (
      record s { buffers = bs'; completion = signal s.completion },
      ground (arith, v.linked.0, ran),
      record {
        linked =
            subst (λ ptr. Linked bs' ptr (((i, f) ∷ es) ++ ((id, frame_of b1) ∷ [])))
              (sym v.linked.0) a.linked;
        counted = omega (
          arith,
          a.same_count,
          more,
          v.counted,
          length-append ((i, f) ∷ es) ((id, frame_of b1) ∷ []),
        );
      },
    )

unfoldable pub settled : Sink → Sink
settled s = take_shoot (take_controls s)

pub settled-buffers : (s : Sink) → (settled s).buffers ≡ s.buffers
unfolding settled take_shoot take_controls
settled-buffers s = ground arith

pub settled-curbuffer : (s : Sink) → (settled s).curbuffer ≡ s.curbuffer
unfolding settled take_shoot take_controls
settled-curbuffer s = ground arith

pub settled-dup : (s : Sink) → (settled s).dup ≡ s.dup
unfolding settled take_shoot take_controls
settled-dup s = ground arith
