-- ===== src/Passthrough/Drained.antt =====
-- The frames of the main device of src/spassthrough.c all leave, in their order, where no other device takes part.
use mathlib.Core.Path.{subst, ap₂}
use fastvideo.Buffers.{Outcome, done, fault, endless, is_ready}
use fastvideo.Prelude.{
  ℕ, true, false, List, [], ◌∷◌, Option, none, some, if◌then◌else◌, get_elem?, ◌≡◌, refl, sym, ap,
  ◌∙◌, inl, inr, arith, ◌*◌, ◌%◌, ◌^◌, ◌/◌,
}
use fastvideo.Prelude.Int.{ℤ, pos}
use fastvideo.Passthrough.{Buffer, Source, Sink}
use fastvideo.Passthrough.Dequeue.{
  Frame, end_shoot, give_frame, try_again, dequeue_dup, dequeue_at, dequeue_from, dequeue_output,
}
use fastvideo.Passthrough.Order.{IsFifo}
use fastvideo.Passthrough.Leave.{Answer, is_blocked, dequeue_output-Answer}
use fastvideo.Passthrough.Enqueue.{has_target}

-- Dequeues of these frames, one after the other.
pub data Dequeues : Sink → List (ℕ × Frame) → Sink → Type 0 where
  stop : (s : Sink) → Dequeues s [] s
  leave :
      {s s1 s2 : Sink} {i : ℕ} {f : Frame} {fs : List (ℕ × Frame)}
      → dequeue_output s ≡ done (pos i, some f, s1)
      → Dequeues s1 fs s2
      → Dequeues s ((i, f) ∷ fs) s2

-- A device that is alone, with the ratio of `s`.
abbrev Alone : Sink → Outcome (ℤ × Option Frame × Sink) → Type 0
Alone s (done (r, f, t)) =
    (t.dup ≡ none) × (t.numerator ≡ s.numerator) × (t.denominator ≡ s.denominator)
Alone s fault = Unit
Alone s endless = Unit

dequeue_dup-Alone :
    (s : Sink) (id : ℕ) (b : Buffer) (dup : Option Source)
    → dup ≡ none
    → s.dup ≡ none
    → Alone s (dequeue_dup s id b dup)
unfolding dequeue_dup give_frame end_shoot
dequeue_dup-Alone s id b none e alone = (ground (arith, alone), ground arith, ground arith)
dequeue_dup-Alone s id b (some d) e alone = absurd (ground (arith, e))

dequeue_at-Alone :
    (s : Sink) (id : ℕ) (here : Option Buffer) → s.dup ≡ none → Alone s (dequeue_at s id here)
unfolding dequeue_at
dequeue_at-Alone s id none alone = tt
dequeue_at-Alone s id (some b) alone =
    elim (is_ready b.state)
      as (λ waits. Alone s (if waits then dequeue_dup s id b s.dup else done (try_again s))) [
        | true ↦ dequeue_dup-Alone s id b s.dup alone alone
        | false ↦ (alone, refl, refl)
      ]

dequeue_from-Alone : (s : Sink) (cur : Option ℕ) → s.dup ≡ none → Alone s (dequeue_from s cur)
unfolding dequeue_from
dequeue_from-Alone s none alone = (alone, refl, refl)
dequeue_from-Alone s (some id) alone = dequeue_at-Alone s id (get_elem? s.buffers id) alone

dequeue_output-Alone : (s : Sink) → s.dup ≡ none → Alone s (dequeue_output s)
unfolding dequeue_output
dequeue_output-Alone s alone = dequeue_from-Alone s s.curbuffer alone

-- The frames as they leave, their sizes scaled by a ratio.
abbrev pub leaving : ℕ → ℕ → List (ℕ × Frame) → List (ℕ × Frame)
leaving n d [] = []
leaving n d ((i, f) ∷ es) =
    (i, record f { bytesused = (f.bytesused * n % 2 ^ 64) / d }) ∷ leaving n d es

-- Where no other device takes part, as many dequeues as frames wait give all of them, in their order and with
-- their sizes scaled by the ratio, and leave none.
pub dequeue_output-Dequeues :
    (s : Sink) (es : List (ℕ × Frame))
    → s.dup ≡ none
    → IsFifo s es
    → (s' : Sink) × Dequeues s (leaving s.numerator s.denominator es) s' × IsFifo s' []
dequeue_output-Dequeues s [] alone v = (s, stop s, v)
dequeue_output-Dequeues s ((i, f) ∷ es) alone v =
    let (r, ran, answer) = dequeue_output-Answer s ((i, f) ∷ es) (ap has_target alone) v in
    first_leaves (λ s1. dequeue_output-Dequeues s1 es) r ran answer
  where
    AllLeave : Sink → List (ℕ × Frame) → Type 0
    AllLeave t fs =
        (s' : Sink) × Dequeues t (leaving t.numerator t.denominator fs) s' × IsFifo s' []

    first_leaves :
        ((s1 : Sink) → s1.dup ≡ none → IsFifo s1 es → AllLeave s1 es)
        → (r : ℤ × Option Frame × Sink) → dequeue_output s ≡ done r
        → Answer s ((i, f) ∷ es) r
        → AllLeave s ((i, f) ∷ es)
    first_leaves others_leave (ret, frame, s1) ran (inl ((number, given, w), free)) =
        let (alone1, same_n, same_d) = subst (Alone s) ran (dequeue_output-Alone s alone) in
        let (s', rest, empty) = others_leave s1 alone1 w in
        (
          s',
          leave (ran ∙ ap₂ (λ (n : ℤ) (g : Option Frame). done (n, g, s1)) number given)
              (subst (λ fs. Dequeues s1 fs s') (ap₂ (λ n d. leaving n d es) same_n same_d) rest),
          empty,
        )
    first_leaves others_leave (ret, frame, s1) ran (inr (waits, blocked)) =
        absurd (ground (arith, sym (ap (λ d. is_blocked d s.state.dryrun) alone) ∙ blocked))
