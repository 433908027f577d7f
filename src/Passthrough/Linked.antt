-- ===== src/Passthrough/Linked.antt =====
-- The list that src/spassthrough.c links through its buffers, as a list of frames.
use mathlib.Core.Path.{subst}
use fastvideo.Buffers.{is_ready}
use fastvideo.Prelude.{
  ℕ, zero, suc, ◌+◌, ◌≤◌, ◌<◌, true, false, List, [], ◌∷◌, Option, none, some, if◌then◌else◌,
  length, get_elem?, set, ◌≡◌, ◌≢◌, sym, ap, ◌∙◌, arith, get_elem?-set_ne,
}
use fastvideo.Passthrough.{Buffer}
use fastvideo.Passthrough.Dequeue.{Frame}

abbrev pub frame_of : Buffer → Frame
frame_of b = record { mem = b.mem; bytesused = b.bytesused; flags = b.flags }

-- No entry is at the place `j`.
abbrev pub Apart : ℕ → List (ℕ × Frame) → Type 0
Apart j [] = Unit
Apart j ((i, f) ∷ es) = (i ≢ j) × Apart j es

-- From `ptr` on the buffers hold these frames, each ready, no buffer twice.
abbrev pub Linked : List Buffer → Option ℕ → List (ℕ × Frame) → Type 0
Linked bs ptr [] = ptr ≡ none
Linked bs ptr ((i, f) ∷ es) =
    (ptr ≡ some i)
    × (b : Buffer) × (get_elem? bs i ≡ some b)
    × (is_ready b.state ≡ true)
    × (frame_of b ≡ f)
    × Apart i es
    × Linked bs b.next es

pub some-injective {ℓ} : {A : Type ℓ} {a b : A} → some a ≡ some b → a ≡ b
some-injective e = cc

-- A buffer that is not ready is in no list.
pub Apart-not_ready :
    (bs : List Buffer) (j : ℕ) (c : Buffer) (ptr : Option ℕ) (es : List (ℕ × Frame))
    → get_elem? bs j ≡ some c
    → is_ready c.state ≡ false
    → Linked bs ptr es
    → Apart j es
Apart-not_ready bs j c ptr [] found idle l = tt
Apart-not_ready bs j c ptr ((i, f) ∷ es) found idle (e, b, here, waits, same, apart, rest) =
    (other, Apart-not_ready bs j c b.next es found idle rest)
  where
    other : i ≢ j
    other k = cc (idle, waits, some-injective (sym found ∙ ap (get_elem? bs) (sym k) ∙ here))

-- A buffer outside of the list may change.
pub Linked-set :
    (bs : List Buffer) (j : ℕ) (c : Buffer) (ptr : Option ℕ) (es : List (ℕ × Frame))
    → Apart j es
    → Linked bs ptr es
    → Linked (set bs j c) ptr es
Linked-set bs j c ptr [] apart l = l
Linked-set bs j c ptr ((i, f) ∷ es) (ne, apart) (e, b, here, waits, same, fresh, rest) = (
  e,
  b,
  get_elem?-set_ne bs c (λ k. ne (sym k)) ∙ here,
  waits,
  same,
  fresh,
  Linked-set bs j c b.next es apart rest,
)

abbrev mark : Buffer → ℕ
mark b = if is_ready b.state then 1 else 0

-- How many buffers are ready.
abbrev pub ready_count : List Buffer → ℕ
ready_count [] = 0
ready_count (b ∷ bs) = mark b + ready_count bs

pub ready_count-le : (bs : List Buffer) → ready_count bs ≤ length bs
ready_count-le [] = omega arith
ready_count-le (b ∷ bs) = ground (arith, ready_count-le bs)

pub ready_count-set :
    (bs : List Buffer) (j : ℕ) (b c : Buffer)
    → get_elem? bs j ≡ some b
    → ready_count (set bs j c) + mark b ≡ ready_count bs + mark c
ready_count-set [] j b c e = absurd (cc)
ready_count-set (x ∷ bs) zero b c e =
    subst (λ y. mark c + ready_count bs + mark y ≡ mark x + ready_count bs + mark c)
      (some-injective e) (omega arith)
ready_count-set (x ∷ bs) (suc j) b c e = omega (arith, ready_count-set bs j b c e)

pub get_elem?-lt {ℓ} :
    {A : Type ℓ} (xs : List A) (i : ℕ) (a : A) → get_elem? xs i ≡ some a → i < length xs
get_elem?-lt [] i a e = absurd (cc)
get_elem?-lt (x ∷ xs) zero a e = omega arith
get_elem?-lt (x ∷ xs) (suc i) a e = omega (arith, get_elem?-lt xs i a e)
