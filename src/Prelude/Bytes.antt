-- ===== src/Prelude/Bytes.antt =====
-- Masks of one byte as arithmetic, and integers as bytes, the highest first.
use Prim.Native.Nat.{◌<◌, bit_and, ◌%◌, ℕ, ◌*◌, suc, ◌+◌, zero, ◌^◌, ◌/◌}
use mathlib.Core.Path.{◌≡◌, refl, ◌∙◌}
use mathlib.Core.Bool.{Bool, true, ◌&&◌}
use mathlib.Core.List.{List, [], ◌∷◌}
use native.Mathlib.Omega.{arith}
use fastvideo.Prelude.Tests.{◌==◌, ==_iff}
use fastvideo.Prelude.Bits.{and_split, and-zero}

-- A test of every number below a bound, by evaluation.
unfoldable pub holds_to : (ℕ → Bool) → ℕ → Bool
holds_to test zero = true
holds_to test (suc bound) = holds_to test bound && test bound

pub holds_to_lem :
    (test : ℕ → Bool) (bound x : ℕ) → x < bound → holds_to test bound ≡ true → test x ≡ true
unfolding holds_to
holds_to_lem test zero x inside all = absurd (omega arith)
holds_to_lem test (suc bound) x inside all = ground (arith, holds_to_lem test bound x)

-- Two functions that agree on every byte.
pub same_on_bytes :
    (f g : ℕ → ℕ) → holds_to (λ x. f x == g x) 256 ≡ true → (x : ℕ) → x < 256 → f x ≡ g x
same_on_bytes f g h x lt = (==_iff _ _).0 (holds_to_lem (λ x. f x == g x) 256 x lt h)

-- A mask that fits a byte sees the lowest byte only.
and_low_byte : (x m : ℕ) → m < 256 → bit_and x m ≡ bit_and (x % 256) m
and_low_byte x m h =
    omega (arith, parts, and_split 8 (x / 256) 0 (x % 256) m (omega arith) h, and-zero (x / 256))
  where
    parts : bit_and x m ≡ bit_and (x / 256 * 2 ^ 8 + x % 256) (0 * 2 ^ 8 + m)
    parts i = bit_and (whole i) (padded i)
      where
        whole : x ≡ x / 256 * 2 ^ 8 + x % 256
        whole = omega arith

        padded : m ≡ 0 * 2 ^ 8 + m
        padded = omega arith

module _ (x : ℕ) where
  pub and_ff : bit_and x 0xff ≡ x % 256
  unfolding holds_to
  and_ff =
      and_low_byte x 0xff (omega arith)
      ∙ same_on_bytes (λ y. bit_and y 0xff) (λ y. y) refl (x % 256) (omega arith)

  pub and_1f : bit_and x 0x1f ≡ x % 32
  unfolding holds_to
  and_1f =
      and_low_byte x 0x1f (omega arith)
      ∙ same_on_bytes (λ y. bit_and y 0x1f) (λ y. y % 32) refl (x % 256) (omega arith)
      ∙ omega arith

  pub and_0f : bit_and x 0x0f ≡ x % 16
  unfolding holds_to
  and_0f =
      and_low_byte x 0x0f (omega arith)
      ∙ same_on_bytes (λ y. bit_and y 0x0f) (λ y. y % 16) refl (x % 256) (omega arith)
      ∙ omega arith

  pub and_fe : bit_and x 0xfe ≡ x / 2 % 128 * 2
  unfolding holds_to
  and_fe =
      and_low_byte x 0xfe (omega arith)
      ∙ same_on_bytes (λ y. bit_and y 0xfe) (λ y. y / 2 * 2) refl (x % 256) (omega arith)
      ∙ omega arith

  pub and_0e : bit_and x 0x0e ≡ x / 2 % 8 * 2
  unfolding holds_to
  and_0e =
      and_low_byte x 0x0e (omega arith)
      ∙ same_on_bytes (λ y. bit_and y 0x0e) (λ y. y / 2 % 8 * 2) refl (x % 256) (omega arith)
      ∙ omega arith

-- The lowest `n` bytes of `v`, as a loop over `(v >> (8 * i)) & 0xff` writes them.
abbrev pub be_bytes : ℕ → ℕ → List ℕ
be_bytes zero v = []
be_bytes (suc i) v = bit_and (v / 2 ^ (8 * i)) 0xff ∷ be_bytes i v

-- The number that bytes stand for.
abbrev pub be_value : ℕ → List ℕ → ℕ
be_value acc [] = acc
be_value acc (b ∷ bs) = be_value (acc * 256 + b) bs

pub be_bytes_4 : (v : ℕ) → v < 2 ^ 32 → be_value 0 (be_bytes 4 v) ≡ v
be_bytes_4 v h =
    omega (arith, and_ff (v / 2 ^ 24), and_ff (v / 2 ^ 16), and_ff (v / 2 ^ 8), and_ff (v / 2 ^ 0))

pub be_bytes_8 : (v : ℕ) → v < 2 ^ 64 → be_value 0 (be_bytes 8 v) ≡ v
be_bytes_8 v h = omega (
  arith,
  and_ff (v / 2 ^ 56),
  and_ff (v / 2 ^ 48),
  and_ff (v / 2 ^ 40),
  and_ff (v / 2 ^ 32),
  and_ff (v / 2 ^ 24),
  and_ff (v / 2 ^ 16),
  and_ff (v / 2 ^ 8),
  and_ff (v / 2 ^ 0),
)
