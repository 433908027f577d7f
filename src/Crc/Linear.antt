-- ===== src/Crc/Linear.antt =====
-- One bit of CRC-32 (polynomial 0x04c11db7) as a linear map on 32-bit words.
use mathlib.Core.Path.{subst₂}
use fastvideo.Prelude.{
  ◌<◌, ℕ, ◌/◌, zero, ◌^◌, suc, ◌≡◌, bit_xor, ◌*◌, refl, ◌+◌, ap, ◌%◌, arith, if◌then◌else◌, ltb,
  ltb-false,
}
use fastvideo.Prelude.Bits.{xor-lt, xor_split, xor_comm, xor_assoc, xor-zero}

abbrev pub polynomial : ℕ
polynomial = 0x04c1_1db7

-- The register shifted by one bit, reduced if a one falls out.
unfoldable pub shift_bit : ℕ → ℕ
shift_bit c = if ltb c (2 ^ 31) then 2 * c else bit_xor (2 * (c % 2 ^ 31)) polynomial

pub shift_bit-lt : (c : ℕ) → c < 2 ^ 32 → shift_bit c < 2 ^ 32
unfolding shift_bit
shift_bit-lt c h =
    ground (arith, xor-lt 32 (2 * (c % 2 ^ 31)) polynomial (omega arith) (omega arith))

-- What the bit that falls out adds.
carry : ℕ → ℕ
carry zero = 0
carry (suc p) = polynomial

shift_bit_parts :
    (p r : ℕ) → p < 2 → r < 2 ^ 31 → shift_bit (p * 2 ^ 31 + r) ≡ bit_xor (2 * r) (carry p)
unfolding shift_bit carry
shift_bit_parts zero r hp hr = ground (arith, xor-zero (2 * r))
shift_bit_parts (suc zero) r hp hr =
    rw (ltb-false (1 * 2 ^ 31 + r) (2 ^ 31) (omega arith))
      (ap (λ t. bit_xor (2 * t) polynomial) (omega arith))
shift_bit_parts (suc (suc p)) r hp hr = absurd (omega arith)

carry-xor : (p q : ℕ) → p < 2 → q < 2 → carry (bit_xor p q) ≡ bit_xor (carry p) (carry q)
unfolding carry
carry-xor zero zero hp hq = refl
carry-xor zero (suc zero) hp hq = refl
carry-xor (suc zero) zero hp hq = refl
carry-xor (suc zero) (suc zero) hp hq = refl
carry-xor (suc (suc p)) q hp hq = absurd (omega arith)
carry-xor zero (suc (suc q)) hp hq = absurd (omega arith)
carry-xor (suc zero) (suc (suc q)) hp hq = absurd (omega arith)

double-xor : (r s : ℕ) → 2 * bit_xor r s ≡ bit_xor (2 * r) (2 * s)
double-xor r s =
    let even : (t : ℕ) → t * 2 ^ 1 + 0 ≡ 2 * t = λ t. omega arith in
    let split : bit_xor (2 * r) (2 * s) ≡ bit_xor r s * 2 ^ 1 + bit_xor 0 0 =
      rw (← even r, ← even s) (xor_split 1 r s 0 0 (omega arith) (omega arith)) in
    omega (arith, split)

xor_interchange :
    (a b c d : ℕ) → bit_xor (bit_xor a b) (bit_xor c d) ≡ bit_xor (bit_xor a c) (bit_xor b d)
xor_interchange a b c d = cc (
  xor_assoc a b (bit_xor c d),
  xor_assoc b c d,
  xor_comm b c,
  xor_assoc c b d,
  xor_assoc a c (bit_xor b d),
)

shift_bit-xor_parts :
    (p q r s : ℕ)
    → p < 2
    → q < 2
    → r < 2 ^ 31
    → s < 2 ^ 31
    → shift_bit (bit_xor (p * 2 ^ 31 + r) (q * 2 ^ 31 + s))
      ≡ bit_xor (shift_bit (p * 2 ^ 31 + r)) (shift_bit (q * 2 ^ 31 + s))
shift_bit-xor_parts p q r s hp hq hr hs =
    rw
      (
        xor_split 31 p q r s hr hs,
        shift_bit_parts (bit_xor p q) (bit_xor r s) (xor-lt 1 p q hp hq) (xor-lt 31 r s hr hs),
        shift_bit_parts p r hp hr,
        shift_bit_parts q s hq hs,
        carry-xor p q hp hq,
        double-xor r s,
      )
      (xor_interchange (2 * r) (2 * s) (carry p) (carry q))

-- The map is additive: it takes `^` to `^`.
pub shift_bit-xor :
    (x y : ℕ)
    → x < 2 ^ 32
    → y < 2 ^ 32
    → shift_bit (bit_xor x y) ≡ bit_xor (shift_bit x) (shift_bit y)
shift_bit-xor x y hx hy =
    subst₂ (λ u v. shift_bit (bit_xor u v) ≡ bit_xor (shift_bit u) (shift_bit v)) (whole x)
      (whole y)
      (shift_bit-xor_parts (x / 2 ^ 31) (y / 2 ^ 31) (x % 2 ^ 31) (y % 2 ^ 31) (omega arith)
        (omega arith) (omega arith) (omega arith))
  where
    whole : (t : ℕ) → t / 2 ^ 31 * 2 ^ 31 + t % 2 ^ 31 ≡ t
    whole t = omega arith
