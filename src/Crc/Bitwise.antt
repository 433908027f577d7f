-- ===== src/Crc/Bitwise.antt =====
-- The table-driven loop of src/smpegts.c against CRC-32 computed one bit at a time.
use mathlib.Core.Path.{ap₂}
use fastvideo.Prelude.{
  ◌∷◌, ℕ, ◌+◌, zero, ◌<◌, suc, ◌≡◌, bit_xor, ◌*◌, refl, ◌/◌, ap, ◌∙◌, sym, ◌%◌, Bool, ◌^◌, true,
  ◌==◌, List, [], arith, ==_iff, get_or, Fits,
}
use fastvideo.Prelude.Bits.{xor-lt, xor_split, xor_comm, xor-zero, zero-xor}
use fastvideo.Prelude.Bytes.{holds_to, holds_to_lem}
use fastvideo.Crc.{crc32_table, crc_step, crc32_from, crc32}
use fastvideo.Crc.Word.{crc_step-lt}
use fastvideo.Crc.Linear.{shift_bit, shift_bit-lt, shift_bit-xor}

-- `n` bits of the register are shifted out.
unfoldable pub shift_bits : ℕ → ℕ → ℕ
shift_bits zero c = c
shift_bits (suc n) c = shift_bits n (shift_bit c)

shift_bits-xor :
    (n x y : ℕ)
    → x < 2 ^ 32
    → y < 2 ^ 32
    → shift_bits n (bit_xor x y) ≡ bit_xor (shift_bits n x) (shift_bits n y)
unfolding shift_bits
shift_bits-xor zero x y hx hy = refl
shift_bits-xor (suc n) x y hx hy =
    rw (shift_bit-xor x y hx hy)
      (shift_bits-xor n (shift_bit x) (shift_bit y) (shift_bit-lt x hx) (shift_bit-lt y hy))

-- A byte is added at the top of the register, and eight bits are shifted out.
unfoldable pub bit_step : ℕ → ℕ → ℕ
bit_step c b = shift_bits 8 (bit_xor c (b * 2 ^ 24))

unfoldable pub bit_crc_from : ℕ → List ℕ → ℕ
bit_crc_from c [] = c
bit_crc_from c (b ∷ bs) = bit_crc_from (bit_step c b) bs

-- CRC-32/MPEG-2: all ones at first, nothing reflected, nothing added at the end.
unfoldable pub bit_crc : List ℕ → ℕ
bit_crc bs = bit_crc_from 0xffff_ffff bs

abbrev entry_agrees : ℕ → Bool
entry_agrees i = shift_bits 8 (i * 2 ^ 24) == get_or crc32_table i 0

table_agrees : holds_to entry_agrees 256 ≡ true
unfolding holds_to shift_bits shift_bit
table_agrees = refl

-- Each of the 256 entries is the eight-bit shift of its index.
pub crc32_table_entry : (i : ℕ) → i < 256 → shift_bits 8 (i * 2 ^ 24) ≡ get_or crc32_table i 0
crc32_table_entry i h = (==_iff _ _).0 (holds_to_lem entry_agrees 256 i h table_agrees)

-- Nothing is reduced while the ones stay inside the register.
shift_bit_small : (l : ℕ) → l < 2 ^ 31 → shift_bit l ≡ 2 * l
unfolding shift_bit
shift_bit_small l h = ground arith

shift_byte_small : (l : ℕ) → l < 2 ^ 24 → shift_bits 8 l ≡ l * 2 ^ 8
unfolding shift_bits
shift_byte_small l h =
    rw
      (
        shift_bit_small l (omega arith),
        shift_bit_small (2 * l) (omega arith),
        shift_bit_small (2 * (2 * l)) (omega arith),
        shift_bit_small (2 * (2 * (2 * l))) (omega arith),
        shift_bit_small (2 * (2 * (2 * (2 * l)))) (omega arith),
        shift_bit_small (2 * (2 * (2 * (2 * (2 * l))))) (omega arith),
        shift_bit_small (2 * (2 * (2 * (2 * (2 * (2 * l)))))) (omega arith),
        shift_bit_small (2 * (2 * (2 * (2 * (2 * (2 * (2 * l))))))) (omega arith),
      )
      (omega arith)

xor_at_top :
    (h b l : ℕ) → l < 2 ^ 24 → bit_xor (h * 2 ^ 24 + l) (b * 2 ^ 24) ≡ bit_xor h b * 2 ^ 24 + l
xor_at_top h b l hl =
    ap (bit_xor (h * 2 ^ 24 + l)) (omega arith)
    ∙ xor_split 24 h b l 0 hl (omega arith)
    ∙ ap (λ t. bit_xor h b * 2 ^ 24 + t) (xor-zero l)

xor_disjoint : (i l : ℕ) → l < 2 ^ 24 → bit_xor (i * 2 ^ 24) l ≡ i * 2 ^ 24 + l
xor_disjoint i l hl =
    ap₂ bit_xor (omega arith) (omega arith)
    ∙ xor_split 24 i 0 0 l (omega arith) hl
    ∙ ap₂ (λ s t. s * 2 ^ 24 + t) (xor-zero i) (zero-xor l)

-- The register in two parts: what the table sees, and what is only shifted.
bit_step_parts :
    (h l b : ℕ)
    → h < 2 ^ 8
    → b < 2 ^ 8
    → l < 2 ^ 24
    → bit_step (h * 2 ^ 24 + l) b ≡ bit_xor (get_or crc32_table (bit_xor h b) 0) (l * 2 ^ 8)
unfolding bit_step
bit_step_parts h l b hh hb hl =
    ap (shift_bits 8) joined
    ∙ shift_bits-xor 8 (bit_xor h b * 2 ^ 24) l (omega (arith, xor-lt 8 h b hh hb)) (omega arith)
    ∙ rw (crc32_table_entry (bit_xor h b) (xor-lt 8 h b hh hb), shift_byte_small l hl)
  where
    joined : bit_xor (h * 2 ^ 24 + l) (b * 2 ^ 24) ≡ bit_xor (bit_xor h b * 2 ^ 24) l
    joined = xor_at_top h b l hl ∙ sym (xor_disjoint (bit_xor h b) l hl)

-- A round of the table loop is eight rounds of the bit loop.
pub crc_step-eq-bit_step : (c b : ℕ) → c < 2 ^ 32 → b < 2 ^ 8 → crc_step c b ≡ bit_step c b
unfolding crc_step
crc_step-eq-bit_step c b hc hb =
    ap (λ t. bit_xor t (get_or crc32_table (bit_xor (c / 2 ^ 24) b) 0)) (omega arith)
    ∙ xor_comm (c % 2 ^ 24 * 2 ^ 8) (get_or crc32_table (bit_xor (c / 2 ^ 24) b) 0)
    ∙ sym (bit_step_parts (c / 2 ^ 24) (c % 2 ^ 24) b (omega arith) hb (omega arith))
    ∙ ap (λ t. bit_step t b) (omega arith)

crc32_from-eq-bit_crc_from :
    (c : ℕ) (bs : List ℕ) → c < 2 ^ 32 → Fits 8 bs → crc32_from c bs ≡ bit_crc_from c bs
unfolding crc32_from bit_crc_from
crc32_from-eq-bit_crc_from c [] hc f = refl
crc32_from-eq-bit_crc_from c (b ∷ bs) hc f =
    crc32_from-eq-bit_crc_from (crc_step c b) bs (crc_step-lt c b) f.1
    ∙ ap (λ t. bit_crc_from t bs) (crc_step-eq-bit_step c b hc f.0)

-- Over every buffer of bytes, `crc32` is the bit-serial CRC-32 with polynomial 0x04c11db7, the
-- register all ones at first, nothing reflected and nothing added at the end.
pub crc32-eq-bit_crc : (bs : List ℕ) → Fits 8 bs → crc32 bs ≡ bit_crc bs
unfolding crc32 bit_crc
crc32-eq-bit_crc bs f = crc32_from-eq-bit_crc_from 0xffff_ffff bs (omega arith) f
