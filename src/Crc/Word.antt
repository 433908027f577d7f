-- ===== src/Crc/Word.antt =====
-- The width of the register of `crc32` of src/smpegts.c.
use fastvideo.Prelude.{
  ◌∷◌, ℕ, ◌≡◌, zero, ◌/◌, suc, ◌<◌, bit_xor, ◌^◌, refl, ◌&&◌, Bool, true, List, [], arith, ltb,
  get_or,
}
use fastvideo.Prelude.Bits.{xor-lt}
use fastvideo.Crc.{crc32_table, crc_step, crc32_from, crc32}

all_words : List ℕ → Bool
all_words [] = true
all_words (w ∷ ws) = ltb w (2 ^ 32) && all_words ws

get_or-word : (t : List ℕ) (i : ℕ) → all_words t ≡ true → get_or t i 0 < 2 ^ 32
unfolding all_words
get_or-word [] i h = omega arith
get_or-word (w ∷ ws) zero h = ground arith
get_or-word (w ∷ ws) (suc i) h = get_or-word ws i (ground arith)

crc32_table-words : all_words crc32_table ≡ true
unfolding all_words
crc32_table-words = refl

pub crc_step-lt : (c b : ℕ) → crc_step c b < 2 ^ 32
unfolding crc_step
crc_step-lt c b =
    xor-lt 32 _ _ (omega arith) (get_or-word crc32_table (bit_xor (c / 2 ^ 24) b) crc32_table-words)

pub crc32_from-lt : (c : ℕ) (bs : List ℕ) → c < 2 ^ 32 → crc32_from c bs < 2 ^ 32
unfolding crc32_from
crc32_from-lt c [] h = h
crc32_from-lt c (b ∷ bs) h = crc32_from-lt (crc_step c b) bs (crc_step-lt c b)

pub crc32-lt : (bs : List ℕ) → crc32 bs < 2 ^ 32
unfolding crc32
crc32-lt bs = crc32_from-lt _ bs (omega arith)
