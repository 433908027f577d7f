-- ===== src/Crc/Residue.antt =====
-- What a receiver of the tables computes: `crc32` of src/smpegts.c over a section and its checksum.
use fastvideo.Prelude.{◌^◌, ℕ, ◌/◌, refl, ◌*◌, List, ◌∷◌, [], ◌%◌, arith, ◌<◌, ◌∙◌, ◌≡◌, ◌++◌}
use fastvideo.Prelude.Bits.{xor_self, xor-zero}
use fastvideo.Crc.{crc_step, crc32_from, crc32, be32}
use fastvideo.Crc.Word.{crc32-lt}

pub crc32_from-append :
    (c : ℕ) (xs ys : List ℕ) → crc32_from c (xs ++ ys) ≡ crc32_from (crc32_from c xs) ys
unfolding crc32_from
crc32_from-append c [] ys = refl
crc32_from-append c (x ∷ xs) ys = crc32_from-append (crc_step c x) xs ys

-- The byte that the register holds at its top is shifted out, and nothing comes in.
crc_step_top : (c b : ℕ) → b ≡ c / 2 ^ 24 → crc_step c b ≡ c * 2 ^ 8 % 2 ^ 32
unfolding crc_step
crc_step_top c b e = rw (e, xor_self (c / 2 ^ 24)) (xor-zero _)

-- Its own four bytes empty the register.
crc32_from-be32 : (c : ℕ) → c < 2 ^ 32 → crc32_from c (be32 c) ≡ 0
unfolding crc32_from
crc32_from-be32 c h =
    rw
      (
        crc_step_top c (c / 2 ^ 24) refl,
        crc_step_top (c * 2 ^ 8 % 2 ^ 32) (c / 2 ^ 16 % 2 ^ 8) (omega arith),
        crc_step_top (c * 2 ^ 8 % 2 ^ 32 * 2 ^ 8 % 2 ^ 32) (c / 2 ^ 8 % 2 ^ 8) (omega arith),
        crc_step_top (c * 2 ^ 8 % 2 ^ 32 * 2 ^ 8 % 2 ^ 32 * 2 ^ 8 % 2 ^ 32) (c % 2 ^ 8)
            (omega arith),
      )
      (omega arith)

-- The checksum over any bytes, with their own checksum behind them, is 0.
pub crc32-append_be32 : (bs : List ℕ) → crc32 (bs ++ be32 (crc32 bs)) ≡ 0
unfolding crc32
crc32-append_be32 bs =
    crc32_from-append _ bs (be32 (crc32 bs)) ∙ crc32_from-be32 (crc32 bs) (crc32-lt bs)
