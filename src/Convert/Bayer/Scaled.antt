-- ===== src/Convert/Bayer/Scaled.antt =====
-- The lines of src/sconvert_BG10toR16.c as lists of weighted samples.
use fastvideo.Prelude.{
  ℕ, ◌+◌, refl, ◌*◌, ap, ◌/◌, ◌∙◌, ◌%◌, zero, ◌^◌, suc, ◌≡◌, List, ◌<◌, [], ◌≤◌, ◌∷◌, arith, some,
  drop, ◌==◌, length, get_or, if◌then◌else◌, length-drop,
}
use fastvideo.Rows.{get_or-drop}
use fastvideo.Convert.Bayer.{scale_sample, scale_four, convert_groups}

-- The coefficient of the sample at `k`.
abbrev pub pick : ℕ → ℕ → ℕ → ℕ
pick k c0 c1 = if k % 2 == 0 then c0 else c1

-- The weighted samples of `n` groups.
abbrev pub line : ℕ → List ℕ → ℕ → ℕ → List ℕ
line zero xs c0 c1 = []
line (suc n) xs c0 c1 =
    scale_sample (get_or xs 0 0) c0
    ∷ scale_sample (get_or xs 1 0) c1
    ∷ scale_sample (get_or xs 2 0) c0
    ∷ scale_sample (get_or xs 3 0) c1
    ∷ line n (drop 4 xs) c0 c1

pub length-line : (n : ℕ) (xs : List ℕ) (c0 c1 : ℕ) → length (line n xs c0 c1) ≡ 4 * n
length-line zero xs c0 c1 = omega arith
length-line (suc n) xs c0 c1 = omega (arith, length-line n (drop 4 xs) c0 c1)

pub get_or-line :
    (n : ℕ) (xs : List ℕ) (c0 c1 k : ℕ)
    → k < 4 * n
    → get_or (line n xs c0 c1) k 0 ≡ scale_sample (get_or xs k 0) (pick k c0 c1)
get_or-line zero xs c0 c1 k h = absurd (omega (arith, h))
get_or-line (suc n) xs c0 c1 zero h = refl
get_or-line (suc n) xs c0 c1 (suc zero) h = refl
get_or-line (suc n) xs c0 c1 (suc (suc zero)) h = refl
get_or-line (suc n) xs c0 c1 (suc (suc (suc zero))) h = refl
get_or-line (suc n) xs c0 c1 (suc (suc (suc (suc k)))) h =
    get_or-line n (drop 4 xs) c0 c1 k (omega (arith, h))
    ∙ ap (λ x. scale_sample x (pick k c0 c1)) (get_or-drop xs 4 k)
    ∙ ap (λ i. scale_sample (get_or xs i 0) (pick k c0 c1)) {x = 4 + k}
        {y = suc (suc (suc (suc k)))} (omega arith)
    ∙ ap (λ p. scale_sample (get_or xs (suc (suc (suc (suc k)))) 0) (if p == 0 then c0 else c1))
        {x = k % 2} {y = suc (suc (suc (suc k))) % 2} (omega arith)

pub convert_groups-line :
    (n : ℕ) (xs : List ℕ) (c0 c1 : ℕ)
    → 4 * n ≤ length xs
    → convert_groups n xs c0 c1 ≡ some (line n xs c0 c1)
unfolding convert_groups scale_four
convert_groups-line zero xs c0 c1 h = refl
convert_groups-line (suc n) xs c0 c1 h =
    ap (scale_four xs c0 c1)
      (convert_groups-line n (drop 4 xs) c0 c1 (omega (arith, h, length-drop 4 xs)))
    ∙ four xs (omega (arith, h))
  where
    four :
        (xs : List ℕ)
        → 4 ≤ length xs
        → scale_four xs c0 c1 (some (line n (drop 4 xs) c0 c1)) ≡ some (line (suc n) xs c0 c1)
    four [] h = absurd (omega (arith, h))
    four (a ∷ []) h = absurd (omega (arith, h))
    four (a ∷ b ∷ []) h = absurd (omega (arith, h))
    four (a ∷ b ∷ c ∷ []) h = absurd (omega (arith, h))
    four (a ∷ b ∷ c ∷ d ∷ xs) h = refl

-- A green sample keeps an eighth of its value, rounded; the others are left out.
pub scale-green : (s : ℕ) → s < 2 ^ 16 → scale_sample s 32 ≡ (s + 4) / 8
unfolding scale_sample
scale-green s h = ground (arith, h)

pub scale-other : (s : ℕ) → scale_sample s 0 ≡ 0
unfolding scale_sample
scale-other s = ground arith
