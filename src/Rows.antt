-- ===== src/Rows.antt =====
-- The loops of src/sconvert_NV12toR8.c, src/sconvert_BG10toR16.c and src/stile.c over the rows of an image:
-- each row is written behind the last one.

use fastvideo.Prelude.{
  ℕ, zero, suc, ◌+◌, ◌*◌, ◌≤◌, ◌<◌, ◌≡◌, ◌⊎◌, inl, inr, refl, sym, ap, ◌∙◌, true, false, List, [],
  ◌∷◌, Option, none, some, if◌then◌else◌, leb, length, get_or, blit, arith, take, drop,
}

-- `n` rows of `w` bytes from row `i` on; `none` where a row is read or written outside of its memory.
unfoldable pub copy_rows : ℕ → ℕ → ℕ → (ℕ → Option (List ℕ)) → List ℕ → Option (List ℕ)
copy_rows zero i w row dst = some dst
copy_rows (suc n) i w row dst = elim (row i) [
  | none ↦ none
  | some bytes ↦ elim (leb (i * w + length bytes) (length dst)) [
    | true ↦ copy_rows n (i + 1) w row (blit dst (i * w) bytes)
    | false ↦ none
  ]
]

-- What `memcpy` reads: `size` bytes at `offset`.
unfoldable pub read_bytes : List ℕ → ℕ → ℕ → Option (List ℕ)
read_bytes src offset size =
    if leb (offset + size) (length src) then some (take size (drop offset src)) else none

pub length-blit : (xs : List ℕ) (i : ℕ) (ys : List ℕ) → length (blit xs i ys) ≡ length xs
length-blit xs i [] = refl
length-blit [] i (y ∷ ys) = refl
length-blit (x ∷ xs) zero (y ∷ ys) = ap suc (length-blit xs 0 ys)
length-blit (x ∷ xs) (suc i) (y ∷ ys) = ap suc (length-blit xs i (y ∷ ys))

-- Outside of what is written nothing changes.
pub get_or-blit_outside :
    (xs : List ℕ) (i k : ℕ) (ys : List ℕ)
    → (k < i) ⊎ (i + length ys ≤ k)
    → get_or (blit xs i ys) k 0 ≡ get_or xs k 0
get_or-blit_outside xs i k [] h = refl
get_or-blit_outside [] i k (y ∷ ys) h = refl
get_or-blit_outside (x ∷ xs) zero zero (y ∷ ys) h = absurd (ground arith)
get_or-blit_outside (x ∷ xs) zero (suc k) (y ∷ ys) h = get_or-blit_outside xs 0 k ys (ground arith)
get_or-blit_outside (x ∷ xs) (suc i) zero (y ∷ ys) h = refl
get_or-blit_outside (x ∷ xs) (suc i) (suc k) (y ∷ ys) h =
    get_or-blit_outside xs i k (y ∷ ys) (ground arith)

pub get_or-blit_inside :
    (xs : List ℕ) (i c : ℕ) (ys : List ℕ)
    → c < length ys
    → i + length ys ≤ length xs
    → get_or (blit xs i ys) (i + c) 0 ≡ get_or ys c 0
get_or-blit_inside xs i c [] h fits = absurd (omega arith)
get_or-blit_inside [] i c (y ∷ ys) h fits = absurd (omega arith)
get_or-blit_inside (x ∷ xs) zero zero (y ∷ ys) h fits = refl
get_or-blit_inside (x ∷ xs) zero (suc c) (y ∷ ys) h fits =
    ap (λ k. get_or (y ∷ blit xs 0 ys) k 0) {x = 0 + suc c} {y = suc (0 + c)} (omega arith)
    ∙ get_or-blit_inside xs 0 c ys (omega arith) (omega arith)
get_or-blit_inside (x ∷ xs) (suc i) c (y ∷ ys) h fits =
    ap (λ k. get_or (x ∷ blit xs i (y ∷ ys)) k 0) {x = suc i + c} {y = suc (i + c)} (omega arith)
    ∙ get_or-blit_inside xs i c (y ∷ ys) h (omega arith)

-- The rows from `i` on hold what they were given, and the rest is as it was.
pub record Copied (n i w : ℕ) (f : ℕ → List ℕ) (dst dst' : List ℕ) : Type 0 where
  pub same_length : length dst' ≡ length dst
  pub inside : (r c : ℕ) → i ≤ r → r < i + n → c < w → get_or dst' (r * w + c) 0 ≡ get_or (f r) c 0
  pub outside : (k : ℕ) → (k < i * w) ⊎ ((i + n) * w ≤ k) → get_or dst' k 0 ≡ get_or dst k 0

pub copy_rows-Copied :
    (n i w : ℕ) (row : ℕ → Option (List ℕ)) (f : ℕ → List ℕ) (dst : List ℕ)
    → ((j : ℕ) → i ≤ j → j < i + n → row j ≡ some (f j))
    → ((j : ℕ) → i ≤ j → j < i + n → length (f j) ≡ w)
    → (i + n) * w ≤ length dst
    → (dst' : List ℕ) × (copy_rows n i w row dst ≡ some dst') × Copied n i w f dst dst'
unfolding copy_rows
copy_rows-Copied zero i w row f dst rows width fits = (
  dst,
  refl,
  record {
    same_length = refl;
    inside = λ r c low high in_row. absurd (omega (arith, low, high));
    outside = λ k h. refl;
  },
)
copy_rows-Copied (suc n) i w row f dst rows width fits =
    let dst1 : List ℕ = blit dst (i * w) (f i) in
    let first : length (f i) ≡ w = width i (omega arith) (omega arith) in
    let room : (i + 1 + n) * w ≤ length dst = omega (arith, fits) in
    let here : i * w + length (f i) ≤ length dst = omega (arith, fits, first) in
    let (dst', ran, c) =
      copy_rows-Copied n (i + 1) w row f dst1
        (λ j low high. rows j (omega (arith, low)) (omega (arith, high)))
        (λ j low high. width j (omega (arith, low)) (omega (arith, high)))
        (omega (arith, room, length-blit dst (i * w) (f i))) in
    (
      dst',
      rw (copy_rows, rows i (omega arith) (omega arith), fits_row here) ran,
      record {
        same_length = c.same_length ∙ length-blit dst (i * w) (f i);
        inside = λ r k low high in_row. same_row first r k low high in_row dst' c.inside c.outside;
        outside = λ k h.
            c.outside k (beyond k h) ∙ get_or-blit_outside dst (i * w) k (f i) (apart first k h);
      },
    )
  where
    dst1' : List ℕ
    dst1' = blit dst (i * w) (f i)

    fits_row : i * w + length (f i) ≤ length dst → leb (i * w + length (f i)) (length dst) ≡ true
    fits_row h = ground (arith, h)

    beyond :
        (k : ℕ) → (k < i * w) ⊎ ((i + suc n) * w ≤ k) → (k < (i + 1) * w) ⊎ ((i + 1 + n) * w ≤ k)
    beyond k (inl h) = inl (omega (arith, h))
    beyond k (inr h) = inr (omega (arith, h))

    apart :
        length (f i) ≡ w
        → (k : ℕ) → (k < i * w) ⊎ ((i + suc n) * w ≤ k)
        → (k < i * w) ⊎ (i * w + length (f i) ≤ k)
    apart first k (inl h) = inl h
    apart first k (inr h) = inr (omega (arith, h, first))

    same_row :
        length (f i) ≡ w
        → (r k : ℕ) → i ≤ r
        → r < i + suc n
        → k < w
        → (dst' : List ℕ)
        → ((r k : ℕ)
            → i + 1 ≤ r
            → r < i + 1 + n
            → k < w
            → get_or dst' (r * w + k) 0 ≡ get_or (f r) k 0)
        → ((k : ℕ) → (k < (i + 1) * w) ⊎ ((i + 1 + n) * w ≤ k) → get_or dst' k 0 ≡ get_or dst1' k 0)
        → get_or dst' (r * w + k) 0 ≡ get_or (f r) k 0
    same_row first r k low high in_row dst' later before = elim (first_or_later r low) [
      | inl same ↦
          ap (λ j. get_or dst' (j * w + k) 0) same
          ∙ before (i * w + k) (inl (omega (arith, in_row)))
          ∙ get_or-blit_inside dst (i * w) k (f i) (omega (arith, first, in_row))
              (omega (arith, fits, first))
          ∙ ap (λ j. get_or (f j) k 0) (sym same)
      | inr more ↦ later r k more (omega (arith, high)) in_row
    ]
      where
        first_or_later : (r : ℕ) → i ≤ r → (r ≡ i) ⊎ (i + 1 ≤ r)
        first_or_later r low = ground arith

pub get_or-drop : (xs : List ℕ) (n k : ℕ) → get_or (drop n xs) k 0 ≡ get_or xs (n + k) 0
get_or-drop [] zero k = refl
get_or-drop [] (suc n) k = refl
get_or-drop (x ∷ xs) zero k = ap (λ n. get_or (x ∷ xs) n 0) {x = k} {y = 0 + k} (omega arith)
get_or-drop (x ∷ xs) (suc n) k =
    get_or-drop xs n k
    ∙ ap (λ m. get_or (x ∷ xs) m 0) {x = suc (n + k)} {y = suc n + k} (omega arith)

pub get_or-take : (xs : List ℕ) (n k : ℕ) → k < n → get_or (take n xs) k 0 ≡ get_or xs k 0
get_or-take xs zero k h = absurd (omega (arith, h))
get_or-take [] (suc n) k h = refl
get_or-take (x ∷ xs) (suc n) zero h = refl
get_or-take (x ∷ xs) (suc n) (suc k) h = get_or-take xs n k (omega (arith, h))
