-- ===== src/Chain/Built.antt =====
-- Lists of src/sfastvideo.c from their first entity to the loop over them.
use mathlib.Core.Path.{subst}
use fastvideo.Prelude.{
  ℕ, ◌≡◌, suc, refl, ap, ◌∙◌, sym, zero, Option, none, List, some, [], ◌<◌, ◌∷◌, length, ◌++◌,
  arith,
}
use fastvideo.Chain.{Heap, ◌>>=◌, for_next, fastvideolist_next, fastvideolist_insert}
use fastvideo.Chain.Loops.{for_next_all}
use fastvideo.Chain.Insert.{IsQueue, fastvideolist_insert-IsList}

-- The entities inserted one after the other.
abbrev pub insert_all : Heap → Option ℕ → List ℕ → Option (Heap × Option ℕ)
insert_all h list [] = some (h, list)
insert_all h list (device ∷ devices) =
    fastvideolist_insert h list device >>= λ r. insert_all r.0 (some r.1) devices

append_assoc_one : (es : List ℕ) (d : ℕ) (ds : List ℕ) → (es ++ d ∷ []) ++ ds ≡ es ++ d ∷ ds
append_assoc_one [] d ds = refl
append_assoc_one (e ∷ es) d ds = ap (λ xs. e ∷ xs) (append_assoc_one es d ds)

append_nil : (es : List ℕ) → es ≡ es ++ []
append_nil [] = refl
append_nil (e ∷ es) = ap (λ xs. e ∷ xs) (append_nil es)

insert_all-IsQueue :
    (h : Heap) (list : Option ℕ) (es ds : List ℕ)
    → IsQueue h list es
    → (h1 : Heap) × (list1 : Option ℕ) × (insert_all h list ds ≡ some (h1, list1))
      × IsQueue h1 list1 (es ++ ds)
insert_all-IsQueue h list es [] v = (h, list, refl, subst (IsQueue h list) (append_nil es) v)
insert_all-IsQueue h list es (d ∷ ds) v =
    let (h1, list1, ran, w) = fastvideolist_insert-IsList h list es d v in
    let (h2, list2, ran_all, x) = insert_all-IsQueue h1 (some list1) (es ++ d ∷ []) ds w in
    (
      h2,
      list2,
      ap (λ o. o >>= λ r. insert_all r.0 (some r.1) ds) ran ∙ ran_all,
      subst (IsQueue h2 list2) (append_assoc_one es d ds) x,
    )

queue_visited :
    (fuel : ℕ) (h : Heap) (list : Option ℕ) (es : List ℕ)
    → IsQueue h list es
    → length es < fuel
    → (h1 : Heap) × (for_next fuel h list ≡ some (h1, es))
unfolding for_next fastvideolist_next
queue_visited zero h list es v enough = absurd (omega (arith, enough))
queue_visited (suc fuel) h none es v enough = (h, ap (λ xs. some (h, xs)) (sym v))
queue_visited (suc fuel) h (some list) es v enough =
    let (h1, ran, walked) =
      for_next_all (suc fuel) h list v.first v.places es v.chain v.here v.rewound enough in
    (h1, ran)

-- Entities inserted one by one into an empty list are visited in this order by the loop over the list.
pub insert_all-for_next :
    (fuel : ℕ) (h : Heap) (ds : List ℕ)
    → length ds < fuel
    → (h1 : Heap) × (list : Option ℕ) × (h2 : Heap) × (insert_all h none ds ≡ some (h1, list))
      × (for_next fuel h1 list ≡ some (h2, ds))
insert_all-for_next fuel h ds enough =
    let (h1, list, ran, v) = insert_all-IsQueue h none [] ds refl in
    let (h2, visited) = queue_visited fuel h1 list ds v enough in (h1, list, h2, ran, visited)
