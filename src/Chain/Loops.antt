-- ===== src/Chain/Loops.antt =====
-- The loops over the lists of src/sfastvideo.c: from the start, and after a call of `fastvideolist_first`.
use fastvideo.Prelude.{
  ℕ, ◌≡◌, zero, suc, refl, ap, ◌∙◌, Option, none, some, List, ◌∷◌, ◌<◌, length, arith, get_elem?,
  set, get_elem?-set_self,
}
use fastvideo.Chain.{
  Node, Heap, set_iterator, ◌>>=◌, up_from, entity_of, visit, for_next, fastvideolist_next,
  fastvideolist_first,
}
use fastvideo.Chain.Linked.{
  head_of, Chain, chain_end, link, moved, read-moved, Chain-moved, set_iterator-moved, in_bounds,
}

-- A call of `next` whose reads succeed.
next_step :
    (h : Heap) (list : ℕ) (first : Node) (entry entity : Option ℕ)
    → get_elem? h list ≡ some first
    → up_from h list first.iterator ≡ some entry
    → entity_of h entry ≡ some entity
    → fastvideolist_next h (some list) ≡ some (set h list (moved first entry), entity)
unfolding fastvideolist_next
next_step h list first entry entity here up named =
    ap
      (λ o. o >>= λ node. up_from h list node.iterator >>= λ e.
        entity_of h e >>= λ y. set_iterator h list e >>= λ h1. some (h1, y))
      here
    ∙ ap (λ o. o >>= λ e. entity_of h e >>= λ y. set_iterator h list e >>= λ h1. some (h1, y)) up
    ∙ ap (λ o. o >>= λ y. set_iterator h list entry >>= λ h1. some (h1, y)) named
    ∙ ap (λ o. o >>= λ h1. some (h1, entity)) (set_iterator-moved h list first entry here)

-- What a loop leaves: the same chain, and a list whose iterator is null again.
pub record Walked (list : ℕ) (places es : List ℕ) (h : Heap) : Type 0 where
  pub chain : Chain h none places es
  pub node : Node
  pub here : get_elem? h list ≡ some node
  pub rewound : node.iterator ≡ none

entity_read :
    (h : Heap) (b : ℕ) (node : Node) (e : ℕ)
    → get_elem? h b ≡ some node
    → node.entity ≡ e
    → entity_of h (some b) ≡ some (some e)
entity_read h b node e there entity =
    ap (λ o. o >>= λ n. some (some n.entity)) there ∙ ap (λ x. some (some x)) entity

-- The loop ends with these entities, and may be run again.
abbrev Visits : ℕ → Heap → ℕ → List ℕ → List ℕ → List ℕ → Type 0
Visits fuel h list places es visited =
    (h1 : Heap) × (for_next fuel h (some list) ≡ some (h1, visited)) × Walked list places es h1

-- One round of the loop, to the node `b`.
one_round :
    (fuel : ℕ) (h : Heap) (list b : ℕ) (first : Node) (places es visited : List ℕ) (e : ℕ)
    → get_elem? h list ≡ some first
    → up_from h list first.iterator ≡ some (some b)
    → entity_of h (some b) ≡ some (some e)
    → Visits fuel (set h list (moved first (some b))) list places es visited
    → Visits (suc fuel) h list places es (e ∷ visited)
unfolding for_next
one_round fuel h list b first places es visited e here up named (h1, ran, walked) = (
  h1,
  ap (λ o. o >>= visit (λ h2. for_next fuel h2 (some list)))
        (next_step h list first (some b) (some e) here up named)
      ∙ ap (λ o. o >>= λ r. some (r.0, e ∷ r.1)) ran,
  walked,
)

-- The loop from the node `current` on, with the nodes that follow it.
rest_of_loop :
    (fuel : ℕ) (h : Heap) (list current : ℕ) (first at_ : Node)
    {places es rest_places rest_es : List ℕ}
    → get_elem? h list ≡ some first
    → first.iterator ≡ some current
    → get_elem? h current ≡ some at_
    → at_.next ≡ head_of rest_places
    → Chain h none places es
    → Chain h (some current) rest_places rest_es
    → length rest_places < fuel
    → Visits fuel h list places es rest_es
unfolding for_next
rest_of_loop zero h list current first at_ here pointed there ahead whole rest enough =
    absurd (omega (arith, enough))
rest_of_loop (suc fuel) h list current first at_ here pointed there ahead whole (chain_end _)
      enough =
    (
      set h list (moved first none),
      ap (λ o. o >>= visit (λ h1. for_next fuel h1 (some list)))
          (next_step h list first none none here
            (ap (up_from h list) pointed
              ∙ ap (λ o. o >>= λ node. some node.next) there
              ∙ ap some ahead)
            refl),
      record {
        chain = Chain-moved list first none here whole;
        node = moved first none;
        here = get_elem?-set_self h list (moved first none) (in_bounds h list first here);
        rewound = refl;
      },
    )
rest_of_loop (suc fuel) h list current first at_ {places} {es} here pointed there ahead whole
      (link {a = b} {e = e} {es = others} _ node b_there entity back b_ahead rest) enough =
    let (node1, b_there1, same_entity, same_previous, same_next) =
      read-moved h list first (some b) b node here b_there in
    one_round fuel h list b first places es others e here
      (ap (up_from h list) pointed ∙ ap (λ o. o >>= λ n. some n.next) there ∙ ap some ahead)
      (entity_read h b node e b_there entity)
      (rest_of_loop fuel (set h list (moved first (some b))) list b (moved first (some b)) node1
        (get_elem?-set_self h list (moved first (some b)) (in_bounds h list first here)) refl
        b_there1 (same_next ∙ b_ahead) (Chain-moved list first (some b) here whole)
        (Chain-moved list first (some b) here rest) (omega (arith, enough)))

same_length :
    {h : Heap} {previous : Option ℕ} {places es : List ℕ}
    → Chain h previous places es
    → length places ≡ length es
same_length (chain_end _) = refl
same_length (link _ node there entity back ahead rest) = ap suc (same_length rest)

-- On a list whose iterator is null, the loop over `fastvideolist_next` ends, goes through all entities in order,
-- and leaves the list as it was, so that the next loop goes through them again.
pub for_next_all :
    (fuel : ℕ) (h : Heap) (list : ℕ) (first : Node) (places es : List ℕ)
    → Chain h none (list ∷ places) es
    → get_elem? h list ≡ some first
    → first.iterator ≡ none
    → length es < fuel
    → (h1 : Heap) × (for_next fuel h (some list) ≡ some (h1, es))
      × Walked list (list ∷ places) es h1
for_next_all zero h list first places es whole here rewound enough = absurd (omega (arith, enough))
for_next_all (suc fuel) h list first places _
      (link {e = e} {es = others} _ node there entity back ahead rest) here rewound enough =
    let (node1, there1, same_entity, same_previous, same_next) =
      read-moved h list first (some list) list node here there in
    one_round fuel h list list first (list ∷ places) (e ∷ others) others e here
      (ap (up_from h list) rewound) (entity_read h list node e there entity)
      (rest_of_loop fuel (set h list (moved first (some list))) list list (moved first (some list))
        node1 (get_elem?-set_self h list (moved first (some list)) (in_bounds h list first here))
        refl there1 (same_next ∙ ahead)
        (Chain-moved list first (some list) here (link none node there entity back ahead rest))
        (Chain-moved list first (some list) here rest) (omega (arith, enough, same_length rest)))

-- After `fastvideolist_first` the same loop leaves the first entity out.
pub for_next-fastvideolist_first :
    (fuel : ℕ) (h : Heap) (list : ℕ) (first : Node) (places : List ℕ) (e : ℕ) (es : List ℕ)
    → Chain h none (list ∷ places) (e ∷ es)
    → get_elem? h list ≡ some first
    → length es < fuel
    → (h1 h2 : Heap) × (fastvideolist_first h (some list) ≡ some (h1, some list))
      × (for_next fuel h1 (some list) ≡ some (h2, es))
      × Walked list (list ∷ places) (e ∷ es) h2
unfolding fastvideolist_first
for_next-fastvideolist_first fuel h list first places _ _ (link _ node there entity back ahead rest)
      here enough =
    let (node1, there1, same_entity, same_previous, same_next) =
      read-moved h list first (some list) list node here there in
    let (h2, ran, walked) =
      rest_of_loop fuel (set h list (moved first (some list))) list list (moved first (some list))
        node1 (get_elem?-set_self h list (moved first (some list)) (in_bounds h list first here))
        refl there1 (same_next ∙ ahead)
        (Chain-moved list first (some list) here (link none node there entity back ahead rest))
        (Chain-moved list first (some list) here rest) (omega (arith, enough, same_length rest)) in
    (
      set h list (moved first (some list)),
      h2,
      ap (λ o. o >>= λ h1. some (h1, some list)) (set_iterator-moved h list first (some list) here),
      ran,
      walked,
    )
