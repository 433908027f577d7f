-- ===== src/Chain/Insert.antt =====
-- `fastvideolist_insert` of src/sfastvideo.c puts an entity at the end of a list.
use mathlib.Core.Option.{some-injective}
use mathlib.Core.Path.{subst}
use fastvideo.Prelude.{
  ℕ, ◌≡◌, ◌≢◌, refl, ap, ◌∙◌, sym, false, Option, none, some, List, [], ◌∷◌, length, arith,
  get_elem?, set, get_elem?-set_self, get_elem?-set_ne, length-set, ◌==◌, ==_iff, Bool-cases, inl,
  inr, ◌++◌,
}
use fastvideo.Chain.{Node, Heap, fresh, load, store, ◌>>=◌, fastvideolist_insert}
use fastvideo.Chain.Linked.{chain_end, link, in_bounds, read-written}
use fastvideo.Chain.Extend.{
  last_of, IsList, get_elem?-append_left, get_elem?-append_last, Distinct-append, last_of-append,
  last_node, Carried, extend,
}

-- The heap that the call leaves: the last node linked to the new one, and the first one's note of the last.
module _ (h : Heap) (list l device : ℕ) (first end first1 : Node)
    (here : get_elem? h list ≡ some first) (ends : first.last ≡ some l)
    (there : get_elem? h l ≡ some end)
    (here1 : get_elem? (set h l (record end { next = some (length h) })) list ≡ some first1) where
  abbrev linked_heap : Heap
  linked_heap = set h l (record end { next = some (length h) })

  abbrev noted : Node
  noted = record first1 { last = some (length h) }

  abbrev new_node : Node
  new_node = record (fresh device) { previous = some l }

  abbrev left_heap : Heap
  left_heap = set linked_heap list noted ++ new_node ∷ []

  insert_runs : fastvideolist_insert h (some list) device ≡ some (left_heap, list)
  unfolding fastvideolist_insert
  insert_runs =
      ap (λ o. o >>= λ node. rest node.last) here
      ∙ ap rest ends
      ∙ ap
          (λ o. o >>= λ node.
            get_elem? (set h l (record node { next = some (length h) })) list >>= λ node1. some (
              set (set h l (record node { next = some (length h) })) list
                    (record node1 { last = some (length h) })
                  ++ new_node ∷ [],
              list,
            ))
          there
      ∙ ap
          (λ o. o >>= λ node1.
            some (
              set linked_heap list (record node1 { last = some (length h) }) ++ new_node ∷ [],
              list,
            ))
          here1
    where
      rest : Option ℕ → Option (Heap × ℕ)
      rest last = load h last >>= λ node.
          get_elem? (store h last (record node { next = some (length h) })) list >>= λ node1. some (
            set (store h last (record node { next = some (length h) })) list
                  (record node1 { last = some (length h) })
                ++ record (fresh device) { previous = last } ∷ [],
            list,
          )

  -- What is read in the heap with the last node linked is read in the one left.
  carry :
      (b : ℕ) (node : Node)
      → get_elem? linked_heap b ≡ some node
      → Carried left_heap b node node.next
  unfolding Carried
  carry b node at_b =
      let (node1, at_b1, e, p, n) =
        read-written linked_heap list first1 noted b node here1 refl refl refl at_b in
      (
        node1,
        get_elem?-append_left (set linked_heap list noted) b node1 (new_node ∷ []) at_b1,
        e,
        p,
        n,
      )

  carry_other :
      (b : ℕ) (node : Node) → b ≢ l → get_elem? h b ≡ some node → Carried left_heap b node node.next
  carry_other b node ne at_b = carry b node (
      get_elem?-set_ne h {i = l} {j = b} (record end { next = some (length h) }) (λ e. ne (sym e))
      ∙ at_b)

  carry_last :
      (node : Node) → get_elem? h l ≡ some node → Carried left_heap l node (some (length h))
  unfolding Carried
  carry_last node at_l =
      let equal : end ≡ node = some-injective end node (sym there ∙ at_l) in
      let (node1, at_l1, e, p, n) =
        carry l (record end { next = some (length h) })
          (get_elem?-set_self h l (record end { next = some (length h) })
            (in_bounds h l end there)) in
      (
        node1,
        at_l1,
        e ∙ ap (λ (x : Node). x.entity) equal,
        p ∙ ap (λ (x : Node). x.previous) equal,
        n,
      )

  same_size : length (set linked_heap list noted) ≡ length h
  same_size =
      length-set linked_heap list noted ∙ length-set h l (record end { next = some (length h) })

  read_new : get_elem? left_heap (length h) ≡ some new_node
  read_new =
      ap (get_elem? left_heap) (sym same_size)
      ∙ get_elem?-append_last (set linked_heap list noted) new_node

  read_first : get_elem? left_heap list ≡ some noted
  read_first =
      get_elem?-append_left (set linked_heap list noted) list noted (new_node ∷ [])
        (get_elem?-set_self linked_heap list noted (in_bounds linked_heap list first1 here1))

-- The first node after the last one is linked to the new one.
first_linked :
    (h : Heap) (list l : ℕ) (first end : Node) (next : Option ℕ)
    → get_elem? h list ≡ some first
    → get_elem? h l ≡ some end
    → first.iterator ≡ none
    → (first1 : Node) × (get_elem? (set h l (record end { next = next })) list ≡ some first1)
      × (first1.iterator ≡ none)
first_linked h list l first end next here there rewound = elim (Bool-cases (l == list)) [
  | inl same ↦ at_last ((==_iff l list).0 same)
  | inr other ↦ (
    first,
    get_elem?-set_ne h {i = l} {j = list} (record end { next = next }) (apart other) ∙ here,
    rewound,
  )
]
  where
    apart : (l == list) ≡ false → l ≢ list
    apart other e = absurd (ground (arith, other, e))

    at_last :
        l ≡ list
        → (first1 : Node) × (get_elem? (set h l (record end { next = next })) list ≡ some first1)
          × (first1.iterator ≡ none)
    at_last same = (
      record end { next = next },
      ap (get_elem? (set h l (record end { next = next }))) (sym same)
          ∙ get_elem?-set_self h l (record end { next = next }) (in_bounds h l end there),
      ap (λ (n : Node). n.iterator)
            (some-injective end first (sym there ∙ ap (get_elem? h) same ∙ here))
          ∙ rewound,
    )

-- A list that may be empty.
abbrev pub IsQueue : Heap → Option ℕ → List ℕ → Type 0
IsQueue h none es = es ≡ []
IsQueue h (some list) es = IsList h list es

abbrev Inserted : Heap → Option ℕ → List ℕ → ℕ → Type 0
Inserted h list es device =
    (h1 : Heap) × (list1 : ℕ) × (fastvideolist_insert h list device ≡ some (h1, list1))
    × IsList h1 list1 (es ++ device ∷ [])

insert_first : (h : Heap) (device : ℕ) → Inserted h none [] device
unfolding fastvideolist_insert
insert_first h device =
    let node : Node = record (fresh device) { last = some (length h) } in
    (
      h ++ node ∷ [],
      length h,
      refl,
      record {
        places = [];
        chain =
            link none node (get_elem?-append_last h node) refl refl refl
              (chain_end (some (length h)));
        first = node;
        here = get_elem?-append_last h node;
        ends = refl;
        rewound = refl;
        distinct = (tt, tt);
      },
    )

insert_next :
    (h : Heap) (list : ℕ) (es : List ℕ) (device : ℕ)
    → IsList h list es
    → Inserted h (some list) es device
insert_next h list es device v =
    let l : ℕ = last_of list v.places in
    let (end, there) = last_node list v.places v.chain in
    let (first1, here1, rewound) =
      first_linked h list l v.first end (some (length h)) v.here there v.rewound in
    (
      left_heap h list l device v.first end first1 v.here v.ends there here1,
      list,
      insert_runs h list l device v.first end first1 v.here v.ends there here1,
      record {
        places = v.places ++ length h ∷ [];
        chain =
            extend list l (length h) device v.places
              (new_node h list l device v.first end first1 v.here v.ends there here1) v.chain
              v.distinct refl
              (carry_other h list l device v.first end first1 v.here v.ends there here1)
              (carry_last h list l device v.first end first1 v.here v.ends there here1)
              (read_new h list l device v.first end first1 v.here v.ends there here1) refl refl
              refl;
        first = noted h list l device v.first end first1 v.here v.ends there here1;
        here = read_first h list l device v.first end first1 v.here v.ends there here1;
        ends = ap some (sym (last_of-append list (length h) v.places));
        rewound = rewound;
        distinct = Distinct-append v.chain v.distinct;
      },
    )

-- The call puts the entity at the end of a list, which it makes where there is none.
pub fastvideolist_insert-IsList :
    (h : Heap) (list : Option ℕ) (es : List ℕ) (device : ℕ)
    → IsQueue h list es
    → (h1 : Heap) × (list1 : ℕ) × (fastvideolist_insert h list device ≡ some (h1, list1))
      × IsList h1 list1 (es ++ device ∷ [])
fastvideolist_insert-IsList h none es device v =
    subst (λ xs. Inserted h none xs device) (sym v) (insert_first h device)
fastvideolist_insert-IsList h (some list) es device v = insert_next h list es device v
