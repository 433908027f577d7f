-- ===== src/Chain/Remove.antt =====
-- `fastvideolist_push`, `fastvideolist_pop` and `fastvideolist_poplast` of src/sfastvideo.c.
use fastvideo.Prelude.{
  ℕ, Bool, true, ◌==◌, false, Option, none, some, zero, suc, get_elem?, set, if◌then◌else◌,
}
use fastvideo.Chain.{Heap, load, set_iterator, ◌>>=◌}

-- The search for an entry of the same entity, of at most `fuel` entries.
unfoldable pub has_entity : ℕ → Heap → Option ℕ → ℕ → Option Bool
has_entity fuel h none entity = some false
has_entity zero h (some entry) entity = none
has_entity (suc fuel) h (some entry) entity = do
  node ← get_elem? h entry
  let rest = has_entity fuel h node.next entity
  if node.entity == entity then some true else rest

-- The new entry linked before `list`.
unfoldable pub push_front : Heap → Option ℕ → ℕ → Option (Heap × Option ℕ)
push_front h none newentry = do
  entry ← get_elem? h newentry
  some (set h newentry (record entry { next = none }), some newentry)
push_front h (some list) newentry = do
  node ← get_elem? h list
  entry ← get_elem? h newentry
  let h1 : Heap = set h newentry (record entry { last = node.last; next = some list })
  node1 ← get_elem? h1 list
  some (set h1 list (record node1 { previous = some newentry }), some newentry)

unfoldable pub fastvideolist_push : ℕ → Heap → Option ℕ → ℕ → Option (Heap × Option ℕ)
unfolding has_entity push_front
fastvideolist_push fuel h list newentry = do
  entry ← get_elem? h newentry
  found ← has_entity fuel h list entry.entity
  let pushed = push_front h list newentry
  if found then some (h, list) else pushed

-- A field written where the pointer is not null.
abbrev pub link_next : Heap → Option ℕ → Option ℕ → Option Heap
link_next h none to = some h
link_next h (some a) to = do node ← get_elem? h a; some (set h a (record node { next = to }))

abbrev pub link_previous : Heap → Option ℕ → Option ℕ → Option Heap
link_previous h none to = some h
link_previous h (some a) to = do
  node ← get_elem? h a
  some (set h a (record node { previous = to }))

abbrev pub or_list : ℕ → Option ℕ → ℕ
or_list list none = list
or_list list (some current) = current

abbrev pub is_same : ℕ → Option ℕ → Bool
is_same a none = false
is_same a (some b) = a == b

-- `list->last = current->previous` where `current` is the last.
abbrev pub shorten : Heap → ℕ → ℕ → Option Heap
shorten h list current = do
  first ← get_elem? h list
  removed ← get_elem? h current
  some (
      if is_same current first.last
      then set h list (record first { last = removed.previous })
      else h)

-- The entry at the iterator is unlinked; the entry is read through the iterator even where this is null. The
-- caller's `entry` is a pointer that is not null.
unfoldable pub pop_entry : Heap → ℕ → Option (Heap × Option ℕ × ℕ)
pop_entry h list = do
  first ← get_elem? h list
  let current : ℕ = or_list list first.iterator
  removed ← get_elem? h current
  at_ ← load h first.iterator
  h1 ← link_next h at_.previous removed.next
  at1 ← load h1 first.iterator
  removed1 ← get_elem? h1 current
  h2 ← link_previous h1 at1.next removed1.previous
  at2 ← load h2 first.iterator
  first2 ← get_elem? h2 list
  let h3 : Heap = set h2 list (record first2 { iterator = at2.next })
  h4 ← shorten h3 list current
  entry ← get_elem? h4 current
  some (
    set h4 current (record entry { next = none; previous = none; last = none; iterator = none }),
    if current == list then none else some list,
    current,
  )

unfoldable pub fastvideolist_pop : Heap → Option ℕ → Option (Heap × Option ℕ × Option ℕ)
unfolding pop_entry
fastvideolist_pop h none = some (h, none, none)
fastvideolist_pop h (some list) = do
  (h1, list1, entry) ← pop_entry h list
  some (h1, list1, some entry)

unfoldable pub fastvideolist_poplast : Heap → Option ℕ → Option (Heap × Option ℕ × Option ℕ)
unfolding set_iterator fastvideolist_pop
fastvideolist_poplast h none = some (h, none, none)
fastvideolist_poplast h (some list) = do
  node ← get_elem? h list
  h1 ← set_iterator h list node.last
  fastvideolist_pop h1 (some list)
