-- ===== src/Chain.antt =====
-- The lists of devices, pipes and clients, `fastvideolist_*` in src/sfastvideo.c, in a heap of nodes. The
-- calls give `none` where the source reads through a null pointer.
pub mod Remove
pub mod Linked
pub mod Loops
pub mod Extend
pub mod Insert
pub mod Built
use fastvideo.Prelude.{
  ℕ, Bool, true, ◌==◌, false, ◌++◌, List, [], ◌∷◌, Option, none, some, zero, suc, length, get_elem?,
  set, if◌then◌else◌,
}

-- `FastVideoList_s`; a pointer is the number of a node.
pub record Node : Type 0 where
  pub entity : ℕ
  pub next : Option ℕ
  pub previous : Option ℕ
  pub last : Option ℕ
  pub iterator : Option ℕ

-- What follows a pointer that is not null.
infixl 20 ◌>>=◌
abbrev pub ◌>>=◌ : {A B : Type 0} → Option A → (A → Option B) → Option B
none >>= f = none
some a >>= f = f a

abbrev pub Heap : Type 0
Heap = List Node

-- What a pointer points to.
abbrev pub load : Heap → Option ℕ → Option Node
load h none = none
load h (some a) = get_elem? h a

abbrev pub store : Heap → Option ℕ → Node → Heap
store h none node = h
store h (some a) node = set h a node

-- `calloc` and the entity.
abbrev pub fresh : ℕ → Node
fresh device = record {
  entity = device;
  next = none;
  previous = none;
  last = none;
  iterator = none;
}

-- The calls on a list that is not null give the new heap, the first node `list` and the result.
unfoldable pub set_iterator : Heap → ℕ → Option ℕ → Option Heap
set_iterator h list entry = do
  node ← get_elem? h list
  some (set h list (record node { iterator = entry }))

unfoldable pub fastvideolist_append : Heap → Option ℕ → ℕ → Option (Heap × ℕ)
fastvideolist_append h none device =
    some (h ++ record (fresh device) { last = some (length h) } ∷ [], length h)
fastvideolist_append h (some list) device = do
  node ← get_elem? h list
  some (
    set h list (record node { previous = some (length h) })
        ++ record (fresh device) { next = some list; last = node.last } ∷ [],
    length h,
  )

unfoldable pub fastvideolist_insert : Heap → Option ℕ → ℕ → Option (Heap × ℕ)
fastvideolist_insert h none device =
    some (h ++ record (fresh device) { last = some (length h) } ∷ [], length h)
fastvideolist_insert h (some list) device = do
  node ← get_elem? h list
  end ← load h node.last
  let h1 : Heap = store h node.last (record end { next = some (length h) })
  node1 ← get_elem? h1 list
  some (
    set h1 list (record node1 { last = some (length h) })
        ++ record (fresh device) { previous = node.last } ∷ [],
    list,
  )

-- The pointer that a call leaves as the list's, and what it returns.
unfoldable pub fastvideolist_reset : Heap → Option ℕ → Option Heap
unfolding set_iterator
fastvideolist_reset h none = some h
fastvideolist_reset h (some list) = set_iterator h list none

unfoldable pub fastvideolist_first : Heap → Option ℕ → Option (Heap × Option ℕ)
unfolding set_iterator
fastvideolist_first h none = some (h, none)
fastvideolist_first h (some list) = do h1 ← set_iterator h list (some list); some (h1, some list)

unfoldable pub fastvideolist_last : Heap → Option ℕ → Option (Heap × Option ℕ)
unfolding set_iterator
fastvideolist_last h none = some (h, none)
fastvideolist_last h (some list) = do
  node ← get_elem? h list
  h1 ← set_iterator h list node.last
  some (h1, node.last)

unfoldable pub fastvideolist_current : Heap → Option ℕ → Option (Option ℕ)
fastvideolist_current h none = some none
fastvideolist_current h (some list) = do node ← get_elem? h list; some node.iterator

-- The node after the iterator, or the first.
abbrev pub up_from : Heap → ℕ → Option ℕ → Option (Option ℕ)
up_from h list none = some (some list)
up_from h list (some at_) = do node ← get_elem? h at_; some node.next

-- The node before the iterator, or the last.
abbrev pub down_from : Heap → Option ℕ → Option ℕ → Option (Option ℕ)
down_from h last none = some last
down_from h last (some at_) = do node ← get_elem? h at_; some node.previous

unfoldable pub fastvideolist_up : Heap → Option ℕ → Option (Heap × Option ℕ)
unfolding set_iterator
fastvideolist_up h none = some (h, none)
fastvideolist_up h (some list) = do
  node ← get_elem? h list
  entry ← up_from h list node.iterator
  h1 ← set_iterator h list entry
  some (h1, entry)

unfoldable pub fastvideolist_down : Heap → Option ℕ → Option (Heap × Option ℕ)
unfolding set_iterator
fastvideolist_down h none = some (h, none)
fastvideolist_down h (some list) = do
  node ← get_elem? h list
  entry ← down_from h node.last node.iterator
  h1 ← set_iterator h list entry
  some (h1, entry)

-- The entity of a node; null for none.
abbrev pub entity_of : Heap → Option ℕ → Option (Option ℕ)
entity_of h none = some none
entity_of h (some entry) = do node ← get_elem? h entry; some (some node.entity)

unfoldable pub fastvideolist_next : Heap → Option ℕ → Option (Heap × Option ℕ)
unfolding set_iterator
fastvideolist_next h none = some (h, none)
fastvideolist_next h (some list) = do
  node ← get_elem? h list
  entry ← up_from h list node.iterator
  entity ← entity_of h entry
  h1 ← set_iterator h list entry
  some (h1, entity)

unfoldable pub fastvideolist_previous : Heap → Option ℕ → Option (Heap × Option ℕ)
unfolding set_iterator
fastvideolist_previous h none = some (h, none)
fastvideolist_previous h (some list) = do
  node ← get_elem? h list
  entry ← down_from h node.last node.iterator
  entity ← entity_of h entry
  h1 ← set_iterator h list entry
  some (h1, entity)

unfoldable pub fastvideolist_get : Heap → Option ℕ → Option (Option ℕ)
fastvideolist_get h list = entity_of h list

unfoldable pub fastvideolist_islast : Heap → Option ℕ → ℕ → Option Bool
fastvideolist_islast h none entity = some false
fastvideolist_islast h (some list) entity = do
  node ← get_elem? h list
  end ← load h node.last
  some (end.entity == entity)

unfoldable pub fastvideolist_isfirst : Heap → Option ℕ → ℕ → Option Bool
fastvideolist_isfirst h none entity = some false
fastvideolist_isfirst h (some list) entity = do
  node ← get_elem? h list
  some (node.entity == entity)

-- The loop `for (e = next(list); e != NULL; e = next(list))` of at most `fuel` rounds: the entities it goes through.
abbrev pub visit : (Heap → Option (Heap × List ℕ)) → Heap × Option ℕ → Option (Heap × List ℕ)
visit rest (h, none) = some (h, [])
visit rest (h, some entity) = do (h1, entities) ← rest h; some (h1, entity ∷ entities)

unfoldable pub for_next : ℕ → Heap → Option ℕ → Option (Heap × List ℕ)
unfolding fastvideolist_next
for_next zero h list = none
for_next (suc fuel) h list = do
  answer ← fastvideolist_next h list
  visit (λ h1. for_next fuel h1 list) answer
