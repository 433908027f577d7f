-- ===== src/Chain/Linked.antt =====
-- Lists of src/sfastvideo.c as a chain of nodes in both directions.
use mathlib.Core.Option.{some-injective}
use fastvideo.Prelude.{
  ℕ, ◌≡◌, zero, ◌≢◌, suc, refl, ap, ◌∙◌, sym, false, Option, none, some, List, [], ◌∷◌, ◌<◌, length,
  arith, get_elem?, set, get_elem?-set_self, get_elem?-set_ne, ◌==◌, ==_iff, Bool-cases, inl, inr,
}
use fastvideo.Chain.{Node, Heap, set_iterator, ◌>>=◌}

abbrev pub head_of : List ℕ → Option ℕ
head_of [] = none
head_of (a ∷ places) = some a

-- The nodes at these places, the first behind `previous`, each linked to its neighbours, with their entities.
pub data Chain (h : Heap) : Option ℕ → List ℕ → List ℕ → Type 0 where
  chain_end : (previous : Option ℕ) → Chain h previous [] []
  link :
      {a : ℕ} {places : List ℕ} {e : ℕ} {es : List ℕ} (previous : Option ℕ) (node : Node)
      → get_elem? h a ≡ some node
      → node.entity ≡ e
      → node.previous ≡ previous
      → node.next ≡ head_of places
      → Chain h (some a) places es
      → Chain h previous (a ∷ places) (e ∷ es)

pub in_bounds : (h : Heap) (a : ℕ) (node : Node) → get_elem? h a ≡ some node → a < length h
in_bounds [] a node e = absurd (ground (arith, e))
in_bounds (x ∷ h) zero node e = omega arith
in_bounds (x ∷ h) (suc a) node e = omega (arith, in_bounds h a node e)

-- The iterator is the only part of a node that a walk changes.
abbrev pub moved : Node → Option ℕ → Node
moved node entry = record node { iterator = entry }

-- A node that is read after the one at `list` has been written, but for what links it.
pub read-written :
    (h : Heap) (list : ℕ) (first written : Node) (b : ℕ) (node : Node)
    → get_elem? h list ≡ some first
    → written.entity ≡ first.entity
    → written.previous ≡ first.previous
    → written.next ≡ first.next
    → get_elem? h b ≡ some node
    → (node1 : Node) × (get_elem? (set h list written) b ≡ some node1)
      × (node1.entity ≡ node.entity)
      × (node1.previous ≡ node.previous)
      × (node1.next ≡ node.next)
read-written h list first written b node here same_entity same_previous same_next there =
    elim (Bool-cases (list == b)) [
      | inl same ↦ at_list ((==_iff list b).0 same)
      | inr other ↦ (
        node,
        get_elem?-set_ne h {i = list} {j = b} written (apart other) ∙ there,
        refl,
        refl,
        refl,
      )
    ]
  where
    apart : (list == b) ≡ false → list ≢ b
    apart other e = absurd (ground (arith, other, e))

    at_list :
        list ≡ b
        → (node1 : Node) × (get_elem? (set h list written) b ≡ some node1)
          × (node1.entity ≡ node.entity)
          × (node1.previous ≡ node.previous)
          × (node1.next ≡ node.next)
    at_list same =
        let equal : first ≡ node =
          some-injective first node (sym here ∙ ap (get_elem? h) same ∙ there) in
        (
          written,
          ap (get_elem? (set h list written)) (sym same)
              ∙ get_elem?-set_self h list written (in_bounds h list first here),
          same_entity ∙ ap (λ (n : Node). n.entity) equal,
          same_previous ∙ ap (λ (n : Node). n.previous) equal,
          same_next ∙ ap (λ (n : Node). n.next) equal,
        )

pub read-moved :
    (h : Heap) (list : ℕ) (first : Node) (entry : Option ℕ) (b : ℕ) (node : Node)
    → get_elem? h list ≡ some first
    → get_elem? h b ≡ some node
    → (node1 : Node) × (get_elem? (set h list (moved first entry)) b ≡ some node1)
      × (node1.entity ≡ node.entity)
      × (node1.previous ≡ node.previous)
      × (node1.next ≡ node.next)
read-moved h list first entry b node here there =
    read-written h list first (moved first entry) b node here refl refl refl there

pub Chain-moved :
    {h : Heap} {previous : Option ℕ} {places es : List ℕ} (list : ℕ) (first : Node)
    (entry : Option ℕ)
    → get_elem? h list ≡ some first
    → Chain h previous places es
    → Chain (set h list (moved first entry)) previous places es
Chain-moved list first entry here (chain_end previous) = chain_end previous
Chain-moved {h} list first entry here (link {a} previous node there entity back ahead rest) =
    let (node1, there1, same_entity, same_previous, same_next) =
      read-moved h list first entry a node here there in
    link previous node1 there1 (same_entity ∙ entity) (same_previous ∙ back) (same_next ∙ ahead)
      (Chain-moved list first entry here rest)

pub set_iterator-moved :
    (h : Heap) (list : ℕ) (first : Node) (entry : Option ℕ)
    → get_elem? h list ≡ some first
    → set_iterator h list entry ≡ some (set h list (moved first entry))
unfolding set_iterator
set_iterator-moved h list first entry here =
    ap (λ o. o >>= λ node. some (set h list (record node { iterator = entry }))) here
