-- ===== src/Chain/Extend.antt =====
-- One node more at the end of a list of src/sfastvideo.c.

use fastvideo.Prelude.{
  ℕ, ◌≡◌, zero, ◌≢◌, suc, refl, ap, ◌∙◌, sym, Option, none, some, List, [], ◌∷◌, length, arith,
  get_elem?, ◌++◌,
}
use fastvideo.Chain.{Node, Heap}
use fastvideo.Chain.Linked.{Chain, chain_end, link, in_bounds}

abbrev pub last_of : ℕ → List ℕ → ℕ
last_of a [] = a
last_of a (b ∷ places) = last_of b places

-- No place twice.
abbrev pub Fresh : ℕ → List ℕ → Type 0
Fresh a [] = Unit
Fresh a (b ∷ places) = (a ≢ b) × Fresh a places

abbrev pub Distinct : List ℕ → Type 0
Distinct [] = Unit
Distinct (a ∷ places) = Fresh a places × Distinct places

-- A list with these entities, ready for a loop.
pub record IsList (h : Heap) (list : ℕ) (es : List ℕ) : Type 0 where
  pub places : List ℕ
  pub chain : Chain h none (list ∷ places) es
  pub first : Node
  pub here : get_elem? h list ≡ some first
  pub ends : first.last ≡ some (last_of list places)
  pub rewound : first.iterator ≡ none
  pub distinct : Distinct (list ∷ places)

pub get_elem?-append_left :
    (h : Heap) (a : ℕ) (node : Node) (more : Heap)
    → get_elem? h a ≡ some node
    → get_elem? (h ++ more) a ≡ some node
get_elem?-append_left [] a node more e = absurd (ground (arith, e))
get_elem?-append_left (x ∷ h) zero node more e = e
get_elem?-append_left (x ∷ h) (suc a) node more e = get_elem?-append_left h a node more e

pub get_elem?-append_last :
    (h : Heap) (node : Node) → get_elem? (h ++ node ∷ []) (length h) ≡ some node
get_elem?-append_last [] node = refl
get_elem?-append_last (x ∷ h) node = get_elem?-append_last h node

Fresh-last : (a b : ℕ) (places : List ℕ) → Fresh a (b ∷ places) → a ≢ last_of b places
Fresh-last a b [] (ne, rest) = ne
Fresh-last a b (c ∷ places) (ne, rest) = Fresh-last a c places rest

Fresh-append : (a n : ℕ) (places : List ℕ) → Fresh a places → a ≢ n → Fresh a (places ++ n ∷ [])
Fresh-append a n [] f ne = (ne, tt)
Fresh-append a n (b ∷ places) (other, rest) ne = (other, Fresh-append a n places rest ne)

pub Distinct-append :
    {h : Heap} {previous : Option ℕ} {places es : List ℕ}
    → Chain h previous places es
    → Distinct places
    → Distinct (places ++ length h ∷ [])
Distinct-append (chain_end _) d = (tt, tt)
Distinct-append {h} (link {a} {places} _ node there entity back ahead rest) (f, d) = (
  Fresh-append a (length h) places f (λ e. absurd (omega (arith, e, in_bounds h a node there))),
  Distinct-append rest d,
)

pub last_of-append : (a n : ℕ) (places : List ℕ) → last_of a (places ++ n ∷ []) ≡ n
last_of-append a n [] = refl
last_of-append a n (b ∷ places) = last_of-append b n places

-- The node at the last place.
pub last_node :
    {h : Heap} {previous : Option ℕ} (a : ℕ) (places : List ℕ) {es : List ℕ}
    → Chain h previous (a ∷ places) es
    → (node : Node) × (get_elem? h (last_of a places) ≡ some node)
last_node a [] (link _ node there entity back ahead rest) = (node, there)
last_node a (b ∷ places) (link _ node there entity back ahead rest) = last_node b places rest

-- A node in the new heap is the old one up to the fields that a walk does not read, and but for its next.
unfoldable pub Carried : Heap → ℕ → Node → Option ℕ → Type 0
Carried h1 a node next =
    (node1 : Node) × (get_elem? h1 a ≡ some node1)
    × (node1.entity ≡ node.entity)
    × (node1.previous ≡ node.previous)
    × (node1.next ≡ next)

pub extend :
    {h h1 : Heap} {previous : Option ℕ} (a l n device : ℕ) (places : List ℕ) {es : List ℕ}
    (new : Node)
    → Chain h previous (a ∷ places) es
    → Distinct (a ∷ places)
    → l ≡ last_of a places
    → ((b : ℕ) (node : Node) → b ≢ l → get_elem? h b ≡ some node → Carried h1 b node node.next)
    → ((node : Node) → get_elem? h l ≡ some node → Carried h1 l node (some n))
    → get_elem? h1 n ≡ some new
    → new.entity ≡ device
    → new.previous ≡ some l
    → new.next ≡ none
    → Chain h1 previous (a ∷ (places ++ n ∷ [])) (es ++ device ∷ [])
unfolding Carried
extend {h} {h1} a l n device [] new (link previous node there entity back ahead (chain_end _))
      distinct at_end others last there1 ent pre nxt =
    let (node1, there2, same_entity, same_previous, next) =
      last node (ap (get_elem? h) at_end ∙ there) in
    link previous node1 (ap (get_elem? h1) (sym at_end) ∙ there2) (same_entity ∙ entity)
      (same_previous ∙ back) next
      (link (some a) new there1 ent (pre ∙ ap some at_end) nxt (chain_end (some n)))
extend a l n device (b ∷ places) new (link previous node there entity back ahead rest) (f, distinct)
      at_end others last there1 ent pre nxt =
    let (node1, there2, same_entity, same_previous, next) =
      others a node (λ e. Fresh-last a b places f (e ∙ at_end)) there in
    link previous node1 there2 (same_entity ∙ entity) (same_previous ∙ back) (next ∙ ahead)
      (extend b l n device places new rest distinct at_end others last there1 ent pre nxt)
