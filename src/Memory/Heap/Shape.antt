-- ===== src/Memory/Heap/Shape.antt =====
-- The shape of the node list of src/kernel/src/memory/kernel-heap.cc: its nodes are in order, with room
-- for their headers, inside the heap, and no two free ones are neighbours.
use rikai_os.Base.{
  ℕ, sym, ap, inl, inr, Bool, true, false, some, List, [], if◌then◌else◌, ◌+◌, ◌≤◌, ◌≡◌, ◌∙◌, ◌||◌,
  ◌∷◌, ◌==◌, if-true, if-false, Bool-cases,
}
use mathlib.Core.Path.{subst}
use mathlib.Core.Option.{some-injective, none-ne-some}
use rikai_os.Memory.Heap.{Node, node_header, unwind, locate, At, Counters}

module _ (heap_start heap_end : ℕ) where
  -- The nodes before the address `a`, nearest first.
  abbrev pub Before : List Node → ℕ → Type 0
  Before [] a = heap_start ≤ a
  Before (p ∷ before) a = (p.valid ≡ true) × (p.addr + node_header ≤ a) × Before before p.addr

  -- A node and those behind it.
  abbrev pub From : Node → List Node → Type 0
  From n [] = (n.valid ≡ true) × (n.addr + node_header ≤ heap_end + 1)
  From n (m ∷ after) = (n.valid ≡ true) × (n.addr + node_header ≤ m.addr) × From m after

  -- A list of at least one node.
  abbrev pub Ordered : List Node → Type 0
  Ordered [] = ⊥
  Ordered (n ∷ ns) = (heap_start ≤ n.addr) × From n ns

  pub unwind-Ordered :
      (before : List Node) (n : Node) (after : List Node)
      → Before before n.addr
      → From n after
      → Ordered (unwind before (n ∷ after))
  unfolding unwind
  unwind-Ordered [] n after b f = (b, f)
  unwind-Ordered (p ∷ before) n after b f = unwind-Ordered before p (n ∷ after) b.2 (b.0, b.1, f)

-- What a step to the next node keeps holds at the node that is found.
pub locate-kept :
    (P : List Node → Node → List Node → Type 0)
    → ((b : List Node) (n m : Node) (ns : List Node) → P b n (m ∷ ns) → P (n ∷ b) m ns)
    → (a : ℕ) (before : List Node) (n : Node) (ns : List Node) (c : Counters) (z : At)
    → P before n ns
    → locate a before (n ∷ ns) c ≡ some z
    → P z.before z.node z.after
unfolding locate
locate-kept P step a before n [] c z h e = elim (Bool-cases (n.addr == a)) [
  | inl f ↦
      subst (λ (t : At). P t.before t.node t.after) (some-injective _ _ (sym (if-true _ _ f) ∙ e)) h
  | inr f ↦ absurd (none-ne-some z (sym (if-false _ _ f) ∙ e))
]
locate-kept P step a before n (m ∷ ns) c z h e = elim (Bool-cases (n.addr == a)) [
  | inl f ↦
      subst (λ (t : At). P t.before t.node t.after) (some-injective _ _ (sym (if-true _ _ f) ∙ e)) h
  | inr f ↦
      locate-kept P step a (n ∷ before) m ns c z (step before n m ns h) (sym (if-false _ _ f) ∙ e)
]

-- Neighbours of a node: one of two neighbours is used.
abbrev pub ApartBefore : List Node → Bool → Type 0
ApartBefore [] u = Unit {0}
ApartBefore (p ∷ before) u = ((p.used || u) ≡ true) × ApartBefore before p.used

abbrev pub ApartFrom : Bool → List Node → Type 0
ApartFrom u [] = Unit {0}
ApartFrom u (m ∷ after) = ((u || m.used) ≡ true) × ApartFrom m.used after

abbrev pub Apart : List Node → Type 0
Apart [] = Unit {0}
Apart (n ∷ ns) = ApartFrom n.used ns

pub unwind-Apart :
    (before : List Node) (n : Node) (after : List Node)
    → ApartBefore before n.used
    → ApartFrom n.used after
    → Apart (unwind before (n ∷ after))
unfolding unwind
unwind-Apart [] n after b f = f
unwind-Apart (p ∷ before) n after b f = unwind-Apart before p (n ∷ after) b.1 (b.0, f)

-- The nodes in use, in order.
unfoldable pub used_nodes : List Node → List Node
used_nodes [] = []
used_nodes (n ∷ ns) = let rest = used_nodes ns in if n.used then n ∷ rest else rest

pub used_nodes-unwind :
    (before r r' : List Node)
    → used_nodes r ≡ used_nodes r'
    → used_nodes (unwind before r) ≡ used_nodes (unwind before r')
unfolding unwind used_nodes
used_nodes-unwind [] r r' e = e
used_nodes-unwind (p ∷ before) r r' e =
    used_nodes-unwind before (p ∷ r) (p ∷ r') (ap (λ t. if p.used then p ∷ t else t) e)

-- A free node does not count.
pub used_nodes-free :
    (n : Node) (ns : List Node) → n.used ≡ false → used_nodes (n ∷ ns) ≡ used_nodes ns
unfolding used_nodes
used_nodes-free n ns e = if-false _ _ e

pub used_nodes-cons :
    (p : Node) (r r' : List Node)
    → used_nodes r ≡ used_nodes r'
    → used_nodes (p ∷ r) ≡ used_nodes (p ∷ r')
unfolding used_nodes
used_nodes-cons p r r' e = ap (λ t. if p.used then p ∷ t else t) e
