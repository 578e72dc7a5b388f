-- ===== src/Memory/Heap/FreeLast.antt =====
-- Freeing the last node of the kernel heap.
use mathlib.Core.Path.{subst}
use rikai_os.Base.{
  ℕ, refl, sym, ap, inl, inr, Bool, true, false, not, some, List, [], arith, if◌then◌else◌, ◌<◌,
  ◌≡◌, ◌∙◌, ◌≢◌, ◌∷◌, ◌==◌, if-true, if-false, and-false_right, ==_ne, Bool-cases, u32_mod, sub32,
}
use rikai_os.Memory.Heap.{
  Node, Counters, Heap, At, Outcome, done, panic, ◌>>=◌, node_size, is_last, count_nodes,
  first_addr, actual, same_counters, verify_stats, unwind, leave, maybe_merge_with_adjacents,
  node_header, locate, merge_both, release, free_node, free_found, free,
}

pub locate-leave :
    (a : ℕ) (before ns : List Node) (c : Counters) {z : At}
    → locate a before ns c ≡ some z
    → leave z ≡ record { nodes = unwind before ns; counters = c }
unfolding locate leave unwind
locate-leave a before [] c e = cc
locate-leave a before (n ∷ ns) c e = elim (Bool-cases (n.addr == a)) [
  | inl here ↦ ap leave (some-injective' (sym e ∙ if-true _ _ here))
  | inr there ↦ locate-leave a (n ∷ before) ns c (sym (if-false _ _ there) ∙ e)
]
  where
    some-injective' : {x y : At} → some x ≡ some y → x ≡ y
    some-injective' p = cc

if-same {ℓ} : {A : Type ℓ} (b : Bool) (y x : A) → y ≡ x → (if b then x else y) ≡ x
if-same true y x e = refl
if-same false y x e = e

module _ (heap_start heap_end : ℕ) where
  -- Two ends of the node list that lead to the same count of holes.
  record SameHoles (r r' : List Node) : Type 0 where
    size : (a : ℕ) → node_size heap_start heap_end a r ≡ node_size heap_start heap_end a r'
    last : is_last r ≡ is_last r'
    first : first_addr r ≡ first_addr r'
    holes :
        (c c' : Counters)
        → c.total_hole_size ≡ c'.total_hole_size
        → (count_nodes heap_start heap_end r c).total_hole_size
          ≡ (count_nodes heap_start heap_end r' c').total_hole_size

  SameHoles-cons : (p : Node) {r r' : List Node} → SameHoles r r' → SameHoles (p ∷ r) (p ∷ r')
  unfolding node_size first_addr is_last count_nodes
  SameHoles-cons p s = record {
    size = λ a. refl;
    last = refl;
    first = refl;
    holes = λ c c' e. s.holes _ _ (ground (arith, e, s.size p.addr, s.last));
  }

  SameHoles-unwind :
      (before : List Node) {r r' : List Node}
      → SameHoles r r'
      → SameHoles (unwind before r) (unwind before r')
  unfolding unwind
  SameHoles-unwind [] s = s
  SameHoles-unwind (p ∷ before) s = SameHoles-unwind before (SameHoles-cons p s)

  SameHoles-last : (n : Node) → SameHoles (n ∷ []) (record n { used = false } ∷ [])
  unfolding count_nodes is_last first_addr
  SameHoles-last n = record {
    size = λ a. refl;
    last = refl;
    first = refl;
    holes = λ c c' e. if-false _ _ (and-false_right (not n.used) refl) ∙ e;
  }

  verify_stats-holes :
      (h : Heap)
      → verify_stats heap_start heap_end h ≡ done tt
      → (actual heap_start heap_end h.nodes).total_hole_size ≡ h.counters.total_hole_size
  unfolding verify_stats same_counters
  verify_stats-holes h e = ground arith

  verify_stats-panic :
      (h : Heap)
      → (actual heap_start heap_end h.nodes).total_hole_size ≢ h.counters.total_hole_size
      → verify_stats heap_start heap_end h ≡ panic
  unfolding verify_stats same_counters
  verify_stats-panic h ne =
      if-false _ _
        (and-false_right _ (==_ne (actual heap_start heap_end h.nodes).total_hole_size _ ne))

  actual-cleared :
      (before : List Node) (n : Node)
      → (actual heap_start heap_end
          (unwind before (record n { used = false } ∷ []))).total_hole_size
        ≡ (actual heap_start heap_end (unwind before (n ∷ []))).total_hole_size
  unfolding actual
  actual-cleared before n = sym ((SameHoles-unwind before (SameHoles-last n)).holes _ _ refl)

  merge-panic :
      (z : At)
      → z.node.used ≡ false
      → verify_stats heap_start heap_end (leave z) ≡ panic
      → maybe_merge_with_adjacents heap_start heap_end z ≡ panic
  unfolding maybe_merge_with_adjacents
  merge-panic z u e = if-false _ _ u ∙ ap (λ o. o >>= λ checked. merge_both heap_start heap_end z) e

  module _ (before : List Node) (n : Node) (c : Counters) where
    abbrev at_end : At
    at_end = record { before = before; node = n; after = []; counters = c }

    -- The counter of holes grows, and the holes do not.
    release-panic :
        verify_stats heap_start heap_end (leave at_end) ≡ done tt
        → c.total_hole_size < u32_mod
        → 0 < node_size heap_start heap_end n.addr []
        → verify_stats heap_start heap_end (leave (release heap_start heap_end at_end)) ≡ panic
    unfolding leave release
    release-panic e word size =
        verify_stats-panic (leave (release heap_start heap_end at_end)) (λ q.
          omega
            (arith, sym (verify_stats-holes (leave at_end) e) ∙ sym (actual-cleared before n) ∙ q))

    free_node-panic :
        verify_stats heap_start heap_end (leave at_end) ≡ done tt
        → c.total_hole_size < u32_mod
        → 0 < node_size heap_start heap_end n.addr []
        → free_node heap_start heap_end at_end ≡ panic
    unfolding free_node release
    free_node-panic e word size = if-same _ _ panic (
        ap (λ o. o >>= finish)
          (merge-panic (release heap_start heap_end at_end) refl (release-panic e word size)))
      where
        finish : At → Outcome Heap
        finish m = verify_stats heap_start heap_end (leave m) >>= λ checked. done (leave m)

-- When the last node of the list is in use, freeing it stops the machine: `free` counts the node as
-- a hole, `verify_stats` counts no hole behind the last allocation, and the two differ as soon as the
-- node manages a byte.
pub free-last :
    (heap_start heap_end p : ℕ) (h : Heap) (before : List Node) (n : Node) (c : Counters)
    → verify_stats heap_start heap_end h ≡ done tt
    → locate (sub32 p node_header) [] h.nodes h.counters
      ≡ some (record { before = before; node = n; after = []; counters = c })
    → c.total_hole_size < u32_mod
    → 0 < node_size heap_start heap_end n.addr []
    → free heap_start heap_end p h ≡ panic
unfolding free free_found unwind
free-last heap_start heap_end p h before n c e l word size = if-same _ _ panic (
    ap (free_found heap_start heap_end) l
    ∙ free_node-panic heap_start heap_end before n c
        (subst (λ t. verify_stats heap_start heap_end t ≡ done tt)
          (sym (locate-leave (sub32 p node_header) [] h.nodes h.counters l)) e)
        word size)
