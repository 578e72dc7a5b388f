-- ===== src/Memory/Heap/AllocAt.antt =====
-- `alloc` of src/kernel/src/memory/kernel-heap.cc at the free node that it has chosen.
use rikai_os.Base.{
  ℕ, refl, sym, ap, inl, inr, true, false, Option, some, List, [], arith, ◌+◌, ◌-◌, ◌≤◌, ◌<◌, ◌≡◌,
  ◌∙◌, ◌⊎◌, ◌∷◌, u32_mod, add32,
}
use mathlib.Core.Path.{subst}
use rikai_os.Memory.Heap.{
  Node, Counters, Heap, At, Outcome, done, ◌>>=◌, node_header, node_split_threshold, node_size,
  unwind, leave, verify_stats,
}
use rikai_os.Memory.Heap.Alloc.{take_node, tidy_prev, tidy_next, alloc_at}
use rikai_os.Memory.Heap.Shape.{
  ApartBefore, ApartFrom, used_nodes, used_nodes-unwind, used_nodes-free,
}
use rikai_os.Memory.Heap.Tidy.{passes}
use rikai_os.Memory.Heap.Settle.{Settled, tidy_prev-same, tidy_next-same}
use rikai_os.Memory.Heap.Rest.{end_of, node_size-end}
use rikai_os.Memory.Heap.Split.{Room, split_rest-Room}
use rikai_os.Memory.Heap.Take.{take_node-lem}
use rikai_os.Math.{align_up}

module _ (heap_start heap_end : ℕ) (fits : heap_end + 1 < u32_mod) where
  -- The heap at the node of the allocation, for `size` bytes at `base`.
  pub record Placed (size base : ℕ) (used : List Node) (p bytes : ℕ) (z : At) : Type 0 where
    pub settled : Settled heap_start heap_end fits z
    pub in_use : z.node.used ≡ true
    pub pointer : p ≡ z.node.addr + node_header
    pub at_base : p ≡ base
    pub all_bytes : bytes ≡ node_size heap_start heap_end z.node.addr z.after
    pub enough : size ≤ bytes
    pub others : used_nodes (unwind z.before z.after) ≡ used

  beside_used : (before : List Node) → ApartBefore before false → ApartBefore before true
  beside_used [] a = tt
  beside_used (p ∷ before) a = (ground (arith, a.0), a.1)

  before_used : (after : List Node) → ApartFrom false after → ApartFrom true after
  before_used [] a = tt
  before_used (m ∷ after) a = (refl, a.1)

  -- What is behind the allocation.
  rest_Apart :
      (after l : List Node)
      → (l ≡ after) ⊎ ((q : ℕ) × (l ≡ record { addr = q; used = false; valid = true } ∷ after))
      → ApartFrom false after
      → ApartFrom true l × (used_nodes l ≡ used_nodes after)
  rest_Apart after l (inl e) a =
      (subst (ApartFrom true) (sym e) (before_used after a), ap used_nodes e)
  rest_Apart after l (inr (q, e)) a = (
    subst (ApartFrom true) (sym e) (refl, a),
    ap used_nodes e ∙ used_nodes-free (record { addr = q; used = false; valid = true }) after refl,
  )

  module _ (before : List Node) (n : Node) (after : List Node) (c : Counters)
      (size alignment base : ℕ) (free : n.used ≡ false)
      (settled : Settled heap_start heap_end fits
        (record { before = before; node = n; after = after; counters = c }))
      (aligned : align_up (n.addr + node_header) alignment ≡ base)
      (low : n.addr + node_header ≤ base)
      (near : base < n.addr + node_header + node_split_threshold)
      (high : base + size ≤ end_of heap_start heap_end fits after) where
    abbrev here : At
    here = record { before = before; node = n; after = after; counters = c }

    apart_before : ApartBefore before false
    apart_before = subst (ApartBefore before) free settled.apart_before

    apart_after : ApartFrom false after
    apart_after = subst (λ b. ApartFrom b after) free settled.apart_after

    -- `take_node` where the rest of the node has been split off.
    taken-Placed :
        (z1 : At) (taken : ℕ)
        → Room heap_start heap_end fits (base - node_header) size before n after z1 taken
        → (z : At) × (take_node heap_start heap_end (base - node_header) taken z1 ≡ done z)
          × Placed size base
              (used_nodes (unwind before (n ∷ after)))
              (add32 z.node.addr node_header)
              taken
              z
    taken-Placed z1 taken r =
        let dst : ℕ = base - node_header in
        let addr : z1.node.addr ≡ n.addr = ap (λ (m : Node). m.addr) r.same_node in
        let (z, e, s, b, m, a) =
          take_node-lem heap_start heap_end fits dst taken z1.before z1.node z1.after z1.counters
            r.sound (ap (λ (m : Node). m.used) r.same_node ∙ free)
            (subst (λ l. ApartBefore l false) (sym r.same_before) apart_before)
            (omega (arith, addr, low)) (omega (arith, addr, near, low)) r.up_to in
        let apart = rest_Apart after z1.after r.rest apart_after in
        let at : z.node.addr ≡ dst = ap (λ (m : Node). m.addr) m in
        let end = node_size-end heap_start heap_end fits z.node z.after s.after in
        let at_end = ap (end_of heap_start heap_end fits) a in
        (
          z,
          e,
          record {
            settled = record {
              sound = s;
              apart_before =
                  subst (λ l. ApartBefore l z.node.used) (sym (b ∙ r.same_before))
                    (subst (λ (m : Node). ApartBefore before m.used) (sym m)
                      (beside_used before apart_before));
              apart_after =
                  subst (ApartFrom z.node.used) (sym a)
                    (subst (λ (m : Node). ApartFrom m.used z1.after) (sym m) apart.0);
            };
            in_use = ap (λ (m : Node). m.used) m;
            pointer = omega (arith, end.1, end.2, fits);
            at_base = omega (arith, at, low, end.1, end.2, fits);
            all_bytes = omega (arith, end.0, at_end, at, r.up_to);
            enough = r.enough;
            others =
                ap (λ l. used_nodes (unwind l z.after)) (b ∙ r.same_before)
                ∙ used_nodes-unwind before z.after (n ∷ after)
                    (ap used_nodes a ∙ apart.1 ∙ sym (used_nodes-free n after free));
          },
        )

    -- The allocation succeeds at this node.
    pub alloc_at-Placed :
        (z : At) × (k : ℕ) × (alloc_at heap_start heap_end (base - node_header) size alignment here
          ≡ done (leave z, some (add32 z.node.addr node_header, k)))
        × Placed size base
            (used_nodes (unwind before (n ∷ after)))
            (add32 z.node.addr node_header)
            k
            z
    unfolding alloc_at
    alloc_at-Placed =
        let (z1, taken, e1, r) =
          split_rest-Room heap_start heap_end fits before n after c size alignment base free
            settled.sound aligned low high in
        let (z, e2, p) = taken-Placed z1 taken r in
        (
          z,
          taken,
          ap (λ o. o >>= after_split) e1
              ∙ ap (λ o. o >>= after_take taken) e2
              ∙ ap (λ o. o >>= after_prev taken)
                  (tidy_prev-same heap_start heap_end fits z.before z.node z.after z.counters
                    p.settled)
              ∙ ap (λ o. o >>= after_next taken)
                  (tidy_next-same heap_start heap_end fits z.before z.node z.after z.counters
                    p.settled)
              ∙ passes heap_start heap_end fits z _ p.settled.sound,
          p,
        )
      where
        after_next : ℕ → At → Outcome (Heap × Option (ℕ × ℕ))
        after_next taken z4 = verify_stats heap_start heap_end (leave z4) >>= λ checked.
            done (leave z4, some (add32 z4.node.addr node_header, taken))

        after_prev : ℕ → At → Outcome (Heap × Option (ℕ × ℕ))
        after_prev taken z3 = tidy_next heap_start heap_end z3.after z3 >>= after_next taken

        after_take : ℕ → At → Outcome (Heap × Option (ℕ × ℕ))
        after_take taken z2 = tidy_prev heap_start heap_end z2.before z2 >>= after_prev taken

        after_split : (At × ℕ) → Outcome (Heap × Option (ℕ × ℕ))
        after_split (z1, taken) =
            take_node heap_start heap_end (base - node_header) taken z1 >>= after_take taken
