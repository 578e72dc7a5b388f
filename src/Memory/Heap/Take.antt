-- ===== src/Memory/Heap/Take.antt =====
-- How `alloc` of src/kernel/src/memory/kernel-heap.cc takes a free node for an allocation that starts at it
-- or shortly behind it.
use rikai_os.Base.{
  ℕ, refl, ap, inl, inr, true, false, List, [], arith, if◌then◌else◌, ◌+◌, ◌*◌, ◌≤◌, ◌<◌, ◌≡◌, ◌∙◌,
  ◌∷◌, ◌==◌, if-true, if-false, not-true, not-false, Bool-cases, length, u32_mod,
}
use rikai_os.Memory.Heap.{
  Node, Counters, At, Outcome, done, ◌>>=◌, node_header, node_split_threshold, node_size, is_last,
  unwind, leave, verify_stats, first_addr,
}
use rikai_os.Memory.Heap.Alloc.{take_at, take_whole, take_node}
use rikai_os.Memory.Heap.Shape.{From, unwind-Ordered, ApartBefore}
use rikai_os.Memory.Heap.Sums.{allocated, holes, overhead, Shift, Shift-unwind}
use rikai_os.Memory.Heap.Merge.{Sound, verify_stats-Sound, Ordered-bound}
use rikai_os.Memory.Heap.Rest.{end_of, node_size-end}
use rikai_os.Memory.Heap.Moved.{
  taken_node, moved, insert_node-moved, moved-Sound, moved_before, moved_node, moved_after,
}

module _ (heap_start heap_end : ℕ) (fits : heap_end + 1 < u32_mod) where
  -- The free node is used from its start.
  whole-Shift :
      (n : Node) (after : List Node)
      → n.used ≡ false
      → Shift heap_start heap_end
          (n ∷ after)
          (record n { used = true } ∷ after)
          (node_size heap_start heap_end n.addr after)
          0
          0
          (if is_last after then 0 else node_size heap_start heap_end n.addr after)
          0
          0
  unfolding first_addr is_last allocated holes node_size
  whole-Shift n [] hn = record {
    first = refl;
    sizes = λ x. refl;
    last = refl;
    allocated_by = ground (arith, hn);
    holes_by = ground (arith, hn);
    length_by = omega arith;
  }
  whole-Shift n (m ∷ after) hn = record {
    first = refl;
    sizes = λ x. refl;
    last = refl;
    allocated_by = ground (arith, hn);
    holes_by = ground (arith, hn);
    length_by = omega arith;
  }

  whole-Sound :
      (before : List Node) (n : Node) (after : List Node) (c : Counters)
      → n.used ≡ false
      → Sound heap_start heap_end fits
          (record { before = before; node = n; after = after; counters = c })
      → Sound heap_start heap_end fits (
          take_whole heap_start heap_end
            (node_size heap_start heap_end n.addr after)
            (record { before = before; node = n; after = after; counters = c }))
  unfolding take_whole overhead
  whole-Sound before n after c hn s = record {
    before = s.before;
    after = from;
    exact = record {
      total_overhead = omega (arith, s.exact.total_overhead, shift.first, shift.length_by);
      total_allocated = omega (arith, s.exact.total_allocated, shift.allocated_by, new_bound, fits);
      total_hole_size = ground (arith, s.exact.total_hole_size, shift.holes_by, old_bound, fits);
    };
  }
    where
      used_From :
          (after : List Node)
          → From heap_start heap_end n after
          → From heap_start heap_end (record n { used = true }) after
      used_From [] f = f
      used_From (m ∷ after) f = f

      from : From heap_start heap_end (record n { used = true }) after
      from = used_From after s.after

      old : List Node
      old = unwind before (n ∷ after)

      new : List Node
      new = unwind before (record n { used = true } ∷ after)

      shift :
          Shift heap_start heap_end old new
            (node_size heap_start heap_end n.addr after)
            0
            0
            (if is_last after then 0 else node_size heap_start heap_end n.addr after)
            0
            0
      shift = Shift-unwind heap_start heap_end before _ _ _ _ _ _ _ _ (whole-Shift n after hn)

      old_bound :
          allocated heap_start heap_end old
            + holes heap_start heap_end old
            + node_header * length old
            + first_addr old
          ≤ heap_end + 1
      old_bound =
          Ordered-bound heap_start heap_end fits old
            (unwind-Ordered heap_start heap_end before n after s.before s.after)

      new_bound :
          allocated heap_start heap_end new
            + holes heap_start heap_end new
            + node_header * length new
            + first_addr new
          ≤ heap_end + 1
      new_bound =
          Ordered-bound heap_start heap_end fits new (
            unwind-Ordered heap_start heap_end before (record n { used = true }) after s.before
              from)

  -- The allocation takes the node, at its start or moved.
  pub take_node-lem :
      (dst taken : ℕ) (before : List Node) (n : Node) (after : List Node) (c : Counters)
      → Sound heap_start heap_end fits
          (record { before = before; node = n; after = after; counters = c })
      → n.used ≡ false
      → ApartBefore before false
      → n.addr ≤ dst
      → dst < n.addr + node_split_threshold
      → dst + node_header + taken ≡ end_of heap_start heap_end fits after
      → (z : At) × (take_node heap_start heap_end dst taken
            (record { before = before; node = n; after = after; counters = c })
          ≡ done z)
        × Sound heap_start heap_end fits z
        × (z.before ≡ before)
        × (z.node ≡ taken_node heap_start heap_end fits dst n)
        × (z.after ≡ after)
  unfolding take_node take_at
  take_node-lem dst taken before n after c s hn a lo hi e =
      let size = node_size-end heap_start heap_end fits n after s.after in
      elim (Bool-cases (dst == n.addr)) [
        | inl f ↦ (
          take_whole heap_start heap_end (node_size heap_start heap_end n.addr after)
              (record { before = before; node = n; after = after; counters = c }),
          if-false _ _ (not-false f)
              ∙ ap
                  (λ t. done (
                    take_whole heap_start heap_end t
                      (record { before = before; node = n; after = after; counters = c })))
                  (ground (arith, f, e, size)),
          whole-Sound before n after c hn s,
          refl,
          ap (λ t. record { addr = t; used = true; valid = n.valid }) {x = n.addr} {y = dst}
              (ground (arith, f)),
          refl,
        )
        | inr f ↦
            let m =
              moved-Sound heap_start heap_end fits dst before n after c a hn lo (omega (arith, e))
                s in
            (
              moved heap_start heap_end fits dst before n after c,
              if-true _ _ (not-true f)
                  ∙ ap (λ o. o >>= checked)
                      (insert_node-moved heap_start heap_end fits dst before n after c hn lo hi
                        (omega (arith, e, size.2, fits)))
                  ∙ ap
                      (λ (o : Outcome (Unit {0})).
                        o >>= λ t. done (moved heap_start heap_end fits dst before n after c))
                      (verify_stats-Sound heap_start heap_end fits _ m),
              m,
              moved_before heap_start heap_end fits dst before n after c,
              moved_node heap_start heap_end fits dst before n after c,
              moved_after heap_start heap_end fits dst before n after c,
            )
      ]
    where
      checked : At → Outcome At
      checked p = verify_stats heap_start heap_end (leave p) >>= λ t. done p
