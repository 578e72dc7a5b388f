-- ===== src/Memory/Heap/Release.antt =====
-- What `free` of src/kernel/src/memory/kernel-heap.cc checks and counts before it merges.
use rikai_os.Base.{
  ℕ, refl, Bool, true, false, not, List, [], arith, ◌+◌, ◌*◌, ◌≤◌, ◌<◌, ◌≡◌, ◌&&◌, ◌||◌, ◌∷◌,
  length, u32_mod, head?,
}
use rikai_os.Memory.Heap.{
  Node, Counters, At, node_header, node_size, is_last, unwind, verify_node, not_after, not_before,
  release, first_addr,
}
use rikai_os.Memory.Heap.Shape.{Before, From, unwind-Ordered}
use rikai_os.Memory.Heap.Sums.{allocated, holes, overhead, Shift, Shift-unwind}
use rikai_os.Memory.Heap.Merge.{Sound, Ordered-bound}

release-Shift :
    (heap_start heap_end : ℕ) (n m : Node) (after : List Node)
    → n.used ≡ true
    → Shift heap_start heap_end
        (n ∷ m ∷ after)
        (record n { used = false } ∷ m ∷ after)
        0
        (node_size heap_start heap_end n.addr (m ∷ after))
        (node_size heap_start heap_end n.addr (m ∷ after))
        0
        0
        0
unfolding first_addr is_last allocated holes node_size
release-Shift heap_start heap_end n m after u = record {
  first = refl;
  sizes = λ x. refl;
  last = refl;
  allocated_by = ground (arith, u);
  holes_by = ground (arith, u);
  length_by = omega arith;
}

module _ (heap_start heap_end : ℕ) (fits : heap_end + 1 < u32_mod) where
  -- A node that is not the last turns from used to free.
  pub release-Sound :
      (before : List Node) (n m : Node) (after : List Node) (c : Counters)
      → Sound heap_start heap_end fits
          (record { before = before; node = n; after = m ∷ after; counters = c })
      → n.used ≡ true
      → Sound heap_start heap_end fits (
          release heap_start heap_end
            (record { before = before; node = n; after = m ∷ after; counters = c }))
  unfolding release overhead
  release-Sound before n m after c s u = record {
    before = s.before;
    after = s.after;
    exact = record {
      total_overhead = omega (arith, s.exact.total_overhead, shift.first, shift.length_by);
      total_allocated = omega (arith, s.exact.total_allocated, shift.allocated_by, old_bound, fits);
      total_hole_size =
          omega (arith, s.exact.total_hole_size, shift.holes_by, new_bound, fits, old_bound);
    };
  }
    where
      n' : Node
      n' = record n { used = false }

      size : ℕ
      size = node_size heap_start heap_end n.addr (m ∷ after)

      old : List Node
      old = unwind before (n ∷ m ∷ after)

      new : List Node
      new = unwind before (n' ∷ m ∷ after)

      shift : Shift heap_start heap_end old new 0 size size 0 0 0
      shift =
          Shift-unwind heap_start heap_end before _ _ _ _ _ _ _ _
            (release-Shift heap_start heap_end n m after u)

      old_bound :
          allocated heap_start heap_end old
            + holes heap_start heap_end old
            + node_header * length old
            + first_addr old
          ≤ heap_end + 1
      old_bound =
          Ordered-bound heap_start heap_end fits old
            (unwind-Ordered heap_start heap_end before n (m ∷ after) s.before s.after)

      new_bound :
          allocated heap_start heap_end new
            + holes heap_start heap_end new
            + node_header * length new
            + first_addr new
          ≤ heap_end + 1
      new_bound =
          Ordered-bound heap_start heap_end fits new
            (unwind-Ordered heap_start heap_end before n' (m ∷ after) s.before s.after)

  pub first_valid :
      (n : Node) (after : List Node) → From heap_start heap_end n after → n.valid ≡ true
  first_valid n [] f = f.0
  first_valid n (m ∷ after) f = f.0

  pub not_after-From :
      (n : Node) (after : List Node)
      → From heap_start heap_end n after
      → not_after n (head? after) ≡ false
  unfolding not_after
  not_after-From n [] f = refl
  not_after-From n (m ∷ after) f = ground (arith, f.1)

  pub not_before-Before :
      (n : Node) (before : List Node)
      → Before heap_start heap_end before n.addr
      → not_before n (head? before) ≡ false
  unfolding not_before
  not_before-Before n [] b = refl
  not_before-Before n (p ∷ before) b = ground (arith, b.1)

  -- The checks of `free` at a used node pass.
  pub checks_pass :
      (z : At)
      → Sound heap_start heap_end fits z
      → z.node.used ≡ true
      → (not (verify_node (head? z.before) z.node (head? z.after)) || not z.node.used) ≡ false
  unfolding verify_node
  checks_pass z s u =
      all_pass z.node.valid z.node.used _ _ _ (first_valid z.node z.after s.after) u
        (not_after-From z.node z.after s.after) (not_before-Before z.node z.before s.before)
    where
      all_pass :
          (v u f h k : Bool)
          → v ≡ true
          → u ≡ true
          → h ≡ false
          → k ≡ false
          → (not (not (not v || not u && f || h || k)) || not u) ≡ false
      all_pass v u f h k e1 e2 e3 e4 = ground arith
