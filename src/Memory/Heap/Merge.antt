-- ===== src/Memory/Heap/Merge.antt =====
-- `merge_into_prev_block` and `maybe_merge_with_adjacents` of src/kernel/src/memory/kernel-heap.cc.
use rikai_os.Base.{
  ℕ, refl, false, List, [], arith, if◌then◌else◌, ◌+◌, ◌*◌, ◌≤◌, ◌<◌, ◌≡◌, ◌∷◌, length, u32_mod,
  add32, sub32,
}
use rikai_os.Memory.Heap.{
  Node, Counters, At, done, node_header, node_size, is_last, first_addr, unwind, leave,
  verify_stats,
}
use rikai_os.Memory.Heap.Shape.{Before, From, Ordered, unwind-Ordered}
use rikai_os.Memory.Heap.Sums.{
  allocated, holes, overhead, Exact, Shift, Shift-unwind, sums-bound, verify_stats-Exact, From-lt,
}

module _ (heap_start heap_end : ℕ) (fits : heap_end + 1 < u32_mod) where
  -- At a node: the nodes are in order, and the counters are the sums.
  pub record Sound (z : At) : Type 0 where
    pub before : Before heap_start heap_end z.before z.node.addr
    pub after : From heap_start heap_end z.node z.after
    pub exact : Exact heap_start heap_end (unwind z.before (z.node ∷ z.after)) z.counters

  pub verify_stats-Sound : (z : At) → Sound z → verify_stats heap_start heap_end (leave z) ≡ done tt
  unfolding leave
  verify_stats-Sound z s =
      verify_stats-Exact heap_start heap_end (unwind z.before (z.node ∷ z.after)) z.counters fits
        (unwind-Ordered heap_start heap_end z.before z.node z.after s.before s.after) s.exact

  pub Ordered-bound :
      (ns : List Node)
      → Ordered heap_start heap_end ns
      → allocated heap_start heap_end ns
          + holes heap_start heap_end ns
          + node_header * length ns
          + first_addr ns
        ≤ heap_end + 1
  unfolding first_addr
  Ordered-bound [] o = absurd o
  Ordered-bound (n ∷ ns) o = omega (arith, sums-bound heap_start heap_end n ns fits o.1)

  -- What a merge takes off the holes, or adds to them.
  unfoldable pub taken_off : Node → Node → List Node → ℕ
  unfolding is_last
  taken_off p n after =
      if is_last after then node_size heap_start heap_end p.addr (n ∷ after) else 0

  unfoldable pub given_back : Node → Node → List Node → ℕ
  unfolding is_last
  given_back p n after = if is_last after then 0 else node_header

  -- Two free neighbours become one node.
  pub merge-Shift :
      (p n : Node) (after : List Node)
      → p.used ≡ false
      → n.used ≡ false
      → p.addr + node_header ≤ n.addr
      → From heap_start heap_end n after
      → Shift heap_start heap_end
          (p ∷ n ∷ after)
          (p ∷ after)
          0
          0
          (given_back p n after)
          (taken_off p n after)
          0
          1
  unfolding taken_off given_back node_size first_addr is_last allocated holes
  merge-Shift p n [] hp hn lt f = record {
    first = refl;
    sizes = λ x. refl;
    last = refl;
    allocated_by = ground (arith, hp, hn);
    holes_by = ground (arith, hp, hn);
    length_by = omega arith;
  }
  merge-Shift p n (m ∷ after) hp hn lt f = record {
    first = refl;
    sizes = λ x. refl;
    last = refl;
    allocated_by = ground (arith, hp, hn);
    holes_by = ground (arith, hp, hn, lt, f.1, From-lt heap_start heap_end m after f.2, fits);
    length_by = omega arith;
  }

  unfoldable pub merged : Node → Node → List Node → List Node → Counters → At
  unfolding is_last
  merged p n before after c = record {
    before = before;
    node = p;
    after = after;
    counters = record {
      total_overhead = sub32 c.total_overhead node_header;
      total_allocated = c.total_allocated;
      total_hole_size =
          (if is_last after
            then sub32 c.total_hole_size (node_size heap_start heap_end p.addr (n ∷ after))
            else add32 c.total_hole_size node_header);
    };
  }

  -- Where both are free, `merge_into_prev_block` keeps the heap sound.
  pub merge_into_prev_block-Sound :
      (p n : Node) (before after : List Node) (c : Counters)
      → p.used ≡ false
      → n.used ≡ false
      → Sound (record { before = p ∷ before; node = n; after = after; counters = c })
      → Sound (merged p n before after c)
  unfolding merged unwind given_back taken_off overhead
  merge_into_prev_block-Sound p n before after c hp hn s = record {
    before = s.before.2;
    after = joined after s.after;
    exact = record {
      total_overhead =
          omega (arith, s.exact.total_overhead, shift.first, shift.length_by, old_bound, new_bound);
      total_allocated = omega (arith, s.exact.total_allocated, shift.allocated_by);
      total_hole_size =
          ground (arith, s.exact.total_hole_size, shift.holes_by, old_bound, new_bound, fits);
    };
  }
    where
      joined :
          (after : List Node) → From heap_start heap_end n after → From heap_start heap_end p after
      joined [] f = (s.before.0, omega (arith, s.before.1, f.1))
      joined (m ∷ after) f = (s.before.0, omega (arith, s.before.1, f.1), f.2)

      old : List Node
      old = unwind before (p ∷ n ∷ after)

      new : List Node
      new = unwind before (p ∷ after)

      shift : Shift heap_start heap_end old new 0 0 (given_back p n after) (taken_off p n after) 0 1
      shift =
          Shift-unwind heap_start heap_end before _ _ _ _ _ _ _ _
            (merge-Shift p n after hp hn s.before.1 s.after)

      old_bound :
          allocated heap_start heap_end old
            + holes heap_start heap_end old
            + node_header * length old
            + first_addr old
          ≤ heap_end + 1
      old_bound = Ordered-bound old (
          unwind-Ordered heap_start heap_end before p (n ∷ after) s.before.2
            (s.before.0, s.before.1, s.after))

      new_bound :
          allocated heap_start heap_end new
            + holes heap_start heap_end new
            + node_header * length new
            + first_addr new
          ≤ heap_end + 1
      new_bound =
          Ordered-bound new
            (unwind-Ordered heap_start heap_end before p after s.before.2 (joined after s.after))
