-- ===== src/Memory/Heap/Moved.antt =====
-- How `alloc` of src/kernel/src/memory/kernel-heap.cc moves a free node for an allocation that starts
-- shortly behind it.
use rikai_os.Base.{
  ℕ, refl, ap, Bool, true, false, List, [], arith, if◌then◌else◌, ◌+◌, ◌-◌, ◌*◌, ◌≤◌, ◌<◌, ◌≡◌, ◌∙◌,
  ◌||◌, ◌∷◌, ltb, if-true, if-false, length, u32_mod, sub32,
}
use rikai_os.Memory.Heap.{
  Node, Counters, At, done, node_header, node_split_threshold, node_size, is_last, unwind,
  first_addr,
}
use rikai_os.Memory.Heap.Alloc.{insert_node, insert_used, move_prev, count_used, is_used}
use rikai_os.Memory.Heap.Shape.{Before, From, unwind-Ordered, ApartBefore}
use rikai_os.Memory.Heap.Sums.{allocated, holes, overhead, Exact, Shift, Shift-unwind}
use rikai_os.Memory.Heap.Merge.{Sound, Ordered-bound}
use rikai_os.Memory.Heap.Rest.{end_of, node_size-end}

module _ (heap_start heap_end : ℕ) (fits : heap_end + 1 < u32_mod) where
  -- The node of the allocation.
  abbrev pub taken_node : ℕ → Node → Node
  taken_node dst n = record { addr = dst; used = true; valid = n.valid }

  taken-From :
      (dst : ℕ) (n : Node) (after : List Node)
      → From heap_start heap_end n after
      → dst + node_header ≤ end_of heap_start heap_end fits after
      → From heap_start heap_end (taken_node dst n) after
  unfolding end_of
  taken-From dst n [] f h = (f.0, h)
  taken-From dst n (m ∷ after) f h = (f.0, h, f.2)

  raised :
      (before : List Node) (a b : ℕ)
      → a ≤ b
      → Before heap_start heap_end before a
      → Before heap_start heap_end before b
  raised [] a b h g = omega arith
  raised (p ∷ before) a b h g = (g.0, omega (arith, g.1), g.2)

  -- The free node behind the used node `p` moves to `dst` and is used.
  moved-Shift :
      (dst : ℕ) (p n : Node) (after : List Node)
      → p.used ≡ true
      → n.used ≡ false
      → p.valid ≡ true
      → p.addr + node_header ≤ n.addr
      → n.addr ≤ dst
      → From heap_start heap_end n after
      → dst + node_header ≤ end_of heap_start heap_end fits after
      → Shift heap_start heap_end
          (p ∷ n ∷ after)
          (p ∷ taken_node dst n ∷ after)
          ((dst - n.addr) + node_size heap_start heap_end dst after)
          0
          0
          (if is_last after then 0 else (dst - n.addr) + node_size heap_start heap_end dst after)
          0
          0
  unfolding first_addr is_last allocated holes node_size
  moved-Shift dst p n after hp hn vp lo le f hi =
      let b = node_size-end heap_start heap_end fits n after f in
      let b' =
        node_size-end heap_start heap_end fits (taken_node dst n) after
          (taken-From dst n after f hi) in
      record {
        first = refl;
        sizes = λ x. refl;
        last = refl;
        allocated_by = ground (arith, hp, hn, b, b', fits);
        holes_by = ground (arith, hp, hn, b, b', fits);
        length_by = omega arith;
      }

  -- The heap after the move, as `insert_node` leaves it.
  unfoldable pub moved : ℕ → List Node → Node → List Node → Counters → At
  unfolding move_prev count_used
  moved dst before n after c =
      count_used heap_start heap_end (move_prev heap_start heap_end dst n before after c)

  pub insert_node-moved :
      (dst : ℕ) (before : List Node) (n : Node) (after : List Node) (c : Counters)
      → n.used ≡ false
      → n.addr ≤ dst
      → dst < n.addr + node_split_threshold
      → dst < u32_mod
      → insert_node heap_start heap_end dst (n ∷ before) after true c
        ≡ done (moved dst before n after c)
  unfolding insert_node insert_used moved is_used
  insert_node-moved dst before n after c hn lo hi w =
      if-false _ _ hn
      ∙ ap (λ z. done (count_used heap_start heap_end z))
          (if-true {b = ltb (sub32 dst n.addr) node_split_threshold} _ _ (ground arith))

  moved-behind :
      (dst : ℕ) (p : Node) (before : List Node) (n : Node) (after : List Node) (c : Counters)
      → p.used ≡ true
      → n.used ≡ false
      → n.addr ≤ dst
      → dst + node_header ≤ end_of heap_start heap_end fits after
      → Sound heap_start heap_end fits
          (record { before = p ∷ before; node = n; after = after; counters = c })
      → Exact heap_start heap_end
          (unwind (p ∷ before) (taken_node dst n ∷ after))
          (moved dst (p ∷ before) n after c).counters
  unfolding moved move_prev count_used unwind is_last overhead
  moved-behind dst p before n after c hp hn le hi s = record {
    total_overhead = omega (arith, s.exact.total_overhead, shift.first, shift.length_by);
    total_allocated =
        ground (
          arith, s.exact.total_allocated, shift.allocated_by, old_bound, new_bound, fits, size, le,
        );
    total_hole_size =
        ground
          (arith, s.exact.total_hole_size, shift.holes_by, old_bound, new_bound, fits, size, le);
  }
    where
      n' : Node
      n' = taken_node dst n

      old : List Node
      old = unwind before (p ∷ n ∷ after)

      new : List Node
      new = unwind before (p ∷ n' ∷ after)

      from : From heap_start heap_end n' after
      from = taken-From dst n after s.after hi

      size :
          (node_size heap_start heap_end dst after + dst + node_header
            ≡ end_of heap_start heap_end fits after)
          × (dst + node_header ≤ end_of heap_start heap_end fits after)
          × (end_of heap_start heap_end fits after ≤ heap_end + 1)
      size = node_size-end heap_start heap_end fits n' after from

      shift :
          Shift heap_start heap_end old new
            ((dst - n.addr) + node_size heap_start heap_end dst after)
            0
            0
            (if is_last after then 0 else (dst - n.addr) + node_size heap_start heap_end dst after)
            0
            0
      shift =
          Shift-unwind heap_start heap_end before _ _ _ _ _ _ _ _
            (moved-Shift dst p n after hp hn s.before.0 s.before.1 le s.after hi)

      old_bound :
          allocated heap_start heap_end old
            + holes heap_start heap_end old
            + node_header * length old
            + first_addr old
          ≤ heap_end + 1
      old_bound =
          Ordered-bound heap_start heap_end fits old
            (unwind-Ordered heap_start heap_end (p ∷ before) n after s.before s.after)

      new_bound :
          allocated heap_start heap_end new
            + holes heap_start heap_end new
            + node_header * length new
            + first_addr new
          ≤ heap_end + 1
      new_bound = Ordered-bound heap_start heap_end fits new (
          unwind-Ordered heap_start heap_end (p ∷ before) n' after
            (raised (p ∷ before) n.addr dst le s.before) from)

  moved-first :
      (dst : ℕ) (n : Node) (after : List Node) (c : Counters)
      → n.used ≡ false
      → n.addr ≤ dst
      → dst + node_header ≤ end_of heap_start heap_end fits after
      → Sound heap_start heap_end fits
          (record { before = []; node = n; after = after; counters = c })
      → Exact heap_start heap_end (taken_node dst n ∷ after) (moved dst [] n after c).counters
  unfolding moved move_prev count_used unwind is_last overhead first_addr allocated holes
  moved-first dst n after c hn le hi s = record {
    total_overhead = ground (arith, s.exact.total_overhead, le, hi, size, fits, s.before, bound);
    total_allocated = ground (arith, s.exact.total_allocated, hn, size, fits, bound);
    total_hole_size = ground (arith, s.exact.total_hole_size, hn, old_size, size, fits, bound, le);
  }
    where
      size :
          (node_size heap_start heap_end dst after + dst + node_header
            ≡ end_of heap_start heap_end fits after)
          × (dst + node_header ≤ end_of heap_start heap_end fits after)
          × (end_of heap_start heap_end fits after ≤ heap_end + 1)
      size =
          node_size-end heap_start heap_end fits (taken_node dst n) after
            (taken-From dst n after s.after hi)

      old_size :
          (node_size heap_start heap_end n.addr after + n.addr + node_header
            ≡ end_of heap_start heap_end fits after)
          × (n.addr + node_header ≤ end_of heap_start heap_end fits after)
          × (end_of heap_start heap_end fits after ≤ heap_end + 1)
      old_size = node_size-end heap_start heap_end fits n after s.after

      bound :
          allocated heap_start heap_end (taken_node dst n ∷ after)
            + holes heap_start heap_end (taken_node dst n ∷ after)
            + node_header * length (taken_node dst n ∷ after)
            + dst
          ≤ heap_end + 1
      bound =
          Ordered-bound heap_start heap_end fits (taken_node dst n ∷ after)
            (omega (arith, s.before), taken-From dst n after s.after hi)

  pub moved-Sound :
      (dst : ℕ) (before : List Node) (n : Node) (after : List Node) (c : Counters)
      → ApartBefore before false
      → n.used ≡ false
      → n.addr ≤ dst
      → dst + node_header ≤ end_of heap_start heap_end fits after
      → Sound heap_start heap_end fits
          (record { before = before; node = n; after = after; counters = c })
      → Sound heap_start heap_end fits (moved dst before n after c)
  unfolding moved move_prev count_used unwind
  moved-Sound dst [] n after c a hn le hi s = record {
    before = omega (arith, s.before);
    after = taken-From dst n after s.after hi;
    exact = moved-first dst n after c hn le hi s;
  }
  moved-Sound dst (p ∷ before) n after c a hn le hi s = record {
    before = raised (p ∷ before) n.addr dst le s.before;
    after = taken-From dst n after s.after hi;
    exact = moved-behind dst p before n after c (or_false p.used a.0) hn le hi s;
  }
    where
      or_false : (b : Bool) → (b || false) ≡ true → b ≡ true
      or_false true e = refl
      or_false false e = e

  pub moved_before :
      (dst : ℕ) (before : List Node) (n : Node) (after : List Node) (c : Counters)
      → (moved dst before n after c).before ≡ before
  unfolding moved move_prev count_used
  moved_before dst before n after c = refl

  pub moved_node :
      (dst : ℕ) (before : List Node) (n : Node) (after : List Node) (c : Counters)
      → (moved dst before n after c).node ≡ taken_node dst n
  unfolding moved move_prev count_used
  moved_node dst before n after c = refl

  pub moved_after :
      (dst : ℕ) (before : List Node) (n : Node) (after : List Node) (c : Counters)
      → (moved dst before n after c).after ≡ after
  unfolding moved move_prev count_used
  moved_after dst before n after c = refl
