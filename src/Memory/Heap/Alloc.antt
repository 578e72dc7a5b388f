-- ===== src/Memory/Heap/Alloc.antt =====
-- `insert_node`, `fit_node` and `alloc` of src/kernel/src/memory/kernel-heap.cc.
use rikai_os.Base.{
  ℕ, Bool, true, false, not, Option, none, some, List, [], if◌then◌else◌, ◌∷◌, ◌==◌, ltb, leb,
  add32, sub32, head?,
}
use rikai_os.Math.{align_up, max_of}
use rikai_os.Memory.Heap.Align.{round_align}
use rikai_os.Memory.Heap.{
  Node, Counters, Heap, At, Outcome, done, panic, ◌>>=◌, node_header, node_align,
  node_split_threshold, node_size, is_last, verify_node, verify_stats, leave, unwind,
  maybe_merge_with_adjacents,
}

module _ (heap_start heap_end : ℕ) where
  -- The branch of `insert_node` that moves the node before to `dst`.
  unfoldable pub move_prev : ℕ → Node → List Node → List Node → Counters → At
  unfolding is_last
  move_prev dst prev before after c =
      let diff = sub32 dst prev.addr in
      record {
        before = before;
        node = record prev { addr = dst; used = true };
        after = after;
        counters = record {
          total_allocated =
              (if is_last before then c.total_allocated else add32 c.total_allocated diff);
          total_overhead =
              (if is_last before then add32 c.total_overhead diff else c.total_overhead);
          total_hole_size =
              (if is_last after then c.total_hole_size else sub32 c.total_hole_size diff);
        };
      }

  -- The branch that creates a node.
  unfoldable pub create_node : ℕ → List Node → List Node → Bool → Counters → At
  unfolding is_last
  create_node dst before after used c = record {
    before = before;
    node = record { addr = dst; used = used; valid = true };
    after = after;
    counters = record {
      total_allocated = c.total_allocated;
      total_overhead = add32 c.total_overhead node_header;
      total_hole_size =
          (if is_last after then c.total_hole_size else sub32 c.total_hole_size node_header);
    };
  }

  -- The counters of a node that was inserted as used.
  unfoldable pub count_used : At → At
  unfolding node_size is_last
  count_used z =
      let data_size = node_size heap_start heap_end z.node.addr z.after in
      record z {
        counters = record (z.counters) {
          total_allocated = add32 z.counters.total_allocated data_size;
          total_hole_size =
              (if is_last z.after
                then z.counters.total_hole_size
                else sub32 z.counters.total_hole_size data_size);
        };
      }

  -- A free node behind the last leaves a hole: the node before it.
  unfoldable pub count_hole : List Node → At → At
  unfolding node_size is_last
  count_hole [] z = z
  count_hole (prev ∷ before) z = record z {
    counters = record (z.counters) {
      total_hole_size =
          (if is_last z.after
            then add32 z.counters.total_hole_size
                (node_size heap_start heap_end prev.addr (z.node ∷ z.after))
            else z.counters.total_hole_size);
    };
  }

  unfoldable pub insert_used : ℕ → List Node → List Node → Counters → At
  unfolding move_prev create_node count_used
  insert_used dst [] after c = count_used (create_node dst [] after true c)
  insert_used dst (prev ∷ before) after c = count_used (
      if ltb (sub32 dst prev.addr) node_split_threshold
      then move_prev dst prev before after c
      else create_node dst (prev ∷ before) after true c)

  unfoldable pub insert_free : ℕ → List Node → List Node → Counters → At
  unfolding create_node count_hole
  insert_free dst before after c = count_hole before (create_node dst before after false c)

  unfoldable pub is_used : Option Node → Bool
  is_used none = false
  is_used (some n) = n.used

  -- `insert_node`, where `prev` is the first of `before` and `next` the first of `after`.
  unfoldable pub insert_node : ℕ → List Node → List Node → Bool → Counters → Outcome At
  unfolding insert_used insert_free is_used
  insert_node dst before after used c =
      if is_used (head? before)
      then panic
      else done (if used then insert_used dst before after c else insert_free dst before after c)

  -- The node that would hold `size` bytes with the given alignment, if it fits.
  unfoldable pub fit_node : ℕ → List Node → ℕ → ℕ → Option ℕ
  unfolding node_size
  fit_node a after size alignment =
      let bytes = align_up (add32 a node_header) alignment in
      if leb (add32 bytes size)
        (add32 (add32 a node_header) (node_size heap_start heap_end a after))
      then some (sub32 bytes node_header)
      else none

  unfoldable pub is_at : ℕ → Option ℕ → Bool
  is_at d none = false
  is_at d (some e) = e == d

  -- A free node takes the bytes behind the allocation.
  unfoldable pub split_off : ℕ → ℕ → ℕ → At → Outcome (At × ℕ)
  unfolding insert_node verify_stats leave fit_node is_at
  split_off dst size align z = do
    p ←
        insert_node (add32 (add32 dst node_header) size) (z.node ∷ z.before) z.after false
          z.counters
    checked ← verify_stats heap_start heap_end (leave p)
    let z1 = record z { after = p.node ∷ z.after; counters = p.counters }
    if is_at dst (fit_node z.node.addr z1.after size align) then done (z1, size) else panic

  -- The bytes of the node at `z` that an allocation of `size` bytes at `dst` leaves.
  unfoldable pub unused_after : ℕ → ℕ → At → ℕ
  unfolding node_size
  unused_after dst size z =
      sub32
        (sub32 (add32 node_header (node_size heap_start heap_end z.node.addr z.after))
          (sub32 dst z.node.addr))
        (add32 node_header size)

  -- The heap with the rest of the node split off if it is large enough, and the size allocated.
  unfoldable pub split_rest : ℕ → ℕ → ℕ → At → Outcome (At × ℕ)
  unfolding split_off unused_after
  split_rest dst size align z =
      if ltb node_split_threshold (unused_after dst size z)
      then split_off dst size align z
      else done (z, add32 size (unused_after dst size z))

  -- `insert_node(dst, node, node->next, true)`
  unfoldable pub take_at : ℕ → At → Outcome At
  unfolding insert_node verify_stats leave
  take_at dst z = do
    p ← insert_node dst (z.node ∷ z.before) z.after true z.counters
    checked ← verify_stats heap_start heap_end (leave p)
    done p

  -- The allocation takes the node itself.
  unfoldable pub take_whole : ℕ → At → At
  unfolding is_last
  take_whole size z = record z {
    node = record (z.node) { used = true };
    counters = record (z.counters) {
      total_allocated = add32 z.counters.total_allocated size;
      total_hole_size =
          (if is_last z.after
            then z.counters.total_hole_size
            else sub32 z.counters.total_hole_size size);
    };
  }

  unfoldable pub take_node : ℕ → ℕ → At → Outcome At
  unfolding take_at take_whole
  take_node dst size z =
      if not (dst == z.node.addr) then take_at dst z else done (take_whole size z)

  -- Back from the node before (`back_next`) or behind (`back_prev`) to the node of the allocation.
  unfoldable pub back_next : List Node → At → Outcome At
  back_next [] z = panic
  back_next (n ∷ after) z = done (record z { before = z.node ∷ z.before; node = n; after = after })

  unfoldable pub back_prev : List Node → At → Outcome At
  back_prev [] z = panic
  back_prev (n ∷ before) z = done (record z { before = before; node = n; after = z.node ∷ z.after })

  -- `if (dst->prev) dst->prev = maybe_merge_with_adjacents(dst->prev);`
  unfoldable pub tidy_prev : List Node → At → Outcome At
  unfolding maybe_merge_with_adjacents back_next
  tidy_prev [] z = done z
  tidy_prev (prev ∷ before) z = do
    m ←
        maybe_merge_with_adjacents heap_start heap_end
          (record z { before = before; node = prev; after = z.node ∷ z.after })
    back_next m.after m

  -- `if (dst->next) dst->next = maybe_merge_with_adjacents(dst->next);`
  unfoldable pub tidy_next : List Node → At → Outcome At
  unfolding maybe_merge_with_adjacents back_prev
  tidy_next [] z = done z
  tidy_next (next ∷ after) z = do
    m ←
        maybe_merge_with_adjacents heap_start heap_end
          (record z { before = z.node ∷ z.before; node = next; after = after })
    back_prev m.before m

  -- The allocation of `size` bytes at `dst`: the heap, the pointer and the number of bytes cleared.
  unfoldable pub alloc_at : ℕ → ℕ → ℕ → At → Outcome (Heap × Option (ℕ × ℕ))
  unfolding split_rest take_node tidy_prev tidy_next verify_stats leave
  alloc_at dst size align z = do
    (z1, taken) ← split_rest dst size align z
    z2 ← take_node dst taken z1
    z3 ← tidy_prev z2.before z2
    z4 ← tidy_next z3.after z3
    checked ← verify_stats heap_start heap_end (leave z4)
    done (leave z4, some (add32 z4.node.addr node_header, taken))

  unfoldable pub alloc_fit :
      Option ℕ → ℕ → ℕ → At → Outcome (Heap × Option (ℕ × ℕ)) → Outcome (Heap × Option (ℕ × ℕ))
  unfolding alloc_at
  alloc_fit none size align z next = next
  alloc_fit (some dst) size align z next = alloc_at dst size align z

  -- The loop of `alloc`, with the nodes passed, nearest first, and those left.
  unfoldable pub alloc_loop :
      ℕ → ℕ → List Node → List Node → Counters → Outcome (Heap × Option (ℕ × ℕ))
  unfolding alloc_fit fit_node verify_node
  alloc_loop size align before [] c = done (record { nodes = unwind before []; counters = c }, none)
  alloc_loop size align before (n ∷ ns) c =
      let next = alloc_loop size align (n ∷ before) ns c in
      if not (verify_node (head? before) n (head? ns))
      then panic
      else if n.used
      then next
      else alloc_fit (fit_node n.addr ns size align) size align
          (record { before = before; node = n; after = ns; counters = c }) next

  -- The size is rounded up to the alignment of a node and is not 0.
  unfoldable pub round_size : ℕ → ℕ
  unfolding align_up
  round_size size = if align_up size node_align == 0 then node_align else align_up size node_align

  -- `alloc`: the pointer, `none` for null, and the number of bytes behind it that are cleared.
  unfoldable pub alloc : ℕ → ℕ → Heap → Outcome (Heap × Option (ℕ × ℕ))
  unfolding alloc_loop round_size round_align max_of
  alloc size align h =
      alloc_loop (round_size size) (round_align (max_of align node_align)) [] h.nodes h.counters

  -- `init`: one free node at the start of the heap, before any counting.
  unfoldable pub init : Outcome Heap
  unfolding insert_node leave
  init = do
    z ←
        insert_node heap_start [] [] false
          (record { total_allocated = 0; total_hole_size = 0; total_overhead = 0 })
    done (leave z)
