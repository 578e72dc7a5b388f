-- ===== src/Memory/Heap.antt =====
-- src/kernel/src/memory/kernel-heap.cc: the kernel heap, a list of nodes, each before the bytes that it
-- manages. The list is the sequence of its nodes; a node's `prev` and `next` are its neighbours.
-- A function that works at a node has the nodes before it, nearest first, and those behind it.
use rikai_os.Base.{
  ℕ, Bool, true, false, not, Option, none, some, List, [], if◌then◌else◌, ◌+◌, ◌&&◌, ◌||◌, ◌∷◌,
  ◌==◌, ltb, leb, add32, sub32, head?,
}
use rikai_os.Math.{align_up, max_of}
pub mod Align
pub mod Alloc
pub mod FreeLast
pub mod Shape
pub mod Sums
pub mod Merge
pub mod Tidy
pub mod Release
pub mod Free
pub mod Rest
pub mod Split
pub mod Moved
pub mod Take
pub mod Settle
pub mod AllocAt
pub mod AllocValid
mod Tests

-- `sizeof(node_t)` and `alignof(node_t)`: two 32-bit pointers, a bool and three chars.
abbrev pub node_header : ℕ
node_header = 12

abbrev pub node_align : ℕ
node_align = 4

abbrev pub node_split_threshold : ℕ
node_split_threshold = node_header + 32

-- `node_t`; `valid` says that its sentinel has the right value.
pub record Node : Type 0 where
  pub addr : ℕ
  pub used : Bool
  pub valid : Bool

pub record Counters : Type 0 where
  pub total_allocated : ℕ
  pub total_hole_size : ℕ
  pub total_overhead : ℕ

pub record Heap : Type 0 where
  pub nodes : List Node
  pub counters : Counters

-- The heap seen from one of its nodes.
pub record At : Type 0 where
  pub before : List Node
  pub node : Node
  pub after : List Node
  pub counters : Counters

-- A panic stops the machine.
pub data Outcome {ℓ} (A : Type ℓ) : Type ℓ where
  done : A → Outcome A
  panic : Outcome A

infixl 5 ◌>>=◌
abbrev pub ◌>>=◌ {ℓ κ} : {A : Type ℓ} {B : Type κ} → Outcome A → (A → Outcome B) → Outcome B
done a >>= f = f a
panic >>= f = panic

-- The nodes of the list when those of `before` come first, in reverse.
unfoldable pub unwind : List Node → List Node → List Node
unwind [] rest = rest
unwind (p ∷ before) rest = unwind before (p ∷ rest)

unfoldable pub leave : At → Heap
unfolding unwind
leave z = record { nodes = unwind z.before (z.node ∷ z.after); counters = z.counters }

unfoldable pub is_free : Option Node → Bool
is_free none = false
is_free (some n) = not n.used

pub not_after : Node → Option Node → Bool
not_after n none = false
not_after n (some m) = leb m.addr n.addr

pub not_before : Node → Option Node → Bool
not_before n none = false
not_before n (some m) = leb n.addr m.addr

unfoldable pub verify_node : Option Node → Node → Option Node → Bool
unfolding is_free not_after not_before
verify_node prev node next = not (
    not node.valid
    || not node.used && (is_free prev || is_free next)
    || not_after node next
    || not_before node prev)

unfoldable pub is_last : List Node → Bool
is_last [] = true
is_last (m ∷ after) = false

unfoldable pub first_addr : List Node → ℕ
first_addr [] = 0
first_addr (n ∷ ns) = n.addr

same_counters : Counters → Counters → Bool
same_counters c d =
    c.total_overhead == d.total_overhead
    && c.total_allocated == d.total_allocated
    && c.total_hole_size == d.total_hole_size

-- The heap seen from the node at the address `a`.
unfoldable pub locate : ℕ → List Node → List Node → Counters → Option At
locate a before [] c = none
locate a before (n ∷ ns) c =
    let rest = locate a (n ∷ before) ns c in
    if n.addr == a
    then some (record { before = before; node = n; after = ns; counters = c })
    else rest

-- `heap_start` and `heap_end`, the first and the last address of the heap.
module _ (heap_start heap_end : ℕ) where
  -- The usable bytes of the node at `a`.
  unfoldable pub node_size : ℕ → List Node → ℕ
  node_size a [] = add32 (sub32 heap_end (add32 a node_header)) 1
  node_size a (m ∷ after) = sub32 m.addr (add32 a node_header)

  -- The loop of `verify_stats`.
  count_nodes : List Node → Counters → Counters
  unfolding node_size is_last
  count_nodes [] c = c
  count_nodes (n ∷ ns) c = count_nodes ns (record {
    total_overhead = add32 c.total_overhead node_header;
    total_allocated =
        (if n.used then add32 c.total_allocated (node_size n.addr ns) else c.total_allocated);
    total_hole_size =
        (if not n.used && not (is_last ns)
          then add32 c.total_hole_size (node_size n.addr ns)
          else c.total_hole_size);
  })

  unfoldable pub actual : List Node → Counters
  unfolding count_nodes first_addr
  actual ns = count_nodes ns (record {
    total_overhead = sub32 (first_addr ns) heap_start;
    total_allocated = 0;
    total_hole_size = 0;
  })

  unfoldable pub verify_stats : Heap → Outcome (Unit {0})
  unfolding actual same_counters
  verify_stats h = if same_counters (actual h.nodes) h.counters then done tt else panic

  merge_before : List Node → At → Outcome At
  unfolding node_size is_last
  merge_before [] z = panic
  merge_before (prev ∷ before) z = done (record {
    before = before;
    node = prev;
    after = z.after;
    counters = record {
      total_overhead = sub32 z.counters.total_overhead node_header;
      total_allocated = z.counters.total_allocated;
      total_hole_size =
          (if is_last z.after
            then sub32 z.counters.total_hole_size (node_size prev.addr (z.node ∷ z.after))
            else add32 z.counters.total_hole_size node_header);
    };
  })

  -- `merge_into_prev_block` at `z`; the result stands at the node before. (A null pointer is read if
  -- there is none.)
  unfoldable pub merge_into_prev_block : At → Outcome At
  unfolding merge_before
  merge_into_prev_block z = merge_before z.before z

  -- The first half of `maybe_merge_with_adjacents`: the next node, if it is free, goes into this one.
  merge_next : List Node → At → Outcome At
  unfolding merge_into_prev_block
  merge_next [] z = done z
  merge_next (next ∷ after) z =
      if not next.used
      then merge_into_prev_block
          (record { before = z.node ∷ z.before; node = next; after = after; counters = z.counters })
      else done z

  -- The second half: this node goes into the one before, if that is free.
  merge_prev : List Node → At → Outcome At
  unfolding merge_into_prev_block
  merge_prev [] z = done z
  merge_prev (prev ∷ before) z = if not prev.used then merge_into_prev_block z else done z

  -- `maybe_merge_with_adjacents` from its first merge on.
  unfoldable pub merge_both : At → Outcome At
  unfolding merge_next merge_prev verify_stats leave
  merge_both z = do
    z1 ← merge_next z.after z
    checked ← verify_stats (leave z1)
    z2 ← merge_prev z1.before z1
    checked ← verify_stats (leave z2)
    done z2

  unfoldable pub maybe_merge_with_adjacents : At → Outcome At
  unfolding merge_both verify_stats leave
  maybe_merge_with_adjacents z =
      if z.node.used then done z else do checked ← verify_stats (leave z); merge_both z

  -- What `free` does first to the node that it has found.
  unfoldable pub release : At → At
  unfolding node_size
  release z =
      let size = node_size z.node.addr z.after in
      record z {
        node = record (z.node) { used = false };
        counters = record (z.counters) {
          total_allocated = sub32 z.counters.total_allocated size;
          total_hole_size = add32 z.counters.total_hole_size size;
        };
      }

  unfoldable pub free_node : At → Outcome Heap
  unfolding release maybe_merge_with_adjacents verify_stats leave verify_node
  free_node z =
      if not (verify_node (head? z.before) z.node (head? z.after)) || not z.node.used
      then panic
      else do
        merged ← maybe_merge_with_adjacents (release z)
        checked ← verify_stats (leave merged)
        done (leave merged)

  -- A pointer that no node belongs to leads to memory without a sentinel, so its check fails.
  free_found : Option At → Outcome Heap
  unfolding free_node
  free_found none = panic
  free_found (some z) = free_node z

  unfoldable pub free : ℕ → Heap → Outcome Heap
  unfolding free_found locate
  free p h =
      if ltb p (add32 heap_start node_header)
      then panic
      else free_found (locate (sub32 p node_header) [] h.nodes h.counters)
