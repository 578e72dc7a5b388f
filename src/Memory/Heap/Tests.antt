-- ===== src/Memory/Heap/Tests.antt =====
-- Runs of the heap, and its theorems at concrete heaps.
use rikai_os.Base.{ℕ, refl, true, false, Option, none, some, List, [], arith, ◌≡◌, ◌∷◌, length}
use rikai_os.Memory.Heap.{
  Node, Heap, Outcome, done, panic, ◌>>=◌, free, verify_stats, locate, node_size, unwind, is_last,
  first_addr,
}
use rikai_os.Memory.Heap.Align.{round_align}
use rikai_os.Memory.Heap.Alloc.{alloc, init, round_size}
use rikai_os.Math.{max_of}
use rikai_os.Memory.Heap.FreeLast.{free-last}
use rikai_os.Memory.Heap.Shape.{used_nodes}
use rikai_os.Memory.Heap.Sums.{allocated, holes, overhead}
use rikai_os.Memory.Heap.Free.{Valid, free-Valid}
use rikai_os.Memory.Heap.AllocValid.{Answer, alloc-Valid}

abbrev ptr : Option (ℕ × ℕ) → ℕ
ptr none = 0
ptr (some (p, n)) = p

abbrev summary : Heap → List ℕ → List ℕ
summary h ps =
    length h.nodes
    ∷ h.counters.total_allocated
    ∷ h.counters.total_hole_size
    ∷ h.counters.total_overhead
    ∷ ps

-- Three allocations in a heap of 61440 bytes; the last fills the hole that alignment left.
three_allocations : Outcome (List ℕ)
unfolding alloc init free
three_allocations = do
  h ← init 4096 65535
  (h1, p1) ← alloc 4096 65535 100 16 h
  (h2, p2) ← alloc 4096 65535 100 4096 h1
  (h3, p3) ← alloc 4096 65535 8 4 h2
  h4 ← free 4096 65535 (ptr p1) h3
  h5 ← free 4096 65535 (ptr p2) h4
  h6 ← free 4096 65535 (ptr p3) h5
  done (summary h6 (ptr p1 ∷ ptr p2 ∷ ptr p3 ∷ []))

three_allocations_runs : three_allocations ≡ done (1 ∷ 0 ∷ 0 ∷ 16 ∷ 4112 ∷ 8192 ∷ 4224 ∷ [])
unfolding three_allocations
three_allocations_runs = refl

-- An allocation that leaves too little to split takes the rest of the heap, and cannot be freed.
take_all : Outcome Heap
unfolding alloc init
take_all = do h ← init 4096 4295; (h1, p1) ← alloc 4096 4295 150 4 h; done h1

abbrev only_node : Node
only_node = record { addr = 4096; used = true; valid = true }

abbrev full : Heap
full = record {
  nodes = only_node ∷ [];
  counters = record { total_allocated = 188; total_hole_size = 0; total_overhead = 12 };
}

take_all_runs : take_all ≡ done full
unfolding take_all
take_all_runs = refl

free-last_example : free 4096 4295 4108 full ≡ panic
unfolding verify_stats locate node_size
free-last_example =
    free-last 4096 4295 4108 full [] only_node full.counters refl refl (omega arith) (omega arith)

round_align_test :
    ((round_align 6) ≡ 8) × (((round_align 4096) ≡ 4096) × ((round_align 4097) ≡ 8192))
unfolding round_align
round_align_test = (refl, (refl, refl))

-- One allocation of 100 bytes in a heap of 61440 bytes.
abbrev one_used : Node
one_used = record { addr = 4096; used = true; valid = true }

abbrev last_free : Node
last_free = record { addr = 4208; used = false; valid = true }

abbrev one_allocation : Heap
one_allocation = record {
  nodes = one_used ∷ last_free ∷ [];
  counters = record { total_allocated = 100; total_hole_size = 0; total_overhead = 24 };
}

one_allocation-Valid : Valid 4096 65535 (omega arith) one_allocation
unfolding allocated holes overhead node_size is_last first_addr
one_allocation-Valid = record {
  ordered = (omega arith, (refl, omega arith, (refl, omega arith)));
  apart = (refl, tt);
  exact = record { total_overhead = refl; total_allocated = refl; total_hole_size = refl };
}

free-Valid_example :
    (h' : Heap) × (free 4096 65535 4108 one_allocation ≡ done h')
    × Valid 4096 65535 (omega arith) h'
    × (used_nodes h'.nodes ≡ [])
unfolding locate used_nodes unwind
free-Valid_example =
    free-Valid 4096 65535 (omega arith) one_allocation
      (record {
        before = [];
        node = one_used;
        after = last_free ∷ [];
        counters = one_allocation.counters;
      })
      last_free [] one_allocation-Valid refl refl refl

alloc-Valid_example :
    (h' : Heap) × (answer : Option (ℕ × ℕ)) × (alloc 4096 65535 30 16 one_allocation
      ≡ done (h', answer))
    × Answer 4096 65535
        (omega arith)
        32
        16
        one_allocation.nodes
        one_allocation.nodes
        one_allocation.counters
        h'
        answer
unfolding round_align round_size max_of
alloc-Valid_example =
    alloc-Valid 4096 65535 (omega arith) 30 16 one_allocation one_allocation-Valid (omega arith)
      (omega arith) (omega arith)
