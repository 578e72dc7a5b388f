-- ===== src/Memory/Heap/Sums.antt =====
-- The counters of src/kernel/src/memory/kernel-heap.cc as sums over the node list, and when `verify_stats`
-- passes.
use rikai_os.Base.{
  ℕ, refl, sym, true, not, List, [], arith, if◌then◌else◌, ◌+◌, ◌-◌, ◌*◌, ◌%◌, ◌≤◌, ◌<◌, ◌≡◌, ◌∙◌,
  ◌&&◌, ◌∷◌, if-true, length, u32_mod, sub32,
}
use rikai_os.Memory.Heap.{
  Node, Counters, node_header, node_size, is_last, count_nodes, first_addr, actual, same_counters,
  verify_stats, unwind, done,
}
use rikai_os.Memory.Heap.Shape.{From, Ordered}

same_counters_lem :
    (c d : Counters)
    → c.total_overhead ≡ d.total_overhead
    → c.total_allocated ≡ d.total_allocated
    → c.total_hole_size ≡ d.total_hole_size
    → same_counters c d ≡ true
unfolding same_counters
same_counters_lem c d e f g = ground arith

module _ (heap_start heap_end : ℕ) where
  -- The bytes in used nodes.
  unfoldable pub allocated : List Node → ℕ
  allocated [] = 0
  allocated (n ∷ ns) =
      (if n.used then node_size heap_start heap_end n.addr ns else 0) + allocated ns

  -- The bytes in free nodes but the last.
  unfoldable pub holes : List Node → ℕ
  holes [] = 0
  holes (n ∷ ns) =
      (if not n.used && not (is_last ns) then node_size heap_start heap_end n.addr ns else 0)
      + holes ns

  -- The bytes before the first node and in headers.
  unfoldable pub overhead : List Node → ℕ
  unfolding first_addr
  overhead ns = (first_addr ns - heap_start) + node_header * length ns

  count_nodes-allocated :
      (ns : List Node) (c : Counters)
      → c.total_allocated < u32_mod
      → (count_nodes heap_start heap_end ns c).total_allocated
        ≡ (c.total_allocated + allocated ns) % u32_mod
  unfolding count_nodes allocated
  count_nodes-allocated [] c h = omega arith
  count_nodes-allocated (n ∷ ns) c h = count_nodes-allocated ns _ (ground arith) ∙ ground arith

  count_nodes-holes :
      (ns : List Node) (c : Counters)
      → c.total_hole_size < u32_mod
      → (count_nodes heap_start heap_end ns c).total_hole_size
        ≡ (c.total_hole_size + holes ns) % u32_mod
  unfolding count_nodes holes
  count_nodes-holes [] c h = omega arith
  count_nodes-holes (n ∷ ns) c h = count_nodes-holes ns _ (ground arith) ∙ ground arith

  count_nodes-overhead :
      (ns : List Node) (c : Counters)
      → c.total_overhead < u32_mod
      → (count_nodes heap_start heap_end ns c).total_overhead
        ≡ (c.total_overhead + node_header * length ns) % u32_mod
  unfolding count_nodes
  count_nodes-overhead [] c h = omega arith
  count_nodes-overhead (n ∷ ns) c h = count_nodes-overhead ns _ (ground arith) ∙ omega arith

  -- The size of a node is the room up to the next one, or to the end of the heap.
  pub node_size-last :
      (a : ℕ)
      → heap_end + 1 < u32_mod
      → a + node_header ≤ heap_end + 1
      → node_size heap_start heap_end a [] + a + node_header ≡ heap_end + 1
  unfolding node_size
  node_size-last a h b = omega arith

  pub node_size-inner :
      (a : ℕ) (m : Node) (ns : List Node)
      → m.addr < u32_mod
      → a + node_header ≤ m.addr
      → node_size heap_start heap_end a (m ∷ ns) + a + node_header ≡ m.addr
  unfolding node_size
  node_size-inner a m ns h b = omega arith

  pub From-lt :
      (n : Node) (ns : List Node)
      → From heap_start heap_end n ns
      → n.addr + node_header ≤ heap_end + 1
  From-lt n [] f = f.1
  From-lt n (m ∷ ns) f = omega (arith, f.1, From-lt m ns f.2)

  -- All sums fit between the first node and the end of the heap.
  pub sums-bound :
      (n : Node) (ns : List Node)
      → heap_end + 1 < u32_mod
      → From heap_start heap_end n ns
      → allocated (n ∷ ns) + holes (n ∷ ns) + node_header * length (n ∷ ns) + n.addr ≤ heap_end + 1
  unfolding allocated holes is_last
  sums-bound n [] h f = ground (arith, node_size-last n.addr h f.1)
  sums-bound n (m ∷ ns) h f =
      let r = sums-bound m ns h f.2 in
      let lt = From-lt m ns f.2 in
      let e = node_size-inner n.addr m ns (omega (arith, lt)) f.1 in ground (arith, r, e)

  -- The counters are the sums.
  pub record Exact (ns : List Node) (c : Counters) : Type 0 where
    pub total_overhead : c.total_overhead ≡ overhead ns
    pub total_allocated : c.total_allocated ≡ allocated ns
    pub total_hole_size : c.total_hole_size ≡ holes ns

  -- `verify_stats` passes when the counters are the sums.
  pub verify_stats-Exact :
      (ns : List Node) (c : Counters)
      → heap_end + 1 < u32_mod
      → Ordered heap_start heap_end ns
      → Exact ns c
      → verify_stats heap_start heap_end (record { nodes = ns; counters = c }) ≡ done tt
  unfolding verify_stats actual overhead first_addr
  verify_stats-Exact [] c h o x = absurd o
  verify_stats-Exact (n ∷ ns) c h o x = if-true _ _ passes
    where
      bound :
          allocated (n ∷ ns) + holes (n ∷ ns) + node_header * length (n ∷ ns) + n.addr
          ≤ heap_end + 1
      bound = sums-bound n ns h o.1

      start : Counters
      start = record {
        total_overhead = sub32 n.addr heap_start;
        total_allocated = 0;
        total_hole_size = 0;
      }

      ohead :
          (sub32 n.addr heap_start + node_header * length (n ∷ ns)) % u32_mod ≡ overhead (n ∷ ns)
      ohead = omega (arith, bound, o.0)

      passes : same_counters (count_nodes heap_start heap_end (n ∷ ns) start) c ≡ true
      passes =
          same_counters_lem _ c
            (count_nodes-overhead (n ∷ ns) start (omega arith) ∙ ohead ∙ sym x.total_overhead)
            (count_nodes-allocated (n ∷ ns) start (omega arith)
              ∙ omega (arith, bound)
              ∙ sym x.total_allocated)
            (count_nodes-holes (n ∷ ns) start (omega arith)
              ∙ omega (arith, bound)
              ∙ sym x.total_hole_size)

  -- Two ends of a list whose sums differ by what is said.
  pub record Shift (r r' : List Node) (a a' b b' l l' : ℕ) : Type 0 where
    pub first : first_addr r ≡ first_addr r'
    pub sizes : (x : ℕ) → node_size heap_start heap_end x r ≡ node_size heap_start heap_end x r'
    pub last : is_last r ≡ is_last r'
    pub allocated_by : allocated r + a ≡ allocated r' + a'
    pub holes_by : holes r + b ≡ holes r' + b'
    pub length_by : length r + l ≡ length r' + l'

  Shift-cons :
      (p : Node) (r r' : List Node) (a a' b b' l l' : ℕ)
      → Shift r r' a a' b b' l l'
      → Shift (p ∷ r) (p ∷ r') a a' b b' l l'
  unfolding node_size first_addr is_last allocated holes
  Shift-cons p r r' a a' b b' l l' s = record {
    first = refl;
    sizes = λ x. refl;
    last = refl;
    allocated_by = ground (arith, s.sizes p.addr, s.allocated_by);
    holes_by = ground (arith, s.sizes p.addr, s.last, s.holes_by);
    length_by = omega (arith, s.length_by);
  }

  -- The same nodes before them change nothing.
  pub Shift-unwind :
      (before : List Node) (r r' : List Node) (a a' b b' l l' : ℕ)
      → Shift r r' a a' b b' l l'
      → Shift (unwind before r) (unwind before r') a a' b b' l l'
  unfolding unwind
  Shift-unwind [] r r' a a' b b' l l' s = s
  Shift-unwind (p ∷ before) r r' a a' b b' l l' s =
      Shift-unwind before (p ∷ r) (p ∷ r') a a' b b' l l' (Shift-cons p r r' a a' b b' l l' s)

  -- The counters follow.
  pub Shift-Exact :
      (r r' : List Node) (a a' b b' l l' : ℕ) (c c' : Counters)
      → Shift r r' a a' b b' l l'
      → Exact r c
      → c.total_allocated + a ≡ c'.total_allocated + a'
      → c.total_hole_size + b ≡ c'.total_hole_size + b'
      → c.total_overhead + node_header * l ≡ c'.total_overhead + node_header * l'
      → Exact r' c'
  unfolding overhead
  Shift-Exact r r' a a' b b' l l' c c' s x p q t = record {
    total_overhead = omega (arith, s.first, s.length_by, x.total_overhead, t);
    total_allocated = omega (arith, s.allocated_by, x.total_allocated, p);
    total_hole_size = omega (arith, s.holes_by, x.total_hole_size, q);
  }
