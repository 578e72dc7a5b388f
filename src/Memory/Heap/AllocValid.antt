-- ===== src/Memory/Heap/AllocValid.antt =====
-- `alloc` of src/kernel/src/memory/kernel-heap.cc, from the first node on: it serves the request or leaves
-- the heap as it is.
use rikai_os.Base.{
  ℕ, refl, sym, ap, inl, inr, true, false, Option, none, some, List, [], arith, if◌then◌else◌, ◌+◌,
  ◌%◌, ◌≤◌, ◌<◌, ◌≡◌, ◌∙◌, ◌⊎◌, ◌∷◌, leb, if-true, if-false, not-false, Bool-cases, u32_mod, add32,
}
use mathlib.Core.Path.{subst}
use rikai_os.Memory.Heap.{
  Node, Counters, Heap, At, Outcome, done, node_header, node_align, node_split_threshold, node_size,
  unwind, leave,
}
use rikai_os.Memory.Heap.Align.{round_align}
use rikai_os.Memory.Heap.Alloc.{alloc, alloc_loop, alloc_fit, fit_node, round_size}
use rikai_os.Memory.Heap.Shape.{used_nodes}
use rikai_os.Memory.Heap.Free.{Valid}
use rikai_os.Memory.Heap.Settle.{Settled, Settled-Valid, next-Settled, verify_node-Settled}
use rikai_os.Memory.Heap.Rest.{end_of, node_size-end, fit_node_lem}
use rikai_os.Memory.Heap.AllocAt.{Placed, alloc_at-Placed}
use rikai_os.Math.{align_up, max_of}
use rikai_os.Math.Rounding.{align_up_least}

module _ (heap_start heap_end : ℕ) (fits : heap_end + 1 < u32_mod) where
  -- No free node holds `size` bytes behind an aligned address.
  abbrev pub Full : ℕ → ℕ → List Node → Type 0
  Full size alignment [] = Unit {0}
  Full size alignment (n ∷ ns) =
      ((n.used ≡ true)
        ⊎ (end_of heap_start heap_end fits ns < align_up (n.addr + node_header) alignment + size))
      × Full size alignment ns

  -- A heap in which the bytes from `p` on belong to a used node `z.node`, without which its used nodes are
  -- those of `used`.
  pub record Served (size alignment : ℕ) (used : List Node) (h : Heap) (p bytes : ℕ) : Type 0 where
    pub z : At
    pub same : leave z ≡ h
    pub in_use : z.node.used ≡ true
    pub pointer : p ≡ z.node.addr + node_header
    pub aligned : p % alignment ≡ 0
    pub all_bytes : bytes ≡ node_size heap_start heap_end z.node.addr z.after
    pub enough : size ≤ bytes
    pub others : used_nodes (unwind z.before z.after) ≡ used

  -- What a call on the heap with these nodes and counters returns, when `left` are still to be tried.
  abbrev pub Answer : ℕ → ℕ → List Node → List Node → Counters → Heap → Option (ℕ × ℕ) → Type 0
  Answer size alignment nodes left c h none =
      (h.nodes ≡ nodes) × (h.counters ≡ c) × Full size alignment left
  Answer size alignment nodes left c h (some (p, bytes)) =
      Valid heap_start heap_end fits h × Served size alignment (used_nodes nodes) h p bytes

  -- One more node that does not serve.
  Answer-more :
      (size alignment : ℕ) (nodes : List Node) (n : Node) (left : List Node) (c : Counters)
      (h : Heap) (o : Option (ℕ × ℕ))
      → (n.used ≡ true)
        ⊎ (end_of heap_start heap_end fits left < align_up (n.addr + node_header) alignment + size)
      → Answer size alignment nodes left c h o
      → Answer size alignment nodes (n ∷ left) c h o
  Answer-more size alignment nodes n left c h none f a = (a.0, a.1, (f, a.2))
  Answer-more size alignment nodes n left c h (some (p, bytes)) f a = a

  Placed-Answer :
      (size alignment base : ℕ) (nodes left : List Node) (c : Counters) (p bytes : ℕ) (z : At)
      → base % alignment ≡ 0
      → Placed heap_start heap_end fits size base (used_nodes nodes) p bytes z
      → Answer size alignment nodes left c (leave z) (some (p, bytes))
  Placed-Answer size alignment base nodes left c p bytes z m a = (
    Settled-Valid heap_start heap_end fits z a.settled,
    record {
      z = z;
      same = refl;
      in_use = a.in_use;
      pointer = a.pointer;
      aligned = ap (λ t. t % alignment) a.at_base ∙ m;
      all_bytes = a.all_bytes;
      enough = a.enough;
      others = a.others;
    },
  )

  module _ (size alignment : ℕ) (positive : 0 < alignment)
      (small : alignment ≤ node_split_threshold)
      (no_wrap : heap_end + 1 + node_split_threshold + size < u32_mod) where
    -- The result of the loop at a node.
    Result : List Node → List Node → Counters → Outcome (Heap × Option (ℕ × ℕ)) → Type 0
    Result nodes left c o =
        (h : Heap) × (a : Option (ℕ × ℕ)) × (o ≡ done (h, a))
        × Answer size alignment nodes left c h a

    alloc_fit-Result :
        (before : List Node) (n : Node) (after : List Node) (c : Counters)
        (next : Outcome (Heap × Option (ℕ × ℕ)))
        → Settled heap_start heap_end fits
            (record { before = before; node = n; after = after; counters = c })
        → n.used ≡ false
        → Result (unwind before (n ∷ after)) after c next
        → Result (unwind before (n ∷ after)) (n ∷ after) c (
            alloc_fit heap_start heap_end
              (fit_node heap_start heap_end n.addr after size alignment)
              size
              alignment
              (record { before = before; node = n; after = after; counters = c })
              next)
    unfolding Result alloc_fit
    alloc_fit-Result before n after c next s f (h, a, e, r) =
        let base : ℕ = align_up (n.addr + node_header) alignment in
        let end = node_size-end heap_start heap_end fits n after s.sound.after in
        let (lo, hi, m) =
          align_up_least (n.addr + node_header) alignment positive
            (omega (arith, end.1, end.2, small, no_wrap)) in
        let fit =
          fit_node_lem heap_start heap_end fits n after size alignment base s.sound.after refl
            (omega (arith, lo)) (omega (arith, end.1, end.2, hi, small, no_wrap)) in
        elim (Bool-cases (leb (base + size) (end_of heap_start heap_end fits after))) [
          | inl l ↦
              let (z, k, g, p) =
                alloc_at-Placed heap_start heap_end fits before n after c size alignment base f s
                  refl lo (omega (arith, hi, small)) (ground (arith, l)) in
              (
                leave z,
                some (add32 z.node.addr node_header, k),
                ap
                      (λ o.
                        alloc_fit heap_start heap_end o size alignment
                          (record { before = before; node = n; after = after; counters = c }) next)
                      (fit ∙ if-true _ _ l)
                    ∙ g,
                Placed-Answer size alignment base (unwind before (n ∷ after)) (n ∷ after) c _ k z m
                    p,
              )
          | inr l ↦ (
            h,
            a,
            ap
                  (λ o.
                    alloc_fit heap_start heap_end o size alignment
                      (record { before = before; node = n; after = after; counters = c }) next)
                  (fit ∙ if-false _ _ l)
                ∙ e,
            Answer-more size alignment (unwind before (n ∷ after)) n after c h a
                (inr (ground (arith, l))) r,
          )
        ]

    at_node_Result :
        (before : List Node) (n : Node) (after : List Node) (c : Counters)
        (next : Outcome (Heap × Option (ℕ × ℕ)))
        → Settled heap_start heap_end fits
            (record { before = before; node = n; after = after; counters = c })
        → Result (unwind before (n ∷ after)) after c next
        → Result (unwind before (n ∷ after)) (n ∷ after) c (
            if n.used
            then next
            else alloc_fit heap_start heap_end
                (fit_node heap_start heap_end n.addr after size alignment)
                size
                alignment
                (record { before = before; node = n; after = after; counters = c })
                next)
    unfolding Result
    at_node_Result before n after c next s r = elim (Bool-cases n.used) [
      | inl u ↦
          subst (Result (unwind before (n ∷ after)) (n ∷ after) c) (sym (if-true _ _ u))
            (used_Result u r)
      | inr u ↦
          subst (Result (unwind before (n ∷ after)) (n ∷ after) c) (sym (if-false _ _ u))
            (alloc_fit-Result before n after c next s u r)
    ]
      where
        used_Result :
            n.used ≡ true
            → Result (unwind before (n ∷ after)) after c next
            → Result (unwind before (n ∷ after)) (n ∷ after) c next
        used_Result u (h, a, e, t) = (
          h,
          a,
          e,
          Answer-more size alignment (unwind before (n ∷ after)) n after c h a (inl u) t,
        )

    alloc_loop-Result :
        (before : List Node) (n : Node) (after : List Node) (c : Counters)
        → Settled heap_start heap_end fits
            (record { before = before; node = n; after = after; counters = c })
        → Result
            (unwind before (n ∷ after))
            (n ∷ after)
            c
            (alloc_loop heap_start heap_end size alignment before (n ∷ after) c)
    unfolding alloc_loop Result unwind
    alloc_loop-Result before n [] c s =
        subst (Result (unwind before (n ∷ [])) (n ∷ []) c)
          (sym (if-false _ _ (not-false (verify_node-Settled heap_start heap_end fits _ s))))
          (at_node_Result before n [] c _ s (_, none, refl, (refl, refl, tt)))
    alloc_loop-Result before n (m ∷ after) c s =
        subst (Result (unwind before (n ∷ m ∷ after)) (n ∷ m ∷ after) c)
          (sym (if-false _ _ (not-false (verify_node-Settled heap_start heap_end fits _ s))))
          (at_node_Result before n (m ∷ after) c _ s (
            alloc_loop-Result (n ∷ before) m after c
              (next-Settled heap_start heap_end fits before n m after c s)))

  whole_Result :
      (size alignment : ℕ)
      → 0 < alignment
      → alignment ≤ node_split_threshold
      → heap_end + 1 + node_split_threshold + size < u32_mod
      → (nodes : List Node) (c : Counters)
      → Valid heap_start heap_end fits (record { nodes = nodes; counters = c })
      → (h : Heap) × (a : Option (ℕ × ℕ)) × (alloc_loop heap_start heap_end size alignment [] nodes
            c
          ≡ done (h, a))
        × Answer size alignment nodes nodes c h a
  unfolding Result unwind
  whole_Result size alignment i j k [] c v = absurd v.ordered
  whole_Result size alignment i j k (n ∷ ns) c v =
      alloc_loop-Result size alignment i j k [] n ns c (record {
        sound = record { before = v.ordered.0; after = v.ordered.1; exact = v.exact };
        apart_before = tt;
        apart_after = v.apart;
      })

  -- For a rounded alignment from 1 to 44 bytes, and where the last address of the heap, the rounded size and
  -- 45 sum up to less than 2 ^ 32, `alloc` on a valid heap does not panic. Either it returns null, the heap is as before, and no free node holds the rounded size behind
  -- an aligned address; or the heap is valid again and the pointer is aligned and is that of a used node
  -- with at least that many bytes, all of which are cleared, and the other used nodes are those of before.
  pub alloc-Valid :
      (size align : ℕ) (h : Heap)
      → Valid heap_start heap_end fits h
      → 0 < round_align (max_of align node_align)
      → round_align (max_of align node_align) ≤ node_split_threshold
      → heap_end + 1 + node_split_threshold + round_size heap_start heap_end size < u32_mod
      → (h' : Heap) × (answer : Option (ℕ × ℕ)) × (alloc heap_start heap_end size align h
          ≡ done (h', answer))
        × Answer
            (round_size heap_start heap_end size)
            (round_align (max_of align node_align))
            h.nodes
            h.nodes
            h.counters
            h'
            answer
  unfolding alloc
  alloc-Valid size align h v i j k =
      whole_Result (round_size heap_start heap_end size) (round_align (max_of align node_align)) i j
        k h.nodes h.counters v
