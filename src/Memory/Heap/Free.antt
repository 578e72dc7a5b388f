-- ===== src/Memory/Heap/Free.antt =====
-- `free` of src/kernel/src/memory/kernel-heap.cc, of any node but the last: it succeeds and keeps the heap
-- valid.
use rikai_os.Base.{
  ℕ, refl, sym, ap, true, false, some, List, [], arith, ◌+◌, ◌≤◌, ◌<◌, ◌≡◌, ◌∙◌, ◌∷◌, ltb, if-false,
  u32_mod, add32, sub32,
}
use mathlib.Core.Path.{subst}
use rikai_os.Memory.Heap.{
  Node, Counters, Heap, At, Outcome, done, ◌>>=◌, node_header, unwind, leave, verify_stats, release,
  locate, free_node, free_found, free,
}
use rikai_os.Memory.Heap.Shape.{
  Before, From, Ordered, unwind-Ordered, locate-kept, ApartBefore, ApartFrom, Apart, unwind-Apart,
  used_nodes, used_nodes-unwind, used_nodes-free,
}
use rikai_os.Memory.Heap.Sums.{Exact, From-lt}
use rikai_os.Memory.Heap.FreeLast.{locate-leave}
use rikai_os.Memory.Heap.Merge.{Sound}
use rikai_os.Memory.Heap.Tidy.{Tidy, maybe_merge-Tidy, passes}
use rikai_os.Memory.Heap.Release.{release-Sound, first_valid, checks_pass}

module _ (heap_start heap_end : ℕ) (fits : heap_end + 1 < u32_mod) where
  -- A heap whose nodes are in order and apart, with the right counters.
  pub record Valid (h : Heap) : Type 0 where
    pub ordered : Ordered heap_start heap_end h.nodes
    pub apart : Apart h.nodes
    pub exact : Exact heap_start heap_end h.nodes h.counters

  pub Tidy-Valid :
      (used : List Node) (z : At) → Tidy heap_start heap_end fits used z → Valid (leave z)
  unfolding leave
  Tidy-Valid used z t = record {
    ordered =
        unwind-Ordered heap_start heap_end z.before z.node z.after t.sound.before t.sound.after;
    apart =
        unwind-Apart z.before z.node z.after
          (subst (ApartBefore z.before) (sym t.free) t.apart_before)
          (subst (λ b. ApartFrom b z.after) (sym t.free) t.apart_after);
    exact = t.sound.exact;
  }

  free_node-Valid :
      (before : List Node) (n m : Node) (after : List Node) (c : Counters)
      → Sound heap_start heap_end fits
          (record { before = before; node = n; after = m ∷ after; counters = c })
      → n.used ≡ true
      → ApartBefore before true
      → ApartFrom true (m ∷ after)
      → (h : Heap) × (free_node heap_start heap_end
            (record { before = before; node = n; after = m ∷ after; counters = c })
          ≡ done h)
        × Valid h
        × (used_nodes h.nodes ≡ used_nodes (unwind before (m ∷ after)))
  unfolding free_node release leave
  free_node-Valid before n m after c s u b a =
      let n' : Node = record n { used = false } in
      let (z, e, t) =
        maybe_merge-Tidy heap_start heap_end fits (used_nodes (unwind before (m ∷ after))) before n'
          (m ∷ after) _
          (used_nodes-unwind before (n' ∷ m ∷ after) (m ∷ after)
            (used_nodes-free n' (m ∷ after) refl))
          (release-Sound heap_start heap_end fits before n m after c s u) refl b a in
      (
        leave z,
        if-false _ _ (
              checks_pass heap_start heap_end fits
                (record { before = before; node = n; after = m ∷ after; counters = c }) s u)
            ∙ ap (λ o. o >>= finish) e
            ∙ passes heap_start heap_end fits z _ t.sound,
        Tidy-Valid _ z t,
        t.same_used,
      )
    where
      finish : At → Outcome Heap
      finish z = verify_stats heap_start heap_end (leave z) >>= λ checked. done (leave z)

  Before-ge : (b : List Node) (a : ℕ) → Before heap_start heap_end b a → heap_start ≤ a
  Before-ge [] a h = h
  Before-ge (p ∷ b) a h = omega (arith, h.1, Before-ge b p.addr h.2)

  -- In order and apart, seen from a node.
  InPlace : List Node → Node → List Node → Type 0
  InPlace b n ns =
      Before heap_start heap_end b n.addr
      × From heap_start heap_end n ns
      × ApartBefore b n.used
      × ApartFrom n.used ns

  InPlace-next :
      (b : List Node) (n m : Node) (ns : List Node) → InPlace b n (m ∷ ns) → InPlace (n ∷ b) m ns
  unfolding InPlace
  InPlace-next b n m ns (lo, hi, bef, aft) =
      ((first_valid heap_start heap_end fits n (m ∷ ns) hi, hi.1, lo), hi.2, (aft.0, bef), aft.1)

  located :
      (a : ℕ) (ns : List Node) (c : Counters) (z : At)
      → Ordered heap_start heap_end ns
      → Apart ns
      → locate a [] ns c ≡ some z
      → InPlace z.before z.node z.after
  unfolding InPlace
  located a [] c z o p e = absurd o
  located a (n ∷ ns) c z o p e = locate-kept InPlace InPlace-next a [] n ns c z (o.0, o.1, tt, p) e

  free-found :
      (z : At) (m : Node) (after : List Node) (h : Heap)
      → Valid h
      → z.after ≡ m ∷ after
      → z.node.used ≡ true
      → InPlace z.before z.node z.after
      → leave z ≡ h
      → (h' : Heap) × (free_node heap_start heap_end z ≡ done h')
        × Valid h'
        × (used_nodes h'.nodes ≡ used_nodes (unwind z.before z.after))
  unfolding InPlace leave
  free-found z m after h v e u (lo, hi, bef, aft) l =
      let w : At = record {
        before = z.before;
        node = z.node;
        after = m ∷ after;
        counters = z.counters;
      } in
      let same : z ≡ w =
        ap (λ t. record { before = z.before; node = z.node; after = t; counters = z.counters }) e in
      let (h', f, v', us) =
        free_node-Valid z.before z.node m after z.counters
          (record {
            before = lo;
            after = subst (From heap_start heap_end z.node) e hi;
            exact =
                subst (λ (t : Heap). Exact heap_start heap_end t.nodes t.counters)
                  (sym l ∙ ap leave same) v.exact;
          })
          u (subst (ApartBefore z.before) u bef)
          (subst (λ t. ApartFrom true t) e (subst (λ b. ApartFrom b z.after) u aft)) in
      (
        h',
        ap (free_node heap_start heap_end) same ∙ f,
        v',
        us ∙ ap (λ t. used_nodes (unwind z.before t)) (sym e),
      )

  -- In a valid heap, `free` of a pointer to the bytes of a used node that is not the last does not panic:
  -- it leaves a valid heap, in which exactly that node is no longer in use.
  pub free-Valid :
      (h : Heap) (z : At) (m : Node) (after : List Node)
      → Valid h
      → locate z.node.addr [] h.nodes h.counters ≡ some z
      → z.node.used ≡ true
      → z.after ≡ m ∷ after
      → (h' : Heap) × (free heap_start heap_end (z.node.addr + node_header) h ≡ done h')
        × Valid h'
        × (used_nodes h'.nodes ≡ used_nodes (unwind z.before z.after))
  unfolding free free_found InPlace unwind
  free-Valid h z m after v l u e =
      let place = located z.node.addr h.nodes h.counters z v.ordered v.apart l in
      let low = Before-ge z.before z.node.addr place.0 in
      let high = From-lt heap_start heap_end z.node z.after place.1 in
      let (h', f, v', us) =
        free-found z m after h v e u place (locate-leave z.node.addr [] h.nodes h.counters l) in
      (
        h',
        if-false {b = ltb (z.node.addr + node_header) (add32 heap_start node_header)} _ _
              (ground (arith, low, high, fits))
            ∙ ap (λ a. free_found heap_start heap_end (locate a [] h.nodes h.counters))
                {x = sub32 (z.node.addr + node_header) node_header} {y = z.node.addr}
                (omega (arith, high, fits))
            ∙ ap (free_found heap_start heap_end) l
            ∙ f,
        v',
        us,
      )
