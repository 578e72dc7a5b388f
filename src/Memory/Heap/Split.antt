-- ===== src/Memory/Heap/Split.antt =====
-- How `alloc` of src/kernel/src/memory/kernel-heap.cc splits off what an allocation leaves of a node.
use rikai_os.Base.{
  ℕ, refl, ap, inl, inr, true, false, some, List, [], arith, if◌then◌else◌, ◌+◌, ◌-◌, ◌≤◌, ◌<◌, ◌≡◌,
  ◌∙◌, ◌⊎◌, ◌∷◌, ltb, leb, if-true, if-false, ==_refl, Bool-cases, u32_mod, add32, sub32,
}
use rikai_os.Memory.Heap.{
  Node, Counters, At, Outcome, done, panic, ◌>>=◌, node_header, node_split_threshold, node_size,
  is_last, unwind, leave, verify_stats,
}
use rikai_os.Memory.Heap.Alloc.{
  insert_node, insert_free, create_node, count_hole, is_used, fit_node, is_at, split_off,
  unused_after, split_rest,
}
use rikai_os.Memory.Heap.Shape.{From}
use rikai_os.Memory.Heap.Merge.{Sound, verify_stats-Sound}
use rikai_os.Math.{align_up}
use rikai_os.Memory.Heap.Rest.{end_of, node_size-end, with_rest, with_rest-Sound, fit_node_lem}

module _ (heap_start heap_end : ℕ) (fits : heap_end + 1 < u32_mod) where
  -- The node with the room of the allocation at `dst`, and how many bytes it takes.
  pub record Room (dst size : ℕ) (before : List Node) (n : Node) (after : List Node) (z : At)
      (taken : ℕ) : Type 0 where
    pub sound : Sound heap_start heap_end fits z
    pub same_before : z.before ≡ before
    pub same_node : z.node ≡ n
    pub up_to : dst + node_header + taken ≡ end_of heap_start heap_end fits z.after
    pub enough : size ≤ taken
    pub rest :
        (z.after ≡ after)
        ⊎ ((q : ℕ) × (z.after ≡ record { addr = q; used = false; valid = true } ∷ after))

  insert_free-lem :
      (q : ℕ) (n : Node) (before after : List Node) (c : Counters)
      → insert_free heap_start heap_end q (n ∷ before) after c ≡ record {
        before = n ∷ before;
        node = record { addr = q; used = false; valid = true };
        after = after;
        counters = (with_rest heap_start heap_end fits q n before after c).counters;
      }
  unfolding insert_free create_node count_hole with_rest is_last
  insert_free-lem q n before [] c = refl
  insert_free-lem q n before (m ∷ after) c = refl

  module _ (before : List Node) (n : Node) (after : List Node) (c : Counters)
      (size alignment base : ℕ) (free : n.used ≡ false)
      (sound : Sound heap_start heap_end fits
        (record { before = before; node = n; after = after; counters = c }))
      (aligned : align_up (n.addr + node_header) alignment ≡ base)
      (low : n.addr + node_header ≤ base)
      (high : base + size ≤ end_of heap_start heap_end fits after) where
    abbrev here : At
    here = record { before = before; node = n; after = after; counters = c }

    abbrev dst : ℕ
    dst = base - node_header

    bounds :
        (node_size heap_start heap_end n.addr after + n.addr + node_header
          ≡ end_of heap_start heap_end fits after)
        × (n.addr + node_header ≤ end_of heap_start heap_end fits after)
        × (end_of heap_start heap_end fits after ≤ heap_end + 1)
    bounds = node_size-end heap_start heap_end fits n after sound.after

    unused_after-lem :
        unused_after heap_start heap_end dst size here
        ≡ end_of heap_start heap_end fits after - (base + size)
    unfolding unused_after
    unused_after-lem =
        plain (node_size heap_start heap_end n.addr after) n.addr
          (end_of heap_start heap_end fits after) base size bounds.0 bounds.2 low high
      where
        plain :
            (k a e b s : ℕ)
            → k + a + node_header ≡ e
            → e ≤ heap_end + 1
            → a + node_header ≤ b
            → b + s ≤ e
            → sub32 (sub32 (add32 node_header k) (sub32 (b - node_header) a)) (add32 node_header s)
              ≡ e - (b + s)
        plain k a e b s f g h i = omega (arith, fits)

    abbrev split : At
    split = with_rest heap_start heap_end fits (base + size) n before after c

    insert_node-lem :
        insert_node heap_start heap_end
          (add32 (add32 dst node_header) size)
          (n ∷ before)
          after
          false
          c
        ≡ done (record {
          before = n ∷ before;
          node = record { addr = base + size; used = false; valid = true };
          after = after;
          counters = split.counters;
        })
    unfolding insert_node is_used
    insert_node-lem =
        if-false _ _ free
        ∙ ap (λ q. done (insert_free heap_start heap_end q (n ∷ before) after c))
            {x = add32 (add32 dst node_header) size} {y = base + size}
            (omega (arith, bounds.2, low, high, fits))
        ∙ ap done (insert_free-lem (base + size) n before after c)

    fit_node-same :
        From heap_start heap_end n split.after
        → fit_node heap_start heap_end n.addr split.after size alignment ≡ some dst
    unfolding with_rest end_of
    fit_node-same f =
        fit_node_lem heap_start heap_end fits n split.after size alignment base f aligned
          (omega (arith, low)) (omega (arith, high, bounds.2, fits))
        ∙ if-true {b = leb (base + size) (base + size)} _ _ (ground arith)

    split-Sound :
        base + size + node_header ≤ end_of heap_start heap_end fits after
        → Sound heap_start heap_end fits split
    split-Sound h =
        with_rest-Sound heap_start heap_end fits (base + size) n before after c free sound
          (omega (arith, low)) h

    split_off-done :
        base + size + node_header ≤ end_of heap_start heap_end fits after
        → split_off heap_start heap_end dst size alignment here ≡ done (split, size)
    unfolding split_off is_at with_rest leave unwind
    split_off-done h =
        ap (λ o. o >>= checked_split) insert_node-lem
        ∙ ap
            (λ (o : Outcome (Unit {0})). o >>= λ checked.
              if is_at heap_start heap_end dst
                (fit_node heap_start heap_end n.addr split.after size alignment)
              then done (split, size)
              else panic)
            (verify_stats-Sound heap_start heap_end fits split (split-Sound h))
        ∙ ap (λ o. if is_at heap_start heap_end dst o then done (split, size) else panic)
            (fit_node-same (split-Sound h).after)
        ∙ if-true _ _ (==_refl dst)
      where
        checked_split : At → Outcome (At × ℕ)
        checked_split p = verify_stats heap_start heap_end (leave p) >>= λ checked.
            if is_at heap_start heap_end dst
              (fit_node heap_start heap_end n.addr (p.node ∷ after) size alignment)
            then done (record here { after = p.node ∷ after; counters = p.counters }, size)
            else panic

    -- The rest of the node is split off, or goes to the allocation.
    pub split_rest-Room :
        (z : At) × (taken : ℕ) × (split_rest heap_start heap_end dst size alignment here
          ≡ done (z, taken))
        × Room dst size before n after z taken
    unfolding split_rest with_rest end_of
    split_rest-Room =
        elim (Bool-cases
          (ltb node_split_threshold (end_of heap_start heap_end fits after - (base + size)))) [
            | inl e ↦ (
              split,
              size,
              if-true _ _ (ap (ltb node_split_threshold) unused_after-lem ∙ e)
                  ∙ split_off-done (ground (arith, e)),
              record {
                sound = split-Sound (ground (arith, e));
                same_before = refl;
                same_node = refl;
                up_to = omega (arith, low);
                enough = omega arith;
                rest = inr (base + size, refl);
              },
            )
            | inr e ↦ (
              here,
              size + (end_of heap_start heap_end fits after - (base + size)),
              if-false _ _ (ap (ltb node_split_threshold) unused_after-lem ∙ e)
                  ∙ ap (λ t. done (here, t))
                      (ap (add32 size) unused_after-lem ∙ omega (arith, bounds.2, high, fits)),
              record {
                sound = sound;
                same_before = refl;
                same_node = refl;
                up_to = omega (arith, low, high);
                enough = omega arith;
                rest = inl refl;
              },
            )
          ]
