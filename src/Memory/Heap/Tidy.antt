-- ===== src/Memory/Heap/Tidy.antt =====
-- Merging a free node of src/kernel/src/memory/kernel-heap.cc with its neighbours.
use rikai_os.Base.{
  ℕ, refl, sym, ap, inl, inr, true, false, List, [], ◌+◌, ◌<◌, ◌≡◌, ◌∙◌, ◌∷◌, if-true, if-false,
  not-true, not-false, Bool-cases, u32_mod,
}
use mathlib.Core.Path.{subst}
use rikai_os.Memory.Heap.{
  Node, Counters, At, Outcome, done, ◌>>=◌, unwind, leave, verify_stats, merge_into_prev_block,
  merge_next, merge_prev, merge_both, maybe_merge_with_adjacents, merge_before,
}
use rikai_os.Memory.Heap.Shape.{
  ApartBefore, ApartFrom, used_nodes, used_nodes-unwind, used_nodes-free, used_nodes-cons,
}
use rikai_os.Memory.Heap.Merge.{Sound, verify_stats-Sound, merged, merge_into_prev_block-Sound}

module _ (heap_start heap_end : ℕ) (fits : heap_end + 1 < u32_mod) where
  -- A sound heap at a free node whose neighbours are used.
  pub record Tidy (used : List Node) (z : At) : Type 0 where
    pub sound : Sound heap_start heap_end fits z
    pub free : z.node.used ≡ false
    pub apart_before : ApartBefore z.before false
    pub apart_after : ApartFrom false z.after
    pub same_used : used_nodes (unwind z.before (z.node ∷ z.after)) ≡ used

  -- What a merge with the next node leaves.
  record Halfway (before used : List Node) (z : At) : Type 0 where
    sound : Sound heap_start heap_end fits z
    free : z.node.used ≡ false
    same_before : z.before ≡ before
    apart_after : ApartFrom false z.after
    same_used : used_nodes (unwind z.before (z.node ∷ z.after)) ≡ used

  merge_next-Halfway :
      (used before : List Node) (n : Node) (after : List Node) (c : Counters)
      → used_nodes (unwind before (n ∷ after)) ≡ used
      → Sound heap_start heap_end fits
          (record { before = before; node = n; after = after; counters = c })
      → n.used ≡ false
      → ApartFrom true after
      → (z : At) × (merge_next heap_start heap_end after
            (record { before = before; node = n; after = after; counters = c })
          ≡ done z)
        × Halfway before used z
  unfolding merge_next merge_into_prev_block merge_before merged unwind
  merge_next-Halfway used before n [] c w s f a =
      (_, refl, record { sound = s; free = f; same_before = refl; apart_after = a; same_used = w })
  merge_next-Halfway used before n (m ∷ after) c w s f a = elim (Bool-cases m.used) [
    | inl u ↦ (
      record { before = before; node = n; after = m ∷ after; counters = c },
      if-false _ _ (not-false u),
      record { sound = s; free = f; same_before = refl; apart_after = (u, a.1); same_used = w },
    )
    | inr u ↦ (
      merged heap_start heap_end fits n m before after c,
      if-true _ _ (not-true u),
      record {
        sound =
            merge_into_prev_block-Sound heap_start heap_end fits n m before after c f u (record {
              before = (s.after.0, s.after.1, s.before);
              after = s.after.2;
              exact = s.exact;
            });
        free = f;
        same_before = refl;
        apart_after = subst (λ b. ApartFrom b after) u a.1;
        same_used =
            used_nodes-unwind before (n ∷ after) (n ∷ m ∷ after)
              (used_nodes-cons n after (m ∷ after) (sym (used_nodes-free m after u)))
            ∙ w;
      },
    )
  ]

  merge_prev-Tidy :
      (used before : List Node) (n : Node) (after : List Node) (c : Counters)
      → used_nodes (unwind before (n ∷ after)) ≡ used
      → Sound heap_start heap_end fits
          (record { before = before; node = n; after = after; counters = c })
      → n.used ≡ false
      → ApartBefore before true
      → ApartFrom false after
      → (z : At) × (merge_prev heap_start heap_end before
            (record { before = before; node = n; after = after; counters = c })
          ≡ done z)
        × Tidy used z
  unfolding merge_prev merge_into_prev_block merge_before merged unwind
  merge_prev-Tidy used [] n after c w s f b a =
      (_, refl, record { sound = s; free = f; apart_before = tt; apart_after = a; same_used = w })
  merge_prev-Tidy used (p ∷ before) n after c w s f b a = elim (Bool-cases p.used) [
    | inl u ↦ (
      record { before = p ∷ before; node = n; after = after; counters = c },
      if-false _ _ (not-false u),
      record {
        sound = s;
        free = f;
        apart_before = (rw u refl, b.1);
        apart_after = a;
        same_used = w;
      },
    )
    | inr u ↦ (
      merged heap_start heap_end fits p n before after c,
      if-true _ _ (not-true u),
      record {
        sound = merge_into_prev_block-Sound heap_start heap_end fits p n before after c u f s;
        free = u;
        apart_before = subst (ApartBefore before) u b.1;
        apart_after = a;
        same_used =
            used_nodes-unwind before (p ∷ after) (p ∷ n ∷ after)
              (used_nodes-cons p after (n ∷ after) (sym (used_nodes-free n after f)))
            ∙ w;
      },
    )
  ]

  -- A checked step.
  pub passes :
      {A : Type 0} (z : At) (k : Outcome A)
      → Sound heap_start heap_end fits z
      → (verify_stats heap_start heap_end (leave z) >>= λ checked. k) ≡ k
  passes z k s = ap (λ o. o >>= λ checked. k) (verify_stats-Sound heap_start heap_end fits z s)

  -- At a free node, `maybe_merge_with_adjacents` passes its checks and leaves no free neighbours.
  pub maybe_merge-Tidy :
      (used before : List Node) (n : Node) (after : List Node) (c : Counters)
      → used_nodes (unwind before (n ∷ after)) ≡ used
      → Sound heap_start heap_end fits
          (record { before = before; node = n; after = after; counters = c })
      → n.used ≡ false
      → ApartBefore before true
      → ApartFrom true after
      → (z : At) × (maybe_merge_with_adjacents heap_start heap_end
            (record { before = before; node = n; after = after; counters = c })
          ≡ done z)
        × Tidy used z
  unfolding maybe_merge_with_adjacents merge_both
  maybe_merge-Tidy used before n after c w s f b a =
      let z : At = record { before = before; node = n; after = after; counters = c } in
      let (z1, e1, h) = merge_next-Halfway used before n after c w s f a in
      let (z2, e2, t) =
        merge_prev-Tidy used z1.before z1.node z1.after z1.counters h.same_used h.sound h.free
          (subst (λ l. ApartBefore l true) (sym h.same_before) b) h.apart_after in
      (
        z2,
        if-false _ _ f
            ∙ passes z _ s
            ∙ ap (λ o. o >>= after_next) e1
            ∙ passes z1 _ h.sound
            ∙ ap (λ o. o >>= after_prev) e2
            ∙ passes z2 _ t.sound,
        t,
      )
    where
      after_prev : At → Outcome At
      after_prev z2 = verify_stats heap_start heap_end (leave z2) >>= λ checked. done z2

      after_next : At → Outcome At
      after_next z1 = verify_stats heap_start heap_end (leave z1) >>= λ checked.
          merge_prev heap_start heap_end z1.before z1 >>= after_prev
