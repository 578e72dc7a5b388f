-- ===== src/Memory/Heap/Settle.antt =====
-- `maybe_merge_with_adjacents` of src/kernel/src/memory/kernel-heap.cc at a node without free neighbours
-- to merge with, and the two calls of it that end `alloc`.
use rikai_os.Base.{
  ℕ, refl, ap, inl, inr, Bool, true, false, not, List, [], arith, ◌+◌, ◌<◌, ◌≡◌, ◌∙◌, ◌&&◌, ◌||◌,
  ◌∷◌, if-true, if-false, not-false, Bool-cases, u32_mod, head?,
}
use mathlib.Core.Path.{subst}
use rikai_os.Memory.Heap.{
  Node, Counters, At, Outcome, done, ◌>>=◌, unwind, leave, verify_stats, verify_node, is_free,
  merge_next, merge_prev, merge_both, maybe_merge_with_adjacents,
}
use rikai_os.Memory.Heap.Alloc.{tidy_prev, tidy_next, back_next, back_prev}
use rikai_os.Memory.Heap.Shape.{unwind-Ordered, ApartBefore, ApartFrom, unwind-Apart}
use rikai_os.Memory.Heap.Merge.{Sound}
use rikai_os.Memory.Heap.Tidy.{passes}
use rikai_os.Memory.Heap.Release.{first_valid, not_after-From, not_before-Before}
use rikai_os.Memory.Heap.Free.{Valid}

module _ (heap_start heap_end : ℕ) (fits : heap_end + 1 < u32_mod) where
  -- A sound heap at a node, no two free nodes of which are neighbours.
  pub record Settled (z : At) : Type 0 where
    pub sound : Sound heap_start heap_end fits z
    pub apart_before : ApartBefore z.before z.node.used
    pub apart_after : ApartFrom z.node.used z.after

  pub Settled-Valid : (z : At) → Settled z → Valid heap_start heap_end fits (leave z)
  unfolding leave
  Settled-Valid z s = record {
    ordered =
        unwind-Ordered heap_start heap_end z.before z.node z.after s.sound.before s.sound.after;
    apart = unwind-Apart z.before z.node z.after s.apart_before s.apart_after;
    exact = s.sound.exact;
  }

  merge_next-same :
      (z : At) (after : List Node)
      → ApartFrom false after
      → merge_next heap_start heap_end after z ≡ done z
  unfolding merge_next
  merge_next-same z [] a = refl
  merge_next-same z (m ∷ after) a = if-false _ _ (not-false a.0)

  merge_prev-same :
      (z : At) (before : List Node)
      → ApartBefore before false
      → merge_prev heap_start heap_end before z ≡ done z
  unfolding merge_prev
  merge_prev-same z [] a = refl
  merge_prev-same z (p ∷ before) a = if-false _ _ (not-false (or_false p.used a.0))
    where
      or_false : (b : Bool) → (b || false) ≡ true → b ≡ true
      or_false true e = refl
      or_false false e = e

  -- Nothing is merged.
  maybe_merge-same :
      (z : At) → Settled z → maybe_merge_with_adjacents heap_start heap_end z ≡ done z
  unfolding maybe_merge_with_adjacents merge_both
  maybe_merge-same z s = elim (Bool-cases z.node.used) [
    | inl u ↦ if-true _ _ u
    | inr u ↦
        if-false _ _ u
        ∙ passes heap_start heap_end fits z _ s.sound
        ∙ ap (λ o. o >>= after_next)
            (merge_next-same z z.after (subst (λ b. ApartFrom b z.after) u s.apart_after))
        ∙ passes heap_start heap_end fits z _ s.sound
        ∙ ap (λ o. o >>= after_prev)
            (merge_prev-same z z.before (subst (ApartBefore z.before) u s.apart_before))
        ∙ passes heap_start heap_end fits z _ s.sound
  ]
    where
      after_prev : At → Outcome At
      after_prev z2 = verify_stats heap_start heap_end (leave z2) >>= λ checked. done z2

      after_next : At → Outcome At
      after_next z1 = verify_stats heap_start heap_end (leave z1) >>= λ checked.
          merge_prev heap_start heap_end z1.before z1 >>= after_prev

  pub back-Settled :
      (p : Node) (before : List Node) (n : Node) (after : List Node) (c : Counters)
      → Settled (record { before = p ∷ before; node = n; after = after; counters = c })
      → Settled (record { before = before; node = p; after = n ∷ after; counters = c })
  unfolding unwind
  back-Settled p before n after c s = record {
    sound = record {
      before = s.sound.before.2;
      after = (s.sound.before.0, s.sound.before.1, s.sound.after);
      exact = s.sound.exact;
    };
    apart_before = s.apart_before.1;
    apart_after = (s.apart_before.0, s.apart_after);
  }

  pub next-Settled :
      (before : List Node) (n m : Node) (after : List Node) (c : Counters)
      → Settled (record { before = before; node = n; after = m ∷ after; counters = c })
      → Settled (record { before = n ∷ before; node = m; after = after; counters = c })
  unfolding unwind
  next-Settled before n m after c s = record {
    sound = record {
      before = (
        first_valid heap_start heap_end fits n (m ∷ after) s.sound.after,
        s.sound.after.1,
        s.sound.before,
      );
      after = s.sound.after.2;
      exact = s.sound.exact;
    };
    apart_before = (s.apart_after.0, s.apart_before);
    apart_after = s.apart_after.1;
  }

  pub tidy_prev-same :
      (before : List Node) (n : Node) (after : List Node) (c : Counters)
      → Settled (record { before = before; node = n; after = after; counters = c })
      → tidy_prev heap_start heap_end before
          (record { before = before; node = n; after = after; counters = c })
        ≡ done (record { before = before; node = n; after = after; counters = c })
  unfolding tidy_prev back_next
  tidy_prev-same [] n after c s = refl
  tidy_prev-same (p ∷ before) n after c s =
      ap (λ o. o >>= λ m. back_next heap_start heap_end m.after m)
        (maybe_merge-same _ (back-Settled p before n after c s))

  pub tidy_next-same :
      (before : List Node) (n : Node) (after : List Node) (c : Counters)
      → Settled (record { before = before; node = n; after = after; counters = c })
      → tidy_next heap_start heap_end after
          (record { before = before; node = n; after = after; counters = c })
        ≡ done (record { before = before; node = n; after = after; counters = c })
  unfolding tidy_next back_prev
  tidy_next-same before n [] c s = refl
  tidy_next-same before n (m ∷ after) c s =
      ap (λ o. o >>= λ z. back_prev heap_start heap_end z.before z)
        (maybe_merge-same _ (next-Settled before n m after c s))

  next_free :
      (n : Node) (after : List Node)
      → ApartFrom n.used after
      → (not n.used && is_free (head? after)) ≡ false
  unfolding is_free
  next_free n [] a = ground arith
  next_free n (m ∷ after) a = ground (arith, a.0)

  prev_free :
      (n : Node) (before : List Node)
      → ApartBefore before n.used
      → (not n.used && is_free (head? before)) ≡ false
  unfolding is_free
  prev_free n [] a = ground arith
  prev_free n (p ∷ before) a = ground (arith, a.0)

  -- The checks of a node pass.
  pub verify_node-Settled :
      (z : At) → Settled z → verify_node (head? z.before) z.node (head? z.after) ≡ true
  unfolding verify_node
  verify_node-Settled z s =
      all_pass z.node.valid z.node.used _ _ _ _
        (first_valid heap_start heap_end fits z.node z.after s.sound.after)
        (prev_free z.node z.before s.apart_before) (next_free z.node z.after s.apart_after)
        (not_after-From heap_start heap_end fits z.node z.after s.sound.after)
        (not_before-Before heap_start heap_end fits z.node z.before s.sound.before)
    where
      all_pass :
          (v u f g h k : Bool)
          → v ≡ true
          → (not u && f) ≡ false
          → (not u && g) ≡ false
          → h ≡ false
          → k ≡ false
          → not (not v || not u && (f || g) || h || k) ≡ true
      all_pass v u f g h k e1 e2 e3 e4 e5 = ground arith
