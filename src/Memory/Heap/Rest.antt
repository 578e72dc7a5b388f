-- ===== src/Memory/Heap/Rest.antt =====
-- What a free node of src/kernel/src/memory/kernel-heap.cc leaves behind an allocation, and whether it
-- fits.
use rikai_os.Base.{
  ℕ, refl, ap, true, false, Option, none, some, List, [], arith, if◌then◌else◌, ◌+◌, ◌-◌, ◌*◌, ◌≤◌,
  ◌<◌, ◌≡◌, ◌∙◌, ◌∷◌, leb, length, u32_mod, add32, sub32,
}
use rikai_os.Memory.Heap.{Node, Counters, At, node_header, node_size, is_last, unwind, first_addr}
use rikai_os.Memory.Heap.Alloc.{fit_node}
use rikai_os.Memory.Heap.Shape.{From, unwind-Ordered}
use rikai_os.Memory.Heap.Sums.{
  allocated, holes, overhead, Shift, Shift-unwind, node_size-last, node_size-inner, From-lt,
}
use rikai_os.Memory.Heap.Merge.{Sound, Ordered-bound, merge-Shift, given_back, taken_off}
use rikai_os.Math.{align_up}

module _ (heap_start heap_end : ℕ) (fits : heap_end + 1 < u32_mod) where
  -- The address behind the last byte of a node.
  unfoldable pub end_of : List Node → ℕ
  end_of [] = heap_end + 1
  end_of (m ∷ after) = m.addr

  pub node_size-end :
      (n : Node) (after : List Node)
      → From heap_start heap_end n after
      → (node_size heap_start heap_end n.addr after + n.addr + node_header ≡ end_of after)
        × (n.addr + node_header ≤ end_of after)
        × (end_of after ≤ heap_end + 1)
  unfolding end_of
  node_size-end n [] f = (node_size-last heap_start heap_end n.addr fits f.1, f.1, omega arith)
  node_size-end n (m ∷ after) f =
      let lt = From-lt heap_start heap_end m after f.2 in
      (
        node_size-inner heap_start heap_end n.addr m after (omega (arith, lt, fits)) f.1,
        f.1,
        omega (arith, lt),
      )

  -- The node at `q` behind the free node `n`.
  unfoldable pub with_rest : ℕ → Node → List Node → List Node → Counters → At
  unfolding is_last
  with_rest q n before after c = record {
    before = before;
    node = n;
    after = record { addr = q; used = false; valid = true } ∷ after;
    counters = record {
      total_overhead = add32 c.total_overhead node_header;
      total_allocated = c.total_allocated;
      total_hole_size =
          (if is_last after
            then add32 c.total_hole_size (
                node_size heap_start heap_end n.addr
                  (record { addr = q; used = false; valid = true } ∷ after))
            else sub32 c.total_hole_size node_header);
    };
  }

  pub with_rest-From :
      (q : ℕ) (n : Node) (after : List Node)
      → From heap_start heap_end n after
      → q + node_header ≤ end_of after
      → From heap_start heap_end (record { addr = q; used = false; valid = true }) after
  unfolding end_of
  with_rest-From q n [] f h = (refl, h)
  with_rest-From q n (m ∷ after) f h = (refl, h, f.2)

  first_valid : (n : Node) (after : List Node) → From heap_start heap_end n after → n.valid ≡ true
  first_valid n [] f = f.0
  first_valid n (m ∷ after) f = f.0

  pub with_rest-Sound :
      (q : ℕ) (n : Node) (before after : List Node) (c : Counters)
      → n.used ≡ false
      → Sound heap_start heap_end fits
          (record { before = before; node = n; after = after; counters = c })
      → n.addr + node_header ≤ q
      → q + node_header ≤ end_of after
      → Sound heap_start heap_end fits (with_rest q n before after c)
  unfolding with_rest given_back taken_off overhead
  with_rest-Sound q n before after c u s lo hi = record {
    before = s.before;
    after = (first_valid n after s.after, lo, rest);
    exact = record {
      total_overhead =
          omega (
            arith, s.exact.total_overhead, shift.first, shift.length_by, old_bound, new_bound, fits,
          );
      total_allocated = omega (arith, s.exact.total_allocated, shift.allocated_by);
      total_hole_size =
          ground (arith, s.exact.total_hole_size, shift.holes_by, old_bound, new_bound, fits);
    };
  }
    where
      m : Node
      m = record { addr = q; used = false; valid = true }

      rest : From heap_start heap_end m after
      rest = with_rest-From q n after s.after hi

      old : List Node
      old = unwind before (n ∷ after)

      new : List Node
      new = unwind before (n ∷ m ∷ after)

      shift :
          Shift heap_start heap_end new old 0 0
            (given_back heap_start heap_end fits n m after)
            (taken_off heap_start heap_end fits n m after)
            0
            1
      shift =
          Shift-unwind heap_start heap_end before _ _ _ _ _ _ _ _
            (merge-Shift heap_start heap_end fits n m after u refl lo rest)

      old_bound :
          allocated heap_start heap_end old
            + holes heap_start heap_end old
            + node_header * length old
            + first_addr old
          ≤ heap_end + 1
      old_bound =
          Ordered-bound heap_start heap_end fits old
            (unwind-Ordered heap_start heap_end before n after s.before s.after)

      new_bound :
          allocated heap_start heap_end new
            + holes heap_start heap_end new
            + node_header * length new
            + first_addr new
          ≤ heap_end + 1
      new_bound = Ordered-bound heap_start heap_end fits new (
          unwind-Ordered heap_start heap_end before n (m ∷ after) s.before
            (first_valid n after s.after, lo, rest))

  -- Where no address wraps, `fit_node` compares with the end of the node.
  pub fit_node_lem :
      (n : Node) (after : List Node) (size alignment base : ℕ)
      → From heap_start heap_end n after
      → align_up (n.addr + node_header) alignment ≡ base
      → node_header ≤ base
      → base + size < u32_mod
      → fit_node heap_start heap_end n.addr after size alignment
        ≡ (if leb (base + size) (end_of after) then some (base - node_header) else none)
  unfolding fit_node
  fit_node_lem n after size alignment base f e lo hi =
      let r = node_size-end n after f in
      ap (λ a. fit_at (align_up a alignment) a) {x = add32 n.addr node_header}
        {y = n.addr + node_header} (omega (arith, r.1, r.2, fits))
      ∙ ap (λ b. fit_at b (n.addr + node_header)) e
      ∙ plain base size (node_size heap_start heap_end n.addr after) n.addr (end_of after) r.0 r.2
          lo hi
    where
      fit_at : ℕ → ℕ → Option ℕ
      fit_at b a =
          if leb (add32 b size) (add32 a (node_size heap_start heap_end n.addr after))
          then some (sub32 b node_header)
          else none

      plain :
          (b s k a e : ℕ)
          → k + a + node_header ≡ e
          → e ≤ heap_end + 1
          → node_header ≤ b
          → b + s < u32_mod
          → (if leb (add32 b s) (add32 (a + node_header) k)
              then some (sub32 b node_header)
              else none)
            ≡ (if leb (b + s) e then some (b - node_header) else none)
      plain b s k a e f g h i = ground (arith, fits)
