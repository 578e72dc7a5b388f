-- ===== src/Memory/Physical/Allocate.antt =====
-- `allocate_one` and `free_one` of src/kernel/src/memory/manager-physical.cc: the counter of the free pages is
-- right, no free page is missed, and the lowest one is allocated.
use rikai_os.Base.{
  ℕ, zero, suc, refl, sym, ap, inl, inr, Bool, true, false, arith, if◌then◌else◌, ◌+◌, ◌*◌, ◌/◌,
  ◌≤◌, ◌<◌, ◌≡◌, ◌∙◌, ◌≢◌, ◌⊎◌, ◌==◌, ltb, if-true, if-false, ltb→lt, lt→ltb, ==_ne, Bool-cases,
  add32, sub32,
}
use mathlib.Core.Path.{subst}
use rikai_os.Bitset.{Bitset, get_bit, set_bit}
use rikai_os.Bitset.Bits.{get_bit-set_bit}
use rikai_os.Memory.Physical.{Pages, allocate_one, free_one, take_page, find_next_free_page}
use rikai_os.Memory.Physical.Search.{Lowest, find_next_free_page-Lowest}

abbrev pub num_pages : ℕ
num_pages = 1048576

abbrev bit : Bool → ℕ
bit b = if b then 1 else 0

-- How many of the first `n` pages are free.
unfoldable pub count_free : ℕ → Bitset → ℕ
count_free zero b = 0
count_free (suc n) b = count_free n b + bit (get_bit n b)

count_free-behind :
    (n p : ℕ) (v : Bool) (b : Bitset) → n ≤ p → count_free n (set_bit p v b) ≡ count_free n b
unfolding count_free
count_free-behind zero p v b h = refl
count_free-behind (suc n) p v b h =
    ap (λ t. count_free n (set_bit p v b) + bit t)
      (get_bit-set_bit p n v b ∙ if-false _ _ (==_ne p n (omega arith)))
    ∙ ap (λ t. t + bit (get_bit n b)) (count_free-behind n p v b (omega arith))

-- A write changes the count by the difference of the two bits.
count_free-set_bit :
    (n p : ℕ) (v : Bool) (b : Bitset)
    → p < n
    → count_free n (set_bit p v b) + bit (get_bit p b) ≡ count_free n b + bit v
unfolding count_free
count_free-set_bit zero p v b h = absurd (omega arith)
count_free-set_bit (suc n) p v b h = elim (Bool-cases (p == n)) [
  | inl e ↦
      here n p v b (ground (arith, e)) (count_free-behind n p v b (ground (arith, e)))
        (get_bit-set_bit p n v b ∙ if-true _ _ e)
  | inr e ↦
      there n p v b (count_free-set_bit n p v b (ground (arith, e)))
        (get_bit-set_bit p n v b ∙ if-false _ _ e)
]
  where
    here :
        (n p : ℕ) (v : Bool) (b : Bitset)
        → p ≡ n
        → count_free n (set_bit p v b) ≡ count_free n b
        → get_bit n (set_bit p v b) ≡ v
        → count_free n (set_bit p v b) + bit (get_bit n (set_bit p v b)) + bit (get_bit p b)
          ≡ count_free n b + bit (get_bit n b) + bit v
    here n p v b e f g =
        ap (λ t. count_free n (set_bit p v b) + bit t + bit (get_bit p b)) g
        ∙ ap (λ t. count_free n (set_bit p v b) + bit v + bit (get_bit t b)) e
        ∙ omega (arith, f)

    there :
        (n p : ℕ) (v : Bool) (b : Bitset)
        → count_free n (set_bit p v b) + bit (get_bit p b) ≡ count_free n b + bit v
        → get_bit n (set_bit p v b) ≡ get_bit n b
        → count_free n (set_bit p v b) + bit (get_bit n (set_bit p v b)) + bit (get_bit p b)
          ≡ count_free n b + bit (get_bit n b) + bit v
    there n p v b f g =
        ap (λ t. count_free n (set_bit p v b) + bit t + bit (get_bit p b)) g ∙ omega (arith, f)

count_free-le : (n : ℕ) (b : Bitset) → count_free n b ≤ n
unfolding count_free
count_free-le zero b = omega arith
count_free-le (suc n) b = elim (Bool-cases (get_bit n b)) [
  | inl e ↦ rw e (omega (arith, count_free-le n b))
  | inr e ↦ rw e (omega (arith, count_free-le n b))
]

-- The page 0 is not free, no page below the first free one is, and the counter is right.
pub record Consistent (s : Pages) : Type 0 where
  pub zero_used : get_bit 0 s.bitmap ≡ false
  pub none_below : (i : ℕ) → i < s.first_free_page → get_bit i s.bitmap ≡ false
  pub first_fits : s.first_free_page ≤ num_pages
  pub counted : s.total_pages_free ≡ count_free num_pages s.bitmap

-- A page that is taken.
unfoldable pub Taken : ℕ → Pages → Pages → Type 0
Taken p s s' =
    (get_bit p s.bitmap ≡ true)
    × ((i : ℕ) → i < p → get_bit i s.bitmap ≡ false)
    × ((j : ℕ) → get_bit j s'.bitmap ≡ (if p == j then false else get_bit j s.bitmap))
    × (s'.total_pages_used ≡ add32 s.total_pages_used 1)
    × Consistent s'

-- No page is free.
unfoldable pub Exhausted : Pages → Type 0
Exhausted s = (i : ℕ) → i < num_pages → get_bit i s.bitmap ≡ false

abbrev without_page : ℕ → Pages → Pages
without_page p s = record {
  bitmap = set_bit p false s.bitmap;
  first_free_page = add32 p 1;
  total_pages_free = sub32 s.total_pages_free 1;
  total_pages_used = add32 s.total_pages_used 1;
  total_pages_reserved = s.total_pages_reserved;
}

without_page-Taken :
    (p : ℕ) (s : Pages)
    → Consistent s
    → p < num_pages
    → get_bit p s.bitmap ≡ true
    → ((i : ℕ) → i < p → get_bit i s.bitmap ≡ false)
    → Taken p s (without_page p s)
unfolding Taken
without_page-Taken p s c hp hit lower = (
  hit,
  lower,
  λ j. get_bit-set_bit p j false s.bitmap,
  refl,
  record {
    zero_used = get_bit-set_bit p 0 false s.bitmap ∙ cleared p 0 _ c.zero_used;
    none_below = λ i h. get_bit-set_bit p i false s.bitmap ∙ below i h;
    first_fits = omega arith;
    counted = count_down s.total_pages_free _ _ c.counted (count_free-le num_pages s.bitmap) (
        sym (ap (λ t. count_free num_pages (set_bit p false s.bitmap) + bit t) hit)
        ∙ count_free-set_bit num_pages p false s.bitmap hp);
  },
)
  where
    cleared : (p i : ℕ) (b : Bool) → b ≡ false → (if p == i then false else b) ≡ false
    cleared p i b e = ground (arith, e)

    below : (i : ℕ) → i < add32 p 1 → (if p == i then false else get_bit i s.bitmap) ≡ false
    below i h = elim (Bool-cases (p == i)) [
      | inl e ↦ if-true _ _ e
      | inr e ↦ if-false _ _ e ∙ lower i (ground (arith, e, h))
    ]

    count_down : (t k k' : ℕ) → t ≡ k → k ≤ num_pages → k' + 1 ≡ k + 0 → sub32 t 1 ≡ k'
    count_down t k k' e h f = omega arith

take_page_lem :
    (p : ℕ) (s : Pages)
    → Consistent s
    → Lowest (s.first_free_page / 32 * 32) num_pages s.bitmap p
    → (((take_page p s).0 ≡ 0) × ((take_page p s).1 ≡ s) × Exhausted s)
      ⊎ ((0 < (take_page p s).0) × Taken (take_page p s).0 s (take_page p s).1)
unfolding take_page Lowest Exhausted
take_page_lem p s c (inl (z, clear)) = inl (
  ap (λ t. (take_page t s).0) z,
  ap (λ t. (take_page t s).1) z,
  λ i h. elim (Bool-cases (ltb i s.first_free_page)) [
    | inl e ↦ c.none_below i (ltb→lt _ _ e)
    | inr e ↦ clear i (ground (arith, e)) h
  ],
)
take_page_lem p s c (inr (lo, hi, hit, lower)) =
    subst (λ (r : ℕ × Pages). ((r.0 ≡ 0) × (r.1 ≡ s) × Exhausted s) ⊎ ((0 < r.0) × Taken r.0 s r.1))
      (sym (if-true (p, without_page p s) (p, s) (lt→ltb 0 p (positive p s c hit))))
      (inr (positive p s c hit, without_page-Taken p s c hi hit below))
  where
    positive : (p : ℕ) (s : Pages) → Consistent s → get_bit p s.bitmap ≡ true → 0 < p
    positive zero s c hit = absurd (differ (sym c.zero_used ∙ hit))
      where
        differ : false ≢ true
        differ e = ground arith
    positive (suc p) s c hit = omega arith

    below : (i : ℕ) → i < p → get_bit i s.bitmap ≡ false
    below i h = elim (Bool-cases (ltb i s.first_free_page)) [
      | inl e ↦ c.none_below i (ltb→lt _ _ e)
      | inr e ↦ lower i (ground (arith, e)) h
    ]

-- In a consistent state, either `allocate_one` gives 0, changes nothing, and no page is free; or it
-- gives the lowest free page, which is not 0, and that page alone is not free afterwards, one more is
-- used, and the state is consistent.
pub allocate_one_lem :
    (s : Pages)
    → Consistent s
    → (((allocate_one s).0 ≡ 0) × ((allocate_one s).1 ≡ s) × Exhausted s)
      ⊎ ((0 < (allocate_one s).0) × Taken (allocate_one s).0 s (allocate_one s).1)
unfolding allocate_one
allocate_one_lem s c =
    take_page_lem (find_next_free_page s.first_free_page s.bitmap) s c
      (find_next_free_page-Lowest s.first_free_page s.bitmap (omega (arith, c.first_fits)))

-- In a consistent state, `free_one` of a page that is not free and not the page 0 makes that page alone
-- free, and the state stays consistent.
pub free_one-Consistent :
    (p : ℕ) (s : Pages)
    → Consistent s
    → 0 < p
    → p < num_pages
    → get_bit p s.bitmap ≡ false
    → Consistent (free_one p s)
      × ((j : ℕ) → get_bit j (free_one p s).bitmap ≡ (if p == j then true else get_bit j s.bitmap))
unfolding free_one
free_one-Consistent p s c h0 hp used = (
  record {
    zero_used =
        get_bit-set_bit p 0 true s.bitmap ∙ if-false _ _ (==_ne p 0 (omega arith)) ∙ c.zero_used;
    none_below = λ i h.
        get_bit-set_bit p i true s.bitmap
        ∙ if-false _ _ (==_ne p i (above i h))
        ∙ c.none_below i (lower_first i h);
    first_fits = lower_fits p s.first_free_page hp c.first_fits;
    counted = count_up s.total_pages_free _ _ c.counted (count_free-le num_pages s.bitmap) (
        sym (ap (λ t. count_free num_pages (set_bit p true s.bitmap) + bit t) used)
        ∙ count_free-set_bit num_pages p true s.bitmap hp);
  },
  λ j. get_bit-set_bit p j true s.bitmap,
)
  where
    count_up : (t k k' : ℕ) → t ≡ k → k ≤ num_pages → k' + 0 ≡ k + 1 → add32 t 1 ≡ k'
    count_up t k k' e h f = omega arith

    above : (i : ℕ) → i < (if ltb p s.first_free_page then p else s.first_free_page) → p ≢ i
    above i h e = ground (arith, e, h)

    lower_first :
        (i : ℕ)
        → i < (if ltb p s.first_free_page then p else s.first_free_page)
        → i < s.first_free_page
    lower_first i h = ground (arith, h)

    lower_fits : (p f : ℕ) → p < num_pages → f ≤ num_pages → (if ltb p f then p else f) ≤ num_pages
    lower_fits p f h k = ground arith
