-- ===== src/Memory/Virtual/Map.antt =====
-- `map` of src/kernel/src/memory/manager-virtual.cc where the page tables are there, as they are for all
-- of kernel memory, and what it reports where they are not.
use rikai_os.Base.{
  ℕ, zero, suc, refl, sym, ap, inl, inr, Bool, true, false, not, some, arith, if◌then◌else◌, ◌+◌,
  ◌-◌, ◌*◌, ◌/◌, ◌%◌, ◌≤◌, ◌<◌, ◌≡◌, ◌∙◌, ◌&&◌, ◌==◌, ltb, leb, if-true, if-false, not-true,
  Bool-cases, u32_mod, add32, mul32,
}
use rikai_os.Memory.Virtual.{
  Vm, Errno, err_success, is_negative, bool_errno, table_present, frame_of, set_entry, get_tab,
  write_entry, map_in_table, map_allocated, install_table, map_one, map_loop, map,
}
use rikai_os.Memory.Virtual.Entry.{
  or32, flag_present, make_pte, make_pte-flag, or32-present, addr_tab,
}
use rikai_os.Memory.Virtual.Translation.{
  translation, Separate, get_tab-same, set_entry-here, set_entry-other,
}
use rikai_os.Memory.Physical.{page_size, allocate_one}

pub set_entry-Separate : (t i v : ℕ) (s : Vm) → Separate s → Separate (set_entry t i v s)
unfolding set_entry table_present frame_of
set_entry-Separate t i v s w = record { separate = w.separate }

write_entry-translation :
    (a virt phy flags : ℕ) (s : Vm)
    → Separate s
    → table_present (addr_tab virt) s ≡ true
    → translation a (write_entry virt phy flags s) ≡ (
        if a / 4096 == virt / 4096
        then some (make_pte phy (or32 flags flag_present))
        else translation a s)
unfolding write_entry
write_entry-translation a virt phy flags s w p = elim (Bool-cases (a / 4096 == virt / 4096)) [
  | inl e ↦
      set_entry-here a virt (make_pte phy (or32 flags flag_present)) s e p
      ∙ if-true _ _
          (make_pte-flag 0 phy (or32 flags flag_present) (omega arith) ∙ or32-present flags)
      ∙ sym (if-true _ _ e)
  | inr e ↦
      set_entry-other a virt (make_pte phy (or32 flags flag_present)) s w e p ∙ sym (if-false _ _ e)
]

-- `map_one` of a given page in a table that is present.
map_one-present :
    (virt phy flags : ℕ) (s : Vm)
    → (phy == 0) ≡ false
    → table_present (addr_tab virt) s ≡ true
    → map_one virt phy flags s ≡ (true, write_entry virt phy flags s)
unfolding map_one map_in_table
map_one-present virt phy flags s h p =
    ap (λ (r : Bool × Vm). if not r.0 then (false, r.1) else map_in_table virt phy flags r.1)
      (get_tab-same virt true s p)
    ∙ if-false _ _ h

not_negative : (b : Bool) → is_negative (bool_errno b) ≡ false
unfolding bool_errno
not_negative true = refl
not_negative false = refl

-- One round of the loop; it never sees an error.
map_loop-next :
    (n i virt phy flags : ℕ) (s : Vm)
    → map_loop (suc n) i virt phy flags s
      ≡ map_loop n
          (i + 1)
          virt
          phy
          flags
          (map_one
            (add32 virt (mul32 i page_size))
            (if not (phy == 0) then add32 phy (mul32 i page_size) else 0)
            flags
            s).1
unfolding map_loop
map_loop-next n i virt phy flags s = if-false _ _ (not_negative _)

map_loop-success :
    (n i virt phy flags : ℕ) (s : Vm) → (map_loop n i virt phy flags s).0 ≡ err_success
unfolding map_loop
map_loop-success zero i virt phy flags s = refl
map_loop-success (suc n) i virt phy flags s =
    ap (λ (r : Errno × Vm). r.0) (map_loop-next n i virt phy flags s)
    ∙ map_loop-success n (i + 1) virt phy flags _

-- The page tables of the pages `i` to `i + n` behind `virt` are present, and no address wraps.
pub record Room (i n virt phy : ℕ) (s : Vm) : Type 0 where
  pub aligned : virt % 4096 ≡ 0
  pub not_null : 0 < phy
  pub virt_fits : virt + (i + n) * 4096 ≤ u32_mod
  pub phy_fits : phy + (i + n) * 4096 ≤ u32_mod
  pub tables : (j : ℕ) → i ≤ j → j < i + n → table_present (addr_tab (virt + j * 4096)) s ≡ true

-- The number of the page of an address is one of `n` from the page `p` on.
abbrev pub in_pages : ℕ → ℕ → ℕ → Bool
in_pages a p n = leb p (a / 4096) && ltb (a / 4096) (p + n)

-- The entry of the page of `a` in a mapping from `virt` to `phy`.
abbrev pub pte_at : ℕ → ℕ → ℕ → ℕ → ℕ
pte_at virt phy flags a = make_pte (phy + (a / 4096 - virt / 4096) * 4096) (or32 flags flag_present)

map_loop-translation :
    (n i virt phy flags a : ℕ) (s : Vm)
    → Separate s
    → Room i n virt phy s
    → translation a (map_loop n i virt phy flags s).1
      ≡ (if in_pages a (virt / 4096 + i) n then some (pte_at virt phy flags a) else translation a s)
unfolding map_loop write_entry set_entry table_present
map_loop-translation zero i virt phy flags a s w h =
    sym (if-false {b = in_pages a (virt / 4096 + i) 0} _ _ (ground arith))
map_loop-translation (suc n) i virt phy flags a s w h =
    ap (λ (r : Errno × Vm). translation a r.1) (map_loop-next n i virt phy flags s)
    ∙ ap (λ (r : Bool × Vm). translation a (map_loop n (i + 1) virt phy flags r.1).1)
        (ap (λ q. map_one q (if not (phy == 0) then add32 phy (mul32 i page_size) else 0) flags s)
            {x = add32 virt (mul32 i page_size)} {y = v} (omega (arith, h.virt_fits))
          ∙ ap (λ q. map_one v q flags s) {y = p} given
          ∙ map_one-present v p flags s (ground (arith, h.not_null)) present)
    ∙ map_loop-translation n (i + 1) virt phy flags a (write_entry v p flags s) kept rest
    ∙ ap (λ t. if in_pages a (virt / 4096 + (i + 1)) n then some (pte_at virt phy flags a) else t)
        (write_entry-translation a v p flags s w present)
    ∙ join
  where
    v : ℕ
    v = virt + i * 4096

    p : ℕ
    p = phy + i * 4096

    given : (if not (phy == 0) then add32 phy (mul32 i page_size) else 0) ≡ p
    given = ground (arith, h.not_null, h.phy_fits)

    present : table_present (addr_tab v) s ≡ true
    present = h.tables i (omega arith) (omega arith)

    kept : Separate (write_entry v p flags s)
    kept = set_entry-Separate _ _ _ s w

    rest : Room (i + 1) n virt phy (write_entry v p flags s)
    rest = record {
      aligned = h.aligned;
      not_null = h.not_null;
      virt_fits = omega (arith, h.virt_fits);
      phy_fits = omega (arith, h.phy_fits);
      tables = λ j lo hi. h.tables j (omega arith) (omega arith);
    }

    here :
        (a / 4096 == v / 4096) ≡ true
        → make_pte p (or32 flags flag_present) ≡ pte_at virt phy flags a
    here e =
        ap (λ q. make_pte q (or32 flags flag_present)) {x = p}
          {y = phy + (a / 4096 - virt / 4096) * 4096} (ground (arith, e, h.aligned))

    join :
        (if in_pages a (virt / 4096 + (i + 1)) n
          then some (pte_at virt phy flags a)
          else if a / 4096 == v / 4096
          then some (make_pte p (or32 flags flag_present))
          else translation a s)
        ≡ (if in_pages a (virt / 4096 + i) (suc n)
            then some (pte_at virt phy flags a)
            else translation a s)
    join = elim (Bool-cases (a / 4096 == v / 4096)) [
      | inl e ↦
          ap
            (λ t.
              if in_pages a (virt / 4096 + (i + 1)) n then some (pte_at virt phy flags a) else t)
            (if-true _ _ e ∙ ap some (here e))
          ∙ if_same (in_pages a (virt / 4096 + (i + 1)) n)
          ∙ sym (
              if-true {b = in_pages a (virt / 4096 + i) (suc n)} _ _ (ground (arith, e, h.aligned)))
      | inr e ↦
          ap
            (λ t.
              if in_pages a (virt / 4096 + (i + 1)) n then some (pte_at virt phy flags a) else t)
            (if-false _ _ e)
          ∙ ap (λ b. if b then some (pte_at virt phy flags a) else translation a s)
              {x = in_pages a (virt / 4096 + (i + 1)) n} {y = in_pages a (virt / 4096 + i) (suc n)}
              (ground (arith, e, h.aligned))
    ]
      where
        if_same :
            (b : Bool)
            → (if b then some (pte_at virt phy flags a) else some (pte_at virt phy flags a))
              ≡ some (pte_at virt phy flags a)
        if_same true = refl
        if_same false = refl

-- Where the page tables of the whole range are present, no two tables share a page, the addresses and the
-- size are whole pages, the physical one is not 0, and nothing wraps: `map` returns success, every
-- address of the range is translated by the entry of the page of memory as far behind `phy`, with the
-- flags and the present flag, and every other address is translated as before.
pub map-translation :
    (virt phy size flags : ℕ) (s : Vm)
    → Separate s
    → size % page_size ≡ 0
    → Room 0 (size / page_size) virt phy s
    → (s' : Vm) × (map virt phy size flags s ≡ some (err_success, s'))
      × ((a : ℕ)
          → translation a s' ≡ (
              if in_pages a (virt / 4096) (size / page_size)
              then some (pte_at virt phy flags a)
              else translation a s))
unfolding map
map-translation virt phy size flags s w whole h = (
  (map_loop (size / page_size) 0 virt phy flags s).1,
  if-true {b = size % page_size == 0} _ _ (ground (arith, whole))
      ∙ ap (λ e. some (e, (map_loop (size / page_size) 0 virt phy flags s).1))
          (map_loop-success (size / page_size) 0 virt phy flags s),
  λ a.
      map_loop-translation (size / page_size) 0 virt phy flags a s w h
      ∙ ap
          (λ p.
            if in_pages a p (size / page_size)
            then some (pte_at virt phy flags a)
            else translation a s)
          {x = virt / 4096 + 0} {y = virt / 4096} (omega arith),
)

-- `map_one` of a new page when none is left.
map_one-exhausted :
    (virt flags : ℕ) (s : Vm)
    → allocate_one s.pages ≡ (0, s.pages)
    → map_one virt 0 flags s ≡ (false, s)
unfolding map_one get_tab map_in_table map_allocated install_table
map_one-exhausted virt flags s e = elim (Bool-cases (table_present (addr_tab virt) s)) [
  | inl p ↦
      ap (λ (r : Bool × Vm). if not r.0 then (false, r.1) else map_in_table virt 0 flags r.1)
        (get_tab-same virt true s p)
      ∙ ap (λ r. map_allocated virt flags r s) e
  | inr p ↦
      ap (λ (r : Bool × Vm). if not r.0 then (false, r.1) else map_in_table virt 0 flags r.1)
        (if-true _ _ (not-true p) ∙ ap (λ r. install_table virt r s) e)
]

map_loop-exhausted :
    (n i virt flags : ℕ) (s : Vm)
    → allocate_one s.pages ≡ (0, s.pages)
    → map_loop n i virt 0 flags s ≡ (err_success, s)
unfolding map_loop
map_loop-exhausted zero i virt flags s e = refl
map_loop-exhausted (suc n) i virt flags s e =
    map_loop-next n i virt 0 flags s
    ∙ ap (λ (r : Bool × Vm). map_loop n (i + 1) virt 0 flags r.1)
        (map_one-exhausted (add32 virt (mul32 i page_size)) flags s e)
    ∙ map_loop-exhausted n (i + 1) virt flags s e

-- When no page can be allocated, `map` of any number of new pages changes nothing, and yet it returns
-- success.
pub map-exhausted :
    (virt size flags : ℕ) (s : Vm)
    → allocate_one s.pages ≡ (0, s.pages)
    → size % page_size ≡ 0
    → map virt 0 size flags s ≡ some (err_success, s)
unfolding map
map-exhausted virt size flags s e whole =
    if-true {b = size % page_size == 0} _ _ (ground (arith, whole))
    ∙ ap some (map_loop-exhausted (size / page_size) 0 virt flags s e)
