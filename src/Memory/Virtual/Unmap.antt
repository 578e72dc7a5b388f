-- ===== src/Memory/Virtual/Unmap.antt =====
-- `unmap` of src/kernel/src/memory/manager-virtual.cc: the range is not translated any more, and the pages
-- that it owned are free.
use rikai_os.Base.{
  ℕ, zero, suc, refl, sym, ap, inl, inr, Bool, true, false, Option, none, some, arith,
  if◌then◌else◌, ◌+◌, ◌*◌, ◌/◌, ◌%◌, ◌≤◌, ◌≡◌, ◌∙◌, ◌&&◌, ◌==◌, if-true, if-false, not-true,
  not-false, ==_refl, Bool-cases, u32_mod, add32, mul32,
}
use mathlib.Core.Path.{subst}
use mathlib.Core.Option.{some-injective, none-ne-some}
use rikai_os.Memory.Virtual.{
  Vm, entry, set_entry, frame_of, table_present, clear_entry, unmap_one, unmap_loop, unmap,
}
use rikai_os.Memory.Virtual.Entry.{
  has_flag, present_bit, borrowed_bit, pte_addr, addr_tab, addr_page, addr_pagei,
}
use rikai_os.Memory.Virtual.Translation.{
  translation, Separate, get_tab-present, set_entry-here, set_entry-other, same_tab, same_pagei,
}
use rikai_os.Memory.Virtual.Map.{in_pages}
use rikai_os.Memory.Physical.{Pages, page_size, free_one}
use rikai_os.Bitset.{get_bit}
use rikai_os.Bitset.Bits.{get_bit-set_bit}

-- A page of memory is free.
abbrev pub IsFree : ℕ → Vm → Type 0
IsFree q s = get_bit q s.pages.bitmap ≡ true

-- What `unmap_one` of `virt` does: all other pages are translated as before, free pages stay free, and
-- a page that the entry owned is free.
record Cleared (virt : ℕ) (s s' : Vm) : Type 0 where
  here : (a : ℕ) → (a / 4096 == virt / 4096) ≡ true → translation a s' ≡ none
  other : (a : ℕ) → (a / 4096 == virt / 4096) ≡ false → translation a s' ≡ translation a s
  separate : Separate s'
  stays : (q : ℕ) → IsFree q s → IsFree q s'
  owned :
      (a pte : ℕ)
      → (a / 4096 == virt / 4096) ≡ true
      → translation a s ≡ some pte
      → has_flag borrowed_bit pte ≡ false
      → IsFree (addr_page pte) s'

pub free_one-frees : (p : ℕ) (s : Pages) → get_bit p (free_one p s).bitmap ≡ true
unfolding free_one
free_one-frees p s = get_bit-set_bit p p true s.bitmap ∙ if-true _ _ (==_refl p)

pub free_one-stays :
    (p q : ℕ) (s : Pages) → get_bit q s.bitmap ≡ true → get_bit q (free_one p s).bitmap ≡ true
unfolding free_one
free_one-stays p q s e = get_bit-set_bit p q true s.bitmap ∙ either (p == q) e
  where
    either : (b : Bool) {c : Bool} → c ≡ true → (if b then true else c) ≡ true
    either true e = refl
    either false e = e

-- The addresses of a page have one entry.
translation_of_page :
    (a b : ℕ) (s : Vm)
    → (a / 4096 == b / 4096) ≡ true
    → translation a s ≡ (
        if table_present (addr_tab b) s
          && has_flag present_bit (entry (addr_tab b) (addr_pagei b) s)
        then some (entry (addr_tab b) (addr_pagei b) s)
        else none)
unfolding translation
translation_of_page a b s e =
    ap
      (λ t.
        if table_present t s && has_flag present_bit (entry t (addr_pagei a) s)
        then some (entry t (addr_pagei a) s)
        else none)
      (same_tab a b e)
    ∙ ap
        (λ i.
          if table_present (addr_tab b) s && has_flag present_bit (entry (addr_tab b) i s)
          then some (entry (addr_tab b) i s)
          else none)
        (same_pagei a b e)

-- Nothing is mapped at the page, and nothing is done.
nothing-Cleared :
    (virt : ℕ) (s : Vm)
    → Separate s
    → ((a : ℕ) → (a / 4096 == virt / 4096) ≡ true → translation a s ≡ none)
    → Cleared virt s s
nothing-Cleared virt s w n = record {
  here = n;
  other = λ a e. refl;
  separate = w;
  stays = λ q e. e;
  owned = λ a pte e f g. absurd (none-ne-some pte (sym (n a e) ∙ f));
}

written-Cleared :
    (virt : ℕ) (s : Vm) (pages : Pages)
    → Separate s
    → table_present (addr_tab virt) s ≡ true
    → ((q : ℕ) → IsFree q s → get_bit q pages.bitmap ≡ true)
    → ((a pte : ℕ)
        → (a / 4096 == virt / 4096) ≡ true
        → translation a s ≡ some pte
        → has_flag borrowed_bit pte ≡ false
        → get_bit (addr_page pte) pages.bitmap ≡ true)
    → Cleared virt s (set_entry (addr_tab virt) (addr_pagei virt) 0 (record s { pages = pages }))
unfolding translation set_entry table_present has_flag entry frame_of
written-Cleared virt s pages w p st ow = record {
  here = λ a e. set_entry-here a virt 0 (record s { pages = pages }) e p;
  other = λ a e.
      set_entry-other a virt 0 (record s { pages = pages }) (record { separate = w.separate }) e p;
  separate = record { separate = w.separate };
  stays = st;
  owned = ow;
}

pub page_of_addr : (x : ℕ) → addr_page (pte_addr x) ≡ addr_page x
page_of_addr x = omega arith

clear_entry-Cleared :
    (virt : ℕ) (s : Vm)
    → Separate s
    → table_present (addr_tab virt) s ≡ true
    → Cleared virt s (
        clear_entry (addr_tab virt) (addr_pagei virt) (entry (addr_tab virt) (addr_pagei virt) s) s)
unfolding clear_entry
clear_entry-Cleared virt s w p = elim (Bool-cases (has_flag present_bit pte)) [
  | inr e ↦ subst (Cleared virt s) (sym (if-false _ _ e)) (
      nothing-Cleared virt s w
        (λ a f. translation_of_page a virt s f ∙ if-false _ _ (both_false p e)))
  | inl e ↦
      subst (Cleared virt s) (sym (if-true _ _ e)) (elim (Bool-cases (has_flag borrowed_bit pte)) [
        | inl b ↦
            subst (λ q. Cleared virt s (set_entry t i 0 (record s { pages = q })))
              (sym (if-false _ _ (not-false b)))
              (written-Cleared virt s s.pages w p (λ q f. f)
                (λ a x f g h.
                  absurd (true_false (sym b ∙ ap (has_flag borrowed_bit) (it a x f g e) ∙ h))))
        | inr b ↦
            subst (λ q. Cleared virt s (set_entry t i 0 (record s { pages = q })))
              (sym (if-true _ _ (not-true b)))
              (written-Cleared virt s (free_one (addr_page (pte_addr pte)) s.pages) w p
                (λ q f. free_one-stays (addr_page (pte_addr pte)) q s.pages f)
                (λ a x f g h.
                  ap (λ r. get_bit r (free_one (addr_page (pte_addr pte)) s.pages).bitmap)
                    (sym (page_of_addr pte ∙ ap addr_page (it a x f g e)))
                  ∙ free_one-frees (addr_page (pte_addr pte)) s.pages))
      ])
]
  where
    t : ℕ
    t = addr_tab virt

    i : ℕ
    i = addr_pagei virt

    pte : ℕ
    pte = entry t i s

    both_false : {x y : Bool} → x ≡ true → y ≡ false → (x && y) ≡ false
    both_false e f = ground (arith, e, f)

    both_true : {x y : Bool} → x ≡ true → y ≡ true → (x && y) ≡ true
    both_true e f = ground (arith, e, f)

    true_false : ¬ (true ≡ false)
    true_false e = ground arith

    it :
        (a x : ℕ)
        → (a / 4096 == virt / 4096) ≡ true
        → translation a s ≡ some x
        → has_flag present_bit pte ≡ true
        → pte ≡ x
    it a x f g e =
        some-injective _ _
          (sym (if-true _ _ (both_true p e)) ∙ sym (translation_of_page a virt s f) ∙ g)

unmap_one-Cleared : (virt : ℕ) (s : Vm) → Separate s → Cleared virt s (unmap_one virt s)
unfolding unmap_one
unmap_one-Cleared virt s w = elim (Bool-cases (table_present (addr_tab virt) s)) [
  | inl p ↦
      subst (Cleared virt s) (sym (if-true _ _ (get_tab-present virt s ∙ p)))
        (clear_entry-Cleared virt s w p)
  | inr p ↦ subst (Cleared virt s) (sym (if-false _ _ (get_tab-present virt s ∙ p))) (
      nothing-Cleared virt s w
        (λ a e. translation_of_page a virt s e ∙ if-false _ _ (absent _ _ p)))
]
  where
    absent : (x y : Bool) → x ≡ false → (x && y) ≡ false
    absent x y e = ground (arith, e)

-- What `unmap` does to the `n` pages from the page `p` on.
pub record Unmapped (p n : ℕ) (s s' : Vm) : Type 0 where
  pub translated : (a : ℕ) → translation a s' ≡ (if in_pages a p n then none else translation a s)
  pub stays : (q : ℕ) → IsFree q s → IsFree q s'
  pub owned :
      (a pte : ℕ)
      → in_pages a p n ≡ true
      → translation a s ≡ some pte
      → has_flag borrowed_bit pte ≡ false
      → IsFree (addr_page pte) s'

-- One page, and those behind it.
Unmapped-more :
    (v p n : ℕ) (s s1 s' : Vm)
    → v / 4096 ≡ p
    → Cleared v s s1
    → Unmapped (p + 1) n s1 s'
    → Unmapped p (suc n) s s'
Unmapped-more v p n s s1 s' e c u = record {
  translated = λ a. u.translated a ∙ (elim (Bool-cases (a / 4096 == v / 4096)) [
    | inl f ↦
        ap (λ t. if in_pages a (p + 1) n then none else t) (c.here a f)
        ∙ none_both (in_pages a (p + 1) n)
        ∙ sym (if-true {b = in_pages a p (suc n)} _ _ (ground (arith, e, f)))
    | inr f ↦
        ap (λ t. if in_pages a (p + 1) n then none else t) (c.other a f)
        ∙ ap (λ b. if b then none else translation a s) {x = in_pages a (p + 1) n}
            {y = in_pages a p (suc n)} (ground (arith, e, f))
  ]);
  stays = λ q f. u.stays q (c.stays q f);
  owned = λ a pte i f g. elim (Bool-cases (a / 4096 == v / 4096)) [
    | inl h ↦ u.stays (addr_page pte) (c.owned a pte h f g)
    | inr h ↦ u.owned a pte (ground (arith, e, h, i)) (c.other a h ∙ f) g
  ];
}
  where
    nothing : Option ℕ
    nothing = none

    none_both : (b : Bool) → (if b then nothing else nothing) ≡ nothing
    none_both true = refl
    none_both false = refl

unmap_loop-Unmapped :
    (n i virt : ℕ) (s : Vm)
    → Separate s
    → virt % 4096 ≡ 0
    → virt + (i + n) * 4096 ≤ u32_mod
    → Unmapped (virt / 4096 + i) n s (unmap_loop n i virt s)
unfolding unmap_loop
unmap_loop-Unmapped zero i virt s w al h = record {
  translated = λ a. sym (if-false {b = in_pages a (virt / 4096 + i) 0} _ _ (ground arith));
  stays = λ q e. e;
  owned = λ a pte e f g. absurd (ground (arith, e));
}
unmap_loop-Unmapped (suc n) i virt s w al h =
    let v : ℕ = add32 virt (mul32 i page_size) in
    let c = unmap_one-Cleared v s w in
    Unmapped-more v (virt / 4096 + i) n s (unmap_one v s) _ (omega (arith, al, h)) c (
      subst (λ p. Unmapped p n (unmap_one v s) (unmap_loop n (i + 1) virt (unmap_one v s)))
        {x = virt / 4096 + (i + 1)} {y = virt / 4096 + i + 1} (omega arith)
        (unmap_loop-Unmapped n (i + 1) virt (unmap_one v s) c.separate al (omega (arith, h))))

-- Where no two page tables share a page, the address is that of a page and nothing wraps: after `unmap`
-- no address of the range is translated and all others are as before; free pages of memory stay free, and
-- so is now every page that an entry of the range was mapped to and did not borrow.
pub unmap-Unmapped :
    (virt size : ℕ) (s : Vm)
    → Separate s
    → virt % 4096 ≡ 0
    → virt + size ≤ u32_mod
    → Unmapped (virt / 4096) (size / page_size) s (unmap virt size s)
unfolding unmap
unmap-Unmapped virt size s w al h =
    subst (λ p. Unmapped p (size / page_size) s (unmap_loop (size / page_size) 0 virt s))
      {x = virt / 4096 + 0} {y = virt / 4096} (omega arith)
      (unmap_loop-Unmapped (size / page_size) 0 virt s w al (omega (arith, h)))
