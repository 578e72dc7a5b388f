-- ===== src/Memory/Virtual/Walk.antt =====
-- What the processor finds for an address, with the page directories and page tables of
-- src/kernel/src/memory/manager-virtual.cc in physical memory.
use rikai_os.Base.{
  ℕ, refl, ap, inl, inr, Bool, true, false, not, Option, none, some, arith, if◌then◌else◌, ◌≡◌, ◌∙◌,
  ◌&&◌, ◌==◌, if-true, if-false, Bool-cases, update,
}
use rikai_os.Memory.Virtual.{
  Vm, entry, frame_of, table_present, virtual_to_physical, page_words, rec_page, load_directory,
  recursive_no,
}
use rikai_os.Memory.Virtual.Entry.{has_flag, present_bit, pte_addr, addr_tab, addr_page, addr_pagei}
use rikai_os.Memory.Virtual.Translation.{get_tab-present}

-- The entry that two words of the directory and of a page table give, when both are present.
unfoldable pub both_present : ℕ → ℕ → Option ℕ
unfolding has_flag
both_present pde pte =
    if has_flag present_bit pde && has_flag present_bit pte then some pte else none

-- The entry that the processor finds for an address: that of the page at which the directory points.
unfoldable pub walk : ℕ → Vm → Option ℕ
unfolding both_present page_words
walk a s =
    both_present (s.dir (addr_tab a)) (page_words (addr_page (s.dir (addr_tab a))) s (addr_pagei a))

-- The window of the page tables is there, and in it stands the page table at which the directory points.
pub record Window (s : Vm) : Type 0 where
  pub present : table_present recursive_no s ≡ true
  pub same : (t : ℕ) → table_present t s ≡ true → frame_of t s ≡ addr_page (s.dir t)

pub both_present-absent :
    (pde pte : ℕ) → has_flag present_bit pde ≡ false → both_present pde pte ≡ none
unfolding both_present
both_present-absent pde pte e = ap (λ b. if b && has_flag present_bit pte then some pte else none) e

pub both_present-zero : (pde pte : ℕ) → pte ≡ 0 → both_present pde pte ≡ none
unfolding both_present has_flag
both_present-zero pde pte e = ap (both_present pde) e ∙ none_left (has_flag present_bit pde)
  where
    none_left : (b : Bool) → ◌≡◌ {A = Option ℕ} (if b && false then some 0 else none) none
    none_left true = refl
    none_left false = refl

pub both_present-entry :
    (pde pte : ℕ)
    → has_flag present_bit pde ≡ true
    → has_flag present_bit pte ≡ true
    → both_present pde pte ≡ some pte
unfolding both_present
both_present-entry pde pte e f =
    ap (λ b. if b && has_flag present_bit pte then some pte else none) e
    ∙ ap (λ b. if b then some pte else none) f

pub virtual_to_physical-plain :
    (a : ℕ) (s : Vm)
    → virtual_to_physical a s ≡ (
        if not (table_present (addr_tab a) s)
        then 0
        else pte_addr (entry (addr_tab a) (addr_pagei a) s))
unfolding virtual_to_physical
virtual_to_physical-plain a s =
    ap (λ b. if not b then 0 else pte_addr (entry (addr_tab a) (addr_pagei a) s))
      (get_tab-present a s)

-- Another directory changes no page of memory.
pub load_directory-page :
    (words : ℕ → ℕ) (s : Vm) (q : ℕ) → page_words q (load_directory words s) ≡ page_words q s
unfolding page_words load_directory
load_directory-page words s q = elim (Bool-cases (q == rec_page words)) [
  | inl e ↦
      if-true _ _ e ∙ ap (λ p. page_words p s) {x = rec_page words} {y = q} (ground (arith, e))
  | inr e ↦ if-false _ _ e ∙ swap (q == rec_page s.dir) refl
]
  where
    swap :
        (b : Bool)
        → (q == rec_page s.dir) ≡ b
        → update s.frames (rec_page s.dir) s.rec_tab q ≡ (if b then s.rec_tab else s.frames q)
    swap true e = if-true {b = rec_page s.dir == q} _ _ (ground (arith, e))
    swap false e = if-false {b = rec_page s.dir == q} _ _ (ground (arith, e))
