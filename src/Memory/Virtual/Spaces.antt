-- ===== src/Memory/Virtual/Spaces.antt =====
-- The page tables that get_tab allocates, of src/kernel/src/memory/manager-virtual.cc.
use rikai_os.Base.{
  ℕ, refl, ap, Bool, true, false, Option, none, some, arith, if◌then◌else◌, ◌<◌, ◌≡◌, ◌∙◌, ◌&&◌,
  ◌==◌, if-true, if-false, not-true, ==_refl, update,
}
use mathlib.Core.Path.{ap₂}
use rikai_os.Memory.Virtual.{
  Vm, entry, frame_of, table_present, get_tab, install_table, table_flags, directory_flags,
}
use rikai_os.Memory.Region.{addr_in_region}
use rikai_os.Memory.Layout.{user}
use rikai_os.Memory.Virtual.Entry.{
  has_flag, or32, bit_or, present_bit, flag_user, make_pte, make_pte-flag, make_pte-page, addr_tab,
  addr_page, addr_pagei, page_addr,
}
use rikai_os.Memory.Virtual.Translation.{translation}
use rikai_os.Memory.Physical.{Pages, allocate_one}

-- What a page of memory held before it became a page table.
abbrev pub left_over : ℕ → ℕ → Vm → Option ℕ
left_over p a s =
    if has_flag present_bit (s.frames p (addr_pagei a))
    then some (s.frames p (addr_pagei a))
    else none

-- The state after `p` has become the page table of `virt`.
abbrev installed : ℕ → ℕ → Pages → Vm → Vm
installed virt p pages s = record s {
  pages = pages;
  rec_tab = update s.rec_tab (addr_tab virt) (make_pte (page_addr p) table_flags);
  dir = update s.dir (addr_tab virt) (make_pte (page_addr p) (directory_flags virt));
}

get_tab-installed :
    (virt p : ℕ) (pages : Pages) (s : Vm)
    → table_present (addr_tab virt) s ≡ false
    → allocate_one s.pages ≡ (p, pages)
    → 0 < p
    → get_tab virt true s ≡ (true, installed virt p pages s)
unfolding get_tab install_table
get_tab-installed virt p pages s absent alloc positive =
    if-true _ _ (not-true absent)
    ∙ ap (λ r. install_table virt r s) alloc
    ∙ if-false {b = p == 0} _ _ (ground (arith, positive))

directory_flags-present : (virt : ℕ) → has_flag present_bit (directory_flags virt) ≡ true
unfolding directory_flags table_flags or32 bit_or has_flag
directory_flags-present virt = either (addr_in_region virt user)
  where
    either :
        (b : Bool)
        → has_flag present_bit (if b then or32 table_flags flag_user else table_flags) ≡ true
    either true = refl
    either false = refl

pub table_flags_lt : table_flags < 4096
unfolding table_flags or32 bit_or
table_flags_lt = omega arith

installed-present :
    (virt p : ℕ) (pages : Pages) (s : Vm)
    → table_present (addr_tab virt) (installed virt p pages s) ≡ true
unfolding table_present
installed-present virt p pages s =
    ap (has_flag present_bit) (if-true _ _ (==_refl (addr_tab virt)))
    ∙ make_pte-flag 0 (page_addr p) (directory_flags virt) (omega arith)
    ∙ directory_flags-present virt

installed-frame :
    (virt p : ℕ) (pages : Pages) (s : Vm)
    → p < 1048576
    → frame_of (addr_tab virt) (installed virt p pages s) ≡ p
unfolding frame_of
installed-frame virt p pages s fits =
    ap addr_page (if-true _ _ (==_refl (addr_tab virt)))
    ∙ make_pte-page (page_addr p) table_flags (omega (arith, fits)) table_flags_lt
    ∙ omega (arith, fits)

-- When get_tab allocates a page `p` of the first 4 GiB, not the page 0, for the table of an address, every address of that table is
-- translated by the word that the page happens to hold: the new table is not cleared.
pub get_tab-stale :
    (virt a p : ℕ) (pages : Pages) (s : Vm)
    → table_present (addr_tab virt) s ≡ false
    → allocate_one s.pages ≡ (p, pages)
    → 0 < p
    → p < 1048576
    → addr_tab a ≡ addr_tab virt
    → translation a (get_tab virt true s).1 ≡ left_over p a s
unfolding translation entry
get_tab-stale virt a p pages s absent alloc positive fits same =
    ap (λ (r : Bool × Vm). translation a r.1)
      (get_tab-installed virt p pages s absent alloc positive)
    ∙ ap (λ t. at (table_present t new) (frame_of t new)) same
    ∙ ap₂ at (installed-present virt p pages s) (installed-frame virt p pages s fits)
  where
    new : Vm
    new = installed virt p pages s

    at : Bool → ℕ → Option ℕ
    at b q =
        if b && has_flag present_bit (s.frames q (addr_pagei a))
        then some (s.frames q (addr_pagei a))
        else none
