-- ===== src/Memory/Virtual/Delete.antt =====
-- delete_address_space of src/kernel/src/memory/manager-virtual.cc: the pages of memory that it frees.
use rikai_os.Base.{
  ℕ, refl, sym, ap, inl, inr, Bool, true, false, Option, none, some, arith, if◌then◌else◌, ◌+◌, ◌*◌,
  ◌^◌, ◌≤◌, ◌<◌, ◌≡◌, ◌∙◌, ◌⊎◌, ◌&&◌, ◌==◌, if-true, if-false, Bool-cases,
}
use mathlib.Core.Option.{some-injective, none-ne-some}
use rikai_os.Bitset.{get_bit}
use rikai_os.Memory.Physical.{Pages}
use rikai_os.Memory.Virtual.{
  Vm, Space, PageDir, entry, frame_of, table_present, virtual_to_physical, page_words, rec_page,
  load_directory, switch_address_space, free_tables, free_space, delete_address_space,
}
use rikai_os.Memory.Virtual.Entry.{
  has_flag, present_bit, borrowed_bit, addr_tab, addr_page, addr_pagei,
}
use rikai_os.Memory.Virtual.Walk.{
  Window, both_present, walk, load_directory-page, virtual_to_physical-plain,
}
use rikai_os.Memory.Virtual.Freed.{Freed, TablesOwned, free_tables-Freed}

-- The page is a page table of user memory, or an address of user memory is mapped to it and does not
-- borrow it.
abbrev pub IsOwned : ℕ → Vm → Type 0
IsOwned q s =
    ((t : ℕ) × (256 ≤ t) × (t < 1024) × (table_present t s ≡ true) × (addr_page (s.dir t) ≡ q))
    ⊎ ((a : ℕ) × (pte : ℕ) × (2 ^ 30 ≤ a)
        × (a < 2 ^ 32)
        × (walk a s ≡ some pte)
        × (has_flag borrowed_bit pte ≡ false)
        × (addr_page pte ≡ q))

-- From `s` to `s'` each address keeps its entry, and exactly the pages that are owned in `inside` become
-- free.
pub record Deleted (inside s s' : Vm) : Type 0 where
  pub dir : s'.dir ≡ s.dir
  pub walks : (a : ℕ) → walk a s' ≡ walk a s
  pub only :
      (q : ℕ)
      → get_bit q s'.pages.bitmap ≡ true
      → (get_bit q s.pages.bitmap ≡ true) ⊎ IsOwned q inside
  pub stays : (q : ℕ) → get_bit q s.pages.bitmap ≡ true → get_bit q s'.pages.bitmap ≡ true
  pub owned : (q : ℕ) → IsOwned q inside → get_bit q s'.pages.bitmap ≡ true

both_present-some :
    (pde pte x : ℕ)
    → both_present pde pte ≡ some x
    → (has_flag present_bit pde ≡ true) × (has_flag present_bit pte ≡ true) × (pte ≡ x)
unfolding both_present
both_present-some pde pte x e =
    flags (has_flag present_bit pde) (has_flag present_bit pte) refl refl e
  where
    flags :
        (a b : Bool)
        → has_flag present_bit pde ≡ a
        → has_flag present_bit pte ≡ b
        → (if a && b then some pte else none) ≡ some x
        → (has_flag present_bit pde ≡ true) × (has_flag present_bit pte ≡ true) × (pte ≡ x)
    flags true true f g h = (f, g, some-injective _ _ h)
    flags true false f g h = absurd (none-ne-some x h)
    flags false true f g h = absurd (none-ne-some x h)
    flags false false f g h = absurd (none-ne-some x h)

switch_address_space-page :
    (d : PageDir) (s s1 : Vm) (q : ℕ)
    → switch_address_space d s ≡ some s1
    → page_words q s1 ≡ page_words q s
unfolding switch_address_space
switch_address_space-page d s s1 q e = elim (Bool-cases (virtual_to_physical d.addr s == 0)) [
  | inl f ↦ absurd (none-ne-some s1 (sym (if-true _ _ f) ∙ e))
  | inr f ↦
      ap (page_words q) (sym (some-injective _ _ (sym (if-false _ _ f) ∙ e)))
      ∙ load_directory-page d.words s q
]

switch_address_space-pages :
    (d : PageDir) (s s1 : Vm) → switch_address_space d s ≡ some s1 → s1.pages ≡ s.pages
unfolding switch_address_space load_directory
switch_address_space-pages d s s1 e = elim (Bool-cases (virtual_to_physical d.addr s == 0)) [
  | inl f ↦ absurd (none-ne-some s1 (sym (if-true _ _ f) ∙ e))
  | inr f ↦ ap (λ (x : Vm). x.pages) (sym (some-injective _ _ (sym (if-false _ _ f) ∙ e)))
]

-- The software and the processor see the same words of a table of user memory.
module _ (s : Vm) (window : Window s)
    (apart : (t : ℕ)
      → 256 ≤ t
      → table_present t s ≡ true
      → (addr_page (s.dir t) == rec_page s.dir) ≡ false) where
  user_word :
      (t i : ℕ)
      → 256 ≤ t
      → table_present t s ≡ true
      → page_words (addr_page (s.dir t)) s i ≡ entry t i s
  unfolding page_words entry
  user_word t i h e =
      ap (λ (f : ℕ → ℕ). f i) (if-false _ _ (apart t h e))
      ∙ ap (λ p. s.frames p i) (sym (window.same t e))

  TablesOwned-IsOwned : (q : ℕ) → TablesOwned 1024 0 s q → IsOwned q s
  unfolding walk both_present table_present
  TablesOwned-IsOwned q (u, lo, hi, (user, e, inr p)) = inl (u, user, omega (arith, hi), e, p)
  TablesOwned-IsOwned q (u, lo, hi, (user, e, inl (i, low, high, h))) = inr (
    u * 0x40_0000 + i * 4096,
    entry u i s,
    omega (arith, user),
    omega (arith, hi, high),
    ap (λ t. at t (addr_pagei (u * 0x40_0000 + i * 4096))) {x = addr_tab (u * 0x40_0000 + i * 4096)}
          {y = u} (omega (arith, high))
        ∙ ap (at u) {x = addr_pagei (u * 0x40_0000 + i * 4096)} {y = i} (omega (arith, high))
        ∙ ap (both_present (s.dir u)) (user_word u i user e)
        ∙ if-true _ _ (both e h.present),
    h.not_borrowed,
    h.page,
  )
    where
      at : ℕ → ℕ → Option ℕ
      at t j = both_present (s.dir t) (page_words (addr_page (s.dir t)) s j)

      both : {a b : Bool} → a ≡ true → b ≡ true → (a && b) ≡ true
      both f g = ground (arith, f, g)

  IsOwned-TablesOwned : (q : ℕ) → IsOwned q s → TablesOwned 1024 0 s q
  unfolding walk table_present
  IsOwned-TablesOwned q (inl (t, lo, hi, e, p)) =
      (t, omega arith, omega (arith, hi), (lo, e, inr p))
  IsOwned-TablesOwned q (inr (a, pte, lo, hi, w, b, p)) =
      let user : 256 ≤ addr_tab a = omega (arith, lo) in
      let (e, f, g) = both_present-some _ _ pte w in
      let word = sym (user_word (addr_tab a) (addr_pagei a) user e) in
      (
        addr_tab a,
        omega arith,
        omega (arith, hi),
        (
          user,
          e,
          inl (
            addr_pagei a,
            omega arith,
            omega arith,
            record {
              present = ap (has_flag present_bit) word ∙ f;
              not_borrowed = ap (has_flag borrowed_bit) (word ∙ g) ∙ b;
              page = ap addr_page (word ∙ g) ∙ p;
            },
          ),
        ),
      )

-- The pages that are free make no difference to where an address is mapped.
virtual_to_physical-pages :
    (a : ℕ) (s : Vm) (pages : Pages)
    → virtual_to_physical a (record s { pages = pages }) ≡ virtual_to_physical a s
unfolding table_present entry frame_of
virtual_to_physical-pages a s pages =
    virtual_to_physical-plain a (record s { pages = pages }) ∙ sym (virtual_to_physical-plain a s)

-- Where the directory of an address space is mapped in the current one, and the current directory in that
-- one, and in that one the window is there with the tables at which the directory points, and no table of
-- user memory is the recursive one: delete_address_space passes its assertions, leads back to the current
-- directory, in which the processor finds the same for each address as before, and makes exactly those
-- pages free that are page tables of user memory of the deleted space, or to which an address of user
-- memory is mapped there without borrowing.
pub delete_address_space-Deleted :
    (space : Space) (current_dir : ℕ) (s s1 : Vm)
    → switch_address_space space.pd s ≡ some s1
    → (virtual_to_physical current_dir s1 == 0) ≡ false
    → Window s1
    → ((t : ℕ)
        → 256 ≤ t
        → table_present t s1 ≡ true
        → (addr_page (s1.dir t) == rec_page s1.dir) ≡ false)
    → (s' : Vm) × (delete_address_space space current_dir s ≡ some s') × Deleted s1 s s'
unfolding delete_address_space free_space switch_address_space walk load_directory page_words
delete_address_space-Deleted space current_dir s s1 e mapped window apart = (
  load_directory s.dir emptied,
  ap (free_space (record { addr = current_dir; words = s.dir })) e
      ∙ if-false _ _ (
          ap (λ x. x == 0)
            (ap (virtual_to_physical current_dir) f.rest
              ∙ virtual_to_physical-pages current_dir s1 emptied.pages)
          ∙ mapped),
  record {
    dir = refl;
    walks = λ a.
        ap (λ (g : ℕ → ℕ). both_present (s.dir (addr_tab a)) (g (addr_pagei a)))
          (load_directory-page s.dir emptied (addr_page (s.dir (addr_tab a)))
            ∙ ap (page_words (addr_page (s.dir (addr_tab a)))) f.rest
            ∙ switch_address_space-page space.pd s s1 (addr_page (s.dir (addr_tab a))) e);
    only = λ q g. elim (f.only q g) [
      | inl x ↦ inl (ap (λ p. get_bit q p.bitmap) (sym same_pages) ∙ x)
      | inr y ↦ inr (TablesOwned-IsOwned s1 window apart q y)
    ];
    stays = λ q g. f.stays q (ap (λ p. get_bit q p.bitmap) same_pages ∙ g);
    owned = λ q g. f.owned q (IsOwned-TablesOwned s1 window apart q g);
  },
)
  where
    emptied : Vm
    emptied = free_tables 1024 0 s1

    same_pages : s1.pages ≡ s.pages
    same_pages = switch_address_space-pages space.pd s s1 e

    f : Freed s1 s1.pages (TablesOwned 1024 0 s1) emptied
    f = free_tables-Freed 1024 0 s1 s1.pages
