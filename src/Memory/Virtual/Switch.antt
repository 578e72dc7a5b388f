-- ===== src/Memory/Virtual/Switch.antt =====
-- make_address_space and switch_address_space of src/kernel/src/memory/manager-virtual.cc: what the
-- processor finds for each address in the new address space.
use rikai_os.Base.{
  ℕ, refl, sym, ap, inl, inr, Bool, true, false, not, Option, none, some, arith, if◌then◌else◌, ◌^◌,
  ◌≤◌, ◌<◌, ◌≡◌, ◌∙◌, ◌&&◌, ◌==◌, leb, if-true, if-false, not-true, ==_refl, Bool-cases, update,
}
use mathlib.Core.Path.{ap₂, subst}
use rikai_os.Memory.Virtual.{
  Vm, Space, entry, frame_of, table_present, virtual_to_physical, page_words, rec_page,
  load_directory, write_page, new_entries, recursive_no, make_address_space, switch_address_space,
  table_flags,
}
use rikai_os.Memory.Virtual.Entry.{
  has_flag, or32, bit_or, present_bit, pte_addr, make_pte, make_pte-flag, make_pte-page, addr_tab,
  addr_page, addr_pagei,
}
use rikai_os.Memory.Virtual.Spaces.{table_flags_lt}
use rikai_os.Memory.Virtual.Walk.{
  Window, both_present, walk, both_present-absent, both_present-zero, both_present-entry,
  virtual_to_physical-plain, load_directory-page,
}

-- What the processor finds in the new address space, whose recursive table is at `pa`.
unfoldable pub new_walk : ℕ → ℕ → Vm → Option ℕ
unfolding walk recursive_no make_pte table_flags
new_walk pa a s =
    if leb 256 (addr_tab a)
    then none
    else if addr_tab a == recursive_no
    then (if leb 256 (addr_pagei a)
        then none
        else if addr_pagei a == recursive_no
        then some (make_pte pa table_flags)
        else walk a s)
    else walk a s

new_entries-kernel : (f : ℕ → ℕ) (pa t : ℕ) → t < 255 → new_entries f pa t ≡ f t
unfolding new_entries recursive_no
new_entries-kernel f pa t h =
    if-false {b = recursive_no == t} _ _ (ground (arith, h))
    ∙ if-false {b = leb 256 t} _ _ (ground (arith, h))

new_entries-user : (f : ℕ → ℕ) (pa t : ℕ) → 256 ≤ t → new_entries f pa t ≡ 0
unfolding new_entries recursive_no
new_entries-user f pa t h =
    if-false {b = recursive_no == t} _ _ (ground (arith, h))
    ∙ if-true {b = leb 256 t} _ _ (ground (arith, h))

new_entries-recursive : (f : ℕ → ℕ) (pa : ℕ) → new_entries f pa 255 ≡ make_pte pa table_flags
unfolding new_entries recursive_no
new_entries-recursive f pa = refl

pointer-present : (pa : ℕ) → has_flag present_bit (make_pte pa table_flags) ≡ true
unfolding has_flag table_flags or32 bit_or
pointer-present pa = make_pte-flag 0 pa table_flags (omega arith) ∙ flag
  where
    flag : has_flag present_bit table_flags ≡ true
    flag = refl

-- `pa` is where the new recursive table lies, in a page that the current address space does not use for
-- its page tables, and `pd` is where the new directory lies.
module _ (pd pt_rec pa : ℕ) (s : Vm) (window : Window s) (pa_fits : pa < 2 ^ 32)
    (lies : virtual_to_physical pt_rec s ≡ pa)
    (unused : (t : ℕ)
      → table_present t s ≡ true
      → (addr_page (s.dir t) == addr_page pa) ≡ false) where
  words : ℕ → ℕ
  words = new_entries s.dir pa

  recursive : ℕ → ℕ
  recursive = new_entries s.rec_tab pa

  -- The state after make_address_space, and the one after the switch.
  made : Vm
  made = write_page (addr_page pa) recursive s

  switched : Vm
  switched = load_directory words made

  not_recursive : (addr_page pa == rec_page s.dir) ≡ false
  unfolding rec_page recursive_no
  not_recursive = ground (arith, unused 255 window.present)

  new_page : rec_page words ≡ addr_page pa
  unfolding rec_page words recursive_no
  new_page =
      ap addr_page (new_entries-recursive s.dir pa)
      ∙ make_pte-page pa table_flags pa_fits table_flags_lt

  made-new : page_words (addr_page pa) made ≡ recursive
  unfolding page_words made write_page
  made-new = if-false _ _ not_recursive ∙ if-true _ _ (==_refl (addr_page pa))

  made-other : (q : ℕ) → (q == addr_page pa) ≡ false → page_words q made ≡ page_words q s
  unfolding page_words made write_page
  made-other q e =
      ap (λ f. if q == rec_page s.dir then f else update s.frames (addr_page pa) recursive q)
        (if-false _ _ not_recursive)
      ∙ ap (λ f. if q == rec_page s.dir then s.rec_tab else f)
          (if-false {b = addr_page pa == q} _ _ (ground (arith, e)))

  switched-new : switched.rec_tab ≡ recursive
  unfolding switched load_directory
  switched-new = ap (λ p. page_words p made) new_page ∙ made-new

  switched-page : (q : ℕ) → page_words q switched ≡ page_words q made
  unfolding switched
  switched-page q = load_directory-page words made q

  -- The entry of an address in the new space, by the number of its table.
  at : ℕ → ℕ → Option ℕ
  at t i = both_present (words t) (page_words (addr_page (words t)) switched i)

  before : ℕ → ℕ → Option ℕ
  before t i = both_present (s.dir t) (page_words (addr_page (s.dir t)) s i)

  at-user : (t i : ℕ) → 256 ≤ t → at t i ≡ none
  unfolding at words has_flag
  at-user t i h =
      both_present-absent (words t) _
        (ap (has_flag present_bit) {x = words t} {y = 0} (new_entries-user s.dir pa t h))

  at-kernel : (t i : ℕ) → t < 255 → at t i ≡ before t i
  unfolding at words before table_present
  at-kernel t i h =
      ap (λ e. both_present e (page_words (addr_page e) switched i))
        (new_entries-kernel s.dir pa t h)
      ∙ (elim (Bool-cases (has_flag present_bit (s.dir t))) [
        | inl e ↦
            ap (λ (f : ℕ → ℕ). both_present (s.dir t) (f i))
              (switched-page (addr_page (s.dir t)) ∙ made-other (addr_page (s.dir t)) (unused t e))
        | inr e ↦ both_present-absent (s.dir t) _ e ∙ sym (both_present-absent (s.dir t) _ e)
      ])

  -- The words of the new recursive table.
  at-window : (i : ℕ) → at 255 i ≡ both_present (make_pte pa table_flags) (recursive i)
  unfolding at words rec_page recursive_no
  at-window i =
      ap₂ (λ e (f : ℕ → ℕ). both_present e (f i)) (new_entries-recursive s.dir pa)
        (ap (λ p. page_words p switched) new_page ∙ switched-page (addr_page pa) ∙ made-new)

  before-window : (i : ℕ) → before 255 i ≡ both_present (s.dir 255) (s.rec_tab i)
  unfolding before page_words rec_page recursive_no
  before-window i =
      ap (λ (f : ℕ → ℕ). both_present (s.dir 255) (f i))
        (if-true _ _ (==_refl (addr_page (s.dir 255))))

  at-window_kernel : (i : ℕ) → i < 255 → at 255 i ≡ before 255 i
  unfolding recursive both_present table_present recursive_no
  at-window_kernel i h =
      at-window i
      ∙ ap (both_present (make_pte pa table_flags)) (new_entries-kernel s.rec_tab pa i h)
      ∙ ap (λ b. if b && has_flag present_bit (s.rec_tab i) then some (s.rec_tab i) else none)
          (pointer-present pa ∙ sym window.present)
      ∙ sym (before-window i)

  at-window_user : (i : ℕ) → 256 ≤ i → at 255 i ≡ none
  unfolding recursive
  at-window_user i h =
      at-window i ∙ both_present-zero _ (recursive i) (new_entries-user s.rec_tab pa i h)

  at-window_window : at 255 255 ≡ some (make_pte pa table_flags)
  unfolding recursive
  at-window_window =
      at-window 255
      ∙ ap (both_present (make_pte pa table_flags)) (new_entries-recursive s.rec_tab pa)
      ∙ both_present-entry _ _ (pointer-present pa) (pointer-present pa)

  switched-walk : (a : ℕ) → walk a switched ≡ new_walk pa a s
  unfolding walk new_walk at before switched load_directory recursive_no
  switched-walk a = by_table (leb 256 t) (t == 255) refl refl
    where
      t : ℕ
      t = addr_tab a

      i : ℕ
      i = addr_pagei a

      by_page :
          (u v : Bool)
          → leb 256 i ≡ u
          → (i == 255) ≡ v
          → at 255 i
            ≡ (if u then none else if v then some (make_pte pa table_flags) else before 255 i)
      by_page true v e f = at-window_user i (ground (arith, e))
      by_page false true e f = ap (at 255) {x = i} {y = 255} (ground (arith, f)) ∙ at-window_window
      by_page false false e f = at-window_kernel i (ground (arith, e, f))

      by_table :
          (u v : Bool)
          → leb 256 t ≡ u
          → (t == 255) ≡ v
          → at t i ≡ (
              if u
              then none
              else if v
              then (if leb 256 i
                  then none
                  else if i == 255
                  then some (make_pte pa table_flags)
                  else before t i)
              else before t i)
      by_table true v e f = at-user t i (ground (arith, e))
      by_table false true e f =
          subst
            (λ x. at x i ≡ (
              if leb 256 i
              then none
              else if i == 255
              then some (make_pte pa table_flags)
              else before x i))
            {x = 255} {y = t} (ground (arith, f)) (by_page (leb 256 i) (i == 255) refl refl)
      by_table false false e f = at-kernel t i (ground (arith, e, f))

  words-kernel : (t : ℕ) → t < 255 → words t ≡ s.dir t
  unfolding words
  words-kernel t h = new_entries-kernel s.dir pa t h

  switched-frame :
      (t : ℕ)
      → has_flag present_bit (words t) ≡ true
      → addr_page (recursive t) ≡ addr_page (words t)
  unfolding words recursive has_flag table_present frame_of recursive_no new_entries
  switched-frame t e = by_table (leb 256 t) (t == 255) refl refl
    where
      absent : ¬ (false ≡ true)
      absent e = ground (arith, e)

      by_table :
          (u v : Bool)
          → leb 256 t ≡ u
          → (t == 255) ≡ v
          → addr_page (recursive t) ≡ addr_page (words t)
      by_table true v f g = absurd (
          absent (
            sym (
              ap (has_flag present_bit) {x = words t} {y = 0}
                (new_entries-user s.dir pa t (ground (arith, f))))
            ∙ e))
      by_table false true f g =
          subst (λ x. addr_page (recursive x) ≡ addr_page (words x)) {x = 255} {y = t}
            (ground (arith, g)) refl
      by_table false false f g =
          ap addr_page (new_entries-kernel s.rec_tab pa t (ground (arith, f, g)))
          ∙ window.same t (
              sym (ap (has_flag present_bit) (new_entries-kernel s.dir pa t (ground (arith, f, g))))
              ∙ e)
          ∙ ap addr_page (sym (new_entries-kernel s.dir pa t (ground (arith, f, g))))

  switched-Window : Window switched
  unfolding table_present frame_of switched load_directory recursive_no words new_entries
  switched-Window = record {
    present = ap (has_flag present_bit) (new_entries-recursive s.dir pa) ∙ pointer-present pa;
    same = λ t e. ap (λ (f : ℕ → ℕ). addr_page (f t)) switched-new ∙ switched-frame t e;
  }

  made-virtual_to_physical : (a : ℕ) → virtual_to_physical a made ≡ virtual_to_physical a s
  unfolding made write_page table_present entry frame_of
  made-virtual_to_physical a =
      virtual_to_physical-plain a made
      ∙ (elim (Bool-cases (table_present (addr_tab a) s)) [
        | inl e ↦
            ap
              (λ (f : ℕ → ℕ).
                if not (table_present (addr_tab a) s)
                then 0
                else pte_addr (
                    update s.frames (addr_page pa) recursive (addr_page (f (addr_tab a)))
                      (addr_pagei a)))
              (if-false _ _ not_recursive)
            ∙ ap
                (λ (f : ℕ → ℕ).
                  if not (table_present (addr_tab a) s) then 0 else pte_addr (f (addr_pagei a)))
                (if-false {b = addr_page pa == addr_page (s.rec_tab (addr_tab a))} _ _
                  (ground (arith, unused (addr_tab a) e, window.same (addr_tab a) e)))
        | inr e ↦ if-true _ _ (not-true e) ∙ sym (if-true _ _ (not-true e))
      ])
      ∙ sym (virtual_to_physical-plain a s)

  makes :
      make_address_space true (some pd) (some pt_rec) s
      ≡ some (record { pd = record { addr = pd; words = words }; pt_rec = pt_rec }, made)
  unfolding make_address_space made words recursive
  makes =
      ap
        (λ p. some (
          record { pd = record { addr = pd; words = new_entries s.dir p }; pt_rec = pt_rec },
          write_page (addr_page p) (new_entries s.rec_tab p) s,
        ))
        lies

-- Where the window of the page tables is there, the new recursive table lies in a page that the
-- current address space does not use for a page table, and the new directory is mapped: the new address
-- space can be switched to. There the processor finds for each address of kernel memory below the
-- window what it found before, for user memory nothing, and in the window the page tables of kernel
-- memory that were there before, its own recursive table, and no table of user memory. The window
-- then has the tables at which the new directory points.
pub make_address_space-walk :
    (pd pt_rec : ℕ) (s : Vm)
    → Window s
    → virtual_to_physical pt_rec s < 2 ^ 32
    → (virtual_to_physical pd s == 0) ≡ false
    → ((t : ℕ)
        → table_present t s ≡ true
        → (addr_page (s.dir t) == addr_page (virtual_to_physical pt_rec s)) ≡ false)
    → (space : Space) × (s1 : Vm) × (s2 : Vm) × (make_address_space true (some pd) (some pt_rec) s
        ≡ some (space, s1))
      × (switch_address_space space.pd s1 ≡ some s2)
      × ((a : ℕ) → walk a s2 ≡ new_walk (virtual_to_physical pt_rec s) a s)
      × Window s2
unfolding switch_address_space switched
make_address_space-walk pd pt_rec s window fits mapped unused =
    let pa = virtual_to_physical pt_rec s in
    (
      _,
      made pd pt_rec pa s window fits refl unused,
      switched pd pt_rec pa s window fits refl unused,
      makes pd pt_rec pa s window fits refl unused,
      if-false _ _ (
          ap (λ x. x == 0) (made-virtual_to_physical pd pt_rec pa s window fits refl unused pd)
          ∙ mapped),
      switched-walk pd pt_rec pa s window fits refl unused,
      switched-Window pd pt_rec pa s window fits refl unused,
    )
