-- ===== src/Memory/Virtual/Translation.antt =====
-- What the page tables of src/kernel/src/memory/manager-virtual.cc translate an address to, and the writes
-- to an entry.
use rikai_os.Base.{
  ℕ, refl, sym, ap, inl, inr, Bool, true, false, not, Option, none, some, arith, if◌then◌else◌, ◌/◌,
  ◌≡◌, ◌∙◌, ◌&&◌, ◌==◌, if-true, if-false, not-false, ==_refl, Bool-cases,
}
use mathlib.Core.Path.{subst}
use rikai_os.Memory.Virtual.{Vm, entry, set_entry, frame_of, table_present, get_tab, page_mapped}
use rikai_os.Memory.Virtual.Entry.{has_flag, present_bit, addr_tab, addr_pagei}

-- The entry of a page that is mapped.
unfoldable pub translation : ℕ → Vm → Option ℕ
unfolding entry table_present has_flag
translation a s =
    if table_present (addr_tab a) s && has_flag present_bit (entry (addr_tab a) (addr_pagei a) s)
    then some (entry (addr_tab a) (addr_pagei a) s)
    else none

-- No two page tables that are present share a page.
pub record Separate (s : Vm) : Type 0 where
  pub separate :
      (t u : ℕ)
      → table_present t s ≡ true
      → table_present u s ≡ true
      → frame_of t s ≡ frame_of u s
      → t ≡ u

pub get_tab-present : (a : ℕ) (s : Vm) → (get_tab a false s).0 ≡ table_present (addr_tab a) s
unfolding get_tab
get_tab-present a s = elim (Bool-cases (table_present (addr_tab a) s)) [
  | inl e ↦ rw e refl
  | inr e ↦ rw e refl
]

pub get_tab-same :
    (a : ℕ) (b : Bool) (s : Vm) → table_present (addr_tab a) s ≡ true → get_tab a b s ≡ (true, s)
unfolding get_tab
get_tab-same a b s e = if-false _ _ (not-false e)

-- `is_mapped` of one page asks whether it is translated.
pub page_mapped-translation :
    (a : ℕ) (s : Vm)
    → translation a s
      ≡ (if page_mapped a s then some (entry (addr_tab a) (addr_pagei a) s) else none)
unfolding translation page_mapped
page_mapped-translation a s =
    ap (λ b. if b then some (entry (addr_tab a) (addr_pagei a) s) else none)
      (both (table_present (addr_tab a) s) (get_tab a false s).0 _ (get_tab-present a s))
  where
    both : (p g f : Bool) → g ≡ p → (p && f) ≡ (if not g then false else f)
    both p g f e = ground (arith, e)

-- The address of another page belongs to another entry.
other_entry :
    (a b : ℕ)
    → (a / 4096 == b / 4096) ≡ false
    → ((addr_tab a == addr_tab b) ≡ true)
    → (addr_pagei a == addr_pagei b) ≡ false
other_entry a b e f = ground (arith, e, f)

pub same_tab : (a b : ℕ) → (a / 4096 == b / 4096) ≡ true → addr_tab a ≡ addr_tab b
same_tab a b e = ground (arith, e)

pub same_pagei : (a b : ℕ) → (a / 4096 == b / 4096) ≡ true → addr_pagei a ≡ addr_pagei b
same_pagei a b e = ground (arith, e)

entry-here : (t i v : ℕ) (s : Vm) → entry t i (set_entry t i v s) ≡ v
unfolding entry set_entry frame_of
entry-here t i v s =
    ap (λ (f : ℕ → ℕ). f i) (if-true _ _ (==_refl (frame_of t s))) ∙ if-true _ _ (==_refl i)

entry-other_index :
    (t i j v : ℕ) (s : Vm) → (j == i) ≡ false → entry t i (set_entry t j v s) ≡ entry t i s
unfolding entry set_entry frame_of
entry-other_index t i j v s e =
    ap (λ (f : ℕ → ℕ). f i) (if-true _ _ (==_refl (frame_of t s))) ∙ if-false _ _ e

entry-other_frame :
    (t u i j v : ℕ) (s : Vm)
    → (frame_of u s == frame_of t s) ≡ false
    → entry t i (set_entry u j v s) ≡ entry t i s
unfolding entry set_entry frame_of
entry-other_frame t u i j v s e = ap (λ (f : ℕ → ℕ). f i) (if-false _ _ e)

set_entry-present : (t u j v : ℕ) (s : Vm) → table_present t (set_entry u j v s) ≡ table_present t s
unfolding table_present set_entry
set_entry-present t u j v s = refl

-- A written entry, seen from the addresses of its page and from all others.
pub set_entry-here :
    (a b v : ℕ) (s : Vm)
    → (a / 4096 == b / 4096) ≡ true
    → table_present (addr_tab b) s ≡ true
    → translation a (set_entry (addr_tab b) (addr_pagei b) v s)
      ≡ (if has_flag present_bit v then some v else none)
unfolding translation
set_entry-here a b v s e p =
    ap (λ t. translation_at t (addr_pagei a)) (same_tab a b e)
    ∙ ap (translation_at (addr_tab b)) (same_pagei a b e)
    ∙ ap (λ w. if table_present (addr_tab b) s' && has_flag present_bit w then some w else none)
        (entry-here (addr_tab b) (addr_pagei b) v s)
    ∙ ap (λ q. if q && has_flag present_bit v then some v else none)
        (set_entry-present (addr_tab b) (addr_tab b) (addr_pagei b) v s ∙ p)
  where
    s' : Vm
    s' = set_entry (addr_tab b) (addr_pagei b) v s

    translation_at : ℕ → ℕ → Option ℕ
    translation_at t i =
        if table_present t s' && has_flag present_bit (entry t i s')
        then some (entry t i s')
        else none

pub set_entry-other :
    (a b v : ℕ) (s : Vm)
    → Separate s
    → (a / 4096 == b / 4096) ≡ false
    → table_present (addr_tab b) s ≡ true
    → translation a (set_entry (addr_tab b) (addr_pagei b) v s) ≡ translation a s
unfolding translation
set_entry-other a b v s w e p =
    ap (λ q. if q && has_flag present_bit (entry t i s') then some (entry t i s') else none)
      (set_entry-present t u (addr_pagei b) v s)
    ∙ (elim (Bool-cases (table_present t s)) [
      | inr n ↦
          ap (λ q. if q && has_flag present_bit (entry t i s') then some (entry t i s') else none) n
          ∙ ap (λ q. if q && has_flag present_bit (entry t i s) then some (entry t i s) else none)
              (sym n)
      | inl y ↦
          ap (λ x. if table_present t s && has_flag present_bit x then some x else none) (same y)
    ])
  where
    t : ℕ
    t = addr_tab a

    u : ℕ
    u = addr_tab b

    i : ℕ
    i = addr_pagei a

    s' : Vm
    s' = set_entry u (addr_pagei b) v s

    in_table : (t ≡ u) → entry t i s' ≡ entry t i s
    in_table f =
        subst (λ x. entry x i s' ≡ entry x i s) (sym f)
          (entry-other_index u i (addr_pagei b) v s
            (ground (arith, other_entry a b e (ground (arith, f)))))

    same : table_present t s ≡ true → entry t i s' ≡ entry t i s
    same y = elim (Bool-cases (frame_of u s == frame_of t s)) [
      | inl f ↦ in_table (w.separate t u y p (ground (arith, f)))
      | inr f ↦ entry-other_frame t u i (addr_pagei b) v s f
    ]
