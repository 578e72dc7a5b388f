-- ===== src/Memory/Virtual/Mapped.antt =====
-- `is_mapped` of src/kernel/src/memory/manager-virtual.cc: whether every byte of a range is translated.
use rikai_os.Base.{
  ℕ, zero, suc, max, refl, sym, ap, inl, inr, Bool, true, false, not, some, arith, if◌then◌else◌,
  ◌+◌, ◌-◌, ◌*◌, ◌/◌, ◌%◌, ◌≤◌, ◌<◌, ◌≡◌, ◌∙◌, ◌↔◌, ◌==◌, if-true, if-false, not-true, not-false,
  Bool-cases, u32_mod, add32, mul32,
}
use mathlib.Core.Path.{subst}
use mathlib.Core.Option.{none-ne-some}
use rikai_os.Math.{div_ceil}
use rikai_os.Math.Rounding.{div_ceil_lem}
use rikai_os.Memory.Virtual.{Vm, page_mapped, mapped_loop, is_mapped, entry, table_present}
use rikai_os.Memory.Virtual.Entry.{addr_tab, addr_pagei, has_flag, present_bit, pte_addr}
use rikai_os.Memory.Virtual.Translation.{translation, page_mapped-translation, get_tab-present}
use rikai_os.Memory.Physical.{page_size}

-- The address is translated.
abbrev pub IsTranslated : ℕ → Vm → Type 0
IsTranslated a s = (pte : ℕ) × (translation a s ≡ some pte)

page_mapped-IsTranslated : (a : ℕ) (s : Vm) → page_mapped a s ≡ true → IsTranslated a s
page_mapped-IsTranslated a s e =
    (entry (addr_tab a) (addr_pagei a) s, page_mapped-translation a s ∙ if-true _ _ e)

IsTranslated-page_mapped : (a : ℕ) (s : Vm) → IsTranslated a s → page_mapped a s ≡ true
IsTranslated-page_mapped a s (pte, e) = elim (Bool-cases (page_mapped a s)) [
  | inl f ↦ f
  | inr f ↦ absurd (none-ne-some pte (sym (if-false _ _ f) ∙ sym (page_mapped-translation a s) ∙ e))
]

page_mapped-page : (a b : ℕ) (s : Vm) → a / 4096 ≡ b / 4096 → page_mapped a s ≡ page_mapped b s
unfolding page_mapped
page_mapped-page a b s e =
    ap (λ p. if not p then false else has_flag present_bit (entry (addr_tab a) (addr_pagei a) s))
      (get_tab-present a s)
    ∙ ap (λ t. at t (addr_pagei a)) {x = addr_tab a} {y = addr_tab b} (omega (arith, e))
    ∙ ap (at (addr_tab b)) {x = addr_pagei a} {y = addr_pagei b} (ap (λ p. p % 1024) e)
    ∙ ap (λ p. if not p then false else has_flag present_bit (entry (addr_tab b) (addr_pagei b) s))
        (sym (get_tab-present b s))
  where
    at : ℕ → ℕ → Bool
    at t i = if not (table_present t s) then false else has_flag present_bit (entry t i s)

mapped_loop-all :
    (n pn virt : ℕ) (s : Vm)
    → mapped_loop n pn virt s ≡ true
    → (j : ℕ) → pn ≤ j
    → j < pn + n
    → page_mapped (add32 virt (mul32 j page_size)) s ≡ true
unfolding mapped_loop
mapped_loop-all zero pn virt s e j lo hi = absurd (omega arith)
mapped_loop-all (suc n) pn virt s e j lo hi =
    elim (Bool-cases (page_mapped (add32 virt (mul32 pn page_size)) s)) [
      | inr f ↦ absurd (false_true (sym (if-true _ _ (not-true f)) ∙ e))
      | inl f ↦ elim (Bool-cases (pn == j)) [
        | inl g ↦
            subst (λ k. page_mapped (add32 virt (mul32 k page_size)) s ≡ true) {x = pn} {y = j}
              (ground (arith, g)) f
        | inr g ↦
            mapped_loop-all n (pn + 1) virt s (sym (if-false _ _ (not-false f)) ∙ e) j
              (ground (arith, g, lo)) (omega (arith, hi))
      ]
    ]
  where
    false_true : ¬ (false ≡ true)
    false_true e = ground arith

all-mapped_loop :
    (n pn virt : ℕ) (s : Vm)
    → ((j : ℕ) → pn ≤ j → j < pn + n → page_mapped (add32 virt (mul32 j page_size)) s ≡ true)
    → mapped_loop n pn virt s ≡ true
unfolding mapped_loop
all-mapped_loop zero pn virt s h = refl
all-mapped_loop (suc n) pn virt s h =
    if-false _ _ (not-false (h pn (omega arith) (omega arith)))
    ∙ all-mapped_loop n (pn + 1) virt s (λ j lo hi. h j (omega arith) (omega arith))

-- For a range of at least one byte that ends a page before the end of the address space, `is_mapped`
-- answers true exactly if every address of the range is translated.
pub is_mapped_iff :
    (virt size : ℕ) (s : Vm)
    → 0 < size
    → virt + size + page_size ≤ u32_mod
    → (is_mapped virt size s ≡ true) ↔ ((a : ℕ) → virt ≤ a → a < virt + size → IsTranslated a s)
unfolding is_mapped
is_mapped_iff virt size s positive h = (forth, back)
  where
    base : ℕ
    base = pte_addr virt

    n : ℕ
    n = div_ceil (add32 size (virt % 4096)) page_size

    rounded : (size + virt % 4096 ≤ n * 4096) × (n * 4096 < size + virt % 4096 + 4096)
    rounded =
        let r = div_ceil_lem (add32 size (virt % 4096)) page_size (omega arith) (omega arith) in
        (omega (arith, r.0, h), omega (arith, r.1, h))

    forth : is_mapped virt size s ≡ true → (a : ℕ) → virt ≤ a → a < virt + size → IsTranslated a s
    forth e a lo hi =
        let j : ℕ = a / 4096 - virt / 4096 in
        page_mapped-IsTranslated a s (
          page_mapped-page a (add32 base (mul32 j page_size)) s (omega (arith, h, lo, hi))
          ∙ mapped_loop-all n 0 base s e j (omega arith) (omega (arith, rounded, lo, hi)))

    back : ((a : ℕ) → virt ≤ a → a < virt + size → IsTranslated a s) → is_mapped virt size s ≡ true
    back f = all-mapped_loop n 0 base s (λ j lo hi.
        page_mapped-page (add32 base (mul32 j page_size)) (max virt (base + j * 4096)) s
          (omega (arith, h, rounded, hi))
        ∙ IsTranslated-page_mapped (max virt (base + j * 4096)) s
            (f (max virt (base + j * 4096)) (omega arith) (omega (arith, rounded, hi, positive))))
