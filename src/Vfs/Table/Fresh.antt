-- ===== src/Vfs/Table/Fresh.antt =====
-- The numbers that src/kernel/src/filesystem/vfs.cc finds for handles, files and descriptors.
use rikai_os.Base.{
  ℕ, zero, suc, refl, sym, ap, inl, inr, Bool, true, false, Option, none, some, arith, ◌+◌, ◌-◌,
  ◌≤◌, ◌<◌, ◌≡◌, ◌∙◌, ◌≢◌, ◌&&◌, ◌==◌, ltb, if-true, if-false, ltb→lt, Bool-cases,
}
use mathlib.Core.Option.{some-injective, none-ne-some}
use rikai_os.Vfs.Table.{
  Tables, first_free, is_free, in_place, alloc_handle_i, alloc_proc_handle_i, max_proc_files,
  max_file_handles,
}

pub is_free-none : (o : Option ℕ) → is_free o ≡ true → o ≡ none
unfolding is_free
is_free-none none e = refl
is_free-none (some h) e = absurd (differ e)
  where
    differ : false ≢ true
    differ e = ground arith

-- The number that is found is in the range, its entry is null, and it is the first such one.
pub first_free-some :
    (n i k : ℕ) (t : ℕ → Option ℕ)
    → first_free n i t ≡ some k
    → (i ≤ k) × (k < i + n) × (t k ≡ none) × ((j : ℕ) → i ≤ j → j < k → is_free (t j) ≡ false)
unfolding first_free
first_free-some zero i k t e = absurd (none-ne-some k e)
first_free-some (suc n) i k t e = elim (Bool-cases (is_free (t i))) [
  | inl f ↦ here n i k t f (sym (if-true _ _ f) ∙ e)
  | inr f ↦ behind n i k t f (first_free-some n (i + 1) k t (sym (if-false _ _ f) ∙ e))
]
  where
    here :
        (n i k : ℕ) (t : ℕ → Option ℕ)
        → is_free (t i) ≡ true
        → some i ≡ some k
        → (i ≤ k)
          × (k < i + suc n)
          × (t k ≡ none)
          × ((j : ℕ) → i ≤ j → j < k → is_free (t j) ≡ false)
    here n i k t f e =
        let same = some-injective i k e in
        (
          omega (arith, same),
          omega (arith, same),
          ap t (sym same) ∙ is_free-none (t i) f,
          λ j p q. absurd (omega (arith, same)),
        )

    behind :
        (n i k : ℕ) (t : ℕ → Option ℕ)
        → is_free (t i) ≡ false
        → (i + 1 ≤ k)
          × (k < i + 1 + n)
          × (t k ≡ none)
          × ((j : ℕ) → i + 1 ≤ j → j < k → is_free (t j) ≡ false)
        → (i ≤ k)
          × (k < i + suc n)
          × (t k ≡ none)
          × ((j : ℕ) → i ≤ j → j < k → is_free (t j) ≡ false)
    behind n i k t f (lo, hi, free, taken) = (
      omega arith,
      omega arith,
      free,
      λ j p q. elim (Bool-cases (i == j)) [
        | inl e ↦ ap (λ m. is_free (t m)) {x = j} {y = i} (ground (arith, e)) ∙ f
        | inr e ↦ taken j (ground (arith, e)) q
      ],
    )

-- The descriptor that is used is one of the process, and its entry is null.
pub in_place-free :
    (p found j : ℕ) (dest : Option ℕ) (s : Tables)
    → alloc_proc_handle_i p s ≡ some found
    → in_place p dest found s ≡ some j
    → (j < max_proc_files) × (s.files p j ≡ none)
unfolding in_place alloc_proc_handle_i
in_place-free p found j none s a e =
    let r = first_free-some (max_proc_files - 3) 3 found (s.files p) a in
    let same = some-injective found j e in
    (omega (arith, r.1, same), ap (s.files p) (sym same) ∙ r.2)
in_place-free p found j (some d) s a e =
    elim (Bool-cases (ltb d max_proc_files && is_free (s.files p d))) [
      | inl f ↦
          let same = some-injective d j (sym (if-true _ _ f) ∙ e) in
          let both = and_split (ltb d max_proc_files) (is_free (s.files p d)) f in
          (
            omega (arith, same, ltb→lt d max_proc_files both.0),
            ap (s.files p) (sym same) ∙ is_free-none (s.files p d) both.1,
          )
      | inr f ↦ absurd (none-ne-some j (sym (if-false _ _ f) ∙ e))
    ]
  where
    and_split : (a b : Bool) → (a && b) ≡ true → (a ≡ true) × (b ≡ true)
    and_split true b e = (refl, e)
    and_split false b e = absurd (false_ne e)
      where
        false_ne : false ≢ true
        false_ne e = ground arith

pub alloc_handle_i-free :
    (s : Tables) (i : ℕ) → alloc_handle_i s ≡ some i → (i < max_file_handles) × (s.handles i ≡ none)
unfolding alloc_handle_i
alloc_handle_i-free s i e =
    let r = first_free-some max_file_handles 0 i s.handles e in (omega (arith, r.1), r.2)
