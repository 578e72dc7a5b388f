-- ===== src/Queue/Ring.antt =====
-- The ring of cells of src/kernel/include/os-std/queue.hh: where an index is after some steps, and the
-- items that the cells from an index on hold.
use rikai_os.Base.{
  ℕ, zero, suc, refl, sym, ap, inl, inr, Option, some, List, [], arith, if◌then◌else◌, ◌+◌, ◌-◌,
  ◌≤◌, ◌<◌, ◌≡◌, ◌∙◌, ◌≢◌, ◌∷◌, ◌++◌, ltb, if-true, if-false, ltb→lt, ==_ne, Bool-cases, length,
  update,
}
use mathlib.Core.Path.{subst}
use rikai_os.Queue.{increment}

-- The index `k` steps behind `i`.
unfoldable pub advance : ℕ → ℕ → ℕ → ℕ
advance N zero i = i
advance N (suc k) i = advance N k (increment N i)

pub increment_lem :
    (N i : ℕ) → N ≤ 4294967295 → i < N → increment N i ≡ (if ltb (i + 1) N then i + 1 else 0)
unfolding increment
increment_lem N i hN h = ground arith

pub advance_lem :
    (N k i : ℕ)
    → N ≤ 4294967295
    → i < N
    → k ≤ N
    → advance N k i ≡ (if ltb (i + k) N then i + k else i + k - N)
unfolding advance
advance_lem N zero i hN h hk = ground arith
advance_lem N (suc k) i hN h hk = elim (Bool-cases (ltb (i + 1) N)) [
  | inl p ↦
      ap (advance N k) (increment_lem N i hN h ∙ if-true (i + 1) 0 p)
      ∙ advance_lem N k (i + 1) hN (ltb→lt _ _ p) (omega arith)
      ∙ ground arith
  | inr p ↦
      ap (advance N k) (increment_lem N i hN h ∙ if-false (i + 1) 0 p)
      ∙ advance_lem N k 0 hN (omega arith) (omega arith)
      ∙ ground arith
]

-- Two steps counts below `N` lead to two cells.
pub advance_ne :
    (N j k i : ℕ) → N ≤ 4294967295 → i < N → j < k → k < N → advance N j i ≢ advance N k i
advance_ne N j k i hN h hj hk e = absurd (
    different N j k i h hj hk
      (sym (advance_lem N j i hN h (omega arith)) ∙ e ∙ advance_lem N k i hN h (omega arith)))
  where
    different :
        (N j k i : ℕ)
        → i < N
        → j < k
        → k < N
        → (if ltb (i + j) N then i + j else i + j - N)
          ≢ (if ltb (i + k) N then i + k else i + k - N)
    different N j k i h hj hk e = ground arith

pub advance-lt : (N k i : ℕ) → N ≤ 4294967295 → i < N → k ≤ N → advance N k i < N
advance-lt N k i hN h hk = subst (λ c. c < N) (sym (advance_lem N k i hN h hk)) (ground arith)

-- A step may come first or last.
pub advance-suc : (N k i : ℕ) → advance N (suc k) i ≡ increment N (advance N k i)
unfolding advance
advance-suc N zero i = refl
advance-suc N (suc k) i = advance-suc N k (increment N i)

module _ {A : Type 0} (N : ℕ) where
  -- The cells from index `i` on hold the items.
  unfoldable pub Holds : ℕ → List A → (ℕ → Option A) → Type 0
  Holds i [] c = Unit
  Holds i (x ∷ xs) c = (c i ≡ some x) × Holds (increment N i) xs c

  -- A write that misses the cells changes none of them.
  pub Holds-update :
      (i j : ℕ) (v : Option A) (xs : List A) (c : ℕ → Option A)
      → ((k : ℕ) → k < length xs → j ≢ advance N k i)
      → Holds i xs c
      → Holds i xs (update c j v)
  unfolding Holds advance
  Holds-update i j v [] c hj h = tt
  Holds-update i j v (x ∷ xs) c hj h = (
    if-false _ _ (==_ne j i (hj 0 (omega arith))) ∙ h.0,
    Holds-update (increment N i) j v xs c (λ k p. hj (suc k) (omega arith)) h.1,
  )

  -- The cell behind them may be the next.
  pub Holds-append :
      (i : ℕ) (x : A) (xs : List A) (c : ℕ → Option A)
      → Holds i xs c
      → c (advance N (length xs) i) ≡ some x
      → Holds i (xs ++ x ∷ []) c
  unfolding Holds advance
  Holds-append i x [] c h e = (e, tt)
  Holds-append i x (y ∷ ys) c h e = (h.0, Holds-append (increment N i) x ys c h.1 e)
