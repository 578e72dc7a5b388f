-- ===== src/Base/Preds.antt =====
-- Predicates on lists by recursion, and total stores that are written at one key.
use Prim.Native.Nat.{ℕ}
use mathlib.Core.Path.{◌≡◌, refl}
use mathlib.Core.Logic.{◌≢◌}
use mathlib.Core.List.{List, [], ◌∷◌, ◌++◌}
use mathlib.Core.Option.{Option, none, some}
use rikai_os.Base.Tests.{◌==◌, if◌then◌else◌}

module _ {ℓ} {A : Type ℓ} where
  abbrev pub All {κ} : (A → Type κ) → List A → Type κ
  All P [] = Unit
  All P (x ∷ xs) = P x × All P xs

  abbrev pub head? : List A → Option A
  head? [] = none
  head? (x ∷ xs) = some x

  abbrev pub last? : List A → Option A
  last? [] = none
  last? (x ∷ []) = some x
  last? (x ∷ y ∷ xs) = last? (y ∷ xs)

  pub last?-append : (xs : List A) (a : A) → last? (xs ++ a ∷ []) ≡ some a
  last?-append [] a = refl
  last?-append (x ∷ []) a = refl
  last?-append (x ∷ y ∷ xs) a = last?-append (y ∷ xs) a

  pub last?-cons : (x : A) (xs : List A) → (y : A) × (last? (x ∷ xs) ≡ some y)
  last?-cons x [] = (x, refl)
  last?-cons x (z ∷ xs) = last?-cons z xs

  pub All-append {κ} : (P : A → Type κ) (xs ys : List A) → All P xs → All P ys → All P (xs ++ ys)
  All-append P [] ys hx hy = hy
  All-append P (x ∷ xs) ys hx hy = (hx.0, All-append P xs ys hx.1 hy)

-- `a` does not stand in the list.
abbrev pub NotIn : ℕ → List ℕ → Type 0
NotIn a xs = All (λ x. a ≢ x) xs

abbrev pub Distinct : List ℕ → Type 0
Distinct [] = Unit
Distinct (x ∷ xs) = NotIn x xs × Distinct xs

-- The store that answers `v` at `k`, and as before elsewhere.
abbrev pub update {ℓ} : {V : Type ℓ} → (ℕ → V) → ℕ → V → ℕ → V
update c k v j = if k == j then v else c j
