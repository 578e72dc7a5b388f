-- ===== src/Math/Powers.antt =====
-- `pow`, `logn` and the checked arithmetic of math.hh.
use native.Mathlib.Nat.{
  pow-suc, pow-zero, div-lt_iff_lt-mul, le-div_iff_mul-le, div-add-mod, add-mul-mod_self_left,
  two-pow-succ,
}
use rikai_os.Base.{
  ℕ, zero, suc, sym, ap, inl, inr, true, false, some, arith, ◌+◌, ◌*◌, ◌/◌, ◌%◌, ◌^◌, ◌≤◌, ◌<◌, ◌≡◌,
  ◌∙◌, ◌↔◌, leb, if-true, if-false, leb→le, Bool-cases, u32_mod, add32, mul32,
}
use rikai_os.Math.{pow, pow_loop, logn, logn_loop, safe_add, safe_sub, safe_mul}

-- A factor may be reduced before the product is.
mod-mul-mod : (a b m : ℕ) → ((a % m) * b) % m ≡ (a * b) % m
mod-mul-mod a b m =
    sym (add-mul-mod_self_left ((a % m) * b) m (a / m * b)) ∙ ap (λ t. t % m) regroup
  where
    regroup : (a % m) * b + m * (a / m * b) ≡ a * b
    regroup = omega (arith, ap (λ (t : ℕ). t * b) (div-add-mod a m))

pow_loop_lem : (n x res : ℕ) → res < u32_mod → pow_loop n x res ≡ (res * x ^ n) % u32_mod
unfolding pow_loop
pow_loop_lem zero x res h = rw pow-zero (omega arith)
pow_loop_lem (suc n) x res h =
    pow_loop_lem n x (mul32 res x) (omega arith)
    ∙ mod-mul-mod (res * x) (x ^ n) u32_mod
    ∙ ap (λ t. t % u32_mod) (omega (arith, ap (λ (t : ℕ). res * t) (pow-suc x n)))

-- `pow` is the power of the numbers, reduced to a word.
pub pow_lem : (x y : ℕ) → pow x y ≡ x ^ y % u32_mod
unfolding pow
pow_lem x y = pow_loop_lem y x 1 (omega arith) ∙ ap (λ t. t % u32_mod) (omega arith)

logn_loop_lem :
    (fuel n x y : ℕ)
    → 1 < n
    → 0 < x
    → x < 2 ^ fuel
    → y + fuel < u32_mod
    → (k : ℕ) × (logn_loop fuel n x y ≡ some (y + k)) × (n ^ k ≤ x) × (x < n ^ k * n)
unfolding logn_loop
logn_loop_lem zero n x y hn hx h b = absurd (omega arith)
logn_loop_lem (suc fuel) n x y hn hx h b = elim (Bool-cases (leb n x)) [
  | inl more ↦
      more_rounds more
        (logn_loop_lem fuel n (x / n) (add32 y 1) hn (quotient_pos more) quotient_lt (omega arith))
  | inr last ↦ (0, if-false _ _ last ∙ ap some (omega arith), omega (arith, pow-zero n), small last)
]
  where
    quotient_pos : leb n x ≡ true → 0 < x / n
    quotient_pos more =
        (le-div_iff_mul-le {x = 1} {y = x} (omega arith)).1 (omega (arith, leb→le n x more))

    quotient_lt : x / n < 2 ^ fuel
    quotient_lt =
        (div-lt_iff_lt-mul {x = x} {y = 2 ^ fuel} (omega arith)).1
          (grind (arith, two-pow-succ fuel))

    small : leb n x ≡ false → x < n ^ 0 * n
    small last = rw pow-zero (ground arith)

    more_rounds :
        leb n x ≡ true
        → (k : ℕ) × (logn_loop fuel n (x / n) (add32 y 1) ≡ some (add32 y 1 + k))
          × (n ^ k ≤ x / n)
          × (x / n < n ^ k * n)
        → (k : ℕ) × (logn_loop (suc fuel) n x y ≡ some (y + k)) × (n ^ k ≤ x) × (x < n ^ k * n)
    more_rounds more (k, e, lo, hi) = (
      suc k,
      if-true _ _ more ∙ e ∙ ap some (omega arith),
      rw pow-suc ((le-div_iff_mul-le {x = n ^ k} {y = x} (omega arith)).0 lo),
      rw pow-suc ((div-lt_iff_lt-mul {x = x} {y = n ^ k * n} (omega arith)).0 hi),
    )

-- For a base above 1 and a word other than 0 the loop of `logn` ends, and gives the exponent of the
-- greatest power of the base that is not above the word.
pub logn_lem :
    (n x : ℕ)
    → 1 < n
    → 0 < x
    → x < u32_mod
    → (k : ℕ) × (logn n x ≡ some k) × (n ^ k ≤ x) × (x < n ^ k * n)
unfolding logn
logn_lem n x hn hx h = plain (logn_loop_lem 33 n x 0 hn hx (omega arith) (omega arith))
  where
    plain :
        (k : ℕ) × (logn_loop 33 n x 0 ≡ some (0 + k)) × (n ^ k ≤ x) × (x < n ^ k * n)
        → (k : ℕ) × (logn n x ≡ some k) × (n ^ k ≤ x) × (x < n ^ k * n)
    plain (k, e, lo, hi) = (k, e ∙ ap some (omega arith), lo, hi)

-- The checked operations give the exact result when it is a word, and fail otherwise.
pub safe_lem :
    (x y : ℕ)
    → ((z : ℕ) → (safe_add x y ≡ some z) ↔ ((z ≡ x + y) × (z < u32_mod)))
      × ((z : ℕ) → (safe_sub x y ≡ some z) ↔ (z + y ≡ x))
      × ((z : ℕ) → (safe_mul x y ≡ some z) ↔ ((z ≡ x * y) × (z < u32_mod)))
unfolding safe_add safe_sub safe_mul
safe_lem x y = ((λ z. ground arith), (λ z. ground arith), (λ z. ground arith))
