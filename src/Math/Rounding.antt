-- ===== src/Math/Rounding.antt =====
-- What the rounding functions of math.hh compute.
use native.Mathlib.Nat.{mod-lt, div-add-mod, add-mul-mod_self_left, zero-mod}
use rikai_os.Base.{
  ℕ, ap, arith, if◌then◌else◌, ◌+◌, ◌-◌, ◌*◌, ◌/◌, ◌%◌, ◌≤◌, ◌<◌, ◌≡◌, ◌∙◌, ◌==◌, u32_mod,
}
use rikai_os.Math.{align_up, div_ceil, div_round}

-- The multiple of `y` just above `x`.
next_multiple-mod : (x y : ℕ) → 0 < y → (x + (y - x % y)) % y ≡ 0
next_multiple-mod x y h =
    ap (λ t. t % y) regroup ∙ add-mul-mod_self_left 0 y (x / y + 1) ∙ zero-mod y
  where
    regroup : x + (y - x % y) ≡ 0 + y * (x / y + 1)
    regroup = omega (arith, div-add-mod x y, mod-lt x h)

-- No addition of `align_up` wraps below the bound.
align_up_plain :
    (x y : ℕ) → 0 < y → x + y ≤ u32_mod → align_up x y ≡ (if x % y == 0 then x else x + (y - x % y))
unfolding align_up
align_up_plain x y h b = ground (arith, mod-lt x h)

-- Where the rounded value fits in a word, `align_up` gives the least multiple of `y` that is not
-- below `x`.
pub align_up_least :
    (x y : ℕ)
    → 0 < y
    → x + y ≤ u32_mod
    → (x ≤ align_up x y) × (align_up x y < x + y) × (align_up x y % y ≡ 0)
align_up_least x y h b = ground (arith, align_up_plain x y h b, next_multiple-mod x y h, mod-lt x h)

-- `div_ceil` rounds up, `div_round` to the nearest quotient.
pub div_ceil_lem :
    (x y : ℕ) → 0 < y → x < u32_mod - 1 → (x ≤ div_ceil x y * y) × (div_ceil x y * y < x + y)
unfolding div_ceil
div_ceil_lem x y h b = grind (arith, mod-lt x h, div-add-mod x y)

pub div_round_lem :
    (x y : ℕ)
    → 0 < y
    → x < u32_mod - 1
    → y < u32_mod - 1
    → (2 * (div_round x y * y) ≤ 2 * x + y) × (2 * x ≤ 2 * (div_round x y * y) + y)
unfolding div_round
div_round_lem x y h b c = grind (arith, mod-lt x h, div-add-mod x y)
