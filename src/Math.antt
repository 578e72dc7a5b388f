-- ===== src/Math.antt =====
-- src/kernel/include/os-std/math.hh at the type `u32`: rounding, powers, logarithms, checked arithmetic.
use rikai_os.Base.{
  ℕ, zero, suc, Option, none, some, if◌then◌else◌, ◌+◌, ◌-◌, ◌*◌, ◌/◌, ◌%◌, ◌==◌, ltb, leb, u32_mod,
  add32, sub32, mul32,
}
pub mod Rounding
mod Powers
mod Tests

unfoldable pub max_of : ℕ → ℕ → ℕ
max_of x y = if leb y x then x else y

unfoldable pub min_of : ℕ → ℕ → ℕ
min_of x y = if leb x y then x else y

unfoldable pub clamp : ℕ → ℕ → ℕ → ℕ
unfolding max_of min_of
clamp mi ma x = min_of ma (max_of mi x)

-- `div_ceil`, `div_round` and `align_up` divide by `y`; the callers never pass 0 to the first two.
unfoldable pub div_ceil : ℕ → ℕ → ℕ
div_ceil x y = if x % y == 0 then x / y else add32 (x / y) 1

unfoldable pub div_round : ℕ → ℕ → ℕ
div_round x y =
    if ltb (x % y) ((if y % 2 == 1 then add32 y 1 else y) / 2) then x / y else add32 (x / y) 1

unfoldable pub align_up : ℕ → ℕ → ℕ
align_up x y = if y == 0 then x else if x % y == 0 then x else add32 x (sub32 y (x % y))

-- The loop of `pow`, with the rounds left and the result so far.
pow_loop : ℕ → ℕ → ℕ → ℕ
pow_loop zero x res = res
pow_loop (suc n) x res = pow_loop n x (mul32 res x)

unfoldable pub pow : ℕ → ℕ → ℕ
unfolding pow_loop
pow x y = pow_loop y x 1

-- The loop of `logn` on fuel; `none` means that the fuel ran out.
logn_loop : ℕ → ℕ → ℕ → ℕ → Option ℕ
logn_loop zero n x y = none
logn_loop (suc fuel) n x y =
    let rest = logn_loop fuel n (x / n) (add32 y 1) in if leb n x then rest else some y

-- A value below 2 ^ 32 is divided at most 32 times.
unfoldable pub logn : ℕ → ℕ → Option ℕ
unfolding logn_loop
logn n x = logn_loop 33 n x 0

-- `safe_add`, `safe_sub` and `safe_mul` at `u32`: `none` is the result `false`.
unfoldable pub safe_add : ℕ → ℕ → Option ℕ
safe_add x y = if ltb (x + y) u32_mod then some (x + y) else none

unfoldable pub safe_sub : ℕ → ℕ → Option ℕ
safe_sub x y = if leb y x then some (x - y) else none

unfoldable pub safe_mul : ℕ → ℕ → Option ℕ
safe_mul x y = if ltb (x * y) u32_mod then some (x * y) else none
