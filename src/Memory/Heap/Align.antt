-- ===== src/Memory/Heap/Align.antt =====
-- How `alloc` rounds an alignment up to a power of two, with the bit functions of
-- src/kernel/include/os-std/math.hh that it calls. These stand on compiler builtins, which are written out.

use rikai_os.Base.{ℕ, zero, suc, if◌then◌else◌, ◌+◌, ◌-◌, ◌/◌, ◌%◌, ◌^◌, ◌==◌}

-- `__builtin_popcount` over `n` bits.
popcnt : ℕ → ℕ → ℕ
popcnt zero x = 0
popcnt (suc n) x = x % 2 + popcnt n (x / 2)

unfoldable pub bit_count : ℕ → ℕ
unfolding popcnt
bit_count x = popcnt 32 x

-- The bits that `x` takes, at most `n`.
bit_length : ℕ → ℕ → ℕ
bit_length zero x = 0
bit_length (suc n) x = if x == 0 then 0 else bit_length n (x / 2) + 1

unfoldable pub count_leading_0s : ℕ → ℕ
unfolding bit_length
count_leading_0s x = 32 - bit_length 32 x

-- `if (bit_count(align) != 1) align = 1U << 31 >> (count_leading_0s(align) - 1)`
unfoldable pub round_align : ℕ → ℕ
unfolding bit_count count_leading_0s
round_align a = if bit_count a == 1 then a else 2 ^ 31 / 2 ^ (count_leading_0s a - 1)
