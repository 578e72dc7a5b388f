-- ===== src/Memory/Virtual/Entry.antt =====
-- The entries of page directories and page tables of src/kernel/src/memory/manager-virtual.cc: 32-bit words
-- with the number of a page and flags.
use rikai_os.Base.{
  ℕ, zero, suc, refl, sym, ap, Bool, true, false, arith, if◌then◌else◌, ◌+◌, ◌*◌, ◌/◌, ◌%◌, ◌<◌,
  ◌≡◌, ◌∙◌, ◌||◌, ◌==◌, u32_mod,
}

-- `x & (1 << k)`
unfoldable pub has_flag : ℕ → ℕ → Bool
has_flag zero x = x % 2 == 1
has_flag (suc k) x = has_flag k (x / 2)

-- `x | y` on words of `n` bits.
unfoldable pub bit_or : ℕ → ℕ → ℕ → ℕ
bit_or zero x y = 0
bit_or (suc n) x y = (if x % 2 == 1 || y % 2 == 1 then 1 else 0) + 2 * bit_or n (x / 2) (y / 2)

unfoldable pub or32 : ℕ → ℕ → ℕ
unfolding bit_or
or32 x y = bit_or 32 x y

-- The numbers of the bits of the flags, and the flags.
abbrev pub present_bit : ℕ
present_bit = 0

abbrev pub borrowed_bit : ℕ
borrowed_bit = 9

abbrev pub flag_present : ℕ
flag_present = 1

abbrev pub flag_writable : ℕ
flag_writable = 2

abbrev pub flag_user : ℕ
flag_user = 4

abbrev pub flag_nocache : ℕ
flag_nocache = 16

abbrev pub flag_borrowed : ℕ
flag_borrowed = 512

-- `x & 0xfffff000`, also `pte_addr` and `pde_addr`.
abbrev pub pte_addr : ℕ → ℕ
pte_addr x = x / 4096 * 4096

-- `make_pte`, which is also `make_pde`.
unfoldable pub make_pte : ℕ → ℕ → ℕ
unfolding or32
make_pte phy_addr flags = or32 (pte_addr phy_addr) flags

abbrev pub addr_tab : ℕ → ℕ
addr_tab x = x / 0x40_0000

abbrev pub addr_page : ℕ → ℕ
addr_page x = x / 4096

abbrev pub addr_pagei : ℕ → ℕ
addr_pagei x = x / 4096 % 1024

abbrev pub page_addr : ℕ → ℕ
page_addr x = x * 4096 % u32_mod

-- A flag of `x | y` is a flag of one of the two.
has_flag-bit_or : (k n x y : ℕ) → k < n → has_flag k (bit_or n x y) ≡ (has_flag k x || has_flag k y)
unfolding has_flag bit_or
has_flag-bit_or k zero x y h = absurd (omega arith)
has_flag-bit_or zero (suc n) x y h = low (x % 2 == 1) (y % 2 == 1) (bit_or n (x / 2) (y / 2))
  where
    low : (a b : Bool) (r : ℕ) → (((if a || b then 1 else 0) + 2 * r) % 2 == 1) ≡ (a || b)
    low a b r = ground arith
has_flag-bit_or (suc k) (suc n) x y h =
    ap (has_flag k) (upper (x % 2 == 1 || y % 2 == 1) (bit_or n (x / 2) (y / 2)))
    ∙ has_flag-bit_or k n (x / 2) (y / 2) (omega arith)
  where
    upper : (a : Bool) (r : ℕ) → ((if a then 1 else 0) + 2 * r) / 2 ≡ r
    upper a r = ground arith

-- The bits of `x` from the bit `k` on.
unfoldable upper_bits : ℕ → ℕ → ℕ
upper_bits zero x = x
upper_bits (suc k) x = upper_bits k (x / 2)

more : ℕ → ℕ → ℕ
more zero n = n
more (suc k) n = suc (more k n)

upper_bits-bit_or :
    (k n x y : ℕ)
    → upper_bits k (bit_or (more k n) x y) ≡ bit_or n (upper_bits k x) (upper_bits k y)
unfolding upper_bits bit_or more
upper_bits-bit_or zero n x y = refl
upper_bits-bit_or (suc k) n x y =
    ap (upper_bits k) (upper (x % 2 == 1 || y % 2 == 1) (bit_or (more k n) (x / 2) (y / 2)))
    ∙ upper_bits-bit_or k n (x / 2) (y / 2)
  where
    upper : (a : Bool) (r : ℕ) → ((if a then 1 else 0) + 2 * r) / 2 ≡ r
    upper a r = ground arith

bit_or-zero : (n x : ℕ) → upper_bits n x ≡ 0 → bit_or n x 0 ≡ x
unfolding bit_or upper_bits
bit_or-zero zero x h = sym h
bit_or-zero (suc n) x h = sum x (bit_or n (x / 2) 0) (bit_or-zero n (x / 2) h)
  where
    sum : (x r : ℕ) → r ≡ x / 2 → (if x % 2 == 1 || false then 1 else 0) + 2 * r ≡ x
    sum x r e = ground (arith, e)

-- The page of an entry.
pub make_pte-page :
    (p flags : ℕ) → p < u32_mod → flags < 4096 → addr_page (make_pte p flags) ≡ addr_page p
unfolding make_pte or32 upper_bits more
make_pte-page p flags h f =
    shift (or32 (pte_addr p) flags)
    ∙ upper_bits-bit_or 12 20 (pte_addr p) flags
    ∙ ap (bit_or 20 (upper_bits 12 (pte_addr p))) (small flags f)
    ∙ bit_or-zero 20 (upper_bits 12 (pte_addr p)) (fits p h)
    ∙ sym (shift (pte_addr p))
    ∙ omega arith
  where
    shift : (x : ℕ) → x / 4096 ≡ upper_bits 12 x
    shift x = omega arith

    small : (f : ℕ) → f < 4096 → upper_bits 12 f ≡ 0
    small f h = omega arith

    fits : (p : ℕ) → p < u32_mod → upper_bits 20 (upper_bits 12 (pte_addr p)) ≡ 0
    fits p h = omega arith

shifted : ℕ → ℕ → ℕ
shifted zero q = q
shifted (suc m) q = 2 * shifted m q

has_flag-shifted : (k m q : ℕ) → k < m → has_flag k (shifted m q) ≡ false
unfolding has_flag shifted
has_flag-shifted k zero q h = absurd (omega arith)
has_flag-shifted zero (suc m) q h = even (shifted m q)
  where
    even : (r : ℕ) → (2 * r % 2 == 1) ≡ false
    even r = ground arith
has_flag-shifted (suc k) (suc m) q h =
    ap (has_flag k) {x = 2 * shifted m q / 2} {y = shifted m q} (halved (shifted m q))
    ∙ has_flag-shifted k m q (omega arith)
  where
    halved : (r : ℕ) → 2 * r / 2 ≡ r
    halved r = omega arith

has_flag-zero : (k : ℕ) → has_flag k 0 ≡ false
unfolding has_flag
has_flag-zero zero = refl
has_flag-zero (suc k) = has_flag-zero k

-- An entry has the flags that it was made with.
pub make_pte-flag : (k p flags : ℕ) → k < 12 → has_flag k (make_pte p flags) ≡ has_flag k flags
unfolding make_pte or32 shifted
make_pte-flag k p flags h =
    has_flag-bit_or k 32 (pte_addr p) flags (omega arith)
    ∙ ap (λ b. b || has_flag k flags)
        (ap (has_flag k) {x = p / 4096 * 4096} {y = shifted 12 (p / 4096)} (omega arith)
          ∙ has_flag-shifted k 12 (p / 4096) h)

pub or32-present : (x : ℕ) → has_flag present_bit (or32 x flag_present) ≡ true
unfolding or32 has_flag
or32-present x = has_flag-bit_or 0 32 x flag_present (omega arith) ∙ or_true (x % 2 == 1)
  where
    or_true : (b : Bool) → (b || true) ≡ true
    or_true b = ground arith

pub or32-other :
    (k x : ℕ) → suc k < 32 → has_flag (suc k) (or32 x flag_present) ≡ has_flag (suc k) x
unfolding or32 has_flag
or32-other k x h =
    has_flag-bit_or (suc k) 32 x flag_present h
    ∙ ap (λ b. has_flag k (x / 2) || b) (has_flag-zero k)
    ∙ or_false (has_flag k (x / 2))
  where
    or_false : (b : Bool) → (b || false) ≡ b
    or_false b = ground arith
