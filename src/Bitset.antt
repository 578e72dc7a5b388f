-- ===== src/Bitset.antt =====
-- src/kernel/include/os-std/bitset.hh, with the functions on the bits of a u32 of
-- src/kernel/include/os-std/math.hh that it uses.
-- A word is the function from the number of a bit to the bit, and a bitset gives the words by their
-- index.
pub mod Bits
pub mod Range
mod Tests
use rikai_os.Base.{
  ℕ, zero, suc, min, Bool, false, if◌then◌else◌, ◌+◌, ◌-◌, ◌/◌, ◌%◌, ◌&&◌, ◌||◌, ◌==◌, ltb, leb,
  update,
}

abbrev pub Word : Type 0
Word = ℕ → Bool

abbrev pub Bitset : Type 0
Bitset = ℕ → Word

unfoldable pub bit_set : Word → ℕ → Bool → Word
bit_set w i v j = if i == j then v else w j

unfoldable pub bit_get : Word → ℕ → Bool
bit_get w i = w i

unfoldable pub bit_set_range : Word → ℕ → ℕ → Bool → Word
bit_set_range w i count v j = if leb i j && ltb j (i + count) then v else w j

-- Whether one of the `n` bits from `j` on is set; a word is not 0 when one of its 32 bits is.
unfoldable pub any_from : ℕ → ℕ → Word → Bool
any_from zero j w = false
any_from (suc n) j w = w j || any_from n (suc j) w

unfoldable pub is_nonzero : Word → Bool
unfolding any_from
is_nonzero w = any_from 32 0 w

unfoldable pub trailing_from : ℕ → ℕ → Word → ℕ
trailing_from zero j w = j
trailing_from (suc n) j w = let rest = trailing_from n (suc j) w in if w j then j else rest

unfoldable pub count_trailing_0s : Word → ℕ
unfolding trailing_from
count_trailing_0s w = trailing_from 32 0 w

unfoldable pub set_bit : ℕ → Bool → Bitset → Bitset
unfolding bit_set
set_bit i v b = update b (i / 32) (bit_set (b (i / 32)) (i % 32) v)

unfoldable pub get_bit : ℕ → Bitset → Bool
unfolding bit_get
get_bit i b = bit_get (b (i / 32)) (i % 32)

-- The loop of `set_range` from word `data_i` on, with fuel.
unfoldable pub set_rest : ℕ → ℕ → ℕ → Bool → Bitset → Bitset
unfolding bit_set_range
set_rest zero data_i count v b = b
set_rest (suc n) data_i count v b =
    let k = min count 32 in
    let rest =
      set_rest n (data_i + 1) (count - k) v (update b data_i (bit_set_range (b data_i) 0 k v)) in
    if ltb 0 count then rest else b

-- Each round but the last sets 32 bits, so that `count` rounds are enough.
unfoldable pub set_range : ℕ → ℕ → Bool → Bitset → Bitset
unfolding set_rest bit_set_range
set_range i count v b =
    let data_i = i / 32 in
    let first_bitoff = i % 32 in
    let first_count = min count (32 - first_bitoff) in
    if count == 0
    then b
    else set_rest count (data_i + 1) (count - first_count) v
        (update b data_i (bit_set_range (b data_i) first_bitoff first_count v))
