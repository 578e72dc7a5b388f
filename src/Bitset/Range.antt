-- ===== src/Bitset/Range.antt =====
-- `set_range` of src/kernel/include/os-std/bitset.hh, word by word, against the bits one by one.
use rikai_os.Base.{
  ℕ, zero, suc, min, ap, inl, inr, Bool, arith, if◌then◌else◌, ◌+◌, ◌-◌, ◌*◌, ◌/◌, ◌%◌, ◌≤◌, ◌≡◌,
  ◌∙◌, ◌&&◌, ◌==◌, ltb, leb, if-true, if-false, Bool-cases, update,
}
use rikai_os.Bitset.{Bitset, get_bit, bit_get, bit_set_range, set_rest, set_range}

-- Whether `j` is one of the `count` numbers from `i` on.
abbrev pub within : ℕ → ℕ → ℕ → Bool
within i count j = leb i j && ltb j (i + count)

-- A range in one word.
get_bit-word :
    (d o k j : ℕ) (v : Bool) (b : Bitset)
    → o + k ≤ 32
    → get_bit j (update b d (bit_set_range (b d) o k v))
      ≡ (if within (32 * d + o) k j then v else get_bit j b)
unfolding get_bit bit_get bit_set_range
get_bit-word d o k j v b h = ground arith

-- The bits of the word `d` and those of the words behind it are one range.
first_word :
    (d count j : ℕ) (v c : Bool)
    → (if within (32 * (d + 1)) (count - min count 32) j
        then v
        else if within (32 * d + 0) (min count 32) j
        then v
        else c)
      ≡ (if within (32 * d) count j then v else c)
first_word d count j v c = ground arith

get_bit-set_rest :
    (n d count j : ℕ) (v : Bool) (b : Bitset)
    → count ≤ n
    → get_bit j (set_rest n d count v b) ≡ (if within (32 * d) count j then v else get_bit j b)
unfolding set_rest
get_bit-set_rest zero d count j v b h = ground arith
get_bit-set_rest (suc n) d count j v b h = elim (Bool-cases (ltb 0 count)) [
  | inr e ↦ ap (get_bit j) (if-false _ _ e) ∙ ground (arith, e)
  | inl e ↦
      ap (get_bit j) (if-true _ _ e)
      ∙ get_bit-set_rest n (d + 1) (count - k) j v b1 (ground (arith, e))
      ∙ ap (λ c. if within (32 * (d + 1)) (count - k) j then v else c)
          (get_bit-word d 0 k j v b (omega arith))
      ∙ first_word d count j v (get_bit j b)
]
  where
    k : ℕ
    k = min count 32

    b1 : Bitset
    b1 = update b d (bit_set_range (b d) 0 k v)

-- The first word, from bit `i % 32` on, and those behind it are one range.
whole_range :
    (i count j : ℕ) (v c : Bool)
    → (if within (32 * (i / 32 + 1)) (count - min count (32 - i % 32)) j
        then v
        else if within (32 * (i / 32) + i % 32) (min count (32 - i % 32)) j
        then v
        else c)
      ≡ (if within i count j then v else c)
whole_range i count j v c = ground arith

-- `set_range` gives the bits from `i` on, `count` of them, the value `v`, and changes no other.
pub get_bit-set_range :
    (i count j : ℕ) (v : Bool) (b : Bitset)
    → get_bit j (set_range i count v b) ≡ (if within i count j then v else get_bit j b)
unfolding set_range
get_bit-set_range i count j v b = elim (Bool-cases (count == 0)) [
  | inl e ↦ ap (get_bit j) (if-true _ _ e) ∙ ground (arith, e)
  | inr e ↦
      ap (get_bit j) (if-false _ _ e)
      ∙ get_bit-set_rest count (i / 32 + 1) (count - k) j v b1 (omega arith)
      ∙ ap (λ c. if within (32 * (i / 32 + 1)) (count - k) j then v else c)
          (get_bit-word (i / 32) (i % 32) k j v b (omega arith))
      ∙ whole_range i count j v (get_bit j b)
]
  where
    k : ℕ
    k = min count (32 - i % 32)

    b1 : Bitset
    b1 = update b (i / 32) (bit_set_range (b (i / 32)) (i % 32) k v)
