-- ===== src/Bitset/Bits.antt =====
-- What single writes of src/kernel/include/os-std/bitset.hh do to each bit, and the lowest set bit of a word.
use rikai_os.Base.{
  ℕ, zero, suc, refl, sym, ap, inl, inr, Bool, true, false, arith, if◌then◌else◌, ◌+◌, ◌≤◌, ◌<◌,
  ◌≡◌, ◌∙◌, ◌≢◌, ◌||◌, ◌==◌, Bool-cases,
}
use rikai_os.Bitset.{Word, Bitset, get_bit, set_bit, bit_get, bit_set, any_from, trailing_from}

-- A write changes the one bit.
pub get_bit-set_bit :
    (i j : ℕ) (v : Bool) (b : Bitset)
    → get_bit j (set_bit i v b) ≡ (if i == j then v else get_bit j b)
unfolding get_bit set_bit bit_get bit_set
get_bit-set_bit i j v b = ground arith

-- Where a bit of the window is set, `trailing_from` finds the lowest.
pub trailing_from-lowest :
    (n j : ℕ) (w : Word)
    → any_from n j w ≡ true
    → (j ≤ trailing_from n j w)
      × (trailing_from n j w < j + n)
      × (w (trailing_from n j w) ≡ true)
      × ((i : ℕ) → j ≤ i → i < trailing_from n j w → w i ≡ false)
unfolding any_from trailing_from
trailing_from-lowest zero j w e = absurd (false_ne e)
  where
    false_ne : false ≢ true
    false_ne e = ground arith
trailing_from-lowest (suc n) j w e = elim (Bool-cases (w j)) [
  | inl f ↦ rw f (omega arith, omega arith, f, λ i p q. absurd (omega arith))
  | inr f ↦
      let r = trailing_from-lowest n (suc j) w (sym (ap (λ c. c || any_from n (suc j) w) f) ∙ e) in
      rw f (omega (arith, r.0), omega (arith, r.1), r.2, λ i p q. below n j w f r.3 i p q)
]
  where
    below :
        (n j : ℕ) (w : Word)
        → w j ≡ false
        → ((i : ℕ) → suc j ≤ i → i < trailing_from n (suc j) w → w i ≡ false)
        → (i : ℕ) → j ≤ i
        → i < trailing_from n (suc j) w
        → w i ≡ false
    below n j w f h i p q = elim (Bool-cases (i == j)) [
      | inl e ↦ ap w (ground (arith, e)) ∙ f
      | inr e ↦ h i (ground (arith, e)) q
    ]

-- Where no bit of the window is set, all are clear.
pub any_from-false :
    (n j : ℕ) (w : Word) → any_from n j w ≡ false → (i : ℕ) → j ≤ i → i < j + n → w i ≡ false
unfolding any_from
any_from-false zero j w e i p q = absurd (omega arith)
any_from-false (suc n) j w e i p q = elim (Bool-cases (i == j)) [
  | inl f ↦ ap w (ground (arith, f)) ∙ or-false_left (w j) _ e
  | inr f ↦
      any_from-false n (suc j) w (or-false_right (w j) _ e) i (ground (arith, f)) (omega arith)
]
  where
    or-false_left : (a b : Bool) → (a || b) ≡ false → a ≡ false
    or-false_left false b e = refl
    or-false_left true b e = e

    or-false_right : (a b : Bool) → (a || b) ≡ false → b ≡ false
    or-false_right false b e = e
    or-false_right true b e = ground arith
