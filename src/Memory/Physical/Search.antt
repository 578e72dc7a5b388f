-- ===== src/Memory/Physical/Search.antt =====
-- The search for a free page of src/kernel/src/memory/manager-physical.cc.
use rikai_os.Base.{
  ℕ, zero, suc, refl, sym, ap, inl, inr, true, false, arith, ◌+◌, ◌-◌, ◌*◌, ◌/◌, ◌%◌, ◌≤◌, ◌<◌, ◌≡◌,
  ◌∙◌, ◌⊎◌, ltb, if-true, if-false, ltb→lt, Bool-cases, set, add32, mul32,
}
use mathlib.Core.Path.{subst}
use rikai_os.Bitset.{Bitset, Word, get_bit, bit_get, is_nonzero, count_trailing_0s}
use rikai_os.Bitset.Bits.{trailing_from-lowest, any_from-false}
use rikai_os.Memory.Physical.{find_from, find_next_free_page, num_words}

-- The bits of one word.
get_bit-in_word : (w k : ℕ) (b : Bitset) → k < 32 → get_bit (w * 32 + k) b ≡ b w k
unfolding get_bit bit_get
get_bit-in_word w k b h =
    ap (λ n. b n ((w * 32 + k) % 32)) {x = (w * 32 + k) / 32} {y = w} (omega arith)
    ∙ ap (b w) {x = (w * 32 + k) % 32} {y = k} (omega arith)

-- A word that is not 0 has a lowest set bit, and one that is 0 has none.
pub lowest_bit :
    (w : Word)
    → is_nonzero w ≡ true
    → (count_trailing_0s w < 32)
      × (w (count_trailing_0s w) ≡ true)
      × ((i : ℕ) → i < count_trailing_0s w → w i ≡ false)
unfolding is_nonzero count_trailing_0s
lowest_bit w e =
    let r = trailing_from-lowest 32 0 w e in (omega (arith, r.1), r.2, λ i p. r.3 i (omega arith) p)

-- `r` is the lowest free page of those between the pages `lo` and `hi`, or 0, and then none is free.
unfoldable pub Lowest : ℕ → ℕ → Bitset → ℕ → Type 0
Lowest lo hi b r =
    ((r ≡ 0) × ((i : ℕ) → lo ≤ i → i < hi → get_bit i b ≡ false))
    ⊎ ((lo ≤ r)
        × (r < hi)
        × (get_bit r b ≡ true)
        × ((i : ℕ) → lo ≤ i → i < r → get_bit i b ≡ false))

bit_of :
    (i w : ℕ) (b : Bitset)
    → w * 32 ≤ i
    → i < w * 32 + 32
    → b w (i - w * 32) ≡ false
    → get_bit i b ≡ false
bit_of i w b h h' e =
    ap (λ n. get_bit n b) {x = i} {y = w * 32 + (i - w * 32)} (omega arith)
    ∙ get_bit-in_word w (i - w * 32) b (omega arith)
    ∙ e

zero_word : (w : Word) → is_nonzero w ≡ false → (k : ℕ) → k < 32 → w k ≡ false
unfolding is_nonzero
zero_word w e k p = any_from-false 32 0 w e k (omega arith) (omega arith)

in_first_word :
    (n w k r : ℕ) (b : Bitset)
    → k < 32
    → b w k ≡ true
    → ((i : ℕ) → i < k → b w i ≡ false)
    → r ≡ w * 32 + k
    → Lowest (w * 32) (w * 32 + suc n * 32) b r
unfolding Lowest
in_first_word n w k r b hk hb lower e = inr (
  omega (arith, e),
  omega (arith, e),
  ap (λ i. get_bit i b) e ∙ get_bit-in_word w k b hk ∙ hb,
  λ i p q. bit_of i w b p (omega (arith, e)) (lower (i - w * 32) (omega (arith, e))),
)

behind_first_word :
    (n w r : ℕ) (b : Bitset)
    → is_nonzero (b w) ≡ false
    → Lowest ((w + 1) * 32) ((w + 1) * 32 + n * 32) b r
    → Lowest (w * 32) (w * 32 + suc n * 32) b r
unfolding Lowest
behind_first_word n w r b e (inl (z, f)) = inl (
  z,
  λ i p q. elim (Bool-cases (ltb i (w * 32 + 32))) [
    | inl h ↦ bit_of i w b p (ltb→lt _ _ h) (zero_word (b w) e (i - w * 32) (ground (arith, h)))
    | inr h ↦ f i (ground (arith, h)) (omega arith)
  ],
)
behind_first_word n w r b e (inr (lo, hi, set, f)) = inr (
  omega arith,
  omega arith,
  set,
  λ i p q. elim (Bool-cases (ltb i (w * 32 + 32))) [
    | inl h ↦ bit_of i w b p (ltb→lt _ _ h) (zero_word (b w) e (i - w * 32) (ground (arith, h)))
    | inr h ↦ f i (ground (arith, h)) q
  ],
)

empty_range : (w : ℕ) (b : Bitset) → Lowest (w * 32) (w * 32 + 0 * 32) b 0
unfolding Lowest
empty_range w b = inl (refl, λ i p q. absurd (omega arith))

found_here :
    (n w : ℕ) (b : Bitset)
    → w + suc n ≤ num_words
    → (count_trailing_0s (b w) < 32)
      × (b w (count_trailing_0s (b w)) ≡ true)
      × ((i : ℕ) → i < count_trailing_0s (b w) → b w i ≡ false)
    → Lowest (w * 32) (w * 32 + suc n * 32) b (add32 (mul32 w 32) (count_trailing_0s (b w)))
found_here n w b h (k, set, lower) =
    in_first_word n w (count_trailing_0s (b w)) _ b k set lower (omega arith)

pub find_from-Lowest :
    (n w : ℕ) (b : Bitset)
    → w + n ≤ num_words
    → Lowest (w * 32) (w * 32 + n * 32) b (find_from n w b)
unfolding find_from
find_from-Lowest zero w b h = empty_range w b
find_from-Lowest (suc n) w b h = elim (Bool-cases (is_nonzero (b w))) [
  | inl e ↦
      subst (Lowest (w * 32) (w * 32 + suc n * 32) b) (sym (if-true _ _ e))
        (found_here n w b h (lowest_bit (b w) e))
  | inr e ↦
      subst (Lowest (w * 32) (w * 32 + suc n * 32) b) (sym (if-false _ _ e))
        (behind_first_word n w _ b e (find_from-Lowest n (w + 1) b (omega arith)))
]

-- From the first page that may be free on, the search finds the lowest free page.
pub find_next_free_page-Lowest :
    (p : ℕ) (b : Bitset)
    → p ≤ num_words * 32
    → Lowest (p / 32 * 32) (num_words * 32) b (find_next_free_page p b)
unfolding find_next_free_page
find_next_free_page-Lowest p b h =
    subst (λ hi. Lowest (p / 32 * 32) hi b (find_from (num_words - p / 32) (p / 32) b))
      {x = p / 32 * 32 + (num_words - p / 32) * 32} {y = num_words * 32} (omega arith)
      (find_from-Lowest (num_words - p / 32) (p / 32) b (omega arith))
