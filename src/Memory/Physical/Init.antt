-- ===== src/Memory/Physical/Init.antt =====
-- `init` of src/kernel/src/memory/manager-physical.cc: the pages that are free after it.
use rikai_os.Base.{
  ℕ, refl, sym, ap, inl, inr, Bool, true, false, not, List, [], arith, if◌then◌else◌, ◌+◌, ◌-◌, ◌*◌,
  ◌/◌, ◌%◌, ◌^◌, ◌≤◌, ◌<◌, ◌≡◌, ◌∙◌, ◌&&◌, ◌||◌, ◌∷◌, ltb, leb, if-true, if-false, Bool-cases, All,
}
use rikai_os.Math.{div_ceil}
use rikai_os.Bitset.{Bitset, get_bit, set_range}
use rikai_os.Bitset.Range.{within, get_bit-set_range}
use rikai_os.Memory.Physical.{
  Pages, MemoryRegion, page_size, is_usable, round_region, mark_pages, mark_region_free, mark_all,
  init,
}

-- Whether the region is used and the page `j` lies in it as a whole.
unfoldable pub has_page : MemoryRegion → ℕ → Bool
has_page r j =
    is_usable r && leb r.start (j * page_size) && leb ((j + 1) * page_size) (r.start + r.size)

unfoldable pub some_has_page : List MemoryRegion → ℕ → Bool
some_has_page [] j = false
some_has_page (r ∷ rs) j = has_page r j || some_has_page rs j

-- The pages of a rounded region are those that lie in the region as a whole.
round_region-within :
    (start size j : ℕ)
    → start < 2 ^ 32
    → 4096 ≤ size
    → start + size ≤ 2 ^ 32
    → (let r = round_region (record { start = start; size = size }) in
        within (r.start / page_size % 2 ^ 32) (r.size / page_size % 2 ^ 32) j)
      ≡ (leb start (j * page_size) && leb ((j + 1) * page_size) (start + size))
unfolding round_region
round_region-within start size j h k l = ground arith

usable_bounds : (r : MemoryRegion) → is_usable r ≡ true → (r.start < 2 ^ 32) × (page_size ≤ r.size)
unfolding is_usable
usable_bounds r e = ground (arith, e)

unusable-has_page : (r : MemoryRegion) (j : ℕ) → is_usable r ≡ false → has_page r j ≡ false
unfolding has_page
unusable-has_page r j e =
    ap (λ u. u && leb r.start (j * page_size) && leb ((j + 1) * page_size) (r.start + r.size)) e

usable-has_page :
    (r : MemoryRegion) (j : ℕ)
    → is_usable r ≡ true
    → has_page r j ≡ (leb r.start (j * page_size) && leb ((j + 1) * page_size) (r.start + r.size))
unfolding has_page
usable-has_page r j e =
    ap (λ u. u && leb r.start (j * page_size) && leb ((j + 1) * page_size) (r.start + r.size)) e

or_lem : (a b : Bool) → (if a then true else b) ≡ (a || b)
or_lem true b = refl
or_lem false b = refl

-- A region adds its pages to the free ones.
mark_region_free-bit :
    (r : MemoryRegion) (s : Pages) (j : ℕ)
    → (is_usable r ≡ true → r.start + r.size ≤ 2 ^ 32)
    → get_bit j (mark_region_free r s).bitmap ≡ (has_page r j || get_bit j s.bitmap)
unfolding mark_region_free mark_pages
mark_region_free-bit r s j h = elim (Bool-cases (is_usable r)) [
  | inl e ↦
      ap (λ (t : Pages). get_bit j t.bitmap) (if-true _ _ e)
      ∙ get_bit-set_range _ _ j true s.bitmap
      ∙ ap (λ w. if w then true else get_bit j s.bitmap)
          (round_region-within r.start r.size j (usable_bounds r e).0 (usable_bounds r e).1 (h e)
            ∙ sym (usable-has_page r j e))
      ∙ or_lem (has_page r j) (get_bit j s.bitmap)
  | inr e ↦
      ap (λ (t : Pages). get_bit j t.bitmap) (if-false _ _ e)
      ∙ sym (ap (λ u. u || get_bit j s.bitmap) (unusable-has_page r j e))
]

or-swap : (a b c : Bool) → (a || (b || c)) ≡ ((b || a) || c)
or-swap true true c = refl
or-swap true false c = refl
or-swap false true c = refl
or-swap false false c = refl

mark_all-bit :
    (rs : List MemoryRegion) (s : Pages) (j : ℕ)
    → All (λ r. is_usable r ≡ true → r.start + r.size ≤ 2 ^ 32) rs
    → get_bit j (mark_all rs s).bitmap ≡ (some_has_page rs j || get_bit j s.bitmap)
unfolding mark_all some_has_page
mark_all-bit [] s j h = refl
mark_all-bit (r ∷ rs) s j h =
    mark_all-bit rs (mark_region_free r s) j h.1
    ∙ ap (λ b. some_has_page rs j || b) (mark_region_free-bit r s j h.0)
    ∙ or-swap (some_has_page rs j) (has_page r j) (get_bit j s.bitmap)

kernel_pages :
    (e : ℕ)
    → 1048576 ≤ e
    → e < 2 ^ 32
    → div_ceil ((e + 2 ^ 64 - 1048576) % 2 ^ 64) page_size % 2 ^ 32
      ≡ div_ceil (e - 1048576) page_size
unfolding div_ceil
kernel_pages e lo hi =
    ap (λ x. div_ceil x page_size % 2 ^ 32) {x = (e + 2 ^ 64 - 1048576) % 2 ^ 64} {y = e - 1048576}
      (omega (arith, lo, hi))
    ∙ small (e - 1048576) (omega (arith, hi))
  where
    small : (x : ℕ) → x < 2 ^ 32 → div_ceil x page_size % 2 ^ 32 ≡ div_ceil x page_size
    small x h = ground (arith, h)

-- Where no page was free before, each region that is not ignored ends at 4 GiB or below, and the kernel
-- ends behind the first MiB and below 4 GiB, the pages that `init` makes free are those that lie as a
-- whole in a region it does not ignore, but for the first MiB and the pages of the kernel behind it.
pub init-get_bit :
    (kernel_end : ℕ) (rs : List MemoryRegion) (s : Pages) (j : ℕ)
    → All (λ r. is_usable r ≡ true → r.start + r.size ≤ 2 ^ 32) rs
    → 1048576 ≤ kernel_end
    → kernel_end < 2 ^ 32
    → get_bit j s.bitmap ≡ false
    → get_bit j (init kernel_end rs s).bitmap ≡ (
        some_has_page rs j
        && not (ltb j 256)
        && not (within 256 (div_ceil (kernel_end - 1048576) page_size) j))
unfolding init
init-get_bit kernel_end rs s j h lo hi e =
    get_bit-set_range 256 k j false b1
    ∙ ap (λ b. if within 256 k j then false else b) (get_bit-set_range 0 256 j false b0)
    ∙ ap (λ b. if within 256 k j then false else if within 0 256 j then false else b)
        (mark_all-bit rs (record s { total_pages_reserved = 2 ^ 32 - 1 }) j h
          ∙ ap (λ b. some_has_page rs j || b) e)
    ∙ cleared (some_has_page rs j) k j
    ∙ ap (λ n. some_has_page rs j && not (ltb j 256) && not (within 256 n j))
        (kernel_pages kernel_end lo hi)
  where
    k : ℕ
    k = div_ceil ((kernel_end + 2 ^ 64 - 1048576) % 2 ^ 64) page_size % 2 ^ 32

    b0 : Bitset
    b0 = (mark_all rs (record s { total_pages_reserved = 2 ^ 32 - 1 })).bitmap

    b1 : Bitset
    b1 = set_range 0 256 false b0

    cleared :
        (a : Bool) (k j : ℕ)
        → (if within 256 k j then false else if within 0 256 j then false else a || false)
          ≡ (a && not (ltb j 256) && not (within 256 k j))
    cleared a k j = ground arith
