-- ===== src/Memory/Region.antt =====
-- src/kernel/src/memory/region.hh: regions of the 32-bit address space.
use rikai_os.Base.{
  ℕ, Bool, true, not, arith, ◌+◌, ◌-◌, ◌≤◌, ◌<◌, ◌≡◌, ◌↔◌, ◌&&◌, ◌||◌, ◌==◌, ltb, leb, u32_mod,
  add32, sub32,
}

-- `region_t`
pub record Region : Type 0 where
  pub start : ℕ
  pub size : ℕ

-- A field is a word.
pub record IsRegion (r : Region) : Type 0 where
  pub start_lt : r.start < u32_mod
  pub size_lt : r.size < u32_mod

-- `r.start + (r.size-1)`, the last address; both operations wrap.
abbrev pub last_addr : Region → ℕ
last_addr r = add32 r.start (sub32 r.size 1)

unfoldable pub region_valid : Region → Bool
region_valid r = ltb 0 r.size && leb r.start (last_addr r)

unfoldable pub regions_disjoint : Region → Region → Bool
unfolding region_valid
regions_disjoint x y =
    region_valid x
    && region_valid y
    && (ltb x.start y.start && ltb (last_addr x) y.start
        || ltb y.start x.start && ltb (last_addr y) x.start)

unfoldable pub region_contains : Region → Region → Bool
unfolding region_valid
region_contains x y =
    region_valid x && region_valid y && leb x.start y.start && leb (last_addr y) (last_addr x)

unfoldable pub addr_in_region : ℕ → Region → Bool
addr_in_region addr r = not (r.size == 0) && leb r.start addr && leb addr (last_addr r)

-- The addresses of a region, without the wrap-around of words.
abbrev pub Holds : Region → ℕ → Type 0
Holds r a = (r.start ≤ a) × (a < r.start + r.size)

-- A region is valid exactly when it is not empty and ends within the address space.
pub region_valid_iff :
    (r : Region)
    → IsRegion r
    → (region_valid r ≡ true) ↔ ((0 < r.size) × (r.start + r.size ≤ u32_mod))
unfolding region_valid
region_valid_iff r w = ground arith

-- In a valid region `addr_in_region` tells the addresses of the region.
pub addr_in_region_iff :
    (r : Region) (a : ℕ)
    → IsRegion r
    → region_valid r ≡ true
    → (addr_in_region a r ≡ true) ↔ Holds r a
unfolding region_valid addr_in_region
addr_in_region_iff r a w v = ground arith

disjoint_sound :
    (x y : Region)
    → IsRegion x
    → IsRegion y
    → regions_disjoint x y ≡ true
    → (region_valid x ≡ true) × (region_valid y ≡ true) × ((a : ℕ) → ¬ (Holds x a × Holds y a))
unfolding regions_disjoint region_valid
disjoint_sound x y wx wy d = (ground arith, ground arith, (λ a h. ground arith))

disjoint_complete :
    (x y : Region)
    → IsRegion x
    → IsRegion y
    → region_valid x ≡ true
    → region_valid y ≡ true
    → ((a : ℕ) → ¬ (Holds x a × Holds y a))
    → regions_disjoint x y ≡ true
unfolding regions_disjoint region_valid
disjoint_complete x y wx wy vx vy d = ground (arith, d x.start, d y.start)

-- `regions_disjoint` holds exactly when both regions are valid and no address lies in both.
pub regions_disjoint_iff :
    (x y : Region)
    → IsRegion x
    → IsRegion y
    → (regions_disjoint x y ≡ true)
      ↔ ((region_valid x ≡ true) × (region_valid y ≡ true) × ((a : ℕ) → ¬ (Holds x a × Holds y a)))
regions_disjoint_iff x y wx wy =
    (disjoint_sound x y wx wy, (λ h. disjoint_complete x y wx wy h.0 h.1 h.2))

-- Between valid regions `region_contains x y` holds exactly when each address of `y` is one of `x`.
pub region_contains_iff :
    (x y : Region)
    → IsRegion x
    → IsRegion y
    → region_valid x ≡ true
    → region_valid y ≡ true
    → (region_contains x y ≡ true) ↔ ((a : ℕ) → Holds y a → Holds x a)
unfolding region_contains region_valid
region_contains_iff x y wx wy vx vy =
    ((λ c a h. ground arith), (λ f. ground (arith, f y.start, f (y.start + y.size - 1))))
