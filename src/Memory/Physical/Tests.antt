-- ===== src/Memory/Physical/Tests.antt =====
-- Runs of the physical memory manager, and its theorems at a concrete state.
use rikai_os.Base.{
  ℕ, zero, suc, refl, sym, true, false, not, List, [], arith, if◌then◌else◌, ◌-◌, ◌<◌, ◌≡◌, ◌⊎◌,
  ◌&&◌, ◌∷◌, ◌==◌, ltb,
}
use rikai_os.Bitset.{get_bit}
use rikai_os.Math.{div_ceil}
use rikai_os.Bitset.Range.{within}
use rikai_os.Memory.Physical.{
  Pages, MemoryRegion, allocate_one, free_one, init, page_size, is_usable,
}
use rikai_os.Memory.Physical.Init.{has_page, some_has_page, init-get_bit}
use rikai_os.Memory.Physical.Allocate.{
  num_pages, Consistent, Taken, Exhausted, count_free, allocate_one_lem, free_one-Consistent,
}

-- A state in which no page is free.
abbrev full : Pages
full = record {
  bitmap = λ w i. false;
  first_free_page = num_pages;
  total_pages_free = 0;
  total_pages_used = num_pages;
  total_pages_reserved = 0;
}

none_free : (n : ℕ) → count_free n (λ w i. false) ≡ 0
unfolding count_free get_bit
none_free zero = refl
none_free (suc n) = omega (arith, none_free n)

full-Consistent : Consistent full
unfolding get_bit
full-Consistent = record {
  zero_used = refl;
  none_below = λ i h. refl;
  first_fits = omega arith;
  counted = sym (none_free num_pages);
}

free_one-Consistent_example :
    Consistent (free_one 300 full)
    × ((j : ℕ)
        → get_bit j (free_one 300 full).bitmap ≡ (if 300 == j then true else get_bit j full.bitmap))
unfolding get_bit
free_one-Consistent_example =
    free_one-Consistent 300 full full-Consistent (omega arith) (omega arith) refl

abbrev one_free : Pages
one_free = free_one 300 full

one_free-Consistent : Consistent one_free
unfolding get_bit
one_free-Consistent =
    (free_one-Consistent 300 full full-Consistent (omega arith) (omega arith) refl).0

allocate_one_lem_example :
    (((allocate_one one_free).0 ≡ 0) × ((allocate_one one_free).1 ≡ one_free) × Exhausted one_free)
    ⊎ ((0 < (allocate_one one_free).0)
        × Taken (allocate_one one_free).0 one_free (allocate_one one_free).1)
allocate_one_lem_example = allocate_one_lem one_free one_free-Consistent

-- A region of two whole pages that starts within the page 1024.
abbrev regions : List MemoryRegion
regions = (record { start = 4194404; size = 16000 }) ∷ []

regions_init :
    some_has_page regions 1024
      ∷ some_has_page regions 1025
      ∷ some_has_page regions 1026
      ∷ some_has_page regions 1027
      ∷ []
    ≡ false ∷ true ∷ true ∷ false ∷ []
unfolding some_has_page is_usable has_page
regions_init = refl

init-get_bit_example : get_bit 1025 (init 1100000 regions full).bitmap ≡ (
    some_has_page regions 1025
    && not (ltb 1025 256)
    && not (within 256 (div_ceil (1100000 - 1048576) page_size) 1025))
unfolding get_bit
init-get_bit_example =
    init-get_bit 1100000 regions full 1025 ((λ u. omega arith), tt) (omega arith) (omega arith) refl
