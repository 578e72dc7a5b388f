-- ===== src/Memory/Physical.antt =====
-- src/kernel/src/memory/manager-physical.cc: the bitmap of the pages of physical memory.
pub mod Search
pub mod Allocate
pub mod Init
mod Tests
use rikai_os.Base.{
  ℕ, zero, suc, Bool, true, false, not, List, [], if◌then◌else◌, ◌+◌, ◌-◌, ◌/◌, ◌%◌, ◌^◌, ◌&&◌,
  ◌||◌, ◌∷◌, ◌==◌, ltb, leb, add32, sub32, mul32,
}
use rikai_os.Math.{div_ceil}
use rikai_os.Bitset.{Bitset, get_bit, set_bit, set_range, is_nonzero, count_trailing_0s}

abbrev pub page_size : ℕ
page_size = 4096

-- The words of a bitmap of one bit for each page of 4 GiB.
abbrev pub num_words : ℕ
num_words = 32768

-- The variables of the namespace Memory::Physical. A set bit is a free page.
pub record Pages : Type 0 where
  pub bitmap : Bitset
  pub first_free_page : ℕ
  pub total_pages_free : ℕ
  pub total_pages_used : ℕ
  pub total_pages_reserved : ℕ

-- The loop of `find_next_free_page` over the words from `word_i` on; `n` is how many are left.
unfoldable pub find_from : ℕ → ℕ → Bitset → ℕ
unfolding is_nonzero count_trailing_0s
find_from zero word_i b = 0
find_from (suc n) word_i b =
    let rest = find_from n (word_i + 1) b in
    if is_nonzero (b word_i) then add32 (mul32 word_i 32) (count_trailing_0s (b word_i)) else rest

unfoldable pub find_next_free_page : ℕ → Bitset → ℕ
unfolding find_from
find_next_free_page start_page b = find_from (num_words - start_page / 32) (start_page / 32) b

-- What `allocate_one` does with the page that was found.
unfoldable pub take_page : ℕ → Pages → ℕ × Pages
unfolding set_bit
take_page page_no s =
    if ltb 0 page_no
    then (
      page_no,
      record {
        bitmap = set_bit page_no false s.bitmap;
        first_free_page = add32 page_no 1;
        total_pages_free = sub32 s.total_pages_free 1;
        total_pages_used = add32 s.total_pages_used 1;
        total_pages_reserved = s.total_pages_reserved;
      },
    )
    else (page_no, s)

-- The number of the page, or 0 when there is none.
unfoldable pub allocate_one : Pages → ℕ × Pages
unfolding find_next_free_page take_page
allocate_one s = take_page (find_next_free_page s.first_free_page s.bitmap) s

unfoldable pub free_one : ℕ → Pages → Pages
unfolding set_bit
free_one page_no s = record {
  bitmap = set_bit page_no true s.bitmap;
  first_free_page = (if ltb page_no s.first_free_page then page_no else s.first_free_page);
  total_pages_free = add32 s.total_pages_free 1;
  total_pages_used = sub32 s.total_pages_used 1;
  total_pages_reserved = s.total_pages_reserved;
}

-- `memory_region_t` of the boot information, with words of 64 bits.
pub record MemoryRegion : Type 0 where
  pub start : ℕ
  pub size : ℕ

-- Whether `mark_region_free` does not ignore the region; `intmax<u32>::value` is 2 ^ 32 - 1.
unfoldable pub is_usable : MemoryRegion → Bool
is_usable r =
    not (leb (2 ^ 32 - 1) r.start || leb (2 ^ 32 - 1) ((r.start + page_size) % 2 ^ 64))
    && not (ltb r.size page_size)

-- The start and the size rounded to pages.
unfoldable pub round_region : MemoryRegion → MemoryRegion
round_region r = if r.start % page_size == 0 then r else record {
  start = (r.start + (page_size - r.start % page_size)) % 2 ^ 64;
  size = (r.size + 2 ^ 64 - (page_size - r.start % page_size)) % 2 ^ 64;
}

-- The pages of a rounded region become free. The bitmap of the model has no end; the one of the code has
-- 2 ^ 20 bits, which is enough for regions that end at 4 GiB or below.
unfoldable pub mark_pages : MemoryRegion → Pages → Pages
unfolding set_range
mark_pages r s =
    let page_start = r.start / page_size % 2 ^ 32 in
    let page_count = r.size / page_size % 2 ^ 32 in
    record s {
      bitmap = set_range page_start page_count true s.bitmap;
      total_pages_free = add32 s.total_pages_free page_count;
      total_pages_reserved = sub32 s.total_pages_reserved page_count;
    }

unfoldable pub mark_region_free : MemoryRegion → Pages → Pages
unfolding is_usable round_region mark_pages
mark_region_free r s = if is_usable r then mark_pages (round_region r) s else s

unfoldable pub mark_all : List MemoryRegion → Pages → Pages
unfolding mark_region_free
mark_all [] s = s
mark_all (r ∷ rs) s = mark_all rs (mark_region_free r s)

-- `kernel_end` is the address of `KERNEL_BSS_END`, which the linker script sets, and 1 MiB is
-- 256 pages; the subtraction is one of 64 bits.
unfoldable pub init : ℕ → List MemoryRegion → Pages → Pages
unfolding mark_all set_range div_ceil
init kernel_end regions s =
    let kernel_pages = div_ceil ((kernel_end + 2 ^ 64 - 1048576) % 2 ^ 64) page_size % 2 ^ 32 in
    let s1 = mark_all regions (record s { total_pages_reserved = 2 ^ 32 - 1 }) in
    record s1 {
      bitmap = set_range 256 kernel_pages false (set_range 0 256 false s1.bitmap);
      total_pages_free = sub32 s1.total_pages_free (add32 256 kernel_pages);
      total_pages_reserved = add32 s1.total_pages_reserved 256;
      total_pages_used = add32 s1.total_pages_used kernel_pages;
    }
