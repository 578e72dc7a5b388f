-- ===== src/Memory/Virtual/Tests.antt =====
-- The theorems on page tables at machines with one or two page tables.
use rikai_os.Base.{
  ℕ, zero, suc, refl, sym, ap, true, false, some, arith, if◌then◌else◌, ◌+◌, ◌*◌, ◌/◌, ◌≤◌, ◌<◌,
  ◌≡◌, ◌∙◌, ◌↔◌, ◌==◌, update,
}
use rikai_os.Bitset.{is_nonzero, count_trailing_0s}
use rikai_os.Memory.Physical.{Pages, allocate_one, find_next_free_page, find_from, take_page}
use rikai_os.Memory.Virtual.{
  Vm, Space, err_success, table_present, frame_of, entry, get_tab, map, unmap, is_mapped,
  make_address_space, delete_address_space, switch_address_space, virtual_to_physical, recursive_no,
  load_directory, page_words, rec_page,
}
use rikai_os.Memory.Virtual.Entry.{has_flag, addr_tab, addr_page}
use rikai_os.Memory.Virtual.Translation.{translation, Separate}
use rikai_os.Memory.Virtual.Map.{Room, in_pages, pte_at, map-translation, map-exhausted}
use rikai_os.Memory.Virtual.Unmap.{Unmapped, unmap-Unmapped}
use rikai_os.Memory.Virtual.Mapped.{IsTranslated, is_mapped_iff}
use rikai_os.Memory.Virtual.Spaces.{left_over, get_tab-stale}
use rikai_os.Memory.Virtual.Walk.{Window, walk}
use rikai_os.Memory.Virtual.Switch.{new_walk, make_address_space-walk}
use rikai_os.Memory.Virtual.Delete.{Deleted, delete_address_space-Deleted}

abbrev first_only : ℕ → ℕ
first_only zero = 0x1003
first_only (suc t) = 0

abbrev no_pages : Pages
no_pages = record {
  bitmap = λ w k. false;
  first_free_page = 1048576;
  total_pages_free = 0;
  total_pages_used = 100;
  total_pages_reserved = 0;
}

-- The last 32 pages are free.
abbrev last_pages : Pages
last_pages = record no_pages { bitmap = λ w k. true; first_free_page = 1048544 }

-- Every word of memory is 0x2003, a present entry.
abbrev one_table : Pages → Vm
one_table pages = record {
  dir = first_only;
  rec_tab = first_only;
  frames = λ p i. 0x2003;
  pages = pages;
  mmio_mapped = 0;
}

first_present : (t : ℕ) → table_present t (one_table no_pages) ≡ true → t ≡ 0
unfolding table_present has_flag
first_present zero e = refl
first_present (suc t) e = absurd (false_true e)
  where
    false_true : ¬ (false ≡ true)
    false_true e = ground arith

one_table-Separate : Separate (one_table no_pages)
one_table-Separate = record { separate = λ t u p q e. first_present t p ∙ sym (first_present u q) }

two_pages : Room 0 (8192 / 4096) 0x5000 0x9000 (one_table no_pages)
unfolding table_present has_flag
two_pages = record {
  aligned = refl;
  not_null = omega arith;
  virt_fits = omega arith;
  phy_fits = omega arith;
  tables = λ j lo hi.
      ap (λ t. has_flag 0 (first_only t)) {x = addr_tab (0x5000 + j * 4096)} {y = 0} (omega arith);
}

map-translation_example :
    (s' : Vm) × (map 0x5000 0x9000 8192 2 (one_table no_pages) ≡ some (err_success, s'))
    × ((a : ℕ)
        → translation a s' ≡ (
            if in_pages a 5 2
            then some (pte_at 0x5000 0x9000 2 a)
            else translation a (one_table no_pages)))
map-translation_example =
    map-translation 0x5000 0x9000 8192 2 (one_table no_pages) one_table-Separate refl two_pages

map-exhausted_example :
    map 0x5000 0 8192 2 (one_table no_pages) ≡ some (err_success, one_table no_pages)
unfolding allocate_one find_next_free_page find_from take_page
map-exhausted_example = map-exhausted 0x5000 8192 2 (one_table no_pages) refl refl

unmap-Unmapped_example : Unmapped 5 2 (one_table no_pages) (unmap 0x5000 8192 (one_table no_pages))
unmap-Unmapped_example =
    unmap-Unmapped 0x5000 8192 (one_table no_pages) one_table-Separate refl (omega arith)

is_mapped_iff_example :
    (is_mapped 0x5010 8192 (one_table no_pages) ≡ true)
    ↔ ((a : ℕ) → 0x5010 ≤ a → a < 0x7010 → IsTranslated a (one_table no_pages))
is_mapped_iff_example = is_mapped_iff 0x5010 8192 (one_table no_pages) (omega arith) (omega arith)

-- Kernel memory has one table, at the page 1, and the window is at the page 3.
abbrev with_window : ℕ → ℕ
with_window t = if t == 0 then 0x1003 else if t == 255 then 0x3003 else 0

abbrev windowed : Vm
windowed = record (one_table no_pages) { dir = with_window; rec_tab = with_window }

windowed-Window : Window windowed
unfolding table_present has_flag frame_of recursive_no
windowed-Window = record { present = refl; same = λ t e. refl }

windowed-unused :
    (t : ℕ)
    → table_present t windowed ≡ true
    → (addr_page (with_window t) == addr_page (virtual_to_physical 0x6000 windowed)) ≡ false
unfolding table_present has_flag virtual_to_physical get_tab entry frame_of
windowed-unused t e = ground (arith, e)

make_address_space-walk_example :
    (space : Space) × (s1 : Vm) × (s2 : Vm) × (make_address_space true
        (some 0x5000)
        (some 0x6000)
        windowed
      ≡ some (space, s1))
    × (switch_address_space space.pd s1 ≡ some s2)
    × ((a : ℕ) → walk a s2 ≡ new_walk (virtual_to_physical 0x6000 windowed) a windowed)
    × Window s2
unfolding virtual_to_physical get_tab table_present entry frame_of has_flag
make_address_space-walk_example =
    make_address_space-walk 0x5000 0x6000 windowed windowed-Window (omega arith) refl
      windowed-unused

-- A directory whose recursive table is at the page 5, and whose user memory has one table, at the page 4.
abbrev user_words : ℕ → ℕ
user_words t =
    if t == 0 then 0x1003 else if t == 255 then 0x5003 else if t == 256 then 0x4003 else 0

-- The pages that hold page tables.
abbrev user_frames : ℕ → ℕ → ℕ
user_frames p = if p == 5 then user_words else (λ i. 0x2003)

abbrev two_spaces : Vm
two_spaces = record windowed { frames = user_frames }

abbrev user_space : Space
user_space = record { pd = record { addr = 0x5000; words = user_words }; pt_rec = 0x6000 }

abbrev in_user_space : Vm
in_user_space = record two_spaces {
  dir = user_words;
  rec_tab = user_words;
  frames = update user_frames 3 with_window;
}

in_user_space-Window : Window in_user_space
unfolding table_present has_flag frame_of recursive_no
in_user_space-Window = record { present = refl; same = λ t e. refl }

user_space-apart :
    (t : ℕ)
    → 256 ≤ t
    → table_present t in_user_space ≡ true
    → (addr_page (user_words t) == rec_page user_words) ≡ false
unfolding table_present has_flag rec_page recursive_no
user_space-apart t h e = ground (arith, h, e)

delete_address_space-Deleted_example :
    (s' : Vm) × (delete_address_space user_space 0x7000 two_spaces ≡ some s')
    × Deleted in_user_space two_spaces s'
unfolding switch_address_space virtual_to_physical get_tab table_present entry frame_of has_flag
    load_directory page_words rec_page recursive_no
delete_address_space-Deleted_example =
    delete_address_space-Deleted user_space 0x7000 two_spaces in_user_space refl refl
      in_user_space-Window user_space-apart

get_tab-stale_example :
    translation 0x40_1000 (get_tab 0x40_0000 true (one_table last_pages)).1
    ≡ left_over 1048544 0x40_1000 (one_table last_pages)
unfolding allocate_one find_next_free_page find_from take_page table_present has_flag is_nonzero
    count_trailing_0s
get_tab-stale_example =
    get_tab-stale 0x40_0000 0x40_1000 1048544 _ (one_table last_pages) refl refl (omega arith)
      (omega arith) refl
