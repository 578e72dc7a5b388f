-- ===== src/Memory/Virtual.antt =====
-- src/kernel/src/memory/manager-virtual.cc: page directories, page tables and address spaces. The
-- variables are those of the current address space. The processor's cache of the tables is left out.
use rikai_os.Base.{
  ℕ, zero, suc, Bool, true, false, not, Option, none, some, if◌then◌else◌, ◌+◌, ◌/◌, ◌%◌, ◌&&◌,
  ◌==◌, ltb, leb, add32, sub32, mul32, update,
}
use mathlib.Core.Option
use rikai_os.Math.{div_ceil}
use rikai_os.Memory.Region.{Region, addr_in_region}
use rikai_os.Memory.Layout.{user, page_tables, kernel_mmio}
use rikai_os.Memory.Physical.{Pages, page_size, allocate_one, free_one}
use rikai_os.Memory.Virtual.Entry.{
  has_flag, or32, present_bit, borrowed_bit, flag_present, flag_writable, flag_user, flag_nocache,
  flag_borrowed, pte_addr, make_pte, addr_tab, addr_page, addr_pagei, page_addr,
}
pub mod Entry
pub mod Translation
pub mod Map
pub mod Unmap
pub mod Mapped
pub mod Spaces
pub mod Switch
pub mod Delete
pub mod Freed
pub mod Walk
mod Tests

-- The page directory, the recursive page table, the words of every other page of physical memory that
-- holds a page table, the pages of Memory::Physical, and `mmio_mapped` of `map_mmio`.
pub record Vm : Type 0 where
  pub dir : ℕ → ℕ
  pub rec_tab : ℕ → ℕ
  pub frames : ℕ → ℕ → ℕ
  pub pages : Pages
  pub mmio_mapped : ℕ

-- The results that the functions here return; `errno_t` is an int.
pub data Errno : Type 0 where
  pos : ℕ → Errno
  negsuc : ℕ → Errno

abbrev pub err_success : Errno
err_success = pos 0

abbrev pub err_nomem : Errno
err_nomem = negsuc 5

abbrev pub is_negative : Errno → Bool
is_negative (pos n) = false
is_negative (negsuc n) = true

-- The page of physical memory at which the window of `tables()` has the table `t`.
unfoldable pub frame_of : ℕ → Vm → ℕ
frame_of t s = addr_page (s.rec_tab t)

-- `tables()[t][i]`
unfoldable pub entry : ℕ → ℕ → Vm → ℕ
unfolding frame_of
entry t i s = s.frames (frame_of t s) i

unfoldable pub set_entry : ℕ → ℕ → ℕ → Vm → Vm
unfolding frame_of
set_entry t i v s = record s {
  frames = update s.frames (frame_of t s) (update (s.frames (frame_of t s)) i v);
}

-- `flag_present | flag_writable`, for a page table and for the directory.
unfoldable pub table_flags : ℕ
unfolding or32
table_flags = or32 flag_present flag_writable

unfoldable pub directory_flags : ℕ → ℕ
unfolding table_flags or32 addr_in_region user
directory_flags for_addr =
    if addr_in_region for_addr user then or32 table_flags flag_user else table_flags

-- What `get_tab` does with the page that was allocated.
unfoldable pub install_table : ℕ → ℕ × Pages → Vm → Bool × Vm
unfolding make_pte directory_flags table_flags
install_table for_addr (phy_page, pages) s =
    if phy_page == 0 then (false, record s { pages = pages }) else (
      true,
      record s {
        pages = pages;
        rec_tab = update s.rec_tab (addr_tab for_addr) (make_pte (page_addr phy_page) table_flags);
        dir =
            update s.dir (addr_tab for_addr)
              (make_pte (page_addr phy_page) (directory_flags for_addr));
      },
    )

unfoldable pub table_present : ℕ → Vm → Bool
unfolding has_flag
table_present t s = has_flag present_bit (s.dir t)

-- `get_tab`: whether the result is not null; it is then the table of the address.
unfoldable pub get_tab : ℕ → Bool → Vm → Bool × Vm
unfolding install_table table_present allocate_one
get_tab for_addr allocate s =
    if not (table_present (addr_tab for_addr) s)
    then if not allocate then (false, s) else install_table for_addr (allocate_one s.pages) s
    else (true, s)

-- `virtual_to_physical`, once paging is enabled.
unfoldable pub virtual_to_physical : ℕ → Vm → ℕ
unfolding get_tab entry
virtual_to_physical virt s =
    if not (get_tab virt false s).0 then 0 else pte_addr (entry (addr_tab virt) (addr_pagei virt) s)

-- `unmap_one` at the entry that was found.
unfoldable pub clear_entry : ℕ → ℕ → ℕ → Vm → Vm
unfolding has_flag set_entry free_one
clear_entry t i pte s =
    if has_flag present_bit pte
    then set_entry t i 0 (record s {
      pages =
          (if not (has_flag borrowed_bit pte)
            then free_one (addr_page (pte_addr pte)) s.pages
            else s.pages);
    })
    else s

unfoldable pub unmap_one : ℕ → Vm → Vm
unfolding get_tab clear_entry entry
unmap_one virt s =
    if (get_tab virt false s).0
    then clear_entry (addr_tab virt) (addr_pagei virt) (entry (addr_tab virt) (addr_pagei virt) s) s
    else s

-- The loop of `unmap` from `i` on; `n` rounds are left.
unfoldable pub unmap_loop : ℕ → ℕ → ℕ → Vm → Vm
unfolding unmap_one
unmap_loop zero i virt s = s
unmap_loop (suc n) i virt s =
    unmap_loop n (i + 1) virt (unmap_one (add32 virt (mul32 i page_size)) s)

unfoldable pub unmap : ℕ → ℕ → Vm → Vm
unfolding unmap_loop
unmap virt size s = unmap_loop (size / page_size) 0 virt s

-- `map_one` when it has the table and the page.
unfoldable pub write_entry : ℕ → ℕ → ℕ → Vm → Vm
unfolding set_entry make_pte or32
write_entry virt phy flags s =
    set_entry (addr_tab virt) (addr_pagei virt) (make_pte phy (or32 flags flag_present)) s

-- `map_one` when the page is to be allocated.
unfoldable pub map_allocated : ℕ → ℕ → ℕ × Pages → Vm → Bool × Vm
unfolding write_entry
map_allocated virt flags (phy_page, pages) s =
    if phy_page == 0
    then (false, record s { pages = pages })
    else (true, write_entry virt (mul32 phy_page page_size) flags (record s { pages = pages }))

unfoldable pub map_in_table : ℕ → ℕ → ℕ → Vm → Bool × Vm
unfolding map_allocated allocate_one write_entry
map_in_table virt phy flags s =
    if phy == 0
    then map_allocated virt flags (allocate_one s.pages) s
    else (true, write_entry virt phy flags s)

unfoldable pub map_one : ℕ → ℕ → ℕ → Vm → Bool × Vm
unfolding get_tab map_in_table
map_one virt phy flags s =
    let r = get_tab virt true s in if not r.0 then (false, r.1) else map_in_table virt phy flags r.1

-- The conversion of a bool to `errno_t`.
unfoldable pub bool_errno : Bool → Errno
bool_errno b = if b then pos 1 else pos 0

-- The loop of `map` from `i` on; `n` rounds are left.
unfoldable pub map_loop : ℕ → ℕ → ℕ → ℕ → ℕ → Vm → Errno × Vm
unfolding map_one bool_errno unmap
map_loop zero i virt phy flags s = (err_success, s)
map_loop (suc n) i virt phy flags s =
    let r =
      map_one (add32 virt (mul32 i page_size))
        (if not (phy == 0) then add32 phy (mul32 i page_size) else 0) flags s in
    let rest = map_loop n (i + 1) virt phy flags r.1 in
    if is_negative (bool_errno r.0)
    then (bool_errno r.0, unmap virt (mul32 i page_size) r.1)
    else rest

-- `map`; `none` is a failed assertion.
unfoldable pub map : ℕ → ℕ → ℕ → ℕ → Vm → Option (Errno × Vm)
unfolding map_loop
map virt phy size flags s =
    if size % page_size == 0 then some (map_loop (size / page_size) 0 virt phy flags s) else none

-- The result of `map_mmio`, with the address that it writes back.
unfoldable pub mmio_done : ℕ → ℕ → Errno × Vm → Errno × ℕ × Vm
mmio_done virt size (err, s) = (
  err,
  virt,
  (if not (is_negative err) then record s { mmio_mapped = add32 s.mmio_mapped size } else s),
)

unfoldable pub map_mmio : ℕ → ℕ → ℕ → ℕ → Vm → Option (Errno × ℕ × Vm)
unfolding map mmio_done or32 kernel_mmio
map_mmio virt phy size flags s =
    let f = or32 flags (or32 flag_borrowed flag_nocache) in
    let v = add32 kernel_mmio.start s.mmio_mapped in
    if phy == 0
    then none
    else if not (virt == 0)
    then Option.map (λ r. (r.0, virt, r.1)) (map virt phy size f s)
    else if leb size (sub32 kernel_mmio.size s.mmio_mapped)
    then Option.map (mmio_done v size) (map v phy size f s)
    else some (err_nomem, 0, s)

unfoldable pub page_mapped : ℕ → Vm → Bool
unfolding get_tab entry has_flag
page_mapped a s =
    if not (get_tab a false s).0
    then false
    else has_flag present_bit (entry (addr_tab a) (addr_pagei a) s)

-- The loop of `is_mapped` from the page `pn` on; `n` rounds are left.
unfoldable pub mapped_loop : ℕ → ℕ → ℕ → Vm → Bool
unfolding page_mapped
mapped_loop zero pn virt s = true
mapped_loop (suc n) pn virt s =
    if not (page_mapped (add32 virt (mul32 pn page_size)) s)
    then false
    else mapped_loop n (pn + 1) virt s

unfoldable pub is_mapped : ℕ → ℕ → Vm → Bool
unfolding mapped_loop div_ceil
is_mapped virt size s =
    mapped_loop (div_ceil (add32 size (virt % 4096)) page_size) 0 (pte_addr virt) s

-- A page directory: its address and its words.
pub record PageDir : Type 0 where
  pub addr : ℕ
  pub words : ℕ → ℕ

-- `address_space_t`: its page directory and the address of its recursive table.
pub record Space : Type 0 where
  pub pd : PageDir
  pub pt_rec : ℕ

-- The number of the table of page tables.
unfoldable pub recursive_no : ℕ
unfolding page_tables
recursive_no = addr_tab page_tables.start

-- The page of physical memory that is the recursive table of a directory.
unfoldable pub rec_page : (ℕ → ℕ) → ℕ
unfolding recursive_no
rec_page dir = addr_page (dir recursive_no)

-- The words of a page of physical memory; the current recursive table lies in `rec_tab`.
unfoldable pub page_words : ℕ → Vm → ℕ → ℕ
unfolding rec_page
page_words p s = if p == rec_page s.dir then s.rec_tab else s.frames p

-- `asm_cr3` and the assignment of `current_dir_`: what the directory has at the number of the table of
-- page tables becomes the recursive table.
unfoldable pub load_directory : (ℕ → ℕ) → Vm → Vm
unfolding rec_page page_words
load_directory words s = record s {
  dir = words;
  rec_tab = page_words (rec_page words) s;
  frames = update s.frames (rec_page s.dir) s.rec_tab;
}

-- `switch_address_space` to a directory; `none` is a failed assertion.
unfoldable pub switch_address_space : PageDir → Vm → Option Vm
unfolding virtual_to_physical load_directory
switch_address_space dir s =
    if virtual_to_physical dir.addr s == 0 then none else some (load_directory dir.words s)

-- A directory or table of a new address space: kernel memory as in `f`, user memory empty.
unfoldable pub new_entries : (ℕ → ℕ) → ℕ → ℕ → ℕ
unfolding recursive_no make_pte table_flags
new_entries f ptab_pa =
    update (λ i. if leb 256 i then 0 else f i) recursive_no (make_pte ptab_pa table_flags)

-- The words of a page of physical memory are written.
unfoldable pub write_page : ℕ → (ℕ → ℕ) → Vm → Vm
unfolding rec_page
write_page p f s = record s {
  rec_tab = (if p == rec_page s.dir then f else s.rec_tab);
  frames = update s.frames p f;
}

-- `make_address_space`, given the results of its three allocations.
unfoldable pub make_address_space : Bool → Option ℕ → Option ℕ → Vm → Option (Space × Vm)
unfolding new_entries virtual_to_physical write_page
make_address_space false pd pt_rec s = none
make_address_space true none pt_rec s = none
make_address_space true (some pd) none s = none
make_address_space true (some pd) (some pt_rec) s =
    let ptab_pa = virtual_to_physical pt_rec s in
    some (
      record { pd = record { addr = pd; words = new_entries s.dir ptab_pa }; pt_rec = pt_rec },
      write_page (addr_page ptab_pa) (new_entries s.rec_tab ptab_pa) s,
    )

-- The loop of `delete_address_space` over the entries of the table `t` from `j` on.
unfoldable pub free_entries : ℕ → ℕ → ℕ → Vm → Vm
unfolding entry has_flag free_one
free_entries zero j t s = s
free_entries (suc n) j t s = free_entries n (j + 1) t (
    if has_flag present_bit (entry t j s) && not (has_flag borrowed_bit (entry t j s))
    then record s { pages = free_one (addr_page (pte_addr (entry t j s))) s.pages }
    else s)

unfoldable pub free_table : ℕ → Vm → Vm
unfolding free_entries table_present free_one
free_table t s =
    let r = free_entries 1024 0 t s in
    if table_present t s
    then record r { pages = free_one (addr_page (pte_addr (s.dir t))) r.pages }
    else s

-- The loop over the tables from `t` on.
unfoldable pub free_tables : ℕ → ℕ → Vm → Vm
unfolding free_table
free_tables zero t s = s
free_tables (suc n) t s = free_tables n (t + 1) (if ltb t 256 then s else free_table t s)

-- `delete_address_space` once the switch has been tried. The deletions of its three objects on the heap,
-- which come last, are left out.
unfoldable pub free_space : PageDir → Option Vm → Option Vm
unfolding switch_address_space free_tables
free_space old none = none
free_space old (some s) = switch_address_space old (free_tables 1024 0 s)

-- `delete_address_space`; `current_dir` is the address of the current directory.
unfoldable pub delete_address_space : Space → ℕ → Vm → Option Vm
unfolding switch_address_space free_space
delete_address_space space current_dir s =
    free_space (record { addr = current_dir; words = s.dir }) (switch_address_space space.pd s)
