-- ===== src/Memory/Layout.antt =====
-- src/kernel/src/memory/layout.cc: where things lie in virtual memory. The address of the symbol
-- KERNEL_HEAP_START, which the linker script sets, is an argument.
use rikai_os.Base.{ℕ, refl, true, arith, ◌-◌, ◌<◌, ◌≡◌, sub32}
use rikai_os.Memory.Region.{Region, regions_disjoint, region_contains}

unfoldable pub kernel : Region
kernel = record { start = 0; size = 0x4000_0000 }

-- `{1_GiB, 3_GiB - 4_KiB}`
unfoldable pub user : Region
user = record { start = 0x4000_0000; size = 0xc000_0000 - 0x1000 }

unfoldable pub page_tables : Region
page_tables = record { start = 0x3fc0_0000; size = 0x40_0000 }

unfoldable pub kernel_image : ℕ → Region
kernel_image heap_start = record { start = 0x10_0000; size = sub32 heap_start 0x10_0000 }

unfoldable pub kernel_heap : ℕ → Region
kernel_heap heap_start = record { start = heap_start; size = sub32 0x3000_0000 heap_start }

unfoldable pub kernel_mmio : Region
kernel_mmio = record { start = 0x3000_0000; size = 0x3fc0_0000 - 0x3000_0000 }

unfoldable pub user_args : Region
user_args = record { start = 0x4000_0000; size = 0x10_0000 }

-- Where the heap starts behind the start of the kernel image and before the memory-mapped I/O, the
-- four parts of kernel memory lie in it and are pairwise disjoint, the program arguments lie in user
-- memory, and user memory is disjoint from kernel memory.
pub layout_disjoint :
    (h : ℕ)
    → 0x10_0000 < h
    → h < 0x3000_0000
    → (region_contains kernel (kernel_image h) ≡ true)
      × (region_contains kernel (kernel_heap h) ≡ true)
      × (region_contains kernel kernel_mmio ≡ true)
      × (region_contains kernel page_tables ≡ true)
      × (regions_disjoint (kernel_image h) (kernel_heap h) ≡ true)
      × (regions_disjoint (kernel_image h) kernel_mmio ≡ true)
      × (regions_disjoint (kernel_image h) page_tables ≡ true)
      × (regions_disjoint (kernel_heap h) kernel_mmio ≡ true)
      × (regions_disjoint (kernel_heap h) page_tables ≡ true)
      × (regions_disjoint kernel_mmio page_tables ≡ true)
      × (regions_disjoint kernel user ≡ true)
      × (region_contains user user_args ≡ true)
unfolding kernel user page_tables kernel_image kernel_heap kernel_mmio user_args region_contains
    regions_disjoint
layout_disjoint h lo hi = (
  ground arith,
  ground arith,
  refl,
  refl,
  ground arith,
  ground arith,
  ground arith,
  ground arith,
  ground arith,
  refl,
  refl,
  refl,
)
