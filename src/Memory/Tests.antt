-- ===== src/Memory/Tests.antt =====
-- The theorem on the memory layout at a concrete start of the heap.
use rikai_os.Base.{true, arith, ◌≡◌}
use rikai_os.Memory.Region.{regions_disjoint, region_contains}
use rikai_os.Memory.Layout.{
  kernel, user, page_tables, kernel_image, kernel_heap, kernel_mmio, user_args, layout_disjoint,
}

layout_disjoint_example :
    (region_contains kernel (kernel_image 0x20_0000) ≡ true)
    × (region_contains kernel (kernel_heap 0x20_0000) ≡ true)
    × (region_contains kernel kernel_mmio ≡ true)
    × (region_contains kernel page_tables ≡ true)
    × (regions_disjoint (kernel_image 0x20_0000) (kernel_heap 0x20_0000) ≡ true)
    × (regions_disjoint (kernel_image 0x20_0000) kernel_mmio ≡ true)
    × (regions_disjoint (kernel_image 0x20_0000) page_tables ≡ true)
    × (regions_disjoint (kernel_heap 0x20_0000) kernel_mmio ≡ true)
    × (regions_disjoint (kernel_heap 0x20_0000) page_tables ≡ true)
    × (regions_disjoint kernel_mmio page_tables ≡ true)
    × (regions_disjoint kernel user ≡ true)
    × (region_contains user user_args ≡ true)
layout_disjoint_example = layout_disjoint 0x20_0000 (omega arith) (omega arith)
