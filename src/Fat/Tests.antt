-- ===== src/Fat/Tests.antt =====
-- The theorems on FAT volumes at a small disk.
use rikai_os.Base.{ℕ, arith, if◌then◌else◌, ◌+◌, ◌*◌, ◌/◌, ◌%◌, ◌&&◌, ◌==◌, ltb, leb}
use rikai_os.Base.Int.{ℤ, pos}
use rikai_os.Fat.{Block, Cache, Volume, Inode, no_block}
use rikai_os.Fat.Write.{write}
use rikai_os.Fat.Writes.{InCluster, blocks_written, write-InCluster}
use rikai_os.Fat.Mount.{BootRecord}

-- A table of one block in which the cluster 3 follows 2, and six clusters of one block.
abbrev volume : Volume
volume = record {
  block_count = 8;
  cluster_size = 1;
  fat_lba = 1;
  fat_size = 1;
  data_lba = 2;
  root_cluster = 2;
}

abbrev disk : ℕ → Block
disk lba i =
    if lba == 1
    then (if i == 8 then 3 else if leb 12 i && ltb i 16 then 255 else 0)
    else (lba * 16 + i) % 256

abbrev disk_read : ℕ → Block → ℤ × Block
disk_read off buffer = (pos 512, disk (off / 512))

abbrev inode : Inode
inode = record { i = 2; size = 700 }

abbrev empty_cache : Cache
empty_cache = record {
  entries = λ i. record { block = λ j. 0; lba = no_block; hit = 0 };
  last_hit = 0;
}

write-InCluster_example : InCluster volume 2 (
    blocks_written (
      write volume disk_read (λ off block. pos 512) inode 100 600 (λ j. 7) empty_cache empty_cache))
write-InCluster_example =
    write-InCluster volume disk_read (λ off block. pos 512) inode 100 600 (λ j. 7) empty_cache
      empty_cache (omega arith) (omega arith)

abbrev boot_record : BootRecord
boot_record = record {
  signature = 0xaa55;
  bytes_per_block = 512;
  cluster_size = 1;
  reserved_blocks = 1;
  fat_count = 1;
  root_dir_entry_count = 0;
  fat_size_short = 0;
  block_count = 8;
  fat_size = 1;
  root_cluster = 2;
}
