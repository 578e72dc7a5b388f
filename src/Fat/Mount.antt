-- ===== src/Fat/Mount.antt =====
-- The checks that `try_mount` of src/kernel/src/filesystem/fat32.cc makes on the first block of a device.
use rikai_os.Base.{
  ℕ, Bool, not, Option, none, some, if◌then◌else◌, ◌+◌, ◌-◌, ◌*◌, ◌/◌, ◌≤◌, ◌<◌, ◌||◌, ◌==◌, ltb,
  leb, add32, sub32, mul32,
}
use rikai_os.Fat.{Volume, block_size}

-- The fields of `boot_record_t` that are looked at.
pub record BootRecord : Type 0 where
  pub signature : ℕ
  pub bytes_per_block : ℕ
  pub cluster_size : ℕ
  pub reserved_blocks : ℕ
  pub fat_count : ℕ
  pub root_dir_entry_count : ℕ
  pub fat_size_short : ℕ
  pub block_count : ℕ
  pub fat_size : ℕ
  pub root_cluster : ℕ

-- The checks of `try_mount` before it computes where the data is.
unfoldable pub rejected_fields : BootRecord → ℕ → Bool
rejected_fields br dev_size =
    not (br.signature == 0xaa55)
    || not (br.bytes_per_block == block_size)
    || ltb (dev_size / block_size) br.block_count
    || br.reserved_blocks == 0
    || br.cluster_size == 0
    || br.block_count == 0
    || br.fat_count == 0
    || not (br.root_dir_entry_count == 0)
    || not (br.fat_size_short == 0)
    || ltb br.block_count br.fat_size

-- `fat_lba + fat_size * br.bpb.fat_count`
unfoldable pub data_start : BootRecord → ℕ
data_start br = add32 br.reserved_blocks (mul32 br.fat_size br.fat_count)

unfoldable pub data_clusters : BootRecord → ℕ
unfolding data_start
data_clusters br = sub32 br.block_count (data_start br) / br.cluster_size

unfoldable pub rejected_layout : BootRecord → Bool
unfolding data_start data_clusters
rejected_layout br =
    leb br.block_count (data_start br)
    || data_clusters br == 0
    || br.root_cluster == 0
    || leb (data_clusters br) br.root_cluster

-- What the constructor gets when all checks pass.
unfoldable pub volume_of : BootRecord → Volume
unfolding data_start
volume_of br = record {
  block_count = br.block_count;
  cluster_size = br.cluster_size;
  fat_lba = br.reserved_blocks;
  fat_size = br.fat_size;
  data_lba = data_start br;
  root_cluster = br.root_cluster;
}

-- `try_mount`, given whether the first block was read, the size of the device, whether `new` gives an
-- object, and whether the filesystem could be mounted in the Vfs.
unfoldable pub try_mount : Bool → BootRecord → ℕ → Bool → Bool → Option Volume
unfolding rejected_fields rejected_layout volume_of
try_mount was_read br dev_size allocated mounted =
    if not was_read
    then none
    else if rejected_fields br dev_size
    then none
    else if rejected_layout br
    then none
    else if not allocated
    then none
    else if mounted
    then some (volume_of br)
    else none

-- A volume with at least one cluster of data, all of which lies on the device. The number of the root
-- directory is positive and below the number of clusters; from 2 on, where the numbers of clusters start,
-- its blocks are blocks of the data.
pub record Sound (v : Volume) (dev_size : ℕ) : Type 0 where
  pub clusters : 0 < v.cluster_size
  pub data_fits :
      v.data_lba + (v.block_count - v.data_lba) / v.cluster_size * v.cluster_size ≤ v.block_count
  pub on_device : v.block_count * block_size ≤ dev_size
  pub root_positive : 0 < v.root_cluster
  pub root_fits : v.root_cluster < (v.block_count - v.data_lba) / v.cluster_size
  pub root_blocks :
      (b : ℕ)
      → 2 ≤ v.root_cluster
      → b < v.cluster_size
      → v.data_lba + ((v.root_cluster - 2) * v.cluster_size + b) < v.block_count
