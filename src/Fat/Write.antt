-- ===== src/Fat/Write.antt =====
-- `write` of src/kernel/src/filesystem/fat32.cc. What is written to the device is a list of blocks with
-- their addresses, the last first.
use rikai_os.Base.{
  ℕ, zero, suc, not, List, [], if◌then◌else◌, ◌+◌, ◌-◌, ◌/◌, ◌%◌, ◌^◌, ◌&&◌, ◌∷◌, ◌==◌, ltb, leb,
  u32_mod, add32, sub32, mul32,
}
use rikai_os.Base.Int.{ℤ, pos, min_zero, is_nonzero}
use rikai_os.Math.{min_of}
use rikai_os.Fat.{
  Block, Cache, Volume, Inode, block_size, add64, err_io, err_nospace, is_eoc, set_cache_entry,
  get_block, get_next_cluster_n,
}

-- The variables of `write`, and the blocks written.
pub record Writing : Type 0 where
  pub fat_cache : Cache
  pub data_cache : Cache
  pub bytes_written : ℕ
  pub written : List (ℕ × Block)

pub data WriteRound : Type 0 where
  returned : ℤ → Writing → WriteRound
  going : Writing → WriteRound

-- `dev_write` is the result of the device.
module _ (v : Volume) (dev_read : ℕ → Block → ℤ × Block) (dev_write : ℕ → Block → ℤ) where
  -- `write_data_block`, which writes through; the device gets the block if its address is in the volume.
  unfoldable pub write_data_block : ℕ → Block → List (ℕ × Block) → ℤ × List (ℕ × Block)
  write_data_block block_i block written =
      let lba = add32 v.data_lba block_i in
      if ltb lba v.block_count
      then (min_zero (dev_write (mul32 lba block_size) block), (lba, block) ∷ written)
      else (err_io, written)

  module _ (inode : Inode) (offset nbytes : ℕ) (buffer : ℕ → ℕ) where
    abbrev position : Writing → ℕ
    position w = add64 offset w.bytes_written

    unfoldable pub to_write : Writing → ℕ
    unfolding min_of
    to_write w =
        min_of
          (min_of ((nbytes + 2 ^ 64 - w.bytes_written) % 2 ^ 64)
              ((inode.size + 2 ^ 64 - position w) % 2 ^ 64)
            % u32_mod)
          (sub32 block_size (position w % block_size % u32_mod))

    -- The bytes of the buffer are copied into the block.
    unfoldable pub fill_block : ℕ → ℕ → ℕ → Block → Block
    fill_block dest src n block j =
        if leb dest j && ltb j (dest + n) then buffer (src + (j - dest)) else block j

    -- The entry `k` of the cache has the block that is written.
    unfoldable pub write_entry : ℕ → ℕ → Writing → Writing
    unfolding to_write fill_block write_data_block set_cache_entry
    write_entry k block_i w =
        let e = w.data_cache.entries k in
        let block = fill_block (position w % block_size) w.bytes_written (to_write w) e.block in
        let r = write_data_block block_i block w.written in
        record w {
          data_cache = set_cache_entry k (record e { block = block }) w.data_cache;
          bytes_written = add32 w.bytes_written (to_write w);
          written = r.1;
        }

    unfoldable pub write_block_of : ℕ → ℕ → ℕ
    write_block_of cluster_i block_i = add32 (mul32 (sub32 cluster_i 2) v.cluster_size) block_i

    -- The loop over the blocks of a cluster from `block_i` on; the result of each write is dropped.
    unfoldable pub write_blocks : ℕ → ℕ → ℕ → Writing → WriteRound
    unfolding get_block write_entry write_block_of
    write_blocks zero block_i cluster_i w = going w
    write_blocks (suc n) block_i cluster_i w =
        let r = get_block v dev_read v.data_lba (write_block_of cluster_i block_i) w.data_cache in
        let w' = record w { data_cache = r.2 } in
        let rest =
          write_blocks n (block_i + 1) cluster_i
            (write_entry r.1 (write_block_of cluster_i block_i) w') in
        if is_nonzero r.0 then returned r.0 w' else rest

    unfoldable pub write_cluster : ℕ → Writing → WriteRound
    unfolding write_blocks
    write_cluster cluster_i w =
        let block_i = position w / block_size % v.cluster_size in
        write_blocks (v.cluster_size - block_i) block_i cluster_i w

    unfoldable pub enter_write : ℤ × ℕ × Cache → Writing → WriteRound
    unfolding write_cluster is_eoc
    enter_write (err, cluster_i, fat_cache) w =
        let w' = record w { fat_cache = fat_cache } in
        if is_eoc cluster_i
        then returned err_nospace w'
        else if is_nonzero err
        then returned err w'
        else write_cluster cluster_i w'

    -- `offset / block_size / cluster_size`
    unfoldable pub offset_cluster : ℕ
    offset_cluster = offset / block_size / v.cluster_size % u32_mod

    unfoldable pub write_round : Writing → WriteRound
    unfolding write_cluster enter_write get_next_cluster_n offset_cluster
    write_round w =
        if not (ltb w.bytes_written nbytes)
        then returned (pos w.bytes_written) w
        else if leb inode.size (position w)
        then returned err_nospace w
        else if not (offset_cluster == 0)
        then enter_write
            (get_next_cluster_n v dev_read (inode.i % u32_mod) offset_cluster w.fat_cache) w
        else write_cluster (inode.i % u32_mod) w

    unfoldable pub write_loop : ℕ → WriteRound → WriteRound
    unfolding write_round
    write_loop zero r = r
    write_loop (suc n) (returned e w) = returned e w
    write_loop (suc n) (going w) = write_loop n (write_round w)

    -- `write` with a round for each byte at most, and one more to end.
    unfoldable pub write : Cache → Cache → WriteRound
    unfolding write_loop
    write fat_cache data_cache =
        let w : Writing = record {
          fat_cache = fat_cache;
          data_cache = data_cache;
          bytes_written = 0;
          written = [];
        } in
        if leb inode.size offset then returned err_nospace w else write_loop (nbytes + 1) (going w)
