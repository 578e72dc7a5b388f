-- ===== src/Fat.antt =====
-- src/kernel/src/filesystem/fat32.cc: the block caches, cluster chains, and reading and writing files. A
-- block is the function from the offset of a byte to the byte. Locking is left out.
use rikai_os.Base.{
  ℕ, zero, suc, Bool, not, if◌then◌else◌, ◌+◌, ◌-◌, ◌*◌, ◌/◌, ◌%◌, ◌^◌, ◌&&◌, ◌||◌, ◌==◌, ltb, leb,
  u32_mod, add32, sub32, mul32, update,
}
use rikai_os.Base.Int.{ℤ, pos, negsuc, min_zero, is_nonzero}
use rikai_os.Math.{min_of}
pub mod Cached
pub mod Chain
pub mod Blocks
pub mod Read
pub mod Write
pub mod Writes
pub mod Mount
mod Tests

abbrev pub block_size : ℕ
block_size = 512

abbrev pub cache_size : ℕ
cache_size = 1024

-- `intmax<u32>::value`, the address of a cache entry that holds no block.
abbrev pub no_block : ℕ
no_block = 2 ^ 32 - 1

abbrev pub Block : Type 0
Block = ℕ → ℕ

-- The word at an index of a `fat_block_t`, with its lowest byte first.
unfoldable pub fat_word : Block → ℕ → ℕ
fat_word b i = b (4 * i) + 2 ^ 8 * b (4 * i + 1) + 2 ^ 16 * b (4 * i + 2) + 2 ^ 24 * b (4 * i + 3)

abbrev pub fat_block_words : ℕ
fat_block_words = 128

pub record CacheEntry : Type 0 where
  pub block : Block
  pub lba : ℕ
  pub hit : ℕ

pub record Cache : Type 0 where
  pub entries : ℕ → CacheEntry
  pub last_hit : ℕ

-- What `try_mount` has read from the boot record.
pub record Volume : Type 0 where
  pub block_count : ℕ
  pub cluster_size : ℕ
  pub fat_lba : ℕ
  pub fat_size : ℕ
  pub data_lba : ℕ
  pub root_cluster : ℕ

-- The negative error codes that are used here.
abbrev pub err_nospace : ℤ
err_nospace = negsuc 4

abbrev pub err_not_exists : ℤ
err_not_exists = negsuc 8

abbrev pub err_io : ℤ
err_io = negsuc 6

-- The loop of `get_cache_entry` from the entry `i` on; `n` are left.
unfoldable pub find_entry : ℕ → ℕ → ℕ → ℕ → Cache → ℕ
find_entry zero i lru_i lba c = lru_i
find_entry (suc n) i lru_i lba c =
    let lru = if ltb (c.entries i).hit (c.entries lru_i).hit then i else lru_i in
    let rest = find_entry n (i + 1) lru lba c in if (c.entries i).lba == lba then i else rest

unfoldable pub set_cache_entry : ℕ → CacheEntry → Cache → Cache
set_cache_entry k e c = record c { entries = update c.entries k e }

unfoldable pub touch : ℕ → Cache → Cache
unfolding set_cache_entry
touch k c =
    set_cache_entry k (record (c.entries k) { hit = add32 c.last_hit 1 })
      (record c { last_hit = add32 c.last_hit 1 })

-- `get_cache_entry`: the number of the entry, and the cache.
unfoldable pub get_cache_entry : Cache → ℕ → ℕ × Cache
unfolding find_entry touch
get_cache_entry c lba = let k = find_entry cache_size 0 0 lba c in (k, touch k c)

unfoldable pub is_eoc : ℕ → Bool
is_eoc cluster_n = ltb cluster_n 2 || leb 0x0fff_fff0 cluster_n

-- `a + b` of two u64.
abbrev pub add64 : ℕ → ℕ → ℕ
add64 a b = (a + b) % 2 ^ 64

-- A file: `i` and `size` of its inode.
pub record Inode : Type 0 where
  pub i : ℕ
  pub size : ℕ

-- The variables of `read`: the caches, the cluster, the bytes that were read, and the buffer.
pub record Progress : Type 0 where
  pub fat_cache : Cache
  pub data_cache : Cache
  pub cluster_i : ℕ
  pub bytes_read : ℕ
  pub buffer : ℕ → ℕ

-- A round of a loop returns, or goes on.
pub data Round : Type 0 where
  returned : ℤ → Progress → Round
  going : Progress → Round

-- `dev_read offset buffer`: the result of reading a block, and the buffer.
module _ (v : Volume) (dev_read : ℕ → Block → ℤ × Block) where
  unfoldable pub read_block : ℕ → Block → ℤ × Block
  read_block lba buffer =
      let r = dev_read (mul32 lba block_size) buffer in
      if ltb lba v.block_count then (min_zero r.0, r.1) else (err_io, buffer)

  -- A block is read into the entry `k`.
  unfoldable pub load_entry : ℕ → ℕ → ℤ × Block → Cache → ℤ × ℕ × Cache
  unfolding set_cache_entry
  load_entry k lba (err, block) c =
      let hit = (c.entries k).hit in
      if is_nonzero err
      then (err, k, set_cache_entry k (record { block = block; lba = no_block; hit = hit }) c)
      else (pos 0, k, set_cache_entry k (record { block = block; lba = lba; hit = hit }) c)

  -- `get_data_block` at the entry that was found.
  unfoldable pub use_entry : ℕ → ℕ × Cache → ℤ × ℕ × Cache
  unfolding load_entry read_block
  use_entry lba (k, c) =
      if not ((c.entries k).lba == lba)
      then load_entry k lba (read_block lba (c.entries k).block) c
      else (pos 0, k, c)

  -- `get_data_block` and `get_fat_block`, which add `data_lba` or `fat_lba`: the error, the number of the
  -- entry that holds the block, and the cache.
  unfoldable pub get_block : ℕ → ℕ → Cache → ℤ × ℕ × Cache
  unfolding use_entry get_cache_entry
  get_block first_lba block_i c =
      use_entry (add32 first_lba block_i) (get_cache_entry c (add32 first_lba block_i))

  -- `get_next_cluster_n`, with `next` among the results.
  unfoldable pub get_next_cluster_n : ℕ → ℕ → Cache → ℤ × ℕ × Cache
  unfolding get_block is_eoc fat_word
  get_next_cluster_n next zero c = (pos 0, next, c)
  get_next_cluster_n next (suc inc) c =
      let r = get_block v.fat_lba (next / fat_block_words) c in
      let rest =
        get_next_cluster_n (fat_word (r.2.entries r.1).block (next % fat_block_words)) inc r.2 in
      if is_eoc next
      then (err_not_exists, next, c)
      else if is_nonzero r.0
      then (r.0, next, r.2)
      else rest

  module _ (inode : Inode) (offset nbytes : ℕ) where
    -- The position in the file.
    abbrev pub position : Progress → ℕ
    position p = add64 offset p.bytes_read

    unfoldable pub to_copy : Progress → ℕ
    unfolding min_of
    to_copy p =
        min_of
          (min_of ((nbytes + 2 ^ 64 - p.bytes_read) % 2 ^ 64)
              ((inode.size + 2 ^ 64 - position p) % 2 ^ 64)
            % u32_mod)
          (sub32 block_size (position p % block_size % u32_mod))

    -- `memcpy` of `n` bytes.
    unfoldable pub copy : ℕ → ℕ → ℕ → Block → (ℕ → ℕ) → ℕ → ℕ
    copy dest src n block buffer j =
        if leb dest j && ltb j (dest + n) then block (src + (j - dest)) else buffer j

    unfoldable pub read_from : Block → Progress → Progress
    unfolding to_copy copy
    read_from block p = record p {
      bytes_read = add32 p.bytes_read (to_copy p);
      buffer = copy p.bytes_read (position p % block_size) (to_copy p) block p.buffer;
    }

    -- The block of a cluster.
    unfoldable pub block_of : ℕ → ℕ → ℕ
    block_of cluster_i block_i = add32 (mul32 (sub32 cluster_i 2) v.cluster_size) block_i

    -- The loop over the blocks of a cluster, from `block_i` on; `n` are left.
    unfoldable pub read_blocks : ℕ → ℕ → Progress → Round
    unfolding get_block read_from block_of
    read_blocks zero block_i p = going p
    read_blocks (suc n) block_i p =
        let r = get_block v.data_lba (block_of p.cluster_i block_i) p.data_cache in
        let p' = record p { data_cache = r.2 } in
        let rest = read_blocks n (block_i + 1) (read_from (r.2.entries r.1).block p') in
        if is_nonzero r.0 then returned r.0 p' else rest

    unfoldable pub read_cluster : Progress → Round
    unfolding read_blocks
    read_cluster p =
        let block_i = position p / block_size % v.cluster_size in
        read_blocks (v.cluster_size - block_i) block_i p

    -- The cluster has been looked up.
    unfoldable pub enter_cluster : ℤ × ℕ × Cache → Progress → Round
    unfolding read_cluster is_eoc
    enter_cluster (err, cluster_i, fat_cache) p =
        let p' = record p { cluster_i = cluster_i; fat_cache = fat_cache } in
        if is_eoc cluster_i
        then returned (pos 0) p'
        else if is_nonzero err
        then returned err p'
        else read_cluster p'

    unfoldable pub file_cluster : Progress → ℕ
    file_cluster p = position p / block_size / v.cluster_size % u32_mod

    -- A round of the loop of `read`.
    unfoldable pub read_round : Progress → Round
    unfolding read_cluster enter_cluster get_next_cluster_n file_cluster
    read_round p =
        if not (ltb p.bytes_read nbytes)
        then returned (pos p.bytes_read) p
        else if leb inode.size (position p)
        then returned (pos p.bytes_read) p
        else if not (file_cluster p == 0)
        then enter_cluster (get_next_cluster_n (inode.i % u32_mod) (file_cluster p) p.fat_cache) p
        else read_cluster p

    unfoldable pub read_loop : ℕ → Round → Round
    unfolding read_round
    read_loop zero r = r
    read_loop (suc n) (returned e p) = returned e p
    read_loop (suc n) (going p) = read_loop n (read_round p)

    -- `read` with a round for each byte at most, and one more to end.
    unfoldable pub read : Cache → Cache → (ℕ → ℕ) → Round
    unfolding read_loop
    read fat_cache data_cache buffer =
        let p : Progress = record {
          fat_cache = fat_cache;
          data_cache = data_cache;
          cluster_i = inode.i % u32_mod;
          bytes_read = 0;
          buffer = buffer;
        } in
        if leb inode.size offset then returned (pos 0) p else read_loop (nbytes + 1) (going p)
