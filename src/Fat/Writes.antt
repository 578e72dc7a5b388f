-- ===== src/Fat/Writes.antt =====
-- Where `write` of src/kernel/src/filesystem/fat32.cc writes.
use native.Mathlib.Nat.{mod-lt, div-eq_of_lt}
use rikai_os.Base.{
  ℕ, zero, suc, refl, sym, ap, Bool, true, false, not, List, [], arith, if◌then◌else◌, ◌+◌, ◌-◌,
  ◌/◌, ◌%◌, ◌≤◌, ◌<◌, ◌≡◌, ◌∷◌, ◌==◌, ltb, leb, if-false, u32_mod, add32, sub32, mul32,
}
use mathlib.Core.Path.{subst}
use rikai_os.Base.Int.{ℤ, is_nonzero}
use rikai_os.Fat.{Block, Cache, Volume, Inode, get_block, add64}
use rikai_os.Fat.Write.{
  Writing, WriteRound, returned, going, write_data_block, write_entry, write_block_of, write_blocks,
  write_cluster, write_round, offset_cluster, write_loop, write,
}

-- Every address is that of a block of the cluster.
abbrev pub InCluster : Volume → ℕ → List (ℕ × Block) → Type 0
InCluster v cluster [] = Unit {0}
InCluster v cluster ((lba, block) ∷ written) =
    ((b : ℕ) × (b < v.cluster_size)
      × (lba ≡ add32 v.data_lba (add32 (mul32 (sub32 cluster 2) v.cluster_size) b)))
    × InCluster v cluster written

-- The blocks that were written when a round ended.
abbrev pub blocks_written : WriteRound → List (ℕ × Block)
blocks_written (returned e w) = w.written
blocks_written (going w) = w.written

-- Either way.
chosen : {A : Type 0} (P : A → Type 0) (b : Bool) (x y : A) → P x → P y → P (if b then x else y)
chosen P true x y p q = p
chosen P false x y p q = q

module _ (v : Volume) (dev_read : ℕ → Block → ℤ × Block) (dev_write : ℕ → Block → ℤ) (inode : Inode)
    (offset nbytes : ℕ) (buffer : ℕ → ℕ) where
  write_data_block-InCluster :
      (cluster b : ℕ) (block : Block) (written : List (ℕ × Block))
      → b < v.cluster_size
      → InCluster v cluster written
      → InCluster v cluster
          (write_data_block v dev_read dev_write
            (write_block_of v dev_read dev_write inode offset nbytes buffer cluster b)
            block
            written).1
  unfolding write_data_block write_block_of
  write_data_block-InCluster cluster b block written h i =
      chosen (λ (r : ℤ × List (ℕ × Block)). InCluster v cluster r.1) (ltb lba v.block_count) _ _
        ((b, h, refl), i) i
    where
      lba : ℕ
      lba = add32 v.data_lba (add32 (mul32 (sub32 cluster 2) v.cluster_size) b)

  write_blocks-InCluster :
      (n b cluster : ℕ) (w : Writing)
      → b + n ≤ v.cluster_size
      → InCluster v cluster w.written
      → InCluster v cluster (
          blocks_written
            (write_blocks v dev_read dev_write inode offset nbytes buffer n b cluster w))
  unfolding write_blocks write_entry
  write_blocks-InCluster zero b cluster w h i = i
  write_blocks-InCluster (suc n) b cluster w h i =
      chosen (λ t. InCluster v cluster (blocks_written t)) (is_nonzero r.0) _ _ i
        (write_blocks-InCluster n (b + 1) cluster
          (write_entry v dev_read dev_write inode offset nbytes buffer r.1
            (write_block_of v dev_read dev_write inode offset nbytes buffer cluster b)
            (record w { data_cache = r.2 }))
          (omega (arith, h))
          (write_data_block-InCluster cluster b _ w.written (omega (arith, h)) i))
    where
      r : ℤ × ℕ × Cache
      r =
          get_block v dev_read v.data_lba
            (write_block_of v dev_read dev_write inode offset nbytes buffer cluster b) w.data_cache

  write_round-InCluster :
      (w : Writing)
      → offset_cluster v dev_read dev_write inode offset nbytes buffer ≡ 0
      → 0 < v.cluster_size
      → InCluster v (inode.i % u32_mod) w.written
      → InCluster v
          (inode.i % u32_mod)
          (blocks_written (write_round v dev_read dev_write inode offset nbytes buffer w))
  unfolding write_round write_cluster
  write_round-InCluster w z h i =
      chosen (λ t. InCluster v start (blocks_written t)) (not (ltb w.bytes_written nbytes)) _ _ i
        (chosen (λ t. InCluster v start (blocks_written t))
          (leb inode.size (add64 offset w.bytes_written)) _ _ i
          (subst (λ t. InCluster v start (blocks_written t))
            (sym (if-false {b = not (cluster == 0)} _ _ (ground (arith, z))))
            (write_blocks-InCluster (v.cluster_size - b) b start w
              (omega (arith, mod-lt (add64 offset w.bytes_written / 512) h)) i)))
    where
      start : ℕ
      start = inode.i % u32_mod

      cluster : ℕ
      cluster = offset_cluster v dev_read dev_write inode offset nbytes buffer

      b : ℕ
      b = add64 offset w.bytes_written / 512 % v.cluster_size

  write_loop-InCluster :
      (n : ℕ) (r : WriteRound)
      → offset_cluster v dev_read dev_write inode offset nbytes buffer ≡ 0
      → 0 < v.cluster_size
      → InCluster v (inode.i % u32_mod) (blocks_written r)
      → InCluster v
          (inode.i % u32_mod)
          (blocks_written (write_loop v dev_read dev_write inode offset nbytes buffer n r))
  unfolding write_loop
  write_loop-InCluster zero r z h i = i
  write_loop-InCluster (suc n) (returned e w) z h i = i
  write_loop-InCluster (suc n) (going w) z h i =
      write_loop-InCluster n (write_round v dev_read dev_write inode offset nbytes buffer w) z h
        (write_round-InCluster w z h i)

  -- When the offset lies in the first cluster of the file, and clusters have less than 2 ^ 32 blocks, every block that `write` writes is a block of
  -- that cluster, however many bytes are to be written.
  pub write-InCluster :
      (fat_cache data_cache : Cache)
      → offset / 512 < v.cluster_size
      → v.cluster_size < u32_mod
      → InCluster v (inode.i % u32_mod) (
          blocks_written
            (write v dev_read dev_write inode offset nbytes buffer fat_cache data_cache))
  unfolding write offset_cluster
  write-InCluster fat_cache data_cache h h' =
      chosen (λ t. InCluster v (inode.i % u32_mod) (blocks_written t)) (leb inode.size offset) _ _
        tt (write_loop-InCluster (nbytes + 1) (going start) in_first (omega (arith, h)) tt)
    where
      start : Writing
      start = record {
        fat_cache = fat_cache;
        data_cache = data_cache;
        bytes_written = 0;
        written = [];
      }

      in_first : offset_cluster v dev_read dev_write inode offset nbytes buffer ≡ 0
      in_first = ap (λ t. t % u32_mod) (div-eq_of_lt h)
