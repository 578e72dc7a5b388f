-- ===== src/Fat/Chain.antt =====
-- `get_next_cluster_n` of src/kernel/src/filesystem/fat32.cc follows the chain of clusters in the table on
-- the disk.
use rikai_os.Base.{
  ℕ, zero, suc, refl, sym, ap, false, arith, ◌+◌, ◌/◌, ◌%◌, ◌<◌, ◌≡◌, ◌∙◌, if-false,
}
use mathlib.Core.Path.{subst}
use rikai_os.Base.Int.{ℤ, pos, is_nonzero}
use rikai_os.Fat.{
  Block, Cache, Volume, fat_word, fat_block_words, is_eoc, get_block, get_next_cluster_n,
}
use rikai_os.Fat.Cached.{Coherent, Readable, Loaded, get_block-Loaded}

-- The entry of a cluster in the table on the disk.
unfoldable pub fat_entry : Volume → (ℕ → Block) → ℕ → ℕ
unfolding fat_word
fat_entry v disk n = fat_word (disk (v.fat_lba + n / fat_block_words)) (n % fat_block_words)

-- The cluster `k` steps behind `start`.
unfoldable pub chain : Volume → (ℕ → Block) → ℕ → ℕ → ℕ
unfolding fat_entry
chain v disk zero start = start
chain v disk (suc k) start = chain v disk k (fat_entry v disk start)

-- The first `n` clusters of the chain are clusters with an entry in the table.
pub record Linked (v : Volume) (disk : ℕ → Block) (n start : ℕ) : Type 0 where
  pub inner : (k : ℕ) → k < n → is_eoc (chain v disk k start) ≡ false
  pub in_table :
      (k : ℕ) → k < n → v.fat_lba + chain v disk k start / fat_block_words < v.block_count

-- The cluster, where no error occurred.
pub record Follows (disk : ℕ → Block) (cluster : ℕ) (r : ℤ × ℕ × Cache) : Type 0 where
  pub success : r.0 ≡ pos 0
  pub cluster_n : r.1 ≡ cluster
  pub coherent : Coherent disk r.2

module _ (v : Volume) (dev_read : ℕ → Block → ℤ × Block) (disk : ℕ → Block)
    (readable : Readable v dev_read disk) where
  pub get_next_cluster_n-Follows :
      (inc start : ℕ) (c : Cache)
      → Linked v disk inc start
      → Coherent disk c
      → Follows disk (chain v disk inc start) (get_next_cluster_n v dev_read start inc c)
  unfolding get_next_cluster_n chain
  get_next_cluster_n-Follows zero start c l g = record {
    success = refl;
    cluster_n = refl;
    coherent = g;
  }
  get_next_cluster_n-Follows (suc inc) start c l g =
      subst (Follows disk (chain v disk inc (fat_entry v disk start)))
        (sym (if-false _ _ (l.inner 0 (omega arith)) ∙ if-false _ _ (ap is_nonzero block.success)))
        (subst
          (λ n.
            Follows disk (chain v disk inc (fat_entry v disk start))
              (get_next_cluster_n v dev_read n inc r.2))
          (sym word)
          (get_next_cluster_n-Follows inc (fat_entry v disk start) r.2 behind block.coherent))
    where
      r : ℤ × ℕ × Cache
      r = get_block v dev_read v.fat_lba (start / fat_block_words) c

      block : Loaded disk (v.fat_lba + start / fat_block_words) r
      block =
          get_block-Loaded v dev_read disk readable v.fat_lba (start / fat_block_words) c
            (l.in_table 0 (omega arith)) g

      word : fat_word (r.2.entries r.1).block (start % fat_block_words) ≡ fat_entry v disk start
      word = ap (λ b. fat_word b (start % fat_block_words)) block.block

      behind : Linked v disk inc (fat_entry v disk start)
      behind = record {
        inner = λ k h. l.inner (suc k) (omega arith);
        in_table = λ k h. l.in_table (suc k) (omega arith);
      }
