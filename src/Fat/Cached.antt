-- ===== src/Fat/Cached.antt =====
-- The block caches of src/kernel/src/filesystem/fat32.cc: a block that they give is the block of the disk.
use rikai_os.Base.{
  ℕ, refl, sym, ap, inl, inr, Bool, true, false, arith, if◌then◌else◌, ◌+◌, ◌*◌, ◌≤◌, ◌<◌, ◌≡◌, ◌∙◌,
  ◌⊎◌, ◌==◌, ltb, if-true, if-false, not-true, not-false, lt→ltb, ==_refl, Bool-cases, u32_mod,
  add32, mul32,
}
use mathlib.Core.Path.{subst}
use rikai_os.Base.Int.{ℤ, pos, min_zero}
use rikai_os.Fat.{
  Block, CacheEntry, Cache, Volume, no_block, block_size, set_cache_entry, touch, get_cache_entry,
  find_entry, cache_size, read_block, load_entry, use_entry, get_block,
}

-- Every entry is empty or has the block of the disk at its address.
abbrev pub Coherent : (ℕ → Block) → Cache → Type 0
Coherent disk c =
    (i : ℕ) → ((c.entries i).lba ≡ no_block) ⊎ ((c.entries i).block ≡ disk (c.entries i).lba)

set_cache_entry-Coherent :
    (disk : ℕ → Block) (k : ℕ) (e : CacheEntry) (c : Cache)
    → Coherent disk c
    → (e.lba ≡ no_block) ⊎ (e.block ≡ disk e.lba)
    → Coherent disk (set_cache_entry k e c)
unfolding set_cache_entry
set_cache_entry-Coherent disk k e c h g i = either (k == i)
  where
    either :
        (b : Bool)
        → ((if b then e else c.entries i).lba ≡ no_block)
          ⊎ ((if b then e else c.entries i).block ≡ disk (if b then e else c.entries i).lba)
    either true = g
    either false = h i

touch-Coherent :
    (disk : ℕ → Block) (k : ℕ) (c : Cache) → Coherent disk c → Coherent disk (touch k c)
unfolding touch
touch-Coherent disk k c h =
    set_cache_entry-Coherent disk k (record (c.entries k) { hit = add32 c.last_hit 1 })
      (record c { last_hit = add32 c.last_hit 1 }) h (h k)

set_cache_entry-entries :
    (k : ℕ) (e : CacheEntry) (c : Cache) → (set_cache_entry k e c).entries k ≡ e
unfolding set_cache_entry
set_cache_entry-entries k e c = if-true _ _ (==_refl k)

-- A volume on a disk that can be read, and on which no address of a byte wraps.
pub record Readable (v : Volume) (dev_read : ℕ → Block → ℤ × Block) (disk : ℕ → Block)
    : Type 0 where
  pub reads :
      (lba : ℕ) (buffer : Block)
      → lba < v.block_count
      → dev_read (lba * block_size) buffer ≡ (pos block_size, disk lba)
  pub fits : v.block_count * block_size ≤ u32_mod

-- What `get_block` gives: the entry with the block at `lba`.
pub record Loaded (disk : ℕ → Block) (lba : ℕ) (r : ℤ × ℕ × Cache) : Type 0 where
  pub success : r.0 ≡ pos 0
  pub block : (r.2.entries r.1).block ≡ disk lba
  pub coherent : Coherent disk r.2

module _ (v : Volume) (dev_read : ℕ → Block → ℤ × Block) (disk : ℕ → Block)
    (readable : Readable v dev_read disk) where
  read_block_lem :
      (lba : ℕ) (buffer : Block)
      → lba < v.block_count
      → read_block v dev_read lba buffer ≡ (pos 0, disk lba)
  unfolding read_block
  read_block_lem lba buffer h =
      if-true {b = ltb lba v.block_count} _ _ (lt→ltb _ _ h)
      ∙ ap (λ (r : ℤ × Block). (min_zero r.0, r.1))
          (ap (λ a. dev_read a buffer) {x = mul32 lba block_size} {y = lba * block_size}
              (omega (arith, h, readable.fits))
            ∙ readable.reads lba buffer h)

  use_entry-Loaded :
      (lba k : ℕ) (c : Cache)
      → lba < v.block_count
      → Coherent disk c
      → Loaded disk lba (use_entry v dev_read lba (k, c))
  unfolding use_entry load_entry
  use_entry-Loaded lba k c h g = elim (Bool-cases ((c.entries k).lba == lba)) [
    | inl e ↦
        subst (Loaded disk lba) (sym (if-false _ _ (not-false e)))
          (record { success = refl; block = hit (g k) (ground (arith, e)); coherent = g })
    | inr e ↦
        subst (Loaded disk lba)
          (sym (
            if-true _ _ (not-true e)
            ∙ ap (λ r. load_entry v dev_read k lba r c)
                {x = read_block v dev_read lba (c.entries k).block} {y = (pos 0, disk lba)}
                (read_block_lem lba (c.entries k).block h)))
          missed
  ]
    where
      hit :
          ((c.entries k).lba ≡ no_block) ⊎ ((c.entries k).block ≡ disk (c.entries k).lba)
          → (c.entries k).lba ≡ lba
          → (c.entries k).block ≡ disk lba
      hit (inl e) f = absurd (omega (arith, e, f, h, readable.fits))
      hit (inr e) f = e ∙ ap disk f

      loaded : CacheEntry
      loaded = record { block = disk lba; lba = lba; hit = (c.entries k).hit }

      missed : Loaded disk lba (pos 0, k, set_cache_entry k loaded c)
      missed = record {
        success = refl;
        block = ap (λ (e : CacheEntry). e.block) (set_cache_entry-entries k loaded c);
        coherent = set_cache_entry-Coherent disk k loaded c g (inr refl);
      }

  -- `get_data_block` and `get_fat_block` of a block of the volume.
  pub get_block-Loaded :
      (first_lba block_i : ℕ) (c : Cache)
      → first_lba + block_i < v.block_count
      → Coherent disk c
      → Loaded disk (first_lba + block_i) (get_block v dev_read first_lba block_i c)
  unfolding get_block get_cache_entry
  get_block-Loaded first_lba block_i c h g =
      subst
        (λ lba.
          Loaded disk (first_lba + block_i) (use_entry v dev_read lba (get_cache_entry c lba)))
        {x = first_lba + block_i} {y = add32 first_lba block_i} (omega (arith, h, readable.fits))
        (use_entry-Loaded (first_lba + block_i) (find_entry cache_size 0 0 (first_lba + block_i) c)
          (touch (find_entry cache_size 0 0 (first_lba + block_i) c) c) h
          (touch-Coherent disk (find_entry cache_size 0 0 (first_lba + block_i) c) c g))
