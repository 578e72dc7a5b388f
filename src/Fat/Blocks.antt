-- ===== src/Fat/Blocks.antt =====
-- How `read` of src/kernel/src/filesystem/fat32.cc reads the blocks of one cluster of a file.
use native.Mathlib.Nat.{mul-add-div_right, mul-add-mod_self_right, div-eq_of_lt, mod-eq_of_lt}
use rikai_os.Base.{
  ℕ, zero, suc, min, refl, sym, ap, inl, inr, false, arith, ◌+◌, ◌-◌, ◌*◌, ◌/◌, ◌%◌, ◌≤◌, ◌<◌, ◌≡◌,
  ◌∙◌, ◌⊎◌, ◌&&◌, ◌==◌, ltb, leb, if-true, if-false, ltb→lt, Bool-cases, u32_mod, add32, sub32,
  mul32,
}
use mathlib.Core.Path.{subst, ap₂}
use rikai_os.Base.Int.{ℤ, is_nonzero}
use rikai_os.Math.{min_of}
use rikai_os.Fat.{
  Block, Cache, Volume, Inode, Progress, going, block_size, is_eoc, get_block, position, to_copy,
  copy, read_from, block_of, read_blocks,
}
use rikai_os.Fat.Cached.{Coherent, Readable, Loaded, get_block-Loaded}
use rikai_os.Fat.Chain.{chain, Linked}

-- The byte `j` of the file whose first cluster is `start`.
unfoldable pub file_byte : Volume → (ℕ → Block) → ℕ → ℕ → ℕ
file_byte v disk start j =
    disk
      (v.data_lba
        + ((chain v disk (j / 512 / v.cluster_size) start - 2) * v.cluster_size
            + j / 512 % v.cluster_size))
      (j % 512)

-- A file on the volume: its clusters are linked and lie in the volume, for all of its bytes.
pub record IsFile (v : Volume) (disk : ℕ → Block) (inode : Inode) : Type 0 where
  pub clusters : 0 < v.cluster_size
  pub first_fits : inode.i < u32_mod
  pub size_fits : inode.size < u32_mod
  pub linked : (j : ℕ) → j < inode.size → Linked v disk (j / 512 / v.cluster_size) inode.i
  pub cluster :
      (j : ℕ) → j < inode.size → is_eoc (chain v disk (j / 512 / v.cluster_size) inode.i) ≡ false
  pub in_volume :
      (j b : ℕ)
      → j < inode.size
      → b < v.cluster_size
      → v.data_lba + ((chain v disk (j / 512 / v.cluster_size) inode.i - 2) * v.cluster_size + b)
        < v.block_count

-- How many bytes `read` of `nbytes` at `offset` is to give.
abbrev pub wanted : Inode → ℕ → ℕ → ℕ
wanted inode offset nbytes = min nbytes (inode.size - offset)

module _ (v : Volume) (dev_read : ℕ → Block → ℤ × Block) (disk : ℕ → Block)
    (readable : Readable v dev_read disk) (inode : Inode) (offset nbytes : ℕ)
    (file : IsFile v disk inode) (inside : offset < inode.size)
    (nbytes_fits : nbytes < u32_mod) where
  abbrev want : ℕ
  want = wanted inode offset nbytes

  -- The bytes that were read are those of the file.
  abbrev pub Filled : ℕ → (ℕ → ℕ) → Type 0
  Filled n buffer = (j : ℕ) → j < n → buffer j ≡ file_byte v disk inode.i (offset + j)

  -- At the block `q` of the file, or with all bytes read.
  pub record At (q : ℕ) (p : Progress) : Type 0 where
    pub coherent : Coherent disk p.data_cache
    pub bound : p.bytes_read ≤ want
    pub place : (p.bytes_read ≡ want) ⊎ ((offset + p.bytes_read) / 512 ≡ q)
    pub filled : Filled p.bytes_read p.buffer

  pub position-plain :
      (p : Progress)
      → p.bytes_read ≤ want
      → position v dev_read inode offset nbytes p ≡ offset + p.bytes_read
  position-plain p h = omega (arith, h, inside, file.size_fits)

  -- The bytes that one block gives.
  abbrev amount : ℕ → ℕ
  amount bytes = min (want - bytes) (512 - (offset + bytes) % 512)

  to_copy-amount :
      (p : Progress)
      → p.bytes_read ≤ want
      → to_copy v dev_read inode offset nbytes p ≡ amount p.bytes_read
  unfolding to_copy min_of
  to_copy-amount p h = ground (arith, h, inside, file.size_fits, nbytes_fits)

  -- The byte of the file in its block.
  file_byte-in_block :
      (k b j : ℕ) (block : Block)
      → b < v.cluster_size
      → j / 512 ≡ k * v.cluster_size + b
      → block ≡ disk (v.data_lba + ((chain v disk k inode.i - 2) * v.cluster_size + b))
      → file_byte v disk inode.i j ≡ block (j % 512)
  unfolding file_byte
  file_byte-in_block k b j block lt e f =
      ap₂ (λ x y. disk (v.data_lba + ((chain v disk x inode.i - 2) * v.cluster_size + y)) (j % 512))
        (ap (λ q. q / v.cluster_size) e
          ∙ mul-add-div_right file.clusters k b
          ∙ ap (λ t. k + t) (div-eq_of_lt lt)
          ∙ omega arith)
        (ap (λ q. q % v.cluster_size) e
          ∙ mul-add-mod_self_right k v.cluster_size b
          ∙ mod-eq_of_lt lt)
      ∙ ap (λ (g : Block). g (j % 512)) (sym f)

  -- One more block is copied.
  read_from-At :
      (k b : ℕ) (block : Block) (p : Progress)
      → b < v.cluster_size
      → block ≡ disk (v.data_lba + ((chain v disk k inode.i - 2) * v.cluster_size + b))
      → At (k * v.cluster_size + b) p
      → At (k * v.cluster_size + (b + 1)) (read_from v dev_read inode offset nbytes block p)
        × (p.bytes_read ≤ (read_from v dev_read inode offset nbytes block p).bytes_read)
        × ((p.bytes_read ≡ want)
            ⊎ (p.bytes_read < (read_from v dev_read inode offset nbytes block p).bytes_read))
  unfolding read_from copy
  read_from-At k b block p lt e a = (
    record {
      coherent = a.coherent;
      bound = omega (arith, bytes, a.bound);
      place = moved a.place;
      filled = λ j h.
          elim (Bool-cases (
            leb p.bytes_read j
            && ltb j (p.bytes_read + to_copy v dev_read inode offset nbytes p))) [
              | inl f ↦
                  if-true _ _ f ∙ fresh j (ground (arith, f)) (ground (arith, f, amounts)) a.place
              | inr f ↦ if-false _ _ f ∙ a.filled j (ground (arith, f, h, bytes, amounts))
            ];
    },
    omega (arith, bytes),
    grows a.place,
  )
    where
      n : ℕ
      n = amount p.bytes_read

      amounts : to_copy v dev_read inode offset nbytes p ≡ n
      amounts = to_copy-amount p a.bound

      bytes : add32 p.bytes_read (to_copy v dev_read inode offset nbytes p) ≡ p.bytes_read + n
      bytes = omega (arith, amounts, a.bound, nbytes_fits)

      moved :
          (p.bytes_read ≡ want) ⊎ ((offset + p.bytes_read) / 512 ≡ k * v.cluster_size + b)
          → (add32 p.bytes_read (to_copy v dev_read inode offset nbytes p) ≡ want)
            ⊎ ((offset + add32 p.bytes_read (to_copy v dev_read inode offset nbytes p)) / 512
                ≡ k * v.cluster_size + (b + 1))
      moved (inl f) = inl (omega (arith, bytes, f))
      moved (inr f) =
          elim (Bool-cases (ltb (512 - (offset + p.bytes_read) % 512) (want - p.bytes_read))) [
            | inl g ↦ inr (omega (arith, bytes, f, ltb→lt _ _ g))
            | inr g ↦ inl (ground (arith, bytes, g, a.bound))
          ]

      grows :
          (p.bytes_read ≡ want) ⊎ ((offset + p.bytes_read) / 512 ≡ k * v.cluster_size + b)
          → (p.bytes_read ≡ want)
            ⊎ (p.bytes_read < add32 p.bytes_read (to_copy v dev_read inode offset nbytes p))
      grows (inl f) = inl f
      grows (inr f) = elim (Bool-cases (p.bytes_read == want)) [
        | inl g ↦ inl (ground (arith, g))
        | inr g ↦ inr (ground (arith, bytes, g, a.bound))
      ]

      fresh :
          (j : ℕ)
          → p.bytes_read ≤ j
          → j < p.bytes_read + n
          → (p.bytes_read ≡ want) ⊎ ((offset + p.bytes_read) / 512 ≡ k * v.cluster_size + b)
          → block (position v dev_read inode offset nbytes p % block_size + (j - p.bytes_read))
            ≡ file_byte v disk inode.i (offset + j)
      fresh j lo hi (inl f) = absurd (omega (arith, lo, hi, f))
      fresh j lo hi (inr f) =
          ap block {y = (offset + j) % 512} (omega (arith, position-plain p a.bound, lo, hi))
          ∙ sym (file_byte-in_block k b (offset + j) block lt (omega (arith, f, lo, hi)) e)

  -- The number of the block, where nothing wraps.
  block_of-plain :
      (c b : ℕ)
      → is_eoc c ≡ false
      → v.data_lba + ((c - 2) * v.cluster_size + b) < v.block_count
      → block_of v dev_read inode offset nbytes c b ≡ (c - 2) * v.cluster_size + b
  unfolding block_of is_eoc
  block_of-plain c b e h =
      ap (λ t. add32 (mul32 t v.cluster_size) b) {x = sub32 c 2} {y = c - 2} (ground (arith, e))
      ∙ omega (arith, h, readable.fits)

  -- What reading `n` blocks up to the block `q` of the file leads to.
  pub record Cluster (n q : ℕ) (p p' : Progress) : Type 0 where
    pub at : At q p'
    pub same_fat : p'.fat_cache ≡ p.fat_cache
    pub same_cluster : p'.cluster_i ≡ p.cluster_i
    pub grows : p.bytes_read ≤ p'.bytes_read
    pub more : (n ≡ 0) ⊎ ((p.bytes_read ≡ want) ⊎ (p.bytes_read < p'.bytes_read))

  -- The blocks of the cluster `k` of the file, from the block `b` on.
  pub read_blocks-Cluster :
      (n b k : ℕ) (p : Progress)
      → b + n ≡ v.cluster_size
      → p.cluster_i ≡ chain v disk k inode.i
      → is_eoc (chain v disk k inode.i) ≡ false
      → ((b : ℕ)
          → b < v.cluster_size
          → v.data_lba + ((chain v disk k inode.i - 2) * v.cluster_size + b) < v.block_count)
      → At (k * v.cluster_size + b) p
      → (p' : Progress) × (read_blocks v dev_read inode offset nbytes n b p ≡ going p')
        × Cluster n (k * v.cluster_size + v.cluster_size) p p'
  unfolding read_blocks read_from
  read_blocks-Cluster zero b k p e c i h a = (
    p,
    refl,
    record {
      at =
          subst (λ q. At (k * v.cluster_size + q) p) {x = b} {y = v.cluster_size} (omega (arith, e))
            a;
      same_fat = refl;
      same_cluster = refl;
      grows = omega arith;
      more = inl refl;
    },
  )
  read_blocks-Cluster (suc n) b k p e c i h a =
      let (p', f, d) = read_blocks-Cluster n (b + 1) k p2 (omega (arith, e)) c i h step.0 in
      (
        p',
        if-false _ _ (ap is_nonzero loaded.success) ∙ f,
        record {
          at = d.at;
          same_fat = d.same_fat;
          same_cluster = d.same_cluster;
          grows = omega (arith, step.1, d.grows);
          more = inr (longer step.2 d.grows);
        },
      )
    where
      r : ℤ × ℕ × Cache
      r =
          get_block v dev_read v.data_lba (block_of v dev_read inode offset nbytes p.cluster_i b)
            p.data_cache

      number :
          block_of v dev_read inode offset nbytes p.cluster_i b
          ≡ (chain v disk k inode.i - 2) * v.cluster_size + b
      number =
          ap (λ t. block_of v dev_read inode offset nbytes t b) c
          ∙ block_of-plain (chain v disk k inode.i) b i (h b (omega (arith, e)))

      loaded : Loaded disk (v.data_lba + ((chain v disk k inode.i - 2) * v.cluster_size + b)) r
      loaded =
          subst
            (λ t. Loaded disk (v.data_lba + t) (
              get_block v dev_read v.data_lba
                (block_of v dev_read inode offset nbytes p.cluster_i b) p.data_cache))
            number
            (get_block-Loaded v dev_read disk readable v.data_lba
              (block_of v dev_read inode offset nbytes p.cluster_i b) p.data_cache
              (subst (λ t. v.data_lba + t < v.block_count) (sym number) (h b (omega (arith, e))))
              a.coherent)

      p1 : Progress
      p1 = record p { data_cache = r.2 }

      p2 : Progress
      p2 = read_from v dev_read inode offset nbytes (r.2.entries r.1).block p1

      step :
          At (k * v.cluster_size + (b + 1)) p2
          × (p.bytes_read ≤ p2.bytes_read)
          × ((p.bytes_read ≡ want) ⊎ (p.bytes_read < p2.bytes_read))
      step = read_from-At k b (r.2.entries r.1).block p1 (omega (arith, e)) loaded.block (record {
        coherent = loaded.coherent;
        bound = a.bound;
        place = a.place;
        filled = a.filled;
      })

      longer :
          {y : ℕ}
          → (p.bytes_read ≡ want) ⊎ (p.bytes_read < p2.bytes_read)
          → p2.bytes_read ≤ y
          → (p.bytes_read ≡ want) ⊎ (p.bytes_read < y)
      longer (inl f) g = inl f
      longer (inr f) g = inr (omega (arith, f, g))
