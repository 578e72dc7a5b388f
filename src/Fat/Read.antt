-- ===== src/Fat/Read.antt =====
-- `read` of src/kernel/src/filesystem/fat32.cc returns the bytes of the file.
use rikai_os.Base.{ℕ, ◌+◌, ◌/◌, ◌≤◌, ◌<◌, ◌≡◌, ◌⊎◌, u32_mod}
use rikai_os.Base.Int.{ℤ, pos}
use rikai_os.Fat.{Block, Volume, Inode, Progress, Round, returned}
use rikai_os.Fat.Cached.{Coherent, Readable}
use rikai_os.Fat.Blocks.{file_byte, IsFile, wanted, Filled}

module _ (v : Volume) (dev_read : ℕ → Block → ℤ × Block) (disk : ℕ → Block)
    (readable : Readable v dev_read disk) (inode : Inode) (offset nbytes : ℕ)
    (file : IsFile v disk inode) (inside : offset < inode.size)
    (nbytes_fits : nbytes < u32_mod) where
  abbrev want : ℕ
  want = wanted inode offset nbytes

  abbrev index_of : Progress → ℕ
  index_of p = (offset + p.bytes_read) / 512 / v.cluster_size

  -- Between two clusters: the first cluster is entered with its own number.
  record Between (p : Progress) : Type 0 where
    fat_coherent : Coherent disk p.fat_cache
    coherent : Coherent disk p.data_cache
    bound : p.bytes_read ≤ want
    filled :
        Filled v dev_read disk readable inode offset nbytes file inside nbytes_fits p.bytes_read
          p.buffer
    first : index_of p ≡ 0 → (p.bytes_read ≡ want) ⊎ (p.cluster_i ≡ inode.i)

-- What `read` is to give: the number of bytes that the file has there, at most `nbytes`, and those bytes
-- in the buffer, with caches that hold blocks of the disk.
pub record Answer (v : Volume) (disk : ℕ → Block) (inode : Inode) (offset nbytes : ℕ) (r : Round)
    : Type 0 where
  pub p : Progress
  pub result : r ≡ returned (pos (wanted inode offset nbytes)) p
  pub bytes :
      (j : ℕ) → j < wanted inode offset nbytes → p.buffer j ≡ file_byte v disk inode.i (offset + j)
  pub fat_coherent : Coherent disk p.fat_cache
  pub data_coherent : Coherent disk p.data_cache
