-- ===== src/Vfs/Io.antt =====
-- `seek`, `read` and `write` of src/kernel/src/filesystem/vfs.cc at a file handle. What the filesystem of
-- the inode answers is a parameter; the lock of the handle is left out.
use rikai_os.Base.{
  ℕ, zero, suc, not, Option, none, some, if◌then◌else◌, ◌+◌, ◌-◌, ◌%◌, ◌^◌, ◌==◌, ltb, add32,
  update,
}
use rikai_os.Base.Int.{ℤ, pos, negsuc}
use rikai_os.Vfs.Lookup.{Inode}
use rikai_os.Vfs.Table.{Tables, Handle, handle_by_fd}
use rikai_os.Memory.Virtual.Entry.{has_flag}
pub mod Reads
mod Tests

-- ERR_bad_fd and ERR_type as results.
abbrev pub bad_fd : ℤ
bad_fd = negsuc 3

abbrev pub bad_type : ℤ
bad_type = negsuc 9

-- The bits of `o_read`, `o_write` and `o_dir`.
abbrev pub read_bit : ℕ
read_bit = 0

abbrev pub write_bit : ℕ
write_bit = 1

abbrev pub dir_bit : ℕ
dir_bit = 5

-- `handle->pos += res`, of an s64 to a u64.
unfoldable pub advance : ℕ → ℕ → Tables → Tables
advance h n s = record s {
  handle = update s.handle h (record (s.handle h) { pos = ((s.handle h).pos + n) % 2 ^ 64 });
}

-- The position is only moved when the filesystem gives no error.
unfoldable pub finish : ℕ → ℤ → Tables → ℤ × Tables
unfolding advance
finish h (pos n) s = (pos n, advance h n s)
finish h (negsuc n) s = (negsuc n, s)

-- `transfer i pos nbytes` is what the filesystem answers; `none` is a failed assertion.
module _ (transfer : Inode → ℕ → ℕ → ℤ) (allowed_bit : ℕ) where
  unfoldable pub transfer_with : Option ℕ → ℕ → ℕ → Tables → Option (ℤ × Tables)
  unfolding finish
  transfer_with none h nbytes s = none
  transfer_with (some fs) h nbytes s =
      some (finish h (transfer (s.file (s.handle h).file).inode (s.handle h).pos nbytes) s)

  unfoldable pub transfer_at : Option ℕ → ℕ → Tables → Option (ℤ × Tables)
  unfolding transfer_with has_flag
  transfer_at none nbytes s = some (bad_fd, s)
  transfer_at (some h) nbytes s =
      if has_flag dir_bit (s.handle h).flags
      then some (bad_type, s)
      else if not (has_flag allowed_bit (s.handle h).flags)
      then some (bad_type, s)
      else if nbytes == 0
      then some (pos 0, s)
      else transfer_with (s.file (s.handle h).file).inode.fs h nbytes s

-- `read` and `write` of the process `p`.
unfoldable pub read : (Inode → ℕ → ℕ → ℤ) → ℕ → Option ℕ → ℕ → Tables → Option (ℤ × Tables)
unfolding transfer_at handle_by_fd
read fs_read p fd nbytes s = transfer_at fs_read read_bit (handle_by_fd p fd s) nbytes s

unfoldable pub write : (Inode → ℕ → ℕ → ℤ) → ℕ → Option ℕ → ℕ → Tables → Option (ℤ × Tables)
unfolding transfer_at handle_by_fd
write fs_write p fd nbytes s = transfer_at fs_write write_bit (handle_by_fd p fd s) nbytes s

-- A round of the loop of `read_all` ends it, goes on with the bytes that were read, or an assertion fails.
pub data AllRound : Type 0 where
  ended : ℤ → Tables → AllRound
  again : ℕ → Tables → AllRound
  stopped : AllRound

unfoldable pub all_step : ℕ → Option (ℤ × Tables) → AllRound
all_step bytes_read none = stopped
all_step bytes_read (some (negsuc x, s)) = ended (negsuc x) s
all_step bytes_read (some (pos zero, s)) = ended (pos 0) s
all_step bytes_read (some (pos (suc x), s)) = again (add32 bytes_read (suc x)) s

module _ (fs_read : Inode → ℕ → ℕ → ℤ) (p : ℕ) (fd : Option ℕ) (nbytes : ℕ) where
  unfoldable pub all_round : ℕ → Tables → AllRound
  unfolding all_step read
  all_round bytes_read s =
      if ltb bytes_read nbytes
      then all_step bytes_read (read fs_read p fd (nbytes - bytes_read) s)
      else ended (pos bytes_read) s

  unfoldable pub all_loop : ℕ → AllRound → AllRound
  unfolding all_round
  all_loop zero r = r
  all_loop (suc n) (ended x s) = ended x s
  all_loop (suc n) stopped = stopped
  all_loop (suc n) (again bytes_read s) = all_loop n (all_round bytes_read s)

  -- `read_all`, with a round for each byte and one more.
  unfoldable pub read_all : Tables → AllRound
  unfolding all_loop
  read_all s =
      if ltb (2 ^ 31 - 1) nbytes then ended (negsuc 1) s else all_loop (nbytes + 1) (again 0 s)
