-- ===== src/Vfs/Open.antt =====
-- `open` of src/kernel/src/filesystem/vfs.cc, over the tables and the lookup of inodes.
use rikai_os.Base.{
  ℕ, zero, suc, Bool, false, not, Option, none, some, List, if◌then◌else◌, ◌+◌, ◌/◌, ◌%◌, ◌&&◌,
  ◌||◌, ◌==◌, update,
}
use rikai_os.Vfs.Path.{same_string, canonicalise_path}
use rikai_os.Vfs.Lookup.{Inode, Found, failed, found, Mount, FileSystems, get_inode}
use rikai_os.Vfs.Table.{
  Tables, Handle, File, Errno, err_limit, err_bad_fd, err_nomem, err_type, err_perm, max_open_files,
  alloc_file_i, alloc_handle_i, alloc_proc_handle_i, in_place,
}
pub mod Close
pub mod Refused
mod Tests

-- The bits of `open_flags_t`.
pub record Flags : Type 0 where
  pub o_read : Bool
  pub o_write : Bool
  pub o_append : Bool
  pub o_truncate : Bool
  pub o_create : Bool
  pub o_dir : Bool

-- The flags that others imply.
unfoldable pub implied : Flags → Flags
implied f = record f {
  o_read = f.o_read || f.o_dir;
  o_write = f.o_write || f.o_append || f.o_truncate || f.o_create;
}

bit : Bool → ℕ → ℕ
bit b v = if b then v else 0

-- The flags as a number.
unfoldable pub flags_word : Flags → ℕ
unfolding bit
flags_word f =
    bit f.o_read 1
    + bit f.o_write 2
    + bit f.o_append 4
    + bit f.o_truncate 8
    + bit f.o_create 16
    + bit f.o_dir 32

-- A descriptor, an error, or the error that get_inode returned.
pub data OpenReply : Type 0 where
  opened : ℕ → OpenReply
  refused : Errno → OpenReply
  not_found : ℕ → OpenReply

-- `find_open_file` from the entry `i` on; `n` are left.
unfoldable pub find_open_from : ℕ → ℕ → List ℕ → Tables → Option ℕ
unfolding same_string
find_open_from zero i path s = none
find_open_from (suc n) i path s =
    let rest = find_open_from n (i + 1) path s in
    elim (s.open_files i) [
      | none ↦ rest
      | some f ↦ if same_string (s.file f).path path then some f else rest
    ]

-- The file of that path that is open, if there is one.
unfoldable pub find_open_file : List ℕ → Tables → Option ℕ
unfolding find_open_from
find_open_file path s = find_open_from max_open_files 0 path s

-- The file that is to be opened: one that is open, or a new one with its number.
pub data Target : Type 0 where
  existing : ℕ → Target
  fresh : ℕ → Target

-- `perm & 0444` and `perm & 0222`
unfoldable pub readable : ℕ → Bool
readable perm = perm / 4 % 2 == 1 || perm / 32 % 2 == 1 || perm / 256 % 2 == 1

unfoldable pub writable : ℕ → Bool
writable perm = perm / 2 % 2 == 1 || perm / 16 % 2 == 1 || perm / 128 % 2 == 1

-- The checks of the type and of the permissions; `none` is success.
unfoldable pub check_access : Inode → Flags → Option Errno
unfolding readable writable
check_access inode f =
    if inode.is_dir && not f.o_dir
    then some err_type
    else if not inode.is_dir && f.o_dir
    then some err_type
    else if inode.is_dir && f.o_write
    then some err_type
    else if f.o_read && not (readable inode.perm)
    then some err_perm
    else if f.o_write && not (writable inode.perm)
    then some err_perm
    else none

-- The new handle goes behind the last of its file.
unfoldable pub link_handle : ℕ → ℕ → Option ℕ → Tables → Tables
link_handle h f none s = record s {
  file = update s.file f (record (s.file f) { first_handle = some h; last_handle = some h });
}
link_handle h f (some last) s =
    let linked = update s.handle last (record (s.handle last) { next = some h }) in
    record s {
      handle = update linked h (record (linked h) { prev = some last });
      file = update s.file f (record (s.file f) { last_handle = some h });
    }

-- The handle `h` of the file `f` is filled in and registered.
unfoldable pub register_handle : ℕ → ℕ → ℕ → ℕ → ℕ → ℕ → Tables → Tables
unfolding link_handle
register_handle h f p handle_i procfd flags s =
    let filled = update s.handle h (record {
      handle_i = handle_i;
      file = f;
      flags = flags;
      pos = 0;
      proc = p;
      procfd = procfd;
      prev = none;
      next = none;
      locked = false;
    }) in
    let s1 = record s { handle = filled; handles = update s.handles handle_i (some h) } in
    let s2 = link_handle h f (s1.file f).last_handle s1 in
    record s2 { files = update s2.files p (update (s2.files p) procfd (some h)) }

-- The new file `f` is filled in and registered.
unfoldable pub register_file : ℕ → ℕ → List ℕ → Inode → Tables → Tables
register_file f file_i path inode s = record s {
  file = update s.file f (record {
    file_i = file_i;
    path = path;
    inode = inode;
    first_handle = none;
    last_handle = none;
  });
  open_files = update s.open_files file_i (some f);
}

-- `new_handle` and `new_file` are what `new` returns.
module _ (fss : FileSystems) (mounts : ℕ → Option Mount) (new_handle new_file fd : Option ℕ)
    (path : List ℕ) (flags : Flags) where
  unfoldable pub open_new_file : Option ℕ → ℕ → ℕ → ℕ → ℕ → ℕ → Inode → Tables → OpenReply × Tables
  unfolding register_handle register_file flags_word
  open_new_file none h file_i p handle_i procfd inode s = (refused err_nomem, s)
  open_new_file (some f) h file_i p handle_i procfd inode s = (
    opened procfd,
    register_handle h f p handle_i procfd (flags_word flags) (register_file f file_i path inode s),
  )

  unfoldable pub open_target : Target → ℕ → ℕ → ℕ → ℕ → Inode → Tables → OpenReply × Tables
  unfolding open_new_file register_handle flags_word
  open_target (existing f) h p handle_i procfd inode s =
      (opened procfd, register_handle h f p handle_i procfd (flags_word flags) s)
  open_target (fresh file_i) h p handle_i procfd inode s =
      open_new_file new_file h file_i p handle_i procfd inode s

  unfoldable pub open_handle :
      Option ℕ → Option ℕ → ℕ → ℕ → Target → Inode → Tables → OpenReply × Tables
  unfolding open_target
  open_handle none memory p handle_i t inode s = (refused err_bad_fd, s)
  open_handle (some procfd) none p handle_i t inode s = (refused err_nomem, s)
  open_handle (some procfd) (some h) p handle_i t inode s =
      open_target t h p handle_i procfd inode s

  unfoldable pub open_numbered :
      Option ℕ → Option ℕ → ℕ → Target → Inode → Tables → OpenReply × Tables
  unfolding open_handle in_place
  open_numbered none free_fd p t inode s = (refused err_limit, s)
  open_numbered (some handle_i) none p t inode s = (refused err_limit, s)
  open_numbered (some handle_i) (some free_fd) p t inode s =
      open_handle (in_place p fd free_fd s) new_handle p handle_i t inode s

  -- `assert(proc)`
  unfoldable pub open_in : Option ℕ → Target → Inode → Tables → Option (OpenReply × Tables)
  unfolding open_numbered alloc_handle_i alloc_proc_handle_i
  open_in none t inode s = none
  open_in (some p) t inode s =
      some (open_numbered (alloc_handle_i s) (alloc_proc_handle_i p s) p t inode s)

  unfoldable pub open_checked : Option Errno → Target → Inode → Tables → Option (OpenReply × Tables)
  unfolding open_in
  open_checked (some e) t inode s = some (refused e, s)
  open_checked none t inode s = open_in s.current_proc t inode s

  unfoldable pub open_inode : Target → Inode → Tables → Option (OpenReply × Tables)
  unfolding open_checked check_access
  open_inode t inode s = open_checked (check_access inode flags) t inode s

  -- `make_file_struct`
  unfoldable pub open_found : Option Found → ℕ → Tables → Option (OpenReply × Tables)
  unfolding open_inode
  open_found none file_i s = none
  open_found (some (failed e)) file_i s = some (not_found e, s)
  open_found (some (found inode)) file_i s = open_inode (fresh file_i) inode s

  unfoldable pub open_fresh : Option ℕ → Tables → Option (OpenReply × Tables)
  unfolding open_found get_inode
  open_fresh none s = some (refused err_limit, s)
  open_fresh (some file_i) s = open_found (get_inode fss mounts path) file_i s

  unfoldable pub open_path : Option ℕ → Tables → Option (OpenReply × Tables)
  unfolding open_inode open_fresh alloc_file_i
  open_path (some f) s = open_inode (existing f) (s.file f).inode s
  open_path none s = open_fresh (alloc_file_i s) s

-- `open` in the working directory `directory`; `fd` is none for a descriptor below 0.
unfoldable pub open_file :
    FileSystems
    → (ℕ → Option Mount)
    → Option ℕ
    → Option ℕ
    → Option ℕ
    → List ℕ
    → List ℕ
    → Flags
    → Tables
    → Option (OpenReply × Tables)
unfolding open_path find_open_file canonicalise_path implied
open_file fss mounts new_handle new_file fd directory path_ flags s =
    let path = canonicalise_path directory path_ in
    open_path fss mounts new_handle new_file fd path (implied flags) (find_open_file path s) s
