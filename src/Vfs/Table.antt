-- ===== src/Vfs/Table.antt =====
-- The tables of open files and of file handles of src/kernel/src/filesystem/vfs.cc.
-- A pointer to a handle, a file or a process is a number, a null pointer is `none`, and a file
-- descriptor below 0 is `none` too. Handles and files in memory are total stores. A function gives
-- `none` when an assertion fails. The calls are serialised by `vfs_lock`, which is left out, and
-- `close` goes on once the lock of the handle is free.
pub mod Fresh
pub mod Duplicate
pub mod Failure
mod Tests
use rikai_os.Base.{
  ℕ, zero, suc, Bool, true, false, Option, none, some, List, if◌then◌else◌, ◌+◌, ◌-◌, ◌&&◌, ◌==◌,
  ltb, update,
}
use rikai_os.Vfs.Lookup.{Inode}

abbrev pub max_open_files : ℕ
max_open_files = 256

abbrev pub max_file_handles : ℕ
max_file_handles = 256

abbrev pub max_proc_files : ℕ
max_proc_files = 32

-- The fields of `file_handle_t`; `locked` is the state of its mutex.
pub record Handle : Type 0 where
  pub handle_i : ℕ
  pub file : ℕ
  pub flags : ℕ
  pub pos : ℕ
  pub proc : ℕ
  pub procfd : ℕ
  pub prev : Option ℕ
  pub next : Option ℕ
  pub locked : Bool

-- The fields of `file_t` that the tables use.
pub record File : Type 0 where
  pub file_i : ℕ
  pub path : List ℕ
  pub inode : Inode
  pub first_handle : Option ℕ
  pub last_handle : Option ℕ

-- `files` is that of each process.
pub record Tables : Type 0 where
  pub handle : ℕ → Handle
  pub file : ℕ → File
  pub handles : ℕ → Option ℕ
  pub open_files : ℕ → Option ℕ
  pub files : ℕ → ℕ → Option ℕ
  pub current_proc : Option ℕ

-- The error codes of src/kernel/include/os-std/errno.hh, from 0 down.
pub data Errno : Type 0 where
  err_success : Errno
  err_misc : Errno
  err_invalid : Errno
  err_limit : Errno
  err_bad_fd : Errno
  err_nospace : Errno
  err_nomem : Errno
  err_io : Errno
  err_exists : Errno
  err_not_exists : Errno
  err_type : Errno
  err_timeout : Errno
  err_perm : Errno
  err_not_supported : Errno
  err_in_use : Errno

-- A file descriptor or an error.
pub data Reply : Type 0 where
  error : Errno → Reply
  opened : ℕ → Reply

unfoldable pub is_free : Option ℕ → Bool
is_free none = true
is_free (some h) = false

-- The first null entry among the `n` from `i` on.
unfoldable pub first_free : ℕ → ℕ → (ℕ → Option ℕ) → Option ℕ
unfolding is_free
first_free zero i t = none
first_free (suc n) i t = let rest = first_free n (i + 1) t in if is_free (t i) then some i else rest

-- The descriptors 0, 1 and 2 are not reassigned.
unfoldable pub alloc_proc_handle_i : ℕ → Tables → Option ℕ
unfolding first_free
alloc_proc_handle_i p s = first_free (max_proc_files - 3) 3 (s.files p)

unfoldable pub alloc_handle_i : Tables → Option ℕ
unfolding first_free
alloc_handle_i s = first_free max_file_handles 0 s.handles

unfoldable pub alloc_file_i : Tables → Option ℕ
unfolding first_free
alloc_file_i s = first_free max_open_files 0 s.open_files

-- `p` is the current process.
unfoldable pub handle_by_fd : ℕ → Option ℕ → Tables → Option ℕ
handle_by_fd p none s = none
handle_by_fd p (some fd) s = if ltb fd max_proc_files then s.files p fd else none

-- The descriptor that the user asks for when it is free, or else the one that was found.
unfoldable pub in_place : ℕ → Option ℕ → ℕ → Tables → Option ℕ
unfolding is_free
in_place p none found s = some found
in_place p (some dest) found s =
    if ltb dest max_proc_files && is_free (s.files p dest) then some dest else none

-- The copy of the handle `src` at `new` goes behind the handle `last` and into the tables.
unfoldable pub add_copy : ℕ → ℕ → ℕ → ℕ → ℕ → ℕ → Tables → Tables
add_copy p src new handle_i procfd last s =
    let copied =
      update s.handle new (record (s.handle src) { handle_i = handle_i; procfd = procfd }) in
    let linked = update copied last (record (copied last) { next = some new }) in
    let f = (s.handle src).file in
    record s {
      handle = update linked new (record (linked new) { prev = some last });
      file = update s.file f (record (s.file f) { last_handle = some new });
      handles = update s.handles handle_i (some new);
      files = update s.files p (update (s.files p) procfd (some new));
    }

-- `assert(src->file->last_handle)`
unfoldable pub add_behind : Option ℕ → ℕ → ℕ → ℕ → ℕ → ℕ → Tables → Option (Reply × Tables)
unfolding add_copy
add_behind none p src new handle_i procfd s = none
add_behind (some last) p src new handle_i procfd s =
    some (opened procfd, add_copy p src new handle_i procfd last s)

-- `memory` is what `new` returns.
unfoldable pub duplicate_into : Option ℕ → Option ℕ → ℕ → ℕ → ℕ → Tables → Option (Reply × Tables)
unfolding add_behind
duplicate_into none memory p src handle_i s = some (error err_bad_fd, s)
duplicate_into (some procfd) none p src handle_i s = some (error err_nomem, s)
duplicate_into (some procfd) (some new) p src handle_i s =
    add_behind (s.file (s.handle src).file).last_handle p src new handle_i procfd s

unfoldable pub duplicate_numbered :
    Option ℕ → Option ℕ → Option ℕ → Option ℕ → ℕ → ℕ → Tables → Option (Reply × Tables)
unfolding duplicate_into in_place
duplicate_numbered none found memory dest p src s = some (error err_limit, s)
duplicate_numbered (some handle_i) none memory dest p src s = some (error err_limit, s)
duplicate_numbered (some handle_i) (some found) memory dest p src s =
    duplicate_into (in_place p dest found s) memory p src handle_i s

unfoldable pub duplicate_handle :
    Option ℕ → Option ℕ → Option ℕ → ℕ → Tables → Option (Reply × Tables)
unfolding duplicate_numbered alloc_handle_i alloc_proc_handle_i
duplicate_handle none memory dest p s = some (error err_bad_fd, s)
duplicate_handle (some src) memory dest p s =
    duplicate_numbered (alloc_handle_i s) (alloc_proc_handle_i p s) memory dest p src s

unfoldable pub duplicate_at :
    Option ℕ → Option ℕ → Option ℕ → Option ℕ → Tables → Option (Reply × Tables)
unfolding duplicate_handle handle_by_fd
duplicate_at none memory dest fd s = none
duplicate_at (some p) memory dest fd s = duplicate_handle (handle_by_fd p fd s) memory dest p s

unfoldable pub duplicate_fd : Option ℕ → Option ℕ → Option ℕ → Tables → Option (Reply × Tables)
unfolding duplicate_at
duplicate_fd memory dest fd s = duplicate_at s.current_proc memory dest fd s

-- `if (handle->prev) handle->prev->next = handle->next`, and the same the other way.
unfoldable pub unlink_prev : ℕ → Tables → Tables
unlink_prev h s = record s { handle = written (s.handle h).prev }
  where
    written : Option ℕ → ℕ → Handle
    written none = s.handle
    written (some q) = update s.handle q (record (s.handle q) { next = (s.handle h).next })

unfoldable pub unlink_next : ℕ → Tables → Tables
unlink_next h s = record s { handle = written (s.handle h).next }
  where
    written : Option ℕ → ℕ → Handle
    written none = s.handle
    written (some q) = update s.handle q (record (s.handle q) { prev = (s.handle h).prev })

-- Whether a pointer is `h`.
unfoldable pub points_at : Option ℕ → ℕ → Bool
points_at none h = false
points_at (some q) h = q == h

unfoldable pub unlink_ends : ℕ → Tables → Tables
unfolding points_at
unlink_ends h s =
    let f = (s.handle h).file in
    let first = (s.file f).first_handle in
    let last = (s.file f).last_handle in
    record s {
      file = update s.file f (record (s.file f) {
        first_handle = (if points_at first h then (s.handle h).next else first);
        last_handle = (if points_at last h then (s.handle h).prev else last);
      });
    }

-- A file without handles is not open any more.
unfoldable pub clean_up : ℕ → Tables → Tables
unfolding is_free
clean_up f s =
    if is_free (s.file f).first_handle
    then record s { open_files = update s.open_files (s.file f).file_i none }
    else s

unfoldable pub remove_handle : ℕ → ℕ → ℕ → Tables → Tables
unfolding unlink_prev unlink_next unlink_ends clean_up
remove_handle h p fd s =
    let s1 = record s {
      files = update s.files p (update (s.files p) fd none);
      handles = update s.handles (s.handle h).handle_i none;
    } in
    clean_up (s.handle h).file (unlink_ends h (unlink_next h (unlink_prev h s1)))

unfoldable pub close_handle : Option ℕ → ℕ → ℕ → Tables → Errno × Tables
unfolding remove_handle
close_handle none p fd s = (err_bad_fd, s)
close_handle (some h) p fd s = (err_success, remove_handle h p fd s)

-- `close` in the process `p`, of a descriptor that is not below 0; one that is gives an error.
unfoldable pub close_at : ℕ → Option ℕ → Tables → Errno × Tables
unfolding close_handle handle_by_fd
close_at p none s = (err_bad_fd, s)
close_at p (some fd) s = close_handle (handle_by_fd p (some fd) s) p fd s

unfoldable pub close_in : Option ℕ → Option ℕ → Tables → Option (Errno × Tables)
unfolding close_at
close_in none fd s = none
close_in (some p) fd s = some (close_at p fd s)

unfoldable pub close : Option ℕ → Tables → Option (Errno × Tables)
unfolding close_in
close fd s = close_in s.current_proc fd s

-- The handle `h` moves from the descriptor `srcfd` of `p` to `dstfd` of `dst`.
unfoldable pub move_handle : ℕ → ℕ → ℕ → ℕ → ℕ → Tables → Tables
move_handle h p srcfd dst dstfd s =
    let stolen = update s.files p (update (s.files p) srcfd none) in
    record s {
      files = update stolen dst (update (stolen dst) dstfd (some h));
      handle = update s.handle h (record (s.handle h) { proc = dst; procfd = dstfd });
    }

unfoldable pub transplant_handle : Option ℕ → ℕ → ℕ → ℕ → ℕ → Tables → Errno × Tables
unfolding move_handle
transplant_handle none p srcfd dst dstfd s = (err_bad_fd, s)
transplant_handle (some h) p srcfd dst dstfd s =
    if (s.handle h).locked
    then (err_timeout, s)
    else (err_success, move_handle h p srcfd dst dstfd s)

-- `transplant_fd` from the current process `p`, for descriptors that are not below 0.
unfoldable pub transplant_fd : ℕ → ℕ → ℕ → ℕ → Tables → Errno × Tables
unfolding transplant_handle handle_by_fd
transplant_fd p dst dstfd srcfd s =
    transplant_handle (handle_by_fd p (some srcfd) s) p srcfd dst dstfd s
