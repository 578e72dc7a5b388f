-- ===== src/Vfs/Open/Refused.antt =====
-- What `open` of src/kernel/src/filesystem/vfs.cc leaves when it fails.
use rikai_os.Base.{ℕ, refl, Option, none, some, List, ◌≡◌}
use mathlib.Core.Path.{subst}
use rikai_os.Vfs.Path.{canonicalise_path}
use rikai_os.Vfs.Lookup.{Inode, Found, failed, found, Mount, FileSystems, get_inode}
use rikai_os.Vfs.Table.{Tables, Errno, alloc_file_i, alloc_handle_i, alloc_proc_handle_i, in_place}
use rikai_os.Vfs.Open.{
  Flags, OpenReply, opened, refused, not_found, Target, existing, fresh, find_open_file,
  check_access, implied, open_new_file, open_target, open_handle, open_numbered, open_in,
  open_checked, open_inode, open_found, open_fresh, open_path, open_file,
}

-- A descriptor was returned, or the tables are as they were.
abbrev pub Unchanged : Tables → OpenReply × Tables → Type 0
Unchanged s (opened fd, s') = Unit {0}
Unchanged s (refused e, s') = s' ≡ s
Unchanged s (not_found e, s') = s' ≡ s

-- The same where an assertion may fail.
abbrev pub Kept : Tables → Option (OpenReply × Tables) → Type 0
Kept s none = Unit {0}
Kept s (some r) = Unchanged s r

module _ (fss : FileSystems) (mounts : ℕ → Option Mount) (new_handle new_file fd : Option ℕ)
    (path : List ℕ) (flags : Flags) where
  open_new_file-Unchanged :
      (m : Option ℕ) (h file_i p handle_i procfd : ℕ) (inode : Inode) (s : Tables)
      → Unchanged s (
          open_new_file fss mounts new_handle new_file fd path flags m h file_i p handle_i procfd
            inode s)
  unfolding open_new_file
  open_new_file-Unchanged none h file_i p handle_i procfd inode s = refl
  open_new_file-Unchanged (some f) h file_i p handle_i procfd inode s = tt

  open_target-Unchanged :
      (t : Target) (h p handle_i procfd : ℕ) (inode : Inode) (s : Tables)
      → Unchanged s
          (open_target fss mounts new_handle new_file fd path flags t h p handle_i procfd inode s)
  unfolding open_target
  open_target-Unchanged (existing f) h p handle_i procfd inode s = tt
  open_target-Unchanged (fresh file_i) h p handle_i procfd inode s =
      open_new_file-Unchanged new_file h file_i p handle_i procfd inode s

  open_handle-Unchanged :
      (d m : Option ℕ) (p handle_i : ℕ) (t : Target) (inode : Inode) (s : Tables)
      → Unchanged s
          (open_handle fss mounts new_handle new_file fd path flags d m p handle_i t inode s)
  unfolding open_handle
  open_handle-Unchanged none m p handle_i t inode s = refl
  open_handle-Unchanged (some procfd) none p handle_i t inode s = refl
  open_handle-Unchanged (some procfd) (some h) p handle_i t inode s =
      open_target-Unchanged t h p handle_i procfd inode s

  open_numbered-Unchanged :
      (a b : Option ℕ) (p : ℕ) (t : Target) (inode : Inode) (s : Tables)
      → Unchanged s (open_numbered fss mounts new_handle new_file fd path flags a b p t inode s)
  unfolding open_numbered
  open_numbered-Unchanged none b p t inode s = refl
  open_numbered-Unchanged (some i) none p t inode s = refl
  open_numbered-Unchanged (some i) (some k) p t inode s =
      open_handle-Unchanged (in_place p fd k s) new_handle p i t inode s

  open_in-Kept :
      (c : Option ℕ) (t : Target) (inode : Inode) (s : Tables)
      → Kept s (open_in fss mounts new_handle new_file fd path flags c t inode s)
  unfolding open_in
  open_in-Kept none t inode s = tt
  open_in-Kept (some p) t inode s =
      open_numbered-Unchanged (alloc_handle_i s) (alloc_proc_handle_i p s) p t inode s

  open_checked-Kept :
      (e : Option Errno) (t : Target) (inode : Inode) (s : Tables)
      → Kept s (open_checked fss mounts new_handle new_file fd path flags e t inode s)
  unfolding open_checked
  open_checked-Kept (some e) t inode s = refl
  open_checked-Kept none t inode s = open_in-Kept s.current_proc t inode s

  open_inode-Kept :
      (t : Target) (inode : Inode) (s : Tables)
      → Kept s (open_inode fss mounts new_handle new_file fd path flags t inode s)
  unfolding open_inode
  open_inode-Kept t inode s = open_checked-Kept (check_access inode flags) t inode s

  open_found-Kept :
      (o : Option Found) (file_i : ℕ) (s : Tables)
      → Kept s (open_found fss mounts new_handle new_file fd path flags o file_i s)
  unfolding open_found
  open_found-Kept none file_i s = tt
  open_found-Kept (some (failed e)) file_i s = refl
  open_found-Kept (some (found inode)) file_i s = open_inode-Kept (fresh file_i) inode s

  open_fresh-Kept :
      (o : Option ℕ) (s : Tables)
      → Kept s (open_fresh fss mounts new_handle new_file fd path flags o s)
  unfolding open_fresh
  open_fresh-Kept none s = refl
  open_fresh-Kept (some file_i) s = open_found-Kept (get_inode fss mounts path) file_i s

  open_path-Kept :
      (o : Option ℕ) (s : Tables)
      → Kept s (open_path fss mounts new_handle new_file fd path flags o s)
  unfolding open_path
  open_path-Kept (some f) s = open_inode-Kept (existing f) (s.file f).inode s
  open_path-Kept none s = open_fresh-Kept (alloc_file_i s) s

-- An error of `open`.
abbrev pub IsError : OpenReply → Type 0
IsError (opened fd) = ⊥
IsError (refused e) = Unit {0}
IsError (not_found e) = Unit {0}

-- When `open` returns an error, whichever it is, no table has changed.
pub open_file-error :
    (fss : FileSystems) (mounts : ℕ → Option Mount) (new_handle new_file fd : Option ℕ)
    (directory path_ : List ℕ) (flags : Flags) (s s' : Tables) (r : OpenReply)
    → IsError r
    → open_file fss mounts new_handle new_file fd directory path_ flags s ≡ some (r, s')
    → s' ≡ s
unfolding open_file
open_file-error fss mounts new_handle new_file fd directory path_ flags s s' r i e = either r i (
    subst (Kept s) e (
      open_path-Kept fss mounts new_handle new_file fd (canonicalise_path directory path_)
        (implied flags) (find_open_file (canonicalise_path directory path_) s) s))
  where
    either : (r : OpenReply) → IsError r → Unchanged s (r, s') → s' ≡ s
    either (opened d) i u = absurd i
    either (refused x) i u = u
    either (not_found x) i u = u
