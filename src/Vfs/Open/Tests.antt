-- ===== src/Vfs/Open/Tests.antt =====
-- Opening a file of one mounted filesystem.
use rikai_os.Base.{
  ℕ, refl, true, false, Option, none, some, List, [], if◌then◌else◌, ◌≡◌, ◌∷◌, ◌==◌,
}
use rikai_os.Vfs.Path.{canonicalise_path}
use rikai_os.Vfs.Lookup.{Inode, found, Mount, FileSystems, get_inode}
use rikai_os.Vfs.Table.{
  Tables, err_success, err_bad_fd, close, alloc_file_i, alloc_handle_i, alloc_proc_handle_i,
  in_place,
}
use rikai_os.Vfs.Open.{Flags, opened, refused, find_open_file, check_access, implied, open_file}
use rikai_os.Vfs.Open.Close.{Openable, open_file-close}
use rikai_os.Vfs.Open.Refused.{open_file-error}

-- Every path in the mount `/a` is a file that may be read and written.
abbrev file_inode : Inode
file_inode = record { i = 7; is_dir = false; perm = 448; fs = some 0 }

abbrev one_fs : FileSystems
one_fs = record {
  get_root_node = λ fs. found (record { i = 1; is_dir = true; perm = 448; fs = some 0 });
  lookup_in = λ fs node name. found file_inode;
}

abbrev mounts : ℕ → Option Mount
mounts k = if k == 0 then some (record { name = 97 ∷ []; fs = 0 }) else none

abbrev for_reading : Flags
for_reading = record {
  o_read = true;
  o_write = false;
  o_append = false;
  o_truncate = false;
  o_create = false;
  o_dir = false;
}

-- Nothing is open in the process 1.
abbrev nothing_open : Tables
nothing_open = record {
  handle = λ h. record {
    handle_i = 0;
    file = 0;
    flags = 0;
    pos = 0;
    proc = 0;
    procfd = 0;
    prev = none;
    next = none;
    locked = false;
  };
  file = λ f. record {
    file_i = 0;
    path = [];
    inode = file_inode;
    first_handle = none;
    last_handle = none;
  };
  handles = λ i. none;
  open_files = λ i. none;
  files = λ p fd. none;
  current_proc = some 1;
}

abbrev path_ : List ℕ
path_ = 47 ∷ 97 ∷ 47 ∷ 98 ∷ []

openable :
    Openable one_fs mounts none
      (canonicalise_path (47 ∷ []) path_)
      for_reading
      1
      10
      20
      0
      0
      3
      3
      file_inode
      nothing_open
unfolding canonicalise_path find_open_file alloc_file_i get_inode check_access implied
    alloc_handle_i alloc_proc_handle_i in_place
openable = record {
  not_open = refl;
  file_number = refl;
  inode_found = refl;
  allowed = refl;
  current = refl;
  number = refl;
  free_fd = refl;
  placed = refl;
}

open_file-close_example :
    (s' s'' : Tables) × (open_file one_fs mounts
        (some 10)
        (some 20)
        none
        (47 ∷ [])
        path_
        for_reading
        nothing_open
      ≡ some (opened 3, s'))
    × (close (some 3) s' ≡ some (err_success, s''))
    × ((n : ℕ) → s''.files 1 n ≡ none)
    × ((n : ℕ) → s''.handles n ≡ none)
    × ((n : ℕ) → s''.open_files n ≡ none)
open_file-close_example =
    open_file-close one_fs mounts none (47 ∷ []) path_ for_reading 1 10 20 0 0 3 3 file_inode
      nothing_open openable

open_file-error_example : nothing_open ≡ nothing_open
unfolding open_file canonicalise_path find_open_file alloc_file_i get_inode check_access implied
    alloc_handle_i alloc_proc_handle_i in_place
open_file-error_example =
    open_file-error one_fs mounts (some 10) (some 20) (some 32) (47 ∷ []) path_ for_reading
      nothing_open nothing_open (refused err_bad_fd) tt refl
