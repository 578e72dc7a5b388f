-- ===== src/Vfs/Table/Tests.antt =====
-- Runs of the tables of src/kernel/src/filesystem/vfs.cc, and their theorems at a concrete state.
use rikai_os.Base.{ℕ, refl, false, none, some, [], arith, if◌then◌else◌, ◌-◌, ◌≡◌, ◌==◌}
use rikai_os.Vfs.Table.{
  error, err_bad_fd, Tables, Handle, opened, err_success, duplicate_fd, close, transplant_fd,
  alloc_handle_i, alloc_proc_handle_i, handle_by_fd, in_place,
}
use rikai_os.Vfs.Table.Failure.{duplicate_fd-error}
use rikai_os.Vfs.Table.Duplicate.{Duplicable, duplicate_fd-cycle, duplicate_fd-close}

-- The process 1 has the file 5 open twice: as 0 by the handle 10, and as 4 by the handle 11.
abbrev handle : ℕ → Handle
handle t = record {
  handle_i = t - 10;
  file = 5;
  flags = 1;
  pos = 100;
  proc = 1;
  procfd = (if t == 10 then 0 else 4);
  prev = (if t == 11 then some 10 else none);
  next = (if t == 10 then some 11 else none);
  locked = false;
}

abbrev twice : Tables
twice = record {
  handle = handle;
  file = λ f. record {
    file_i = 0;
    path = [];
    inode = record { i = 9; is_dir = false; perm = 384; fs = some 0 };
    first_handle = some 10;
    last_handle = some 11;
  };
  handles = λ i. if i == 0 then some 10 else if i == 1 then some 11 else none;
  open_files = λ i. if i == 0 then some 5 else none;
  files = λ p fd.
      if p == 1 then (if fd == 0 then some 10 else if fd == 4 then some 11 else none) else none;
  current_proc = some 1;
}

twice-Duplicable : Duplicable 1 10 20 2 3 3 11 none (some 0) twice
unfolding handle_by_fd alloc_handle_i alloc_proc_handle_i in_place
twice-Duplicable = record {
  current = refl;
  source = refl;
  last_one = refl;
  number = refl;
  free_fd = refl;
  placed = refl;
}

duplicate_fd-cycle_example :
    (s' : Tables) × (duplicate_fd (some 20) none (some 0) twice ≡ some (opened 3, s'))
    × ((s'.handle 11).next ≡ some 20)
    × ((s'.handle 20).next ≡ some 11)
duplicate_fd-cycle_example =
    duplicate_fd-cycle 1 10 20 2 3 3 11 none (some 0) twice twice-Duplicable refl (omega arith)

duplicate_fd-close_example :
    (s' s'' : Tables) × (duplicate_fd (some 20) none (some 0) twice ≡ some (opened 3, s'))
    × (close (some 3) s' ≡ some (err_success, s''))
    × ((k : ℕ) → s''.files 1 k ≡ twice.files 1 k)
    × ((k : ℕ) → s''.handles k ≡ twice.handles k)
duplicate_fd-close_example =
    duplicate_fd-close 1 10 20 2 3 3 11 none (some 0) twice twice-Duplicable

-- A descriptor moves to another process.
transplanted :
    ((transplant_fd 1 2 7 4 twice).1.files 2 7 ≡ some 11)
    × ((transplant_fd 1 2 7 4 twice).1.files 1 4 ≡ none)
unfolding transplant_fd
transplanted = (refl, refl)

-- The descriptor 4 is taken, and the descriptor 9 is not open.
taken_and_missing :
    (duplicate_fd (some 20) (some 4) (some 0) twice ≡ some (error err_bad_fd, twice))
    × (duplicate_fd (some 20) none (some 9) twice ≡ some (error err_bad_fd, twice))
unfolding duplicate_fd
taken_and_missing = (refl, refl)

duplicate_fd-error_example : twice ≡ twice
duplicate_fd-error_example =
    duplicate_fd-error (some 20) (some 4) (some 0) twice twice err_bad_fd taken_and_missing.0
