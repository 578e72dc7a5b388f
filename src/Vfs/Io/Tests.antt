-- ===== src/Vfs/Io/Tests.antt =====
-- Reading a file of five bytes, one byte at a time.
use rikai_os.Base.{
  ℕ, refl, false, none, some, [], arith, if◌then◌else◌, ◌≡◌, ◌==◌, ltb, if-true, if-false, lt→ltb,
}
use rikai_os.Base.Int.{ℤ, pos}
use rikai_os.Vfs.Lookup.{Inode}
use rikai_os.Vfs.Table.{Tables, handle_by_fd}
use rikai_os.Memory.Virtual.Entry.{has_flag}
use rikai_os.Vfs.Io.{ended, read_all}
use rikai_os.Vfs.Io.Reads.{Gives, Opened, read_all-outcome}

abbrev byte_by_byte : Inode → ℕ → ℕ → ℤ
byte_by_byte inode at n = if ltb at 5 then pos 1 else pos 0

abbrev five_bytes : Inode
five_bytes = record { i = 7; is_dir = false; perm = 448; fs = some 0 }

-- The descriptor 3 of the process 1 is open for reading at the position 1.
abbrev one_open : Tables
one_open = record {
  handle = λ h. record {
    handle_i = 0;
    file = 20;
    flags = 1;
    pos = 1;
    proc = 1;
    procfd = 3;
    prev = none;
    next = none;
    locked = false;
  };
  file = λ f. record {
    file_i = 0;
    path = [];
    inode = five_bytes;
    first_handle = some 10;
    last_handle = some 10;
  };
  handles = λ i. if i == 0 then some 10 else none;
  open_files = λ i. if i == 0 then some 20 else none;
  files = λ p fd. if fd == 3 then some 10 else none;
  current_proc = some 1;
}

byte_by_byte-Gives : Gives byte_by_byte five_bytes 5
byte_by_byte-Gives = record {
  some_bytes = λ at n lt i. (0, if-true _ _ (lt→ltb at 5 lt), omega (arith, i), omega (arith, lt));
  at_end = λ at n le. if-false {b = ltb at 5} _ _ (ground (arith, le));
}

one_open-Opened : Opened 1 (some 3) 10 0 1 five_bytes one_open
unfolding handle_by_fd has_flag
one_open-Opened = record {
  by_fd = refl;
  no_dir = refl;
  may_read = refl;
  of_file = refl;
  on_fs = refl;
  position = refl;
}

read_all-outcome_example :
    (s' : Tables) × (read_all byte_by_byte 1 (some 3) 4 one_open ≡ ended (pos 4) s')
read_all-outcome_example =
    read_all-outcome byte_by_byte 1 (some 3) 10 0 five_bytes 5 4 1 one_open byte_by_byte-Gives
      (omega arith) (omega arith) one_open-Opened
