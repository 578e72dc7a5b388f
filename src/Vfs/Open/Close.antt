-- ===== src/Vfs/Open/Close.antt =====
-- `open` of a file that is not open, and `close` of the descriptor that it gives, of
-- src/kernel/src/filesystem/vfs.cc.
use rikai_os.Base.{
  ℕ, refl, ap, false, Option, none, some, List, ◌<◌, ◌≡◌, ◌∙◌, if-true, lt→ltb, ==_refl, update,
}
use rikai_os.Vfs.Path.{canonicalise_path}
use rikai_os.Vfs.Lookup.{Inode, found, Mount, FileSystems, get_inode}
use rikai_os.Vfs.Table.{
  Tables, Handle, File, err_success, is_free, points_at, alloc_file_i, alloc_handle_i,
  alloc_proc_handle_i, in_place, handle_by_fd, max_open_files, max_proc_files, close, close_in,
  close_at, close_handle, remove_handle, unlink_prev, unlink_next, unlink_ends, clean_up,
}
use rikai_os.Vfs.Table.Fresh.{in_place-free, alloc_handle_i-free, first_free-some}
use rikai_os.Vfs.Table.Duplicate.{remove_handle-files, remove_handle-handles, write_back}
use rikai_os.Vfs.Open.{
  Flags, opened, fresh, find_open_file, check_access, implied, flags_word, register_handle,
  register_file, link_handle, open_new_file, open_target, open_handle, open_numbered, open_in,
  open_checked, open_inode, open_found, open_fresh, open_path, open_file,
}

unlink_prev-none : (h : ℕ) (s : Tables) → (s.handle h).prev ≡ none → unlink_prev h s ≡ s
unfolding unlink_prev
unlink_prev-none h s e = rw e refl

unlink_next-none : (h : ℕ) (s : Tables) → (s.handle h).next ≡ none → unlink_next h s ≡ s
unfolding unlink_next
unlink_next-none h s e = rw e refl

clean_up-free :
    (f : ℕ) (s : Tables)
    → (s.file f).first_handle ≡ none
    → (clean_up f s).open_files ≡ update s.open_files (s.file f).file_i none
unfolding clean_up is_free
clean_up-free f s e = ap (λ (t : Tables). t.open_files) (if-true _ _ (ap is_free e))

-- The only handle of a file is closed: the file is not open any more.
remove_handle-only :
    (h p fd : ℕ) (s : Tables)
    → (s.file (s.handle h).file).first_handle ≡ some h
    → (s.handle h).prev ≡ none
    → (s.handle h).next ≡ none
    → (remove_handle h p fd s).open_files
      ≡ update s.open_files (s.file (s.handle h).file).file_i none
unfolding remove_handle unlink_ends points_at
remove_handle-only h p fd s first prev next =
    ap (λ t. (clean_up f (unlink_ends h t)).open_files)
      (ap (unlink_next h) (unlink_prev-none h s1 prev) ∙ unlink_next-none h s1 next)
    ∙ clean_up-free f (unlink_ends h s1) no_first
    ∙ ap (λ i. update s.open_files i none) same_number
  where
    f : ℕ
    f = (s.handle h).file

    s1 : Tables
    s1 = record s {
      files = update s.files p (update (s.files p) fd none);
      handles = update s.handles (s.handle h).handle_i none;
    }

    no_first : ((unlink_ends h s1).file f).first_handle ≡ none
    no_first =
        ap (λ (t : File). t.first_handle) (if-true _ _ (==_refl f))
        ∙ if-true _ _ (ap (λ o. points_at o h) first ∙ ==_refl h)
        ∙ next

    same_number : ((unlink_ends h s1).file f).file_i ≡ (s.file f).file_i
    same_number = ap (λ (t : File). t.file_i) (if-true _ _ (==_refl f))

-- A file that is not open and can be opened: `f` and `h` are the memory for it and for its handle, and
-- `j` is the descriptor.
pub record Openable (fss : FileSystems) (mounts : ℕ → Option Mount) (fd : Option ℕ) (path : List ℕ)
    (flags : Flags) (p h f file_i i k j : ℕ) (inode : Inode) (s : Tables) : Type 0 where
  pub not_open : find_open_file path s ≡ none
  pub file_number : alloc_file_i s ≡ some file_i
  pub inode_found : get_inode fss mounts path ≡ some (found inode)
  pub allowed : check_access inode (implied flags) ≡ none
  pub current : s.current_proc ≡ some p
  pub number : alloc_handle_i s ≡ some i
  pub free_fd : alloc_proc_handle_i p s ≡ some k
  pub placed : in_place p fd k s ≡ some j

module _ (fss : FileSystems) (mounts : ℕ → Option Mount) (fd : Option ℕ) (directory path_ : List ℕ)
    (flags : Flags) (p h f file_i i k j : ℕ) (inode : Inode) (s : Tables)
    (o : Openable fss mounts fd
      (canonicalise_path directory path_)
      flags
      p
      h
      f
      file_i
      i
      k
      j
      inode
      s) where
  abbrev path : List ℕ
  path = canonicalise_path directory path_

  abbrev with_file : Tables
  with_file = register_file f file_i path inode s

  abbrev after : Tables
  after = register_handle h f p i j (flags_word (implied flags)) with_file

  open_file-opened :
      open_file fss mounts (some h) (some f) fd directory path_ flags s ≡ some (opened j, after)
  unfolding open_file open_path open_fresh open_found open_inode open_checked open_in open_numbered
      open_handle open_target open_new_file
  open_file-opened =
      ap (λ t. open_path fss mounts (some h) (some f) fd path (implied flags) t s) o.not_open
      ∙ ap (λ t. open_fresh fss mounts (some h) (some f) fd path (implied flags) t s) o.file_number
      ∙ ap (λ t. open_found fss mounts (some h) (some f) fd path (implied flags) t file_i s)
          o.inode_found
      ∙ ap
          (λ t.
            open_checked fss mounts (some h) (some f) fd path (implied flags) t (fresh file_i) inode
              s)
          o.allowed
      ∙ ap
          (λ t.
            open_in fss mounts (some h) (some f) fd path (implied flags) t (fresh file_i) inode s)
          o.current
      ∙ ap
          (λ t. some (
            open_numbered fss mounts (some h) (some f) fd path (implied flags) t
              (alloc_proc_handle_i p s) p (fresh file_i) inode s))
          o.number
      ∙ ap
          (λ t. some (
            open_numbered fss mounts (some h) (some f) fd path (implied flags) (some i) t p
              (fresh file_i) inode s))
          o.free_fd
      ∙ ap
          (λ t. some (
            open_handle fss mounts (some h) (some f) fd path (implied flags) t (some h) p i
              (fresh file_i) inode s))
          o.placed

  abbrev new_handle : Handle
  new_handle = record {
    handle_i = i;
    file = f;
    flags = flags_word (implied flags);
    pos = 0;
    proc = p;
    procfd = j;
    prev = none;
    next = none;
    locked = false;
  }

  -- The state with the new file and its only handle.
  abbrev opened_tables : Tables
  opened_tables = record with_file {
    handle = update s.handle h new_handle;
    handles = update s.handles i (some h);
    file =
        update with_file.file f
          (record (with_file.file f) { first_handle = some h; last_handle = some h });
    files = update s.files p (update (s.files p) j (some h));
  }

  after-opened_tables : after ≡ opened_tables
  unfolding register_handle register_file link_handle
  after-opened_tables =
      ap
        (λ l.
          record (link_handle h f l (record with_file {
            handle = update s.handle h new_handle;
            handles = update s.handles i (some h);
          })) {
            files =
                update
                  (link_handle h f l (record with_file {
                    handle = update s.handle h new_handle;
                    handles = update s.handles i (some h);
                  })).files
                  p
                  (update
                    ((link_handle h f l (record with_file {
                      handle = update s.handle h new_handle;
                      handles = update s.handles i (some h);
                    })).files
                      p)
                    j (some h));
          })
        (ap (λ (t : File). t.last_handle) (if-true _ _ (==_refl f)))

  free : (j < max_proc_files) × (s.files p j ≡ none)
  free = in_place-free p k j fd s o.free_fd o.placed

  closed : close (some j) opened_tables ≡ some (err_success, remove_handle h p j opened_tables)
  unfolding close close_in close_at close_handle handle_by_fd register_file
  closed =
      ap (λ c. close_in c (some j) opened_tables) o.current
      ∙ ap (λ c. some (close_handle c p j opened_tables))
          (if-true _ _ (lt→ltb j max_proc_files free.0)
            ∙ ap (λ (t : ℕ → Option ℕ). t j) (if-true _ _ (==_refl p))
            ∙ if-true _ _ (==_refl j))

  at_h : opened_tables.handle h ≡ new_handle
  at_h = if-true _ _ (==_refl h)

  same_files : (n : ℕ) → (remove_handle h p j opened_tables).files p n ≡ s.files p n
  same_files n =
      ap (λ (t : ℕ → ℕ → Option ℕ). t p n) (remove_handle-files h p j opened_tables)
      ∙ ap (λ (t : ℕ → Option ℕ). t n) (if-true _ _ (==_refl p))
      ∙ ap (λ t. update t j none n) (if-true _ _ (==_refl p))
      ∙ write_back (s.files p) j (some h) n free.1

  same_handles : (n : ℕ) → (remove_handle h p j opened_tables).handles n ≡ s.handles n
  same_handles n =
      ap (λ (t : ℕ → Option ℕ). t n) (remove_handle-handles h p j opened_tables)
      ∙ ap (λ (t : Handle). update (update s.handles i (some h)) t.handle_i none n) at_h
      ∙ write_back s.handles i (some h) n (alloc_handle_i-free s i o.number).1

  file_at :
      opened_tables.file (opened_tables.handle h).file
      ≡ record (with_file.file f) { first_handle = some h; last_handle = some h }
  file_at = ap (λ (t : Handle). opened_tables.file t.file) at_h ∙ if-true _ _ (==_refl f)

  same_open_files : (n : ℕ) → (remove_handle h p j opened_tables).open_files n ≡ s.open_files n
  unfolding register_file alloc_file_i
  same_open_files n =
      ap (λ (t : ℕ → Option ℕ). t n)
        (remove_handle-only h p j opened_tables (ap (λ (t : File). t.first_handle) file_at)
          (ap (λ (t : Handle). t.prev) at_h) (ap (λ (t : Handle). t.next) at_h))
      ∙ ap (λ x. update (update s.open_files file_i (some f)) x none n)
          (ap (λ (t : File). t.file_i) file_at
            ∙ ap (λ (t : File). t.file_i) (if-true _ _ (==_refl f)))
      ∙ write_back s.open_files file_i (some f) n
          (first_free-some max_open_files 0 file_i s.open_files o.file_number).2

-- Where a file is not open, its inode is found and grants what is asked for, and there are numbers and
-- memory for it, `open` gives the descriptor that was found, and closing that leaves the descriptors of the
-- process, the table of handles and the table of open files as they were.
pub open_file-close :
    (fss : FileSystems) (mounts : ℕ → Option Mount) (fd : Option ℕ) (directory path_ : List ℕ)
    (flags : Flags) (p h f file_i i k j : ℕ) (inode : Inode) (s : Tables)
    → Openable fss mounts fd (canonicalise_path directory path_) flags p h f file_i i k j inode s
    → (s' s'' : Tables) × (open_file fss mounts (some h) (some f) fd directory path_ flags s
        ≡ some (opened j, s'))
      × (close (some j) s' ≡ some (err_success, s''))
      × ((n : ℕ) → s''.files p n ≡ s.files p n)
      × ((n : ℕ) → s''.handles n ≡ s.handles n)
      × ((n : ℕ) → s''.open_files n ≡ s.open_files n)
open_file-close fss mounts fd directory path_ flags p h f file_i i k j inode s o = (
  opened_tables fss mounts fd directory path_ flags p h f file_i i k j inode s o,
  remove_handle h p j
      (opened_tables fss mounts fd directory path_ flags p h f file_i i k j inode s o),
  open_file-opened fss mounts fd directory path_ flags p h f file_i i k j inode s o
      ∙ ap (λ t. some (opened j, t))
          (after-opened_tables fss mounts fd directory path_ flags p h f file_i i k j inode s o),
  closed fss mounts fd directory path_ flags p h f file_i i k j inode s o,
  same_files fss mounts fd directory path_ flags p h f file_i i k j inode s o,
  same_handles fss mounts fd directory path_ flags p h f file_i i k j inode s o,
  same_open_files fss mounts fd directory path_ flags p h f file_i i k j inode s o,
)
