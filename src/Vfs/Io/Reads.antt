-- ===== src/Vfs/Io/Reads.antt =====
-- `read_all` of src/kernel/src/filesystem/vfs.hh over a filesystem that gives any number of bytes at a time.
use rikai_os.Base.{
  ℕ, zero, suc, refl, sym, ap, inl, inr, true, false, Option, none, some, arith, if◌then◌else◌, ◌+◌,
  ◌-◌, ◌%◌, ◌^◌, ◌≤◌, ◌<◌, ◌≡◌, ◌∙◌, ◌⊎◌, ◌==◌, ltb, leb, if-true, if-false, not-false, ltb→lt,
  ==_refl, Bool-cases, add32,
}
use mathlib.Core.Path.{subst, ap₂}
use mathlib.Core.Option.{none-ne-some}
use rikai_os.Base.Int.{ℤ, pos}
use rikai_os.Vfs.Lookup.{Inode}
use rikai_os.Vfs.Table.{Tables, Handle, handle_by_fd}
use rikai_os.Memory.Virtual.Entry.{has_flag}
use rikai_os.Vfs.Io.{
  advance, finish, transfer_with, transfer_at, read, read_bit, dir_bit, ended, again, all_step,
  all_round, all_loop, read_all,
}

-- The filesystem gives at least a byte of the file and at most those asked for, up to `size`, and none
-- behind that.
pub record Gives (fs_read : Inode → ℕ → ℕ → ℤ) (inode : Inode) (size : ℕ) : Type 0 where
  pub some_bytes :
      (at n : ℕ)
      → at < size
      → 0 < n
      → (m : ℕ) × (fs_read inode at n ≡ pos (suc m)) × (suc m ≤ n) × (at + suc m ≤ size)
  pub at_end : (at n : ℕ) → size ≤ at → fs_read inode at n ≡ pos 0

-- The descriptor is that of the handle `h` at the position `at` of the inode, opened for reading.
pub record Opened (p : ℕ) (fd : Option ℕ) (h fs at : ℕ) (inode : Inode) (s : Tables) : Type 0 where
  pub by_fd : handle_by_fd p fd s ≡ some h
  pub no_dir : has_flag dir_bit (s.handle h).flags ≡ false
  pub may_read : has_flag read_bit (s.handle h).flags ≡ true
  pub of_file : (s.file (s.handle h).file).inode ≡ inode
  pub on_fs : inode.fs ≡ some fs
  pub position : (s.handle h).pos ≡ at

advance-handle :
    (h n : ℕ) (s : Tables)
    → (advance h n s).handle h ≡ record (s.handle h) { pos = ((s.handle h).pos + n) % 2 ^ 64 }
unfolding advance
advance-handle h n s = if-true _ _ (==_refl h)

-- A read of `n` bytes moves the position by as many.
advance-Opened :
    (p : ℕ) (fd : Option ℕ) (h fs at n : ℕ) (inode : Inode) (s : Tables)
    → Opened p fd h fs at inode s
    → at + n < 2 ^ 64
    → Opened p fd h fs (at + n) inode (advance h n s)
unfolding advance handle_by_fd
advance-Opened p none h fs at n inode s o i = absurd (none-ne-some h o.by_fd)
advance-Opened p (some d) h fs at n inode s o i = record {
  by_fd = o.by_fd;
  no_dir = ap (λ (t : Handle). has_flag dir_bit t.flags) (advance-handle h n s) ∙ o.no_dir;
  may_read = ap (λ (t : Handle). has_flag read_bit t.flags) (advance-handle h n s) ∙ o.may_read;
  of_file = ap (λ (t : Handle). (s.file t.file).inode) (advance-handle h n s) ∙ o.of_file;
  on_fs = o.on_fs;
  position =
      ap (λ (t : Handle). t.pos) (advance-handle h n s)
      ∙ ap (λ t. (t + n) % 2 ^ 64) o.position
      ∙ omega (arith, i);
}

module _ (fs_read : Inode → ℕ → ℕ → ℤ) (p : ℕ) (fd : Option ℕ) (h fs : ℕ) (inode : Inode) where
  -- The read reaches the filesystem.
  read-finish :
      (at n : ℕ) (s : Tables)
      → Opened p fd h fs at inode s
      → 0 < n
      → read fs_read p fd n s ≡ some (finish h (fs_read inode at n) s)
  unfolding read transfer_at transfer_with
  read-finish at n s o i =
      ap (λ t. transfer_at fs_read read_bit t n s) o.by_fd
      ∙ if-false _ _ o.no_dir
      ∙ if-false _ _ (not-false o.may_read)
      ∙ if-false {b = n == 0} _ _ (ground (arith, i))
      ∙ ap (λ t. transfer_with fs_read read_bit t h n s)
          (ap (λ (t : Inode). t.fs) o.of_file ∙ o.on_fs)
      ∙ ap₂ (λ x y. some (finish h (fs_read x y n) s)) o.of_file o.position

  module _ (size nbytes start : ℕ) (gives : Gives fs_read inode size) (size_fits : size < 2 ^ 64)
      (nbytes_fits : nbytes < 2 ^ 31) where
    -- What `read_all` is to return.
    abbrev pub outcome : ℕ
    outcome = if leb (start + nbytes) size then nbytes else 0

    ended-loop :
        (n : ℕ) (x : ℤ) (s : Tables) → all_loop fs_read p fd nbytes n (ended x s) ≡ ended x s
    unfolding all_loop
    ended-loop zero x s = refl
    ended-loop (suc n) x s = refl

    loop-outcome :
        (n bytes_read : ℕ) (s : Tables)
        → Opened p fd h fs (start + bytes_read) inode s
        → start + bytes_read ≤ size ⊎ (bytes_read ≡ 0)
        → bytes_read ≤ nbytes
        → nbytes - bytes_read < n
        → (s' : Tables) × (all_loop fs_read p fd nbytes n (again bytes_read s)
            ≡ ended (pos outcome) s')
    unfolding all_loop all_round all_step finish
    loop-outcome zero bytes_read s o b c i = absurd (omega (arith, i))
    loop-outcome (suc n) bytes_read s o b c i = elim (Bool-cases (ltb bytes_read nbytes)) [
      | inr e ↦ (
        s,
        ap (all_loop fs_read p fd nbytes n) (if-false _ _ e)
            ∙ ended-loop n (pos bytes_read) s
            ∙ ap (λ t. ended (pos t) s) (all_read e b),
      )
      | inl e ↦ elim (Bool-cases (ltb (start + bytes_read) size)) [
        | inl f ↦
            let lt = ltb→lt bytes_read nbytes e in
            let (m, g, le, within) =
              gives.some_bytes (start + bytes_read) (nbytes - bytes_read) (ltb→lt _ _ f)
                (omega (arith, lt)) in
            let (s', r) =
              loop-outcome n (bytes_read + suc m) (advance h (suc m) s)
                (subst (λ t. Opened p fd h fs t inode (advance h (suc m) s))
                  {x = start + bytes_read + suc m} {y = start + (bytes_read + suc m)} (omega arith)
                  (advance-Opened p fd h fs (start + bytes_read) (suc m) inode s o
                    (omega (arith, within, size_fits))))
                (inl (omega (arith, within))) (omega (arith, le, lt)) (omega (arith, i, lt)) in
            (
              s',
              ap (all_loop fs_read p fd nbytes n) (
                    if-true _ _ e
                    ∙ ap (all_step bytes_read) (step lt ∙ ap (λ t. some (finish h t s)) g)
                    ∙ ap (λ t. again t (advance h (suc m) s)) {x = add32 bytes_read (suc m)}
                        {y = bytes_read + suc m} (omega (arith, le, lt, nbytes_fits)))
                  ∙ r,
            )
        | inr f ↦
            let lt = ltb→lt bytes_read nbytes e in
            (
              advance h 0 s,
              ap (all_loop fs_read p fd nbytes n) (
                    if-true _ _ e
                    ∙ ap (all_step bytes_read) (
                        step lt
                        ∙ ap (λ t. some (finish h t s))
                            (gives.at_end (start + bytes_read) (nbytes - bytes_read)
                              (ground (arith, f)))))
                  ∙ ended-loop n (pos 0) (advance h 0 s)
                  ∙ ap (λ t. ended (pos t) (advance h 0 s))
                      (sym (if-false {b = leb (start + nbytes) size} _ _ (ground (arith, f, lt)))),
            )
      ]
    ]
      where
        step :
            bytes_read < nbytes
            → read fs_read p fd (nbytes - bytes_read) s
              ≡ some (finish h (fs_read inode (start + bytes_read) (nbytes - bytes_read)) s)
        step lt = read-finish (start + bytes_read) (nbytes - bytes_read) s o (omega (arith, lt))

        all_read :
            ltb bytes_read nbytes ≡ false
            → (start + bytes_read ≤ size) ⊎ (bytes_read ≡ 0)
            → bytes_read ≡ outcome
        all_read e (inl g) = ground (arith, e, g, c)
        all_read e (inr g) = ground (arith, e, g, c)

-- Over a filesystem that gives at least a byte at a time and none behind the end of the file, `read_all` on
-- a descriptor that is open for reading ends, when less than 2 ^ 31 bytes are asked for: it returns the number of bytes asked for when the file has
-- as many from the position of the handle on, and 0 when it has fewer.
pub read_all-outcome :
    (fs_read : Inode → ℕ → ℕ → ℤ) (p : ℕ) (fd : Option ℕ) (h fs : ℕ) (inode : Inode)
    (size nbytes start : ℕ) (s : Tables)
    → Gives fs_read inode size
    → size < 2 ^ 64
    → nbytes < 2 ^ 31
    → Opened p fd h fs start inode s
    → (s' : Tables) × (read_all fs_read p fd nbytes s
        ≡ ended (pos (if leb (start + nbytes) size then nbytes else 0)) s')
unfolding read_all
read_all-outcome fs_read p fd h fs inode size nbytes start s gives size_fits nbytes_fits o =
    let (s', e) =
      loop-outcome fs_read p fd h fs inode size nbytes start gives size_fits nbytes_fits
        (nbytes + 1) 0 s
        (subst (λ t. Opened p fd h fs t inode s) {x = start} {y = start + 0} (omega arith) o)
        (inr refl) (omega arith) (omega arith) in
    (s', if-false {b = ltb (2 ^ 31 - 1) nbytes} _ _ (ground (arith, nbytes_fits)) ∙ e)
