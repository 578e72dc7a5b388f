-- ===== src/Vfs/Table/Failure.antt =====
-- What `duplicate_fd` of src/kernel/src/filesystem/vfs.cc leaves when it fails.
use rikai_os.Base.{ℕ, refl, Option, none, some, ◌≡◌}
use mathlib.Core.Path.{subst}
use rikai_os.Vfs.Table.{
  Tables, Reply, Errno, error, opened, duplicate_fd, duplicate_at, duplicate_handle,
  duplicate_numbered, duplicate_into, add_behind, alloc_handle_i, alloc_proc_handle_i, in_place,
  handle_by_fd,
}

-- An error comes with the tables as they were.
Unchanged : Tables → Option (Reply × Tables) → Type 0
Unchanged s none = Unit {0}
Unchanged s (some (error e, s')) = s' ≡ s
Unchanged s (some (opened fd, s')) = Unit {0}

add_behind-Unchanged :
    (o : Option ℕ) (p src new i fd : ℕ) (s : Tables) → Unchanged s (add_behind o p src new i fd s)
unfolding Unchanged add_behind
add_behind-Unchanged none p src new i fd s = tt
add_behind-Unchanged (some last) p src new i fd s = tt

duplicate_into-Unchanged :
    (o m : Option ℕ) (p src i : ℕ) (s : Tables) → Unchanged s (duplicate_into o m p src i s)
unfolding Unchanged duplicate_into
duplicate_into-Unchanged none m p src i s = refl
duplicate_into-Unchanged (some fd) none p src i s = refl
duplicate_into-Unchanged (some fd) (some new) p src i s = add_behind-Unchanged _ p src new i fd s

duplicate_numbered-Unchanged :
    (a b m dest : Option ℕ) (p src : ℕ) (s : Tables)
    → Unchanged s (duplicate_numbered a b m dest p src s)
unfolding Unchanged duplicate_numbered
duplicate_numbered-Unchanged none b m dest p src s = refl
duplicate_numbered-Unchanged (some i) none m dest p src s = refl
duplicate_numbered-Unchanged (some i) (some k) m dest p src s =
    duplicate_into-Unchanged (in_place p dest k s) m p src i s

duplicate_handle-Unchanged :
    (o m dest : Option ℕ) (p : ℕ) (s : Tables) → Unchanged s (duplicate_handle o m dest p s)
unfolding Unchanged duplicate_handle
duplicate_handle-Unchanged none m dest p s = refl
duplicate_handle-Unchanged (some src) m dest p s =
    duplicate_numbered-Unchanged (alloc_handle_i s) (alloc_proc_handle_i p s) m dest p src s

duplicate_at-Unchanged :
    (c m dest fd : Option ℕ) (s : Tables) → Unchanged s (duplicate_at c m dest fd s)
unfolding Unchanged duplicate_at
duplicate_at-Unchanged none m dest fd s = tt
duplicate_at-Unchanged (some p) m dest fd s =
    duplicate_handle-Unchanged (handle_by_fd p fd s) m dest p s

-- When `duplicate_fd` returns an error, whichever it is, no table has changed.
pub duplicate_fd-error :
    (memory dest fd : Option ℕ) (s s' : Tables) (e : Errno)
    → duplicate_fd memory dest fd s ≡ some (error e, s')
    → s' ≡ s
unfolding duplicate_fd Unchanged
duplicate_fd-error memory dest fd s s' e h =
    subst (Unchanged s) h (duplicate_at-Unchanged s.current_proc memory dest fd s)
