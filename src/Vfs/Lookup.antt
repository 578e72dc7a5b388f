-- ===== src/Vfs/Lookup.antt =====
-- Mounts, and finding the inode of a path, of src/kernel/src/filesystem/vfs.cc.
-- A mounted filesystem is its number, and what its virtual functions answer is a parameter. An error
-- code is its absolute value; `none` is a failed assertion.
pub mod Walk
mod Tests
use rikai_os.Base.{
  ℕ, zero, suc, Bool, true, false, Option, none, some, List, [], if◌then◌else◌, ◌+◌, ◌∷◌, ◌==◌, leb,
  length, get_or, drop,
}
use rikai_os.Vfs.Path.{max_file_name_length, slash, push_back, same_string}

abbrev pub max_mounts : ℕ
max_mounts = 32

-- The fields of `inode_t` that this module uses.
pub record Inode : Type 0 where
  pub i : ℕ
  pub is_dir : Bool
  pub perm : ℕ
  pub fs : Option ℕ

pub data Found : Type 0 where
  failed : ℕ → Found
  found : Inode → Found

pub record Mount : Type 0 where
  pub name : List ℕ
  pub fs : ℕ

-- `get_root_node` and `lookup` of each filesystem.
pub record FileSystems : Type 0 where
  pub get_root_node : ℕ → Found
  pub lookup_in : ℕ → Inode → List ℕ → Found

unfoldable pub named : Option Mount → List ℕ → Bool
unfolding same_string
named none name = false
named (some m) name = same_string m.name name

-- The first mount of that name among the `n` from `k` on.
unfoldable pub get_mount_from : ℕ → ℕ → (ℕ → Option Mount) → List ℕ → Option Mount
unfolding named
get_mount_from zero k mounts name = none
get_mount_from (suc n) k mounts name =
    let rest = get_mount_from n (k + 1) mounts name in
    if named (mounts k) name then mounts k else rest

unfoldable pub get_mount : (ℕ → Option Mount) → List ℕ → Option Mount
unfolding get_mount_from
get_mount mounts name = get_mount_from max_mounts 0 mounts name

-- The characters up to the next slash, behind those that are there.
unfoldable pub component_of : List ℕ → List ℕ → List ℕ
unfolding push_back
component_of acc [] = acc
component_of acc (c ∷ cs) =
    let more = component_of (push_back max_file_name_length acc c) cs in
    if c == slash then acc else more

unfoldable pub pop_front : ℕ → List ℕ → List ℕ
pop_front n s = if leb (length s) n then [] else drop n s

-- `assert(dest.fs)`, when there was no error.
unfoldable pub checked : Found → Option Found
checked (failed e) = some (failed e)
checked (found node) = elim node.fs [ none ↦ none | some fs ↦ some (found node) ]

-- `inode_t { }`
abbrev pub empty_inode : Inode
empty_inode = record { i = 0; is_dir = false; perm = 0; fs = none }

-- `if (err) return err;`
unfoldable pub next_node : Found → (Inode → Found) → Found
next_node (failed e) k = failed e
next_node (found node) k = k node

module _ (fss : FileSystems) where
  -- The loop of `lookup`, with the filesystem of the node that it starts at.
  unfoldable pub lookup_loop : ℕ → ℕ → Inode → Inode → List ℕ → Found
  unfolding component_of pop_front next_node
  lookup_loop zero fs tmp dest path = found dest
  lookup_loop (suc n) fs tmp dest [] = found dest
  lookup_loop (suc n) fs tmp dest (c ∷ cs) =
      let component = component_of [] (c ∷ cs) in
      let rest = pop_front (length component + 1) (c ∷ cs) in
      next_node (fss.lookup_in fs tmp component) (λ node. lookup_loop n fs node node rest)

  -- Without a filesystem, an assertion fails as soon as there is a name to look up. Each round takes
  -- at least one character off the path.
  unfoldable pub lookup_at : Option ℕ → Inode → Inode → List ℕ → Option Found
  unfolding lookup_loop checked
  lookup_at none node dest path = if length path == 0 then checked (found dest) else none
  lookup_at (some fs) node dest path = checked (lookup_loop (length path) fs node dest path)

  unfoldable pub lookup : Inode → Inode → List ℕ → Option Found
  unfolding lookup_at
  lookup node dest path =
      lookup_at node.fs node dest (if get_or path 0 0 == slash then pop_front 1 path else path)

  unfoldable pub lookup_from : Found → List ℕ → Option Found
  unfolding lookup
  lookup_from (failed e) path = some (failed e)
  lookup_from (found root) path = lookup root empty_inode path

  unfoldable pub get_in_mount : Option Mount → List ℕ → Option Found
  unfolding lookup_from
  get_in_mount none path = some (failed 9)
  get_in_mount (some m) path =
      if length path == 0
      then some (fss.get_root_node m.fs)
      else lookup_from (fss.get_root_node m.fs) path

  -- `get_inode`; the inode 0 without a filesystem is the root.
  unfoldable pub get_inode : (ℕ → Option Mount) → List ℕ → Option Found
  unfolding get_in_mount get_mount component_of pop_front same_string
  get_inode mounts path =
      let behind = pop_front 1 path in
      let mount_name = component_of [] behind in
      if same_string path (slash ∷ [])
      then some (found (record { i = 0; is_dir = true; perm = 320; fs = none }))
      else if length mount_name == 0
      then none
      else get_in_mount (get_mount mounts mount_name) (pop_front (length mount_name + 1) behind)
