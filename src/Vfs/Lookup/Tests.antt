-- ===== src/Vfs/Lookup/Tests.antt =====
-- Runs of `get_inode` of src/kernel/src/filesystem/vfs.cc on one mounted filesystem.
use rikai_os.Base.{
  ℕ, refl, true, Option, none, some, [], arith, if◌then◌else◌, ◌+◌, ◌≡◌, ◌∷◌, ◌==◌, get_or,
}
use rikai_os.Vfs.Lookup.{failed, found, Mount, FileSystems, get_inode, get_mount}
use rikai_os.Vfs.Lookup.Walk.{join, walk_mount, get_inode-walk}

-- Each node has one child, of the name "a" and with the next number.
abbrev one_chain : FileSystems
one_chain = record {
  get_root_node = λ fs. found (record { i = 1; is_dir = true; perm = 256; fs = some fs });
  lookup_in = λ fs node name.
      if get_or name 0 0 == 97
      then found (record { i = node.i + 1; is_dir = true; perm = 256; fs = some fs })
      else failed 9;
}

abbrev mounts : ℕ → Option Mount
mounts k = if k == 2 then some (record { name = 100 ∷ []; fs = 3 }) else none

-- The path "/d/a/a" leads to the node 3, and "/x" to no mount.
inodes :
    (get_inode one_chain mounts (47 ∷ 100 ∷ 47 ∷ 97 ∷ 47 ∷ 97 ∷ [])
      ≡ some (found (record { i = 3; is_dir = true; perm = 256; fs = some 3 })))
    × (get_inode one_chain mounts (47 ∷ 120 ∷ []) ≡ some (failed 9))
unfolding get_inode
inodes = (refl, refl)

get_inode-walk_example :
    get_inode one_chain mounts (47 ∷ join ((100 ∷ []) ∷ (97 ∷ []) ∷ []))
    ≡ walk_mount one_chain (get_mount mounts (100 ∷ [])) ((97 ∷ []) ∷ [])
get_inode-walk_example =
    get_inode-walk one_chain mounts (100 ∷ []) ((97 ∷ []) ∷ [])
      ((omega arith, omega arith), omega arith) (((omega arith, omega arith), omega arith), tt)
