-- ===== src/Vfs/Tests.antt =====
-- Runs of the functions on paths of src/kernel/src/filesystem/vfs.cc.
use rikai_os.Base.{
  ℕ, refl, true, Option, none, some, List, [], arith, if◌then◌else◌, ◌≡◌, ◌∷◌, ◌==◌, update,
}
use rikai_os.Vfs.Path.{canonicalise_path, basename}
use rikai_os.Vfs.Render.{render, Names}
use rikai_os.Vfs.Lookup.{Mount, get_mount}
use rikai_os.Vfs.Mount.{mount, mount-get_mount}
use rikai_os.Vfs.Basename.{basename-render}
use rikai_os.Vfs.Canonical.{enter_all, start, split_from, canonicalise_path_lem}

-- The path "../b//./c" in the working directory "/a".
abbrev relative : List ℕ
relative = 46 ∷ 46 ∷ 47 ∷ 98 ∷ 47 ∷ 47 ∷ 46 ∷ 47 ∷ 99 ∷ []

-- It leads to "/b/c".
relative_path : canonicalise_path (47 ∷ 97 ∷ []) relative ≡ 47 ∷ 98 ∷ 47 ∷ 99 ∷ []
unfolding canonicalise_path
relative_path = refl

canonicalise_path_lem_example :
    (canonicalise_path (render ((97 ∷ []) ∷ [])) relative
      ≡ render (enter_all (start ((97 ∷ []) ∷ []) relative) (split_from [] relative)))
    × Names (enter_all (start ((97 ∷ []) ∷ []) relative) (split_from [] relative))
unfolding render
canonicalise_path_lem_example =
    canonicalise_path_lem ((97 ∷ []) ∷ []) relative ((omega arith, omega arith), tt) (omega arith)

basename-render_example :
    basename (render ((99 ∷ []) ∷ (98 ∷ []) ∷ [])) ≡ some (99 ∷ [], render ((98 ∷ []) ∷ []))
basename-render_example =
    basename-render (99 ∷ []) ((98 ∷ []) ∷ []) (omega arith, omega arith) (omega arith)

-- The filesystem 5 is mounted as "dev" next to the filesystem 0.
abbrev first_mount : ℕ → Option Mount
first_mount k = if k == 0 then some (record { name = 97 ∷ []; fs = 0 }) else none

mount-get_mount_example :
    get_mount
      (update first_mount 1 (some (record { name = 100 ∷ 101 ∷ 118 ∷ []; fs = 5 })))
      (97 ∷ [])
    ≡ some (record { name = 97 ∷ []; fs = 0 })
unfolding mount get_mount
mount-get_mount_example =
    mount-get_mount true 5 (100 ∷ 101 ∷ 118 ∷ []) first_mount
      (update first_mount 1 (some (record { name = 100 ∷ 101 ∷ 118 ∷ []; fs = 5 }))) (omega arith)
      refl (97 ∷ [])
