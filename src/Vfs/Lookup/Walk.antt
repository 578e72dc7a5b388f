-- ===== src/Vfs/Lookup/Walk.antt =====
-- `lookup` and `get_inode` of src/kernel/src/filesystem/vfs.cc against a walk along the names of a path.
use rikai_os.Base.{
  ℕ, zero, suc, refl, sym, ap, false, Option, none, some, List, [], arith, if◌then◌else◌, ◌+◌, ◌≤◌,
  ◌<◌, ◌≡◌, ◌∙◌, ◌∷◌, ◌++◌, ◌==◌, ltb, leb, if-true, if-false, ==_refl, ==_ne, length, get_or, drop,
  length-append, All, NotIn,
}
use mathlib.Core.List.{append_assoc, append-nil}
use rikai_os.Vfs.Path.{max_file_name_length, slash, push_back}
use rikai_os.Vfs.Render.{Name}
use rikai_os.Vfs.Basename.{same_string-length}
use rikai_os.Vfs.Lookup.{
  Inode, Found, failed, found, Mount, FileSystems, component_of, pop_front, next_node, checked,
  lookup_loop, lookup_at, lookup, empty_inode, lookup_from, get_in_mount, get_inode, get_mount,
}

-- The names with slashes between them.
unfoldable pub join : List (List ℕ) → List ℕ
join [] = []
join (n ∷ []) = n
join (n ∷ m ∷ ns) = n ++ slash ∷ join (m ∷ ns)

-- A name of at most 64 characters.
abbrev pub FileName : List ℕ → Type 0
FileName n = Name n × (length n ≤ max_file_name_length)

component_of-lem :
    (n acc r : List ℕ)
    → NotIn slash n
    → length acc + length n ≤ max_file_name_length
    → (component_of acc n ≡ acc ++ n) × (component_of acc (n ++ slash ∷ r) ≡ acc ++ n)
unfolding component_of push_back
component_of-lem [] acc r h b = (
  sym (append-nil acc),
  if-true acc (component_of (push_back max_file_name_length acc slash) r) (==_refl slash)
      ∙ sym (append-nil acc),
)
component_of-lem (c ∷ n) acc r h b =
    let grown =
      if-true {b = ltb (length acc) max_file_name_length} (acc ++ c ∷ []) acc (ground arith) in
    let rest =
      component_of-lem n (acc ++ c ∷ []) r h.1 (omega (arith, length-append acc (c ∷ []))) in
    let here = ==_ne c slash (λ e. h.0 (sym e)) in
    (
      if-false _ _ here ∙ ap (λ t. component_of t n) grown ∙ rest.0 ∙ append_assoc acc (c ∷ []) n,
      if-false _ _ here
          ∙ ap (λ t. component_of t (n ++ slash ∷ r)) grown
          ∙ rest.1
          ∙ append_assoc acc (c ∷ []) n,
    )

drop-name : (n r : List ℕ) (c : ℕ) → drop (length n + 1) (n ++ c ∷ r) ≡ r
drop-name [] r c = refl
drop-name (x ∷ n) r c =
    ap (λ k. drop k (x ∷ n ++ c ∷ r)) {x = suc (length n) + 1} {y = suc (length n + 1)}
      (omega arith)
    ∙ drop-name n r c

pop_front-all : (n : List ℕ) → pop_front (length n + 1) n ≡ []
unfolding pop_front
pop_front-all n = if-true {b = leb (length n) (length n + 1)} _ _ (ground arith)

pop_front-name : (n r : List ℕ) → 0 < length r → pop_front (length n + 1) (n ++ slash ∷ r) ≡ r
unfolding pop_front
pop_front-name n r h =
    if-false {b = leb (length (n ++ slash ∷ r)) (length n + 1)} _ _
      (ground (arith, length-append n (slash ∷ r)))
    ∙ drop-name n r slash

next_node-ext :
    (o : Found) (k k' : Inode → Found)
    → ((node : Inode) → k node ≡ k' node)
    → next_node o k ≡ next_node o k'
unfolding next_node
next_node-ext (failed e) k k' h = refl
next_node-ext (found node) k k' h = h node

length-join : (n : List ℕ) (ns : List (List ℕ)) → All FileName (n ∷ ns) → 0 < length (join (n ∷ ns))
unfolding join
length-join n [] h = h.0.0.0
length-join n (m ∷ ns) h = omega (arith, length-append n (slash ∷ join (m ∷ ns)), h.0.0.0)

module _ (fss : FileSystems) where
  -- From node to node along the names.
  unfoldable pub walk : ℕ → Inode → Inode → List (List ℕ) → Found
  walk fs tmp dest [] = found dest
  walk fs tmp dest (n ∷ ns) = next_node (fss.lookup_in fs tmp n) (λ node. walk fs node node ns)

  -- A round of the loop, with what it takes off the path.
  loop_step :
      (k fs : ℕ) (tmp dest : Inode) (p n r : List ℕ)
      → 0 < length p
      → component_of [] p ≡ n
      → pop_front (length n + 1) p ≡ r
      → lookup_loop fss (suc k) fs tmp dest p
        ≡ next_node (fss.lookup_in fs tmp n) (λ node. lookup_loop fss k fs node node r)
  unfolding lookup_loop
  loop_step k fs tmp dest [] n r h e f = absurd (omega arith)
  loop_step k fs tmp dest (c ∷ cs) n r h e f =
      ap
        (λ t.
          next_node (fss.lookup_in fs tmp t)
            (λ node. lookup_loop fss k fs node node (pop_front (length t + 1) (c ∷ cs))))
        e
      ∙ ap (λ t. next_node (fss.lookup_in fs tmp n) (λ node. lookup_loop fss k fs node node t)) f

  lookup_loop-walk :
      (k fs : ℕ) (tmp dest : Inode) (ns : List (List ℕ))
      → All FileName ns
      → length (join ns) ≤ k
      → lookup_loop fss k fs tmp dest (join ns) ≡ walk fs tmp dest ns
  unfolding walk join lookup_loop
  lookup_loop-walk zero fs tmp dest [] h b = refl
  lookup_loop-walk (suc k) fs tmp dest [] h b = refl
  lookup_loop-walk zero fs tmp dest (n ∷ ns) h b = absurd (omega (arith, length-join n ns h))
  lookup_loop-walk (suc k) fs tmp dest (n ∷ []) h b =
      loop_step k fs tmp dest n n [] h.0.0.0
        (component_of-lem n [] [] h.0.0.1 (omega (arith, h.0.1))).0 (pop_front-all n)
      ∙ next_node-ext (fss.lookup_in fs tmp n) _ _
          (λ node. lookup_loop-walk k fs node node [] tt (omega arith))
  lookup_loop-walk (suc k) fs tmp dest (n ∷ m ∷ ns) h b =
      let l = length-append n (slash ∷ join (m ∷ ns)) in
      loop_step k fs tmp dest (n ++ slash ∷ join (m ∷ ns)) n (join (m ∷ ns)) (omega (arith, l))
        (component_of-lem n [] (join (m ∷ ns)) h.0.0.1 (omega (arith, h.0.1))).1
        (pop_front-name n (join (m ∷ ns)) (length-join m ns h.1))
      ∙ next_node-ext (fss.lookup_in fs tmp n) _ _
          (λ node. lookup_loop-walk k fs node node (m ∷ ns) h.1 (omega (arith, l)))

  -- From the root node of a filesystem along the names; `none` is a failed assertion.
  unfoldable pub walk_at : Option ℕ → Inode → List (List ℕ) → Option Found
  walk_at none root ns = none
  walk_at (some fs) root ns = checked (walk fs root empty_inode ns)

  unfoldable pub walk_root : Found → List (List ℕ) → Option Found
  walk_root o [] = some o
  walk_root (failed e) (n ∷ ns) = some (failed e)
  walk_root (found root) (n ∷ ns) = walk_at root.fs root (n ∷ ns)

  unfoldable pub walk_mount : Option Mount → List (List ℕ) → Option Found
  walk_mount none ns = some (failed 9)
  walk_mount (some m) ns = walk_root (fss.get_root_node m.fs) ns

  no_slash_first :
      (n : List ℕ) (ns : List (List ℕ)) → Name n → (get_or (join (n ∷ ns)) 0 0 == slash) ≡ false
  unfolding join
  no_slash_first [] ns h = absurd (omega (arith, h.0))
  no_slash_first (c ∷ n) [] h = ==_ne c slash (λ e. h.1.0 (sym e))
  no_slash_first (c ∷ n) (m ∷ ns) h = ==_ne c slash (λ e. h.1.0 (sym e))

  lookup_at-walk :
      (o : Option ℕ) (root : Inode) (n : List ℕ) (ns : List (List ℕ))
      → All FileName (n ∷ ns)
      → lookup_at fss o root empty_inode (join (n ∷ ns)) ≡ walk_at o root (n ∷ ns)
  unfolding lookup_at walk_at
  lookup_at-walk none root n ns h =
      if-false {b = length (join (n ∷ ns)) == 0} _ _ (ground (arith, length-join n ns h))
  lookup_at-walk (some fs) root n ns h =
      ap checked
        (lookup_loop-walk (length (join (n ∷ ns))) fs root empty_inode (n ∷ ns) h (omega arith))

  lookup_from-walk :
      (o : Found) (n : List ℕ) (ns : List (List ℕ))
      → All FileName (n ∷ ns)
      → lookup_from fss o (join (n ∷ ns)) ≡ walk_root o (n ∷ ns)
  unfolding lookup_from lookup walk_root
  lookup_from-walk (failed e) n ns h = refl
  lookup_from-walk (found root) n ns h =
      ap (lookup_at fss root.fs root empty_inode) (if-false _ _ (no_slash_first n ns h.0.0))
      ∙ lookup_at-walk root.fs root n ns h

  get_in_mount-walk :
      (o : Option Mount) (ns : List (List ℕ))
      → All FileName ns
      → get_in_mount fss o (join ns) ≡ walk_mount o ns
  unfolding get_in_mount walk_mount walk_root join
  get_in_mount-walk none ns h = refl
  get_in_mount-walk (some m) [] h = refl
  get_in_mount-walk (some m) (n ∷ ns) h =
      if-false {b = length (join (n ∷ ns)) == 0} _ _ (ground (arith, length-join n ns h))
      ∙ lookup_from-walk (fss.get_root_node m.fs) n ns h

  mount_part :
      (m : List ℕ) (ns : List (List ℕ))
      → FileName m
      → All FileName ns
      → (component_of [] (join (m ∷ ns)) ≡ m) × (pop_front (length m + 1) (join (m ∷ ns)) ≡ join ns)
  unfolding join
  mount_part m [] h hs = ((component_of-lem m [] [] h.0.1 (omega (arith, h.1))).0, pop_front-all m)
  mount_part m (n ∷ ns) h hs = (
    (component_of-lem m [] (join (n ∷ ns)) h.0.1 (omega (arith, h.1))).1,
    pop_front-name m (join (n ∷ ns)) (length-join n ns hs),
  )

  -- On the path of a mount and names in it, none longer than 64 characters, `get_inode` gives what a walk
  -- along the names from the root node of the mounted filesystem gives, the error 9 when there is no
  -- such mount.
  pub get_inode-walk :
      (mounts : ℕ → Option Mount) (m : List ℕ) (ns : List (List ℕ))
      → FileName m
      → All FileName ns
      → get_inode fss mounts (slash ∷ join (m ∷ ns)) ≡ walk_mount (get_mount mounts m) ns
  unfolding get_inode pop_front
  get_inode-walk mounts m ns h hs =
      let l = length-join m ns (h, hs) in
      let p = mount_part m ns h hs in
      if-false _ _ (same_string-length (slash ∷ join (m ∷ ns)) (slash ∷ []) (omega (arith, l)))
      ∙ ap (λ b. behind_root b)
          (if-false {b = leb (suc (length (join (m ∷ ns)))) 1} _ _ (ground (arith, l)))
      ∙ ap (λ t. mounted t (join (m ∷ ns))) p.0
      ∙ if-false {b = length m == 0} _ _ (ground (arith, h.0.0))
      ∙ ap (get_in_mount fss (get_mount mounts m)) p.1
      ∙ get_in_mount-walk (get_mount mounts m) ns hs
    where
      mounted : List ℕ → List ℕ → Option Found
      mounted t b =
          if length t == 0
          then none
          else get_in_mount fss (get_mount mounts t) (pop_front (length t + 1) b)

      behind_root : List ℕ → Option Found
      behind_root b = mounted (component_of [] b) b
