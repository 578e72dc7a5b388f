-- ===== src/Vfs/Path.antt =====
-- The operations of src/kernel/include/os-std/string.hh that paths use, and the functions on paths of
-- src/kernel/src/filesystem/vfs.cc. A string is the list of its characters.
use rikai_os.Base.{
  ℕ, zero, suc, Bool, true, false, not, Option, none, some, List, [], if◌then◌else◌, ◌+◌, ◌-◌, ◌&&◌,
  ◌||◌, ◌∷◌, ◌++◌, ◌==◌, ltb, leb, length, get_or, take, drop, last?,
}

abbrev pub max_path_length : ℕ
max_path_length = 256

abbrev pub max_file_name_length : ℕ
max_file_name_length = 64

-- The characters '/' and '.'.
abbrev pub slash : ℕ
slash = 47

abbrev pub dot : ℕ
dot = 46

-- `+=` of a character to a string of capacity `N`.
unfoldable pub push_back : ℕ → List ℕ → ℕ → List ℕ
push_back N s c = if ltb (length s) N then s ++ c ∷ [] else s

-- `+=` of a string.
unfoldable pub append : ℕ → List ℕ → List ℕ → List ℕ
unfolding push_back
append N s [] = s
append N s (c ∷ cs) = append N (push_back N s c) cs

unfoldable pub pop : ℕ → List ℕ → List ℕ
pop n s = if leb (length s) n then [] else take (length s - n) s

unfoldable pub same_string : List ℕ → List ℕ → Bool
same_string [] [] = true
same_string [] (y ∷ ys) = false
same_string (x ∷ xs) [] = false
same_string (x ∷ xs) (y ∷ ys) = (x == y) && same_string xs ys

-- `path[path.length()-1] == '/'`
unfoldable pub is_slash : Option ℕ → Bool
is_slash none = false
is_slash (some c) = c == slash

-- `while (path[path.length()-1] != '/') path.pop();`
unfoldable pub pop_to_slash : ℕ → List ℕ → List ℕ
unfolding pop is_slash
pop_to_slash zero s = s
pop_to_slash (suc n) s =
    let rest = pop_to_slash n (pop 1 s) in if is_slash (last? s) then s else rest

-- The path after its last name is taken off, when it is longer than one character.
unfoldable pub pop_last : List ℕ → List ℕ
unfolding pop is_slash pop_to_slash
pop_last s =
    let s1 = if is_slash (last? s) then pop 1 s else s in
    let s2 = pop_to_slash (length s1) s1 in if ltb 1 (length s2) then pop 1 s2 else s2

unfoldable pub pop_path_component : List ℕ → List ℕ
unfolding pop_last
pop_path_component s = if leb (length s) 1 then s else pop_last s

-- `if (!path.length() || path[path.length()-1] != '/') path += '/';`
unfoldable pub with_slash : List ℕ → List ℕ
unfolding is_slash push_back
with_slash s =
    if (length s == 0) || not (is_slash (last? s)) then push_back max_path_length s slash else s

-- The function `push_component` of `canonicalise_path`, without the reset of the component.
unfoldable pub push_component : List ℕ → List ℕ → List ℕ
unfolding same_string pop_path_component with_slash append
push_component path component =
    if same_string component (dot ∷ dot ∷ [])
    then pop_path_component path
    else if same_string component (dot ∷ [])
    then path
    else if length component == 0
    then path
    else append max_path_length (with_slash path) component

-- The loop of `canonicalise_path` behind the first character.
unfoldable pub canonicalise_rest : List ℕ → List ℕ → List ℕ → List ℕ
unfolding push_component push_back
canonicalise_rest path component [] = push_component path component
canonicalise_rest path component (c ∷ cs) =
    let next = canonicalise_rest (push_component path component) [] cs in
    let same = canonicalise_rest path (push_back max_file_name_length component c) cs in
    if c == slash then next else same

-- `working_directory` is that of the current process.
unfoldable pub canonicalise_path : List ℕ → List ℕ → List ℕ
unfolding canonicalise_rest append push_back
canonicalise_path working_directory [] = slash ∷ []
canonicalise_path working_directory (c ∷ cs) =
    if c == slash
    then canonicalise_rest (push_back max_path_length [] slash) [] cs
    else canonicalise_rest (append max_path_length [] working_directory)
        (push_back max_file_name_length [] c) cs

-- The last position below `n` with a slash.
unfoldable pub last_slash : ℕ → List ℕ → Option ℕ
last_slash zero s = none
last_slash (suc n) s = let rest = last_slash n s in if get_or s n 0 == slash then some n else rest

-- The name and the path that is left, of a path with its last slash at `i`; `none` is a failed
-- assertion.
unfoldable pub split_at : Option ℕ → List ℕ → Option (List ℕ × List ℕ)
unfolding append pop
split_at none s = none
split_at (some i) s =
    let base = append max_file_name_length [] (drop (i + 1) s) in
    let rest = pop (length base + 1) s in some (base, if length rest == 0 then slash ∷ [] else rest)

unfoldable pub basename : List ℕ → Option (List ℕ × List ℕ)
unfolding last_slash split_at same_string
basename s =
    if (length s == 0) || not (get_or s 0 0 == slash)
    then none
    else if same_string s (slash ∷ [])
    then some (slash ∷ [], s)
    else split_at (last_slash (length s) s) s
