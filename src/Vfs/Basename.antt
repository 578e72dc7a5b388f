-- ===== src/Vfs/Basename.antt =====
-- `basename` of src/kernel/src/filesystem/vfs.cc on the paths that `canonicalise_path` gives.
use rikai_os.Base.{
  ℕ, zero, suc, refl, sym, ap, false, not, some, List, [], arith, if◌then◌else◌, ◌+◌, ◌-◌, ◌≤◌, ◌<◌,
  ◌≡◌, ◌∙◌, ◌≢◌, ◌||◌, ◌∷◌, ◌++◌, ◌==◌, leb, if-true, if-false, and-false_right, ==_ne, length,
  get_or, take, drop, length-append, NotIn,
}
use rikai_os.Vfs.Path.{
  max_file_name_length, slash, append, pop, same_string, last_slash, split_at, basename,
}
use rikai_os.Vfs.Render.{path_of, render, Name, append_lem, length-path_of}

get_or-append : (xs ys : List ℕ) (k : ℕ) → get_or (xs ++ ys) (length xs + k) 0 ≡ get_or ys k 0
get_or-append [] ys k = ap (λ n. get_or ys n 0) {x = 0 + k} {y = k} (omega arith)
get_or-append (x ∷ xs) ys k =
    ap (λ n. get_or (x ∷ xs ++ ys) n 0) {x = suc (length xs) + k} {y = suc (length xs + k)}
      (omega arith)
    ∙ get_or-append xs ys k

NotIn-get : (w : List ℕ) (k : ℕ) → NotIn slash w → k < length w → get_or w k 0 ≢ slash
NotIn-get [] k h p = absurd (omega arith)
NotIn-get (x ∷ w) zero h p = λ e. h.0 (sym e)
NotIn-get (x ∷ w) (suc k) h p = NotIn-get w k h.1 (omega arith)

last_slash-name :
    (k : ℕ) (xs w : List ℕ)
    → NotIn slash w
    → k ≤ length w
    → last_slash (suc (length xs + k)) (xs ++ slash ∷ w) ≡ some (length xs)
unfolding last_slash
last_slash-name zero xs w h p =
    if-true _ _ (ap (λ c. c == slash) (get_or-append xs (slash ∷ w) 0))
    ∙ ap some {x = length xs + 0} {y = length xs} (omega arith)
last_slash-name (suc k) xs w h p =
    if-false _ _ (
      ap (λ c. c == slash) (get_or-append xs (slash ∷ w) (suc k))
      ∙ ==_ne _ slash (NotIn-get w k h (omega arith)))
    ∙ ap (λ n. last_slash n (xs ++ slash ∷ w)) {x = length xs + suc k} {y = suc (length xs + k)}
        (omega arith)
    ∙ last_slash-name k xs w h (omega arith)

drop-append : (xs ys : List ℕ) (c : ℕ) → drop (length xs + 1) (xs ++ c ∷ ys) ≡ ys
drop-append [] ys c = refl
drop-append (x ∷ xs) ys c =
    ap (λ n. drop n (x ∷ xs ++ c ∷ ys)) {x = suc (length xs) + 1} {y = suc (length xs + 1)}
      (omega arith)
    ∙ drop-append xs ys c

take_all : (xs ys : List ℕ) → take (length xs) (xs ++ ys) ≡ xs
take_all [] ys = refl
take_all (x ∷ xs) ys = ap (λ t. x ∷ t) (take_all xs ys)

pop-name : (xs w : List ℕ) → pop (length w + 1) (xs ++ slash ∷ w) ≡ xs
unfolding pop
pop-name [] w = if-true {b = leb (suc (length w)) (length w + 1)} _ _ (ground arith)
pop-name (x ∷ xs) w =
    let l = length-append (x ∷ xs) (slash ∷ w) in
    if-false {b = leb (length (x ∷ xs ++ slash ∷ w)) (length w + 1)} _ _ (ground (arith, l))
    ∙ ap (λ n. take n (x ∷ xs ++ slash ∷ w)) {x = length (x ∷ xs ++ slash ∷ w) - (length w + 1)}
        {y = length (x ∷ xs)} (omega (arith, l))
    ∙ take_all (x ∷ xs) (slash ∷ w)

-- The rest of the path, or the root.
or_root : List ℕ → List ℕ
or_root rest = if length rest == 0 then slash ∷ [] else rest

or_root-render : (ns : List (List ℕ)) → or_root (path_of ns) ≡ render ns
unfolding or_root render path_of
or_root-render [] = refl
or_root-render (n ∷ ns) =
    if-false {b = length (path_of (n ∷ ns)) == 0} _ _ (ground (arith, length-path_of n ns))

split_at-render :
    (n : List ℕ) (ns : List (List ℕ))
    → length n ≤ max_file_name_length
    → split_at (some (length (path_of ns))) (render (n ∷ ns)) ≡ some (n, render ns)
unfolding split_at render path_of or_root
split_at-render n ns h =
    let base = append_lem max_file_name_length [] n (omega arith) in
    ap
      (λ t. some (
        append max_file_name_length [] t,
        or_root (pop (length (append max_file_name_length [] t) + 1) (path_of ns ++ slash ∷ n)),
      ))
      (drop-append (path_of ns) n slash)
    ∙ ap (λ t. some (t, or_root (pop (length t + 1) (path_of ns ++ slash ∷ n)))) base
    ∙ ap (λ t. some (n, or_root t)) (pop-name (path_of ns) n)
    ∙ ap (λ t. some (n, t)) (or_root-render ns)

pub same_string-length : (a b : List ℕ) → length a ≢ length b → same_string a b ≡ false
unfolding same_string
same_string-length [] [] h = absurd (h refl)
same_string-length [] (y ∷ b) h = refl
same_string-length (x ∷ a) [] h = refl
same_string-length (x ∷ a) (y ∷ b) h =
    and-false_right (x == y) (same_string-length a b (λ e. h (ap suc e)))

path_of-first : (n : List ℕ) (ns : List (List ℕ)) → get_or (path_of (n ∷ ns)) 0 0 ≡ slash
unfolding path_of
path_of-first n [] = refl
path_of-first n (m ∷ ns) = first-append (path_of (m ∷ ns)) (slash ∷ n) (path_of-first m ns)
  where
    first-append : (xs ys : List ℕ) → get_or xs 0 0 ≡ slash → get_or (xs ++ ys) 0 0 ≡ slash
    first-append [] ys e = absurd (omega (arith, e))
    first-append (x ∷ xs) ys e = e

-- On the path of at least one name, the innermost of at most 64 characters, `basename` passes its
-- assertions and gives that name, and the path of the names around it is left.
pub basename-render :
    (n : List ℕ) (ns : List (List ℕ))
    → Name n
    → length n ≤ max_file_name_length
    → basename (render (n ∷ ns)) ≡ some (n, render ns)
unfolding basename render
basename-render n ns h hn =
    let l = length-path_of n ns in
    if-false {b = (length (path_of (n ∷ ns)) == 0) || not (get_or (path_of (n ∷ ns)) 0 0 == slash)}
      _ _ (ground (arith, l, path_of-first n ns))
    ∙ if-false _ _ (same_string-length (path_of (n ∷ ns)) (slash ∷ []) (omega (arith, l, h.0)))
    ∙ ap (λ o. split_at o (path_of (n ∷ ns))) (found n ns h.1)
    ∙ split_at-render n ns hn
  where
    found :
        (n : List ℕ) (ns : List (List ℕ))
        → NotIn slash n
        → last_slash (length (path_of (n ∷ ns))) (path_of (n ∷ ns)) ≡ some (length (path_of ns))
    found n ns h =
        ap (λ k. last_slash k (path_of (n ∷ ns))) {x = length (path_of (n ∷ ns))}
          {y = suc (length (path_of ns) + length n)} (omega (arith, length-path_of n ns))
        ∙ last_slash-name (length n) (path_of ns) n h (omega arith)
