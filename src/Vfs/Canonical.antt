-- ===== src/Vfs/Canonical.antt =====
-- `canonicalise_path` of src/kernel/src/filesystem/vfs.cc against the names of the path.
use rikai_os.Base.{
  ℕ, zero, suc, refl, sym, ap, inl, inr, Bool, true, false, not, List, [], arith, if◌then◌else◌,
  ◌+◌, ◌≤◌, ◌≡◌, ◌∙◌, ◌||◌, ◌∷◌, ◌++◌, ◌==◌, ltb, if-true, if-false, not-true, Bool-cases, length,
  take, length-append, length-take, last?, All-append, NotIn,
}
use mathlib.Core.List.{append_assoc}
use rikai_os.Vfs.Path.{
  max_path_length, max_file_name_length, slash, dot, push_back, append, same_string, is_slash,
  pop_path_component, with_slash, push_component, canonicalise_rest, canonicalise_path,
}
use rikai_os.Vfs.Render.{
  path_of, render, Names, outer, pop_path_component-render, append_lem, path_of-last,
  length-path_of,
}

-- The path after a step by the name `w`: ".." leads out, "." and the empty name stay.
unfoldable pub enter : List (List ℕ) → List ℕ → List (List ℕ)
enter ns w =
    if same_string w (dot ∷ dot ∷ [])
    then outer ns
    else if same_string w (dot ∷ [])
    then ns
    else if length w == 0
    then ns
    else w ∷ ns

unfoldable pub enter_all : List (List ℕ) → List (List ℕ) → List (List ℕ)
enter_all ns [] = ns
enter_all ns (w ∷ ws) = enter_all (enter ns w) ws

-- The pieces of a text between its slashes, each cut at 64 characters; `w` stands before the text.
unfoldable pub split_from : List ℕ → List ℕ → List (List ℕ)
split_from w [] = take max_file_name_length w ∷ []
split_from w (c ∷ cs) =
    let next = split_from [] cs in
    let same = split_from (w ++ c ∷ []) cs in
    if c == slash then take max_file_name_length w ∷ next else same

-- The text `p` is the path of the names `ns`, with at most `k` characters.
record IsPath (k : ℕ) (p : List ℕ) (ns : List (List ℕ)) : Type 0 where
  text : p ≡ render ns
  names : Names ns
  bound : length (render ns) ≤ k

-- Two texts chosen by the same tests are related when the choices are.
same_choice {ℓ ℓ' κ} :
    {A : Type ℓ} {B : Type ℓ'} (R : A → B → Type κ) (a b c : Bool) {x y z : A} {x' y' z' : B}
    → R x x'
    → R y y'
    → (c ≡ false → R z z')
    → R
        (if a then x else if b then y else if c then y else z)
        (if a then x' else if b then y' else if c then y' else z')
same_choice R true b c r s t = r
same_choice R false true c r s t = s
same_choice R false false true r s t = s
same_choice R false false false r s t = t refl

outer-IsPath :
    (k : ℕ) (ns : List (List ℕ))
    → 1 ≤ k
    → Names ns
    → length (render ns) ≤ k
    → IsPath k (pop_path_component (render ns)) (outer ns)
unfolding outer render
outer-IsPath k [] hk h b = record { text = pop_path_component-render [] h; names = tt; bound = hk }
outer-IsPath k (n ∷ []) hk h b = record {
  text = pop_path_component-render (n ∷ []) h;
  names = tt;
  bound = hk;
}
outer-IsPath k (n ∷ m ∷ ns) hk h b = record {
  text = pop_path_component-render (n ∷ m ∷ ns) h;
  names = h.1;
  bound = omega (arith, length-path_of n (m ∷ ns));
}

appended :
    (ns : List (List ℕ)) (w : List ℕ)
    → Names ns
    → length (render ns) + 1 + length w ≤ max_path_length
    → append max_path_length (with_slash (render ns)) w ≡ path_of (w ∷ ns)
unfolding render path_of with_slash push_back is_slash
appended [] w h b = append_lem max_path_length (slash ∷ []) w (omega arith)
appended (n ∷ ns) w h b =
    ap (λ t. append max_path_length t w)
      (if-true {b = (length p == 0) || not (is_slash (last? p))} _ _
          (or_true (length p == 0) (not-true (path_of-last n ns h.0)))
        ∙ if-true {b = ltb (length p) max_path_length} _ _ (ground arith))
    ∙ append_lem max_path_length (p ++ slash ∷ []) w (omega (arith, length-append p (slash ∷ [])))
    ∙ append_assoc p (slash ∷ []) w
  where
    p : List ℕ
    p = path_of (n ∷ ns)

    or_true : (a : Bool) {b : Bool} → b ≡ true → (a || b) ≡ true
    or_true true e = refl
    or_true false e = e

length-render_cons :
    (w : List ℕ) (ns : List (List ℕ))
    → length (path_of (w ∷ ns)) ≤ length (render ns) + 1 + length w
unfolding render path_of
length-render_cons w [] = omega arith
length-render_cons w (n ∷ ns) = omega (arith, length-path_of w (n ∷ ns))

push_component-IsPath :
    (ns : List (List ℕ)) (w : List ℕ)
    → Names ns
    → NotIn slash w
    → length (render ns) + 1 + length w ≤ max_path_length
    → IsPath (length (render ns) + 1 + length w) (push_component (render ns) w) (enter ns w)
unfolding push_component enter render
push_component-IsPath ns w h hw b =
    same_choice (IsPath (length (render ns) + 1 + length w)) (same_string w (dot ∷ dot ∷ []))
      (same_string w (dot ∷ [])) (length w == 0) (outer-IsPath _ ns (omega arith) h (omega arith))
      (record { text = refl; names = h; bound = omega arith })
      (λ e. record {
        text = appended ns w h b;
        names = ((ground arith, hw), h);
        bound = length-render_cons w ns;
      })

NotIn-take : (a n : ℕ) (w : List ℕ) → NotIn a w → NotIn a (take n w)
NotIn-take a zero w h = tt
NotIn-take a (suc n) [] h = tt
NotIn-take a (suc n) (x ∷ w) h = (h.0, NotIn-take a n w h.1)

take_nil : (n : ℕ) → take {A = ℕ} n [] ≡ []
take_nil zero = refl
take_nil (suc n) = refl

take-push : (n : ℕ) (w : List ℕ) (c : ℕ) → push_back n (take n w) c ≡ take n (w ++ c ∷ [])
unfolding push_back
take-push zero w c = refl
take-push (suc n) [] c =
    if-true {b = ltb 0 (suc n)} _ _ (ground arith) ∙ ap (λ t. c ∷ t) (sym (take_nil n))
take-push (suc n) (x ∷ w) c = elim (Bool-cases (ltb (length (take n w)) n)) [
  | inl e ↦
      if-true {b = ltb (suc (length (take n w))) (suc n)} _ _ (ground arith)
      ∙ ap (λ t. x ∷ t) (sym (if-true _ _ e) ∙ take-push n w c)
  | inr e ↦
      if-false {b = ltb (suc (length (take n w))) (suc n)} _ _ (ground arith)
      ∙ ap (λ t. x ∷ t) (sym (if-false _ _ e) ∙ take-push n w c)
]

Canonical : List ℕ → List (List ℕ) → Type 0
Canonical p ns = IsPath max_path_length p ns

canonicalise_rest-push :
    (ns : List (List ℕ)) (w : List ℕ)
    → Names ns
    → NotIn slash w
    → length (render ns) + 1 + length w ≤ max_path_length
    → IsPath
        (length (render ns) + 1 + length w)
        (push_component (render ns) (take max_file_name_length w))
        (enter ns (take max_file_name_length w))
canonicalise_rest-push ns w h hw b =
    let short = length-take max_file_name_length w in
    let r =
      push_component-IsPath ns (take max_file_name_length w) h
        (NotIn-take slash max_file_name_length w hw) (omega (arith, short)) in
    record { text = r.text; names = r.names; bound = omega (arith, short, r.bound) }

canonicalise_rest-Canonical :
    (ns : List (List ℕ)) (w cs : List ℕ)
    → Names ns
    → NotIn slash w
    → length (render ns) + 1 + length w + length cs ≤ max_path_length
    → Canonical
        (canonicalise_rest (render ns) (take max_file_name_length w) cs)
        (enter_all ns (split_from w cs))
unfolding Canonical canonicalise_rest enter_all split_from
canonicalise_rest-Canonical ns w [] h hw b =
    let r = canonicalise_rest-push ns w h hw (omega arith) in
    record { text = r.text; names = r.names; bound = omega (arith, r.bound) }
canonicalise_rest-Canonical ns w (c ∷ cs) h hw b =
    let short = length-take max_file_name_length w in
    let r = canonicalise_rest-push ns w h hw (omega arith) in
    let next =
      canonicalise_rest-Canonical (enter ns (take max_file_name_length w)) [] cs r.names tt
        (omega (arith, r.bound)) in
    elim (Bool-cases (c == slash)) [
      | inl e ↦ rw (e, r.text) next
      | inr e ↦
          rw (e, take-push max_file_name_length w c)
            (canonicalise_rest-Canonical ns (w ++ c ∷ []) cs h
              (All-append _ w (c ∷ []) hw ((ground arith), tt))
              (omega (arith, length-append w (c ∷ []))))
    ]

-- Where a path starts: at the root, or in the working directory.
unfoldable pub start : List (List ℕ) → List ℕ → List (List ℕ)
start ws [] = []
start ws (c ∷ cs) = if c == slash then [] else ws

started :
    (ws : List (List ℕ)) (c : ℕ) (cs : List ℕ)
    → Names ws
    → length (render ws) + 1 + length (c ∷ cs) ≤ max_path_length
    → (b : Bool) → (c == slash) ≡ b
    → Canonical
        (if b
          then canonicalise_rest (slash ∷ []) [] cs
          else canonicalise_rest (append max_path_length [] (render ws)) (c ∷ []) cs)
        (enter_all
          (if b then [] else ws)
          (if b then [] ∷ split_from [] cs else split_from (c ∷ []) cs))
unfolding render enter_all enter same_string
started ws c cs h b true e = canonicalise_rest-Canonical [] [] cs tt tt (omega arith)
started ws c cs h b false e =
    rw (append_lem max_path_length [] (render ws) (omega arith))
      (canonicalise_rest-Canonical ws (c ∷ []) cs h (ground arith, tt) (omega arith))

-- Where the texts of the working directory and of the path fit in 256 characters, with one to spare,
-- `canonicalise_path` gives the text of the path that is reached from the root, or from the working
-- directory, by the pieces between slashes, each cut at 64 characters; its names are not empty and have
-- no slash.
pub canonicalise_path_lem :
    (ws : List (List ℕ)) (s : List ℕ)
    → Names ws
    → length (render ws) + 1 + length s ≤ max_path_length
    → (canonicalise_path (render ws) s ≡ render (enter_all (start ws s) (split_from [] s)))
      × Names (enter_all (start ws s) (split_from [] s))
unfolding canonicalise_path enter_all enter split_from start render Canonical push_back same_string
canonicalise_path_lem ws [] h b = (refl, tt)
canonicalise_path_lem ws (c ∷ cs) h b =
    let r = started ws c cs h b (c == slash) refl in (r.text, r.names)
