-- ===== src/Vfs/Render.antt =====
-- Paths as stacks of names, the innermost first, and what `pop_path_component` and `push_component` of
-- src/kernel/src/filesystem/vfs.cc do to them.
use rikai_os.Base.{
  ℕ, zero, suc, refl, sym, ap, inl, inr, false, List, [], arith, if◌then◌else◌, ◌+◌, ◌-◌, ◌≤◌, ◌<◌,
  ◌≡◌, ◌∙◌, ◌⊎◌, ◌∷◌, ◌++◌, ◌==◌, ltb, leb, if-true, if-false, ==_ne, length, take, length-append,
  All, last?, last?-append, NotIn,
}
use mathlib.Core.Path.{subst}
use mathlib.Core.List.{append_assoc, append-nil}
use rikai_os.Vfs.Path.{
  slash, push_back, append, pop, is_slash, pop_to_slash, pop_last, pop_path_component,
}

unfoldable pub path_of : List (List ℕ) → List ℕ
path_of [] = []
path_of (n ∷ ns) = path_of ns ++ slash ∷ n

-- The text of the path with these names.
unfoldable pub render : List (List ℕ) → List ℕ
unfolding path_of
render [] = slash ∷ []
render (n ∷ ns) = path_of (n ∷ ns)

-- A name is not empty and has no slash.
abbrev pub Name : List ℕ → Type 0
Name n = (0 < length n) × NotIn slash n

abbrev pub Names : List (List ℕ) → Type 0
Names ns = All Name ns

-- A list is empty or has a last element.
pub last-cases : (w : List ℕ) → (w ≡ []) ⊎ ((u : List ℕ) × (d : ℕ) × (w ≡ u ++ d ∷ []))
last-cases [] = inl refl
last-cases (x ∷ xs) = inr (elim (last-cases xs) [
  | inl e ↦ ([], x, ap (λ t. x ∷ t) e)
  | inr (u, d, e) ↦ (x ∷ u, d, ap (λ t. x ∷ t) e)
])

take-append : (xs ys : List ℕ) → take (length xs) (xs ++ ys) ≡ xs
take-append [] [] = refl
take-append [] (y ∷ ys) = refl
take-append (x ∷ xs) ys = ap (λ t. x ∷ t) (take-append xs ys)

pub pop-append : (xs : List ℕ) (d : ℕ) → pop 1 (xs ++ d ∷ []) ≡ xs
unfolding pop
pop-append [] d = refl
pop-append (x ∷ xs) d =
    if-false {b = leb (length (x ∷ xs ++ d ∷ [])) 1} _ _ (ground (arith, length-append xs (d ∷ [])))
    ∙ ap (λ n. take n (x ∷ xs ++ d ∷ [])) {x = length (x ∷ xs ++ d ∷ []) - 1} {y = length (x ∷ xs)}
        (omega (arith, length-append xs (d ∷ [])))
    ∙ take-append (x ∷ xs) (d ∷ [])

pub is_slash-last : (xs : List ℕ) (d : ℕ) → is_slash (last? (xs ++ d ∷ [])) ≡ (d == slash)
unfolding is_slash
is_slash-last xs d = ap is_slash (last?-append xs d)

NotIn-append : (a : ℕ) (xs ys : List ℕ) → NotIn a (xs ++ ys) → NotIn a xs × NotIn a ys
NotIn-append a [] ys h = (tt, h)
NotIn-append a (x ∷ xs) ys h = let r = NotIn-append a xs ys h.1 in ((h.0, r.0), r.1)

-- The loop takes off a name without a slash.
pub pop_to_slash-name :
    (n : ℕ) (xs w : List ℕ)
    → length w ≤ n
    → NotIn slash w
    → pop_to_slash n (xs ++ slash ∷ w) ≡ xs ++ slash ∷ []
unfolding pop_to_slash
pop_to_slash-name zero xs [] h ne = refl
pop_to_slash-name zero xs (d ∷ w) h ne = absurd (omega arith)
pop_to_slash-name (suc n) xs w h ne = elim (last-cases w) [
  | inl e ↦ rw e (if-true _ _ (is_slash-last xs slash))
  | inr (u, d, e) ↦
      let ne' = NotIn-append slash u (d ∷ []) (subst (NotIn slash) e ne) in
      let whole = ap (λ t. xs ++ slash ∷ t) e ∙ sym (append_assoc xs (slash ∷ u) (d ∷ [])) in
      let shorter = ap length e ∙ length-append u (d ∷ []) in
      ap (pop_to_slash (suc n)) whole
      ∙ if-false _ _ (is_slash-last (xs ++ slash ∷ u) d ∙ ==_ne d slash (λ e. ne'.1.0 (sym e)))
      ∙ ap (pop_to_slash n) (pop-append (xs ++ slash ∷ u) d)
      ∙ pop_to_slash-name n xs u (omega (arith, shorter)) ne'.0
]

-- A string with room takes all of another one.
pub append_lem : (N : ℕ) (s cs : List ℕ) → length s + length cs ≤ N → append N s cs ≡ s ++ cs
unfolding append push_back
append_lem N s [] h = sym (append-nil s)
append_lem N s (c ∷ cs) h =
    ap (λ t. append N t cs) (if-true {b = ltb (length s) N} _ _ (ground arith))
    ∙ append_lem N (s ++ c ∷ []) cs (omega (arith, length-append s (c ∷ [])))
    ∙ append_assoc s (c ∷ []) cs

-- The path around the innermost name.
unfoldable pub outer : List (List ℕ) → List (List ℕ)
outer [] = []
outer (n ∷ ns) = ns

-- The last character of the path of a name is not a slash.
pub path_of-last :
    (n : List ℕ) (ns : List (List ℕ)) → Name n → is_slash (last? (path_of (n ∷ ns))) ≡ false
unfolding path_of
path_of-last n ns h = elim (last-cases n) [
  | inl e ↦ absurd (omega (arith, h.0, ap length e))
  | inr (u, d, e) ↦
      ap (λ t. is_slash (last? (path_of ns ++ slash ∷ t))) e
      ∙ ap (λ t. is_slash (last? t)) (sym (append_assoc (path_of ns) (slash ∷ u) (d ∷ [])))
      ∙ is_slash-last (path_of ns ++ slash ∷ u) d
      ∙ ==_ne d slash
          (λ e'. (NotIn-append slash u (d ∷ []) (subst (NotIn slash) e h.1)).1.0 (sym e'))
]

pub length-path_of :
    (n : List ℕ) (ns : List (List ℕ))
    → length (path_of (n ∷ ns)) ≡ length (path_of ns) + 1 + length n
unfolding path_of
length-path_of n ns = length-append (path_of ns) (slash ∷ n) ∙ omega arith

-- After the last name, the slash before it is taken off, but not the one of the root.
drop_slash : List ℕ → List ℕ
drop_slash s = if ltb 1 (length s) then pop 1 s else s

drop_slash-render : (ns : List (List ℕ)) → drop_slash (path_of ns ++ slash ∷ []) ≡ render ns
unfolding drop_slash render path_of
drop_slash-render [] = refl
drop_slash-render (n ∷ ns) =
    if-true {b = ltb 1 (length (path_of (n ∷ ns) ++ slash ∷ []))} _ _
      (ground (arith, length-path_of n ns, length-append (path_of (n ∷ ns)) (slash ∷ [])))
    ∙ pop-append (path_of (n ∷ ns)) slash

pub pop_path_component-render :
    (ns : List (List ℕ)) → Names ns → pop_path_component (render ns) ≡ render (outer ns)
unfolding pop_path_component pop_last render outer drop_slash
pop_path_component-render [] h = refl
pop_path_component-render (n ∷ ns) h =
    if-false {b = leb (length (path_of (n ∷ ns))) 1} _ _
      (ground (arith, length-path_of n ns, h.0.0))
    ∙ ap (λ t. drop_slash (pop_to_slash (length t) t)) (if-false _ _ (path_of-last n ns h.0))
    ∙ ap drop_slash (
        pop_to_slash-name (length (path_of (n ∷ ns))) (path_of ns) n
          (omega (arith, length-path_of n ns)) h.0.1)
    ∙ drop_slash-render ns
