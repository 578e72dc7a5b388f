-- ===== src/Vfs/Mount.antt =====
-- `mount` of src/kernel/src/filesystem/vfs.cc, and what get_mount finds afterwards.
use rikai_os.Base.{
  ℕ, zero, suc, refl, sym, ap, inl, inr, Bool, true, false, Option, none, some, List, [], arith,
  if◌then◌else◌, ◌+◌, ◌≤◌, ◌<◌, ◌≡◌, ◌∙◌, ◌⊎◌, ◌&&◌, ◌∷◌, ◌==◌, if-true, if-false, Bool-cases,
  length, take, update,
}
use mathlib.Core.Path.{subst, ap₂}
use mathlib.Core.Option.{some-injective, none-ne-some}
use rikai_os.Vfs.Path.{max_file_name_length, same_string}
use rikai_os.Vfs.Lookup.{Mount, max_mounts, named, get_mount_from, get_mount}
use rikai_os.Vfs.Table.{
  Errno, err_success, err_misc, err_invalid, err_limit, err_bad_fd, err_nospace, err_nomem, err_io,
  err_exists, err_not_exists, err_type, err_timeout, err_perm, err_not_supported, err_in_use,
}

-- What the loop of `mount` finds: the name in use, or the first free entry.
pub data Scan : Type 0 where
  in_use : Scan
  room : Option ℕ → Scan

-- `mount_i` behind the entry `i`.
unfoldable pub slot_after : Option Mount → Option ℕ → ℕ → Option ℕ
slot_after (some m) slot i = slot
slot_after none (some k) i = some k
slot_after none none i = some i

-- The loop from the entry `i` on; `n` are left.
unfoldable pub scan : ℕ → ℕ → Option ℕ → (ℕ → Option Mount) → List ℕ → Scan
unfolding slot_after named
scan zero i slot mounts name = room slot
scan (suc n) i slot mounts name =
    let rest = scan n (i + 1) (slot_after (mounts i) slot i) mounts name in
    if named (mounts i) name then in_use else rest

-- `memory` says whether `new` gives an object; the name in it is cut off.
unfoldable pub mount_at : Scan → Bool → ℕ → List ℕ → (ℕ → Option Mount) → Errno × (ℕ → Option Mount)
mount_at in_use memory fs name mounts = (err_exists, mounts)
mount_at (room none) memory fs name mounts = (err_limit, mounts)
mount_at (room (some k)) false fs name mounts = (err_nomem, mounts)
mount_at (room (some k)) true fs name mounts = (
  err_success,
  update mounts k (some (record { name = take max_file_name_length name; fs = fs })),
)

unfoldable pub mount : Bool → ℕ → List ℕ → (ℕ → Option Mount) → Errno × (ℕ → Option Mount)
unfolding mount_at scan
mount memory fs name mounts = mount_at (scan max_mounts 0 none mounts name) memory fs name mounts

-- A free entry, and a name that is not in use.
scan-room :
    (n i k : ℕ) (slot : Option ℕ) (mounts : ℕ → Option Mount) (name : List ℕ)
    → scan n i slot mounts name ≡ room (some k)
    → ((slot ≡ some k) ⊎ ((i ≤ k) × (k < i + n) × (mounts k ≡ none)))
      × ((j : ℕ) → i ≤ j → j < i + n → named (mounts j) name ≡ false)
unfolding scan
scan-room zero i k slot mounts name e = (inl (slot_of e), λ j lo hi. absurd (omega (arith, lo, hi)))
  where
    room_slot : Scan → Option ℕ
    room_slot in_use = none
    room_slot (room o) = o

    slot_of : {o : Option ℕ} → room o ≡ room (some k) → o ≡ some k
    slot_of f = ap room_slot f
scan-room (suc n) i k slot mounts name e = elim (Bool-cases (named (mounts i) name)) [
  | inl f ↦ absurd (in_use-ne (sym (if-true _ _ f) ∙ e))
  | inr f ↦
      let (a, b) =
        scan-room n (i + 1) k (slot_after (mounts i) slot i) mounts name
          (sym (if-false _ _ f) ∙ e) in
      (
        before (mounts i) slot refl a,
        λ j lo hi. elim (Bool-cases (i == j)) [
          | inl g ↦ ap (λ t. named (mounts t) name) {x = j} {y = i} (ground (arith, g)) ∙ f
          | inr g ↦ b j (ground (arith, g, lo)) (omega (arith, hi))
        ],
      )
]
  where
    in_use-ne : {o : Option ℕ} → ¬ (in_use ≡ room o)
    in_use-ne f = true_false (ap is_in_use f)
      where
        is_in_use : Scan → Bool
        is_in_use in_use = true
        is_in_use (room o) = false

        true_false : ¬ (true ≡ false)
        true_false g = ground arith

    before :
        (m : Option Mount) (slot : Option ℕ)
        → mounts i ≡ m
        → (slot_after m slot i ≡ some k) ⊎ ((i + 1 ≤ k) × (k < i + 1 + n) × (mounts k ≡ none))
        → (slot ≡ some k) ⊎ ((i ≤ k) × (k < i + suc n) × (mounts k ≡ none))
    before m slot f (inr (lo, hi, z)) = inr (omega (arith, lo), omega (arith, hi), z)
    before (some m) slot f (inl g) = inl g
    before none (some x) f (inl g) = inl g
    before none none f (inl g) =
        let same = some-injective i k g in
        inr (omega (arith, same), omega (arith, same), ap mounts (sym same) ∙ f)

same_string-equal : (a b : List ℕ) → same_string a b ≡ true → a ≡ b
unfolding same_string
same_string-equal [] [] e = refl
same_string-equal [] (y ∷ ys) e = absurd (ground (arith, e))
same_string-equal (x ∷ xs) [] e = absurd (ground (arith, e))
same_string-equal (x ∷ xs) (y ∷ ys) e =
    ap₂ (λ t ts. t ∷ ts) (head_same (x == y) refl e)
      (same_string-equal xs ys (tail_same (x == y) e))
  where
    tail_same : (b : Bool) → (b && same_string xs ys) ≡ true → same_string xs ys ≡ true
    tail_same true f = f
    tail_same false f = absurd (ground (arith, f))

    head_same : (b : Bool) → (x == y) ≡ b → (b && same_string xs ys) ≡ true → x ≡ y
    head_same true f g = ground (arith, f)
    head_same false f g = absurd (ground (arith, g))

module _ (mounts : ℕ → Option Mount) (k : ℕ) (new : Mount) (q : List ℕ)
    (free : mounts k ≡ none) where
  after : ℕ → Option Mount
  after = update mounts k (some new)

  get_mount_from-new :
      (n i : ℕ)
      → i ≤ k
      → k < i + n
      → same_string new.name q ≡ true
      → ((j : ℕ) → i ≤ j → j < i + n → named (mounts j) q ≡ false)
      → get_mount_from n i after q ≡ some new
  unfolding get_mount_from named after
  get_mount_from-new zero i lo hi e h = absurd (omega (arith, lo, hi))
  get_mount_from-new (suc n) i lo hi e h = elim (Bool-cases (k == i)) [
    | inl f ↦
        let here : after i ≡ some new = if-true _ _ f in
        if-true _ _ (ap (λ m. named m q) here ∙ e) ∙ here
    | inr f ↦
        if-false _ _ (ap (λ m. named m q) (if-false _ _ f) ∙ h i (omega arith) (omega arith))
        ∙ get_mount_from-new n (i + 1) (ground (arith, f, lo)) (omega (arith, hi)) e
            (λ j a b. h j (omega (arith, a)) (omega (arith, b)))
  ]

  get_mount_from-other :
      (n i : ℕ)
      → same_string new.name q ≡ false
      → get_mount_from n i after q ≡ get_mount_from n i mounts q
  unfolding get_mount_from named after
  get_mount_from-other zero i e = refl
  get_mount_from-other (suc n) i e = elim (Bool-cases (k == i)) [
    | inl f ↦
        if-false _ _ (ap (λ m. named m q) (if-true _ _ f) ∙ e)
        ∙ get_mount_from-other n (i + 1) e
        ∙ sym (
            if-false _ _
              (ap (λ m. named m q) (ap mounts {x = i} {y = k} (ground (arith, f)) ∙ free)))
    | inr f ↦
        ap (λ m. if named m q then m else get_mount_from n (i + 1) after q) (if-false _ _ f)
        ∙ ap (λ r. if named (mounts i) q then mounts i else r) (get_mount_from-other n (i + 1) e)
  ]

is_success : Errno → Bool
is_success err_success = true
is_success err_misc = false
is_success err_invalid = false
is_success err_limit = false
is_success err_bad_fd = false
is_success err_nospace = false
is_success err_nomem = false
is_success err_io = false
is_success err_exists = false
is_success err_not_exists = false
is_success err_type = false
is_success err_timeout = false
is_success err_perm = false
is_success err_not_supported = false
is_success err_in_use = false

whole_name : (n : ℕ) (name : List ℕ) → length name ≤ n → take n name ≡ name
whole_name zero [] h = refl
whole_name zero (c ∷ cs) h = absurd (omega (arith, h))
whole_name (suc n) [] h = refl
whole_name (suc n) (c ∷ cs) h = ap (λ t. c ∷ t) (whole_name n cs (omega (arith, h)))

mounted-get_mount :
    (k fs : ℕ) (name : List ℕ) (mounts : ℕ → Option Mount)
    → scan max_mounts 0 none mounts name ≡ room (some k)
    → (q : List ℕ)
    → get_mount (update mounts k (some (record { name = name; fs = fs }))) q
      ≡ (if same_string name q then some (record { name = name; fs = fs }) else get_mount mounts q)
unfolding get_mount after
mounted-get_mount k fs name mounts e q =
    let (a, b) = scan-room max_mounts 0 k none mounts name e in
    let (lo, hi, free) = found_free a in
    elim (Bool-cases (same_string name q)) [
      | inl f ↦
          get_mount_from-new mounts k (record { name = name; fs = fs }) q free max_mounts 0 lo hi f
            (λ j x y.
              subst (λ t. named (mounts j) t ≡ false) (same_string-equal name q f) (b j x y))
          ∙ sym (if-true _ _ f)
      | inr f ↦
          get_mount_from-other mounts k (record { name = name; fs = fs }) q free max_mounts 0 f
          ∙ sym (if-false _ _ f)
    ]
  where
    found_free :
        (none ≡ some k) ⊎ ((0 ≤ k) × (k < 0 + max_mounts) × (mounts k ≡ none))
        → (0 ≤ k) × (k < 0 + max_mounts) × (mounts k ≡ none)
    found_free (inl f) = absurd (none-ne-some k f)
    found_free (inr f) = f

-- When `mount` succeeds under a name that fits, get_mount finds the new filesystem by that name, and by
-- every other name what it found before.
pub mount-get_mount :
    (memory : Bool) (fs : ℕ) (name : List ℕ) (mounts mounts' : ℕ → Option Mount)
    → length name ≤ max_file_name_length
    → mount memory fs name mounts ≡ (err_success, mounts')
    → (q : List ℕ)
    → get_mount mounts' q
      ≡ (if same_string name q then some (record { name = name; fs = fs }) else get_mount mounts q)
unfolding mount mount_at is_success
mount-get_mount memory fs name mounts mounts' h e q =
    by_scan (scan max_mounts 0 none mounts name) memory refl e
  where
    failed :
        {A : Type 0} (r : Errno × (ℕ → Option Mount))
        → is_success r.0 ≡ false
        → r ≡ (err_success, mounts')
        → A
    failed x f g =
        absurd (false_true (sym f ∙ ap (λ (r : Errno × (ℕ → Option Mount)). is_success r.0) g))
      where
        false_true : ¬ (false ≡ true)
        false_true z = ground arith

    by_scan :
        (r : Scan) (b : Bool)
        → scan max_mounts 0 none mounts name ≡ r
        → mount_at r b fs name mounts ≡ (err_success, mounts')
        → get_mount mounts' q ≡ (
            if same_string name q
            then some (record { name = name; fs = fs })
            else get_mount mounts q)
    by_scan in_use b f g = failed (err_exists, mounts) refl g
    by_scan (room none) b f g = failed (err_limit, mounts) refl g
    by_scan (room (some k)) false f g = failed (err_nomem, mounts) refl g
    by_scan (room (some k)) true f g =
        ap (λ t. get_mount t q)
          (sym (ap (λ (r : Errno × (ℕ → Option Mount)). r.1) g)
            ∙ ap (λ n. update mounts k (some (record { name = n; fs = fs })))
                (whole_name max_file_name_length name h))
        ∙ mounted-get_mount k fs name mounts f q
