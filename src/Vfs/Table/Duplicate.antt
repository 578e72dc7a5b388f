-- ===== src/Vfs/Table/Duplicate.antt =====
-- `duplicate_fd` of src/kernel/src/filesystem/vfs.cc, and `close` of the descriptor that it gives.
use rikai_os.Base.{
  ℕ, refl, sym, ap, inl, inr, Bool, true, false, Option, none, some, arith, if◌then◌else◌, ◌<◌, ◌≡◌,
  ◌∙◌, ◌≢◌, ◌==◌, if-true, if-false, lt→ltb, ==_refl, ==_ne, Bool-cases, update,
}
use rikai_os.Vfs.Table.{
  Tables, Handle, opened, err_success, duplicate_fd, duplicate_at, duplicate_handle,
  duplicate_numbered, duplicate_into, add_behind, add_copy, handle_by_fd, alloc_handle_i,
  alloc_proc_handle_i, in_place, close, close_in, close_at, close_handle, remove_handle, clean_up,
  unlink_ends, unlink_next, unlink_prev, max_proc_files,
}
use rikai_os.Vfs.Table.Fresh.{in_place-free, alloc_handle_i-free}

-- A duplication that finds all that it needs.
pub record Duplicable (p h new i found j last : ℕ) (dest fd : Option ℕ) (s : Tables) : Type 0 where
  pub current : s.current_proc ≡ some p
  pub source : handle_by_fd p fd s ≡ some h
  pub last_one : (s.file (s.handle h).file).last_handle ≡ some last
  pub number : alloc_handle_i s ≡ some i
  pub free_fd : alloc_proc_handle_i p s ≡ some found
  pub placed : in_place p dest found s ≡ some j

module _ (p h new i found j last : ℕ) (dest fd : Option ℕ) (s : Tables)
    (d : Duplicable p h new i found j last dest fd s) where
  abbrev after : Tables
  after = add_copy p h new i j last s

  pub duplicate_fd-opened : duplicate_fd (some new) dest fd s ≡ some (opened j, after)
  unfolding duplicate_fd duplicate_at duplicate_handle duplicate_numbered duplicate_into add_behind
  duplicate_fd-opened =
      ap (λ c. duplicate_at c (some new) dest fd s) d.current
      ∙ ap (λ c. duplicate_handle c (some new) dest p s) d.source
      ∙ ap (λ c. duplicate_numbered c (alloc_proc_handle_i p s) (some new) dest p h s) d.number
      ∙ ap (λ c. duplicate_numbered (some i) c (some new) dest p h s) d.free_fd
      ∙ ap (λ c. duplicate_into c (some new) p h i s) d.placed
      ∙ ap (λ c. add_behind c p h new i j s) d.last_one

  -- Where `duplicate_fd` finds the source, the numbers it needs and memory at another place than the
  -- last handle of the file, and the source is the handle before that last one, the copy comes behind
  -- the last one and still names it as the next: the links go round.
  pub duplicate_fd-cycle :
      (s.handle h).next ≡ some last
      → new ≢ last
      → (s' : Tables) × (duplicate_fd (some new) dest fd s ≡ some (opened j, s'))
        × ((s'.handle last).next ≡ some new)
        × ((s'.handle new).next ≡ some last)
  unfolding add_copy
  duplicate_fd-cycle e ne = (
    after,
    duplicate_fd-opened,
    ap (λ (t : Handle). t.next) (if-false _ _ (==_ne new last ne) ∙ if-true _ _ (==_refl last)),
    ap (λ (t : Handle). t.next) (if-true _ _ (==_refl new))
        ∙ ap (λ (t : Handle). t.next)
            (if-false _ _ (==_ne last new (λ f. ne (sym f))) ∙ if-true _ _ (==_refl new))
        ∙ e,
  )

-- A field that both choices agree on.
if-same {ℓ ℓ'} :
    {A : Type ℓ} {B : Type ℓ'} (f : A → B) (b : Bool) (x y : A)
    → f x ≡ f y
    → f (if b then x else y) ≡ f y
if-same f true x y e = e
if-same f false x y e = refl

pub remove_handle-files :
    (h p fd : ℕ) (s : Tables)
    → (remove_handle h p fd s).files ≡ update s.files p (update (s.files p) fd none)
unfolding remove_handle clean_up unlink_ends unlink_next unlink_prev
remove_handle-files h p fd s = if-same (λ (t : Tables). t.files) _ _ _ refl

pub remove_handle-handles :
    (h p fd : ℕ) (s : Tables)
    → (remove_handle h p fd s).handles ≡ update s.handles (s.handle h).handle_i none
unfolding remove_handle clean_up unlink_ends unlink_next unlink_prev
remove_handle-handles h p fd s = if-same (λ (t : Tables). t.handles) _ _ _ refl

next-handle_i :
    (c : ℕ → Handle) (l x : ℕ) (o : Option ℕ)
    → (update c l (record (c l) { next = o }) x).handle_i ≡ (c x).handle_i
next-handle_i c l x o = elim (Bool-cases (l == x)) [
  | inl e ↦
      ap (λ (t : Handle). t.handle_i) (if-true _ _ e)
      ∙ ap (λ n. (c n).handle_i) {x = l} {y = x} (ground (arith, e))
  | inr e ↦ ap (λ (t : Handle). t.handle_i) (if-false _ _ e)
]

-- A write that is taken back.
pub write_back :
    (c : ℕ → Option ℕ) (k : ℕ) (v : Option ℕ) (j : ℕ)
    → c k ≡ none
    → update (update c k v) k none j ≡ c j
write_back c k v j e = elim (Bool-cases (k == j)) [
  | inl f ↦ if-true _ _ f ∙ sym e ∙ ap c (ground (arith, f))
  | inr f ↦ if-false _ _ f ∙ if-false _ _ f
]

-- Where `duplicate_fd` finds the source, the numbers it needs and memory, it gives a descriptor, and
-- closing that leaves the table of handles and the descriptors of the process as they were.
pub duplicate_fd-close :
    (p h new i found j last : ℕ) (dest fd : Option ℕ) (s : Tables)
    → Duplicable p h new i found j last dest fd s
    → (s' s'' : Tables) × (duplicate_fd (some new) dest fd s ≡ some (opened j, s'))
      × (close (some j) s' ≡ some (err_success, s''))
      × ((k : ℕ) → s''.files p k ≡ s.files p k)
      × ((k : ℕ) → s''.handles k ≡ s.handles k)
unfolding close close_in close_at close_handle add_copy handle_by_fd
duplicate_fd-close p h new i found j last dest fd s d = (
  s1,
  s2,
  duplicate_fd-opened p h new i found j last dest fd s d,
  closed,
  same_files,
  same_handles,
)
  where
    free : (j < max_proc_files) × (s.files p j ≡ none)
    free = in_place-free p found j dest s d.free_fd d.placed

    s1 : Tables
    s1 = add_copy p h new i j last s

    s2 : Tables
    s2 = remove_handle new p j s1

    by_fd : handle_by_fd p (some j) s1 ≡ some new
    by_fd =
        if-true _ _ (lt→ltb j max_proc_files free.0)
        ∙ ap (λ (t : ℕ → Option ℕ). t j) (if-true _ _ (==_refl p))
        ∙ if-true _ _ (==_refl j)

    closed : close (some j) s1 ≡ some (err_success, s2)
    closed =
        ap (λ c. close_in c (some j) s1) d.current ∙ ap (λ o. some (close_handle o p j s1)) by_fd

    number : (s1.handle new).handle_i ≡ i
    number =
        ap (λ (t : Handle). t.handle_i) (if-true _ _ (==_refl new))
        ∙ next-handle_i (update s.handle new (record (s.handle h) { handle_i = i; procfd = j }))
            last new (some new)
        ∙ ap (λ (t : Handle). t.handle_i) (if-true _ _ (==_refl new))

    same_files : (k : ℕ) → s2.files p k ≡ s.files p k
    same_files k =
        ap (λ (t : ℕ → ℕ → Option ℕ). t p k) (remove_handle-files new p j s1)
        ∙ ap (λ (t : ℕ → Option ℕ). t k) (if-true _ _ (==_refl p))
        ∙ ap (λ t. update t j none k) (if-true _ _ (==_refl p))
        ∙ write_back (s.files p) j (some new) k free.1

    same_handles : (k : ℕ) → s2.handles k ≡ s.handles k
    same_handles k =
        ap (λ (t : ℕ → Option ℕ). t k) (remove_handle-handles new p j s1)
        ∙ ap (λ n. update s1.handles n none k) number
        ∙ write_back s.handles i (some new) k (alloc_handle_i-free s i d.number).1
