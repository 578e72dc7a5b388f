-- ===== src/Memory/Virtual/Freed.antt =====
-- The loops of delete_address_space of src/kernel/src/memory/manager-virtual.cc: the pages of memory that
-- they free.
use rikai_os.Base.{
  ℕ, zero, suc, refl, sym, ap, inl, inr, Bool, true, false, not, arith, if◌then◌else◌, ◌+◌, ◌≤◌,
  ◌<◌, ◌≡◌, ◌∙◌, ◌⊎◌, ◌&&◌, ◌==◌, ltb, if-true, if-false, Bool-cases,
}
use mathlib.Core.Path.{subst}
use rikai_os.Bitset.{get_bit}
use rikai_os.Bitset.Bits.{get_bit-set_bit}
use rikai_os.Memory.Physical.{Pages, free_one}
use rikai_os.Memory.Virtual.{
  Vm, entry, frame_of, table_present, free_entries, free_table, free_tables,
}
use rikai_os.Memory.Virtual.Entry.{has_flag, present_bit, borrowed_bit, pte_addr, addr_page}
use rikai_os.Memory.Virtual.Unmap.{free_one-frees, free_one-stays, page_of_addr}

-- From the state `s` with the pages `pages` to `s'`, the pages of `P` become free and nothing else changes.
pub record Freed (s : Vm) (pages : Pages) (P : ℕ → Type 0) (s' : Vm) : Type 0 where
  pub rest : s' ≡ record s { pages = s'.pages }
  pub only : (q : ℕ) → get_bit q s'.pages.bitmap ≡ true → (get_bit q pages.bitmap ≡ true) ⊎ P q
  pub stays : (q : ℕ) → get_bit q pages.bitmap ≡ true → get_bit q s'.pages.bitmap ≡ true
  pub owned : (q : ℕ) → P q → get_bit q s'.pages.bitmap ≡ true

nothing-Freed :
    (s : Vm) (pages : Pages) (P : ℕ → Type 0)
    → ((q : ℕ) → ¬ P q)
    → Freed s pages P (record s { pages = pages })
nothing-Freed s pages P n = record {
  rest = refl;
  only = λ q e. inl e;
  stays = λ q e. e;
  owned = λ q p. absurd (n q p);
}

free_one-only :
    (p q : ℕ) (s : Pages)
    → get_bit q (free_one p s).bitmap ≡ true
    → (get_bit q s.bitmap ≡ true) ⊎ (p ≡ q)
unfolding free_one
free_one-only p q s e = either (p == q) refl (sym (get_bit-set_bit p q true s.bitmap) ∙ e)
  where
    either :
        (b : Bool)
        → (p == q) ≡ b
        → (if b then true else get_bit q s.bitmap) ≡ true
        → (get_bit q s.bitmap ≡ true) ⊎ (p ≡ q)
    either true f g = inr (ground (arith, f))
    either false f g = inl g

one-Freed :
    (s : Vm) (p : ℕ) (pages : Pages)
    → Freed s pages (λ q. p ≡ q) (record s { pages = free_one p pages })
one-Freed s p pages = record {
  rest = refl;
  only = λ q e. free_one-only p q pages e;
  stays = λ q e. free_one-stays p q pages e;
  owned = λ q e. subst (λ x. get_bit x (free_one p pages).bitmap ≡ true) e (free_one-frees p pages);
}

-- One step and then another.
then-Freed :
    (s s' : Vm) (pages pages' : Pages) (P Q R : ℕ → Type 0)
    → Freed s pages P (record s { pages = pages' })
    → Freed s pages' Q s'
    → ((q : ℕ) → P q → R q)
    → ((q : ℕ) → Q q → R q)
    → ((q : ℕ) → R q → P q ⊎ Q q)
    → Freed s pages R s'
then-Freed s s' pages pages' P Q R f g p_r q_r r_pq = record {
  rest = g.rest;
  only = λ q e. elim (g.only q e) [
    | inr y ↦ inr (q_r q y)
    | inl x ↦ elim (f.only q x) [ inl z ↦ inl z | inr z ↦ inr (p_r q z) ]
  ];
  stays = λ q e. g.stays q (f.stays q e);
  owned = λ q r. elim (r_pq q r) [ inl x ↦ g.stays q (f.owned q x) | inr y ↦ g.owned q y ];
}

-- An entry of the table `t` has the page `q`, which is not borrowed.
pub record Has (t i q : ℕ) (s : Vm) : Type 0 where
  pub present : has_flag present_bit (entry t i s) ≡ true
  pub not_borrowed : has_flag borrowed_bit (entry t i s) ≡ false
  pub page : addr_page (entry t i s) ≡ q

-- One of the `n` entries from `j` on has the page.
abbrev pub EntryOwned : ℕ → ℕ → ℕ → Vm → ℕ → Type 0
EntryOwned n j t s q = (i : ℕ) × (j ≤ i) × (i < j + n) × Has t i q s

same-Freed :
    (s s' : Vm) (pages : Pages) (Q R : ℕ → Type 0)
    → Freed s pages Q s'
    → ((q : ℕ) → Q q → R q)
    → ((q : ℕ) → R q → Q q)
    → Freed s pages R s'
same-Freed s s' pages Q R g q_r r_q = record {
  rest = g.rest;
  only = λ q e. elim (g.only q e) [ inl x ↦ inl x | inr y ↦ inr (q_r q y) ];
  stays = g.stays;
  owned = λ q r. g.owned q (r_q q r);
}

-- The first entry, and those behind it.
EntryOwned-more : (n j t q : ℕ) (s : Vm) → EntryOwned n (j + 1) t s q → EntryOwned (suc n) j t s q
EntryOwned-more n j t q s (i, lo, hi, h) = (i, omega (arith, lo), omega (arith, hi), h)

EntryOwned-split :
    (n j t q : ℕ) (s : Vm) → EntryOwned (suc n) j t s q → Has t j q s ⊎ EntryOwned n (j + 1) t s q
EntryOwned-split n j t q s (i, lo, hi, h) = elim (Bool-cases (i == j)) [
  | inl e ↦ inl (subst (λ x. Has t x q s) {x = i} {y = j} (ground (arith, e)) h)
  | inr e ↦ inr (i, ground (arith, e, lo), omega (arith, hi), h)
]

Has-frees :
    (t i q : ℕ) (s : Vm)
    → Has t i q s
    → (has_flag present_bit (entry t i s) && not (has_flag borrowed_bit (entry t i s))) ≡ true
Has-frees t i q s h = both h.present h.not_borrowed
  where
    both : {a b : Bool} → a ≡ true → b ≡ false → (a && not b) ≡ true
    both e f = ground (arith, e, f)

frees-Has :
    (t i q : ℕ) (s : Vm)
    → (has_flag present_bit (entry t i s) && not (has_flag borrowed_bit (entry t i s))) ≡ true
    → addr_page (pte_addr (entry t i s)) ≡ q
    → Has t i q s
frees-Has t i q s e f = record {
  present = (both e).0;
  not_borrowed = (both e).1;
  page = sym (page_of_addr (entry t i s)) ∙ f;
}
  where
    both : {a b : Bool} → (a && not b) ≡ true → (a ≡ true) × (b ≡ false)
    both e = (ground (arith, e), ground (arith, e))

free_entries-Freed :
    (n j t : ℕ) (s : Vm) (pages : Pages)
    → Freed s pages (EntryOwned n j t s) (free_entries n j t (record s { pages = pages }))
unfolding free_entries entry frame_of
free_entries-Freed zero j t s pages =
    nothing-Freed s pages _ (λ q p. absurd (omega (arith, p.1, p.2)))
free_entries-Freed (suc n) j t s pages = elim (Bool-cases frees) [
  | inl e ↦
      subst (λ x. Freed s pages (EntryOwned (suc n) j t s) (free_entries n (j + 1) t x))
        (sym (if-true _ _ e))
        (then-Freed s _ pages (free_one (addr_page (pte_addr (entry t j s))) pages)
          (λ q. addr_page (pte_addr (entry t j s)) ≡ q) (EntryOwned n (j + 1) t s)
          (EntryOwned (suc n) j t s) (one-Freed s (addr_page (pte_addr (entry t j s))) pages)
          (free_entries-Freed n (j + 1) t s _)
          (λ q f. (j, omega arith, omega arith, frees-Has t j q s e f))
          (λ q p. EntryOwned-more n j t q s p)
          (λ q p. elim (EntryOwned-split n j t q s p) [
            | inl h ↦ inl (page_of_addr (entry t j s) ∙ h.page)
            | inr r ↦ inr r
          ]))
  | inr e ↦
      subst (λ x. Freed s pages (EntryOwned (suc n) j t s) (free_entries n (j + 1) t x))
        (sym (if-false _ _ e))
        (same-Freed s _ pages (EntryOwned n (j + 1) t s) (EntryOwned (suc n) j t s)
          (free_entries-Freed n (j + 1) t s pages) (λ q p. EntryOwned-more n j t q s p)
          (λ q p. elim (EntryOwned-split n j t q s p) [
            | inl h ↦ absurd (true_false (sym (Has-frees t j q s h) ∙ e))
            | inr r ↦ r
          ]))
]
  where
    frees : Bool
    frees = has_flag present_bit (entry t j s) && not (has_flag borrowed_bit (entry t j s))

    true_false : ¬ (true ≡ false)
    true_false e = ground arith

-- The entries of the table `t`, or the table itself, have the page.
abbrev pub TableOwned : ℕ → Vm → ℕ → Type 0
TableOwned t s q = EntryOwned 1024 0 t s q ⊎ (addr_page (s.dir t) ≡ q)

-- What the round of the table `t` frees.
abbrev pub RoundOwned : ℕ → Vm → ℕ → Type 0
RoundOwned t s q = (256 ≤ t) × (table_present t s ≡ true) × TableOwned t s q

abbrev pub TablesOwned : ℕ → ℕ → Vm → ℕ → Type 0
TablesOwned n t s q = (u : ℕ) × (t ≤ u) × (u < t + n) × RoundOwned u s q

free_table-Freed :
    (t : ℕ) (s : Vm) (pages : Pages)
    → table_present t s ≡ true
    → Freed s pages (TableOwned t s) (free_table t (record s { pages = pages }))
unfolding free_table table_present
free_table-Freed t s pages e =
    subst (Freed s pages (TableOwned t s)) (sym (if-true _ _ e ∙ ap whole f.rest)) (
      then-Freed s (whole (record s { pages = after })) pages after (EntryOwned 1024 0 t s)
        (λ q. addr_page (pte_addr (s.dir t)) ≡ q) (TableOwned t s)
        (subst (Freed s pages (EntryOwned 1024 0 t s)) f.rest f)
        (one-Freed s (addr_page (pte_addr (s.dir t))) after) (λ q p. inl p)
        (λ q p. inr (sym (page_of_addr (s.dir t)) ∙ p))
        (λ q p. elim p [ inl x ↦ inl x | inr y ↦ inr (page_of_addr (s.dir t) ∙ y) ]))
  where
    f : Freed s pages (EntryOwned 1024 0 t s) (free_entries 1024 0 t (record s { pages = pages }))
    f = free_entries-Freed 1024 0 t s pages

    after : Pages
    after = (free_entries 1024 0 t (record s { pages = pages })).pages

    whole : Vm → Vm
    whole r = record r { pages = free_one (addr_page (pte_addr (s.dir t))) after }

free_table-absent :
    (t : ℕ) (s : Vm) (pages : Pages)
    → table_present t s ≡ false
    → free_table t (record s { pages = pages }) ≡ record s { pages = pages }
unfolding free_table table_present
free_table-absent t s pages e = if-false _ _ e

round-Freed :
    (t : ℕ) (s : Vm) (pages : Pages)
    → Freed s pages (RoundOwned t s) (
        if ltb t 256 then record s { pages = pages } else free_table t (record s { pages = pages }))
round-Freed t s pages = by_number (ltb t 256) refl (Bool-cases (table_present t s))
  where
    true_false : ¬ (true ≡ false)
    true_false e = ground arith

    by_number :
        (b : Bool)
        → ltb t 256 ≡ b
        → (table_present t s ≡ true) ⊎ (table_present t s ≡ false)
        → Freed s pages
            (RoundOwned t s)
            (if b then record s { pages = pages } else free_table t (record s { pages = pages }))
    by_number true e p = nothing-Freed s pages _ (λ q r. ground (arith, e, r.0))
    by_number false e (inl p) =
        same-Freed s _ pages (TableOwned t s) (RoundOwned t s) (free_table-Freed t s pages p)
          (λ q r. (ground (arith, e), p, r)) (λ q r. r.2)
    by_number false e (inr p) =
        subst (Freed s pages (RoundOwned t s)) (sym (free_table-absent t s pages p))
          (nothing-Freed s pages _ (λ q r. true_false (sym r.1 ∙ p)))

pub free_tables-Freed :
    (n t : ℕ) (s : Vm) (pages : Pages)
    → Freed s pages (TablesOwned n t s) (free_tables n t (record s { pages = pages }))
unfolding free_tables
free_tables-Freed zero t s pages = nothing-Freed s pages _ (λ q p. absurd (omega (arith, p.1, p.2)))
free_tables-Freed (suc n) t s pages =
    subst (λ x. Freed s pages (TablesOwned (suc n) t s) (free_tables n (t + 1) x)) (sym f.rest)
      (then-Freed s _ pages after (RoundOwned t s) (TablesOwned n (t + 1) s)
        (TablesOwned (suc n) t s) (subst (Freed s pages (RoundOwned t s)) f.rest f)
        (free_tables-Freed n (t + 1) s after) (λ q p. (t, omega arith, omega arith, p))
        (λ q (u, lo, hi, p). (u, omega (arith, lo), omega (arith, hi), p))
        (λ q (u, lo, hi, p). elim (Bool-cases (u == t)) [
          | inl e ↦ inl (subst (λ x. RoundOwned x s q) {x = u} {y = t} (ground (arith, e)) p)
          | inr e ↦ inr (u, ground (arith, e, lo), omega (arith, hi), p)
        ]))
  where
    round : Vm
    round =
        if ltb t 256 then record s { pages = pages } else free_table t (record s { pages = pages })

    f : Freed s pages (RoundOwned t s) round
    f = round-Freed t s pages

    after : Pages
    after = round.pages
