-- ===== src/Process/Links.antt =====
-- The doubly linked list of ready threads, as the sequence of the threads on it.
use rikai_os.Base.{
  ℕ, sym, Option, none, some, List, [], arith, ◌≡◌, ◌≢◌, ◌∷◌, ◌++◌, ==_refl, ==_ne, head?, last?,
  NotIn, Distinct, update,
}
use rikai_os.Process.{Thread, Scheduler}

-- The two links of each thread of `xs` name its neighbours; `p` comes before the first.
abbrev pub Linked : (ℕ → Thread) → Option ℕ → List ℕ → Type 0
Linked c p [] = Unit {0}
Linked c p (x ∷ xs) = ((c x).prev_ready ≡ p) × ((c x).next_ready ≡ head? xs) × Linked c (some x) xs

-- The threads in memory after a write to one link.
abbrev pub with_next : (ℕ → Thread) → ℕ → Option ℕ → ℕ → Thread
with_next c t p = update c t (record (c t) { next_ready = p })

abbrev pub with_prev : (ℕ → Thread) → ℕ → Option ℕ → ℕ → Thread
with_prev c t p = update c t (record (c t) { prev_ready = p })

-- The ready queue holds the threads `xs`, front first, each once.
pub record Ready (s : Scheduler) (xs : List ℕ) : Type 0 where
  pub first : s.ready_first ≡ head? xs
  pub last : s.ready_last ≡ last? xs
  pub links : Linked s.thread none xs
  pub distinct : Distinct xs

-- A thread outside any queue: both links are null.
pub record Loose (s : Scheduler) (t : ℕ) : Type 0 where
  pub no_prev : (s.thread t).prev_ready ≡ none
  pub no_next : (s.thread t).next_ready ≡ none

-- A write to a thread that is not on the list keeps the links.
pub Linked-update :
    (c : ℕ → Thread) (p : Option ℕ) (xs : List ℕ) (t : ℕ) (v : Thread)
    → NotIn t xs
    → Linked c p xs
    → Linked (update c t v) p xs
Linked-update c p [] t v n l = tt
Linked-update c p (x ∷ xs) t v n l =
    (rw (==_ne t x n.0) l.0, rw (==_ne t x n.0) l.1, Linked-update c (some x) xs t v n.1 l.2)

-- So does one that leaves both links of a thread as they are.
pub Linked-same :
    (c : ℕ → Thread) (p : Option ℕ) (xs : List ℕ) (t : ℕ) (v : Thread)
    → v.prev_ready ≡ (c t).prev_ready
    → v.next_ready ≡ (c t).next_ready
    → Linked c p xs
    → Linked (update c t v) p xs
Linked-same c p [] t v e f l = tt
Linked-same c p (x ∷ xs) t v e f l = (prev, next, Linked-same c (some x) xs t v e f l.2)
  where
    prev : (update c t v x).prev_ready ≡ p
    prev = ground (arith, e, l.0)

    next : (update c t v x).next_ready ≡ head? xs
    next = ground (arith, f, l.1)

-- The thread `x` moves from behind `p` to behind `q`.
pub Linked-head :
    (c : ℕ → Thread) (q : Option ℕ) (x : ℕ) (xs : List ℕ) {p : Option ℕ}
    → NotIn x xs
    → Linked c p (x ∷ xs)
    → Linked (with_prev c x q) q (x ∷ xs)
Linked-head c q x xs n l = (rw ==_refl, rw (==_refl x) l.1, Linked-update c (some x) xs x _ n l.2)

pub NotIn-last :
    (t x : ℕ) (xs : List ℕ) {y : ℕ} → NotIn t (x ∷ xs) → last? (x ∷ xs) ≡ some y → t ≢ y
NotIn-last t x [] n e = λ q. n.0 (ground (arith, q, e))
NotIn-last t x (z ∷ xs) n e = NotIn-last t z xs n.1 e

-- A new thread behind the last.
pub Linked-snoc :
    (c : ℕ → Thread) (p : Option ℕ) (x : ℕ) (xs : List ℕ) (t y : ℕ)
    → last? (x ∷ xs) ≡ some y
    → Distinct (x ∷ xs)
    → NotIn t (x ∷ xs)
    → (c t).prev_ready ≡ some y
    → (c t).next_ready ≡ none
    → Linked c p (x ∷ xs)
    → Linked (with_next c y (some t)) p (x ∷ xs ++ t ∷ [])
Linked-snoc c p x [] t y e d n hp hn l = ground arith
Linked-snoc c p x (z ∷ xs) t y e d n hp hn l = (
  rw (==_ne y x apart) l.0,
  rw (==_ne y x apart) l.1,
  Linked-snoc c (some x) z xs t y e d.1 n.1 hp hn l.2,
)
  where
    apart : y ≢ x
    apart = λ q. NotIn-last x z xs d.0 e (sym q)
