-- ===== src/Queue/Fifo.antt =====
-- The queue of src/kernel/include/os-std/queue.hh against a list with a bound on its length.
use rikai_os.Base.{
  ℕ, suc, refl, sym, ap, Bool, true, false, Option, none, some, List, [], arith, if◌then◌else◌, ◌≤◌,
  ◌<◌, ◌≡◌, ◌∙◌, ◌≢◌, ◌∷◌, ◌++◌, ◌==◌, if-true, if-false, ==_refl, length, length-append, add32,
  sub32,
}
use mathlib.Core.Path.{subst, ap₂}
use mathlib.Core.Option
use rikai_os.Queue.{
  Queue, empty, increment, enqueue, dequeue, enqueue_unchecked, dequeue_unchecked, found,
}
use rikai_os.Queue.Ring.{
  Holds, Holds-update, Holds-append, advance, advance_ne, advance-lt, advance-suc,
}

-- The queue holds the items of the list, the oldest first.
pub record Represents {A : Type 0} (N : ℕ) (xs : List A) (q : Queue A) : Type 0 where
  pub reader : q.i_reader < N
  pub fits : length xs ≤ N
  pub count : q.length_ ≡ length xs
  pub writer : q.i_writer ≡ advance N (length xs) q.i_reader
  pub cells : Holds N q.i_reader xs q.items

-- A list with at most `N` items.
unfoldable pub list_enqueue : {A : Type 0} → ℕ → A → List A → Bool × List A
list_enqueue N x xs = if length xs == N then (false, xs) else (true, xs ++ x ∷ [])

unfoldable pub list_dequeue : {A : Type 0} → List A → Option A × List A
list_dequeue [] = (none, [])
list_dequeue (x ∷ xs) = (some x, xs)

module _ {A : Type 0} (N : ℕ) (hN : N ≤ 4294967295) where
  pub empty-Represents : 0 < N → Represents N [] (empty {A = A})
  unfolding empty Holds advance
  empty-Represents h = record {
    reader = h;
    fits = omega arith;
    count = refl;
    writer = refl;
    cells = tt;
  }

  enqueue_unchecked-Represents :
      (x : A) (xs : List A) (q : Queue A)
      → length xs < N
      → Represents N xs q
      → Represents N (xs ++ x ∷ []) (enqueue_unchecked N x q)
  unfolding enqueue_unchecked
  enqueue_unchecked-Represents x xs q h r = record {
    reader = r.reader;
    fits = subst (λ n. n ≤ N) (sym longer) (omega arith);
    count = ap (λ n. add32 n 1) r.count ∙ omega (arith, longer);
    writer =
        ap (increment N) r.writer
        ∙ sym (advance-suc N (length xs) q.i_reader)
        ∙ ap (λ n. advance N n q.i_reader) (sym longer);
    cells =
        Holds-append N q.i_reader x xs _
          (Holds-update N q.i_reader q.i_writer (some x) xs q.items missed r.cells)
          (if-true _ _ (ap (λ j. q.i_writer == j) (sym r.writer) ∙ ==_refl q.i_writer));
  }
    where
      longer : length (xs ++ x ∷ []) ≡ suc (length xs)
      longer = length-append xs (x ∷ []) ∙ omega arith

      missed : (k : ℕ) → k < length xs → q.i_writer ≢ advance N k q.i_reader
      missed k p e = advance_ne N k (length xs) q.i_reader hN r.reader p h (sym e ∙ r.writer)

  dequeue_unchecked-Represents :
      (x : A) (xs : List A) (q : Queue A)
      → Represents N (x ∷ xs) q
      → ((dequeue_unchecked N q).0 ≡ some x) × Represents N xs (dequeue_unchecked N q).1
  unfolding dequeue_unchecked Holds advance
  dequeue_unchecked-Represents x xs q r = (
    r.cells.0,
    record {
      reader = advance-lt N 1 q.i_reader hN r.reader (omega (arith, r.reader));
      fits = omega (arith, r.fits);
      count = ap (λ n. sub32 n 1) r.count ∙ omega (arith, r.fits);
      writer = r.writer;
      cells = Holds-update N (increment N q.i_reader) q.i_reader none xs q.items missed r.cells.1;
    },
  )
    where
      missed : (k : ℕ) → k < length xs → q.i_reader ≢ advance N k (increment N q.i_reader)
      missed k p =
          advance_ne N 0 (suc k) q.i_reader hN r.reader (omega arith) (omega (arith, r.fits))

  Same : Bool × Queue A → Bool × List A → Type 0
  Same p p' = (p.0 ≡ p'.0) × Represents N p'.1 p.1

  enqueue_checked :
      (x : A) (xs : List A) (q : Queue A)
      → Represents N xs q
      → (b : Bool) → (length xs == N) ≡ b
      → Same
          (if b then (false, q) else (true, enqueue_unchecked N x q))
          (if b then (false, xs) else (true, xs ++ x ∷ []))
  unfolding Same
  enqueue_checked x xs q r true e = (refl, r)
  enqueue_checked x xs q r false e =
      (refl, enqueue_unchecked-Represents x xs q (ground (arith, r.fits)) r)

  -- `enqueue` appends the item, or refuses it when the queue is full.
  pub enqueue-Represents :
      (x : A) (xs : List A) (q : Queue A)
      → Represents N xs q
      → ((enqueue N x q).0 ≡ (list_enqueue N x xs).0)
        × Represents N (list_enqueue N x xs).1 (enqueue N x q).1
  unfolding enqueue list_enqueue Same
  enqueue-Represents x xs q r =
      subst
        (λ n.
          Same (if n == N then (false, q) else (true, enqueue_unchecked N x q))
            (if length xs == N then (false, xs) else (true, xs ++ x ∷ [])))
        (sym r.count) (enqueue_checked x xs q r (length xs == N) refl)

  -- `dequeue` gives the oldest item, or none when the queue is empty.
  pub dequeue-Represents :
      (xs : List A) (q : Queue A)
      → Represents N xs q
      → ((dequeue N q).0 ≡ Option.map some (list_dequeue xs).0)
        × Represents N (list_dequeue xs).1 (dequeue N q).1
  unfolding dequeue list_dequeue found
  dequeue-Represents [] q r =
      subst (λ p. (p.0 ≡ none) × Represents N [] p.1)
        (sym (if-true (none, q) (found (dequeue_unchecked N q)) (ap (λ n. n == 0) r.count)))
        (refl, r)
  dequeue-Represents (x ∷ xs) q r =
      let next = dequeue_unchecked-Represents x xs q r in
      subst (λ p. (p.0 ≡ some (some x)) × Represents N xs p.1)
        (sym (
          if-false (none, q) (found (dequeue_unchecked N q))
            (ap (λ n. n == 0) r.count ∙ ground arith)))
        (ap some next.0, next.1)

-- The calls of a queue's users and what they return.
pub data Call (A : Type 0) : Type 0 where
  put : A → Call A
  take_one : Call A

pub data Reply (A : Type 0) : Type 0 where
  put_reply : Bool → Reply A
  taken : Option A → Reply A

module _ {A : Type 0} (N : ℕ) where
  unfoldable pub queue_call : Call A → Queue A → Reply (Option A) × Queue A
  queue_call (put x) q = (put_reply (enqueue N x q).0, (enqueue N x q).1)
  queue_call take_one q = (taken (dequeue N q).0, (dequeue N q).1)

  unfoldable pub list_call : Call A → List A → Reply (Option A) × List A
  list_call (put x) xs = (put_reply (list_enqueue N x xs).0, (list_enqueue N x xs).1)
  list_call take_one xs = (taken (Option.map some (list_dequeue xs).0), (list_dequeue xs).1)

  unfoldable pub queue_replies : List (Call A) → Queue A → List (Reply (Option A))
  unfolding queue_call
  queue_replies [] q = []
  queue_replies (c ∷ cs) q = (queue_call c q).0 ∷ queue_replies cs (queue_call c q).1

  unfoldable pub list_replies : List (Call A) → List A → List (Reply (Option A))
  unfolding list_call
  list_replies [] xs = []
  list_replies (c ∷ cs) xs = (list_call c xs).0 ∷ list_replies cs (list_call c xs).1

  replies-Represents :
      N ≤ 4294967295
      → (cs : List (Call A)) (xs : List A) (q : Queue A) → Represents N xs q
      → queue_replies cs q ≡ list_replies cs xs
  unfolding queue_replies list_replies queue_call list_call
  replies-Represents hN [] xs q r = refl
  replies-Represents hN (put x ∷ cs) xs q r =
      let step = enqueue-Represents N hN x xs q r in
      ap₂ ◌∷◌ (ap put_reply step.0) (replies-Represents hN cs _ _ step.1)
  replies-Represents hN (take_one ∷ cs) xs q r =
      let step = dequeue-Represents N hN xs q r in
      ap₂ ◌∷◌ (ap taken step.0) (replies-Represents hN cs _ _ step.1)

  -- Whatever calls a new queue gets, with a capacity that is not 0 and below 2 ^ 32, it replies like a
  -- list of at most that many items: first in first out, refusing an item when it is full.
  pub queue_replies_fifo :
      0 < N → N ≤ 4294967295 → (cs : List (Call A)) → queue_replies cs empty ≡ list_replies cs []
  queue_replies_fifo h hN cs = replies-Represents hN cs [] empty (empty-Represents N hN h)
