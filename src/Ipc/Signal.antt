-- ===== src/Ipc/Signal.antt =====
-- The operations of src/kernel/src/ipc/semaphore.cc against a semaphore whose waiting threads are a list.
use rikai_os.Base.{
  ℕ, zero, suc, refl, sym, inl, inr, Option, none, some, List, [], arith, ◌<◌, ◌≡◌, ◌∷◌,
  Option-cases, length, add32,
}
use mathlib.Core.Path.{subst}
use mathlib.Core.Option
use rikai_os.Queue.{Queue, dequeue}
use rikai_os.Queue.Fifo.{Represents, dequeue-Represents, list_dequeue}
use rikai_os.Process.{Scheduler, unblock}
use rikai_os.Ipc.{
  Semaphore, semaphore_max_waiting, next_waiter, tried, thread_by_tid, wake, signal, signal_all,
  signal_all_loop, pass_all, unblock_found,
}

-- The first of the waiting numbers that is that of a thread, and the numbers behind it.
unfoldable pub first_thread : (ℕ → Option ℕ) → List ℕ → Option ℕ × List ℕ
first_thread find [] = (none, [])
first_thread find (w ∷ ws) = step (find w) (first_thread find ws)
  where
    step : Option ℕ → Option ℕ × List ℕ → Option ℕ × List ℕ
    step none rest = rest
    step (some t) rest = (some t, ws)

Agree : Option ℕ × List ℕ → Option ℕ × Queue ℕ → Type 0
Agree p p' = (p'.0 ≡ p.0) × Represents semaphore_max_waiting p.1 p'.1

-- What `dequeue` returns and leaves for a waiting queue.
Taken : List ℕ → Option (Option ℕ) × Queue ℕ → Type 0
unfolding list_dequeue
Taken ws p =
    (p.0 ≡ Option.map some (list_dequeue ws).0)
    × Represents semaphore_max_waiting (list_dequeue ws).1 p.1

taken_lem :
    (ws : List ℕ) (q : Queue ℕ)
    → Represents semaphore_max_waiting ws q
    → Taken ws (dequeue semaphore_max_waiting q)
unfolding Taken
taken_lem ws q r = dequeue-Represents semaphore_max_waiting (omega arith) ws q r

rest_lem :
    (w : ℕ) (ws : List ℕ) (q : Queue ℕ)
    → Represents semaphore_max_waiting (w ∷ ws) q
    → Represents semaphore_max_waiting ws (dequeue semaphore_max_waiting q).1
unfolding Taken list_dequeue
rest_lem w ws q r = (taken_lem (w ∷ ws) q r).1

tried-none :
    (find : ℕ → Option ℕ) (p : Option (Option ℕ) × Queue ℕ) (rest : Option ℕ × Queue ℕ)
    → Taken [] p
    → Agree (none, []) (tried find p rest)
unfolding Agree tried Taken list_dequeue
tried-none find (o, q) rest h =
    subst
      (λ o.
        (tried find (o, q) rest).0 ≡ none
        × Represents semaphore_max_waiting [] (tried find (o, q) rest).1)
      (sym h.0) (refl, h.1)

tried-some :
    (find : ℕ → Option ℕ) (w : ℕ) (ws : List ℕ) (p : Option (Option ℕ) × Queue ℕ)
    (rest : Option ℕ × Queue ℕ)
    → Taken (w ∷ ws) p
    → Agree (first_thread find ws) rest
    → Agree (first_thread find (w ∷ ws)) (tried find p rest)
unfolding Agree tried Taken list_dequeue first_thread
tried-some find w ws (o, q) rest h a =
    subst (λ o. Agree (first_thread find (w ∷ ws)) (tried find (o, q) rest)) (sym h.0)
      (elim (Option-cases (find w)) [ inl e ↦ rw e a | inr (t, e) ↦ rw e (refl, h.1) ])

-- The loop of `signal` ends and finds the first waiting number that is that of a thread.
pub next_waiter-Represents :
    (find : ℕ → Option ℕ) (n : ℕ) (ws : List ℕ) (q : Queue ℕ)
    → length ws < n
    → Represents semaphore_max_waiting ws q
    → ((next_waiter n find q).0 ≡ (first_thread find ws).0)
      × Represents semaphore_max_waiting (first_thread find ws).1 (next_waiter n find q).1
unfolding next_waiter Agree first_thread Taken list_dequeue
next_waiter-Represents find zero ws q h r = absurd (omega arith)
next_waiter-Represents find (suc n) [] q h r =
    tried-none find (dequeue semaphore_max_waiting q) _ (taken_lem [] q r)
next_waiter-Represents find (suc n) (w ∷ ws) q h r =
    let t = taken_lem (w ∷ ws) q r in
    tried-some find w ws (dequeue semaphore_max_waiting q) _ t
      (next_waiter-Represents find n ws (dequeue semaphore_max_waiting q).1 (omega arith) t.1)

-- The count after `signal`, which depends on whether a thread was found.
unfoldable pub count_after : Option ℕ → ℕ → ℕ
count_after none i = add32 i 1
count_after (some t) i = i

wake_lem :
    (sem : Semaphore) (s : Scheduler) (p : Option ℕ × List ℕ) (p' : Option ℕ × Queue ℕ)
    → (p'.0 ≡ p.0) × Represents semaphore_max_waiting p.1 p'.1
    → ((wake sem s p').0.i ≡ count_after p.0 sem.i)
      × Represents semaphore_max_waiting p.1 (wake sem s p').0.waiting
      × ((wake sem s p').1 ≡ unblock_found p.0 s)
unfolding wake count_after unblock_found
wake_lem sem s (none, ws) (o, q) h =
    subst
      (λ o.
        ((wake sem s (o, q)).0.i ≡ add32 sem.i 1)
        × Represents semaphore_max_waiting ws (wake sem s (o, q)).0.waiting
        × ((wake sem s (o, q)).1 ≡ s))
      (sym h.0) (refl, h.1, refl)
wake_lem sem s (some t, ws) (o, q) h =
    subst
      (λ o.
        ((wake sem s (o, q)).0.i ≡ sem.i)
        × Represents semaphore_max_waiting ws (wake sem s (o, q)).0.waiting
        × ((wake sem s (o, q)).1 ≡ unblock t s))
      (sym h.0) (refl, h.1, refl)

module _ (procs : List (List ℕ)) where
  abbrev pub live : Scheduler → ℕ → Option ℕ
  live s tid = thread_by_tid s.thread tid procs

  -- `signal` unblocks the thread of the first waiting number that still is that of a thread and drops
  -- the numbers up to it; when there is none, the queue is empty and the count is one higher.
  pub signal_lem :
      (ws : List ℕ) (sem : Semaphore) (s : Scheduler)
      → Represents semaphore_max_waiting ws sem.waiting
      → ((signal procs sem s).0.i ≡ count_after (first_thread (live s) ws).0 sem.i)
        × Represents semaphore_max_waiting
            (first_thread (live s) ws).1
            (signal procs sem s).0.waiting
        × ((signal procs sem s).1 ≡ unblock_found (first_thread (live s) ws).0 s)
  unfolding signal
  signal_lem ws sem s r = wake_lem sem s (first_thread (live s) ws) _ (
      next_waiter-Represents (live s) (suc semaphore_max_waiting) ws sem.waiting
        (omega (arith, r.fits)) r)

  -- Each waiting thread is unblocked, the first to wait first.
  unfoldable pub wake_all : List ℕ → Scheduler → Scheduler
  wake_all [] s = s
  wake_all (w ∷ ws) s = wake_all ws (unblock_found (live s w) s)

  Woken : List ℕ → Scheduler → Queue ℕ × Scheduler → Type 0
  Woken ws s p = Represents semaphore_max_waiting [] p.0 × (p.1 ≡ wake_all ws s)

  pass_all-none :
      (rest : Queue ℕ → Scheduler → Queue ℕ × Scheduler) (p : Option (Option ℕ) × Queue ℕ)
      (s : Scheduler)
      → Taken [] p
      → Woken [] s (pass_all procs rest p s)
  unfolding pass_all Woken wake_all Taken list_dequeue
  pass_all-none rest (o, q) s h =
      subst
        (λ o.
          Represents semaphore_max_waiting [] (pass_all procs rest (o, q) s).0
          × ((pass_all procs rest (o, q) s).1 ≡ s))
        (sym h.0) (h.1, refl)

  pass_all-some :
      (rest : Queue ℕ → Scheduler → Queue ℕ × Scheduler) (w : ℕ) (ws : List ℕ)
      (p : Option (Option ℕ) × Queue ℕ) (s : Scheduler)
      → Taken (w ∷ ws) p
      → ((s' : Scheduler) → Woken ws s' (rest p.1 s'))
      → Woken (w ∷ ws) s (pass_all procs rest p s)
  unfolding pass_all Woken wake_all Taken list_dequeue
  pass_all-some rest w ws (o, q) s h k =
      subst
        (λ o.
          Represents semaphore_max_waiting [] (pass_all procs rest (o, q) s).0
          × ((pass_all procs rest (o, q) s).1 ≡ wake_all (w ∷ ws) s))
        (sym h.0) (k (unblock_found (live s w) s))

  signal_all_loop-Woken :
      (n : ℕ) (ws : List ℕ) (q : Queue ℕ) (s : Scheduler)
      → length ws < n
      → Represents semaphore_max_waiting ws q
      → Woken ws s (signal_all_loop procs n q s)
  unfolding signal_all_loop
  signal_all_loop-Woken zero ws q s h r = absurd (omega arith)
  signal_all_loop-Woken (suc n) [] q s h r =
      pass_all-none _ (dequeue semaphore_max_waiting q) s (taken_lem [] q r)
  signal_all_loop-Woken (suc n) (w ∷ ws) q s h r =
      pass_all-some _ w ws (dequeue semaphore_max_waiting q) s (taken_lem (w ∷ ws) q r) (λ s'.
        signal_all_loop-Woken n ws (dequeue semaphore_max_waiting q).1 s' (omega arith)
          (rest_lem w ws q r))

  -- `signal_all` ends: it unblocks every waiting thread that still is one, in the order in which they
  -- came, empties the queue and leaves the count as it is.
  pub signal_all_lem :
      (ws : List ℕ) (sem : Semaphore) (s : Scheduler)
      → Represents semaphore_max_waiting ws sem.waiting
      → ((signal_all procs sem s).0.i ≡ sem.i)
        × Represents semaphore_max_waiting [] (signal_all procs sem s).0.waiting
        × ((signal_all procs sem s).1 ≡ wake_all ws s)
  unfolding signal_all Woken
  signal_all_lem ws sem s r =
      let w =
        signal_all_loop-Woken (suc semaphore_max_waiting) ws sem.waiting s (omega (arith, r.fits))
          r in
      (refl, w.0, w.1)
