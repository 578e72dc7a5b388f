-- ===== src/Ipc/Settled.antt =====
-- Between the operations of src/kernel/src/ipc/semaphore.cc, a thread waits only while the count is 0.
use rikai_os.Base.{
  ℕ, refl, sym, inl, inr, Bool, true, false, Option, some, List, [], arith, ◌+◌, ◌^◌, ◌<◌, ◌≡◌, ◌∙◌,
  ◌⊎◌, ◌∷◌, ◌++◌, if-true, if-false, Bool-cases, Option-cases, length, sub32,
}
use mathlib.Core.Path.{subst}
use rikai_os.Queue.Fifo.{Represents}
use rikai_os.Process.{Scheduler}
use rikai_os.Ipc.{Semaphore, semaphore_max_waiting, is_positive, wait, try_wait, signal, signal_all}
use rikai_os.Ipc.Signal.{first_thread, live, count_after, signal_lem, signal_all_lem}
use rikai_os.Ipc.Wait.{wait_lem, blocked_at}

-- The semaphore is not negative, and it is 0 when threads wait.
pub record Settled (ws : List ℕ) (sem : Semaphore) : Type 0 where
  pub waiting : Represents semaphore_max_waiting ws sem.waiting
  pub small : sem.i < 2 ^ 31
  pub idle : 0 < length ws → sem.i ≡ 0

-- Without waiting threads the count does not matter.
without_waiters :
    (sem : Semaphore)
    → Represents semaphore_max_waiting [] sem.waiting
    → sem.i < 2 ^ 31
    → Settled [] sem
without_waiters sem r h = record { waiting = r; small = h; idle = λ n. absurd (omega arith) }

-- `signal` leaves a thread waiting only when it has found one to unblock before it.
Counted : ℕ → Option ℕ × List ℕ → Type 0
Counted i p = (count_after p.0 i < 2 ^ 31) × (0 < length p.1 → count_after p.0 i ≡ 0)

first_thread-Counted :
    (find : ℕ → Option ℕ) (i : ℕ) (ws : List ℕ)
    → i + 1 < 2 ^ 31
    → (0 < length ws → i ≡ 0)
    → Counted i (first_thread find ws)
unfolding Counted first_thread count_after
first_thread-Counted find i [] h z = (omega arith, λ n. absurd (omega arith))
first_thread-Counted find i (w ∷ ws) h z = elim (Option-cases (find w)) [
  | inl e ↦ rw e (first_thread-Counted find i ws h (λ n. z (omega arith)))
  | inr (t, e) ↦ rw e (omega arith, λ n. z (omega arith))
]

positive_lem : (i : ℕ) → is_positive i ≡ true → i < 2 ^ 31 → 0 < i
unfolding is_positive
positive_lem i e h = ground arith

not_positive : (i : ℕ) → is_positive i ≡ false → i < 2 ^ 31 → i ≡ 0
unfolding is_positive
not_positive i e h = ground arith

module _ (procs : List (List ℕ)) where
  -- `signal` keeps a semaphore settled, which means that its count is not negative and is 0 while threads
  -- wait, when the count does not overflow.
  pub signal-Settled :
      (ws : List ℕ) (sem : Semaphore) (s : Scheduler)
      → Settled ws sem
      → sem.i + 1 < 2 ^ 31
      → Settled (first_thread (live procs s) ws).1 (signal procs sem s).0
  unfolding Counted
  signal-Settled ws sem s r h =
      let l = signal_lem procs ws sem s r.waiting in
      let k = first_thread-Counted (live procs s) sem.i ws h r.idle in
      record {
        waiting = l.1;
        small = subst (λ n. n < 2 ^ 31) (sym l.0) k.0;
        idle = λ p. l.0 ∙ k.1 p;
      }

  pub signal_all-Settled :
      (ws : List ℕ) (sem : Semaphore) (s : Scheduler)
      → Settled ws sem
      → Settled [] (signal_all procs sem s).0
  signal_all-Settled ws sem s r =
      let l = signal_all_lem procs ws sem s r.waiting in
      without_waiters (signal_all procs sem s).0 l.1 (subst (λ n. n < 2 ^ 31) (sym l.0) r.small)

taken-Settled :
    (ws : List ℕ) (sem : Semaphore)
    → Settled ws sem
    → is_positive sem.i ≡ true
    → Settled ws (record sem { i = sub32 sem.i 1 })
taken-Settled ws sem r e = record {
  waiting = r.waiting;
  small = omega (arith, r.small, positive_lem sem.i e r.small);
  idle = λ p. absurd (omega (arith, r.idle p, positive_lem sem.i e r.small));
}

pub try_wait-Settled :
    (ws : List ℕ) (sem : Semaphore) → Settled ws sem → Settled ws (try_wait sem).1
unfolding try_wait
try_wait-Settled ws sem r = elim (Bool-cases (is_positive sem.i)) [
  | inl e ↦
      subst (λ (p : Bool × Semaphore). Settled ws p.1)
        (sym (if-true (true, record sem { i = sub32 sem.i 1 }) (false, sem) e))
        (taken-Settled ws sem r e)
  | inr e ↦
      subst (λ (p : Bool × Semaphore). Settled ws p.1)
        (sym (if-false (true, record sem { i = sub32 sem.i 1 }) (false, sem) e)) r
]

-- With fewer than 32 waiting threads, `wait` at a settled semaphore does not panic and keeps it settled:
-- either the thread goes on, or it blocks and waits behind the others.
pub wait-Settled :
    (ws : List ℕ) (sem : Semaphore) (s : Scheduler) (c : ℕ)
    → Settled ws sem
    → s.current_thread ≡ some c
    → length ws < semaphore_max_waiting
    → (sem' : Semaphore) × (s' : Scheduler) × (wait sem s ≡ some (sem', s'))
      × ((Settled ws sem' × (s' ≡ s))
          ⊎ (Settled (ws ++ (s.thread c).id ∷ []) sem' × (s' ≡ blocked_at c s)))
wait-Settled ws sem s c r current h =
    let l = wait_lem ws sem s c r.waiting current in
    elim (Bool-cases (is_positive sem.i)) [
      | inl e ↦ (record sem { i = sub32 sem.i 1 }, s, l.0 e, inl (taken-Settled ws sem r e, refl))
      | inr e ↦
          let q = l.1 e h in
          (
            record { i = sem.i; waiting = q.0 },
            blocked_at c s,
            q.1,
            inr (
              record { waiting = q.2; small = r.small; idle = λ p. not_positive sem.i e r.small },
              refl,
            ),
          )
    ]
