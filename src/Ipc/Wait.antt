-- ===== src/Ipc/Wait.antt =====
-- `wait` of src/kernel/src/ipc/semaphore.cc, and what holds between the count and the waiting threads.
use rikai_os.Base.{
  ℕ, refl, ap, Bool, true, false, none, some, List, [], arith, ◌<◌, ◌≡◌, ◌∙◌, ◌∷◌, ◌++◌, ◌==◌,
  if-true, if-false, length, sub32,
}
use mathlib.Core.Path.{subst}
use mathlib.Core.Option
use rikai_os.Queue.{Queue, enqueue}
use rikai_os.Queue.Fifo.{Represents, enqueue-Represents, list_enqueue}
use rikai_os.Process.{Scheduler, set_blocked}
use rikai_os.Ipc.{
  Semaphore, semaphore_max_waiting, is_positive, wait, wait_at, block_with, yield, yield_at,
  yield_from, suspend,
}

-- The current thread blocks and the next one is dispatched.
unfoldable pub blocked_at : ℕ → Scheduler → Scheduler
blocked_at c s = suspend c (set_blocked c true s)

yield_from-block : (c : ℕ) (s : Scheduler) → yield_from true c s ≡ blocked_at c s
unfolding yield_from blocked_at
yield_from-block c s = refl

module _ (ws : List ℕ) (sem : Semaphore) (s : Scheduler) (c : ℕ)
    (r : Represents semaphore_max_waiting ws sem.waiting)
    (current : s.current_thread ≡ some c) where
  abbrev queued : Bool × Queue ℕ
  queued = enqueue semaphore_max_waiting (s.thread c).id sem.waiting

  wait-zero : is_positive sem.i ≡ false → wait sem s ≡ block_with sem s queued
  unfolding wait wait_at
  wait-zero e = if-false _ _ e ∙ ap (λ o. wait_at o sem s) current

  block_with-full : queued.0 ≡ false → block_with sem s queued ≡ none
  unfolding block_with
  block_with-full e = ap (λ b. block_with sem s (b, queued.1)) e

  block_with-room :
      queued.0 ≡ true
      → block_with sem s queued ≡ some (record { i = sem.i; waiting = queued.1 }, blocked_at c s)
  unfolding block_with yield yield_at
  block_with-room e =
      ap (λ b. block_with sem s (b, queued.1)) e
      ∙ ap
          (λ o.
            Option.map (λ s'. (record { i = sem.i; waiting = queued.1 }, s')) (yield_at o true s))
          current
      ∙ ap (λ t. some (record { i = sem.i; waiting = queued.1 }, t)) (yield_from-block c s)

  list_enqueue-room :
      length ws < semaphore_max_waiting
      → list_enqueue semaphore_max_waiting (s.thread c).id ws ≡ (true, ws ++ (s.thread c).id ∷ [])
  unfolding list_enqueue
  list_enqueue-room h = if-false {b = length ws == semaphore_max_waiting} _ _ (ground arith)

  list_enqueue-full :
      length ws ≡ semaphore_max_waiting
      → list_enqueue semaphore_max_waiting (s.thread c).id ws ≡ (false, ws)
  unfolding list_enqueue
  list_enqueue-full h = if-true {b = length ws == semaphore_max_waiting} _ _ (ground arith)

  queued-Represents :
      (queued.0 ≡ (list_enqueue semaphore_max_waiting (s.thread c).id ws).0)
      × Represents semaphore_max_waiting
          (list_enqueue semaphore_max_waiting (s.thread c).id ws).1
          queued.1
  queued-Represents =
      enqueue-Represents semaphore_max_waiting (omega arith) (s.thread c).id ws sem.waiting r

  -- With the current thread `c` and the waiting numbers `ws`: when the count is positive, `wait` takes
  -- one off and the thread goes on; when it is not, the thread blocks and its number goes behind the
  -- waiting ones, or the kernel panics when there are 32 of them.
  pub wait_lem :
      (is_positive sem.i ≡ true → wait sem s ≡ some (record sem { i = sub32 sem.i 1 }, s))
      × (is_positive sem.i ≡ false
          → length ws < semaphore_max_waiting
          → (q : Queue ℕ) × (wait sem s ≡ some (record { i = sem.i; waiting = q }, blocked_at c s))
            × Represents semaphore_max_waiting (ws ++ (s.thread c).id ∷ []) q)
      × (is_positive sem.i ≡ false → length ws ≡ semaphore_max_waiting → wait sem s ≡ none)
  unfolding wait
  wait_lem = (
    λ e. if-true _ _ e,
    λ e h. (
      queued.1,
      wait-zero e ∙ block_with-room (queued-Represents.0 ∙ ap (λ p. p.0) (list_enqueue-room h)),
      subst (λ p. Represents semaphore_max_waiting p.1 queued.1) (list_enqueue-room h)
          queued-Represents.1,
    ),
    λ e h.
        wait-zero e ∙ block_with-full (queued-Represents.0 ∙ ap (λ p. p.0) (list_enqueue-full h)),
  )
