-- ===== src/Ipc.antt =====
-- src/kernel/src/ipc/semaphore.cc, over the scheduler, with the parts of src/kernel/src/process/proc.cc that only
-- it uses: blocking the current thread, and finding a thread by its number.
-- `none` is a panic.
pub mod Signal
pub mod Wait
pub mod Settled
mod Tests
use rikai_os.Base.{
  ℕ, zero, suc, Bool, true, false, not, Option, none, some, List, [], if◌then◌else◌, ◌^◌, ◌&&◌,
  ◌||◌, ◌∷◌, ◌==◌, ltb, add32, sub32, update,
}
use mathlib.Core.Option
use rikai_os.Queue.{Queue, enqueue, dequeue}
use rikai_os.Process.{Thread, Scheduler, dispatch_next_thread, unblock, set_blocked, is_null}

abbrev pub semaphore_max_waiting : ℕ
semaphore_max_waiting = 32

-- `i` is an int in two's complement.
pub record Semaphore : Type 0 where
  pub i : ℕ
  pub waiting : Queue ℕ

-- `sem.i > 0`
unfoldable pub is_positive : ℕ → Bool
is_positive w = ltb 0 w && ltb w (2 ^ 31)

-- `a` when it is there, and else `b`.
unfoldable pub or_else : Option ℕ → Option ℕ → Option ℕ
or_else none b = b
or_else (some a) b = some a

-- The threads of one process, in the order of its list.
unfoldable pub thread_in : (ℕ → Thread) → ℕ → List ℕ → Option ℕ
thread_in c tid [] = none
thread_in c tid (t ∷ ts) = if (c t).id == tid then some t else thread_in c tid ts

-- The processes in the order of their list, each as its threads.
unfoldable pub thread_by_tid : (ℕ → Thread) → ℕ → List (List ℕ) → Option ℕ
unfolding thread_in or_else
thread_by_tid c tid [] = none
thread_by_tid c tid (p ∷ ps) = or_else (thread_in c tid p) (thread_by_tid c tid ps)

-- `suspend_2`, to which the assembly of `suspend_in_kernel` leads.
unfoldable pub suspend : ℕ → Scheduler → Scheduler
suspend t s =
    dispatch_next_thread
      (record s { thread = update s.thread t (record (s.thread t) { suspended_in_kernel = true }) })

-- `yield` with a current thread.
unfoldable pub yield_from : Bool → ℕ → Scheduler → Scheduler
unfolding suspend set_blocked is_null
yield_from block t s =
    let s1 = if block then set_blocked t true s else s in
    if block || not (is_null s1.ready_first) then suspend t s1 else s1

unfoldable pub yield_at : Option ℕ → Bool → Scheduler → Option Scheduler
unfolding yield_from
yield_at none block s = if block then none else some s
yield_at (some t) block s = some (yield_from block t s)

unfoldable pub yield : Bool → Scheduler → Option Scheduler
unfolding yield_at
yield block s = yield_at s.current_thread block s

-- A pass of the loop of `signal`, given what the passes behind it do.
unfoldable pub tried :
    (ℕ → Option ℕ) → Option (Option ℕ) × Queue ℕ → Option ℕ × Queue ℕ → Option ℕ × Queue ℕ
tried find (none, q) rest = (none, q)
tried find (some none, q) rest = rest
tried find (some (some tid), q) rest = found_thread (find tid)
  where
    found_thread : Option ℕ → Option ℕ × Queue ℕ
    found_thread none = rest
    found_thread (some t) = (some t, q)

-- The loop of `signal`: numbers are taken from the queue until one is that of a thread.
unfoldable pub next_waiter : ℕ → (ℕ → Option ℕ) → Queue ℕ → Option ℕ × Queue ℕ
unfolding tried
next_waiter zero find q = (none, q)
next_waiter (suc n) find q =
    let p = dequeue semaphore_max_waiting q in
    let rest = next_waiter n find p.1 in tried find p rest

unfoldable pub wake : Semaphore → Scheduler → Option ℕ × Queue ℕ → Semaphore × Scheduler
wake sem s (some t, q) = (record { i = sem.i; waiting = q }, unblock t s)
wake sem s (none, q) = (record { i = add32 sem.i 1; waiting = q }, s)

-- `if (thread) unblock(*thread)`
unfoldable pub unblock_found : Option ℕ → Scheduler → Scheduler
unblock_found none s = s
unblock_found (some t) s = unblock t s

-- `procs` is the list of the processes, each as the list of its threads. The queue holds at most
-- `semaphore_max_waiting` numbers, so that one more pass ends the loop.
module _ (procs : List (List ℕ)) where
  unfoldable pub signal : Semaphore → Scheduler → Semaphore × Scheduler
  unfolding next_waiter thread_by_tid wake
  signal sem s = wake sem s (
      next_waiter (suc semaphore_max_waiting) (λ tid. thread_by_tid s.thread tid procs) sem.waiting)

  -- A pass of the loop of `signal_all`, given the passes behind it.
  unfoldable pub pass_all :
      (Queue ℕ → Scheduler → Queue ℕ × Scheduler)
      → Option (Option ℕ) × Queue ℕ
      → Scheduler
      → Queue ℕ × Scheduler
  unfolding unblock_found thread_by_tid
  pass_all rest (none, q) s = (q, s)
  pass_all rest (some none, q) s = rest q s
  pass_all rest (some (some tid), q) s = rest q (unblock_found (thread_by_tid s.thread tid procs) s)

  unfoldable pub signal_all_loop : ℕ → Queue ℕ → Scheduler → Queue ℕ × Scheduler
  unfolding pass_all
  signal_all_loop zero q s = (q, s)
  signal_all_loop (suc n) q s = pass_all (signal_all_loop n) (dequeue semaphore_max_waiting q) s

  unfoldable pub signal_all : Semaphore → Scheduler → Semaphore × Scheduler
  unfolding signal_all_loop
  signal_all sem s =
      let p = signal_all_loop (suc semaphore_max_waiting) sem.waiting s in
      (record { i = sem.i; waiting = p.0 }, p.1)

unfoldable pub block_with : Semaphore → Scheduler → Bool × Queue ℕ → Option (Semaphore × Scheduler)
unfolding yield
block_with sem s (false, q) = none
block_with sem s (true, q) =
    Option.map (λ s'. (record { i = sem.i; waiting = q }, s')) (yield true s)

unfoldable pub wait_at : Option ℕ → Semaphore → Scheduler → Option (Semaphore × Scheduler)
unfolding block_with
wait_at none sem s = none
wait_at (some t) sem s =
    block_with sem s (enqueue semaphore_max_waiting (s.thread t).id sem.waiting)

-- `wait`; a thread that blocks goes on when it is dispatched again.
unfoldable pub wait : Semaphore → Scheduler → Option (Semaphore × Scheduler)
unfolding is_positive wait_at
wait sem s =
    if is_positive sem.i
    then some (record sem { i = sub32 sem.i 1 }, s)
    else wait_at s.current_thread sem s

unfoldable pub try_wait : Semaphore → Bool × Semaphore
unfolding is_positive
try_wait sem = if is_positive sem.i then (true, record sem { i = sub32 sem.i 1 }) else (false, sem)
