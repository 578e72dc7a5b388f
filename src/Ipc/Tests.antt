-- ===== src/Ipc/Tests.antt =====
-- Runs of the semaphores, and their theorems at concrete states.
use rikai_os.Base.{
  ℕ, refl, true, false, none, some, List, [], arith, ◌<◌, ◌≡◌, ◌⊎◌, ◌∷◌, leb, sub32,
}
use rikai_os.Queue.{Queue, empty, enqueue, dequeue}
use rikai_os.Queue.Fifo.{Represents, list_enqueue, empty-Represents, enqueue-Represents}
use rikai_os.Process.{Thread, Scheduler, unblock}
use rikai_os.Ipc.{
  Semaphore, signal, signal_all, wait, semaphore_max_waiting, unblock_found, is_positive,
}
use rikai_os.Ipc.Signal.{first_thread, live, count_after, signal_lem, wake_all, signal_all_lem}
use rikai_os.Ipc.Wait.{wait_lem, blocked_at}
use rikai_os.Ipc.Settled.{Settled, signal-Settled, wait-Settled}

-- Thread 1 runs, the threads from 4 on are blocked, and 0 is the idle thread.
abbrev threads : ℕ → Thread
threads t = record {
  id = t;
  proc = 2;
  prev_ready = none;
  next_ready = none;
  ticks_running = 0;
  started = true;
  suspended_in_kernel = false;
  blocked = leb 4 t;
  is_kernel_thread = false;
}

abbrev busy : Scheduler
busy = record {
  thread = threads;
  scheduler_enabled = true;
  current_thread = some 1;
  idle_thread = 0;
  ready_first = none;
  ready_last = none;
  paused_userspace_queue = none;
  userspace_paused = false;
}

abbrev procs : List (List ℕ)
procs = (0 ∷ []) ∷ (1 ∷ 5 ∷ []) ∷ []

abbrev one_waiting : Queue ℕ
one_waiting = (enqueue 32 7 empty).1

-- The numbers of a thread that is gone and of one that is blocked wait.
abbrev two_waiting : Queue ℕ
two_waiting = (enqueue 32 5 one_waiting).1

one_waiting-Represents : Represents 32 (7 ∷ []) one_waiting
unfolding list_enqueue
one_waiting-Represents =
    (enqueue-Represents 32 (omega arith) 7 [] empty
      (empty-Represents 32 (omega arith) (omega arith))).1

two_waiting-Represents : Represents semaphore_max_waiting (7 ∷ 5 ∷ []) two_waiting
unfolding list_enqueue
two_waiting-Represents = (enqueue-Represents 32 (omega arith) 5 (7 ∷ []) _ one_waiting-Represents).1

abbrev taken : Semaphore
taken = record { i = 0; waiting = two_waiting }

abbrev unused : Semaphore
unused = record { i = 0; waiting = empty }

signal_lem_example :
    ((signal procs taken busy).0.i ≡ count_after (first_thread (live procs busy) (7 ∷ 5 ∷ [])).0 0)
    × Represents semaphore_max_waiting
        (first_thread (live procs busy) (7 ∷ 5 ∷ [])).1
        (signal procs taken busy).0.waiting
    × ((signal procs taken busy).1
        ≡ unblock_found (first_thread (live procs busy) (7 ∷ 5 ∷ [])).0 busy)
signal_lem_example = signal_lem procs (7 ∷ 5 ∷ []) taken busy two_waiting-Represents

signal_all_lem_example :
    ((signal_all procs taken busy).0.i ≡ 0)
    × Represents semaphore_max_waiting [] (signal_all procs taken busy).0.waiting
    × ((signal_all procs taken busy).1 ≡ wake_all procs (7 ∷ 5 ∷ []) busy)
signal_all_lem_example = signal_all_lem procs (7 ∷ 5 ∷ []) taken busy two_waiting-Represents

wait_lem_example :
    (is_positive 0 ≡ true → wait taken busy ≡ some (record taken { i = sub32 0 1 }, busy))
    × (is_positive 0 ≡ false
        → 2 < semaphore_max_waiting
        → (q : Queue ℕ) × (wait taken busy
            ≡ some (record { i = 0; waiting = q }, blocked_at 1 busy))
          × Represents semaphore_max_waiting (7 ∷ 5 ∷ 1 ∷ []) q)
    × (is_positive 0 ≡ false → 2 ≡ semaphore_max_waiting → wait taken busy ≡ none)
wait_lem_example = wait_lem (7 ∷ 5 ∷ []) taken busy 1 two_waiting-Represents refl

taken-Settled : Settled (7 ∷ 5 ∷ []) taken
taken-Settled = record { waiting = two_waiting-Represents; small = omega arith; idle = λ p. refl }

signal-Settled_example :
    Settled (first_thread (live procs busy) (7 ∷ 5 ∷ [])).1 (signal procs taken busy).0
signal-Settled_example = signal-Settled procs (7 ∷ 5 ∷ []) taken busy taken-Settled (omega arith)

wait-Settled_example :
    (sem' : Semaphore) × (s' : Scheduler) × (wait taken busy ≡ some (sem', s'))
    × ((Settled (7 ∷ 5 ∷ []) sem' × (s' ≡ busy))
        ⊎ (Settled (7 ∷ 5 ∷ 1 ∷ []) sem' × (s' ≡ blocked_at 1 busy)))
wait-Settled_example = wait-Settled (7 ∷ 5 ∷ []) taken busy 1 taken-Settled refl (omega arith)

-- Thread 5 wakes, since the thread with the number 7 is gone.
wakes_five : (signal procs taken busy).1.ready_first ≡ some 5
unfolding signal unblock empty enqueue dequeue
wakes_five = refl
