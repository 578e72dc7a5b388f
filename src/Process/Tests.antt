-- ===== src/Process/Tests.antt =====
-- Runs of the scheduler, and its theorems at concrete states.
use rikai_os.Base.{
  ℕ, refl, Bool, true, false, Option, none, some, [], arith, if◌then◌else◌, ◌≡◌, ◌∷◌, ◌==◌,
}
use rikai_os.Process.{Thread, Scheduler, dequeue, enqueue, dispatch_next_thread, resume_userspace}
use rikai_os.Process.Links.{Ready, Loose}
use rikai_os.Process.ReadyQueue.{dequeue-Ready, enqueue-Ready}
use rikai_os.Process.RoundRobin.{
  Running, dispatch_next_thread-Running, dispatches, dispatches-reach,
}
use rikai_os.Process.Userspace.{resume_userspace-broken}

abbrev thread : ℕ → Option ℕ → Option ℕ → Bool → Thread
thread t prev next blocked = record {
  id = t;
  proc = 2;
  prev_ready = prev;
  next_ready = next;
  ticks_running = 0;
  started = true;
  suspended_in_kernel = false;
  blocked = blocked;
  is_kernel_thread = false;
}

-- Thread 1 runs, 2 and 3 are ready, 4 is blocked, and 0 is the idle thread.
abbrev threads : ℕ → Thread
threads t =
    if t == 2
    then thread t none (some 3) false
    else if t == 3
    then thread t (some 2) none false
    else thread t none none (t == 4)

abbrev busy : Scheduler
busy = record {
  thread = threads;
  scheduler_enabled = true;
  current_thread = some 1;
  idle_thread = 0;
  ready_first = some 2;
  ready_last = some 3;
  paused_userspace_queue = none;
  userspace_paused = false;
}

busy-Ready : Ready busy (2 ∷ 3 ∷ [])
busy-Ready = record {
  first = refl;
  last = refl;
  links = (refl, refl, (refl, refl, tt));
  distinct = omega arith;
}

four-Loose : Loose busy 4
four-Loose = record { no_prev = refl; no_next = refl }

busy-Running : Running busy 1 (2 ∷ 3 ∷ [])
busy-Running = record {
  ready = busy-Ready;
  current = refl;
  outside = omega arith;
  loose = record { no_prev = refl; no_next = refl };
  awake = (refl, (refl, (refl, tt)));
  not_idle = omega arith;
  enabled = refl;
  unpaused = refl;
}

dequeue-Ready_example :
    ((dequeue busy).0 ≡ some 2) × Ready (dequeue busy).1 (3 ∷ []) × Loose (dequeue busy).1 2
dequeue-Ready_example = dequeue-Ready busy 2 (3 ∷ []) busy-Ready

enqueue-Ready_example :
    Ready (enqueue 4 busy) (2 ∷ 3 ∷ 4 ∷ []) × (((enqueue 4 busy).thread 4).blocked ≡ false)
enqueue-Ready_example = enqueue-Ready busy 4 (2 ∷ 3 ∷ []) refl four-Loose (omega arith) busy-Ready

dispatch_next_thread-Running_example : Running (dispatch_next_thread busy) 2 (3 ∷ 1 ∷ [])
dispatch_next_thread-Running_example = dispatch_next_thread-Running busy 1 2 (3 ∷ []) busy-Running

dispatches-reach_example : (dispatches 2 busy).current_thread ≡ some 3
dispatches-reach_example = dispatches-reach busy 1 3 (2 ∷ []) [] busy-Running

-- Userspace is paused, and the threads 5 and 6 have become ready meanwhile, in this order.
abbrev paused : Scheduler
paused = record busy {
  thread = λ t. if t == 6 then thread 6 none (some 5) false else threads t;
  paused_userspace_queue = some 6;
  userspace_paused = true;
}

paused-Ready : Ready paused (2 ∷ 3 ∷ [])
paused-Ready = record {
  first = refl;
  last = refl;
  links = (refl, refl, (refl, refl, tt));
  distinct = omega arith;
}

resume_userspace-broken_example : ¬ Ready (resume_userspace paused) (2 ∷ 3 ∷ 6 ∷ 5 ∷ [])
resume_userspace-broken_example =
    resume_userspace-broken paused 6 5 (2 ∷ 3 ∷ []) refl refl refl paused-Ready (omega arith)
      (2 ∷ 3 ∷ 6 ∷ 5 ∷ [])
