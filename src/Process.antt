-- ===== src/Process.antt =====
-- src/kernel/src/process/proc.cc: threads, the ready queue and the dispatcher.
-- A `thread_t *` is a number, the null pointer is `none`, and the threads in memory are a total store.
pub mod Links
pub mod ReadyQueue
pub mod Fields
mod Kept
pub mod RoundRobin
pub mod Userspace
mod Tests
use rikai_os.Base.{
  ℕ, Bool, true, false, not, Option, none, some, if◌then◌else◌, ◌+◌, ◌%◌, ◌^◌, ◌&&◌, ◌==◌, update,
}

-- The fields of `thread_t` that the scheduler reads or writes.
pub record Thread : Type 0 where
  pub id : ℕ
  pub proc : ℕ
  pub prev_ready : Option ℕ
  pub next_ready : Option ℕ
  pub ticks_running : ℕ
  pub started : Bool
  pub suspended_in_kernel : Bool
  pub blocked : Bool
  pub is_kernel_thread : Bool

-- The variables of the namespace Process.
pub record Scheduler : Type 0 where
  pub thread : ℕ → Thread
  pub scheduler_enabled : Bool
  pub current_thread : Option ℕ
  pub idle_thread : ℕ
  pub ready_first : Option ℕ
  pub ready_last : Option ℕ
  pub paused_userspace_queue : Option ℕ
  pub userspace_paused : Bool

-- The writes `t->next_ready = p`, `t->prev_ready = p` and `t->blocked = b`.
unfoldable pub set_next : ℕ → Option ℕ → Scheduler → Scheduler
set_next t p s = record s { thread = update s.thread t (record (s.thread t) { next_ready = p }) }

unfoldable pub set_prev : ℕ → Option ℕ → Scheduler → Scheduler
set_prev t p s = record s { thread = update s.thread t (record (s.thread t) { prev_ready = p }) }

unfoldable pub set_blocked : ℕ → Bool → Scheduler → Scheduler
set_blocked t b s = record s { thread = update s.thread t (record (s.thread t) { blocked = b }) }

-- The same writes through a pointer that is first tested against null.
unfoldable pub set_next_if : Option ℕ → Option ℕ → Scheduler → Scheduler
unfolding set_next
set_next_if none p s = s
set_next_if (some t) p s = set_next t p s

unfoldable pub set_prev_if : Option ℕ → Option ℕ → Scheduler → Scheduler
unfolding set_prev
set_prev_if none p s = s
set_prev_if (some t) p s = set_prev t p s

unfoldable pub is_null : Option ℕ → Bool
is_null none = true
is_null (some p) = false

-- `p == t` for a pointer and the address of a thread.
unfoldable pub points_to : Option ℕ → ℕ → Bool
points_to none t = false
points_to (some p) t = p == t

dequeue_from : Option ℕ → Scheduler → Option ℕ × Scheduler
unfolding set_next set_prev set_prev_if points_to
dequeue_from none s = (none, s)
dequeue_from (some next) s =
    let first = (s.thread next).next_ready in
    let s1 = set_prev_if first none (record s { ready_first = first }) in
    let s2 = set_next next none (set_prev next none s1) in
    (
      some next,
      record s2 { ready_last = (if points_to s2.ready_last next then none else s2.ready_last) },
    )

-- Pops the next thread from the ready queue.
unfoldable pub dequeue : Scheduler → Option ℕ × Scheduler
unfolding dequeue_from
dequeue s = dequeue_from s.ready_first s

-- The branch of `enqueue` and `enqueue_front` for a paused userspace: the thread goes before the
-- front of the paused queue.
unfoldable pub enqueue_paused : ℕ → Scheduler → Scheduler
unfolding set_next set_prev set_prev_if is_null
enqueue_paused t s =
    let s1 = set_prev t none (set_next t s.paused_userspace_queue s) in
    let s2 = set_prev_if s.paused_userspace_queue (some t) s1 in
    record s2 { paused_userspace_queue = some t }

-- The other branch of `enqueue`: the thread goes behind the last ready one.
unfoldable pub enqueue_ready : ℕ → Scheduler → Scheduler
unfolding set_prev set_next_if is_null
enqueue_ready t s =
    let s1 = set_next_if s.ready_last (some t) (set_prev t s.ready_last s) in
    record s1 {
      ready_first = (if is_null s1.ready_first then some t else s1.ready_first);
      ready_last = some t;
    }

unfoldable pub enqueue : ℕ → Scheduler → Scheduler
unfolding enqueue_paused enqueue_ready set_blocked
enqueue t s = set_blocked t false (
    if s.userspace_paused && not (s.thread t).is_kernel_thread
    then enqueue_paused t s
    else enqueue_ready t s)

-- The other branch of `enqueue_front`: the thread goes before the first ready one.
unfoldable pub enqueue_ready_front : ℕ → Scheduler → Scheduler
unfolding set_next set_prev_if is_null
enqueue_ready_front t s =
    let s1 = set_prev_if s.ready_first (some t) (set_next t s.ready_first s) in
    record s1 {
      ready_first = some t;
      ready_last = (if is_null s1.ready_last then some t else s1.ready_last);
    }

unfoldable pub enqueue_front : ℕ → Scheduler → Scheduler
unfolding enqueue_paused enqueue_ready_front set_blocked
enqueue_front t s = set_blocked t false (
    if not (s.thread t).is_kernel_thread && s.userspace_paused
    then enqueue_paused t s
    else enqueue_ready_front t s)

unfoldable pub unblock : ℕ → Scheduler → Scheduler
unfolding enqueue_front
unblock t s = if (s.thread t).blocked then enqueue_front t s else s

-- Whether `dispatch` enters the thread `old` in the ready queue when `t` takes over.
unfoldable pub is_preempted : Scheduler → ℕ → ℕ → Bool
is_preempted s old t = not (s.thread old).blocked && not (old == t) && not (old == s.idle_thread)

requeue_old : Option ℕ → ℕ → Scheduler → Scheduler
unfolding enqueue is_preempted
requeue_old none t s = s
requeue_old (some old) t s = if is_preempted s old t then enqueue old s else s

-- `dispatch` makes `t` the current thread.
unfoldable pub enter : ℕ → Scheduler → Scheduler
enter t s = record s {
  current_thread = some t;
  thread =
      update s.thread t
        (record (s.thread t) { ticks_running = ((s.thread t).ticks_running + 1) % 2 ^ 64 });
}

-- The end of `dispatch`: the thread resumes in the kernel, or starts from its interrupt frame.
unfoldable pub resume_thread : ℕ → Scheduler → Scheduler
resume_thread t s =
    if (s.thread t).suspended_in_kernel
    then record s {
      thread = update s.thread t (record (s.thread t) { suspended_in_kernel = false });
    }
    else record s { thread = update s.thread t (record (s.thread t) { started = true }) }

unfoldable pub dispatch : ℕ → Scheduler → Scheduler
unfolding requeue_old enter resume_thread
dispatch t s = resume_thread t (requeue_old s.current_thread t (enter t s))

-- With no ready thread, the current one keeps running if it can.
keep_running : Option ℕ → Scheduler → Scheduler
unfolding dispatch
keep_running none s = dispatch s.idle_thread s
keep_running (some c) s =
    if not (s.thread c).blocked then dispatch c s else dispatch s.idle_thread s

run_next : Option ℕ × Scheduler → Scheduler
unfolding keep_running dispatch
run_next (some next, s) = dispatch next s
run_next (none, s) = keep_running s.current_thread s

unfoldable pub dispatch_next_thread : Scheduler → Scheduler
unfolding run_next dequeue dispatch
dispatch_next_thread s =
    if not s.scheduler_enabled then dispatch s.idle_thread s else run_next (dequeue s)

-- `resume_userspace`: the front of the paused queue becomes ready.
resume_paused : Option ℕ → Scheduler → Scheduler
unfolding enqueue
resume_paused none s = s
resume_paused (some t) s = record (enqueue t s) { paused_userspace_queue = none }

unfoldable pub resume_userspace : Scheduler → Scheduler
unfolding resume_paused
resume_userspace s =
    if s.userspace_paused
    then resume_paused s.paused_userspace_queue (record s { userspace_paused = false })
    else s
