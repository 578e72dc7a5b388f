-- ===== src/Process/Fields.antt =====
-- What the operations on the ready queue leave as it was.
use rikai_os.Base.{ℕ, refl, Option, none, some, arith, ◌≡◌, ◌∙◌, update}
use rikai_os.Process.{
  Thread, Scheduler, dequeue, dequeue_from, enqueue_ready, set_next, set_prev, set_next_if,
  set_prev_if,
}

-- From `s` to `s'` no thread is blocked or unblocked, and only the queue has changed.
pub record Frame (s s' : Scheduler) : Type 0 where
  pub blocked : (t : ℕ) → (s'.thread t).blocked ≡ (s.thread t).blocked
  pub current : s'.current_thread ≡ s.current_thread
  pub idle : s'.idle_thread ≡ s.idle_thread
  pub enabled : s'.scheduler_enabled ≡ s.scheduler_enabled
  pub paused : s'.userspace_paused ≡ s.userspace_paused

Frame-trans : {s s' s'' : Scheduler} → Frame s s' → Frame s' s'' → Frame s s''
Frame-trans f g = record {
  blocked = λ t. g.blocked t ∙ f.blocked t;
  current = g.current ∙ f.current;
  idle = g.idle ∙ f.idle;
  enabled = g.enabled ∙ f.enabled;
  paused = g.paused ∙ f.paused;
}

-- A write to one thread that leaves `blocked` alone.
update-blocked :
    (c : ℕ → Thread) (t : ℕ) (v : Thread) (u : ℕ)
    → v.blocked ≡ (c t).blocked
    → (update c t v u).blocked ≡ (c u).blocked
update-blocked c t v u e = ground (arith, e)

set_prev-Frame : (t : ℕ) (p : Option ℕ) (s : Scheduler) → Frame s (set_prev t p s)
unfolding set_prev
set_prev-Frame t p s = record {
  blocked = λ u. update-blocked s.thread t _ u refl;
  current = refl;
  idle = refl;
  enabled = refl;
  paused = refl;
}

set_next-Frame : (t : ℕ) (p : Option ℕ) (s : Scheduler) → Frame s (set_next t p s)
unfolding set_next
set_next-Frame t p s = record {
  blocked = λ u. update-blocked s.thread t _ u refl;
  current = refl;
  idle = refl;
  enabled = refl;
  paused = refl;
}

Frame-refl : (s : Scheduler) → Frame s s
Frame-refl s = record {
  blocked = λ t. refl;
  current = refl;
  idle = refl;
  enabled = refl;
  paused = refl;
}

set_prev_if-Frame : (q p : Option ℕ) (s : Scheduler) → Frame s (set_prev_if q p s)
unfolding set_prev_if
set_prev_if-Frame none p s = Frame-refl s
set_prev_if-Frame (some t) p s = set_prev-Frame t p s

set_next_if-Frame : (q p : Option ℕ) (s : Scheduler) → Frame s (set_next_if q p s)
unfolding set_next_if
set_next_if-Frame none p s = Frame-refl s
set_next_if-Frame (some t) p s = set_next-Frame t p s

-- The variables `ready_first` and `ready_last` are not part of the frame.
set_ends-Frame :
    {s s' : Scheduler} (p q : Option ℕ)
    → Frame s s'
    → Frame s (record s' { ready_first = p; ready_last = q })
set_ends-Frame p q f = record {
  blocked = f.blocked;
  current = f.current;
  idle = f.idle;
  enabled = f.enabled;
  paused = f.paused;
}

dequeue_from-Frame : (p : Option ℕ) (s : Scheduler) → Frame s (dequeue_from p s).1
unfolding dequeue_from
dequeue_from-Frame none s = Frame-refl s
dequeue_from-Frame (some x) s =
    let q = (s.thread x).next_ready in
    set_ends-Frame _ _ (
      Frame-trans (set_ends-Frame q s.ready_last (Frame-refl s)) (
        Frame-trans (set_prev_if-Frame q none _)
          (Frame-trans (set_prev-Frame x none _) (set_next-Frame x none _))))

pub dequeue-Frame : (s : Scheduler) → Frame s (dequeue s).1
unfolding dequeue
dequeue-Frame s = dequeue_from-Frame s.ready_first s

pub enqueue_ready-Frame : (t : ℕ) (s : Scheduler) → Frame s (enqueue_ready t s)
unfolding enqueue_ready
enqueue_ready-Frame t s =
    set_ends-Frame _ _
      (Frame-trans (set_prev-Frame t s.ready_last s) (set_next_if-Frame s.ready_last (some t) _))
