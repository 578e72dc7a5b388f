-- ===== src/Process/Kept.antt =====
-- The writes of `dispatch` that leave the ready queue alone.

use rikai_os.Base.{ℕ, refl, Bool, true, false, none, List, arith, if◌then◌else◌, ◌≡◌, update}
use rikai_os.Process.{Thread, Scheduler, enter, resume_thread}
use rikai_os.Process.Links.{Ready, Loose, Linked-same}

-- What a write that leaves the queue alone keeps.
pub record Kept (s s' : Scheduler) : Type 0 where
  pub ready : (xs : List ℕ) → Ready s xs → Ready s' xs
  pub loose : (u : ℕ) → Loose s u → Loose s' u
  pub blocked : (u : ℕ) → (s'.thread u).blocked ≡ (s.thread u).blocked
  pub current : s'.current_thread ≡ s.current_thread
  pub idle : s'.idle_thread ≡ s.idle_thread
  pub enabled : s'.scheduler_enabled ≡ s.scheduler_enabled
  pub paused : s'.userspace_paused ≡ s.userspace_paused

-- A write to one thread that leaves its links and `blocked` alone.
module _ (s : Scheduler) (t : ℕ) (v : Thread) (same_prev : v.prev_ready ≡ (s.thread t).prev_ready)
    (same_next : v.next_ready ≡ (s.thread t).next_ready)
    (same_blocked : v.blocked ≡ (s.thread t).blocked) where
  abbrev pub touch : Scheduler
  touch = record s { thread = update s.thread t v }

  touch-Ready : {xs : List ℕ} → Ready s xs → Ready touch xs
  touch-Ready {xs} r = record {
    first = r.first;
    last = r.last;
    links = Linked-same s.thread none xs t v same_prev same_next r.links;
    distinct = r.distinct;
  }

  touch-Loose : (u : ℕ) → Loose s u → Loose touch u
  touch-Loose u l = record {
    no_prev = ground (arith, l.no_prev);
    no_next = ground (arith, l.no_next);
  }

  touch-blocked : (u : ℕ) → (update s.thread t v u).blocked ≡ (s.thread u).blocked
  touch-blocked u = ground arith

  pub touch-Kept : Kept s touch
  touch-Kept = record {
    ready = λ xs r. touch-Ready r;
    loose = touch-Loose;
    blocked = touch-blocked;
    current = refl;
    idle = refl;
    enabled = refl;
    paused = refl;
  }

if-Kept :
    (s : Scheduler) (b : Bool) {x y : Scheduler} → Kept s x → Kept s y → Kept s (if b then x else y)
if-Kept s true k l = k
if-Kept s false k l = l

pub resume_thread-Kept : (t : ℕ) (s : Scheduler) → Kept s (resume_thread t s)
unfolding resume_thread
resume_thread-Kept t s =
    if-Kept s (s.thread t).suspended_in_kernel (touch-Kept s t _ refl refl refl)
      (touch-Kept s t _ refl refl refl)

pub enter-Ready : (t : ℕ) (s : Scheduler) (xs : List ℕ) → Ready s xs → Ready (enter t s) xs
unfolding enter
enter-Ready t s xs r = record {
  first = r.first;
  last = r.last;
  links = Linked-same s.thread none xs t _ refl refl r.links;
  distinct = r.distinct;
}

pub enter-Loose : (t : ℕ) (s : Scheduler) (u : ℕ) → Loose s u → Loose (enter t s) u
unfolding enter
enter-Loose t s u l = record {
  no_prev = ground (arith, l.no_prev);
  no_next = ground (arith, l.no_next);
}

pub enter-blocked :
    (t : ℕ) (s : Scheduler) (u : ℕ) → ((enter t s).thread u).blocked ≡ (s.thread u).blocked
unfolding enter
enter-blocked t s u = ground arith
