-- ===== src/Process/RoundRobin.antt =====
-- The dispatcher is a round robin over the threads that are ready.
use mathlib.Core.List.{append_assoc}
use mathlib.Core.Path.{subst}
use rikai_os.Base.{
  ℕ, zero, suc, sym, ap, true, false, Option, none, some, List, [], arith, ◌≡◌, ◌∙◌, ◌∷◌, ◌++◌,
  if-true, if-false, and_true, not-true, not-false, ==_ne, length, All, All-append, NotIn,
}
use rikai_os.Process.{
  Scheduler, dequeue, enqueue, enqueue_ready, enter, resume_thread, requeue_old, dispatch,
  dispatch_next_thread, run_next, is_preempted, set_blocked,
}
use rikai_os.Process.Links.{Ready, Loose}
use rikai_os.Process.Kept.{resume_thread-Kept, enter-Ready, enter-Loose, enter-blocked}
use rikai_os.Process.Fields.{dequeue-Frame, enqueue_ready-Frame}
use rikai_os.Process.ReadyQueue.{
  dequeue-Ready, dequeue-thread_other, enqueue-unpaused, enqueue_ready-Ready,
  enqueue_ready-thread_other, set_blocked-Ready,
}

-- The current thread is `c` and the threads `xs` are ready, front first. None of them is blocked or
-- the idle thread, the scheduler is enabled and userspace is not paused.
pub record Running (s : Scheduler) (c : ℕ) (xs : List ℕ) : Type 0 where
  pub ready : Ready s xs
  pub current : s.current_thread ≡ some c
  pub outside : NotIn c xs
  pub loose : Loose s c
  pub awake : All (λ t. (s.thread t).blocked ≡ false) (c ∷ xs)
  pub not_idle : NotIn s.idle_thread (c ∷ xs)
  pub enabled : s.scheduler_enabled ≡ true
  pub unpaused : s.userspace_paused ≡ false

All-map {ℓ κ} :
    {A : Type 0} (P : A → Type ℓ) (Q : A → Type κ) (xs : List A)
    → ((x : A) → P x → Q x)
    → All P xs
    → All Q xs
All-map P Q [] f h = tt
All-map P Q (x ∷ xs) f h = (f x h.0, All-map P Q xs f h.1)

run_next-some : (r : Option ℕ × Scheduler) (x : ℕ) → r.0 ≡ some x → run_next r ≡ dispatch x r.1
unfolding run_next
run_next-some (none, s) x e = cc
run_next-some (some y, s) x e = ap (λ p. dispatch p s) (cc)

set_blocked-awake :
    (t : ℕ) (s : Scheduler) (u : ℕ)
    → (s.thread u).blocked ≡ false
    → ((set_blocked t false s).thread u).blocked ≡ false
unfolding set_blocked
set_blocked-awake t s u e = ground arith

set_blocked-Loose : (t : ℕ) (s : Scheduler) (u : ℕ) → Loose s u → Loose (set_blocked t false s) u
unfolding set_blocked
set_blocked-Loose t s u l = record {
  no_prev = ground (arith, l.no_prev);
  no_next = ground (arith, l.no_next);
}

-- One call of the dispatcher while `c` runs and `x` is first in the queue.
same-Loose : {s s' : Scheduler} {u : ℕ} → s'.thread u ≡ s.thread u → Loose s u → Loose s' u
same-Loose e l = record {
  no_prev = ap (λ t. t.prev_ready) e ∙ l.no_prev;
  no_next = ap (λ t. t.next_ready) e ∙ l.no_next;
}

module _ (s : Scheduler) (c x : ℕ) (xs : List ℕ) (r : Running s c (x ∷ xs)) where
  abbrev popped : Scheduler
  popped = (dequeue s).1

  abbrev entered : Scheduler
  entered = enter x popped

  abbrev requeued : Scheduler
  requeued = enqueue_ready c entered

  abbrev after : Scheduler
  after = resume_thread x (set_blocked c false requeued)

  entered-idle : entered.idle_thread ≡ s.idle_thread
  unfolding enter
  entered-idle = (dequeue-Frame s).idle

  entered-enabled : entered.scheduler_enabled ≡ true
  unfolding enter
  entered-enabled = (dequeue-Frame s).enabled ∙ r.enabled

  entered-blocked : (u : ℕ) → (entered.thread u).blocked ≡ (s.thread u).blocked
  entered-blocked u = enter-blocked x popped u ∙ (dequeue-Frame s).blocked u

  preempts : is_preempted entered c x ≡ true
  unfolding is_preempted
  preempts =
      and_true
        (and_true (not-true (entered-blocked c ∙ r.awake.0)) (not-true (==_ne c x r.outside.0)))
        (not-true (==_ne c _ (λ e. r.not_idle.0 (sym (e ∙ entered-idle)))))

  entered-unpaused : entered.userspace_paused ≡ false
  unfolding enter
  entered-unpaused = (dequeue-Frame s).paused ∙ r.unpaused

  requeue : (old : Option ℕ) → old ≡ some c → requeue_old old x entered ≡ enqueue c entered
  unfolding requeue_old
  requeue old e = ap (λ o. requeue_old o x entered) e ∙ if-true _ _ preempts

  dispatch_next_thread-after : dispatch_next_thread s ≡ after
  unfolding dispatch_next_thread dispatch
  dispatch_next_thread-after =
      if-false _ _ (not-false r.enabled)
      ∙ run_next-some (dequeue s) x (dequeue-Ready s x xs r.ready).0
      ∙ ap (resume_thread x) (requeue popped.current_thread ((dequeue-Frame s).current ∙ r.current))
      ∙ ap (resume_thread x) (enqueue-unpaused entered c entered-unpaused)

  entered-Ready : Ready entered xs
  entered-Ready = enter-Ready x popped xs (dequeue-Ready s x xs r.ready).1

  c-Loose : Loose entered c
  c-Loose =
      enter-Loose x popped c (same-Loose (dequeue-thread_other s x xs c r.ready r.outside) r.loose)

  x-Loose : Loose requeued x
  x-Loose =
      same-Loose
        (enqueue_ready-thread_other entered c xs x entered-Ready r.ready.distinct.0
          (λ e. r.outside.0 (sym e)))
        (enter-Loose x popped x (dequeue-Ready s x xs r.ready).2)

  awake_after : (u : ℕ) → (s.thread u).blocked ≡ false → (after.thread u).blocked ≡ false
  awake_after u e =
      (resume_thread-Kept x (set_blocked c false requeued)).blocked u
      ∙ set_blocked-awake c requeued u
          ((enqueue_ready-Frame c entered).blocked u ∙ entered-blocked u ∙ e)

  after-idle : after.idle_thread ≡ s.idle_thread
  unfolding set_blocked
  after-idle =
      (resume_thread-Kept x (set_blocked c false requeued)).idle
      ∙ (enqueue_ready-Frame c entered).idle
      ∙ entered-idle

  after-current : after.current_thread ≡ some x
  unfolding set_blocked enter
  after-current =
      (resume_thread-Kept x (set_blocked c false requeued)).current
      ∙ (enqueue_ready-Frame c entered).current

  after-enabled : after.scheduler_enabled ≡ true
  unfolding set_blocked
  after-enabled =
      (resume_thread-Kept x (set_blocked c false requeued)).enabled
      ∙ (enqueue_ready-Frame c entered).enabled
      ∙ entered-enabled

  after-unpaused : after.userspace_paused ≡ false
  unfolding set_blocked
  after-unpaused =
      (resume_thread-Kept x (set_blocked c false requeued)).paused
      ∙ (enqueue_ready-Frame c entered).paused
      ∙ entered-unpaused

  after-Running : Running after x (xs ++ c ∷ [])
  after-Running = record {
    ready = (resume_thread-Kept x (set_blocked c false requeued)).ready (xs ++ c ∷ []) (
        set_blocked-Ready requeued c false (xs ++ c ∷ [])
          (enqueue_ready-Ready entered c xs c-Loose.no_next r.outside.1 entered-Ready));
    current = after-current;
    outside = All-append _ xs (c ∷ []) r.ready.distinct.0 ((λ e. r.outside.0 (sym e)), tt);
    loose =
        (resume_thread-Kept x (set_blocked c false requeued)).loose x
          (set_blocked-Loose c requeued x x-Loose);
    awake =
        All-map _ _ (x ∷ xs ++ c ∷ []) awake_after
          (r.awake.1.0, All-append _ xs (c ∷ []) r.awake.1.1 (r.awake.0, tt));
    not_idle =
        subst (λ i. NotIn i (x ∷ xs ++ c ∷ [])) (sym after-idle)
          (r.not_idle.1.0, All-append _ xs (c ∷ []) r.not_idle.1.1 (r.not_idle.0, tt));
    enabled = after-enabled;
    unpaused = after-unpaused;
  }

  -- While the scheduler is enabled and userspace is not paused, and where neither the current thread nor
  -- a ready one is blocked or the idle thread: one call of the dispatcher runs the first ready thread,
  -- puts the thread that ran behind the others, and all of this holds of the queue that results, whose
  -- links are intact.
  pub dispatch_next_thread-Running : Running (dispatch_next_thread s) x (xs ++ c ∷ [])
  dispatch_next_thread-Running =
      subst (λ t. Running t x (xs ++ c ∷ [])) (sym dispatch_next_thread-after) after-Running

-- The state after `n` calls of the dispatcher.
abbrev pub dispatches : ℕ → Scheduler → Scheduler
dispatches zero s = s
dispatches (suc n) s = dispatches n (dispatch_next_thread s)

-- While the scheduler is enabled and userspace is not paused, and where neither the current thread nor a
-- ready one is blocked or the idle thread, each ready thread gets its turn: with `n` threads before it
-- in the queue, it is the current one after `n + 1` calls of the dispatcher.
pub dispatches-reach :
    (s : Scheduler) (c x : ℕ) (ys zs : List ℕ)
    → Running s c (ys ++ x ∷ zs)
    → (dispatches (suc (length ys)) s).current_thread ≡ some x
dispatches-reach s c x [] zs r = (dispatch_next_thread-Running s c x zs r).current
dispatches-reach s c x (y ∷ ys) zs r =
    dispatches-reach (dispatch_next_thread s) y x ys (zs ++ c ∷ []) (
      rw (← append_assoc ys (x ∷ zs) (c ∷ []))
        (dispatch_next_thread-Running s c y (ys ++ x ∷ zs) r))
