-- ===== src/Process/Userspace.antt =====
-- Pausing userspace: what `resume_userspace` does with the threads that became ready meanwhile.
use mathlib.Core.Path.{subst}
use rikai_os.Base.{
  ℕ, refl, sym, ap, true, false, Option, none, some, List, [], arith, ◌≡◌, ◌∙◌, ◌∷◌, if-true,
  ==_refl, last?, last?-cons, NotIn,
}
use rikai_os.Process.{
  Thread, Scheduler, enqueue_ready, resume_paused, resume_userspace, set_blocked, set_next_if,
  set_next, set_prev, is_null,
}
use rikai_os.Process.Links.{Linked, Ready, NotIn-last, with_prev}
use rikai_os.Process.ReadyQueue.{enqueue-unpaused, enqueue_ready-thread, with_next_ne}

-- The last thread of a queue has no successor.
Linked-last :
    (c : ℕ → Thread) (p : Option ℕ) (xs : List ℕ) {y : ℕ}
    → Linked c p xs
    → last? xs ≡ some y
    → (c y).next_ready ≡ none
Linked-last c p [] l e = cc
Linked-last c p (x ∷ []) l e = ground (arith, l.1)
Linked-last c p (x ∷ z ∷ xs) l e = Linked-last c (some x) (z ∷ xs) l.2 e

set_prev_next :
    (c : ℕ → Thread) (t : ℕ) (p : Option ℕ) → (with_prev c t p t).next_ready ≡ (c t).next_ready
set_prev_next c t p = ap {A = Thread} (λ v. v.next_ready) (if-true _ _ (==_refl t))

-- `enqueue_ready` leaves the successor of the new thread as it finds it.
enqueue_ready-next :
    (s : Scheduler) (t : ℕ) (xs : List ℕ)
    → Ready s xs
    → NotIn t xs
    → ((enqueue_ready t s).thread t).next_ready ≡ (s.thread t).next_ready
unfolding enqueue_ready set_next_if set_next set_prev is_null
enqueue_ready-next s t [] r n =
    ap (λ p. ((set_next_if p (some t) (set_prev t p s)).thread t).next_ready) r.last
    ∙ set_prev_next s.thread t none
enqueue_ready-next s t (x ∷ xs) r n = go (last?-cons x xs)
  where
    go :
        (y : ℕ) × (last? (x ∷ xs) ≡ some y)
        → ((enqueue_ready t s).thread t).next_ready ≡ (s.thread t).next_ready
    go (y, l) =
        ap (λ f. (f t).next_ready) (enqueue_ready-thread s t y (r.last ∙ l))
        ∙ ap {A = Thread} (λ v. v.next_ready)
            (with_next_ne (with_prev s.thread t (some y)) y t (some t) (NotIn-last t x xs n l))
        ∙ set_prev_next s.thread t (some y)

set_blocked-next :
    (t u : ℕ) (s : Scheduler)
    → ((set_blocked t false s).thread u).next_ready ≡ (s.thread u).next_ready
unfolding set_blocked
set_blocked-next t u s = ground arith

abbrev resumed : Scheduler → ℕ → Scheduler
resumed s p =
    record (set_blocked p false (enqueue_ready p (record s { userspace_paused = false }))) {
      paused_userspace_queue = none;
    }

resume_userspace-resumed :
    (s : Scheduler) (p : ℕ)
    → s.userspace_paused ≡ true
    → s.paused_userspace_queue ≡ some p
    → resume_userspace s ≡ resumed s p
unfolding resume_userspace resume_paused
resume_userspace-resumed s p paused front =
    if-true _ _ paused
    ∙ ap (λ o. resume_paused o (record s { userspace_paused = false })) front
    ∙ ap {A = Scheduler} (λ t. record t { paused_userspace_queue = none })
        (enqueue-unpaused (record s { userspace_paused = false }) p refl)

not_paused-Ready :
    (s : Scheduler) (ys : List ℕ) → Ready s ys → Ready (record s { userspace_paused = false }) ys
not_paused-Ready s ys r = record {
  first = r.first;
  last = r.last;
  links = r.links;
  distinct = r.distinct;
}

resumed-last : (s : Scheduler) (p : ℕ) → (resumed s p).ready_last ≡ some p
unfolding set_blocked enqueue_ready
resumed-last s p = refl

-- When userspace resumes with two or more threads in the paused queue, the ready queue is broken:
-- its last thread has a successor, so it is the queue of no sequence of threads.
pub resume_userspace-broken :
    (s : Scheduler) (p q : ℕ) (ys : List ℕ)
    → s.userspace_paused ≡ true
    → s.paused_userspace_queue ≡ some p
    → (s.thread p).next_ready ≡ some q
    → Ready s ys
    → NotIn p ys
    → (xs : List ℕ) → ¬ Ready (resume_userspace s) xs
resume_userspace-broken s p q ys paused front next r n xs broken = cc (sym successor ∙ none_after)
  where
    queue : Ready (resumed s p) xs
    queue = subst (λ t. Ready t xs) (resume_userspace-resumed s p paused front) broken

    none_after : ((resumed s p).thread p).next_ready ≡ none
    none_after =
        Linked-last (resumed s p).thread none xs queue.links (sym queue.last ∙ resumed-last s p)

    successor : ((resumed s p).thread p).next_ready ≡ some q
    successor =
        set_blocked-next p p (enqueue_ready p (record s { userspace_paused = false }))
        ∙ enqueue_ready-next (record s { userspace_paused = false }) p ys (not_paused-Ready s ys r)
            n
        ∙ next
