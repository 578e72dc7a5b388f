-- ===== src/Process/ReadyQueue.antt =====
-- The ready queue behaves as a sequence of threads: `enqueue` puts a thread last, `enqueue_front`
-- first, and `dequeue` takes the first away.
use mathlib.Core.Path.{subst}
use rikai_os.Base.{
  ℕ, refl, sym, ap, Bool, false, Option, none, some, List, [], arith, ◌≡◌, ◌∙◌, ◌≢◌, ◌∷◌, ◌++◌,
  if-false, and-false_left, ==_ne, last?, last?-append, last?-cons, All-append, NotIn, Distinct,
}
use rikai_os.Process.Links.{
  Linked, Ready, Loose, Linked-update, Linked-same, Linked-head, Linked-snoc, with_next, with_prev,
  NotIn-last,
}
use rikai_os.Process.{
  Thread, Scheduler, dequeue, dequeue_from, enqueue, enqueue_ready, set_next, set_prev, set_blocked,
  set_next_if, set_prev_if, is_null, points_to,
}

-- Setting `blocked` does not touch the queue.
pub set_blocked-Ready :
    (s : Scheduler) (t : ℕ) (b : Bool) (xs : List ℕ) → Ready s xs → Ready (set_blocked t b s) xs
unfolding set_blocked
set_blocked-Ready s t b xs r = record {
  first = r.first;
  last = r.last;
  links = Linked-same s.thread none xs t _ refl refl r.links;
  distinct = r.distinct;
}

set_blocked_lem : (t : ℕ) (b : Bool) (s : Scheduler) → ((set_blocked t b s).thread t).blocked ≡ b
unfolding set_blocked
set_blocked_lem t b s = ground arith

pub with_next_ne : (c : ℕ → Thread) (k t : ℕ) (p : Option ℕ) → t ≢ k → with_next c k p t ≡ c t
with_next_ne c k t p n = if-false _ _ (==_ne k t (λ e. n (sym e)))

pub with_prev_ne : (c : ℕ → Thread) (k t : ℕ) (p : Option ℕ) → t ≢ k → with_prev c k p t ≡ c t
with_prev_ne c k t p n = if-false _ _ (==_ne k t (λ e. n (sym e)))

pub Distinct-snoc : (xs : List ℕ) (t : ℕ) → NotIn t xs → Distinct xs → Distinct (xs ++ t ∷ [])
Distinct-snoc [] t n d = (tt, tt)
Distinct-snoc (x ∷ xs) t n d =
    (All-append _ xs (t ∷ []) d.0 ((λ e. n.0 (sym e)), tt), Distinct-snoc xs t n.1 d.1)

pub enqueue_ready-thread :
    (s : Scheduler) (t y : ℕ)
    → s.ready_last ≡ some y
    → (enqueue_ready t s).thread ≡ with_next (with_prev s.thread t (some y)) y (some t)
unfolding enqueue_ready set_next_if set_next set_prev is_null
enqueue_ready-thread s t y e = rw (e, set_next_if) refl

-- A thread that is neither queued nor on the queue is not written by `enqueue`.
pub enqueue_ready-thread_other :
    (s : Scheduler) (t : ℕ) (xs : List ℕ) (u : ℕ)
    → Ready s xs
    → NotIn u xs
    → u ≢ t
    → (enqueue_ready t s).thread u ≡ s.thread u
unfolding enqueue_ready set_next_if set_next set_prev is_null
enqueue_ready-thread_other s t [] u r n ne =
    ap (λ p. (set_next_if p (some t) (set_prev t p s)).thread u) r.last
    ∙ with_prev_ne s.thread t u none ne
enqueue_ready-thread_other s t (x ∷ xs) u r n ne = go (last?-cons x xs)
  where
    go : (y : ℕ) × (last? (x ∷ xs) ≡ some y) → (enqueue_ready t s).thread u ≡ s.thread u
    go (y, l) =
        ap (λ f. f u) (enqueue_ready-thread s t y (r.last ∙ l))
        ∙ (with_next_ne (with_prev s.thread t (some y)) y u (some t) (NotIn-last u x xs n l)
            ∙ with_prev_ne s.thread t u (some y) ne)

pub enqueue_ready-Ready :
    (s : Scheduler) (t : ℕ) (xs : List ℕ)
    → (s.thread t).next_ready ≡ none
    → NotIn t xs
    → Ready s xs
    → Ready (enqueue_ready t s) (xs ++ t ∷ [])
unfolding enqueue_ready set_next_if set_next set_prev is_null
enqueue_ready-Ready s t [] e n r = ground arith
enqueue_ready-Ready s t (x ∷ xs) e n r = go (last?-cons x xs)
  where
    go : (y : ℕ) × (last? (x ∷ xs) ≡ some y) → Ready (enqueue_ready t s) (x ∷ xs ++ t ∷ [])
    go (y, l) = record {
      first = ground (arith, r.first, r.last, l);
      last = sym (last?-append (x ∷ xs) t);
      links =
          subst (λ c. Linked c none (x ∷ xs ++ t ∷ []))
            (sym (enqueue_ready-thread s t y (r.last ∙ l)))
            (Linked-snoc (with_prev s.thread t (some y)) none x xs t y l r.distinct n (ground arith)
              (ground arith) (Linked-update s.thread none (x ∷ xs) t _ n r.links));
      distinct = Distinct-snoc (x ∷ xs) t n r.distinct;
    }

dequeue-thread :
    (s : Scheduler) (x : ℕ) (q : Option ℕ)
    → s.ready_first ≡ some x
    → (s.thread x).next_ready ≡ q
    → (dequeue s).1.thread
      ≡ with_next
          (with_prev (set_prev_if q none (record s { ready_first = q })).thread x none)
          x
          none
unfolding dequeue set_prev_if set_next set_prev points_to
dequeue-thread s x q e f =
    ap (λ p. (dequeue_from p s).1.thread) e
    ∙ ap
        (λ q.
          with_next (with_prev (set_prev_if q none (record s { ready_first = q })).thread x none) x
            none)
        f

pub dequeue-Ready :
    (s : Scheduler) (x : ℕ) (xs : List ℕ)
    → Ready s (x ∷ xs)
    → ((dequeue s).0 ≡ some x) × Ready (dequeue s).1 xs × Loose (dequeue s).1 x
unfolding dequeue set_prev_if set_next set_prev points_to
dequeue-Ready s x [] r = ground arith
dequeue-Ready s x (y ∷ xs) r = (
  found,
  record {
    first = first_now;
    last = last_now;
    links = subst (λ c. Linked c none (y ∷ xs)) (sym written) kept;
    distinct = r.distinct.1;
  },
  record { no_prev = rw written (ground arith); no_next = rw written (ground arith) },
)
  where
    written : (dequeue s).1.thread ≡ with_next (with_prev (with_prev s.thread y none) x none) x none
    written = dequeue-thread s x (some y) r.first r.links.1

    kept : Linked (with_next (with_prev (with_prev s.thread y none) x none) x none) none (y ∷ xs)
    kept = Linked-update _ none (y ∷ xs) x _ r.distinct.0 (
        Linked-update _ none (y ∷ xs) x _ r.distinct.0
          (Linked-head s.thread none y xs r.distinct.1.0 r.links.2))

    found : (dequeue s).0 ≡ some x
    found = rw (r.first, dequeue_from)

    first_now : (dequeue s).1.ready_first ≡ some y
    first_now = rw (r.first, dequeue_from, r.links.1, set_prev_if)

    last_now : (dequeue s).1.ready_last ≡ last? (y ∷ xs)
    last_now = go (last?-cons y xs)
      where
        go : (z : ℕ) × (last? (y ∷ xs) ≡ some z) → (dequeue s).1.ready_last ≡ last? (y ∷ xs)
        go (z, l) = ground (arith, r.first, r.links.1, r.last, l, NotIn-last x y xs r.distinct.0 l)

-- A thread that is not on the queue is not written by `dequeue`.
pub dequeue-thread_other :
    (s : Scheduler) (x : ℕ) (xs : List ℕ) (t : ℕ)
    → Ready s (x ∷ xs)
    → NotIn t (x ∷ xs)
    → (dequeue s).1.thread t ≡ s.thread t
unfolding dequeue set_prev_if set_next set_prev points_to
dequeue-thread_other s x [] t r n =
    ap (λ f. f t) (dequeue-thread s x none r.first r.links.1)
    ∙ (with_next_ne (with_prev s.thread x none) x t none n.0 ∙ with_prev_ne s.thread x t none n.0)
dequeue-thread_other s x (y ∷ xs) t r n =
    ap (λ f. f t) (dequeue-thread s x (some y) r.first r.links.1)
    ∙ (with_next_ne (with_prev (with_prev s.thread y none) x none) x t none n.0
        ∙ (with_prev_ne (with_prev s.thread y none) x t none n.0
            ∙ with_prev_ne s.thread y t none n.1.0))

pub enqueue-unpaused :
    (s : Scheduler) (t : ℕ)
    → s.userspace_paused ≡ false
    → enqueue t s ≡ set_blocked t false (enqueue_ready t s)
unfolding enqueue
enqueue-unpaused s t u = ap (set_blocked t false) (if-false _ _ (and-false_left _ u))

-- `enqueue` puts a thread with no links behind the ready ones, unless userspace is paused, and marks
-- it as not blocked.
pub enqueue-Ready :
    (s : Scheduler) (t : ℕ) (xs : List ℕ)
    → s.userspace_paused ≡ false
    → Loose s t
    → NotIn t xs
    → Ready s xs
    → Ready (enqueue t s) (xs ++ t ∷ []) × (((enqueue t s).thread t).blocked ≡ false)
enqueue-Ready s t xs u l n r = rw (enqueue-unpaused s t u) (
  set_blocked-Ready _ t false _ (enqueue_ready-Ready s t xs l.no_next n r),
  set_blocked_lem t false _,
)
