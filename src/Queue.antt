-- ===== src/Queue.antt =====
-- src/kernel/include/os-std/queue.hh: the queue of fixed capacity `N` in a ring of cells.
-- A cell is an item or, as `none`, the null item that stands there before a write and after a read.
pub mod Ring
pub mod Fifo
mod Tests
use rikai_os.Base.{
  ℕ, Bool, true, false, Option, none, some, if◌then◌else◌, ◌==◌, add32, sub32, update,
}

pub record Queue (A : Type 0) : Type 0 where
  pub items : ℕ → Option A
  pub length_ : ℕ
  pub i_writer : ℕ
  pub i_reader : ℕ

-- The constructor: no items, both indices at the first cell.
unfoldable pub empty : {A : Type 0} → Queue A
empty = record { items = λ i. none; length_ = 0; i_writer = 0; i_reader = 0 }

-- An index moves on and wraps around behind the last cell.
unfoldable pub increment : ℕ → ℕ → ℕ
increment N i = if i == sub32 N 1 then 0 else add32 i 1

-- The item goes to the reference that `dequeue` is given.
unfoldable pub found : {A : Type 0} → Option A × Queue A → Option (Option A) × Queue A
found (x, q) = (some x, q)

module _ {A : Type 0} (N : ℕ) where
  -- `enqueue_`, which assumes that there is room.
  unfoldable pub enqueue_unchecked : A → Queue A → Queue A
  unfolding increment
  enqueue_unchecked x q = record {
    items = update q.items q.i_writer (some x);
    length_ = add32 q.length_ 1;
    i_writer = increment N q.i_writer;
    i_reader = q.i_reader;
  }

  unfoldable pub enqueue : A → Queue A → Bool × Queue A
  unfolding enqueue_unchecked
  enqueue x q = if q.length_ == N then (false, q) else (true, enqueue_unchecked x q)

  -- `dequeue_`, which assumes that there is an item: the content of the cell that is read.
  unfoldable pub dequeue_unchecked : Queue A → Option A × Queue A
  unfolding increment
  dequeue_unchecked q = (
    q.items q.i_reader,
    record {
      items = update q.items q.i_reader none;
      length_ = sub32 q.length_ 1;
      i_writer = q.i_writer;
      i_reader = increment N q.i_reader;
    },
  )

  -- `none` when `dequeue` returns false.
  unfoldable pub dequeue : Queue A → Option (Option A) × Queue A
  unfolding dequeue_unchecked found
  dequeue q = if q.length_ == 0 then (none, q) else found (dequeue_unchecked q)
