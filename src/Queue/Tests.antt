-- ===== src/Queue/Tests.antt =====
-- Runs of the queue of src/kernel/include/os-std/queue.hh.
use rikai_os.Base.{ℕ, refl, true, false, none, some, List, [], arith, ◌≡◌, ◌∷◌}
use rikai_os.Queue.{empty, enqueue, dequeue}
use rikai_os.Queue.Fifo.{
  Call, put, take_one, put_reply, taken, queue_replies, list_replies, queue_replies_fifo,
}

abbrev calls : List (Call ℕ)
calls = take_one ∷ put 7 ∷ put 8 ∷ put 9 ∷ take_one ∷ put 10 ∷ take_one ∷ take_one ∷ []

calls_replies :
    queue_replies 2 calls empty
    ≡ taken none
      ∷ put_reply true
      ∷ put_reply true
      ∷ put_reply false
      ∷ taken (some (some 7))
      ∷ put_reply true
      ∷ taken (some (some 8))
      ∷ taken (some (some 10))
      ∷ []
unfolding queue_replies empty enqueue dequeue
calls_replies = refl

queue_replies_fifo_example : queue_replies 2 calls empty ≡ list_replies 2 calls []
queue_replies_fifo_example = queue_replies_fifo 2 (omega arith) (omega arith) calls
