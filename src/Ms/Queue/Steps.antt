-- ===== src/Ms/Queue/Steps.antt =====
-- The interleavings of a queue: its loop, the goroutines that put messages, and the readers.
use srvbus.Common.{ℕ, ◌≡◌, Bool, true, List, [], ◌∷◌, ◌++◌, Uuid}
use srvbus.Ms.Message.{Message}
use srvbus.Ms.Queue.{MsgRegRequest, MQueue, register, stop_loop, put_messages}

-- One step that is no read. `done` tells whether the context of the queue is done.
pub data Step (done : Bool) (q : MQueue) : MQueue → Type 0 where
  put : (sender : Uuid) (msgs : List Message) → Step done q (put_messages sender msgs q).0
  -- the loop takes a request from a goroutine of `putMessages`
  deliver :
      (now : ℕ) (r : MsgRegRequest) (rs : List MsgRegRequest) (xs ys : List (List MsgRegRequest))
      → q.looping ≡ true
      → q.puts ≡ xs ++ (r ∷ rs) ∷ ys
      → Step done q (register now r (record q { puts = xs ++ rs ∷ ys }))
  -- such a goroutine gives up, or has sent everything
  give_up :
      (rs : List MsgRegRequest) (xs ys : List (List MsgRegRequest))
      → done ≡ true
      → q.puts ≡ xs ++ rs ∷ ys
      → Step done q (record q { puts = xs ++ ys })
  finish :
      (xs ys : List (List MsgRegRequest))
      → q.puts ≡ xs ++ [] ∷ ys
      → Step done q (record q { puts = xs ++ ys })
  end_loop : done ≡ true → q.looping ≡ true → Step done q (stop_loop q)
