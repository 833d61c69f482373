-- ===== src/Ms/Server/Steps.antt =====
-- What happens to a message server: calls, the loops of its queues, and its context.
use srvbus.Common.{ℕ, ◌≡◌, Bool, true, false, List, [], ◌∷◌, ◌++◌, some, Uuid, ok, lookup, insert}
use srvbus.Common.Text.{Str, str_eq}
use srvbus.Es.Topic.{live, cancelled}
use srvbus.Ms.Message.{Message}
use srvbus.Ms.Queue.{MessageEnvelope, MsgRegRequest, MQueue, stop_loop}
use srvbus.Ms.Server.{MessageServer, srv_end, emit_event, run, put, get, receive}

module _ (show_uuid : Uuid → Str) where
  -- One step of a goroutine that puts messages, with the loop of its queue.
  pub data Turn (s : MessageServer) : MessageServer → Type 0 where
    -- the loop of a queue takes a message from a goroutine
    receives :
        (now : ℕ) (k : Str) (q : MQueue) (r : MsgRegRequest) (rs : List MsgRegRequest)
        (xs ys : List (List MsgRegRequest))
        → lookup k s.queues ≡ some q
        → q.looping ≡ true
        → q.puts ≡ xs ++ (r ∷ rs) ∷ ys
        → Turn s (receive show_uuid now s k r (record q { puts = xs ++ rs ∷ ys }))
    -- a goroutine that puts messages has sent all, or gives up
    finishes :
        (k : Str) (q : MQueue) (xs ys : List (List MsgRegRequest))
        → lookup k s.queues ≡ some q
        → q.puts ≡ xs ++ [] ∷ ys
        → Turn s (record s { queues = insert k (record q { puts = xs ++ ys }) s.queues })

  -- These goroutines and loops run; no call is made.
  pub data Turns (s : MessageServer) : MessageServer → Type 0 where
    still : Turns s s
    moves : {t u : MessageServer} → Turns s t → Turn t u → Turns s u

  -- One call or one step of a goroutine.
  pub data Step (s : MessageServer) : MessageServer → Type 0 where
    emits : (now : ℕ) (name descr : Str) → Step s (emit_event show_uuid now s name descr)
    starts : (now : ℕ) → Step s (run show_uuid now s).0
    puts :
        (now : ℕ) (sender : Uuid) (queue : Str) (msgs : List Message)
        → Step s (put show_uuid now s sender queue msgs).0
    gets :
        (receiver : Uuid) (queue : Str) (from_begin : Bool) (t : MessageServer)
        (res : List MessageEnvelope)
        → get s receiver queue from_begin ≡ ok (t, res)
        → Step s t
    -- a goroutine that puts messages, or the loop of its queue
    turns : {t : MessageServer} → Turn s t → Step s t
    gives_up :
        (k : Str) (q : MQueue) (rs : List MsgRegRequest) (xs ys : List (List MsgRegRequest))
        → s.ctx ≡ cancelled
        → lookup k s.queues ≡ some q
        → q.puts ≡ xs ++ rs ∷ ys
        → Step s (record s { queues = insert k (record q { puts = xs ++ ys }) s.queues })
    -- the context is cancelled; then the loops of the queues end, and the server is marked
    cancels : s.ctx ≡ live → Step s (record s { ctx = cancelled })
    ends :
        (k : Str) (q : MQueue)
        → s.ctx ≡ cancelled
        → lookup k s.queues ≡ some q
        → q.looping ≡ true
        → Step s (record s { queues = insert k (stop_loop q) s.queues })
    halts :
        (now : ℕ)
        → s.ctx ≡ cancelled
        → Step s (emit_event show_uuid now (record s { runned = false }) srv_end [])

  pub data Reach (s : MessageServer) : MessageServer → Type 0 where
    here : Reach s s
    next : {t u : MessageServer} → Reach s t → Step t u → Reach s u

  pub Reach-trans : {s t u : MessageServer} → Reach s t → Reach t u → Reach s u
  Reach-trans r here = r
  Reach-trans r (next p st) = next (Reach-trans r p) st
