-- ===== src/S2/Ready/Reading.antt =====
-- What the service of `NewGetMessagesService` reads, and how often.
use srvbus.Common.{
  ℕ, suc, ◌≡◌, refl, ◌∙◌, Bool, true, false, none, some, List, [], arith, nil_uuid, nat_eq, ok,
  Uuid, ap, ◌>>=◌, beq_refl, ◌==◌, length, lookup, insert, lookup-insert,
}
use srvbus.Common.Int.{pos}
use srvbus.Common.Text.{str_eq}
use srvbus.Ms.Queue.{MQueue, get_messages, last_of}
use srvbus.Ms.Server.{MessageServer, has_queue, get, got}
use srvbus.S2.Ready.{GetService, at_least, goes_on, read_loop, await_queue, reading_fuel, run_get}

at_once :
    (g : GetService) (s : MessageServer) (later : List MessageServer)
    → has_queue s g.queue ≡ true
    → await_queue g s later ≡ ok s
unfolding await_queue
at_once g s later h = rw h refl

run_at_once :
    (done : Bool) (g : GetService) (s : MessageServer) (later : List MessageServer)
    → has_queue s g.queue ≡ true
    → run_get done g s later ≡ read_loop reading_fuel done g s []
unfolding run_get
run_at_once done g s later h =
    ap (λ r. r >>= λ s'. read_loop reading_fuel done g s' []) (at_once g s later h)

-- A service that is to read at least a positive number of messages reads none, whatever waits in the
-- queue: it returns without an error, leaves the server as it was, and has nothing to send.
pub run_get-positive :
    (n : ℕ) (done : Bool) (g : GetService) (s : MessageServer) (later : List MessageServer)
    → g.min_number ≡ pos (suc n)
    → has_queue s g.queue ≡ true
    → run_get done g s later ≡ ok (s, [])
unfolding read_loop at_least goes_on
run_get-positive n done g s later m h = run_at_once done g s later h ∙ ground arith

-- the queue after the receiver has read all of it, and the server with this queue
abbrev read_all : Uuid → MQueue → MQueue
read_all receiver q = record q { last_readed = insert receiver (length q.messages) q.last_readed }

abbrev after : GetService → MessageServer → MQueue → MessageServer
after g s q = record s { queues = insert g.queue (read_all g.receiver q) s.queues }

got_all :
    (g : GetService) (s : MessageServer) (q : MQueue)
    → (g.receiver == nil_uuid) ≡ false
    → s.runned ≡ true
    → lookup g.queue s.queues ≡ some q
    → q.runned ≡ true
    → get s g.receiver g.queue true ≡ ok (after g s q, q.messages)
unfolding get got get_messages
got_all g s q r a l b = ground arith

read_once :
    (g : GetService) (s : MessageServer) (q : MQueue)
    → at_least g.min_number ≡ none
    → get s g.receiver g.queue g.from_begin ≡ ok (after g s q, q.messages)
    → read_loop reading_fuel false g s [] ≡ ok (after g s q, q.messages)
unfolding read_loop goes_on
read_once g s q m e = ground arith

-- A service that is to read from the beginning for a receiver that is not nil, and no least number, on a
-- running server that has the queue and whose queue is active, while the context is not done: it has all
-- messages of the queue to send, in their order, and the queue counts them as read by the receiver afterwards.
pub run_get-from_begin :
    (g : GetService) (s : MessageServer) (later : List MessageServer) (q : MQueue)
    → at_least g.min_number ≡ none
    → g.from_begin ≡ true
    → (g.receiver == nil_uuid) ≡ false
    → s.runned ≡ true
    → lookup g.queue s.queues ≡ some q
    → q.runned ≡ true
    → (s' : MessageServer) × (q' : MQueue) × (run_get false g s later ≡ ok (s', q.messages))
      × (lookup g.queue s'.queues ≡ some q')
      × (last_of g.receiver q' ≡ length q.messages)
unfolding has_queue last_of
run_get-from_begin g s later q m f r a l b =
    let h : has_queue s g.queue ≡ true = ground arith in
    (
      after g s q,
      read_all g.receiver q,
      run_at_once false g s later h ∙ read_once g s q m (rw f (got_all g s q r a l b)),
      lookup-insert g.queue g.queue _ s.queues ∙ rw (beq_refl g.queue) refl,
      ground (arith, lookup-insert g.receiver g.receiver (length q.messages) q.last_readed),
    )
