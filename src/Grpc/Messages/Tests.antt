-- ===== src/Grpc/Messages/Tests.antt =====
-- Runs of the message service.
use srvbus.Common.{
  ℕ, ◌≡◌, ◌++◌, refl, false, true, none, some, List, [], ◌∷◌, map, drop, ok, err, Uuid, Option,
  nat_eq, lookup, arith,
}
use srvbus.Common.Text.{Str, codes, trim, str_beq, str_eq, is_empty}
use srvbus.Ds.{new_item}
use srvbus.Es.Topic.{live}
use srvbus.Ms.Queue.{MessageEnvelope, MQueue, last_of}
use srvbus.Ms.Server.{MessageServer}
use srvbus.Ms.Server.Putting.{target}
use srvbus.Grpc.{cancelled}
use srvbus.Grpc.Messages.{
  MsgServer, SendMsgRequest, SendMsgResponse, Moment, MessagesRequest, envelope_of, send_messages,
  get_messages,
}
use srvbus.Grpc.Messages.Sending.{fitting, send_messages-unsent}
use srvbus.Grpc.Messages.Storing.{accepted, one_by_one, send_messages-stored}
use srvbus.Ms.Message.{Message}
use srvbus.Ms.Server.Steps.{Turns}
use srvbus.Grpc.Messages.Taking.{IsOrder, done, take_out, logged_at}
use srvbus.Grpc.Messages.Orders.{send_messages-any_order}
use srvbus.Grpc.Messages.Getting.{get_messages-lost, get_messages-news}

-- an identifier is written as one character
abbrev parse_uuid : Str → Option Uuid
parse_uuid [] = none
parse_uuid (c ∷ s) = some c

abbrev show_uuid : Uuid → Str
show_uuid n = n ∷ []

abbrev show_time : ℕ → Str
show_time n = n ∷ []

-- a server with one queue, in which a message waits for its first readers
abbrev first : MessageEnvelope
first = record {
  message = record { item = new_item (codes "K") (1 ∷ []); id = 1 };
  registered = 3;
  sender = 5;
}

abbrev queue : MQueue
queue = record {
  name = codes "q";
  messages = first ∷ [];
  last_readed = [];
  runned = true;
  looping = true;
  puts = [];
}

abbrev server : MessageServer
server = record {
  id = 65;
  name = codes "MS";
  queues = (codes "q", queue) ∷ [];
  ctx = live;
  runned = true;
  e_srv = none;
  es_topic = [];
}

abbrev handler : MsgServer
handler = record { srv = some server; host = []; port = 0; runned = true }

abbrev stopped : MessageServer
stopped = record server { runned = false }

abbrev moments : ℕ → Moment
moments n = record { done = false; fresh = 7; now = 4 }

abbrev sending : SendMsgRequest
sending = record {
  server_id = codes "A";
  queue = codes "q";
  sender_id = codes "B";
  msgs = (codes "K", codes "v") ∷ [];
}

named : parse_uuid (trim sending.server_id) ≡ some 65
unfolding trim
named = refl

filled : is_empty (trim sending.queue) ≡ false
unfolding trim
filled = refl

send_messages-unsent_example :
    let (h', answer) =
      send_messages parse_uuid show_uuid moments sending (record handler { srv = some stopped }) in
    (h'.srv ≡ some stopped)
    × ((res : SendMsgResponse) × (answer ≡ ok res) × (res.sent_msg_pos ≡ fitting 0 sending.msgs))
send_messages-unsent_example =
    send_messages-unsent parse_uuid show_uuid moments sending
      (record handler { srv = some stopped }) stopped 66 refl named filled refl (λ n. refl) refl

queue_runs : (target show_uuid 0 server (trim sending.queue)).runned ≡ true
unfolding trim lookup str_beq
queue_runs = refl

send_messages-stored_example :
    let (h', answer) = send_messages parse_uuid show_uuid moments sending handler in
    let q = target show_uuid 0 server (trim sending.queue) in
    (s' : MessageServer) × (res : SendMsgResponse) × (h' ≡ record handler { srv = some s' })
    × (answer ≡ ok res)
    × (res.sent_msg_pos ≡ fitting 0 sending.msgs)
    × (s'.runned ≡ true)
    × (s'.id ≡ 65)
    × (target show_uuid 0 s' (trim sending.queue)
        ≡ record q { puts = q.puts ++ one_by_one 66 (accepted moments 0 sending.msgs) })
    × (lookup (trim sending.queue) server.queues ≡ some q
        → lookup (trim sending.queue) s'.queues ≡ some (target show_uuid 0 s' (trim sending.queue)))
send_messages-stored_example =
    send_messages-stored parse_uuid show_uuid moments 0 sending handler server 66 refl named filled
      refl refl (λ n. refl) refl queue_runs

abbrev reading : MessagesRequest
reading = record {
  server_id = codes "A";
  queue = codes "q";
  receiver_id = codes "C";
  from_begin = false;
}

queue_found : lookup (trim reading.queue) server.queues ≡ some queue
unfolding trim lookup str_beq
queue_found = refl

none_read : last_of 67 queue ≡ 0
unfolding last_of lookup
none_read = refl

get_messages-lost_example :
    let (h', answer) = get_messages parse_uuid show_uuid show_time (some 1) reading handler in
    (answer ≡ err cancelled)
    × ((get_messages parse_uuid show_uuid show_time none reading h').1 ≡ ok (show_uuid 65, []))
get_messages-lost_example =
    get_messages-lost parse_uuid show_uuid show_time 1 reading handler server 67 queue refl named
      refl filled refl refl refl queue_found refl (omega (arith, none_read))
      (omega (arith, none_read))

get_messages-news_example :
    (get_messages parse_uuid show_uuid show_time none reading handler).1
    ≡ ok (
      show_uuid 65,
      map
          (envelope_of parse_uuid show_uuid show_time 65 (trim reading.queue))
          (drop (last_of 67 queue) queue.messages),
    )
get_messages-news_example =
    get_messages-news parse_uuid show_uuid show_time reading handler server 67 queue refl named refl
      filled refl refl refl queue_found refl (omega (arith, none_read))

-- two messages, which a reader gets in the other order
abbrev two : SendMsgRequest
two = record sending { msgs = (codes "K", codes "v") ∷ (codes "L", codes "w") ∷ [] }

abbrev small : Str → Str → Message
small name content = record { item = new_item name content; id = 7 }

abbrev reversed : List Message
reversed = small (codes "L") (codes "w") ∷ small (codes "K") (codes "v") ∷ []

abbrev read_queue : MQueue
read_queue = record queue { last_readed = (67, 1) ∷ [] }

abbrev read_server : MessageServer
read_server = record server { queues = (codes "q", read_queue) ∷ [] }

read_queue_found : lookup (trim two.queue) read_server.queues ≡ some read_queue
unfolding trim lookup str_beq
read_queue_found = refl

all_read : last_of 67 read_queue ≡ 1
unfolding last_of lookup
all_read = refl

order : IsOrder (accepted moments 0 two.msgs) reversed
order =
    take_out _ (small (codes "K") (codes "v") ∷ []) [] (small (codes "L") (codes "w")) _ refl
      (take_out _ [] [] (small (codes "K") (codes "v")) [] refl done)

send_messages-any_order_example :
    let h' =
      (send_messages parse_uuid show_uuid moments two
        (record handler { srv = some read_server })).0 in
    let news : MessagesRequest = record {
      server_id = codes "A";
      queue = codes "q";
      receiver_id = codes "C";
      from_begin = false;
    } in
    (s' : MessageServer) × (h'.srv ≡ some s')
    × (u : MessageServer) × Turns show_uuid s' u
    × ((get_messages parse_uuid show_uuid show_time none news (record h' { srv = some u })).1
        ≡ ok (
          show_uuid 65,
          map
              (envelope_of parse_uuid show_uuid show_time 65 (trim (codes "q")))
              (map (logged_at 5 66) reversed),
        ))
send_messages-any_order_example =
    send_messages-any_order parse_uuid show_uuid show_time moments 5 two (codes "C")
      (record handler { srv = some read_server }) read_server 66 67 read_queue reversed refl named
      filled refl refl (λ n. refl) refl read_queue_found refl refl refl all_read refl refl order
