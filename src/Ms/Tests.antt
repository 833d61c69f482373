-- ===== src/Ms/Tests.antt =====
-- Runs of the message server, after ms/ms_test.go and ms/msg_q_test.go.
use srvbus.Common.{
  ℕ, ◌≡◌, ◌≢◌, refl, true, false, none, some, List, [], ◌∷◌, ◌++◌, ok, err, arith, Uuid, lookup,
  insert, ◌==◌, nat_eq, if◌then◌else◌,
}
use srvbus.Common.Text.{Str, codes, trim, is_empty, str_beq, str_eq}
use srvbus.Ds.{new_item}
use srvbus.Es.Topic.{live}
use srvbus.Ms.Message.{Message, no_queue}
use srvbus.Ms.Queue.{
  MessageEnvelope, MQueue, new_queue, register, requests, put_messages, last_of, get_messages,
}
use srvbus.Ms.Queue.Steps.{put, deliver}
use srvbus.Ms.Queue.Reading.{IsValid, Reads, here, beside, own, read_catches_up}
use srvbus.Ms.Queue.Pending.{logged, all_pending}
use srvbus.Ms.Queue.Order.{Later, put_complete}
use srvbus.Ms.Server as Server
use srvbus.Ms.Server.{MessageServer, emit_event, find_or_new, put_into, got}
use srvbus.Ms.Server.Putting.{target, put-put_messages}
use srvbus.Ms.Server.Steps as Run
use srvbus.Ms.Server.Tidy.{get-padded}

abbrev message : ℕ → Message
message n = record { item = new_item (codes "K") (n ∷ []); id = n }

abbrev two : List Message
two = message 1 ∷ message 2 ∷ []

-- a queue, the first of two messages delivered
abbrev empty : MQueue
empty = new_queue (codes "q")

abbrev after_put : MQueue
after_put = (put_messages 5 two empty).0

abbrev half : MQueue
half =
    register 9 (record { sender = 5; msg = message 1 })
      (record after_put { puts = requests 5 (message 2 ∷ []) ∷ [] })

half-Later : Later 5 false after_put half
unfolding new_queue put_messages
half-Later =
    Later.next Later.here
      (deliver 9 (record { sender = 5; msg = message 1 }) (requests 5 (message 2 ∷ [])) [] [] refl
        refl)
      tt

active : empty.runned ≡ true
unfolding new_queue
active = refl

idle : all_pending 5 empty.puts ≡ []
unfolding new_queue
idle = refl

put_complete_example :
    (done_part : List Message) × (logged 5 half.messages ≡ logged 5 empty.messages ++ done_part)
    × (two ≡ done_part ++ all_pending 5 half.puts)
put_complete_example = put_complete 5 two empty refl active idle half-Later

empty-IsValid : IsValid empty
unfolding new_queue last_of lookup
empty-IsValid = λ r. omega arith

none_read : last_of 8 empty ≡ 0
unfolding new_queue last_of lookup
none_read = refl

-- the queue after a read of its one message
abbrev one_read : MQueue
one_read = record half { last_readed = (8, 1) ∷ [] }

abbrev first : MessageEnvelope
first = record { message = message 1; registered = 9; sender = 5 }

one_read-Reads : Reads false 8 empty (first ∷ []) one_read
unfolding new_queue put_messages register last_of lookup insert get_messages
one_read-Reads =
    own one_read (first ∷ [])
      (beside (beside here (put 5 two)) (
        deliver 9 (record { sender = 5; msg = message 1 }) (requests 5 (message 2 ∷ [])) [] [] refl
          refl))
      refl

one_read-active : one_read.runned ≡ true
unfolding new_queue put_messages register
one_read-active = refl

read_catches_up_example :
    (w : MQueue) × (res : List MessageEnvelope) × (get_messages 8 false one_read ≡ ok (w, res))
    × ((first ∷ []) ++ res ≡ one_read.messages)
read_catches_up_example = read_catches_up 8 empty-IsValid none_read one_read-Reads one_read-active

-- a server without an event server
abbrev server : MessageServer
server = record {
  id = 1;
  name = codes "MS";
  queues = [];
  ctx = live;
  runned = true;
  e_srv = none;
  es_topic = [];
}

abbrev show_uuid : Uuid → Str
show_uuid n = n ∷ []

abbrev padded : Str
padded = codes " q "

filled : is_empty (trim padded) ≡ false
unfolding trim
filled = refl

put-put_messages_example :
    ((Server.put show_uuid 3 server 5 padded two).1
      ≡ (put_messages 5 two (target show_uuid 3 server (trim padded))).1)
    × ((k : Str)
        → lookup k (Server.put show_uuid 3 server 5 padded two).0.queues ≡ (
            if trim padded == k
            then some (put_messages 5 two (target show_uuid 3 server (trim padded))).0
            else lookup k server.queues))
put-put_messages_example =
    put-put_messages show_uuid 3 server 5 padded (message 1) (message 2 ∷ []) refl filled refl

-- the server after two messages were put under the padded name
abbrev served : MessageServer
served = (Server.put show_uuid 3 server 5 padded two).0

served-Reach : Run.Reach show_uuid server served
served-Reach = Run.next Run.here (Run.puts 3 5 padded two)

served-active : served.runned ≡ true
unfolding Server.put find_or_new put_into emit_event trim new_queue put_messages lookup insert
    str_beq
served-active = refl

not_trimmed : trim padded ≢ padded
unfolding trim
not_trimmed = λ e. cc

get-padded_example : Server.get served 8 padded false ≡ err (no_queue padded)
get-padded_example =
    get-padded show_uuid 8 padded false refl served-Reach served-active refl not_trimmed
