-- ===== src/S2/Ready/Tests.antt =====
-- Runs of the ready services, after s2/services_test.go.
use srvbus.Common.{◌≡◌, refl, true, false, none, some, [], ◌∷◌, ok, length, lookup, nat_eq}
use srvbus.Common.Int.{pos}
use srvbus.Common.Text.{codes, str_beq, str_eq}
use srvbus.Ds.{new_item}
use srvbus.Es.Topic.{live}
use srvbus.Ms.Queue.{MessageEnvelope, MQueue, last_of}
use srvbus.Ms.Server.{MessageServer, has_queue}
use srvbus.S2.Ready.{GetService, new_get_service, at_least, run_get}
use srvbus.S2.Ready.Reading.{run_get-positive, run_get-from_begin}

-- a server with one queue, in which a message waits
abbrev waiting : MessageEnvelope
waiting = record {
  message = record { item = new_item (codes "K") (1 ∷ []); id = 1 };
  registered = 3;
  sender = 5;
}

abbrev queue : MQueue
queue = record {
  name = codes "q";
  messages = waiting ∷ [];
  last_readed = [];
  runned = true;
  looping = true;
  puts = [];
}

abbrev server : MessageServer
server = record {
  id = 1;
  name = codes "MS";
  queues = (codes "q", queue) ∷ [];
  ctx = live;
  runned = true;
  e_srv = none;
  es_topic = [];
}

-- a service that wants one message, and one that takes what there is
abbrev one : GetService
one = record {
  queue = codes "q";
  receiver = 8;
  from_begin = true;
  wait_for = false;
  min_number = pos 1;
}

abbrev any : GetService
any = record one { min_number = pos 0 }

one_made : new_get_service true true (codes "q") 8 true false (pos 1) ≡ ok one
unfolding new_get_service
one_made = refl

is_there : has_queue server (codes "q") ≡ true
unfolding has_queue lookup str_beq
is_there = refl

queue_found : lookup (codes "q") server.queues ≡ some queue
unfolding lookup str_beq
queue_found = refl

takes_all : at_least any.min_number ≡ none
unfolding at_least
takes_all = refl

run_get-positive_example : run_get false one server [] ≡ ok (server, [])
run_get-positive_example = run_get-positive 0 false one server [] refl is_there

run_get-from_begin_example :
    (s' : MessageServer) × (q' : MQueue) × (run_get false any server [] ≡ ok (s', waiting ∷ []))
    × (lookup (codes "q") s'.queues ≡ some q')
    × (last_of 8 q' ≡ length queue.messages)
run_get-from_begin_example =
    run_get-from_begin any server [] queue takes_all refl refl refl queue_found refl
