-- ===== src/Grpc/Events/Streams/Tests.antt =====
-- Runs of the event service.
use srvbus.Common.{◌≡◌, ◌++◌, refl, true, false, none, some, List, [], ◌∷◌, Uuid, lookup, nat_eq}
use srvbus.Common.Text.{Str, codes, trim, split, str_beq}
use srvbus.Common.Int.{pos, negsuc}
use srvbus.Ds.{new_item}
use srvbus.Es.Names.{names, update_to_absolute}
use srvbus.Es.Event.{Event}
use srvbus.Es.Subscription.{Subscription, Task, check_request}
use srvbus.Es.Subscription.Steps.{Turns}
use srvbus.Es.Topic.{TopicData, node, nil, cons, live, get}
use srvbus.Es.Topic.Subscribing.{Runs, RunAll}
use srvbus.Es.Server.{EventServer, keys, find_topic, add_event}
use srvbus.Es.Server.View.{topics_at}
use srvbus.Es.Server.Steps.{Step}
use srvbus.Grpc.Events.Streams.Closed.{sends_to_closed}
use srvbus.Grpc.Events.{EvtServer, Subscr, request_of}
use srvbus.Grpc.Events.Streams.{
  streams_of, is_known, check_subs_stream, register, add_subscriptions, finish,
}
use srvbus.Grpc.Events.Streams.Life.{stream_life, two_streams}

abbrev host : EventServer
host = record {
  id = 65;
  name = codes "ES";
  topics = nil;
  runned = true;
  ctx = live;
  es_topic = codes "/server";
  next = 0;
  sends = [];
}

abbrev handler : EvtServer
handler = record {
  srv = some host;
  ctx = live;
  host = [];
  port = 0;
  runned = true;
  streams = [];
  stopped = [];
  closed = [];
}

unknown : is_known 7 8 handler ≡ false
unfolding lookup
unknown = refl

stream_life_example :
    let h₁ = (check_subs_stream 7 8 true handler).0 in
    let h₂ = register 1 7 8 h₁ in
    let h₃ = finish 1 7 8 h₂ in
    ((check_subs_stream 7 8 true handler).1 ≡ true)
    × ((check_subs_stream 7 8 true h₂).1 ≡ false)
    × (lookup 8 (streams_of 7 h₂) ≡ some 1)
    × ((check_subs_stream 7 8 false h₃).1 ≡ false)
    × ((check_subs_stream 7 8 true h₃).1 ≡ true)
stream_life_example = stream_life 7 8 handler 1 unknown

two_streams_example :
    let (h₁, first) = check_subs_stream 7 8 true handler in
    let (h₂, second) = check_subs_stream 7 8 true h₁ in
    let h₃ = register 2 7 8 (register 1 7 8 h₂) in
    let h₄ = finish 2 7 8 h₃ in
    (first ≡ true)
    × (second ≡ true)
    × (lookup 8 (streams_of 7 h₃) ≡ some 2)
    × ((check_subs_stream 7 8 false h₄).1 ≡ false)
    × (h₄.stopped ≡ handler.stopped ++ 2 ∷ [])
two_streams_example = two_streams 7 8 handler 1 2 unknown

-- a host with a topic that runs
abbrev main_data : TopicData
main_data = record {
  addr = 0;
  full_name = codes "/main";
  name = codes "/main";
  events = [];
  updates = [];
  subs = [];
  runned = true;
  ctx = live;
}

abbrev main_host : EventServer
main_host = record host { topics = cons (codes "/main") (node main_data nil) nil }

abbrev main_handler : EvtServer
main_handler = record handler { srv = some main_host }

abbrev wanted : Subscr
wanted = record {
  topic = codes "main";
  recursive = false;
  depth = pos 0;
  start_pos = negsuc 0;
  filters = [];
}

abbrev show_uuid : Uuid → Str
show_uuid n = n ∷ []

abbrev evt : Event
evt = record { item = new_item (codes "E") (codes "text"); at = 2 }

wanted_fine : check_request (request_of 1 wanted) ≡ none
unfolding check_request request_of trim
wanted_fine = refl

main_found : find_topic main_host (codes "main") ≡ some (node main_data nil)
unfolding find_topic names trim split update_to_absolute str_beq get
main_found = refl

main-Runs : Runs (node main_data nil)
unfolding Runs RunAll
main-Runs = (refl, tt)

sends_to_closed_example :
    let h₁ = finish 1 7 8 (add_subscriptions show_uuid 4 1 7 (wanted ∷ []) main_handler) in
    (s₁ : EventServer) × (h₁.srv ≡ some s₁)
    × (h₁.closed ≡ 1 ∷ [])
    × ((add_event s₁ (codes "main") (some evt) 9).1 ≡ none)
    × (s₂ : EventServer) × Step (add_event s₁ (codes "main") (some evt) 9).0 s₂
    × (s₃ : EventServer) × Step s₂ s₃
    × (d₂ : TopicData) × (topics_at s₃.topics (keys (codes "main")) ≡ some d₂)
    × (others : List Subscription) × (sn : Subscription) × (lookup 7 d₂.subs
        ≡ some (others ++ sn ∷ []))
    × (u : Subscription) × Turns false sn u
    × (t : Task) × (u.sent ≡ t ∷ [])
    × (t.ee.event ≡ some evt)
    × (u.e_ch ≡ some 1)
sends_to_closed_example =
    sends_to_closed show_uuid 4 1 7 8 main_handler main_host wanted 0 main_data nil evt 9 refl refl
      refl (λ _. refl) wanted_fine refl refl main_found main-Runs refl refl
