-- ===== src/Es/Server/Tests.antt =====
-- Listings of the topics of a server, after es/subscr_test.go.
use srvbus.Common.{
  ◌≡◌, refl, true, false, some, none, List, [], ◌∷◌, ◌++◌, ◌≢◌, ℕ, Uuid, length, lookup, ◌==◌,
  nat_eq,
}
use srvbus.Common.Text.{Str, codes, str_beq, trim, split}
use srvbus.Es.Names.{names, update_to_absolute}
use srvbus.Es.Topic.{
  live, Forest, nil, cons, node, info, get, Topic, TopicData, process_event, new_topic,
}
use srvbus.Es.Topic.Info.{info_of, get_subtopics, count, get_subscribers}
use srvbus.Es.Server.{EventServer, keys, find_topic, add_topic, add_event}
use srvbus.Es.Server.Info.{IsKeyed, listed, find_info, root_topics_info, root_topics_info-find}
use srvbus.Common.Int.{negsuc}
use srvbus.Es.Event.{Event}
use srvbus.Es.Subscription.{SubscrReq, check_request}
use srvbus.Es.Topic.Subscribing.{subscribed_new, Runs, RunAll}
use srvbus.Es.Server.Subscribing.{subscribe_topics}
use srvbus.Es.Subscription.{Subscription}
use srvbus.Es.Subscription.Steps.{Turns}
use srvbus.Es.Server.Told.{Published, told, subscribe-told}
use srvbus.Es.Server.Subscriptions.{subscribe-reach}
use srvbus.Ds.{new_item}
use srvbus.Es.Server.View.{topics_at}
use srvbus.Es.Server.Steps.{Step}
use srvbus.Es.Server.Delivery.{sent_envelope, add_event-deliver}
use srvbus.Es.Server.Keyed.{add_topic-IsKeyed}

-- a topic with a subtopic
abbrev sub : Topic
sub = new_topic 1 (codes "/main/sub") (codes "sub")

abbrev main_topic : Topic
main_topic =
    node
      (record {
        addr = 0;
        full_name = codes "/main";
        name = codes "/main";
        events = [];
        updates = [];
        subs = [];
        runned = true;
        ctx = live;
      })
      (cons (codes "sub") sub nil)

abbrev server : EventServer
server = record {
  id = 7;
  name = codes "ES";
  topics = cons (codes "/main") main_topic nil;
  runned = true;
  ctx = live;
  es_topic = codes "/server";
  next = 2;
  sends = [];
}

server-IsKeyed : IsKeyed server.topics
unfolding new_topic
server-IsKeyed = (refl, (refl, tt, tt), tt)

root_topics_info-find_example :
    find_info (keys (codes "main/sub")) (root_topics_info server)
    ≡ listed (find_topic server (codes "main/sub"))
root_topics_info-find_example = root_topics_info-find server (codes "main/sub") server-IsKeyed

is_listed : find_info (keys (codes "main/sub")) (root_topics_info server) ≡ some (info_of sub)
unfolding root_topics_info get_subtopics info_of new_topic names trim split update_to_absolute
    str_beq count get_subscribers
is_listed = refl

add_topic-IsKeyed_example : IsKeyed (add_topic 3 server (codes "other") (codes "/main")).0.topics
add_topic-IsKeyed_example =
    add_topic-IsKeyed 3 server (λ _. refl) server-IsKeyed (codes "other") (codes "/main")

abbrev evt : Event
evt = record { item = new_item (codes "E") (codes "text"); at = 2 }

main_at : topics_at server.topics (keys (codes "main")) ≡ some (info main_topic)
unfolding names trim split update_to_absolute str_beq get
main_at = refl

add_event-deliver_example :
    let (s', failure) = add_event server (codes "main") (some evt) 5 in
    (next : EventServer) × (failure ≡ none)
    × Step s' next
    × (topics_at next.topics (keys (codes "main"))
        ≡ some (process_event (sent_envelope evt (codes "main") 5) 9 (info main_topic)))
    × ((q : List Str) (other : TopicData)
        → topics_at server.topics q ≡ some other
        → (other.addr == 0) ≡ false
        → topics_at next.topics q ≡ some other)
    × (next.sends ≡ [])
    × (next.runned ≡ true)
add_event-deliver_example =
    add_event-deliver server (codes "main") evt 5 (info main_topic) 9 refl refl main_at refl

-- a server on which everything runs
abbrev live_data : Str → Str → TopicData
live_data full name = record {
  addr = 3;
  full_name = full;
  name = name;
  events = [];
  updates = [];
  subs = (8, []) ∷ [];
  runned = true;
  ctx = live;
}

abbrev live_below : Forest
live_below = cons (codes "sub") (node (live_data (codes "/main/sub") (codes "sub")) nil) nil

abbrev live_topic : Topic
live_topic = node (live_data (codes "/main") (codes "/main")) live_below

abbrev live_server : EventServer
live_server = record server { topics = cons (codes "/main") live_topic nil }

abbrev news : SubscrReq
news = record {
  topic = codes "main";
  sub_ch = some 1;
  recursive = true;
  depth = 1;
  start_pos = negsuc 0;
  filters = [];
}

abbrev show_uuid : Uuid → Str
show_uuid n = n ∷ []

news_fine : check_request news ≡ none
unfolding check_request trim
news_fine = refl

live_topic_found : find_topic live_server (codes "main") ≡ some live_topic
unfolding find_topic names trim split update_to_absolute str_beq get
live_topic_found = refl

live_topic-Runs : Runs live_topic
unfolding Runs RunAll
live_topic-Runs = (refl, ((refl, tt), tt))

subscribe-reach_example :
    let (s', failure) = subscribe_topics show_uuid 4 live_server 5 (news ∷ []) in
    (failure ≡ none)
    × ((q : List Str)
        → topics_at s'.topics (keys (codes "main") ++ q)
          ≡ subscribed_new 5 news
              (length q)
              (topics_at live_server.topics (keys (codes "main") ++ q)))
    × ((p : List Str)
        → ((q : List Str) → p ≢ keys (codes "main") ++ q)
        → topics_at s'.topics p ≡ topics_at live_server.topics p)
subscribe-reach_example =
    subscribe-reach show_uuid 4 live_server 5 refl refl (λ _. refl) news 0 live_topic news_fine refl
      live_topic_found live_topic-Runs

-- two events for the subscriber
abbrev two_events : List (Event × ℕ)
two_events = (evt, 5) ∷ (evt, 6) ∷ []

subscribe-told_example :
    let s₁ = (subscribe_topics show_uuid 4 live_server 5 (news ∷ [])).0 in
    (s₂ : EventServer) × Published (codes "main") 6 two_events s₁ s₂
    × (d₂ : TopicData) × (topics_at s₂.topics (keys (codes "main")) ≡ some d₂)
    × (others : List Subscription) × (sn : Subscription) × (lookup 5 d₂.subs
        ≡ some (others ++ sn ∷ []))
    × (u : Subscription) × Turns false sn u
    × (u.waiting ≡ [])
    × (u.sent ≡ told (codes "main") 6 0 two_events)
    × (u.e_ch ≡ some 1)
subscribe-told_example =
    subscribe-told show_uuid 4 live_server 5 news 0 (live_data (codes "/main") (codes "/main"))
      live_below two_events 6 refl refl (λ _. refl) news_fine refl refl live_topic_found
      live_topic-Runs refl refl
