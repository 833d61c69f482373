-- ===== src/Es/Subscription/Tests.antt =====
-- Runs of one subscription, on its own and on a topic.
use srvbus.Common.{
  ◌++◌, lookup, insert, nat_eq, true, ℕ, ◌≡◌, refl, false, none, some, List, [], ◌∷◌,
}
use srvbus.Common.Int.{pos, negsuc}
use srvbus.Common.Text.{codes}
use srvbus.Ds.{new_item}
use srvbus.Es.Event.{Envelope}
use srvbus.Es.Subscription.{
  SubscrReq, new_subscription, Task, Subscription, is_turn, start_send, start_tasks, start_sub,
}
use srvbus.Es.Subscription.Draining.{tasks_from}
use srvbus.Es.Topic.{TopicData, live, add_subscription, run_update}
use srvbus.Es.Topic.Telling.{process_all, all_stored}
use srvbus.Es.Topic.Following.{subscription-follows, old_event_sent}
use srvbus.Es.Subscription.Steps.{Turns}
use srvbus.Es.Subscription.Overtaking.{first_event_lost}

abbrev envelope : Envelope
envelope = record {
  event = some (record { item = new_item (codes "EVT") (codes "text"); at = 1 });
  topic = codes "/main";
  publisher = 7;
  reg_at = 1;
  index = 0;
}

abbrev task : ℕ → Task
task n = record { ee = envelope; pos = n }

-- three events stood before the subscription, so `lastReaded` is 2
abbrev fresh : Subscription
fresh = record {
  subscriber = 9;
  sub_req = codes "/main";
  e_ch = some 1;
  last_readed = pos 2;
  filters = [];
  waiting = [];
  holder = none;
  sent = [];
}

abbrev served : Subscription
served = record fresh { last_readed = pos 3; sent = task 3 ∷ [] }

-- both first events wait
abbrev early : Subscription
early = record fresh { last_readed = pos 0; waiting = task 0 ∷ task 1 ∷ [] }

first_event_lost_example :
    (u : Subscription) × Turns false early u
    × (u.sent ≡ task 1 ∷ [])
    × (u.holder ≡ some (task 0))
    × (is_turn u.last_readed 0 ≡ false)
first_event_lost_example =
    first_event_lost early (task 0) (task 1) refl refl refl refl refl refl refl

-- four stored events, of which the subscriber wants those from 2 on
abbrev four : List Envelope
four = envelope ∷ envelope ∷ envelope ∷ envelope ∷ []

abbrev late : Subscription
late = record fresh { waiting = task 0 ∷ task 1 ∷ [] }

started : start_sub four (pos 2) fresh ≡ some late
unfolding start_sub start_tasks start_send
started = refl

-- a topic with one event
abbrev main : TopicData
main = record {
  addr = 1;
  name = codes "main";
  full_name = codes "/main";
  events = envelope ∷ [];
  updates = [];
  subs = [];
  runned = true;
  ctx = live;
}

-- from the first event on
abbrev request : SubscrReq
request = record {
  topic = codes "/main";
  sub_ch = some 1;
  recursive = false;
  depth = 0;
  start_pos = pos 0;
  filters = [];
}

abbrev followed : TopicData
followed = record main {
  subs = insert 9 (start_tasks 0 (envelope ∷ []) (new_subscription 9 request) ∷ []) [];
}

is_followed : add_subscription 9 request main ≡ some followed
unfolding add_subscription start_sub start_tasks new_subscription lookup
is_followed = refl

-- two more events, with one between them that has no sender
abbrev more : List (Envelope × ℕ)
more = (envelope, 2) ∷ (record envelope { publisher = 0 }, 3) ∷ (envelope, 4) ∷ []

subscription-follows_example :
    (others : List Subscription) × (sn : Subscription) × (lookup 9 (process_all more followed).subs
      ≡ some (others ++ sn ∷ []))
    × (u : Subscription) × Turns false sn u
    × (u.waiting ≡ [])
    × (u.sent ≡ tasks_from 0 (envelope ∷ all_stored 1 more))
    × (u.e_ch ≡ some 1)
subscription-follows_example =
    subscription-follows 9 0 request main followed more refl refl is_followed

-- the topic while the goroutine `updateSubs` of its event waits
abbrev updating : TopicData
updating = record main { updates = task 0 ∷ [] }

abbrev for_new : SubscrReq
for_new = record request { start_pos = negsuc 0 }

old_event_sent_example :
    (d' : TopicData) × (add_subscription 9 for_new updating ≡ some d')
    × (others : List Subscription) × (sn : Subscription) × (lookup 9 (run_update 0 d').subs
        ≡ some (others ++ sn ∷ []))
    × (u : Subscription) × Turns false sn u
    × (u.sent ≡ task 0 ∷ [])
    × (u.e_ch ≡ some 1)
old_event_sent_example =
    old_event_sent 9 for_new 0 updating envelope (task 0) refl refl refl refl refl
