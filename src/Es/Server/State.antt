-- ===== src/Es/Server/State.antt =====
-- The state of the event server, and how a topic is found in it.
use srvbus.Common.{
  ℕ, Bool, not, Option, none, some, List, [], ◌∷◌, ◌++◌, Uuid, nil_uuid, nat_eq, ◌==◌,
  if◌then◌else◌,
}
use srvbus.Common.Text.{Str, codes}
use srvbus.Es.Names.{names, update_to_absolute}
use srvbus.Es.Event.{EsErr, not_runned, empty_event, no_sender, no_topic, Event, Envelope}
use srvbus.Es.Topic.{Ctx, Topic, Forest, node, info, get, put, has_subtopic}

-- A goroutine of `AddEvent` that waits to hand an envelope to the topic `target`.
pub record Send : Type 0 where
  pub target : ℕ
  pub ee : Envelope

-- `topics` is keyed by absolute names. `next` counts the topics made, and gives each its identity.
pub record EventServer : Type 0 where
  pub id : Uuid
  pub name : Str
  pub topics : Forest
  pub runned : Bool
  pub ctx : Ctx
  pub es_topic : Str
  pub next : ℕ
  pub sends : List Send

abbrev pub default_topic : Str
default_topic = codes "/server"

-- The names by which `hasTopic` goes down: the first is made absolute.
abbrev pub keys_of : List Str → List Str
keys_of [] = []
keys_of (n ∷ ns) = update_to_absolute n ∷ ns

abbrev pub keys : Str → List Str
keys path = keys_of (names path)

abbrev pub find_in : List Str → Forest → Option Topic
find_in [] f = none
find_in (k ∷ []) f = get k f
find_in (k ∷ n ∷ ns) f = elim (get k f) [ none ↦ none | some t ↦ has_subtopic (n ∷ ns) t ]

-- `hasTopic`
unfoldable pub find_topic : EventServer → Str → Option Topic
find_topic s path = find_in (keys path) s.topics

-- A write through the pointer that `hasTopic` returned.
unfoldable pub put_at : List Str → Topic → Forest → Forest
put_at [] t f = f
put_at (k ∷ []) t f = put k t f
put_at (k ∷ n ∷ ns) t f = elim (get k f) [
  | none ↦ f
  | some (node d g) ↦ put k (node d (put_at (n ∷ ns) t g)) f
]

unfoldable pub set_topic : EventServer → Str → Topic → EventServer
unfolding put_at
set_topic s path t = record s { topics = put_at (keys path) t s.topics }

-- `AddEvent`
unfoldable pub add_event : EventServer → Str → Option Event → Uuid → EventServer × Option EsErr
unfolding find_topic
add_event s topic evt sender = if not s.runned then (s, some not_runned) else elim evt [
  | none ↦ (s, some empty_event)
  | some e ↦ if sender == nil_uuid then (s, some no_sender) else elim (find_topic s topic) [
    | none ↦ (s, some (no_topic topic))
    | some t ↦
        let ee : Envelope = record {
          event = some e;
          topic = topic;
          publisher = sender;
          reg_at = 0;
          index = 0;
        } in
        (record s { sends = s.sends ++ record { target = (info t).addr; ee = ee } ∷ [] }, none)
  ]
]
