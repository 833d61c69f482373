-- ===== src/Es/Server/Delivery.antt =====
-- An event from `AddEvent` to the topic that it is for.
use srvbus.Common.{
  ℕ, ◌≡◌, refl, sym, ap, ◌∙◌, true, false, Option, none, some, List, [], ◌∷◌, ◌++◌, arith, Uuid,
  nil_uuid, nat_eq, ◌==◌, append_nil, beq_refl, Option-cases, inl, inr,
}
use mathlib.Core.Path.{subst}
use srvbus.Common.Text.{Str, str_eq}
use srvbus.Es.Event.{Event, Envelope}
use srvbus.Es.Topic.{TopicData, Topic, Forest, node, nil, cons, info, subtopics, get, process_event}
use srvbus.Es.Topic.View.{view}
use srvbus.Es.Server.{Send, EventServer, keys, find_in, find_topic, add_event}
use srvbus.Es.Server.View.{topics_at, find_in-topics_at}
use srvbus.Es.Server.Steps.{map_topic, map_forest, receive, Step, deliver}

abbrev pub mapped : (TopicData → TopicData) → Option TopicData → Option TopicData
mapped g none = none
mapped g (some d) = some (g d)

abbrev pub mapped_topic : (TopicData → TopicData) → Option Topic → Option Topic
mapped_topic g none = none
mapped_topic g (some t) = some (map_topic g t)

module _ (g : TopicData → TopicData) where
  pub get-map_forest : (k : Str) (f : Forest) → get k (map_forest g f) ≡ mapped_topic g (get k f)
  unfolding get map_forest
  get-map_forest k nil = refl
  get-map_forest k (cons j t f) = ground (arith, get-map_forest k f)

  info-map_topic : (t : Topic) → info (map_topic g t) ≡ g (info t)
  unfolding map_topic
  info-map_topic (node d f) = refl

  subtopics-map_topic : (t : Topic) → subtopics (map_topic g t) ≡ map_forest g (subtopics t)
  unfolding map_topic
  subtopics-map_topic (node d f) = refl

  view-map_topic : (t : Topic) (q : List Str) → view (map_topic g t) q ≡ mapped g (view t q)
  view-map_topic t [] = ap (λ d. some d) (info-map_topic t)
  view-map_topic t (k ∷ q) =
      let below : get k (subtopics (map_topic g t)) ≡ mapped_topic g (get k (subtopics t)) =
        ap (get k) (subtopics-map_topic t) ∙ get-map_forest k (subtopics t) in
      elim (Option-cases (get k (subtopics t))) [
        | inl e ↦ ground (arith, below)
        | inr (st, e) ↦ ground (arith, below, view-map_topic st q)
      ]

  -- A change of every topic changes what stands at each path.
  pub topics_at-map_forest :
      (f : Forest) (q : List Str) → topics_at (map_forest g f) q ≡ mapped g (topics_at f q)
  topics_at-map_forest f [] = refl
  topics_at-map_forest f (k ∷ q) = elim (Option-cases (get k f)) [
    | inl e ↦ ground (arith, get-map_forest k f)
    | inr (t, e) ↦ ground (arith, get-map_forest k f, view-map_topic t q)
  ]

-- the envelope that `AddEvent` sends
abbrev pub sent_envelope : Event → Str → Uuid → Envelope
sent_envelope evt topic sender = record {
  event = some evt;
  topic = topic;
  publisher = sender;
  reg_at = 0;
  index = 0;
}

add_event_lem :
    (s : EventServer) (topic : Str) (evt : Event) (sender : Uuid) (d : TopicData)
    → s.runned ≡ true
    → (sender == nil_uuid) ≡ false
    → topics_at s.topics (keys topic) ≡ some d
    → add_event s topic (some evt) sender ≡ (
      record s {
        sends = s.sends ++ record { target = d.addr; ee = sent_envelope evt topic sender } ∷ [];
      },
      none,
    )
unfolding add_event find_topic
add_event_lem s topic evt sender d r n at =
    let found = find_in-topics_at (keys topic) s.topics in
    elim (Option-cases (find_in (keys topic) s.topics)) [
      | inl e ↦ ground arith
      | inr (t, e) ↦ let same : info t ≡ d = ground arith in ground (arith, ap (λ x. x.addr) same)
    ]

receive_hit :
    (now : ℕ) (ee : Envelope) (d : TopicData)
    → d.runned ≡ true
    → receive now record { target = d.addr; ee = ee } d ≡ process_event ee now d
receive_hit now ee d r = rw (beq_refl d.addr, r) refl

receive_miss :
    (now : ℕ) (send : Send) (d : TopicData)
    → (d.addr == send.target) ≡ false
    → receive now send d ≡ d
receive_miss now send d e = rw (e) refl

-- An event added to a running topic of a running server, by a sender that is not nil, is no error, and as the
-- next step the topic's loop can receive it: the topic at the path has then stored the event, its `updateSubs`
-- waits, the topics with other addresses are as before, just the events wait that waited before the call, and
-- the server runs still.
pub add_event-deliver :
    (s : EventServer) (topic : Str) (evt : Event) (sender : Uuid) (d : TopicData) (now : ℕ)
    → s.runned ≡ true
    → (sender == nil_uuid) ≡ false
    → topics_at s.topics (keys topic) ≡ some d
    → d.runned ≡ true
    → let (s', failure) = add_event s topic (some evt) sender in
      (next : EventServer) × (failure ≡ none)
      × Step s' next
      × (topics_at next.topics (keys topic)
          ≡ some (process_event (sent_envelope evt topic sender) now d))
      × ((q : List Str) (other : TopicData)
          → topics_at s.topics q ≡ some other
          → (other.addr == d.addr) ≡ false
          → topics_at next.topics q ≡ some other)
      × (next.sends ≡ s.sends)
      × (next.runned ≡ true)
add_event-deliver s topic evt sender d now r n at live_d =
    let send : Send = record { target = d.addr; ee = sent_envelope evt topic sender } in
    let added = add_event_lem s topic evt sender d r n at in
    let next : EventServer = record s {
      topics = map_forest (receive now send) s.topics;
      sends = s.sends ++ [];
    } in
    subst
      (λ out.
        (next : EventServer) × (out.1 ≡ none)
        × Step out.0 next
        × (topics_at next.topics (keys topic)
            ≡ some (process_event (sent_envelope evt topic sender) now d))
        × ((q : List Str) (other : TopicData)
            → topics_at s.topics q ≡ some other
            → (other.addr == d.addr) ≡ false
            → topics_at next.topics q ≡ some other)
        × (next.sends ≡ s.sends)
        × (next.runned ≡ true))
      (sym added)
      (
        next,
        refl,
        deliver now send s.sends [] refl,
        topics_at-map_forest (receive now send) s.topics (keys topic)
            ∙ ap (mapped (receive now send)) at
            ∙ ap (λ x. some x) (receive_hit now send.ee d live_d),
        (λ q other o ne.
            topics_at-map_forest (receive now send) s.topics q
            ∙ ap (mapped (receive now send)) o
            ∙ ap (λ x. some x) (receive_miss now send other ne)),
        append_nil s.sends,
        r,
      )
