-- ===== src/Es/Server.antt =====
-- es/es.go: the event server, its topics and subscriptions. A method returns the new server, beside
-- the error where it has one. The parameter `now` is what `time.Now` answers, `show_uuid` the text
-- of an identifier. Each method is one atomic step: the locks of the source are released between
-- the reads and writes of one method, and calls that overlap inside one are not modelled.
pub mod State
pub mod View
pub mod Writing
pub mod Subscriptions
pub mod Emitting
pub mod Adding
pub mod AddTopic
pub mod Lifecycle
pub mod RemoveRoot
pub mod Removing
pub mod Subscribing
pub mod Emitter
pub mod Steady
pub mod Info
pub mod Keyed
pub mod Delivery
pub mod Told
mod Tests
pub mod Steps
pub use State.{Send, EventServer, default_topic, keys_of, keys, find_in}
unfoldable pub use State.{find_topic, put_at, set_topic, add_event}
use srvbus.Common.{
  ℕ, zero, suc, ◌-◌, Bool, true, false, not, ◌&&◌, Option, none, some, List, [], ◌∷◌, ◌++◌, Uuid,
  nil_uuid, nat_eq, Result, ok, err, ◌==◌, length, take, drop, if◌then◌else◌,
}
use srvbus.Common.Text.{Str, codes, slash, is_empty, trim, split, str_eq}
use srvbus.Es.Names.{names, update_to_absolute, pick_name, extend_branch}
use srvbus.Es.Event.{
  EsErr, not_runned, already_started, empty_topic_name, topic_exists, no_topic, no_subscriber,
  no_logger, panics, wrapped, Event, new_event_with_string,
}
use srvbus.Es.Subscription.{SubscrReq, check_request}
use srvbus.Es.Topic.{
  Ctx, no_ctx, live, cancelled, TopicData, Topic, Forest, node, nil, info, get, put, remove,
  new_topic, run, add_subtopic, remove_subtopics, subscribe, unsubscribe, cancel_ctx,
}

-- the description of an event about a topic
abbrev about_topic : Str → Str
about_topic name = codes "{topic: " ++ (name ++ codes "}")

abbrev topic_new : Str
topic_new = codes "NEW_TOPIC_EVT"

abbrev topic_del : Str
topic_del = codes "TOPIC_REMOVE_EVT"

abbrev subs_new : Str
subs_new = codes "NEW_SUBSCRIPTION_EVT"

abbrev subs_del : Str
subs_del = codes "SUBSCRIPTION_REMOVE_EVT"

abbrev pub root_topic : Str
root_topic = slash ∷ []

-- `EventServer.New`; `fresh` is the answer of `uuid.New`
unfoldable pub new : (Uuid → Str) → Uuid → Uuid → Str → Bool → Result EsErr EventServer
new show_uuid fresh id name has_log =
    let id' : Uuid = if id == nil_uuid then fresh else id in
    let text = show_uuid id' in
    let name' : Str =
      if is_empty name then codes "UNNAMED #" ++ drop (length text - 4) text else name in
    if has_log
    then ok (record {
      id = id';
      name = name';
      topics = nil;
      runned = false;
      ctx = no_ctx;
      es_topic = [];
      next = 0;
      sends = [];
    })
    else err no_logger

-- `EmitEvt`
unfoldable pub emit_evt : ℕ → EventServer → Str → Str → Str → Uuid → EventServer
emit_evt now s topic name descr sender =
    if not s.runned then s else elim (new_event_with_string name descr now) [
      | err e ↦ s
      | ok evt ↦ (add_event s topic (some evt) sender).0
    ]

-- `HasTopic`
unfoldable pub has_topic : EventServer → Str → Bool
has_topic s name = elim (find_topic s name) [ none ↦ false | some t ↦ true ]

-- The name and the branch of `AddTopic` after "normalize name".
unfoldable pub normalize : Str → Str → Str × Str
normalize name branch =
    let nn = split name in
    let (picked, at) = pick_name nn name (length nn - 1) in
    (picked, extend_branch branch (take at nn))

-- A topic of the root, in `AddTopic`.
unfoldable pub add_root :
    (EventServer → Str → Str → EventServer) → EventServer → Str → EventServer × Option EsErr
add_root emit s name =
    let name' = update_to_absolute name in
    elim (get name' s.topics) [
      | some t ↦ (s, some (topic_exists name'))
      | none ↦
          let nt = new_topic s.next name' name' in
          let nt' = if s.runned then run s.ctx nt else nt in
          let s' = record s { topics = put name' nt' s.topics; next = suc s.next } in
          (emit s' topic_new (about_topic name'), none)
    ]

-- A topic below the root topic `b`, in `AddTopic`.
unfoldable pub add_below :
    (EventServer → Str → Str → EventServer)
    → EventServer
    → Str
    → Str
    → List Str
    → EventServer × Option EsErr
add_below emit s name b base = elim (get (update_to_absolute b) s.topics) [
  | none ↦ (s, some (no_topic (update_to_absolute b)))
  | some t ↦ elim (add_subtopic s.next name base t) [
    | err e ↦ (s, some (wrapped e))
    | ok t' ↦
        let s' = record s { topics = put (update_to_absolute b) t' s.topics; next = suc s.next } in
        (emit s' topic_new (about_topic name), none)
  ]
]

-- `if len(base) == 0`
unfoldable pub add_named :
    (EventServer → Str → Str → EventServer)
    → EventServer
    → Str
    → List Str
    → EventServer × Option EsErr
add_named emit s name [] = add_root emit s name
add_named emit s name (b ∷ base) = add_below emit s name b base

-- `AddTopic` over the `EmitEvent` that it calls
unfoldable pub add_topic_with :
    (EventServer → Str → Str → EventServer) → EventServer → Str → Str → EventServer × Option EsErr
add_topic_with emit s name branch =
    if not s.runned
    then (s, some not_runned)
    else if is_empty (trim name)
    then (s, some empty_topic_name)
    else let (name', branch') = normalize (trim name) branch in
      add_named emit s name' (names branch')

-- the loop of `AddTopicQueue`; the parts are trimmed and not empty
unfoldable pub add_each :
    (EventServer → Str → Str → EventServer)
    → EventServer
    → List Str
    → Str
    → EventServer × Option EsErr
unfolding add_topic_with
add_each emit s [] branch = (s, none)
add_each emit s (t ∷ ts) branch =
    let (s', e) = add_topic_with emit s t branch in
    let rest = add_each emit s' ts (branch ++ slash ∷ t) in
    elim e [ some x ↦ (s', some (wrapped x)) | none ↦ rest ]

-- `AddTopicQueue`
unfoldable pub add_topic_queue_with :
    (EventServer → Str → Str → EventServer) → EventServer → Str → Str → EventServer × Option EsErr
unfolding add_each has_topic
add_topic_queue_with emit s queue branch =
    let branch' = trim branch in
    if not (is_empty branch') && (not (branch' == root_topic) && not (has_topic s branch'))
    then (s, some (no_topic branch'))
    else add_each emit s (names queue) branch'

-- `EmitEvent`. It adds the server's own topic when that has no name yet, and adding a topic emits:
-- the fuel bounds this. On a server that runs, the topic has a name.
unfoldable pub emit_event : ℕ → ℕ → EventServer → Str → Str → EventServer
emit_event zero now s name descr = s
emit_event (suc fuel) now s name descr =
    let added =
      add_topic_queue_with (λ s' n d. emit_event fuel now s' n d) s default_topic root_topic in
    if not s.runned
    then s
    else if is_empty s.es_topic
    then (elim added.1 [
      | some e ↦ added.0
      | none ↦
          let s' = record added.0 { es_topic = default_topic } in
          emit_evt now s' s'.es_topic name descr s'.id
    ])
    else emit_evt now s s.es_topic name descr s.id

abbrev pub emit_fuel : ℕ
emit_fuel = 3

-- `AddTopic`
unfoldable pub add_topic : ℕ → EventServer → Str → Str → EventServer × Option EsErr
unfolding add_topic_with
add_topic now = add_topic_with (emit_event emit_fuel now)

-- `AddTopicQueue`
unfoldable pub add_topic_queue : ℕ → EventServer → Str → Str → EventServer × Option EsErr
unfolding add_topic_queue_with
add_topic_queue now = add_topic_queue_with (emit_event emit_fuel now)

abbrev pub wrap_error : EventServer × Option EsErr → EventServer × Option EsErr
wrap_error (s, none) = (s, none)
wrap_error (s, some e) = (s, some (wrapped e))

-- `Run`, with a context that is not done
unfoldable pub start : ℕ → EventServer → Bool → EventServer × Option EsErr
start now s clean =
    if s.runned
    then (s, some already_started)
    else let s' = record s {
      topics = if clean then nil else s.topics;
      ctx = live;
      runned = true;
      es_topic = default_topic;
    } in
      wrap_error (add_topic now s' default_topic root_topic)
