-- ===== src/Grpc/Events.antt =====
-- api/grpc/esgrpc/esgrpc.go: the event service, but for the streams, which `Grpc/Events/Streams` models.
pub mod Streams
pub mod Recursion
use Prim.Native.Nat.{◌^◌}
use srvbus.Common.{
  ℕ, zero, suc, ◌-◌, Bool, true, false, not, Option, none, some, List, [], ◌∷◌, ◌++◌, map, Uuid,
  nil_uuid, Result, ok, err, Map, if◌then◌else◌, ◌>>=◌,
}
use srvbus.Common.Int.{ℤ, pos, negsuc}
use srvbus.Common.Text.{Str, codes, trim}
use srvbus.Common.Text.Decimal.{itoa}
use srvbus.Es.Event.{EsErr, new_event_with_string}
use srvbus.Es.Filter.{Filter, with_name, with_sub_name, with_substr}
use srvbus.Es.Subscription.{SubscrReq}
use srvbus.Es.Topic.{Ctx, no_ctx, live}
use srvbus.Es.Server as Host
use srvbus.Es.Server.{EventServer}
use srvbus.Es.Server.Removing.{remove_topic}
use srvbus.Es.Server.Subscribing.{subscribe_topics, unsubscribe_topics}
use srvbus.Grpc.{
  GrpcErr, no_host, already_runned, not_runned, listen_failed, invalid_subscriber, no_topic, panics,
  event_server_failed, check_server_id,
}

-- `none` is a nil pointer. A cancel function of `streams` is the number of the call of `Subscribe` that made
-- it, and `stopped` has those whose context is done; the channel of a call is named by its number too.
pub record EvtServer : Type 0 where
  pub srv : Option EventServer
  pub ctx : Ctx
  pub host : Str
  pub port : ℕ
  pub runned : Bool
  pub streams : Map Uuid (Map Uuid ℕ)  -- the source's `subsStreams`
  pub stopped : List ℕ
  pub closed : List ℕ

-- `ID`, over the calls that it makes; `none` is a call that has not returned
unfoldable pub id_of : ℕ → EvtServer → Option Uuid
id_of zero h = none
id_of (suc calls) h = elim h.srv [ none ↦ some nil_uuid | some s ↦ id_of calls h ]

-- `New`
unfoldable pub new : Option EventServer → Result GrpcErr EvtServer
new none = err no_host
new (some s) = ok (record {
  srv = some s;
  ctx = no_ctx;
  host = [];
  port = 0;
  runned = false;
  streams = [];
  stopped = [];
  closed = [];
})

-- the kinds of a filter of the protocol
pub data FilterType : Type 0 where
  has_name in_name in_descr other : FilterType

pub record Subscr : Type 0 where
  pub topic : Str
  pub recursive : Bool
  pub depth : ℤ  -- an int32
  pub start_pos : ℤ
  pub filters : List (FilterType × Str)

-- the filters that `subscribe` makes
unfoldable pub filters_of : List (FilterType × Str) → List Filter
filters_of [] = []
filters_of ((has_name, value) ∷ fs) = with_name value ∷ filters_of fs
filters_of ((in_name, value) ∷ fs) = with_sub_name value ∷ filters_of fs
filters_of ((in_descr, value) ∷ fs) = with_substr value ∷ filters_of fs
filters_of ((other, value) ∷ fs) = filters_of fs

-- `uint` of an int32: a negative number wraps round
unfoldable pub uint_of : ℤ → ℕ
uint_of (pos n) = n
uint_of (negsuc n) = 2 ^ 64 - suc n

-- the request that `subscribe` makes, with the channel `ch`
unfoldable pub request_of : ℕ → Subscr → SubscrReq
unfolding filters_of uint_of
request_of ch s = record {
  topic = s.topic;
  sub_ch = some ch;
  recursive = s.recursive;
  depth = uint_of s.depth;
  start_pos = s.start_pos;
  filters = filters_of s.filters;
}

-- the loop of `subscribe`: an error is only logged
unfoldable pub subscribe_all : (Uuid → Str) → ℕ → ℕ → Uuid → List Subscr → EventServer → EventServer
unfolding request_of
subscribe_all show_uuid now ch who [] e = e
subscribe_all show_uuid now ch who (s ∷ ss) e =
    subscribe_all show_uuid now ch who ss
      (subscribe_topics show_uuid now e who (request_of ch s ∷ [])).0

module _ (parse_uuid : Str → Option Uuid) where
  -- the first lines of a handler: the host server, and its identifier as the request gives it
  unfoldable pub checked : EvtServer → Str → Result GrpcErr (EventServer × Uuid)
  unfolding check_server_id
  checked h server_id = if not h.runned then err not_runned else elim h.srv [
    | none ↦ err panics
    | some s ↦ check_server_id parse_uuid s.id server_id >>= λ srv_id. ok (s, srv_id)
  ]

  -- a host server after a call, with the answer
  abbrev answered : EvtServer → Uuid → EventServer × Option EsErr → EvtServer × Result GrpcErr Uuid
  answered h srv_id (s, none) = (record h { srv = some s }, ok srv_id)
  answered h srv_id (s, some e) = (record h { srv = some s }, err (event_server_failed e))

  -- `HasTopic`
  unfoldable pub has_topic : Str → Str → EvtServer → Result GrpcErr Uuid
  unfolding checked
  has_topic server_id topic h = elim (checked h server_id) [
    | err e ↦ err e
    | ok (s, srv_id) ↦ if Host.has_topic s topic then ok srv_id else err (no_topic topic)
  ]

  -- `AddTopics`
  unfoldable add_topics : ℕ → Str → Str → Str → EvtServer → EvtServer × Result GrpcErr Uuid
  unfolding checked
  add_topics now server_id topic from h = elim (checked h server_id) [
    | err e ↦ (h, err e)
    | ok (s, srv_id) ↦ answered h srv_id (Host.add_topic now s topic from)
  ]

  -- `DelTopics`
  unfoldable del_topics : ℕ → Str → Str → Bool → EvtServer → EvtServer × Result GrpcErr Uuid
  unfolding checked
  del_topics now server_id topic recursive h = elim (checked h server_id) [
    | err e ↦ (h, err e)
    | ok (s, srv_id) ↦ answered h srv_id (remove_topic now s topic recursive)
  ]

  -- `AddEvent` on an event's name and details
  unfoldable pub add_named_event :
      ℕ → Str → Str → Str → Str → Str → EvtServer → EvtServer × Result GrpcErr Uuid
  unfolding checked
  add_named_event now server_id topic sender_id name details h = elim (checked h server_id) [
    | err e ↦ (h, err e)
    | ok (s, srv_id) ↦ elim (parse_uuid (trim sender_id)) [
      | none ↦ (h, err invalid_subscriber)
      | some sender ↦ elim (new_event_with_string name details now) [
        | err e ↦ (h, err (event_server_failed e))
        | ok evt ↦ answered h srv_id (Host.add_event s topic (some evt) sender)
      ]
    ]
  ]

  -- `AddEvent`; `none` is a request without an event. The deferred function reads the event's name in either
  -- of its branches, and the getters of the protocol give empty texts of an absent event.
  unfoldable pub add_event :
      ℕ → Str → Str → Str → Option (Str × Str) → EvtServer → EvtServer × Result GrpcErr Uuid
  unfolding add_named_event
  add_event now server_id topic sender_id none h =
      ((add_named_event now server_id topic sender_id [] [] h).0, err panics)
  add_event now server_id topic sender_id (some (name, details)) h =
      add_named_event now server_id topic sender_id name details h

  -- `UnSubscribe`
  unfoldable un_subscribe :
      (Uuid → Str) → ℕ → Str → Str → List Str → EvtServer → EvtServer × Result GrpcErr Uuid
  unfolding checked
  un_subscribe show_uuid now server_id subscriber_id topics h = elim (checked h server_id) [
    | err e ↦ (h, err e)
    | ok (s, srv_id) ↦ elim (parse_uuid (trim subscriber_id)) [
      | none ↦ (h, err invalid_subscriber)
      | some who ↦ answered h srv_id (unsubscribe_topics show_uuid now s who topics)
    ]
  ]

module _ (show_uuid : Uuid → Str) (now : ℕ) where
  abbrev emitted : Option EventServer → Str → Str → Option EventServer
  emitted none name descr = none
  emitted (some s) name descr = some (Host.emit_event Host.emit_fuel now s name descr)

  abbrev pub about_host : Option EventServer → Str → ℕ → Str
  about_host none host port = []
  about_host (some s) host port =
      codes "{name: \""
      ++ (s.name
          ++ (codes "\", id: \""
              ++ (show_uuid s.id
                  ++ (codes "\",type: \"grpc\", host: \""
                      ++ (host ++ (codes "\", port: \"" ++ (itoa port ++ codes "\"}")))))))

  -- `Run` until it serves, with a context that is not done; `listens` tells whether `net.Listen` succeeds
  unfoldable pub run : Bool → Str → ℕ → EvtServer → EvtServer × Option GrpcErr
  run listens host port h =
      if h.runned
      then (h, some already_runned)
      else if not listens
      then (h, some listen_failed)
      else (
        record h {
          srv = emitted h.srv (codes "ES_GRPC_START_EVT") (about_host h.srv host port);
          ctx = live;
          host = host;
          port = port;
          runned = true;
        },
        none,
      )

  -- `Run` after it has served
  unfoldable pub served : EvtServer → EvtServer
  served h = record h { srv = emitted h.srv (codes "ES_GRPC_END_EVT") []; runned = false }
