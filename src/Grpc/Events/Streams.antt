-- ===== src/Grpc/Events/Streams.antt =====
-- api/grpc/esgrpc/esgrpc.go: the streams of the event service. A call of `Subscribe` has a number. It checks
-- its stream, registers it, subscribes, sends events, and removes the stream, in steps of which each holds
-- the lock on its own.
pub mod Life
pub mod Closed
mod Tests
use srvbus.Common.{
  ℕ, Bool, true, false, not, ◌&&◌, Option, none, some, List, [], ◌∷◌, ◌++◌, Uuid, nat_eq, Result,
  ok, err, Map, lookup, insert, delete, if◌then◌else◌, ◌>>=◌,
}
use srvbus.Common.Text.{Str, trim}
use srvbus.Ds.{data_of}
use srvbus.Es.Event.{Event, Envelope}
use srvbus.Es.Server.{EventServer}
use srvbus.Grpc.{
  GrpcErr, invalid_subscriber, invalid_stream, known_stream, no_stream, cancelled, stream_failed,
  panics,
}
use srvbus.Grpc.Events.{EvtServer, Subscr, subscribe_all, checked}

-- the streams of a subscriber; a missing key of the outer map reads as a nil map
abbrev pub streams_of : Uuid → EvtServer → Map Uuid ℕ
streams_of who h = elim (lookup who h.streams) [ none ↦ [] | some ss ↦ ss ]

-- `_, ok := subsStreams[subscriberID][streamID]`
abbrev pub is_known : Uuid → Uuid → EvtServer → Bool
is_known who stream h = elim (lookup stream (streams_of who h)) [ none ↦ false | some call ↦ true ]

-- `checkSubsStream`
unfoldable pub check_subs_stream : Uuid → Uuid → Bool → EvtServer → EvtServer × Bool
check_subs_stream who stream get_new h = elim (lookup who h.streams) [
  | none ↦
      if not get_new then (h, false) else (record h { streams = insert who [] h.streams }, true)
  | some ss ↦ elim (lookup stream ss) [ none ↦ (h, get_new) | some call ↦ (h, not get_new) ]
]

-- `Subscribe` registers the cancel function of the call.
unfoldable pub register : ℕ → Uuid → Uuid → EvtServer → EvtServer
register call who stream h = record h {
  streams = insert who (insert stream call (streams_of who h)) h.streams;
}

-- A subscriber without streams is dropped.
abbrev pub put_left : Uuid → Map Uuid ℕ → Map Uuid (Map Uuid ℕ) → Map Uuid (Map Uuid ℕ)
put_left who [] m = delete who m
put_left who (s ∷ ss) m = insert who (s ∷ ss) m

-- `Subscribe`, after the stream has ended
unfoldable pub finish : ℕ → Uuid → Uuid → EvtServer → EvtServer
finish call who stream h = record h {
  stopped = h.stopped ++ call ∷ [];
  closed = h.closed ++ call ∷ [];
  streams = put_left who (delete stream (streams_of who h)) h.streams;
}

-- the event's envelope in the protocol
pub record Sent : Type 0 where
  pub server_id : Str
  pub topic : Str
  pub sender_id : Str
  pub reg_at : Str
  pub name : Str
  pub details : Str
  timestamp : ℕ

module _ (show_uuid : Uuid → Str) (show_time : ℕ → Str) (unix : ℕ → ℕ) where
  unfoldable pub sent_of : Uuid → Envelope → Event → Sent
  sent_of srv_id ee evt = record {
    server_id = show_uuid srv_id;
    topic = ee.topic;
    sender_id = show_uuid ee.publisher;
    reg_at = show_time ee.reg_at;
    name = evt.item.name;
    details = data_of evt.item;
    timestamp = unix evt.at;
  }

  -- `sendEvents`, over the envelopes that the channel gives and whether sending each succeeds, until the
  -- context is done: what was sent, and the error, which it always returns
  unfoldable send_events : Uuid → List (Envelope × Bool) → List Sent × GrpcErr
  unfolding sent_of
  send_events srv_id [] = ([], cancelled)
  send_events srv_id ((ee, sends) ∷ later) =
      let (others, e) = send_events srv_id later in
      elim ee.event [
        | none ↦ ([], panics)
        | some evt ↦ if sends then (sent_of srv_id ee evt ∷ others, e) else ([], stream_failed)
      ]

module _ (parse_uuid : Str → Option Uuid) where
  -- the subscriber and the stream of a request
  unfoldable pub parties : Str → Str → Result GrpcErr (Uuid × Uuid)
  parties subscriber_id stream_id = elim (parse_uuid (trim subscriber_id)) [
    | none ↦ err invalid_subscriber
    | some who ↦ elim (parse_uuid (trim stream_id)) [
      | none ↦ err invalid_stream
      | some stream ↦ ok (who, stream)
    ]
  ]

  -- The first part of `Subscribe`: the checks.
  unfoldable begin_subscribe :
      Str → Str → Str → EvtServer → EvtServer × Result GrpcErr (Uuid × (Uuid × Uuid))
  unfolding checked parties check_subs_stream
  begin_subscribe server_id subscriber_id stream_id h = elim (checked parse_uuid h server_id) [
    | err e ↦ (h, err e)
    | ok (s, srv_id) ↦ elim (parties subscriber_id stream_id) [
      | err e ↦ (h, err e)
      | ok (who, stream) ↦
          let (h', is_new) = check_subs_stream who stream true h in
          (h', (if is_new then ok (srv_id, (who, stream)) else err (known_stream stream)))
    ]
  ]

  -- `StopSubscriptionStream`
  unfoldable stop_stream : Str → Str → Str → EvtServer → EvtServer × Result GrpcErr Uuid
  unfolding checked parties check_subs_stream
  stop_stream server_id subscriber_id stream_id h = elim (checked parse_uuid h server_id) [
    | err e ↦ (h, err e)
    | ok (s, srv_id) ↦ elim (parties subscriber_id stream_id) [
      | err e ↦ (h, err e)
      | ok (who, stream) ↦
          if not (check_subs_stream who stream false h).1
          then (h, err (no_stream stream))
          else elim (lookup stream (streams_of who h)) [
            | none ↦ (h, err (no_stream stream))
            | some call ↦ (record h { stopped = h.stopped ++ call ∷ [] }, ok srv_id)
          ]
    ]
  ]

-- `Subscribe` registers the subscriptions on the host server, with the channel of the call.
unfoldable pub add_subscriptions : (Uuid → Str) → ℕ → ℕ → Uuid → List Subscr → EvtServer → EvtServer
unfolding subscribe_all
add_subscriptions show_uuid now call who subscrs h = elim h.srv [
  | none ↦ h
  | some s ↦ record h { srv = some (subscribe_all show_uuid now call who subscrs s) }
]
