-- ===== src/Grpc/Bus.antt =====
-- api/grpc/sbgrpc: the bus service, which makes and runs the other two services.
mod State
pub mod Answers
pub mod Steps
pub mod Served
pub mod Serving
pub mod Requests
pub mod Safe
mod Tests
pub use State.{Ports, SrvBus, with_host, with_host_too, with_messages, with_event_server}
unfoldable pub use State.{share_bus, share_messages, share_events}
use srvbus.Common.{
  ℕ, zero, suc, Bool, true, false, not, ◌&&◌, Option, none, some, List, [], ◌∷◌, ◌++◌, Uuid,
  nil_uuid, nat_eq, Result, ok, err, ◌==◌, if◌then◌else◌, ◌>>=◌,
}
use srvbus.Common.Int.{ℤ, pos, negsuc}
use srvbus.Common.Text.{Str, codes, trim}
use srvbus.Es.Topic.{Ctx, no_ctx, live}
use srvbus.Bus as Host
use srvbus.Bus.{BusErr, ServiceBus, get_message_server, get_event_server}
use srvbus.Grpc.{
  GrpcErr, no_host, already_runned, not_runned, listen_failed, invalid_server_id, other_server,
  not_implemented, bus_failed,
}
use srvbus.Grpc.Messages as Messages
use srvbus.Grpc.Messages.{MsgServer}
use srvbus.Grpc.Events as Events
use srvbus.Grpc.Events.{EvtServer}

-- `New`
unfoldable pub new : Option ServiceBus → Result GrpcErr SrvBus
new none = err no_host
new (some sb) = ok (record {
  s_bus = some sb;
  ctx = no_ctx;
  host = [];
  port = 0;
  srv_ports = record { event_server = 0; message_server = 0; service_server = 0 };
  m_srv = none;
  e_srv = none;
  runned = false;
})

-- a port, or the default when it is not positive
unfoldable pub port_or : ℕ → ℤ → ℕ
port_or default (pos zero) = default
port_or default (pos (suc n)) = suc n
port_or default (negsuc n) = default

-- the loop of `Run` over the ports, with `srvDefaultPorts`
unfoldable pub ports_of : ℤ → ℤ → ℤ → Ports
unfolding port_or
ports_of e m s = record {
  event_server = port_or 50071 e;
  message_server = port_or 50072 m;
  service_server = port_or 50073 s;
}

-- what a handler answers: the server's identifier, its host and its port
pub record ServerResponse : Type 0 where
  pub server_id : Str
  pub host : Str
  pub port : ℕ

module _ (show_uuid : Uuid → Str) (now : ℕ) where
  -- the bus, run when it does not run yet
  unfoldable pub run_host : SrvBus → SrvBus × Option GrpcErr
  unfolding share_bus
  run_host h = elim h.s_bus [
    | none ↦ (h, some no_host)
    | some sb ↦
        let (sb', e) = Host.run show_uuid now sb in
        if sb.runned
        then (h, none)
        else (share_bus sb' h, (elim e [ none ↦ none | some x ↦ some (bus_failed x) ]))
  ]

  abbrev pub about_bus : ServiceBus → Str
  about_bus sb = codes "{id: \"" ++ (show_uuid sb.id ++ codes "\"}")

  abbrev pub emitted : SrvBus → Str → SrvBus
  emitted h name = elim h.s_bus [
    | none ↦ h
    | some sb ↦ share_bus (Host.emit_event show_uuid now sb name (about_bus sb)) h
  ]

  -- `Run` until it serves, with a context that is not done; `listens` tells whether `net.Listen` succeeds
  unfoldable pub run : Bool → Str → ℕ → ℤ → ℤ → ℤ → SrvBus → SrvBus × Option GrpcErr
  unfolding run_host ports_of share_bus
  run listens host port e m s h =
      let (h', failed) = run_host h in
      if h.runned then (h, some already_runned) else elim failed [
        | some x ↦ (h', some x)
        | none ↦ if not listens then (h', some listen_failed) else (
          emitted
              (record h' {
                ctx = live;
                host = host;
                port = port;
                srv_ports = ports_of e m s;
                runned = true;
              })
              (codes "SB_GRPC_START_EVT"),
          none,
        )
      ]

  -- `Run` after it has served
  unfoldable pub served : SrvBus → SrvBus
  unfolding share_bus
  served h = emitted (record h { runned = false }) (codes "SB_GRPC_END_EVT")

-- the service over the message server, which `getMsGrpc` makes when there is none
unfoldable pub made_ms : SrvBus → Result GrpcErr MsgServer
made_ms h = elim h.m_srv [
  | some m ↦ ok m
  | none ↦ elim h.s_bus [
    | none ↦ err no_host
    | some sb ↦ elim (get_message_server sb) [
      | err e ↦ err (bus_failed e)
      | ok m ↦ Messages.new (some m)
    ]
  ]
]

unfoldable pub made_es : SrvBus → Result GrpcErr EvtServer
made_es h = elim h.e_srv [
  | some e ↦ ok e
  | none ↦ elim h.s_bus [
    | none ↦ err no_host
    | some sb ↦ elim (get_event_server sb) [
      | err x ↦ err (bus_failed x)
      | ok e ↦ Events.new (some e)
    ]
  ]
]

-- `getMsGrpc`. The goroutine that runs the service is `serve_ms`.
unfoldable pub get_ms_grpc : SrvBus → SrvBus × Result GrpcErr MsgServer
unfolding made_ms
get_ms_grpc h =
    if not h.runned
    then (h, err not_runned)
    else elim (made_ms h) [ err e ↦ (h, err e) | ok m ↦ (record h { m_srv = some m }, ok m) ]

-- `getEsGrpc`. The goroutine that runs the service is `serve_es`.
unfoldable pub get_es_grpc : SrvBus → SrvBus × Result GrpcErr EvtServer
unfolding made_es
get_es_grpc h =
    if not h.runned
    then (h, err not_runned)
    else elim (made_es h) [ err x ↦ (h, err x) | ok e ↦ (record h { e_srv = some e }, ok e) ]

-- the goroutine of `getMsGrpc`: `Run` of the service; its error is only logged
unfoldable pub serve_ms : (Uuid → Str) → ℕ → Bool → SrvBus → SrvBus
unfolding share_messages
serve_ms show_uuid now listens h = elim h.m_srv [
  | none ↦ h
  | some m ↦
      share_messages (Messages.run show_uuid now listens h.host h.srv_ports.message_server m).0 h
]

-- the goroutine of `getEsGrpc`
unfoldable pub serve_es : (Uuid → Str) → ℕ → Bool → SrvBus → SrvBus
unfolding share_events
serve_es show_uuid now listens h = elim h.e_srv [
  | none ↦ h
  | some e ↦ share_events (Events.run show_uuid now listens h.host h.srv_ports.event_server e).0 h
]

-- the end of `Run` of either service
unfoldable pub ended_ms : (Uuid → Str) → ℕ → SrvBus → SrvBus
unfolding share_messages
ended_ms show_uuid now h = elim h.m_srv [
  | none ↦ h
  | some m ↦ share_messages (Messages.served show_uuid now m) h
]

unfoldable pub ended_es : (Uuid → Str) → ℕ → SrvBus → SrvBus
unfolding share_events
ended_es show_uuid now h = elim h.e_srv [
  | none ↦ h
  | some e ↦ share_events (Events.served show_uuid now e) h
]

module _ (parse_uuid : Str → Option Uuid) (show_uuid : Uuid → Str) where
  -- the answer about a message service, when the request asks for it or for any
  unfoldable pub ms_response : Uuid → MsgServer → Result GrpcErr ServerResponse
  ms_response srv_id m =
      if not (srv_id == nil_uuid) && not (srv_id == Messages.id_of m)
      then err (other_server (Messages.id_of m) srv_id)
      else ok (record { server_id = show_uuid (Messages.id_of m); host = m.host; port = m.port })

  -- `GetMessageServer`
  unfoldable pub get_ms : Str → SrvBus → SrvBus × Result GrpcErr ServerResponse
  unfolding get_ms_grpc ms_response
  get_ms server_id h = elim (parse_uuid (trim server_id)) [
    | none ↦ (h, err invalid_server_id)
    | some srv_id ↦ let (h', m) = get_ms_grpc h in (h', m >>= ms_response srv_id)
  ]

  -- The answer about an event service, within a number of calls of its `ID`; `none` has not returned.
  unfoldable pub es_response : ℕ → Uuid → EvtServer → Option (Result GrpcErr ServerResponse)
  es_response calls srv_id e = elim (Events.id_of calls e) [
    | none ↦ none
    | some id ↦
        if not (srv_id == nil_uuid) && not (srv_id == id)
        then some (err (other_server id srv_id))
        else some (ok (record { server_id = show_uuid id; host = e.host; port = e.port }))
  ]

  -- `GetEventServer`
  unfoldable pub get_es : ℕ → Str → SrvBus → SrvBus × Option (Result GrpcErr ServerResponse)
  unfolding get_es_grpc es_response
  get_es calls server_id h = elim (parse_uuid (trim server_id)) [
    | none ↦ (h, some (err invalid_server_id))
    | some srv_id ↦
        let (h', r) = get_es_grpc h in
        (h', (elim r [ err x ↦ some (err x) | ok e ↦ es_response calls srv_id e ]))
  ]

-- `GetServiceServer`
unfoldable get_ss : Str → SrvBus → SrvBus × Result GrpcErr ServerResponse
get_ss server_id h = (h, err not_implemented)
