-- ===== src/Grpc/Bus/State.antt =====
-- The state of the bus service, and what it shares with the bus: a service has a pointer to its host server,
-- which is the bus's. Here the functions store what became of it in all that have the pointer.
use srvbus.Common.{ℕ, Bool, Option, none, some}
use srvbus.Common.Text.{Str}
use srvbus.Es.Topic.{Ctx}
use srvbus.Es.Server.{EventServer}
use srvbus.Ms.Server.{MessageServer}
use srvbus.Bus.{ServiceBus, share}
use srvbus.Grpc.Messages.{MsgServer}
use srvbus.Grpc.Events.{EvtServer}

-- the ports of the event server, of the message server and of the service server
pub record Ports : Type 0 where
  pub event_server : ℕ
  pub message_server : ℕ
  pub service_server : ℕ

-- `none` is a nil pointer
pub record SrvBus : Type 0 where
  pub s_bus : Option ServiceBus
  pub ctx : Ctx
  pub host : Str
  pub port : ℕ
  pub srv_ports : Ports
  pub m_srv : Option MsgServer
  pub e_srv : Option EvtServer
  pub runned : Bool

abbrev pub with_host : Option MessageServer → Option MsgServer → Option MsgServer
with_host s none = none
with_host s (some m) = some (record m { srv = s })

abbrev pub with_host_too : Option EventServer → Option EvtServer → Option EvtServer
with_host_too s none = none
with_host_too s (some e) = some (record e { srv = s })

-- The bus is changed, and the services see it.
unfoldable pub share_bus : ServiceBus → SrvBus → SrvBus
share_bus sb h = record h {
  s_bus = some sb;
  m_srv = with_host sb.m_srv h.m_srv;
  e_srv = with_host_too sb.e_srv h.e_srv;
}

-- the bus, when its message server is changed, or its event server
abbrev pub with_messages : MessageServer → ServiceBus → ServiceBus
with_messages s sb = share s.e_srv (record sb { m_srv = some s })

abbrev pub with_event_server : EventServer → ServiceBus → ServiceBus
with_event_server e sb = share (some e) sb

-- The message service and its host are changed, and the bus sees it.
unfoldable pub share_messages : MsgServer → SrvBus → SrvBus
unfolding share_bus
share_messages m h = elim m.srv [
  | none ↦ record h { m_srv = some m }
  | some s ↦ elim h.s_bus [
    | none ↦ record h { m_srv = some m }
    | some sb ↦ share_bus (with_messages s sb) (record h { m_srv = some m })
  ]
]

-- The event service and its host are changed, and the bus sees it.
unfoldable pub share_events : EvtServer → SrvBus → SrvBus
unfolding share_bus
share_events e h = elim e.srv [
  | none ↦ record h { e_srv = some e }
  | some s ↦ elim h.s_bus [
    | none ↦ record h { e_srv = some e }
    | some sb ↦ share_bus (with_event_server s sb) (record h { e_srv = some e })
  ]
]
