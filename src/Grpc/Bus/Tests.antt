-- ===== src/Grpc/Bus/Tests.antt =====
-- Runs of the bus service, after api/grpc/sbgrpc/sbgrpc_test.go.
use mathlib.Core.Path.{subst}
use srvbus.Common.{
  ◌≡◌, refl, ap, true, none, some, [], ◌∷◌, Uuid, Option, nil_uuid, arith, false, ok, err, ◌≢◌,
}
use srvbus.Common.Int.{pos, negsuc}
use srvbus.Common.Text.{Str, codes, trim}
use srvbus.Es.Topic.{live, no_ctx}
use srvbus.Bus.{ServiceBus}
use srvbus.Bus.Running.{bus_with, IsUp, run-IsUp}
use srvbus.Bus as Host
use srvbus.Bus.Steps as HostSteps
use srvbus.Bus.Sharing.{OnSome}
use srvbus.Ms.Server.{MessageServer, get}
use srvbus.Ms.Message.{panics}
use srvbus.Grpc.Messages as Messages
use srvbus.Grpc.Messages.{MsgServer}
use srvbus.Grpc.Events.{EvtServer}
use srvbus.Es.Topic as Topics
use srvbus.Bus.Making.{new_event, new_message, new_service, new_bus, new_lem}
use srvbus.Grpc.Bus.{SrvBus, new, run, ports_of, get_es, get_ms, serve_ms}
use srvbus.Grpc.Bus.Steps.{Reach, here, next, runs, asks_ms, starts_ms}
use srvbus.Grpc.Bus.Safe.{serves_host}
use srvbus.Grpc.Bus.Answers.{IsPort, ports_of-IsPort, get_es-never}

ports_of-IsPort_example :
    let p = ports_of (pos 0) (negsuc 3) (pos 9000) in
    IsPort p.event_server × IsPort p.message_server × IsPort p.service_server
ports_of-IsPort_example =
    ports_of-IsPort (pos 0) (negsuc 3) (pos 9000) (omega arith) tt (omega arith)

-- the character 0 is the nil identifier
abbrev parse_uuid : Str → Option Uuid
parse_uuid [] = none
parse_uuid (c ∷ s) = some c

abbrev show_uuid : Uuid → Str
show_uuid n = n ∷ []

-- a bus that runs, and its service
abbrev bus : ServiceBus
bus =
    let e = record (new_event show_uuid 0 1) { runned = true } in
    bus_with 4 live true [] e (new_message show_uuid 0 2 e) (new_service show_uuid 0 3 e)

abbrev handler : SrvBus
handler = record {
  s_bus = some bus;
  ctx = live;
  host = codes "localhost";
  port = 50070;
  srv_ports = ports_of (pos 0) (pos 0) (pos 0);
  m_srv = none;
  e_srv = none;
  runned = true;
}

nil_parsed : parse_uuid (trim (0 ∷ [])) ≡ some nil_uuid
unfolding trim
nil_parsed = refl

get_es-never_example : (get_es parse_uuid show_uuid 5 (0 ∷ []) handler).1 ≡ none
get_es-never_example =
    get_es-never parse_uuid show_uuid 5 (0 ∷ []) handler bus
      (record (new_event show_uuid 0 1) { runned = true }) 0 nil_parsed refl tt refl refl refl

-- a bus that `New` made and that runs, its service, and the message service that a request has started
abbrev made_bus : ServiceBus
made_bus = new_bus show_uuid 0 9 1 2 3 4

is_made : Host.new show_uuid 0 9 1 2 3 4 true true ≡ ok made_bus
is_made = new_lem show_uuid 0 9 1 2 3 4 true true refl

up : IsUp show_uuid 0 4 (Host.run show_uuid 0 made_bus)
up =
    let e = new_event show_uuid 0 1 in
    run-IsUp show_uuid 0 4 no_ctx [] e (new_message show_uuid 0 2 e) (new_service show_uuid 0 3 e)
      refl (unfold Topics.get in refl) refl refl

abbrev running : ServiceBus
running = bus_with 4 live true up.at up.event up.message up.service

running-Reach : HostSteps.Reach show_uuid made_bus running
running-Reach =
    subst (HostSteps.Reach show_uuid made_bus) (ap (λ r. r.0) up.is)
      (HostSteps.next HostSteps.here (HostSteps.runs 0))

abbrev fresh : SrvBus
fresh = record handler {
  s_bus = some running;
  ctx = no_ctx;
  host = [];
  port = 0;
  srv_ports = record { event_server = 0; message_server = 0; service_server = 0 };
  runned = false;
}

is_new : new (some running) ≡ ok fresh
unfolding new
is_new = refl

abbrev ran : SrvBus
ran = (run show_uuid 0 true (codes "localhost") 50070 (pos 0) (pos 0) (pos 0) fresh).0

abbrev asked : SrvBus
asked = (get_ms parse_uuid show_uuid (0 ∷ []) ran).0

abbrev host_of : SrvBus → ServiceBus
host_of h = elim h.s_bus [ none ↦ running | some sb ↦ sb ]

abbrev messages_of : SrvBus → MessageServer
messages_of h = elim (host_of h).m_srv [
  | none ↦ new_message show_uuid 0 2 (new_event show_uuid 0 1)
  | some s ↦ s
]

abbrev started : SrvBus
started = serve_ms show_uuid 0 true asked

host_lem : started.s_bus ≡ some (host_of started)
unfolding serve_ms get_ms trim run Host.get_message_server Host.emit_event Messages.new Messages.run
host_lem = refl

server_lem : (host_of started).m_srv ≡ some (messages_of started)
unfolding serve_ms get_ms trim run Host.get_message_server Host.emit_event Messages.new Messages.run
server_lem = refl

started-Reach : Reach parse_uuid show_uuid (λ n. n ∷ []) fresh started
started-Reach =
    next
      (next (next here (runs 0 true (codes "localhost") 50070 (pos 0) (pos 0) (pos 0)))
        (asks_ms (0 ∷ [])))
      (starts_ms 0 true)

serves_host_example :
    OnSome (λ (m : MsgServer). m.srv ≡ some (messages_of started)) started.m_srv
    × OnSome (λ (e : EvtServer). e.srv ≡ (host_of started).e_srv) started.e_srv
    × ((messages_of started).e_srv ≡ (host_of started).e_srv)
    × (get (messages_of started) 8 (codes "q") false ≢ err panics)
serves_host_example =
    serves_host parse_uuid show_uuid (λ n. n ∷ []) 0 9 1 2 3 4 8 (codes "q") false is_made
      running-Reach is_new started-Reach host_lem server_lem
