-- ===== src/Bus.antt =====
-- srvbus.go: the bus, which runs the three servers together. They emit into one event server, to which
-- each has a pointer: here `share` stores what it became in every one of them.
pub mod Running
pub mod Making
pub mod Again
pub mod Sharing
pub mod Steps
pub mod Keeping
pub mod Safe
mod Tests
use srvbus.Common.{
  ℕ, Bool, true, false, not, ◌&&◌, Option, none, some, List, [], ◌∷◌, ◌++◌, Uuid, nil_uuid, nat_eq,
  Result, ok, err, ◌==◌, if◌then◌else◌,
}
use srvbus.Common.Text.{Str, codes, slash, is_empty}
use srvbus.Es.Event.{EsErr}
use srvbus.Es.Topic.{Ctx, no_ctx, live, cancelled}
use srvbus.Es.Server as Events
use srvbus.Es.Server.{EventServer, start}
use srvbus.Es.Server.Emitter.{emit_from}
use srvbus.Ms.Message.{MsErr}
use srvbus.Ms.Server as Messages
use srvbus.Ms.Server.{MessageServer}
use srvbus.S2.Service.{S2Err}
use srvbus.S2.Server as Services
use srvbus.S2.Server.{ServiceServer}

-- `SBusErr` by its text, with the error that it wraps
pub data BusErr : Type 0 where
  already_runned not_runned logger_failed no_event_server no_message_server no_service_server :
      BusErr
  event_server_failed : EsErr → BusErr
  message_server_failed : MsErr → BusErr
  service_server_failed : S2Err → BusErr

-- `none` is a nil pointer
pub record ServiceBus : Type 0 where
  pub id : Uuid
  pub ctx : Ctx
  pub e_srv : Option EventServer
  pub m_srv : Option MessageServer
  pub s_srv : Option ServiceServer
  pub runned : Bool
  pub es_topic : Str

abbrev pub with_events : Option EventServer → Option MessageServer → Option MessageServer
with_events e none = none
with_events e (some m) = some (record m { e_srv = e })

abbrev pub with_events_too : Option EventServer → Option ServiceServer → Option ServiceServer
with_events_too e none = none
with_events_too e (some s) = some (record s { e_srv = e })

-- The event server is changed, and all see it: `New` gives the one pointer to the other two servers, and
-- nothing takes it from them.
unfoldable pub share : Option EventServer → ServiceBus → ServiceBus
share e sb = record sb {
  e_srv = e;
  m_srv = with_events e sb.m_srv;
  s_srv = with_events_too e sb.s_srv;
}

abbrev bus_start : Str
bus_start = codes "SBUS_START_EVT"

abbrev bus_end : Str
bus_end = codes "SBUS_END_EVT"

abbrev default_topic : Str
default_topic = codes "/sbus"

module _ (show_uuid : Uuid → Str) (now : ℕ) where
  -- `EmitEvent`
  unfoldable pub emit_event : ServiceBus → Str → Str → ServiceBus
  unfolding share
  emit_event sb name descr = elim sb.e_srv [
    | none ↦ sb
    | some e ↦
        let text =
          if is_empty descr
          then codes "{sbus_id: \"" ++ (show_uuid sb.id ++ codes "\"}")
          else descr in
        let (e', at) =
          emit_from now (default_topic ++ slash ∷ show_uuid sb.id) sb.id e sb.es_topic name text in
        share (some e') (record sb { es_topic = at })
  ]

  -- a bus of three servers, in `New`
  abbrev pub bus_of : Uuid → EventServer → MessageServer → ServiceServer → ServiceBus
  bus_of id e m s = record {
    id = id;
    ctx = no_ctx;
    e_srv = some e;
    m_srv = some m;
    s_srv = some s;
    runned = false;
    es_topic = [];
  }

  -- the service server, in `New`
  abbrev new_services : Uuid → Uuid → EventServer → MessageServer → Result BusErr ServiceBus
  new_services fresh id e m =
      elim (Services.new show_uuid now fresh fresh (codes "SB_S2") true m.e_srv) [
        | err x ↦ err (service_server_failed x)
        | ok s ↦ ok (share s.e_srv (bus_of id e m s))
      ]

  abbrev new_messages : Uuid → Uuid → Uuid → EventServer → Result BusErr ServiceBus
  new_messages fresh_m fresh_s id e =
      elim (Messages.new show_uuid now fresh_m fresh_m (codes "SB_MS") true (some e)) [
        | err x ↦ err (message_server_failed x)
        | ok m ↦ new_services fresh_s id e m
      ]

  -- `New`. The `fresh` identifiers are the answers of `uuid.New`; `made` tells whether zap makes a logger
  -- when none is given.
  unfoldable pub new : Uuid → Uuid → Uuid → Uuid → Uuid → Bool → Bool → Result BusErr ServiceBus
  unfolding share
  new fresh fresh_e fresh_m fresh_s id has_log made =
      if not has_log && not made
      then err logger_failed
      else elim (Events.new show_uuid fresh_e fresh_e (codes "SB_ES") true) [
        | err x ↦ err (event_server_failed x)
        | ok e ↦ new_messages fresh_m fresh_s (if id == nil_uuid then fresh else id) e
      ]

  -- the end of `Run`
  unfoldable pub run_done : ServiceBus → ServiceBus × Option BusErr
  unfolding emit_event
  run_done sb = (emit_event (record sb { runned = true }) bus_start [], none)

  -- what follows `sSrv.Run`
  unfoldable pub after_services :
      ServiceBus → ServiceServer × Option S2Err → ServiceBus × Option BusErr
  unfolding run_done share
  after_services sb (s, f) =
      let sb' = share s.e_srv (record sb { s_srv = some s }) in
      elim f [ some x ↦ (sb', some (service_server_failed x)) | none ↦ run_done sb' ]

  -- "run service server"
  unfoldable pub run_services : ServiceBus → ServiceBus × Option BusErr
  unfolding after_services
  run_services sb = elim sb.s_srv [
    | none ↦ (sb, some no_service_server)
    | some s ↦ after_services sb (Services.run show_uuid now s)
  ]

  -- what follows `mSrv.Run`
  unfoldable pub after_messages :
      ServiceBus → MessageServer × Option MsErr → ServiceBus × Option BusErr
  unfolding run_services share
  after_messages sb (m, f) =
      let sb' = share m.e_srv (record sb { m_srv = some m }) in
      elim f [ some x ↦ (sb', some (message_server_failed x)) | none ↦ run_services sb' ]

  -- "run message server"
  unfoldable pub run_messages : ServiceBus → ServiceBus × Option BusErr
  unfolding after_messages
  run_messages sb = elim sb.m_srv [
    | none ↦ (sb, some no_message_server)
    | some m ↦ after_messages sb (Messages.run show_uuid now m)
  ]

  -- what follows `eSrv.Run`
  unfoldable pub after_events : ServiceBus → EventServer × Option EsErr → ServiceBus × Option BusErr
  unfolding run_messages share
  after_events sb (e, f) =
      let sb' = share (some e) sb in
      elim f [ some x ↦ (sb', some (event_server_failed x)) | none ↦ run_messages sb' ]

  -- "run event server first", and what follows
  unfoldable pub run_events : ServiceBus → ServiceBus × Option BusErr
  unfolding after_events
  run_events sb = elim sb.e_srv [
    | none ↦ (sb, some no_event_server)
    | some e ↦ after_events sb (start now e false)
  ]

  -- `Run`, with a context that is not done
  unfoldable pub run : ServiceBus → ServiceBus × Option BusErr
  unfolding run_events
  run sb = if sb.runned then (sb, some already_runned) else run_events (record sb { ctx = live })

  -- the goroutine of `Run`, once the context is done
  unfoldable pub halt : ServiceBus → ServiceBus
  unfolding emit_event
  halt sb = emit_event (record sb { runned = false }) bus_end []

-- a server of a running bus
unfoldable pub server_of : {A : Type 0} → Bool → BusErr → Option A → Result BusErr A
server_of runned absent server =
    if not runned then err not_runned else elim server [ none ↦ err absent | some s ↦ ok s ]

-- `GetEventServer`
unfoldable pub get_event_server : ServiceBus → Result BusErr EventServer
unfolding server_of
get_event_server sb = server_of sb.runned no_event_server sb.e_srv

-- `GetMessageServer`
unfoldable pub get_message_server : ServiceBus → Result BusErr MessageServer
unfolding server_of
get_message_server sb = server_of sb.runned no_message_server sb.m_srv

-- `GetServiceServer`
unfoldable pub get_service_server : ServiceBus → Result BusErr ServiceServer
unfolding server_of
get_service_server sb = server_of sb.runned no_service_server sb.s_srv
