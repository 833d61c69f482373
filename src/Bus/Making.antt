-- ===== src/Bus/Making.antt =====
-- `New` of the bus, and `Run` on what it makes.
use srvbus.Common.{
  ℕ, ◌≡◌, refl, Bool, true, false, ◌||◌, none, some, [], ok, arith, Uuid, nil_uuid, nat_eq, ◌==◌,
  if◌then◌else◌,
}
use srvbus.Common.Text.{Str, codes, trim}
use srvbus.Es.Topic.{no_ctx, nil, get}
use srvbus.Es.Server.{EventServer, default_topic, start}
use srvbus.Es.Server.Emitter.{emit_via}
use srvbus.Ms.Server as Messages
use srvbus.Ms.Server.{MessageServer}
use srvbus.S2.Server as Services
use srvbus.S2.Server.{ServiceServer}
use srvbus.Bus as Bus
use srvbus.Bus.{
  BusErr, event_server_failed, ServiceBus, share, run, run_events, run_messages, run_services,
  after_events, after_messages, after_services, run_done, get_event_server, get_message_server,
  get_service_server, server_of,
}
use srvbus.Bus.Running.{bus_with, IsUp, run-IsUp}

module _ (show_uuid : Uuid → Str) (now : ℕ) where
  -- the servers that `New` makes
  abbrev pub new_event : Uuid → EventServer
  new_event fresh = record {
    id = if fresh == nil_uuid then fresh else fresh;
    name = codes "SB_ES";
    topics = nil;
    runned = false;
    ctx = no_ctx;
    es_topic = [];
    next = 0;
    sends = [];
  }

  abbrev pub new_message : Uuid → EventServer → MessageServer
  new_message fresh e = record {
    id = if fresh == nil_uuid then fresh else fresh;
    name = codes "SB_MS";
    queues = [];
    ctx = no_ctx;
    runned = false;
    e_srv = some e;
    es_topic = [];
  }

  abbrev pub new_service : Uuid → EventServer → ServiceServer
  new_service fresh e = record {
    id = if fresh == nil_uuid then fresh else fresh;
    name = codes "SB_S2";
    services = [];
    ctx = no_ctx;
    runned = false;
    e_srv = some e;
    es_topic = [];
    loop = Services.gone;
    resuming = none;
    execs = [];
    sends = [];
    starting = [];
    running = [];
    stops = [];
  }

  abbrev pub new_bus : Uuid → Uuid → Uuid → Uuid → Uuid → ServiceBus
  new_bus fresh fresh_e fresh_m fresh_s id =
      let e = new_event fresh_e in
      bus_with (if id == nil_uuid then fresh else id) no_ctx false [] e (new_message fresh_m e)
        (new_service fresh_s e)

  pub new_lem :
      (fresh fresh_e fresh_m fresh_s id : Uuid) (has_log made : Bool)
      → (has_log || made) ≡ true
      → Bus.new show_uuid now fresh fresh_e fresh_m fresh_s id has_log made
        ≡ ok (new_bus fresh fresh_e fresh_m fresh_s id)
  unfolding Bus.new Bus.Events.new Messages.new Messages.emit_event Services.new Services.emit_event
      share emit_via trim
  new_lem fresh fresh_e fresh_m fresh_s id true made h = refl
  new_lem fresh fresh_e fresh_m fresh_s id false true h = refl
  new_lem fresh fresh_e fresh_m fresh_s id false false h = absurd (ground arith)

  -- `New` with a logger, its own or a given one, makes a bus, and `Run` on it returns no error; all
  -- of the bus's servers run then.
  pub new-IsUp :
      (fresh fresh_e fresh_m fresh_s id : Uuid) (has_log made : Bool)
      → (has_log || made) ≡ true
      → (sb : ServiceBus) × (Bus.new show_uuid now fresh fresh_e fresh_m fresh_s id has_log made
          ≡ ok sb)
        × IsUp show_uuid now sb.id (run show_uuid now sb)
  new-IsUp fresh fresh_e fresh_m fresh_s id has_log made h =
      let e = new_event fresh_e in
      (
        new_bus fresh fresh_e fresh_m fresh_s id,
        new_lem fresh fresh_e fresh_m fresh_s id has_log made h,
        run-IsUp show_uuid now (if id == nil_uuid then fresh else id) no_ctx [] e
            (new_message fresh_m e) (new_service fresh_s e) refl (unfold get in refl) refl refl,
      )
