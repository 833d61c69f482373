-- ===== src/Bus/Tests.antt =====
-- Runs of the bus.
use srvbus.Common.{◌≡◌, ◌≢◌, refl, ap, true, false, some, [], ◌∷◌, ok, err, Uuid}
use srvbus.Common.Text.{Str, codes}
use srvbus.Es.Event.{topic_exists, wrapped}
use srvbus.Es.Topic.{no_ctx, cancelled, live, get}
use srvbus.Es.Server.{EventServer, default_topic}
use srvbus.Es.Server.Lifecycle.{begun}
use srvbus.Ms.Message.{panics}
use srvbus.Ms.Server as Messages
use srvbus.Ms.Server.{MessageServer}
use srvbus.Ms.Server.Steps as MessageSteps
use srvbus.Bus.{event_server_failed, ServiceBus, new, run, share}
use srvbus.Bus.Running.{bus_with, IsUp, run-IsUp}
use srvbus.Bus.Again.{run_again}
use srvbus.Es.Server.Steps as Events
use srvbus.Es.Server.Steps.{map_forest, cancel_topic_ctx}
use srvbus.Bus.Making.{new_event, new_message, new_service, new_bus, new_lem, new-IsUp}
use srvbus.Bus.Steps.{Reach, here, next, messages}
use srvbus.Bus.Safe.{bus_reads}

abbrev show_uuid : Uuid → Str
show_uuid n = n ∷ []

new-IsUp_example :
    (sb : ServiceBus) × (new show_uuid 0 9 1 2 3 4 true true ≡ ok sb)
    × IsUp show_uuid 0 sb.id (run show_uuid 0 sb)
new-IsUp_example = new-IsUp show_uuid 0 9 1 2 3 4 true true refl

abbrev made : ServiceBus
made = new_bus show_uuid 0 9 1 2 3 4

is_made : new show_uuid 0 9 1 2 3 4 true true ≡ ok made
is_made = new_lem show_uuid 0 9 1 2 3 4 true true refl

abbrev message_server : MessageServer
message_server = new_message show_uuid 0 2 (new_event show_uuid 0 1)

-- the message server of the bus is run on its own, before the bus
abbrev started : ServiceBus
started =
    let m = (Messages.run show_uuid 0 message_server).0 in
    share m.e_srv (record made { m_srv = some m })

started-Reach : Reach show_uuid made started
started-Reach = next here (messages message_server _ refl (MessageSteps.starts 0))

abbrev lent : MessageServer
lent = record (Messages.run show_uuid 0 message_server).0 {
  e_srv = (Messages.run show_uuid 0 message_server).0.e_srv;
}

is_lent : started.m_srv ≡ some lent
unfolding share
is_lent = refl

bus_reads_example :
    (lent.e_srv ≡ started.e_srv) × (Messages.get lent 8 (codes "q") false ≢ err panics)
bus_reads_example =
    bus_reads show_uuid 0 9 1 2 3 4 8 (codes "q") false is_made started-Reach is_lent

-- the bus has run
up : IsUp show_uuid 0 made.id (run show_uuid 0 made)
up =
    run-IsUp show_uuid 0 4 no_ctx [] (new_event show_uuid 0 1) message_server
      (new_service show_uuid 0 3 (new_event show_uuid 0 1)) refl (unfold get in refl) refl refl

-- its event server is cancelled, and stops
abbrev stopped : EventServer
stopped = record up.event {
  ctx = cancelled;
  topics = map_forest (λ d. record d { ctx = cancel_topic_ctx d.ctx }) up.event.topics;
  runned = false;
}

stopped-Reach : Events.Reach up.event stopped
stopped-Reach =
    Events.next (Events.next Events.here (Events.cancel_all up.event_lives)) (Events.halt refl)

run_again_example :
    run show_uuid 5
      (bus_with 4 cancelled false [] stopped message_server (new_service show_uuid 0 3 stopped))
    ≡ (
      bus_with 4 live false []
          (begun stopped false)
          message_server
          (new_service show_uuid 0 3 stopped),
      some (event_server_failed (wrapped (topic_exists default_topic))),
    )
run_again_example =
    run_again show_uuid 0 5 9 1 2 3 4 4 cancelled [] message_server
      (new_service show_uuid 0 3 stopped) is_made (ap (λ r. r.0.e_srv) up.is) stopped-Reach refl
