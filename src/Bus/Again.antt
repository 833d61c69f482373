-- ===== src/Bus/Again.antt =====
-- A bus that ran, was stopped, and is run again.
use srvbus.Common.{
  ℕ, ◌≡◌, refl, sym, ap, ◌∙◌, true, false, Option, some, arith, Uuid, ok, Option-cases, inl, inr,
}
use srvbus.Common.Text.{Str}
use srvbus.Es.Event.{topic_exists, wrapped}
use srvbus.Es.Topic.{Ctx, TopicData, Forest, live, get}
use srvbus.Es.Server.{EventServer, default_topic}
use srvbus.Es.Server.Lifecycle.{begun}
use srvbus.Es.Server.Steady.{has_key}
use srvbus.Es.Server.Steps as Events
use srvbus.Es.Server.Steps.{map_forest, deliver, update_topic, give_up, cancel_all, halt, end_topic}
use srvbus.Es.Server.Delivery.{get-map_forest}
use srvbus.Ms.Server.{MessageServer}
use srvbus.S2.Server.{ServiceServer}
use srvbus.Bus as Bus
use srvbus.Bus.{event_server_failed, ServiceBus, run}
use srvbus.Bus.Running.{bus_with, run_stopped}
use srvbus.Bus.Making.{new-IsUp}

map_forest-has_key :
    (g : TopicData → TopicData) (k : Str) (f : Forest)
    → has_key k f ≡ true
    → has_key k (map_forest g f) ≡ true
map_forest-has_key g k f h = elim (Option-cases (get k f)) [
  | inl e ↦ absurd (ground arith)
  | inr (t, e) ↦ ground (arith, get-map_forest g k f)
]

step-has_key :
    (k : Str) {s t : EventServer}
    → Events.Step s t
    → has_key k s.topics ≡ true
    → has_key k t.topics ≡ true
step-has_key k {s} (deliver now send xs ys e) h = map_forest-has_key _ k s.topics h
step-has_key k {s} (update_topic addr place) h = map_forest-has_key _ k s.topics h
step-has_key k (give_up send xs ys c e) h = h
step-has_key k {s} (cancel_all c) h = map_forest-has_key _ k s.topics h
step-has_key k (halt c) h = h
step-has_key k {s} (end_topic addr) h = map_forest-has_key _ k s.topics h

Reach-has_key :
    (k : Str) {s t : EventServer}
    → Events.Reach s t
    → has_key k s.topics ≡ true
    → has_key k t.topics ≡ true
Reach-has_key k Events.here h = h
Reach-has_key k (Events.next r st) h = step-has_key k st (Reach-has_key k r h)

-- A bus that `New` made is run. Then its event server goes on, with its goroutines and its context, until it
-- does not run. A bus over it that does not run cannot be run: `Run` returns the error that the event
-- server's own topic exists, which is left from the first run; the bus does not run, and its event server does.
pub run_again :
    (show_uuid : Uuid → Str) (now later fresh fresh_e fresh_m fresh_s id : ℕ) (id' : Uuid)
    (ctx : Ctx) (at : Str) {sb : ServiceBus} {e e' : EventServer} (m : MessageServer)
    (s : ServiceServer)
    → Bus.new show_uuid now fresh fresh_e fresh_m fresh_s id true true ≡ ok sb
    → (run show_uuid now sb).0.e_srv ≡ some e
    → Events.Reach e e'
    → e'.runned ≡ false
    → run show_uuid later (bus_with id' ctx false at e' m s) ≡ (
      bus_with id' live false at (begun e' false) m s,
      some (event_server_failed (wrapped (topic_exists default_topic))),
    )
run_again show_uuid now later fresh fresh_e fresh_m fresh_s id id' ctx at {sb} {e} {e'} m s made ran
      r off =
    let (sb', made', up) = new-IsUp show_uuid now fresh fresh_e fresh_m fresh_s id true true refl in
    let same : sb' ≡ sb = cc (made, made') in
    let is_event : up.event ≡ e = cc (
      ran,
      ap (λ (x : ServiceBus). (run show_uuid now x).0.e_srv) same,
      ap (λ (x : ServiceBus × Option Bus.BusErr). x.0.e_srv) up.is,
    ) in
    let kept : has_key default_topic e'.topics ≡ true =
      Reach-has_key default_topic r (
        ap (λ (x : EventServer). has_key default_topic x.topics) (sym is_event) ∙ up.topic_there) in
    elim (Option-cases (get default_topic e'.topics)) [
      | inl missing ↦ absurd (ground arith)
      | inr (t, found) ↦ run_stopped show_uuid later id' ctx at e' m s off found
    ]
