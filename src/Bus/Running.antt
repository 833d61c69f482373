-- ===== src/Bus/Running.antt =====
-- `Run` of the bus: what it leaves when it succeeds, and when the event server has its own topic already.
use mathlib.Core.Path.{subst}
use srvbus.Common.{
  ℕ, ◌≡◌, refl, sym, ap₂, ◌∙◌, Bool, true, false, Option, none, some, arith, Option-cases, inl, inr,
  [], ◌∷◌, ◌++◌, ok, Uuid, nat_eq,
}
use srvbus.Common.Text.{Str, codes, slash}
use srvbus.Es.Event.{topic_exists, wrapped}
use srvbus.Es.Topic.{Ctx, live, Topic, get}
use srvbus.Es.Server.{EventServer, default_topic, start}
use srvbus.Es.Server.Emitting.{IsNamed}
use srvbus.Es.Server.Lifecycle.{begun, start_first, start_again}
use srvbus.Es.Server.Steady.{
  has_key, Steady, Steady-IsNamed, start-Steady, emit_from-Steady, emit_via-Steady,
}
use srvbus.Ms.Server as Messages
use srvbus.Ms.Server.{MessageServer}
use srvbus.S2.Server as Services
use srvbus.S2.Server.{ServiceServer}
use srvbus.Bus as Bus
use srvbus.Bus.{
  BusErr, event_server_failed, ServiceBus, share, run, run_events, run_messages, run_services,
  after_events, after_messages, after_services, run_done, get_event_server, get_message_server,
  get_service_server, server_of,
}

-- a bus of three servers that share an event server
abbrev pub bus_with :
    Uuid → Ctx → Bool → Str → EventServer → MessageServer → ServiceServer → ServiceBus
bus_with id ctx runned at e m s = record {
  id = id;
  ctx = ctx;
  e_srv = some e;
  m_srv = some (record m { e_srv = some e });
  s_srv = some (record s { e_srv = some e });
  runned = runned;
  es_topic = at;
}

module _ (show_uuid : Uuid → Str) (now : ℕ) where
  -- The call succeeded: the bus runs, and so do its three servers.
  pub record IsUp (id : Uuid) (r : ServiceBus × Option BusErr) : Type 0 where
    pub event : EventServer
    pub message : MessageServer
    pub service : ServiceServer
    pub at : Str
    pub is : r ≡ (bus_with id live true at event message service, none)
    pub event_runs : event.runned ≡ true
    pub message_runs : message.runned ≡ true
    pub service_runs : service.runned ≡ true
    pub event_lives : event.ctx ≡ live
    pub topic_there : has_key default_topic event.topics ≡ true

  done-IsUp :
      (id : Uuid) (at : Str) (e : EventServer) (m : MessageServer) (s : ServiceServer)
      → IsNamed e
      → e.runned ≡ true
      → m.runned ≡ true
      → s.runned ≡ true
      → has_key default_topic e.topics ≡ true
      → e.ctx ≡ live
      → IsUp id (run_done show_uuid now (bus_with id live false at e m s))
  unfolding run_done Bus.emit_event share
  done-IsUp id at e m s h a b c k l = record {
    event = _;
    message = m;
    service = s;
    at = _;
    is = refl;
    event_runs = (emit_from-Steady now _ id e at _ _ h).runned ∙ a;
    message_runs = b;
    service_runs = c;
    event_lives = (emit_from-Steady now _ id e at _ _ h).ctx ∙ l;
    topic_there = (emit_from-Steady now _ id e at _ _ h).kept default_topic k;
  }

  service_ran :
      (e : EventServer) (s : ServiceServer)
      → IsNamed e
      → s.runned ≡ false
      → let r = Services.run show_uuid now (record s { e_srv = some e }) in
        (e' : EventServer) × Steady e e'
        × (r ≡ (record r.0 { e_srv = some e' }, none))
        × (r.0.runned ≡ true)
  unfolding Services.run Services.emit_event
  service_ran e s h c =
      let r = Services.run show_uuid now (record s { e_srv = some e }) in
      let (e', q, st) =
        emit_via-Steady now (codes "/s2" ++ slash ∷ show_uuid s.id) s.id e s.es_topic
          (codes "SSERVER_START_EVT") [] h in
      let seen : r.0.e_srv ≡ some e' = rw c q in
      let none_failed : r.1 ≡ none = rw c refl in
      (e', st, ap₂ (λ o f. (record r.0 { e_srv = o }, f)) seen none_failed, rw c refl)

  services-IsUp :
      (id : Uuid) (at : Str) (e : EventServer) (m : MessageServer) (s : ServiceServer)
      → IsNamed e
      → e.runned ≡ true
      → m.runned ≡ true
      → s.runned ≡ false
      → has_key default_topic e.topics ≡ true
      → e.ctx ≡ live
      → IsUp id (run_services show_uuid now (bus_with id live false at e m s))
  unfolding run_services after_services share
  services-IsUp id at e m s h a b c k l =
      let (e', st, q, g) = service_ran e s h c in
      subst (λ r. IsUp id (after_services show_uuid now (bus_with id live false at e m s) r))
        (sym q)
        (done-IsUp id at e' m (Services.run show_uuid now (record s { e_srv = some e })).0
          (Steady-IsNamed st h) (st.runned ∙ a) b g (st.kept default_topic k) (st.ctx ∙ l))

  message_ran :
      (e : EventServer) (m : MessageServer)
      → IsNamed e
      → m.runned ≡ false
      → let r = Messages.run show_uuid now (record m { e_srv = some e }) in
        (e' : EventServer) × Steady e e'
        × (r ≡ (record r.0 { e_srv = some e' }, none))
        × (r.0.runned ≡ true)
  unfolding Messages.run Messages.emit_event
  message_ran e m h c =
      let r = Messages.run show_uuid now (record m { e_srv = some e }) in
      let (e', q, st) =
        emit_via-Steady now (codes "/mserver" ++ slash ∷ show_uuid m.id) m.id e m.es_topic
          (codes "MSERVER_START_EVT") (Messages.about_server show_uuid now m) h in
      let seen : r.0.e_srv ≡ some e' = rw c q in
      let none_failed : r.1 ≡ none = rw c refl in
      (e', st, ap₂ (λ o f. (record r.0 { e_srv = o }, f)) seen none_failed, rw c refl)

  messages-IsUp :
      (id : Uuid) (at : Str) (e : EventServer) (m : MessageServer) (s : ServiceServer)
      → IsNamed e
      → e.runned ≡ true
      → m.runned ≡ false
      → s.runned ≡ false
      → has_key default_topic e.topics ≡ true
      → e.ctx ≡ live
      → IsUp id (run_messages show_uuid now (bus_with id live false at e m s))
  unfolding run_messages after_messages share
  messages-IsUp id at e m s h a b c k l =
      let (e', st, q, g) = message_ran e m h b in
      subst (λ r. IsUp id (after_messages show_uuid now (bus_with id live false at e m s) r))
        (sym q)
        (services-IsUp id at e' (Messages.run show_uuid now (record m { e_srv = some e })).0 s
          (Steady-IsNamed st h) (st.runned ∙ a) g c (st.kept default_topic k) (st.ctx ∙ l))

  -- On a bus that does not run, whose three servers do not run and whose event server has no topic of its
  -- own yet, `Run` returns no error: the bus and all three servers run afterwards, and the
  -- servers share one event server.
  pub run-IsUp :
      (id : Uuid) (ctx : Ctx) (at : Str) (e : EventServer) (m : MessageServer) (s : ServiceServer)
      → e.runned ≡ false
      → get default_topic e.topics ≡ none
      → m.runned ≡ false
      → s.runned ≡ false
      → IsUp id (run show_uuid now (bus_with id ctx false at e m s))
  unfolding run run_events after_events share
  run-IsUp id ctx at e m s a g b c =
      let (n, r, added) = start_first now e false a g in
      let st = start-Steady now e false a in
      let e' = (start now e false).0 in
      let (d, is_there, none_yet, none_subscribed) = added.there in
      let there : has_key default_topic e'.topics ≡ true =
        elim (Option-cases (get default_topic e'.topics)) [
          | inl missing ↦ absurd (ground (arith, is_there))
          | inr (t, found) ↦ ground arith
        ] in
      let named : IsNamed e' = λ _. rw st.es_topic refl in
      subst (λ f. IsUp id (after_events show_uuid now (bus_with id live false at e m s) (e', f)))
        (sym n) (messages-IsUp id at e' m s named r b c there st.ctx)

  -- On a bus that is up, the getters give the servers that run, all with the one event server.
  up-getters :
      (id : Uuid) (r : ServiceBus × Option BusErr)
      → (u : IsUp id r)
      → (get_event_server r.0 ≡ ok u.event)
        × (get_message_server r.0 ≡ ok (record u.message { e_srv = some u.event }))
        × (get_service_server r.0 ≡ ok (record u.service { e_srv = some u.event }))
  unfolding get_event_server get_message_server get_service_server server_of
  up-getters id r u = rw u.is (refl, refl, refl)

  -- A bus whose event server does not run, and has its own topic already, cannot be run.
  pub run_stopped :
      (id : Uuid) (ctx : Ctx) (at : Str) (e : EventServer) (m : MessageServer) (s : ServiceServer)
      {t : Topic}
      → e.runned ≡ false
      → get default_topic e.topics ≡ some t
      → run show_uuid now (bus_with id ctx false at e m s) ≡ (
        bus_with id live false at (begun e false) m s,
        some (event_server_failed (wrapped (topic_exists default_topic))),
      )
  unfolding run run_events after_events share
  run_stopped id ctx at e m s a g = rw (start_again now e a g) refl
