-- ===== src/Grpc/Bus/Serving.antt =====
-- Running the bus service and its services keeps these over the servers of the bus.
use mathlib.Core.Path.{subst}
use srvbus.Common.{
  ℕ, ◌≡◌, refl, sym, Bool, true, false, not, ◌||◌, Option, none, some, Uuid, arith, Option-cases,
  Bool-cases, inl, inr,
}
use srvbus.Common.Int.{ℤ}
use srvbus.Common.Text.{Str, codes}
use srvbus.Es.Topic.{live}
use srvbus.Es.Server.{EventServer}
use srvbus.Bus as Host
use srvbus.Bus.{ServiceBus, share}
use srvbus.Bus.Steps as HostSteps
use srvbus.Bus.Safe.{step-IsSafe}
use srvbus.Grpc.{GrpcErr}
use srvbus.Grpc.Messages as Messages
use srvbus.Grpc.Messages.{MsgServer, SendMsgRequest, MessagesRequest, Moment}
use srvbus.Grpc.Messages.Histories.{run-Goes, served-Goes}
use srvbus.Grpc.Events as Events
use srvbus.Grpc.Events.{EvtServer}
use srvbus.Grpc.Bus.{
  SrvBus, share_bus, share_messages, share_events, emitted, about_bus, ports_of, run_host, run,
  serve_ms, serve_es, ended_ms, ended_es,
}
use srvbus.Grpc.Bus.Served.{IsServed, share_bus-IsServed, message-IsServed, event-IsServed}

module _ (show_uuid : Uuid → Str) where
  pub serve_ms-IsServed :
      (now : ℕ) (listens : Bool) (h : SrvBus)
      → IsServed h
      → IsServed (serve_ms show_uuid now listens h)
  serve_ms-IsServed now listens h v = elim (Option-cases h.m_srv) [
    | inl f ↦
        let same : serve_ms show_uuid now listens h ≡ h = unfold serve_ms in ground arith in
        subst IsServed (sym same) v
    | inr (m, f) ↦
        let m' = (Messages.run show_uuid now listens h.host h.srv_ports.message_server m).0 in
        let same : serve_ms show_uuid now listens h ≡ share_messages m' h =
          unfold serve_ms in rw f refl in
        rw same (
          message-IsServed show_uuid h m m' f (λ g. unfold Messages.run in ground arith)
            (λ s g. run-Goes show_uuid now listens h.host h.srv_ports.message_server m s g) v)
  ]

  pub ended_ms-IsServed : (now : ℕ) (h : SrvBus) → IsServed h → IsServed (ended_ms show_uuid now h)
  ended_ms-IsServed now h v = elim (Option-cases h.m_srv) [
    | inl f ↦
        let same : ended_ms show_uuid now h ≡ h = unfold ended_ms in ground arith in
        subst IsServed (sym same) v
    | inr (m, f) ↦
        let m' = Messages.served show_uuid now m in
        let same : ended_ms show_uuid now h ≡ share_messages m' h = unfold ended_ms in rw f refl in
        rw same (
          message-IsServed show_uuid h m m' f (λ g. unfold Messages.served in ground arith)
            (λ s g. served-Goes show_uuid now m s g) v)
  ]

  run_es :
      (now : ℕ) (listens : Bool) (host : Str) (port : ℕ) (e : EvtServer) (s : EventServer)
      → e.srv ≡ some s
      → (s' : EventServer) × ((Events.run show_uuid now listens host port e).0.srv ≡ some s')
  run_es now listens host port e s g =
      elim (Option-cases (Events.run show_uuid now listens host port e).0.srv) [
        | inl absent ↦ absurd (unfold Events.run in ground arith)
        | inr found ↦ found
      ]

  served_es :
      (now : ℕ) (e : EvtServer) (s : EventServer)
      → e.srv ≡ some s
      → (s' : EventServer) × ((Events.served show_uuid now e).srv ≡ some s')
  served_es now e s g = elim (Option-cases (Events.served show_uuid now e).srv) [
    | inl absent ↦ absurd (unfold Events.served in ground arith)
    | inr found ↦ found
  ]

  pub serve_es-IsServed :
      (now : ℕ) (listens : Bool) (h : SrvBus)
      → IsServed h
      → IsServed (serve_es show_uuid now listens h)
  serve_es-IsServed now listens h v = elim (Option-cases h.e_srv) [
    | inl f ↦
        let same : serve_es show_uuid now listens h ≡ h = unfold serve_es in ground arith in
        subst IsServed (sym same) v
    | inr (e, f) ↦
        let e' = (Events.run show_uuid now listens h.host h.srv_ports.event_server e).0 in
        let same : serve_es show_uuid now listens h ≡ share_events e' h =
          unfold serve_es in rw f refl in
        rw same (
          event-IsServed show_uuid h e e' f (λ g. unfold Events.run in ground arith)
            (run_es now listens h.host h.srv_ports.event_server e) v)
  ]

  pub ended_es-IsServed : (now : ℕ) (h : SrvBus) → IsServed h → IsServed (ended_es show_uuid now h)
  ended_es-IsServed now h v = elim (Option-cases h.e_srv) [
    | inl f ↦
        let same : ended_es show_uuid now h ≡ h = unfold ended_es in ground arith in
        subst IsServed (sym same) v
    | inr (e, f) ↦
        let e' = Events.served show_uuid now e in
        let same : ended_es show_uuid now h ≡ share_events e' h = unfold ended_es in rw f refl in
        rw same (
          event-IsServed show_uuid h e e' f (λ g. unfold Events.served in ground arith)
            (served_es now e) v)
  ]

  pub emitted-IsServed :
      (now : ℕ) (h : SrvBus) (name : Str) → IsServed h → IsServed (emitted show_uuid now h name)
  unfolding share_bus
  emitted-IsServed now h name v =
      let told = Host.emit_event show_uuid now v.host name (about_bus show_uuid now v.host) in
      let same : emitted show_uuid now h name ≡ share_bus told h = rw (emitted, v.is_host) refl in
      rw same (
        share_bus-IsServed told h (
          step-IsSafe show_uuid (HostSteps.emits now name (about_bus show_uuid now v.host)) v.safe))

  run_host-IsServed : (now : ℕ) (h : SrvBus) → IsServed h → IsServed (run_host show_uuid now h).0
  run_host-IsServed now h v =
      let ran = (Host.run show_uuid now v.host).0 in
      elim (Bool-cases v.host.runned) [
        | inl a ↦
            let same : (run_host show_uuid now h).0 ≡ h =
              unfold run_host in ground (arith, v.is_host) in
            subst IsServed (sym same) v
        | inr a ↦
            let same : (run_host show_uuid now h).0 ≡ share_bus ran h =
              unfold run_host in ground (arith, v.is_host) in
            rw same (share_bus-IsServed ran h (step-IsSafe show_uuid (HostSteps.runs now) v.safe))
      ]

  abbrev fails : Option GrpcErr → Bool
  fails none = false
  fails (some x) = true

  run_early :
      (now : ℕ) (listens : Bool) (host : Str) (port : ℕ) (e m s : ℤ) (h : SrvBus)
      → h.runned ≡ false
      → (fails (run_host show_uuid now h).1 || not listens) ≡ true
      → (run show_uuid now listens host port e m s h).0 ≡ (run_host show_uuid now h).0
  run_early now listens host port e m s h a b = elim (Option-cases (run_host show_uuid now h).1) [
    | inl f ↦ (unfold run in ground arith)
    | inr (x, f) ↦ (unfold run in ground arith)
  ]

  run_begins :
      (now : ℕ) (listens : Bool) (host : Str) (port : ℕ) (e m s : ℤ) (h : SrvBus)
      → h.runned ≡ false
      → (fails (run_host show_uuid now h).1 || not listens) ≡ false
      → (run show_uuid now listens host port e m s h).0
        ≡ emitted show_uuid now
            (record (run_host show_uuid now h).0 {
              ctx = live;
              host = host;
              port = port;
              srv_ports = ports_of e m s;
              runned = true;
            })
            (codes "SB_GRPC_START_EVT")
  run_begins now listens host port e m s h a b = elim (Option-cases (run_host show_uuid now h).1) [
    | inl f ↦ (unfold run in ground arith)
    | inr (x, f) ↦ (unfold run in ground arith)
  ]

  pub run-IsServed :
      (now : ℕ) (listens : Bool) (host : Str) (port : ℕ) (e m s : ℤ) (h : SrvBus)
      → IsServed h
      → IsServed (run show_uuid now listens host port e m s h).0
  run-IsServed now listens host port e m s h v =
      let ran = run_host show_uuid now h in
      let w = run_host-IsServed now h v in
      let on : SrvBus = record ran.0 {
        ctx = live;
        host = host;
        port = port;
        srv_ports = ports_of e m s;
        runned = true;
      } in
      let told = emitted show_uuid now on (codes "SB_GRPC_START_EVT") in
      elim (Bool-cases h.runned) [
        | inl a ↦
            let same : (run show_uuid now listens host port e m s h).0 ≡ h =
              unfold run in ground arith in
            subst IsServed (sym same) v
        | inr a ↦ elim (Bool-cases (fails ran.1 || not listens)) [
          | inl b ↦
              let same : (run show_uuid now listens host port e m s h).0 ≡ ran.0 =
                run_early now listens host port e m s h a b in
              rw same w
          | inr b ↦
              let same : (run show_uuid now listens host port e m s h).0 ≡ told =
                run_begins now listens host port e m s h a b in
              rw same (
                emitted-IsServed now on (codes "SB_GRPC_START_EVT") (record {
                  host = w.host;
                  is_host = w.is_host;
                  safe = w.safe;
                  messages = w.messages;
                  events = w.events;
                }))
        ]
      ]
