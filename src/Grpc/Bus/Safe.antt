-- ===== src/Grpc/Bus/Safe.antt =====
-- The services that a bus service runs are over the servers of its bus, whatever happens.
use mathlib.Core.Path.{subst}
use srvbus.Common.{
  ℕ, ◌≡◌, ◌≢◌, refl, ap, ◌∙◌, Bool, true, false, Option, none, some, [], Uuid, ok, err, arith,
}
use srvbus.Common.Text.{Str, codes}
use srvbus.Es.Topic.{no_ctx}
use srvbus.Ms.Server.{MessageServer, get}
use srvbus.Ms.Server.Tidy.{IsTidy, tidy-not_panics}
use srvbus.Ms.Message.{panics}
use srvbus.Bus as Host
use srvbus.Bus.{ServiceBus, share, get_message_server, get_event_server, server_of}
use srvbus.Bus.Sharing.{OnSome, IsSafe}
use srvbus.Bus.Steps as HostSteps
use srvbus.Bus.Safe.{step-IsSafe, made-IsSafe}
use srvbus.Grpc.Messages as Messages
use srvbus.Grpc.Messages.{MsgServer, SendMsgRequest, MessagesRequest, Moment}
use srvbus.Grpc.Messages.Histories.{send_messages-Goes, get_messages-Goes}
use srvbus.Grpc.Events.{EvtServer}
use srvbus.Grpc.Bus.{SrvBus, new, served}
use srvbus.Grpc.Bus.Steps.{
  Step, runs, serves, asks_ms, asks_es, starts_ms, starts_es, ends_ms, ends_es, sends, gets,
  event_service, bus, Reach, here, next,
}
use srvbus.Grpc.Bus.Served.{IsServed, share_bus-IsServed, events-IsServed, message-IsServed}
use srvbus.Grpc.Bus.Serving.{
  serve_ms-IsServed, serve_es-IsServed, ended_ms-IsServed, ended_es-IsServed, emitted-IsServed,
  run-IsServed,
}
use srvbus.Grpc.Bus.Requests.{get_ms-IsServed, get_es-IsServed}

-- the bus of a service is the one that it is served by
own : (h : SrvBus) (sb : ServiceBus) (v : IsServed h) → h.s_bus ≡ some sb → v.host ≡ sb
own h sb v e = grind (arith, e, v.is_host)

off-IsServed : (h : SrvBus) → IsServed h → IsServed (record h { runned = false })
off-IsServed h v = record {
  host = v.host;
  is_host = v.is_host;
  safe = v.safe;
  messages = v.messages;
  events = v.events;
}

-- the service that `New` makes
abbrev made_for : ServiceBus → SrvBus
made_for sb = record {
  s_bus = some sb;
  ctx = no_ctx;
  host = [];
  port = 0;
  srv_ports = record { event_server = 0; message_server = 0; service_server = 0 };
  m_srv = none;
  e_srv = none;
  runned = false;
}

new_lem : (sb : ServiceBus) → new (some sb) ≡ ok (made_for sb)
unfolding new
new_lem sb = refl

new-IsServed : (sb : ServiceBus) (h : SrvBus) → new (some sb) ≡ ok h → IsSafe sb → IsServed h
new-IsServed sb h e safe =
    let same : made_for sb ≡ h = cc (e, new_lem sb) in
    subst IsServed same
      (record { host = sb; is_host = refl; safe = safe; messages = tt; events = tt })

module _ (parse_uuid : Str → Option Uuid) (show_uuid : Uuid → Str) (show_time : ℕ → Str) where
  step-IsServed : {h t : SrvBus} → Step parse_uuid show_uuid show_time h t → IsServed h → IsServed t
  step-IsServed {h} (runs now listens host port e m s) v =
      run-IsServed show_uuid now listens host port e m s h v
  step-IsServed {h} (serves now) v =
      unfold served in
      emitted-IsServed show_uuid now (record h { runned = false }) (codes "SB_GRPC_END_EVT")
        (off-IsServed h v)
  step-IsServed {h} (asks_ms id) v = get_ms-IsServed parse_uuid show_uuid id h v
  step-IsServed {h} (asks_es calls id) v = get_es-IsServed parse_uuid show_uuid calls id h v
  step-IsServed {h} (starts_ms now listens) v = serve_ms-IsServed show_uuid now listens h v
  step-IsServed {h} (starts_es now listens) v = serve_es-IsServed show_uuid now listens h v
  step-IsServed {h} (ends_ms now) v = ended_ms-IsServed show_uuid now h v
  step-IsServed {h} (ends_es now) v = ended_es-IsServed show_uuid now h v
  step-IsServed {h} (sends m t r f) v =
      message-IsServed show_uuid h m (Messages.send_messages parse_uuid show_uuid t r m).0 f
        (λ g. unfold Messages.send_messages Messages.checked in ground arith)
        (λ s g. send_messages-Goes show_uuid parse_uuid t r m s g) v
  step-IsServed {h} (gets m done_at r f) v =
      message-IsServed show_uuid h m
        (Messages.get_messages parse_uuid show_uuid show_time done_at r m).0 f
        (λ g. unfold Messages.get_messages Messages.checked in ground arith)
        (λ s g. get_messages-Goes show_uuid parse_uuid show_time done_at r m s g) v
  step-IsServed {h} (event_service e e' s f g) v = events-IsServed show_uuid h e' s g v
  step-IsServed {h} (bus sb sb' f st) v =
      share_bus-IsServed sb' h (step-IsSafe show_uuid st (subst IsSafe (own h sb v f) v.safe))

  Reach-IsServed :
      {h t : SrvBus} → Reach parse_uuid show_uuid show_time h t → IsServed h → IsServed t
  Reach-IsServed here v = v
  Reach-IsServed (next r st) v = step-IsServed st (Reach-IsServed r v)

  -- On a bus service that `New` made over a bus that `New` made, whatever is called on them, on their servers
  -- and on the services that they run, and however their goroutines run: the message service is over the
  -- message server of the bus and the event service over its event server, which the message server emits
  -- into, and reading a queue of that message server never panics.
  pub serves_host :
      (now fresh fresh_e fresh_m fresh_s id : ℕ) {sb sb' host : ServiceBus} {h t : SrvBus}
      {s : MessageServer} (receiver : Uuid) (queue : Str) (from_begin : Bool)
      → Host.new show_uuid now fresh fresh_e fresh_m fresh_s id true true ≡ ok sb
      → HostSteps.Reach show_uuid sb sb'
      → new (some sb') ≡ ok h
      → Reach parse_uuid show_uuid show_time h t
      → t.s_bus ≡ some host
      → host.m_srv ≡ some s
      → OnSome (λ (m : MsgServer). m.srv ≡ some s) t.m_srv
        × OnSome (λ (e : EvtServer). e.srv ≡ host.e_srv) t.e_srv
        × (s.e_srv ≡ host.e_srv)
        × (get s receiver queue from_begin ≢ err panics)
  serves_host now fresh fresh_e fresh_m fresh_s id {sb} {sb'} {host} {h} {t} {s} receiver queue b
        made rb e r f g =
      let w =
        new-IsServed sb' h e (made-IsSafe show_uuid now fresh fresh_e fresh_m fresh_s id made rb) in
      let v = Reach-IsServed r w in
      let same = own t host v f in
      let safe : IsSafe host = subst IsSafe same v.safe in
      (
        subst (λ x. OnSome (λ (m : MsgServer). m.srv ≡ x) t.m_srv) (ap (λ x. x.m_srv) same ∙ g)
            v.messages,
        subst (λ x. OnSome (λ (e : EvtServer). e.srv ≡ x) t.e_srv) (ap (λ x. x.e_srv) same)
            v.events,
        subst (OnSome (λ (x : MessageServer). x.e_srv ≡ host.e_srv)) g safe.messages_shared,
        tidy-not_panics s receiver queue b (subst (OnSome IsTidy) g safe.core.messages_tidy),
      )
