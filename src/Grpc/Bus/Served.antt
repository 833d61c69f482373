-- ===== src/Grpc/Bus/Served.antt =====
-- The services of a bus service are over the servers of its bus: what keeps it so.
use mathlib.Core.Path.{subst}
use srvbus.Common.{◌≡◌, refl, sym, ◌∙◌, Option, none, some, Uuid, Option-cases, inl, inr}
use srvbus.Common.Text.{Str}
use srvbus.Es.Server.{EventServer}
use srvbus.Ms.Server.{MessageServer}
use srvbus.Ms.Server.Steps as MessageSteps
use srvbus.Ms.Server.Tidy.{IsTidy, Reach-IsTidy}
use srvbus.Bus.{ServiceBus}
use srvbus.Bus.Sharing.{OnSome, IsSafe, share-IsSafe}
use srvbus.Grpc.Messages.{MsgServer}
use srvbus.Grpc.Messages.Histories.{Goes}
use srvbus.Grpc.Events.{EvtServer}
use srvbus.Grpc.Bus.{
  SrvBus, with_host, with_host_too, with_messages, with_event_server, share_bus, share_messages,
  share_events,
}

-- The bus is safe on its own, and the services are over its servers.
pub record IsServed (h : SrvBus) : Type 0 where
  pub host : ServiceBus
  pub is_host : h.s_bus ≡ some host
  pub safe : IsSafe host
  pub messages : OnSome (λ (m : MsgServer). m.srv ≡ host.m_srv) h.m_srv
  pub events : OnSome (λ (e : EvtServer). e.srv ≡ host.e_srv) h.e_srv

hosted :
    (s : Option MessageServer) (o : Option MsgServer)
    → OnSome (λ (m : MsgServer). m.srv ≡ s) (with_host s o)
hosted s none = tt
hosted s (some m) = refl

hosted_too :
    (s : Option EventServer) (o : Option EvtServer)
    → OnSome (λ (e : EvtServer). e.srv ≡ s) (with_host_too s o)
hosted_too s none = tt
hosted_too s (some e) = refl

-- whatever the bus becomes, the services see it
pub share_bus-IsServed : (sb : ServiceBus) (h : SrvBus) → IsSafe sb → IsServed (share_bus sb h)
unfolding share_bus
share_bus-IsServed sb h v = record {
  host = sb;
  is_host = refl;
  safe = v;
  messages = hosted sb.m_srv h.m_srv;
  events = hosted_too sb.e_srv h.e_srv;
}

module _ (show_uuid : Uuid → Str) where
  -- the message server of a bus goes on
  with_messages-IsSafe :
      (sb : ServiceBus) (s s' : MessageServer)
      → sb.m_srv ≡ some s
      → MessageSteps.Reach show_uuid s s'
      → IsSafe sb
      → IsSafe (with_messages s' sb)
  with_messages-IsSafe sb s s' e r v =
      share-IsSafe s'.e_srv (record sb { m_srv = some s' })
        (record {
          messages_tidy = Reach-IsTidy show_uuid r (subst (OnSome IsTidy) e v.core.messages_tidy);
          services_inv = v.core.services_inv;
        })

  -- the message service goes on, when it has a host
  messages-IsServed :
      (h : SrvBus) (m m' : MsgServer) (s : MessageServer)
      → h.m_srv ≡ some m
      → m.srv ≡ some s
      → Goes show_uuid m' s
      → IsServed h
      → IsServed (share_messages m' h)
  messages-IsServed h m m' s e f (s', g, r) v =
      let over : m.srv ≡ v.host.m_srv =
        subst (OnSome (λ (x : MsgServer). x.srv ≡ v.host.m_srv)) e v.messages in
      let same : share_messages m' h
          ≡ share_bus (with_messages s' v.host) (record h { m_srv = some m' }) =
        unfold share_messages in rw (g, v.is_host) refl in
      rw same (
        share_bus-IsServed (with_messages s' v.host) (record h { m_srv = some m' })
          (with_messages-IsSafe v.host s s' (sym over ∙ f) r v.safe))

  -- the message service, when it has none
  idle-IsServed :
      (h : SrvBus) (m m' : MsgServer)
      → h.m_srv ≡ some m
      → m.srv ≡ none
      → m'.srv ≡ none
      → IsServed h
      → IsServed (share_messages m' h)
  idle-IsServed h m m' e f g v =
      let over : m.srv ≡ v.host.m_srv =
        subst (OnSome (λ (x : MsgServer). x.srv ≡ v.host.m_srv)) e v.messages in
      let same : share_messages m' h ≡ record h { m_srv = some m' } =
        unfold share_messages in rw g refl in
      rw same (record {
        host = v.host;
        is_host = v.is_host;
        safe = v.safe;
        messages = g ∙ sym f ∙ over;
        events = v.events;
      })

  pub events-IsServed :
      (h : SrvBus) (e' : EvtServer) (s : EventServer)
      → e'.srv ≡ some s
      → IsServed h
      → IsServed (share_events e' h)
  events-IsServed h e' s g v =
      let same : share_events e' h
          ≡ share_bus (with_event_server s v.host) (record h { e_srv = some e' }) =
        unfold share_events in rw (g, v.is_host) refl in
      rw same (
        share_bus-IsServed (with_event_server s v.host) (record h { e_srv = some e' })
          (share-IsSafe (some s) v.host v.safe.core))

  -- The message service goes on, with a host or without.
  pub message-IsServed :
      (h : SrvBus) (m m' : MsgServer)
      → h.m_srv ≡ some m
      → (m.srv ≡ none → m'.srv ≡ none)
      → ((s : MessageServer) → m.srv ≡ some s → Goes show_uuid m' s)
      → IsServed h
      → IsServed (share_messages m' h)
  message-IsServed h m m' e idle goes v = elim (Option-cases m.srv) [
    | inl f ↦ idle-IsServed h m m' e f (idle f) v
    | inr (s, f) ↦ messages-IsServed h m m' s e f (goes s f) v
  ]

  pub event-IsServed :
      (h : SrvBus) (e e' : EvtServer)
      → h.e_srv ≡ some e
      → (e.srv ≡ none → e'.srv ≡ none)
      → ((s : EventServer) → e.srv ≡ some s → (s' : EventServer) × (e'.srv ≡ some s'))
      → IsServed h
      → IsServed (share_events e' h)
  event-IsServed h e e' f idle goes v = elim (Option-cases e.srv) [
    | inr (s, g) ↦ let (s', g') = goes s g in events-IsServed h e' s' g' v
    | inl g ↦
        let over : e.srv ≡ v.host.e_srv =
          subst (OnSome (λ (x : EvtServer). x.srv ≡ v.host.e_srv)) f v.events in
        let same : share_events e' h ≡ record h { e_srv = some e' } =
          unfold share_events in rw (idle g) refl in
        rw same (record {
          host = v.host;
          is_host = v.is_host;
          safe = v.safe;
          messages = v.messages;
          events = idle g ∙ sym g ∙ over;
        })
  ]
