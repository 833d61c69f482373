-- ===== src/Bus/Sharing.antt =====
-- What holds of the servers of a bus on their own, and that they share its event server.
use srvbus.Common.{◌≡◌, refl, Option, none, some}
use srvbus.Es.Server.{EventServer}
use srvbus.Ms.Server.{MessageServer}
use srvbus.Ms.Server.Tidy.{IsTidy}
use srvbus.S2.Server.{ServiceServer}
use srvbus.S2.Calls.{Inv}
use srvbus.Bus.{ServiceBus, with_events, with_events_too, share}

abbrev pub OnSome {ℓ κ} : {A : Type ℓ} → (A → Type κ) → Option A → Type κ
OnSome P none = Unit
OnSome P (some a) = P a

-- The invariants of the message server and of the service server.
pub record IsCore (sb : ServiceBus) : Type 0 where
  pub messages_tidy : OnSome IsTidy sb.m_srv
  pub services_inv : OnSome Inv sb.s_srv

-- And both emit into the bus's event server.
pub record IsSafe (sb : ServiceBus) : Type 0 where
  pub core : IsCore sb
  pub messages_shared : OnSome (λ (m : MessageServer). m.e_srv ≡ sb.e_srv) sb.m_srv
  pub services_shared : OnSome (λ (s : ServiceServer). s.e_srv ≡ sb.e_srv) sb.s_srv

lent-IsTidy :
    (e : Option EventServer) (o : Option MessageServer)
    → OnSome IsTidy o
    → OnSome IsTidy (with_events e o)
lent-IsTidy e none h = tt
lent-IsTidy e (some m) h = h

lent-Inv :
    (e : Option EventServer) (o : Option ServiceServer)
    → OnSome Inv o
    → OnSome Inv (with_events_too e o)
lent-Inv e none h = tt
lent-Inv e (some s) v = record {
  execs = v.execs;
  sends = v.sends;
  held = v.held;
  waiting = v.waiting;
  starting = v.starting;
  running = v.running;
  stops = v.stops;
}

lent_shared :
    (e : Option EventServer) (o : Option MessageServer)
    → OnSome (λ (m : MessageServer). m.e_srv ≡ e) (with_events e o)
lent_shared e none = tt
lent_shared e (some m) = refl

lent_shared_too :
    (e : Option EventServer) (o : Option ServiceServer)
    → OnSome (λ (s : ServiceServer). s.e_srv ≡ e) (with_events_too e o)
lent_shared_too e none = tt
lent_shared_too e (some s) = refl

pub share-IsSafe : (e : Option EventServer) (sb : ServiceBus) → IsCore sb → IsSafe (share e sb)
unfolding share
share-IsSafe e sb c = record {
  core = record {
    messages_tidy = lent-IsTidy e sb.m_srv c.messages_tidy;
    services_inv = lent-Inv e sb.s_srv c.services_inv;
  };
  messages_shared = lent_shared e sb.m_srv;
  services_shared = lent_shared_too e sb.s_srv;
}
