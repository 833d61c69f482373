-- ===== src/Bus/Steps.antt =====
-- What happens to a bus: its calls, the servers' own steps, and its context. The contexts of the servers
-- are derived from that of the bus, and each server notices the end of its own at some time.
use srvbus.Common.{ℕ, ◌≡◌, some, Uuid}
use srvbus.Common.Text.{Str}
use srvbus.Es.Topic.{live, cancelled}
use srvbus.Es.Server.{EventServer}
use srvbus.Ms.Server.{MessageServer}
use srvbus.Ms.Server.Steps as Messages
use srvbus.S2.Server.{ServiceServer}
use srvbus.S2.Steps as Services
use srvbus.Bus.{ServiceBus, share, emit_event, run, halt}

module _ (show_uuid : Uuid → Str) where
  pub data Step (sb : ServiceBus) : ServiceBus → Type 0 where
    runs : (now : ℕ) → Step sb (run show_uuid now sb).0
    emits : (now : ℕ) (name descr : Str) → Step sb (emit_event show_uuid now sb name descr)
    -- anything that is done with the event server, and that its goroutines do
    events : (e : EventServer) → Step sb (share (some e) sb)
    -- a call or a step of the message server, and of the service server
    messages :
        (m m' : MessageServer)
        → sb.m_srv ≡ some m
        → Messages.Step show_uuid m m'
        → Step sb (share m'.e_srv (record sb { m_srv = some m' }))
    services :
        (s s' : ServiceServer)
        → sb.s_srv ≡ some s
        → Services.Step show_uuid s s'
        → Step sb (share s'.e_srv (record sb { s_srv = some s' }))
    cancels : sb.ctx ≡ live → Step sb (record sb { ctx = cancelled })
    halts : (now : ℕ) → sb.ctx ≡ cancelled → Step sb (halt show_uuid now sb)

  pub data Reach (sb : ServiceBus) : ServiceBus → Type 0 where
    here : Reach sb sb
    next : {t u : ServiceBus} → Reach sb t → Step t u → Reach sb u
