-- ===== src/Grpc/Bus/Steps.antt =====
-- What happens to a bus service: its calls, the services that it runs and their calls, and what happens to the
-- bus on its own.
use srvbus.Common.{ℕ, ◌≡◌, Bool, Option, some, Uuid}
use srvbus.Common.Int.{ℤ}
use srvbus.Common.Text.{Str}
use srvbus.Es.Server.{EventServer}
use srvbus.Bus.{ServiceBus}
use srvbus.Bus.Steps as Host
use srvbus.Grpc.Messages as Messages
use srvbus.Grpc.Messages.{MsgServer, SendMsgRequest, MessagesRequest, Moment}
use srvbus.Grpc.Events.{EvtServer}
use srvbus.Grpc.Bus.{
  SrvBus, share_bus, share_messages, share_events, run, served, get_ms, get_es, serve_ms, serve_es,
  ended_ms, ended_es,
}

module _ (parse_uuid : Str → Option Uuid) (show_uuid : Uuid → Str) (show_time : ℕ → Str) where
  pub data Step (h : SrvBus) : SrvBus → Type 0 where
    runs :
        (now : ℕ) (listens : Bool) (host : Str) (port : ℕ) (e m s : ℤ)
        → Step h (run show_uuid now listens host port e m s h).0
    serves : (now : ℕ) → Step h (served show_uuid now h)
    -- the requests, and the goroutines that they start, with the ends of these
    asks_ms : (server_id : Str) → Step h (get_ms parse_uuid show_uuid server_id h).0
    asks_es :
        (calls : ℕ) (server_id : Str) → Step h (get_es parse_uuid show_uuid calls server_id h).0
    starts_ms : (now : ℕ) (listens : Bool) → Step h (serve_ms show_uuid now listens h)
    starts_es : (now : ℕ) (listens : Bool) → Step h (serve_es show_uuid now listens h)
    ends_ms : (now : ℕ) → Step h (ended_ms show_uuid now h)
    ends_es : (now : ℕ) → Step h (ended_es show_uuid now h)
    -- calls of the message service
    sends :
        (m : MsgServer) (t : ℕ → Moment) (r : SendMsgRequest)
        → h.m_srv ≡ some m
        → Step h (share_messages (Messages.send_messages parse_uuid show_uuid t r m).0 h)
    gets :
        (m : MsgServer) (done_at : Option ℕ) (r : MessagesRequest)
        → h.m_srv ≡ some m
        → Step h
            (share_messages (Messages.get_messages parse_uuid show_uuid show_time done_at r m).0 h)
    -- anything that the event service does to itself and its host
    event_service :
        (e e' : EvtServer) (s : EventServer)
        → h.e_srv ≡ some e
        → e'.srv ≡ some s
        → Step h (share_events e' h)
    -- anything that happens to the bus
    bus :
        (sb sb' : ServiceBus)
        → h.s_bus ≡ some sb
        → Host.Step show_uuid sb sb'
        → Step h (share_bus sb' h)

  pub data Reach (h : SrvBus) : SrvBus → Type 0 where
    here : Reach h h
    next : {t u : SrvBus} → Reach h t → Step t u → Reach h u
