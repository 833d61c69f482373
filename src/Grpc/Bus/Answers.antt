-- ===== src/Grpc/Bus/Answers.antt =====
-- The ports of the services, and what the bus service answers.
use mathlib.Core.Path.{subst}
use srvbus.Common.{
  Option-cases, inl, inr, ℕ, zero, suc, ◌≤◌, ◌≡◌, refl, ap, ◌∙◌, true, false, Option, none, some,
  [], arith, Uuid, nil_uuid, nat_eq, Result, ok,
}
use srvbus.Common.Int.{ℤ, pos, negsuc}
use srvbus.Common.Text.{Str, codes, trim}
use srvbus.Es.Topic.{no_ctx}
use srvbus.Es.Server.{EventServer}
use srvbus.Ms.Server as Host
use srvbus.Ms.Server.{MessageServer}
use srvbus.Bus.{ServiceBus, get_message_server, get_event_server, server_of, share}
use srvbus.Bus.Sharing.{OnSome}
use srvbus.Grpc.{GrpcErr}
use srvbus.Grpc.Messages as Messages
use srvbus.Grpc.Messages.{MsgServer}
use srvbus.Grpc.Events as Events
use srvbus.Grpc.Events.{EvtServer}
use srvbus.Grpc.Events.Recursion.{id_of-never}
use srvbus.Grpc.Bus.{
  SrvBus, share_bus, with_messages, port_or, ports_of, made_ms, made_es, get_ms_grpc, get_es_grpc,
  serve_ms, ms_response, get_ms, es_response, get_es,
}

-- a number that is at most the greatest port
abbrev pub UpTo : ℤ → Type 0
UpTo (pos n) = n ≤ 65535
UpTo (negsuc n) = Unit

abbrev pub IsPort : ℕ → Type 0
IsPort n = (1 ≤ n) × (n ≤ 65535)

port_or-IsPort : (default : ℕ) (p : ℤ) → IsPort default → UpTo p → IsPort (port_or default p)
unfolding port_or
port_or-IsPort default (pos zero) d h = d
port_or-IsPort default (pos (suc n)) d h = (omega arith, h)
port_or-IsPort default (negsuc n) d h = d

-- Whatever numbers up to the greatest port are given, negative ones and 0 too, the ports that `Run` gives to
-- the three services are ports.
pub ports_of-IsPort :
    (e m s : ℤ)
    → UpTo e
    → UpTo m
    → UpTo s
    → let p = ports_of e m s in
      IsPort p.event_server × IsPort p.message_server × IsPort p.service_server
unfolding ports_of
ports_of-IsPort e m s x y z = (
  port_or-IsPort 50071 e (omega arith, omega arith) x,
  port_or-IsPort 50072 m (omega arith, omega arith) y,
  port_or-IsPort 50073 s (omega arith, omega arith) z,
)

module _ (parse_uuid : Str → Option Uuid) (show_uuid : Uuid → Str) where
  made_es_lem :
      (h : SrvBus) (sb : ServiceBus) (e : EventServer)
      → h.e_srv ≡ none
      → h.s_bus ≡ some sb
      → sb.runned ≡ true
      → sb.e_srv ≡ some e
      → made_es h ≡ Events.new (some e)
  unfolding made_es get_event_server server_of
  made_es_lem h sb e a b c d = ground arith

  -- the service that is made over an event server
  abbrev new_es : EventServer → EvtServer
  new_es e = record {
    srv = some e;
    ctx = no_ctx;
    host = [];
    port = 0;
    runned = false;
    streams = [];
    stopped = [];
    closed = [];
  }

  get_es_grpc_lem :
      (h : SrvBus) (e : EventServer)
      → h.runned ≡ true
      → made_es h ≡ Events.new (some e)
      → (get_es_grpc h).1 ≡ ok (new_es e)
  unfolding get_es_grpc Events.new
  get_es_grpc_lem h e r m = ground arith

  es_response-never :
      (calls : ℕ) (srv_id : Uuid) (e : EventServer)
      → es_response parse_uuid show_uuid calls srv_id (new_es e) ≡ none
  unfolding es_response
  es_response-never calls srv_id e = ground (arith, id_of-never calls (new_es e) {s = e} refl)

  again_es_lem :
      (h : SrvBus) (x : EvtServer) → h.runned ≡ true → h.e_srv ≡ some x → (get_es_grpc h).1 ≡ ok x
  unfolding get_es_grpc made_es
  again_es_lem h x r e = ground arith

  es_response-made :
      (calls : ℕ) (srv_id : Uuid) (x : EvtServer) (host : EventServer)
      → x.srv ≡ some host
      → es_response parse_uuid show_uuid calls srv_id x ≡ none
  unfolding es_response
  es_response-made calls srv_id x host e = ground (arith, id_of-never calls x {s = host} e)

  -- On a bus service that runs, over a bus that runs and has an event server, when the event service is not made
  -- yet or is over some event server, a request that names any server, or none by the nil identifier, is
  -- not answered: `GetEventServer` does not return, however many calls `ID` makes.
  pub get_es-never :
      (calls : ℕ) (server_id : Str) (h : SrvBus) (sb : ServiceBus) (e : EventServer) (srv_id : Uuid)
      → parse_uuid (trim server_id) ≡ some srv_id
      → h.runned ≡ true
      → OnSome (λ (x : EvtServer). (host : EventServer) × (x.srv ≡ some host)) h.e_srv
      → h.s_bus ≡ some sb
      → sb.runned ≡ true
      → sb.e_srv ≡ some e
      → (get_es parse_uuid show_uuid calls server_id h).1 ≡ none
  unfolding get_es
  get_es-never calls server_id h sb e srv_id p r over b c d = elim (Option-cases h.e_srv) [
    | inl n ↦ ground (
      arith,
      get_es_grpc_lem h e r (made_es_lem h sb e n b c d),
      es_response-never calls srv_id e,
    )
    | inr (x, made) ↦
        let (host, there) =
          subst (OnSome (λ (x : EvtServer). (host : EventServer) × (x.srv ≡ some host))) made
            over in
        ground (arith, again_es_lem h x r made, es_response-made calls srv_id x host there)
  ]

  made_ms_lem :
      (h : SrvBus) (sb : ServiceBus) (m : MessageServer)
      → h.m_srv ≡ none
      → h.s_bus ≡ some sb
      → sb.runned ≡ true
      → sb.m_srv ≡ some m
      → made_ms h ≡ Messages.new (some m)
  unfolding made_ms get_message_server server_of
  made_ms_lem h sb m a b c d = ground arith

  -- the service that is made over a message server
  abbrev new_ms : MessageServer → MsgServer
  new_ms m = record { srv = some m; host = []; port = 0; runned = false }

  get_ms_grpc_lem :
      (h : SrvBus) (m : MessageServer)
      → h.runned ≡ true
      → made_ms h ≡ Messages.new (some m)
      → get_ms_grpc h ≡ (record h { m_srv = some (new_ms m) }, ok (new_ms m))
  unfolding get_ms_grpc Messages.new
  get_ms_grpc_lem h m r e = ground arith

  again_lem :
      (h : SrvBus) (m : MsgServer) → h.runned ≡ true → h.m_srv ≡ some m → (get_ms_grpc h).1 ≡ ok m
  unfolding get_ms_grpc made_ms
  again_lem h m r e = ground arith

  answer_lem :
      (server_id : Str) (h : SrvBus) (m : MsgServer)
      → parse_uuid (trim server_id) ≡ some nil_uuid
      → (get_ms_grpc h).1 ≡ ok m
      → (get_ms parse_uuid show_uuid server_id h).1 ≡ ms_response parse_uuid show_uuid nil_uuid m
  unfolding get_ms
  answer_lem server_id h m p e = ground arith

  served_lem :
      (now : ℕ) (server_id : Str) (h : SrvBus) (sb : ServiceBus) (m : MessageServer)
      → parse_uuid (trim server_id) ≡ some nil_uuid
      → h.runned ≡ true
      → h.s_bus ≡ some sb
      → (get_ms parse_uuid show_uuid server_id
          (serve_ms show_uuid now true (record h { m_srv = some (new_ms m) }))).1
        ≡ ok (record {
          server_id = show_uuid m.id;
          host = h.host;
          port = h.srv_ports.message_server;
        })
  unfolding Messages.run share share_bus
  served_lem now server_id h sb m p r b =
      let x = (Messages.run show_uuid now true h.host h.srv_ports.message_server (new_ms m)).0 in
      let host =
        Host.emit_event show_uuid now m (codes "MS_GRPC_START_EVT")
          (Messages.about_host show_uuid now (some m) h.host h.srv_ports.message_server) in
      let shared = share_bus (with_messages host sb) (record h { m_srv = some x }) in
      let same : serve_ms show_uuid now true (record h { m_srv = some (new_ms m) }) ≡ shared =
        unfold serve_ms in rw b refl in
      rw same (
        answer_lem server_id shared x p (again_lem shared x r refl)
        ∙ unfold ms_response Messages.id_of Host.emit_event in refl)

  -- On a bus service that runs, over a bus that runs and has a message server, a first request by the nil
  -- identifier is answered with no host and the port 0; once the goroutine that it starts has the
  -- service run, the same request is answered with the host and the port of the service.
  get_ms-early :
      (now : ℕ) (server_id : Str) (h : SrvBus) (sb : ServiceBus) (m : MessageServer)
      → parse_uuid (trim server_id) ≡ some nil_uuid
      → h.runned ≡ true
      → h.m_srv ≡ none
      → h.s_bus ≡ some sb
      → sb.runned ≡ true
      → sb.m_srv ≡ some m
      → let (h', answer) = get_ms parse_uuid show_uuid server_id h in
        (answer ≡ ok (record { server_id = show_uuid m.id; host = []; port = 0 }))
        × ((get_ms parse_uuid show_uuid server_id (serve_ms show_uuid now true h')).1
            ≡ ok (record {
              server_id = show_uuid m.id;
              host = h.host;
              port = h.srv_ports.message_server;
            }))
  get_ms-early now server_id h sb m p r n b c d =
      let made = get_ms_grpc_lem h m r (made_ms_lem h sb m n b c d) in
      let h' = (get_ms parse_uuid show_uuid server_id h).0 in
      let kept : h' ≡ record h { m_srv = some (new_ms m) } =
        unfold get_ms in ground (arith, made) in
      (
        answer_lem server_id h (new_ms m) p
              (ap (λ (x : SrvBus × Result GrpcErr MsgServer). x.1) made)
            ∙ unfold ms_response Messages.id_of in refl,
        rw kept (served_lem now server_id h sb m p r b),
      )
