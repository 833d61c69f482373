-- ===== src/Grpc/Bus/Requests.antt =====
-- A request for a service keeps the services over the servers of the bus.
use mathlib.Core.Path.{subst}
use srvbus.Common.{
  ℕ, ◌≡◌, sym, Option, some, Uuid, ok, arith, Option-cases, Result-cases, Bool-cases, inl, inr,
}
use srvbus.Common.Text.{Str, trim}
use srvbus.Bus.{get_message_server, get_event_server, server_of}
use srvbus.Bus.Sharing.{OnSome}
use srvbus.Grpc.Messages as Messages
use srvbus.Grpc.Messages.{MsgServer, SendMsgRequest, MessagesRequest, Moment}
use srvbus.Grpc.Events as Events
use srvbus.Grpc.Events.{EvtServer}
use srvbus.Grpc.Bus.{SrvBus, made_ms, made_es, get_ms_grpc, get_es_grpc, get_ms, get_es}
use srvbus.Grpc.Bus.Served.{IsServed}

-- a service made for a request is over the server of the bus
made_ms-over :
    (h : SrvBus) (m : MsgServer) (v : IsServed h) → made_ms h ≡ ok m → m.srv ≡ v.host.m_srv
made_ms-over h m v e = elim (Option-cases h.m_srv) [
  | inr (x, f) ↦
      let over : x.srv ≡ v.host.m_srv =
        subst (OnSome (λ (y : MsgServer). y.srv ≡ v.host.m_srv)) f v.messages in
      (unfold made_ms in ground (arith, over))
  | inl f ↦ elim (Option-cases v.host.m_srv) [
    | inl g ↦
        (unfold made_ms get_message_server server_of Messages.new in ground (arith, v.is_host))
    | inr (s, g) ↦
        (unfold made_ms get_message_server server_of Messages.new in ground (arith, v.is_host))
  ]
]

made_es-over :
    (h : SrvBus) (e : EvtServer) (v : IsServed h) → made_es h ≡ ok e → e.srv ≡ v.host.e_srv
made_es-over h e v k = elim (Option-cases h.e_srv) [
  | inr (x, f) ↦
      let over : x.srv ≡ v.host.e_srv =
        subst (OnSome (λ (y : EvtServer). y.srv ≡ v.host.e_srv)) f v.events in
      (unfold made_es in ground (arith, over))
  | inl f ↦ elim (Option-cases v.host.e_srv) [
    | inl g ↦ (unfold made_es get_event_server server_of Events.new in ground (arith, v.is_host))
    | inr (s, g) ↦
        (unfold made_es get_event_server server_of Events.new in ground (arith, v.is_host))
  ]
]

made-IsServed :
    (h : SrvBus) (m : MsgServer) (v : IsServed h)
    → m.srv ≡ v.host.m_srv
    → IsServed (record h { m_srv = some m })
made-IsServed h m v over = record {
  host = v.host;
  is_host = v.is_host;
  safe = v.safe;
  messages = over;
  events = v.events;
}

made_too-IsServed :
    (h : SrvBus) (e : EvtServer) (v : IsServed h)
    → e.srv ≡ v.host.e_srv
    → IsServed (record h { e_srv = some e })
made_too-IsServed h e v over = record {
  host = v.host;
  is_host = v.is_host;
  safe = v.safe;
  messages = v.messages;
  events = over;
}

get_ms_grpc-IsServed : (h : SrvBus) → IsServed h → IsServed (get_ms_grpc h).0
get_ms_grpc-IsServed h v = elim (Bool-cases h.runned) [
  | inr a ↦
      let same : (get_ms_grpc h).0 ≡ h = unfold get_ms_grpc in ground arith in
      subst IsServed (sym same) v
  | inl a ↦ elim (Result-cases (made_ms h)) [
    | inr (m, f) ↦
        let same : (get_ms_grpc h).0 ≡ record h { m_srv = some m } =
          unfold get_ms_grpc in ground arith in
        rw same (made-IsServed h m v (made_ms-over h m v f))
    | inl (x, f) ↦
        let same : (get_ms_grpc h).0 ≡ h = unfold get_ms_grpc in ground arith in
        subst IsServed (sym same) v
  ]
]

get_es_grpc-IsServed : (h : SrvBus) → IsServed h → IsServed (get_es_grpc h).0
get_es_grpc-IsServed h v = elim (Bool-cases h.runned) [
  | inr a ↦
      let same : (get_es_grpc h).0 ≡ h = unfold get_es_grpc in ground arith in
      subst IsServed (sym same) v
  | inl a ↦ elim (Result-cases (made_es h)) [
    | inr (e, f) ↦
        let same : (get_es_grpc h).0 ≡ record h { e_srv = some e } =
          unfold get_es_grpc in ground arith in
        rw same (made_too-IsServed h e v (made_es-over h e v f))
    | inl (x, f) ↦
        let same : (get_es_grpc h).0 ≡ h = unfold get_es_grpc in ground arith in
        subst IsServed (sym same) v
  ]
]

module _ (parse_uuid : Str → Option Uuid) (show_uuid : Uuid → Str) where
  pub get_ms-IsServed :
      (id : Str) (h : SrvBus) → IsServed h → IsServed (get_ms parse_uuid show_uuid id h).0
  get_ms-IsServed id h v = elim (Option-cases (parse_uuid (trim id))) [
    | inl f ↦
        let same : (get_ms parse_uuid show_uuid id h).0 ≡ h = unfold get_ms in ground arith in
        subst IsServed (sym same) v
    | inr (x, f) ↦
        let same : (get_ms parse_uuid show_uuid id h).0 ≡ (get_ms_grpc h).0 =
          unfold get_ms in ground arith in
        rw same (get_ms_grpc-IsServed h v)
  ]

  pub get_es-IsServed :
      (calls : ℕ) (id : Str) (h : SrvBus)
      → IsServed h
      → IsServed (get_es parse_uuid show_uuid calls id h).0
  get_es-IsServed calls id h v = elim (Option-cases (parse_uuid (trim id))) [
    | inl f ↦
        let same : (get_es parse_uuid show_uuid calls id h).0 ≡ h = unfold get_es in ground arith in
        subst IsServed (sym same) v
    | inr (x, f) ↦
        let same : (get_es parse_uuid show_uuid calls id h).0 ≡ (get_es_grpc h).0 =
          unfold get_es in ground arith in
        rw same (get_es_grpc-IsServed h v)
  ]
