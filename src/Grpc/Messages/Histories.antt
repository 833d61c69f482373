-- ===== src/Grpc/Messages/Histories.antt =====
-- The handlers of the message service as histories of the host server.
use srvbus.Common.{
  ℕ, suc, ◌≡◌, refl, Bool, not, ◌||◌, Option, none, some, List, [], ◌∷◌, arith, Uuid, ok,
  Option-cases, Result-cases, Bool-cases, inl, inr,
}
use srvbus.Common.Text.{Str, codes, is_empty, trim}
use srvbus.Ms.Message.{new_message}
use srvbus.Ms.Server as Host
use srvbus.Ms.Server.{MessageServer}
use srvbus.Ms.Server.Steps.{puts, gets, emits, Reach, here, next, Reach-trans}
use srvbus.Grpc.{check_server_id}
use srvbus.Grpc.Messages.{
  MsgServer, SendMsgRequest, SendMsgResponse, MessagesRequest, Moment, send_one, send_each,
  add_sent, send_messages, checked, parties, get_messages, run, served, about_host,
}

-- a service after a history of its host
abbrev pub Goes : (Uuid → Str) → MsgServer → MessageServer → Type 0
Goes show_uuid h' s = (s' : MessageServer) × (h'.srv ≡ some s') × Reach show_uuid s s'

module _ (show_uuid : Uuid → Str) where
  send_one-Reach :
      (t : Moment) (sender : Uuid) (queue : Str) (m : Str × Str) (s : MessageServer)
      → Reach show_uuid s (send_one show_uuid t sender queue m s).0
  unfolding send_one
  send_one-Reach t sender queue (name, content) s =
      elim (Result-cases (new_message t.fresh t.fresh name (content, none))) [
        | inl (x, e) ↦ rw (e, send_one) here
        | inr (msg, e) ↦ rw (e, send_one) (next here (puts t.now sender queue (msg ∷ [])))
      ]

  send_each-Reach :
      (t : ℕ → Moment) (pos : ℕ) (sender : Uuid) (queue : Str) (msgs : List (Str × Str))
      (res : SendMsgResponse) (s : MessageServer)
      → Reach show_uuid s (send_each show_uuid t pos sender queue msgs res s).0
  unfolding send_each
  send_each-Reach t pos sender queue [] res s = here
  send_each-Reach t pos sender queue (m ∷ msgs) res s =
      let one = send_one show_uuid (t pos) sender queue m s in
      let rest =
        send_each-Reach t (suc pos) sender queue msgs (add_sent show_uuid pos one.1 res) one.0 in
      elim (Bool-cases (t pos).done) [
        | inl d ↦ rw d here
        | inr d ↦ rw d (Reach-trans show_uuid (send_one-Reach (t pos) sender queue m s) rest)
      ]

  module _ (parse_uuid : Str → Option Uuid) where
    checked-host :
        (h : MsgServer) (s s' : MessageServer) (server_id : Str) (id : Uuid)
        → h.srv ≡ some s
        → checked parse_uuid h server_id ≡ ok (s', id)
        → s' ≡ s
    unfolding checked check_server_id
    checked-host h s s' server_id id a e = ground arith

    -- `SendMessages`
    pub send_messages-Goes :
        (t : ℕ → Moment) (r : SendMsgRequest) (h : MsgServer) (s : MessageServer)
        → h.srv ≡ some s
        → Goes show_uuid (send_messages parse_uuid show_uuid t r h).0 s
    send_messages-Goes t r h s a = elim (Result-cases (checked parse_uuid h r.server_id)) [
      | inl (x, e) ↦ (s, (unfold send_messages in ground arith), here)
      | inr ((s', id), e) ↦ elim (Result-cases (parties parse_uuid r)) [
        | inl (x, p) ↦ (s, (unfold send_messages in ground arith), here)
        | inr ((queue, sender), p) ↦
            let start : SendMsgResponse = record {
              server_id = show_uuid id;
              sent_msg_pos = [];
              sent_msg_id = [];
            } in
            (
              (send_each show_uuid t 0 sender queue r.msgs start s').0,
              (unfold send_messages in ground arith),
              rw (checked-host h s s' r.server_id id a e)
                  (send_each-Reach t 0 sender queue r.msgs start s),
            )
      ]
    ]

    -- `GetMessages`
    pub get_messages-Goes :
        (show_time : ℕ → Str) (done_at : Option ℕ) (r : MessagesRequest) (h : MsgServer)
        (s : MessageServer)
        → h.srv ≡ some s
        → Goes show_uuid (get_messages parse_uuid show_uuid show_time done_at r h).0 s
    get_messages-Goes show_time done_at r h s a =
        elim (Result-cases (checked parse_uuid h r.server_id)) [
          | inl (x, e) ↦ (s, (unfold get_messages in ground arith), here)
          | inr ((s', id), e) ↦ elim (Option-cases (parse_uuid r.receiver_id)) [
            | inl p ↦ (s, (unfold get_messages in ground arith), here)
            | inr (who, p) ↦ elim (Bool-cases (is_empty (trim r.queue))) [
              | inl q ↦ (s, (unfold get_messages in ground arith), here)
              | inr q ↦
                  let same = checked-host h s s' r.server_id id a e in
                  elim (Result-cases (Host.get s' who (trim r.queue) r.from_begin)) [
                    | inl (x, g) ↦ (s, (unfold get_messages in ground arith), here)
                    | inr ((u, mes), g) ↦ (
                      u,
                      (unfold get_messages in ground arith),
                      next here (gets who (trim r.queue) r.from_begin u mes (rw same at g)),
                    )
                  ]
            ]
          ]
        ]

  -- the begin and the end of `Run`
  pub run-Goes :
      (now : ℕ) (listens : Bool) (host : Str) (port : ℕ) (h : MsgServer) (s : MessageServer)
      → h.srv ≡ some s
      → Goes show_uuid (run show_uuid now listens host port h).0 s
  run-Goes now listens host port h s a = elim (Bool-cases (h.runned || not listens)) [
    | inl still ↦ (s, (unfold run in ground arith), here)
    | inr begins ↦ (
      Host.emit_event show_uuid now s (codes "MS_GRPC_START_EVT")
          (about_host show_uuid now (some s) host port),
      (unfold run in ground arith),
      next here
          (emits now (codes "MS_GRPC_START_EVT") (about_host show_uuid now (some s) host port)),
    )
  ]

  pub served-Goes :
      (now : ℕ) (h : MsgServer) (s : MessageServer)
      → h.srv ≡ some s
      → Goes show_uuid (served show_uuid now h) s
  served-Goes now h s a = (
    Host.emit_event show_uuid now s (codes "MS_GRPC_END_EVT") [],
    (unfold served in rw a refl),
    next here (emits now (codes "MS_GRPC_END_EVT") []),
  )
