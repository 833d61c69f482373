-- ===== src/Grpc/Messages/Sending.antt =====
-- What `SendMessages` stores, and what it reports.
use srvbus.Common.{
  ℕ, suc, ◌≡◌, refl, sym, ap, ◌∙◌, Bool, false, not, ◌&&◌, Option, none, some, List, [], ◌∷◌, ◌++◌,
  arith, Uuid, nil_uuid, nat_eq, Result, ok, ◌==◌, ltb, length, append_assoc, append_nil,
  if◌then◌else◌, Result-cases, Bool-cases, inl, inr,
}
use srvbus.Common.Text.{Str, is_empty, trim, str_eq}
use srvbus.Ms.Message.{max_msg_data_len, sized_message, new_message}
use srvbus.Ms.Server as Host
use srvbus.Ms.Server.{MessageServer}
use srvbus.Grpc.{GrpcErr, check_server_id}
use srvbus.Grpc.Messages.{
  MsgServer, SendMsgRequest, SendMsgResponse, Moment, int32, checked, send_one, add_sent, send_each,
  parties, send_messages,
}

-- a message that is not too large
abbrev pub fits : Str × Str → Bool
fits (name, content) = not (ltb max_msg_data_len (length content))

-- the positions of the messages that are not too large
abbrev pub fitting : ℕ → List (Str × Str) → List ℕ
fitting pos [] = []
fitting pos (m ∷ msgs) = (if fits m then int32 pos ∷ [] else []) ++ fitting (suc pos) msgs

module _ (show_uuid : Uuid → Str) where
  send_one-reported :
      (t : Moment) (pos : ℕ) (sender : Uuid) (queue : Str) (m : Str × Str) (res : SendMsgResponse)
      (s : MessageServer)
      → (add_sent show_uuid pos (send_one show_uuid t sender queue m s).1 res).sent_msg_pos
        ≡ res.sent_msg_pos ++ (if fits m then int32 pos ∷ [] else [])
  unfolding send_one add_sent new_message sized_message
  send_one-reported t pos sender queue (name, content) res s =
      elim (Bool-cases (ltb max_msg_data_len (length content))) [
        | inl large ↦ ground (arith, append_nil res.sent_msg_pos)
        | inr small ↦ ground arith
      ]

  add_sent-server_id :
      (pos : ℕ) (sent : Option Uuid) (res : SendMsgResponse)
      → (add_sent show_uuid pos sent res).server_id ≡ res.server_id
  unfolding add_sent
  add_sent-server_id pos none res = refl
  add_sent-server_id pos (some id) res = refl

  pub next_round :
      (t : ℕ → Moment) (pos : ℕ) (sender : Uuid) (queue : Str) (m : Str × Str)
      (msgs : List (Str × Str)) (res : SendMsgResponse) (s : MessageServer)
      → (t pos).done ≡ false
      → let r = send_one show_uuid (t pos) sender queue m s in
        send_each show_uuid t pos sender queue (m ∷ msgs) res s
        ≡ send_each show_uuid t (suc pos) sender queue msgs (add_sent show_uuid pos r.1 res) r.0
  unfolding send_each
  next_round t pos sender queue m msgs res s live = rw live refl

  -- Whatever the server answers to the puts, the messages reported are those that are not too large.
  pub send_each-reported :
      (t : ℕ → Moment) (pos : ℕ) (sender : Uuid) (queue : Str) (msgs : List (Str × Str))
      (res : SendMsgResponse) (s : MessageServer)
      → ((n : ℕ) → (t n).done ≡ false)
      → (res' : SendMsgResponse) × ((send_each show_uuid t pos sender queue msgs res s).1 ≡ ok res')
        × (res'.server_id ≡ res.server_id)
        × (res'.sent_msg_pos ≡ res.sent_msg_pos ++ fitting pos msgs)
  send_each-reported t pos sender queue [] res s live =
      (res, unfold send_each in refl, refl, sym (append_nil res.sent_msg_pos))
  send_each-reported t pos sender queue (m ∷ msgs) res s live =
      let r = send_one show_uuid (t pos) sender queue m s in
      let step = add_sent show_uuid pos r.1 res in
      let (res', e, i, p) = send_each-reported t (suc pos) sender queue msgs step r.0 live in
      (
        res',
        ap (λ (x : MessageServer × Result GrpcErr SendMsgResponse). x.1)
              (next_round t pos sender queue m msgs res s (live pos))
            ∙ e,
        i ∙ add_sent-server_id pos r.1 res,
        p
            ∙ (ap (λ l. l ++ fitting (suc pos) msgs)
                  (send_one-reported (t pos) pos sender queue m res s)
                ∙ append_assoc res.sent_msg_pos _ (fitting (suc pos) msgs)),
      )

  -- a put that the server refuses
  send_one-refused :
      (t : Moment) (sender : Uuid) (queue : Str) (m : Str × Str) (s : MessageServer)
      → (s.runned && not (sender == nil_uuid)) ≡ false
      → (send_one show_uuid t sender queue m s).0 ≡ s
  unfolding send_one Host.put
  send_one-refused t sender queue (name, content) s h =
      elim (Result-cases (new_message t.fresh t.fresh name (content, none))) [
        | inl (e, f) ↦ ground arith
        | inr (msg, f) ↦ ground arith
      ]

  send_each-refused :
      (t : ℕ → Moment) (pos : ℕ) (sender : Uuid) (queue : Str) (msgs : List (Str × Str))
      (res : SendMsgResponse) (s : MessageServer)
      → ((n : ℕ) → (t n).done ≡ false)
      → (s.runned && not (sender == nil_uuid)) ≡ false
      → (send_each show_uuid t pos sender queue msgs res s).0 ≡ s
  send_each-refused t pos sender queue [] res s live h = unfold send_each in refl
  send_each-refused t pos sender queue (m ∷ msgs) res s live h =
      let r = send_one show_uuid (t pos) sender queue m s in
      let stays : r.0 ≡ s = send_one-refused (t pos) sender queue m s h in
      ap (λ (x : MessageServer × Result GrpcErr SendMsgResponse). x.0)
        (next_round t pos sender queue m msgs res s (live pos))
      ∙ (send_each-refused t (suc pos) sender queue msgs (add_sent show_uuid pos r.1 res) r.0 live
            (rw stays h)
          ∙ stays)

module _ (parse_uuid : Str → Option Uuid) (show_uuid : Uuid → Str) where
  pub checked_lem :
      (h : MsgServer) (s : MessageServer) (server_id : Str)
      → h.srv ≡ some s
      → parse_uuid (trim server_id) ≡ some s.id
      → checked parse_uuid h server_id ≡ ok (s, s.id)
  unfolding checked check_server_id
  checked_lem h s server_id a b = ground arith

  parties_lem :
      (r : SendMsgRequest) (sender : Uuid)
      → is_empty (trim r.queue) ≡ false
      → parse_uuid r.sender_id ≡ some sender
      → parties parse_uuid r ≡ ok (trim r.queue, sender)
  unfolding parties
  parties_lem r sender a b = ground arith

  abbrev pub empty_response : MessageServer → SendMsgResponse
  empty_response s = record { server_id = show_uuid s.id; sent_msg_pos = []; sent_msg_id = [] }

  pub send_messages_lem :
      (t : ℕ → Moment) (r : SendMsgRequest) (h : MsgServer) (s : MessageServer) (sender : Uuid)
      → h.srv ≡ some s
      → parse_uuid (trim r.server_id) ≡ some s.id
      → is_empty (trim r.queue) ≡ false
      → parse_uuid r.sender_id ≡ some sender
      → let x = send_each show_uuid t 0 sender (trim r.queue) r.msgs (empty_response s) s in
        send_messages parse_uuid show_uuid t r h ≡ (record h { srv = some x.0 }, x.1)
  unfolding send_messages
  send_messages_lem t r h s sender a b c d =
      ground (arith, checked_lem h s r.server_id a b, parties_lem r sender c d)

  -- A request that names the server, a queue and a sender, while the context is not done: if the server
  -- does not run, or the sender is the nil identifier, nothing is stored, and yet the answer is no error and
  -- reports as sent the positions of all messages that are not too large.
  pub send_messages-unsent :
      (t : ℕ → Moment) (r : SendMsgRequest) (h : MsgServer) (s : MessageServer) (sender : Uuid)
      → h.srv ≡ some s
      → parse_uuid (trim r.server_id) ≡ some s.id
      → is_empty (trim r.queue) ≡ false
      → parse_uuid r.sender_id ≡ some sender
      → ((n : ℕ) → (t n).done ≡ false)
      → (s.runned && not (sender == nil_uuid)) ≡ false
      → let (h', answer) = send_messages parse_uuid show_uuid t r h in
        (h'.srv ≡ some s)
        × ((res : SendMsgResponse) × (answer ≡ ok res) × (res.sent_msg_pos ≡ fitting 0 r.msgs))
  send_messages-unsent t r h s sender a b c d live f =
      let all = send_messages_lem t r h s sender a b c d in
      let stays =
        send_each-refused show_uuid t 0 sender (trim r.queue) r.msgs (empty_response s) s live f in
      let (res, e, i, p) =
        send_each-reported show_uuid t 0 sender (trim r.queue) r.msgs (empty_response s) s live in
      rw all (ap (λ x. some x) stays, (res, e, p))
