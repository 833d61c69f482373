-- ===== src/Grpc/Messages/Storing.antt =====
-- What `SendMessages` stores on a server that runs.
use mathlib.Core.Path.{subst}
use srvbus.Common.{
  ℕ, suc, ◌≡◌, refl, sym, ap, ◌∙◌, true, false, Option, none, some, List, [], ◌∷◌, ◌++◌, map, arith,
  Uuid, nil_uuid, nat_eq, Result, ok, ◌==◌, lookup, append_assoc, append_nil, if◌then◌else◌,
  Bool-cases, inl, inr,
}
use srvbus.Common.Text.{Str, is_empty, trim, str_eq}
use srvbus.Common.Text.Trim.{trim_idem}
use srvbus.Ds.{new_item}
use srvbus.Ms.Message.{Message, sized_message, new_message}
use srvbus.Ms.Queue.{MsgRegRequest, MQueue, requests}
use srvbus.Ms.Server as Host
use srvbus.Ms.Server.{MessageServer}
use srvbus.Ms.Server.Putting.{target, put-runned, put-id, put-waits}
use srvbus.Grpc.{GrpcErr}
use srvbus.Grpc.Messages.Sending.{
  fits, fitting, next_round, send_each-reported, empty_response, send_messages_lem,
}
use srvbus.Grpc.Messages.{
  MsgServer, SendMsgRequest, SendMsgResponse, Moment, send_one, add_sent, send_each, send_messages,
}

-- the messages that are not too large, as `NewMsg` makes them
abbrev pub accepted : (ℕ → Moment) → ℕ → List (Str × Str) → List Message
accepted t pos [] = []
accepted t pos ((name, content) ∷ msgs) =
    (if fits (name, content)
      then record { item = new_item name content; id = (t pos).fresh } ∷ []
      else [])
    ++ accepted t (suc pos) msgs

-- Each message is put on its own.
abbrev pub one_by_one : Uuid → List Message → List (List MsgRegRequest)
one_by_one sender = map (λ m. requests sender (m ∷ []))

module _ (show_uuid : Uuid → Str) (sender : Uuid) (queue : Str) (a : is_empty (trim queue) ≡ false)
    (b : (sender == nil_uuid) ≡ false) where
  abbrev pub waiting : ℕ → MessageServer → MQueue
  waiting now s = target show_uuid now s (trim queue)

  abbrev pub IsThere : ℕ → MessageServer → Type 0
  IsThere now s = lookup (trim queue) s.queues ≡ some (waiting now s)

  -- The server runs, and in its queue these messages wait in addition. A queue that was there is there.
  abbrev pub IsStored : ℕ → List Message → MessageServer → MessageServer → Type 0
  IsStored now msgs s s' =
      (s'.runned ≡ true)
      × (s'.id ≡ s.id)
      × (waiting now s'
          ≡ record (waiting now s) { puts = (waiting now s).puts ++ one_by_one sender msgs })
      × (IsThere now s → IsThere now s')

  send_one-large :
      (t : Moment) (name content : Str) (s : MessageServer)
      → fits (name, content) ≡ false
      → send_one show_uuid t sender queue (name, content) s ≡ (s, none)
  unfolding send_one new_message sized_message
  send_one-large t name content s h = ground arith

  new_message-small :
      (fresh : Uuid) (name content : Str)
      → fits (name, content) ≡ true
      → new_message fresh fresh name (content, none)
        ≡ ok (record { item = new_item name content; id = fresh })
  unfolding new_message sized_message
  new_message-small fresh name content h = ground arith

  send_one-small :
      (t : Moment) (name content : Str) (s : MessageServer)
      → fits (name, content) ≡ true
      → let msg : Message = record { item = new_item name content; id = t.fresh } in
        send_one show_uuid t sender queue (name, content) s
        ≡ ((Host.put show_uuid t.now s sender queue (msg ∷ [])).0, some t.fresh)
  unfolding send_one
  send_one-small t name content s h = ground (arith, new_message-small t.fresh name content h)

  one-IsStored :
      (t : ℕ → Moment) (pos now : ℕ) (m : Str × Str) (s : MessageServer)
      → s.runned ≡ true
      → (waiting now s).runned ≡ true
      → IsStored now (accepted t pos (m ∷ [])) s (send_one show_uuid (t pos) sender queue m s).0
  one-IsStored t pos now (name, content) s r q = elim (Bool-cases (fits (name, content))) [
    | inr large ↦
        rw (send_one-large (t pos) name content s large, large)
          (r, refl, ap (λ l. record (waiting now s) { puts = l }) (sym (append_nil _)), λ h. h)
    | inl small ↦
        let msg : Message = record { item = new_item name content; id = (t pos).fresh } in
        let stored = put-waits show_uuid (t pos).now s sender queue msg [] r a b q in
        rw (send_one-small (t pos) name content s small, small)
          (
            put-runned show_uuid (t pos).now s sender queue msg [] r a b,
            put-id show_uuid (t pos).now s sender queue msg [] r a b,
            rw (target, stored) refl,
            λ h. stored ∙ rw (target, stored) refl,
          )
  ]

  one_by_one-append :
      (xs ys : List Message)
      → one_by_one sender xs ++ one_by_one sender ys ≡ one_by_one sender (xs ++ ys)
  one_by_one-append [] ys = refl
  one_by_one-append (x ∷ xs) ys = ap (λ l. requests sender (x ∷ []) ∷ l) (one_by_one-append xs ys)

  accepted-cons :
      (t : ℕ → Moment) (pos : ℕ) (m : Str × Str) (msgs : List (Str × Str))
      → accepted t pos (m ∷ []) ++ accepted t (suc pos) msgs ≡ accepted t pos (m ∷ msgs)
  accepted-cons t pos m msgs = ap (λ l. l ++ accepted t (suc pos) msgs) (append_nil _)

  all-IsStored :
      (t : ℕ → Moment) (pos now : ℕ) (msgs : List (Str × Str)) (res : SendMsgResponse)
      (s : MessageServer)
      → ((n : ℕ) → (t n).done ≡ false)
      → s.runned ≡ true
      → (waiting now s).runned ≡ true
      → IsStored now (accepted t pos msgs) s (send_each show_uuid t pos sender queue msgs res s).0
  all-IsStored t pos now [] res s live r q =
      unfold send_each in
      (r, refl, ap (λ l. record (waiting now s) { puts = l }) (sym (append_nil _)), λ h. h)
  all-IsStored t pos now (m ∷ msgs) res s live r q =
      let one = send_one show_uuid (t pos) sender queue m s in
      let next =
        send_each show_uuid t (suc pos) sender queue msgs (add_sent show_uuid pos one.1 res)
          one.0 in
      let (r₁, i₁, p₁, h₁) = one-IsStored t pos now m s r q in
      let (r₂, i₂, p₂, h₂) =
        all-IsStored t (suc pos) now msgs (add_sent show_uuid pos one.1 res) one.0 live r₁
          (ap (λ (x : MQueue). x.runned) p₁ ∙ q) in
      let more : List (List MsgRegRequest) → MQueue → MQueue =
        λ l x. record x { puts = x.puts ++ l } in
      let both : waiting now next.0
          ≡ more (one_by_one sender (accepted t pos (m ∷ msgs))) (waiting now s) =
        p₂
        ∙ (ap (more (one_by_one sender (accepted t (suc pos) msgs))) p₁
            ∙ ap (λ l. record (waiting now s) { puts = l })
                (append_assoc (waiting now s).puts _ _
                  ∙ ap (λ l. (waiting now s).puts ++ l)
                      (one_by_one-append (accepted t pos (m ∷ [])) _
                        ∙ ap (one_by_one sender) (accepted-cons t pos m msgs)))) in
      subst
        (λ (x : MessageServer × Result GrpcErr SendMsgResponse).
          IsStored now (accepted t pos (m ∷ msgs)) s x.0)
        (sym (next_round show_uuid t pos sender queue m msgs res s (live pos)))
        (r₂, i₂ ∙ i₁, both, λ h. h₂ (h₁ h))

-- A request that names the server, a queue and a sender other than nil, on a running server, while the
-- context is not done and when the queue, if there is one, runs: in the queue each message that is not too
-- large waits in addition, behind what waited, in a goroutine of its own, these in the order of the request;
-- the queue is otherwise as it was, and the answer reports the messages' positions in the request.
pub send_messages-stored :
    (parse_uuid : Str → Option Uuid) (show_uuid : Uuid → Str) (t : ℕ → Moment) (now : ℕ)
    (r : SendMsgRequest) (h : MsgServer) (s : MessageServer) (sender : Uuid)
    → h.srv ≡ some s
    → parse_uuid (trim r.server_id) ≡ some s.id
    → is_empty (trim r.queue) ≡ false
    → parse_uuid r.sender_id ≡ some sender
    → (sender == nil_uuid) ≡ false
    → ((n : ℕ) → (t n).done ≡ false)
    → s.runned ≡ true
    → (target show_uuid now s (trim r.queue)).runned ≡ true
    → let (h', answer) = send_messages parse_uuid show_uuid t r h in
      let q = target show_uuid now s (trim r.queue) in
      (s' : MessageServer) × (res : SendMsgResponse) × (h' ≡ record h { srv = some s' })
      × (answer ≡ ok res)
      × (res.sent_msg_pos ≡ fitting 0 r.msgs)
      × (s'.runned ≡ true)
      × (s'.id ≡ s.id)
      × (target show_uuid now s' (trim r.queue)
          ≡ record q { puts = q.puts ++ one_by_one sender (accepted t 0 r.msgs) })
      × (lookup (trim r.queue) s.queues ≡ some q
          → lookup (trim r.queue) s'.queues ≡ some (target show_uuid now s' (trim r.queue)))
send_messages-stored parse_uuid show_uuid t now r h s sender a b c d nz live run q =
    let all = send_messages_lem parse_uuid show_uuid t r h s sender a b c d in
    let queue = trim r.queue in
    let filled : is_empty (trim queue) ≡ false = rw (trim_idem r.queue) c in
    let runs : (target show_uuid now s (trim queue)).runned ≡ true = rw (trim_idem r.queue) q in
    let (res, e, i, p) =
      send_each-reported show_uuid t 0 sender queue r.msgs (empty_response parse_uuid show_uuid s) s
        live in
    let (x, i', z, there) =
      all-IsStored show_uuid sender queue filled nz t 0 now r.msgs
        (empty_response parse_uuid show_uuid s) s live run runs in
    (
      (send_each show_uuid t 0 sender queue r.msgs (empty_response parse_uuid show_uuid s) s).0,
      res,
      ap (λ (f : MsgServer × Result GrpcErr SendMsgResponse). f.0) all,
      ap (λ (f : MsgServer × Result GrpcErr SendMsgResponse). f.1) all ∙ e,
      p,
      x,
      i',
      (rw (trim_idem r.queue) at z),
      (rw (trim_idem r.queue) at there),
    )
