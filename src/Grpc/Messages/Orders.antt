-- ===== src/Grpc/Messages/Orders.antt =====
-- The order in which the messages of one `SendMessages` are answered by `GetMessages`.
use srvbus.Common.{
  ℕ, ◌≡◌, refl, sym, ap, ap₂, ◌∙◌, true, false, Option, none, some, List, [], ◌++◌, map, arith,
  Uuid, nil_uuid, nat_eq, ok, ◌==◌, length, drop, lookup, drop-append_of_le, drop-length,
  length-append, ◌≤◌,
}
use srvbus.Common.Text.{Str, is_empty, trim, str_eq}
use srvbus.Ms.Message.{Message}
use srvbus.Ms.Queue.{MessageEnvelope, MsgRegRequest, MQueue, last_of}
use srvbus.Ms.Server.{MessageServer}
use srvbus.Ms.Server.Steps.{Turns, still}
use srvbus.Ms.Server.Putting.{target}
use srvbus.Grpc.Messages.{
  MsgServer, SendMsgRequest, Moment, MessagesRequest, send_messages, envelope_of, get_messages,
}
use srvbus.Grpc.Messages.Taking.{IsOrder, logged_at, all_taken}
use srvbus.Grpc.Messages.Storing.{accepted, one_by_one, send_messages-stored}
use srvbus.Grpc.Messages.Getting.{get_messages-news}

-- What is new to a receiver that was at the end of the log.
new_to :
    (receiver : Uuid) (q : MQueue) (more : List MessageEnvelope) (ps : List (List MsgRegRequest))
    → last_of receiver q ≡ length q.messages
    → drop
        (last_of receiver (record q { messages = q.messages ++ more; puts = ps }))
        (q.messages ++ more)
      ≡ more
unfolding last_of
new_to receiver q more ps e =
    ap (λ n. drop n (q.messages ++ more)) e
    ∙ drop-append_of_le (length q.messages) q.messages more (omega arith)
    ∙ ap (λ l. l ++ more) (drop-length q.messages)

place-le :
    (receiver : Uuid) (q : MQueue) (more : List MessageEnvelope) (ps : List (List MsgRegRequest))
    → last_of receiver q ≡ length q.messages
    → last_of receiver (record q { messages = q.messages ++ more; puts = ps })
      ≤ length (q.messages ++ more)
unfolding last_of
place-le receiver q more ps e = omega (arith, length-append q.messages more, e)

-- A request that names the server, a queue and a sender other than nil, on a running server, while the context
-- is not done, when the queue is there and runs with its loop and no put waits in it; and a receiver, not nil,
-- that has read the whole queue. In whatever order the accepted messages are given, the goroutines that put
-- them, and the loop of the queue, can run so that, without another call, a request of the receiver for new messages is then answered with just these messages in that order.
pub send_messages-any_order :
    (parse_uuid : Str → Option Uuid) (show_uuid : Uuid → Str) (show_time : ℕ → Str) (t : ℕ → Moment)
    (now : ℕ) (r : SendMsgRequest) (receiver_id : Str) (h : MsgServer) (s : MessageServer)
    (sender receiver : Uuid) (q : MQueue) (zs : List Message)
    → h.srv ≡ some s
    → parse_uuid (trim r.server_id) ≡ some s.id
    → is_empty (trim r.queue) ≡ false
    → parse_uuid r.sender_id ≡ some sender
    → (sender == nil_uuid) ≡ false
    → ((n : ℕ) → (t n).done ≡ false)
    → s.runned ≡ true
    → lookup (trim r.queue) s.queues ≡ some q
    → q.runned ≡ true
    → q.looping ≡ true
    → q.puts ≡ []
    → last_of receiver q ≡ length q.messages
    → parse_uuid receiver_id ≡ some receiver
    → (receiver == nil_uuid) ≡ false
    → IsOrder (accepted t 0 r.msgs) zs
    → let h' = (send_messages parse_uuid show_uuid t r h).0 in
      let news : MessagesRequest = record {
        server_id = r.server_id;
        queue = r.queue;
        receiver_id = receiver_id;
        from_begin = false;
      } in
      (s' : MessageServer) × (h'.srv ≡ some s')
      × (u : MessageServer) × Turns show_uuid s' u
      × ((get_messages parse_uuid show_uuid show_time none news (record h' { srv = some u })).1
          ≡ ok (
            show_uuid s.id,
            map
                (envelope_of parse_uuid show_uuid show_time s.id (trim r.queue))
                (map (logged_at now sender) zs),
          ))
send_messages-any_order parse_uuid show_uuid show_time t now r receiver_id h s sender receiver q zs
      a b c d nz live run found active loops idle at_end e f order =
    let k = trim r.queue in
    let ps = one_by_one sender (accepted t 0 r.msgs) in
    let is_target : target show_uuid now s k ≡ q = rw (target, found) refl in
    let (s', res, eh, ans, pos, run', id', wait, there) =
      send_messages-stored parse_uuid show_uuid t now r h s sender a b c d nz live run
        (ap (λ (x : MQueue). x.runned) is_target ∙ active) in
    let q' : MQueue = record q { puts = ps } in
    let found' : lookup k s'.queues ≡ some q' =
      there (found ∙ ap (λ x. some x) (sym is_target))
      ∙ ap (λ x. some x)
          (wait
            ∙ ap (λ (x : MQueue). record x { puts = x.puts ++ ps }) is_target
            ∙ ap (λ l. record q { puts = l ++ ps }) idle) in
    let (u, reach, has) =
      all_taken show_uuid now sender nz k s' [] order s' q' still
        (record { there = found'; runned = refl; id = refl }) loops refl in
    let h' = (send_messages parse_uuid show_uuid t r h).0 in
    let more = map (logged_at now sender) zs in
    let q'' : MQueue = record q' { messages = q.messages ++ more; puts = [] } in
    let at : drop (last_of receiver q'') q''.messages ≡ more = new_to receiver q more [] at_end in
    let same : u.id ≡ s.id = has.id ∙ id' in
    (
      s',
      ap (λ (x : MsgServer). x.srv) eh,
      u,
      reach,
      get_messages-news parse_uuid show_uuid show_time _ (record h' { srv = some u }) u receiver q''
            refl (b ∙ ap (λ i. some i) (sym same)) e c refl f (has.runned ∙ run') has.there active
            (place-le receiver q more [] at_end)
          ∙ ap₂ (λ i l. ok (show_uuid i, map (envelope_of parse_uuid show_uuid show_time i k) l))
              same at,
    )
