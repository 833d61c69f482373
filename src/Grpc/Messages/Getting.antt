-- ===== src/Grpc/Messages/Getting.antt =====
-- What `GetMessages` answers, and what it leaves when the context ends while it answers.
use srvbus.Common.{
  ℕ, ◌+◌, ◌-◌, ◌≤◌, ◌≡◌, refl, ap, ◌∙◌, true, false, Option, none, some, List, [], map, arith, Uuid,
  nil_uuid, nat_eq, Result, ok, err, ◌==◌, length, length-drop, drop, drop-eq-nil, lookup, insert,
  lookup-insert, beq_refl,
}
use srvbus.Common.Text.{Str, is_empty, trim, str_eq}
use srvbus.Ms.Queue.{MessageEnvelope, MQueue, last_of, get_messages}
use srvbus.Ms.Server as Host
use srvbus.Ms.Server.{MessageServer, got}
use srvbus.Grpc.{GrpcErr, cancelled}
use srvbus.Grpc.Messages as Service
use srvbus.Grpc.Messages.{MsgServer, MessagesRequest, Envelope, checked, collect, envelope_of}
use srvbus.Grpc.Messages.Sending.{checked_lem}

-- the queue after a read from where the receiver is
abbrev caught_up : Uuid → MQueue → MQueue
caught_up receiver q = record q {
  last_readed =
      insert receiver (last_of receiver q + length (drop (last_of receiver q) q.messages))
        q.last_readed;
}

read_news :
    (receiver : Uuid) (q : MQueue)
    → q.runned ≡ true
    → last_of receiver q ≤ length q.messages
    → get_messages receiver false q
      ≡ ok (caught_up receiver q, drop (last_of receiver q) q.messages)
unfolding get_messages
read_news receiver q a h = ground arith

last_caught_up :
    (receiver : Uuid) (q : MQueue)
    → last_of receiver q ≤ length q.messages
    → last_of receiver (caught_up receiver q) ≡ length q.messages
unfolding last_of
last_caught_up receiver q h = ground (
  arith,
  lookup-insert receiver receiver
      (last_of receiver q + length (drop (last_of receiver q) q.messages)) q.last_readed,
  length-drop (last_of receiver q) q.messages,
)

-- the server after such a read
abbrev served : Uuid → Str → MQueue → MessageServer → MessageServer
served receiver queue q s = record s { queues = insert queue (caught_up receiver q) s.queues }

host_get :
    (s : MessageServer) (receiver : Uuid) (queue : Str) (q : MQueue)
    → (receiver == nil_uuid) ≡ false
    → s.runned ≡ true
    → lookup queue s.queues ≡ some q
    → q.runned ≡ true
    → last_of receiver q ≤ length q.messages
    → Host.get s receiver queue false
      ≡ ok (served receiver queue q s, drop (last_of receiver q) q.messages)
unfolding Host.get got
host_get s receiver queue q z r f a h = ground (arith, read_news receiver q a h)

module _ (parse_uuid : Str → Option Uuid) (show_uuid : Uuid → Str) (show_time : ℕ → Str) where
  get_lem :
      (done_at : Option ℕ) (r : MessagesRequest) (h : MsgServer) (s : MessageServer)
      (receiver : Uuid) (q : MQueue)
      → h.srv ≡ some s
      → parse_uuid (trim r.server_id) ≡ some s.id
      → parse_uuid r.receiver_id ≡ some receiver
      → is_empty (trim r.queue) ≡ false
      → r.from_begin ≡ false
      → (receiver == nil_uuid) ≡ false
      → s.runned ≡ true
      → lookup (trim r.queue) s.queues ≡ some q
      → q.runned ≡ true
      → last_of receiver q ≤ length q.messages
      → Service.get_messages parse_uuid show_uuid show_time done_at r h ≡ (
        record h { srv = some (served receiver (trim r.queue) q s) },
        collect parse_uuid show_uuid show_time done_at s.id
            (trim r.queue)
            (drop (last_of receiver q) q.messages),
      )
  unfolding Service.get_messages
  get_lem done_at r h s receiver q a b c d f z run found active valid = ground (
    arith,
    checked_lem parse_uuid show_uuid h s r.server_id a b,
    host_get s receiver (trim r.queue) q z run found active valid,
  )

  collect_early :
      (round : ℕ) (srv_id : Uuid) (queue : Str) (mes : List MessageEnvelope)
      → round ≤ length mes
      → collect parse_uuid show_uuid show_time (some round) srv_id queue mes ≡ err cancelled
  unfolding collect
  collect_early round srv_id queue mes h = ground arith

  -- A request for new messages that names the server, a receiver other than nil and a queue, on a running
  -- server whose queue of the name runs and is not read past its end by this receiver, when the context ends
  -- before the answer is complete: it fails, and the messages are lost to the receiver, since the same
  -- request, sent again, is answered without an error and without a message.
  pub get_messages-lost :
      (round : ℕ) (r : MessagesRequest) (h : MsgServer) (s : MessageServer) (receiver : Uuid)
      (q : MQueue)
      → h.srv ≡ some s
      → parse_uuid (trim r.server_id) ≡ some s.id
      → parse_uuid r.receiver_id ≡ some receiver
      → is_empty (trim r.queue) ≡ false
      → r.from_begin ≡ false
      → (receiver == nil_uuid) ≡ false
      → s.runned ≡ true
      → lookup (trim r.queue) s.queues ≡ some q
      → q.runned ≡ true
      → last_of receiver q ≤ length q.messages
      → round ≤ length q.messages - last_of receiver q
      → let (h', answer) = Service.get_messages parse_uuid show_uuid show_time (some round) r h in
        (answer ≡ err cancelled)
        × ((Service.get_messages parse_uuid show_uuid show_time none r h').1
            ≡ ok (show_uuid s.id, []))
  get_messages-lost round r h s receiver q a b c d f z run found active valid early =
      let queue = trim r.queue in
      let first = get_lem (some round) r h s receiver q a b c d f z run found active valid in
      let s' = served receiver queue q s in
      let q' = caught_up receiver q in
      let found' : lookup queue s'.queues ≡ some q' =
        lookup-insert queue queue q' s.queues ∙ rw (beq_refl queue) refl in
      let at : last_of receiver q' ≡ length q.messages = last_caught_up receiver q valid in
      let again =
        get_lem none r (record h { srv = some s' }) s' receiver q' refl b c d f z run found' active
          (omega (arith, at)) in
      let nothing : drop (last_of receiver q') q'.messages ≡ [] =
        drop-eq-nil (last_of receiver q') q.messages (omega (arith, at)) in
      rw first (
        collect_early round s.id queue _
            (omega (arith, length-drop (last_of receiver q) q.messages)),
        ap (λ (x : MsgServer × Result GrpcErr (Str × List Envelope)). x.1) again
            ∙ (ap (λ l. collect parse_uuid show_uuid show_time none s.id queue l) nothing
                ∙ (unfold collect in refl)),
      )

  -- A request for new messages that names the server, a receiver other than nil and a queue, on a running
  -- server whose queue of the name runs and is not read past its end by this receiver, when the context does
  -- not end: the answer has the server and the messages that the receiver has not read yet, in the order of
  -- the queue.
  pub get_messages-news :
      (r : MessagesRequest) (h : MsgServer) (s : MessageServer) (receiver : Uuid) (q : MQueue)
      → h.srv ≡ some s
      → parse_uuid (trim r.server_id) ≡ some s.id
      → parse_uuid r.receiver_id ≡ some receiver
      → is_empty (trim r.queue) ≡ false
      → r.from_begin ≡ false
      → (receiver == nil_uuid) ≡ false
      → s.runned ≡ true
      → lookup (trim r.queue) s.queues ≡ some q
      → q.runned ≡ true
      → last_of receiver q ≤ length q.messages
      → (Service.get_messages parse_uuid show_uuid show_time none r h).1
        ≡ ok (
          show_uuid s.id,
          map
              (envelope_of parse_uuid show_uuid show_time s.id (trim r.queue))
              (drop (last_of receiver q) q.messages),
        )
  unfolding collect
  get_messages-news r h s receiver q a b c d f z run found active valid =
      ap (λ (x : MsgServer × Result GrpcErr (Str × List Envelope)). x.1)
        (get_lem none r h s receiver q a b c d f z run found active valid)
