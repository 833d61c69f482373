-- ===== src/Ms/Server.antt =====
-- ms/mserver.go: the message server and its queues. `now` is what `time.Now` answers, `show_uuid`
-- the text of an identifier. Each method is one atomic step. The event server is a part of the
-- state: the one that the server was given, if any.
pub mod Putting
pub mod Tidy
pub mod Steps
use srvbus.Common.{
  ℕ, Bool, true, false, not, ◌&&◌, ◌||◌, Option, none, some, List, [], ◌∷◌, ◌++◌, map, Uuid,
  nil_uuid, nat_eq, Result, ok, err, ◌==◌, Map, lookup, insert, if◌then◌else◌,
}
use srvbus.Common.Text.{Str, codes, slash, is_empty, trim, str_eq}
use srvbus.Es.Event.{EsErr}
use srvbus.Es.Topic.{Ctx, no_ctx, live}
use srvbus.Es.Server.{EventServer}
use srvbus.Es.Server.Emitter.{emit_via}
use srvbus.Ms.Message.{
  MsErr, no_logger, empty_queue_name, no_sender, empty_message, not_runned, already_runned,
  no_receiver, no_queue, Message,
}
use srvbus.Ms.Queue.{
  MessageEnvelope, MsgRegRequest, MQueue, count, new_queue, register, put_messages, get_messages,
}

pub record MessageServer : Type 0 where
  pub id : Uuid
  pub name : Str
  pub queues : Map Str MQueue
  pub ctx : Ctx
  pub runned : Bool
  pub e_srv : Option EventServer
  pub es_topic : Str

pub record QueueStat : Type 0 where
  pub name : Str
  m_count : ℕ

abbrev new_queue_evt : Str
new_queue_evt = codes "NEW_QUEUE_EVT"

abbrev pub new_msg_evt : Str
new_msg_evt = codes "NEW_MSG_EVT"

abbrev srv_new : Str
srv_new = codes "NEW_MSERVER_EVT"

abbrev srv_start : Str
srv_start = codes "MSERVER_START_EVT"

abbrev srv_end : Str
srv_end = codes "MSERVER_END_EVT"

abbrev default_topic_name : Str
default_topic_name = codes "/mserver"

-- `Queues`
unfoldable queue_stats : MessageServer → List QueueStat
queue_stats s = map (λ (e : Str × MQueue). record { name = e.0; m_count = count e.1 }) s.queues

-- `HasQueue`
unfoldable pub has_queue : MessageServer → Str → Bool
has_queue s queue =
    if not s.runned then false else elim (lookup queue s.queues) [ none ↦ false | some q ↦ true ]

module _ (show_uuid : Uuid → Str) (now : ℕ) where
  abbrev pub about_server : MessageServer → Str
  about_server s =
      codes "{name: \"" ++ (s.name ++ (codes "\", id: \"" ++ (show_uuid s.id ++ codes "\"}")))

  abbrev about_queue : Str → Str
  about_queue name = codes "{queue: \"" ++ (name ++ codes "\"}")

  abbrev pub about_message : Str → Str → Uuid → Str
  about_message queue name sender =
      codes "{queue: \""
      ++ (queue
          ++ (codes "\", msg_name: \""
              ++ (name ++ (codes "\", msg_sender: \"" ++ (show_uuid sender ++ codes "\"}")))))

  -- `EmitEvent`
  unfoldable pub emit_event : MessageServer → Str → Str → MessageServer
  emit_event s name descr =
      let text = if is_empty descr then about_server s else descr in
      let topic = default_topic_name ++ slash ∷ show_uuid s.id in
      let (e, at) = emit_via now topic s.id s.e_srv s.es_topic name text in
      record s { e_srv = e; es_topic = at }

  -- `New`; `fresh` is the answer of `uuid.New`
  unfoldable pub new : Uuid → Uuid → Str → Bool → Option EventServer → Result MsErr MessageServer
  unfolding emit_event
  new fresh id name has_log e_srv =
      let id' : Uuid = if id == nil_uuid then fresh else id in
      let name' : Str =
        if is_empty (trim name) then codes "MsgServer #" ++ show_uuid id' else trim name in
      let s : MessageServer = record {
        id = id';
        name = name';
        queues = [];
        ctx = no_ctx;
        runned = false;
        e_srv = e_srv;
        es_topic = [];
      } in
      if has_log then ok (emit_event s srv_new []) else err no_logger

  -- `Run`, with a context that is not done
  unfoldable pub run : MessageServer → MessageServer × Option MsErr
  unfolding emit_event
  run s =
      if s.runned
      then (s, some already_runned)
      else (emit_event (record s { queues = []; ctx = live; runned = true }) srv_start [], none)

  -- the queue that `PutMessages` finds or makes, and the server with the event of a new one
  unfoldable pub find_or_new : MessageServer → Str → MessageServer × MQueue
  unfolding emit_event new_queue
  find_or_new s queue = elim (lookup queue s.queues) [
    | some q ↦ (s, q)
    | none ↦ (emit_event s new_queue_evt (about_queue queue), new_queue queue)
  ]

  -- `q.putMessages` on the queue of the map
  unfoldable pub put_into :
      MessageServer × MQueue → Str → Uuid → List Message → MessageServer × Option MsErr
  unfolding put_messages
  put_into (s, q) queue sender msgs =
      let (q', e) = put_messages sender msgs q in
      (record s { queues = insert queue q' s.queues }, e)

  -- `PutMessages`
  unfoldable pub put : MessageServer → Uuid → Str → List Message → MessageServer × Option MsErr
  unfolding find_or_new put_into
  put s sender queue [] =
      if is_empty (trim queue)
      then (s, some empty_queue_name)
      else if sender == nil_uuid
      then (s, some no_sender)
      else (s, some empty_message)
  put s sender queue (m ∷ msgs) =
      if is_empty (trim queue)
      then (s, some empty_queue_name)
      else if sender == nil_uuid
      then (s, some no_sender)
      else if not s.runned
      then (s, some not_runned)
      else put_into (find_or_new s (trim queue)) (trim queue) sender (m ∷ msgs)

  -- the loop of a queue takes a request: the queue changes and an event is emitted
  unfoldable pub receive : MessageServer → Str → MsgRegRequest → MQueue → MessageServer
  unfolding emit_event register
  receive s queue mrr q =
      let s' = record s { queues = insert queue (register now mrr q) s.queues } in
      if mrr.sender == nil_uuid
      then s'
      else emit_event s' new_msg_evt (about_message q.name mrr.msg.item.name mrr.sender)

-- what a read leaves in the map of queues
unfoldable pub got :
    MessageServer
    → Str
    → Result MsErr (MQueue × List MessageEnvelope)
    → Result MsErr (MessageServer × List MessageEnvelope)
got s queue (err e) = err e
got s queue (ok (q, res)) = ok (record s { queues = insert queue q s.queues }, res)

-- `GetMessages`, with the messages that the channel carries
unfoldable pub get :
    MessageServer → Uuid → Str → Bool → Result MsErr (MessageServer × List MessageEnvelope)
unfolding got get_messages
get s receiver queue from_begin =
    if receiver == nil_uuid
    then err (no_receiver queue)
    else if not s.runned
    then err not_runned
    else elim (lookup queue s.queues) [
      | none ↦ err (no_queue queue)
      | some q ↦ got s queue (get_messages receiver from_begin q)
    ]

-- the checks of `WaitForQueue`
unfoldable pub wait_for_queue : MessageServer → Str → Option MsErr
wait_for_queue s queue =
    if not s.runned then some not_runned else if is_empty queue then some empty_queue_name else none

-- The goroutine of `WaitForQueue`: what the channel gets, from the answers of `HasQueue` at the
-- seconds before the context is done.
unfoldable wait_loop : List Bool → Bool
wait_loop [] = false
wait_loop (found ∷ later) = let rest = wait_loop later in if found then true else rest
