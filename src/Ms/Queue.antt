-- ===== src/Ms/Queue.antt =====
-- ms/mqueue.go: a queue of messages. The goroutines of `putMessages` that wait to hand over their
-- messages are the lists of `puts`. The goroutine of `getMessages` that copies its slice to a
-- channel is left out: a read answers with the slice. The events of the loop and of `newQueue` are
-- emitted by `Ms/Server`.
pub mod Steps
pub mod Reading
pub mod Pending
pub mod Order
use srvbus.Common.{
  ℕ, ◌+◌, Bool, true, false, not, Option, none, some, List, [], ◌∷◌, ◌++◌, map, Uuid, nil_uuid,
  nat_eq, Result, ok, err, ◌==◌, ltb, length, drop, Map, lookup, insert, if◌then◌else◌,
}
use srvbus.Common.Text.{Str, codes}
use srvbus.Ds.{data_of}
use srvbus.Ms.Message.{MsErr, stopped_queue, panics, Message}

pub record MessageEnvelope : Type 0 where
  pub message : Message
  pub registered : ℕ
  pub sender : Uuid

-- `MessageEnvelope.String`; the texts of an identifier and of a time are the libraries'.
unfoldable print_envelope : (Uuid → Str) → (ℕ → Str) → MessageEnvelope → Str
print_envelope show_uuid show_time me =
    let made =
      codes "MessageEnvelope(id : "
      ++ (show_uuid me.message.id ++ (codes ", registered at: " ++ show_time me.registered)) in
    let from =
      codes " from : " ++ (show_uuid me.sender ++ (codes " [key : \"" ++ me.message.item.name)) in
    made ++ (from ++ (codes "\", value : \"" ++ (data_of me.message.item ++ codes "\"])")))

pub record MsgRegRequest : Type 0 where
  pub sender : Uuid
  pub msg : Message

-- `looping` tells whether the goroutine of `loop` lives: a request without a sender ends it, and
-- leaves `runned` as it was.
pub record MQueue : Type 0 where
  pub name : Str
  pub messages : List MessageEnvelope
  pub last_readed : Map Uuid ℕ
  pub runned : Bool
  pub looping : Bool
  pub puts : List (List MsgRegRequest)

unfoldable pub count : MQueue → ℕ
count q = length q.messages

-- `newQueue`
unfoldable pub new_queue : Str → MQueue
new_queue name = record {
  name = name;
  messages = [];
  last_readed = [];
  runned = true;
  looping = true;
  puts = [];
}

-- the cases of `loop`: a registration request, at the time `now`
unfoldable pub register : ℕ → MsgRegRequest → MQueue → MQueue
register now mrr q = if mrr.sender == nil_uuid then record q { looping = false } else record q {
  messages = q.messages ++ record { message = mrr.msg; registered = now; sender = mrr.sender } ∷ [];
}

-- the cases of `loop`: the context is done
unfoldable pub stop_loop : MQueue → MQueue
stop_loop q = record q { runned = false; looping = false }

-- the requests that one goroutine of `putMessages` sends
abbrev pub requests : Uuid → List Message → List MsgRegRequest
requests sender = map (λ m. record { sender = sender; msg = m })

-- `putMessages`
unfoldable pub put_messages : Uuid → List Message → MQueue → MQueue × Option MsErr
put_messages sender msgs q =
    if not q.runned
    then (q, some (stopped_queue q.name))
    else (record q { puts = q.puts ++ requests sender msgs ∷ [] }, none)

-- a missing key of a Go map of integers reads as 0
unfoldable pub last_of : Uuid → MQueue → ℕ
last_of receiver q = elim (lookup receiver q.last_readed) [ none ↦ 0 | some n ↦ n ]

-- `getMessages`, with the slice `res` that the channel carries
unfoldable pub get_messages : Uuid → Bool → MQueue → Result MsErr (MQueue × List MessageEnvelope)
get_messages receiver from_begin q =
    if not q.runned
    then err (stopped_queue q.name)
    else let from = if from_begin then 0 else last_of receiver q in
      let res = drop from q.messages in
      if ltb (length q.messages) from
      then err panics
      else ok (record q { last_readed = insert receiver (from + length res) q.last_readed }, res)
