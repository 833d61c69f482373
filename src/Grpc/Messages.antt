-- ===== src/Grpc/Messages.antt =====
-- api/grpc/msgrpc/msgrpc.go: the message service.
pub mod Sending
pub mod Storing
pub mod Getting
pub mod Taking
pub mod Orders
pub mod Histories
mod Tests
use srvbus.Common.{
  ℕ, zero, suc, Bool, true, false, not, Option, none, some, List, [], ◌∷◌, ◌++◌, map, Uuid,
  nil_uuid, Result, ok, err, leb, length, if◌then◌else◌, ◌>>=◌,
}
use Prim.Native.Nat.{◌%◌}
use srvbus.Common.Text.{Str, codes, is_empty, trim}
use srvbus.Common.Text.Decimal.{itoa}
use srvbus.Ds.{data_of}
use srvbus.Ms.Message.{MsErr, Message, new_message}
use srvbus.Ms.Queue.{MessageEnvelope}
use srvbus.Ms.Server as Host
use srvbus.Ms.Server.{MessageServer}
use srvbus.Grpc.{
  GrpcErr, no_host, already_runned, listen_failed, empty_queue_name, no_sender, no_receiver,
  cancelled, message_server_failed, check_server_id,
}

-- `none` is a nil pointer. A port is a natural number: on a negative one the listener fails.
pub record MsgServer : Type 0 where
  pub srv : Option MessageServer
  pub host : Str
  pub port : ℕ
  pub runned : Bool

-- `ID`
unfoldable pub id_of : MsgServer → Uuid
id_of h = elim h.srv [ none ↦ nil_uuid | some s ↦ s.id ]

-- `New`
unfoldable pub new : Option MessageServer → Result GrpcErr MsgServer
new none = err no_host
new (some s) = ok (record { srv = some s; host = []; port = 0; runned = false })

-- `int32`, by its 32 bits
abbrev pub int32 : ℕ → ℕ
int32 n = n % 4294967296

pub record SendMsgRequest : Type 0 where
  pub server_id : Str
  pub queue : Str
  pub sender_id : Str
  pub msgs : List (Str × Str)  -- the name and the data

pub record SendMsgResponse : Type 0 where
  pub server_id : Str
  pub sent_msg_pos : List ℕ
  pub sent_msg_id : List Str

-- What a round of the loop of `SendMessages` finds: whether the context is done, and the answers of
-- `uuid.New` and `time.Now`.
pub record Moment : Type 0 where
  pub done : Bool
  pub fresh : Uuid
  pub now : ℕ

pub record MessagesRequest : Type 0 where
  pub server_id : Str
  pub queue : Str
  pub receiver_id : Str
  pub from_begin : Bool

-- the envelope of the protocol
pub record Envelope : Type 0 where
  pub server_id : Str
  pub queue : Str
  msg_id : Str
  pub at : Str
  pub sender_id : Str
  pub name : Str
  pub content : Str  -- the source's `Data`

module _ (parse_uuid : Str → Option Uuid) where
  -- the first lines of a handler: the host server, and its identifier as the request gives it
  unfoldable pub checked : MsgServer → Str → Result GrpcErr (MessageServer × Uuid)
  unfolding check_server_id
  checked h server_id = elim h.srv [
    | none ↦ err no_host
    | some s ↦ check_server_id parse_uuid s.id (trim server_id) >>= λ srv_id. ok (s, srv_id)
  ]

  -- The queue and the sender of a request
  unfoldable pub parties : SendMsgRequest → Result GrpcErr (Str × Uuid)
  parties r =
      if is_empty (trim r.queue) then err empty_queue_name else elim (parse_uuid r.sender_id) [
        | none ↦ err no_sender
        | some sender ↦ ok (trim r.queue, sender)
      ]

module _ (show_uuid : Uuid → Str) where
  -- One round of the loop: an error of `PutMessages` is only logged.
  unfoldable pub send_one :
      Moment → Uuid → Str → Str × Str → MessageServer → MessageServer × Option Uuid
  send_one t sender queue (name, content) s =
      elim (new_message t.fresh t.fresh name (content, none)) [
        | err e ↦ (s, none)
        | ok msg ↦ ((Host.put show_uuid t.now s sender queue (msg ∷ [])).0, some t.fresh)
      ]

  -- what a round adds to the response
  unfoldable pub add_sent : ℕ → Option Uuid → SendMsgResponse → SendMsgResponse
  add_sent pos none res = res
  add_sent pos (some id) res = record res {
    sent_msg_pos = res.sent_msg_pos ++ int32 pos ∷ [];
    sent_msg_id = res.sent_msg_id ++ show_uuid id ∷ [];
  }

  -- the loop of `SendMessages`
  unfoldable pub send_each :
      (ℕ → Moment)
      → ℕ
      → Uuid
      → Str
      → List (Str × Str)
      → SendMsgResponse
      → MessageServer
      → MessageServer × Result GrpcErr SendMsgResponse
  unfolding send_one add_sent
  send_each t pos sender queue [] res s = (s, ok res)
  send_each t pos sender queue (m ∷ msgs) res s =
      let (s', sent) = send_one (t pos) sender queue m s in
      let rest = send_each t (suc pos) sender queue msgs (add_sent pos sent res) s' in
      if (t pos).done then (s, err cancelled) else rest

module _ (parse_uuid : Str → Option Uuid) (show_uuid : Uuid → Str) where
  -- `SendMessages`
  unfoldable pub send_messages :
      (ℕ → Moment) → SendMsgRequest → MsgServer → MsgServer × Result GrpcErr SendMsgResponse
  unfolding checked parties send_each
  send_messages t r h = elim (checked parse_uuid h r.server_id) [
    | err e ↦ (h, err e)
    | ok (s, srv_id) ↦ elim (parties parse_uuid r) [
      | err e ↦ (h, err e)
      | ok (queue, sender) ↦
          let start : SendMsgResponse = record {
            server_id = show_uuid srv_id;
            sent_msg_pos = [];
            sent_msg_id = [];
          } in
          let (s', res) = send_each show_uuid t 0 sender queue r.msgs start s in
          (record h { srv = some s' }, res)
    ]
  ]

  module _ (show_time : ℕ → Str) where
    unfoldable pub envelope_of : Uuid → Str → MessageEnvelope → Envelope
    envelope_of srv_id queue me = record {
      server_id = show_uuid srv_id;
      queue = queue;
      msg_id = show_uuid me.message.id;
      at = show_time me.registered;
      sender_id = show_uuid me.sender;
      name = me.message.item.name;
      content = data_of me.message.item;
    }

    -- The loop of `GetMessages`. The context is seen to be done in the round `done_at`, if in any: there is
    -- a round for each message and one for the end of the channel.
    unfoldable pub collect :
        Option ℕ → Uuid → Str → List MessageEnvelope → Result GrpcErr (Str × List Envelope)
    unfolding envelope_of
    collect none srv_id queue mes = ok (show_uuid srv_id, map (envelope_of srv_id queue) mes)
    collect (some round) srv_id queue mes =
        if leb round (length mes)
        then err cancelled
        else ok (show_uuid srv_id, map (envelope_of srv_id queue) mes)

    -- `GetMessages`
    unfoldable pub get_messages :
        Option ℕ → MessagesRequest → MsgServer → MsgServer × Result GrpcErr (Str × List Envelope)
    unfolding checked collect
    get_messages done_at r h = elim (checked parse_uuid h r.server_id) [
      | err e ↦ (h, err e)
      | ok (s, srv_id) ↦ elim (parse_uuid r.receiver_id) [
        | none ↦ (h, err no_receiver)
        | some receiver ↦
            if is_empty (trim r.queue)
            then (h, err empty_queue_name)
            else elim (Host.get s receiver (trim r.queue) r.from_begin) [
              | err e ↦ (h, err (message_server_failed e))
              | ok (s', mes) ↦
                  (record h { srv = some s' }, collect done_at srv_id (trim r.queue) mes)
            ]
      ]
    ]

  -- `HasQueue`, from the server's identifier and the queue's name in the request
  unfoldable pub has_queue : Str → Str → MsgServer → Result GrpcErr (Str × Bool)
  unfolding checked
  has_queue server_id name h = elim (checked parse_uuid h server_id) [
    | err e ↦ err e
    | ok (s, srv_id) ↦
        if is_empty (trim name)
        then err empty_queue_name
        else ok (show_uuid srv_id, Host.has_queue s (trim name))
  ]

module _ (show_uuid : Uuid → Str) (now : ℕ) where
  abbrev emitted : Option MessageServer → Str → Str → Option MessageServer
  emitted none name descr = none
  emitted (some s) name descr = some (Host.emit_event show_uuid now s name descr)

  abbrev pub about_host : Option MessageServer → Str → ℕ → Str
  about_host none host port = []
  about_host (some s) host port =
      codes "{name: \""
      ++ (s.name
          ++ (codes "\", id: \""
              ++ (show_uuid s.id
                  ++ (codes "\",type: \"grpc\", host: \""
                      ++ (host ++ (codes "\", port: " ++ (itoa port ++ codes "}")))))))

  -- `Run` until it serves; `listens` tells whether `net.Listen` succeeds
  unfoldable pub run : Bool → Str → ℕ → MsgServer → MsgServer × Option GrpcErr
  run listens host port h =
      if h.runned
      then (h, some already_runned)
      else if not listens
      then (h, some listen_failed)
      else (
        record {
          srv = emitted h.srv (codes "MS_GRPC_START_EVT") (about_host h.srv host port);
          host = host;
          port = port;
          runned = true;
        },
        none,
      )

  -- `Run` after it has served
  unfoldable pub served : MsgServer → MsgServer
  served h = record h { srv = emitted h.srv (codes "MS_GRPC_END_EVT") []; runned = false }
