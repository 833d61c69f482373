-- ===== src/Ms/Message.antt =====
-- ms/message.go: messages, and the errors of the package.
use srvbus.Common.{
  ℕ, Option, none, some, List, Uuid, nil_uuid, nat_eq, Result, ok, err, ◌==◌, ltb, length,
  if◌then◌else◌,
}
use srvbus.Common.Text.{Str}
use srvbus.Ds.{DataItem, new_item, copy}
use srvbus.Es.Event.{IoErr, eof, broken}

-- The errors of message.go, mqueue.go and mserver.go; `panics` is a run-time panic of the source.
pub data MsErr : Type 0 where
  no_logger empty_queue_name no_sender empty_message not_runned already_runned : MsErr
  read_failed : Str → MsErr
  too_large : Str → ℕ → MsErr
  stopped_queue : Str → MsErr
  no_receiver no_queue : Str → MsErr
  panics : MsErr

pub record Message : Type 0 where
  pub item : DataItem
  pub id : Uuid

-- `Message.Copy`
unfoldable copy_message : Message → Message
copy_message m = record { item = copy m.item; id = m.id }

-- 8 * kBytes
abbrev pub max_msg_data_len : ℕ
max_msg_data_len = 8192

unfoldable pub sized_message : Uuid → Str → List ℕ → Result MsErr Message
sized_message id name buf =
    if ltb max_msg_data_len (length buf)
    then err (too_large name (length buf))
    else ok (record { item = new_item name buf; id = id })

-- `NewMsg`. The reader is the answer of `ioutil.ReadAll`, `fresh` that of `uuid.New`.
unfoldable pub new_message : Uuid → Uuid → Str → List ℕ × Option IoErr → Result MsErr Message
unfolding sized_message
new_message fresh id name (buf, some broken) = err (read_failed name)
new_message fresh id name (buf, some eof) =
    sized_message (if id == nil_uuid then fresh else id) name buf
new_message fresh id name (buf, none) =
    sized_message (if id == nil_uuid then fresh else id) name buf
