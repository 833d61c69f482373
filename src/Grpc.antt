-- ===== src/Grpc.antt =====
-- api/grpc: the servers of the bus behind grpc. The transport and the code that protoc generates are not
-- modelled: a request is a record of its fields, and a handler a function. `parse_uuid` is `uuid.Parse` and
-- `show_uuid` the text of an identifier, both of the package uuid; `show_time` is the text of a time.
pub mod Messages
pub mod Bus
pub mod Events
use srvbus.Common.{ℕ, Option, none, some, Uuid, nat_eq, Result, ok, err, ◌==◌, if◌then◌else◌}
use srvbus.Common.Text.{Str}
use srvbus.Es.Event.{EsErr}
use srvbus.Ms.Message.{MsErr}
use srvbus.Bus.{BusErr}

pub data GrpcErr : Type 0 where
  no_host already_runned not_runned listen_failed empty_queue_name no_sender no_receiver cancelled :
      GrpcErr
  invalid_server_id invalid_subscriber invalid_stream : GrpcErr
  other_server : Uuid → Uuid → GrpcErr
  no_topic : Str → GrpcErr
  known_stream no_stream : Uuid → GrpcErr
  stream_failed not_implemented panics : GrpcErr
  message_server_failed : MsErr → GrpcErr
  event_server_failed : EsErr → GrpcErr
  bus_failed : BusErr → GrpcErr

-- `checkServerID` of both services, for the host server's identifier
unfoldable pub check_server_id : (Str → Option Uuid) → Uuid → Str → Result GrpcErr Uuid
check_server_id parse_uuid own id = elim (parse_uuid id) [
  | none ↦ err invalid_server_id
  | some srv_id ↦ if own == srv_id then ok srv_id else err (other_server own srv_id)
]
