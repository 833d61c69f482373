-- ===== src/Lib.antt =====
-- A model of srvbus, an in-memory service bus: an event server (es), a message server (ms) and a
-- service server (s2), the bus that runs them together, and the grpc services over them.
--
-- The parts and their files:
--   Common            lists, maps and texts of Go: a string is a list of bytes, a map an association
--                     list, an identifier a number with 0 for the nil one
--   Ds                internal/ds/dataitem.go: `DataItem` with `new_item` (NewItem), `copy`, `read`
--   Es.Names          the paths of es/es.go and es/topic.go: `names` (split, trim, drop the empty),
--                     `update_to_absolute` (update2Absolute), `pick_name` and `extend_branch` (AddTopic)
--   Es.Event          es/event.go: events, envelopes, and the errors of the package
--   Es.Filter         es/subscriptions.go: the filters and `filter`
--   Es.Subscription   es/subscriptions.go: `subscription`, `sendEvent`, and `startSub` of es/topic.go
--   Es.Topic          es/topic.go: the tree of topics and the loop of a topic
--   Es.Topic.Info     es/topic.go, es/es.go: `TopicInfo`, its listings and its text
--   Es.Server         es/es.go: `EventServer` with `start` (Run), `add_topic`, `remove_topic`,
--                     `subscribe_topics` (Subscribe), `add_event`, `emit_event`
--   Es.Server.Emitter what the methods `EmitEvent` of the other servers share
--   Ms.Message        ms/message.go: messages with `new_message` (NewMsg)
--   Ms.Queue          ms/mqueue.go: `MQueue` with `put_messages`, `get_messages` and its loop `register`
--   Ms.Server         ms/mserver.go: `MessageServer` with `run`, `put` (PutMessages), `get` (GetMessages)
--   S2.Service        s2/s2.go: `ServiceRecord` and the states of a service
--   S2.Server         s2/s2.go: `ServiceServer` with `exec_service`, `add_service`, `stop_service`,
--                     `resume_service`
--   S2.Steps          s2/s2.go: the loop and the goroutines, as steps
--   S2.Waiting        s2/s2.go: `wait_for_service` (WaitForService)
--   S2.Stat, S2.Printing   s2/s2.go: `stat` (Stat) and `print` (Stat.String)
--   S2.Ready          s2/services.go: the ready services, `new_put_service`, `new_get_service`, `run_get`
--   Bus               srvbus.go: `ServiceBus` with `new`, `run`, `emit_event`, and `halt` for the end
--   Bus.Steps         srvbus.go: what happens to a bus, with the steps of its servers
--   Grpc.Messages     api/grpc/msgrpc/msgrpc.go: `send_messages`, `get_messages`, `has_queue`, `run`
--   Grpc.Events       api/grpc/esgrpc/esgrpc.go: the handlers on topics and events, `id_of` (ID), `run`
--   Grpc.Events.Streams   api/grpc/esgrpc/esgrpc.go: `begin_subscribe`, `register` and `finish` (Subscribe),
--                     `send_events`, `stop_stream` (StopSubscriptionStream), `check_subs_stream`
--   Grpc.Bus          api/grpc/sbgrpc: `run`, `get_ms` (GetMessageServer), `get_es` (GetEventServer)
--   Grpc.Bus.Steps    api/grpc/sbgrpc: what happens to a bus service, with the steps of its bus
--
-- The message server, the service server and the bus emit events into one event server. It is a part of
-- the state of each; on a bus, `share` stores what became of it in all of them. A bus service
-- and the services that it makes are over the servers of one bus: `share_bus`, `share_messages` and
-- `share_events` do the same for these. The event server keeps
-- its topics in a tree; each topic keeps its events and subscriptions, and each subscription the
-- goroutines that send to it.
--
-- Methods are functions from the state, with an error beside the new state. A method is one atomic
-- step; the interleaving of goroutines is a step relation (`Es.Subscription.Steps`, `Es.Server.Steps`,
-- `Ms.Queue.Steps`, `Ms.Server.Steps`, `S2.Steps`, `Bus.Steps`, `Grpc.Bus.Steps`): goroutines that wait
-- are lists in the state, and those of `updateSubs` in the data of their topic. Where a schedule is claimed to
-- exist, `Turns` has only steps of goroutines that are there, and no call and no new goroutine. The lock
-- of the service server is modelled where a call holds it while it waits; what its loop does with a request
-- after it has let the lock go is one step with taking it. `startSub` runs with the call of `subscribe` that
-- starts it. The time and new identifiers are arguments, as are `uuid.Parse` and the texts of identifiers
-- and times. Reading a whole `io.Reader` is the list of bytes that it gives and how it ends.
--
-- `emit_event` of the event server has fuel, since adding the server's own topic emits an event in
-- turn: 3 is enough, because `Run` gives that topic its name, and without a name the second call finds
-- the topic there already and emits nothing. The reading loop of `S2.Ready` has the fuel 2, of which a
-- run that reads uses 1. `id_of` of the event service counts its calls. Everything else is structural
-- recursion.
--
-- Not modelled: the transport of grpc and the code that protoc generates; logging; the interface
-- es/emitter.go, whose one method the servers have as `emit_event`; the examples; the channels by which a
-- read of a queue, and a ready service, hand over their messages.
pub mod Bus
pub mod Common
pub mod Ds
pub mod Grpc
pub mod Es
pub mod Ms
pub mod S2
