-- ===== src/Ms.antt =====
-- ms: the message server. `Ms/Message` models message.go, `Ms/Queue` mqueue.go and `Ms/Server`
-- mserver.go.
pub mod Message
pub mod Queue
pub mod Server
pub mod Tests
