-- ===== src/Es.antt =====
-- es/: the event server. `Names` parses topic paths, `Event` and `Filter` are the events and the
-- tests on them, `Subscription` is one subscription and what is sent into it, `Topic` a topic with
-- its subtopics, `Server` the server over the root topics.
pub mod Names
pub mod Event
pub mod Filter
pub mod Subscription
pub mod Topic
pub mod Server
pub mod Tests
