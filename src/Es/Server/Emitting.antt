-- ===== src/Es/Server/Emitting.antt =====
-- The events that the server emits about itself: they wait as goroutines, and change nothing else.
use srvbus.Common.{
  ℕ, suc, ◌≡◌, refl, true, false, Option, some, Uuid, arith, Result-cases, inl, inr,
}
use srvbus.Common.Text.{Str, is_empty}
use srvbus.Es.Event.{Event, new_event_with_string}
use srvbus.Es.Server.{EventServer, add_event, emit_evt, emit_event}

-- The server's own topic has a name while it runs: `Run` sets both.
abbrev pub IsNamed : EventServer → Type 0
IsNamed s = s.runned ≡ true → is_empty s.es_topic ≡ false

-- Nothing but the waiting sends differs.
pub record SameButSends (s t : EventServer) : Type 0 where
  pub topics : t.topics ≡ s.topics
  pub runned : t.runned ≡ s.runned
  pub ctx : t.ctx ≡ s.ctx
  pub es_topic : t.es_topic ≡ s.es_topic
  pub next : t.next ≡ s.next
  pub id : t.id ≡ s.id

pub same : (s : EventServer) → SameButSends s s
same s = record {
  topics = refl;
  runned = refl;
  ctx = refl;
  es_topic = refl;
  next = refl;
  id = refl;
}

add_event-same :
    (s : EventServer) (topic : Str) (evt : Option Event) (sender : Uuid)
    → SameButSends s (add_event s topic evt sender).0
unfolding add_event
add_event-same s topic evt sender = ground arith

pub emit_evt-same :
    (now : ℕ) (s : EventServer) (topic name descr : Str) (sender : Uuid)
    → SameButSends s (emit_evt now s topic name descr sender)
unfolding emit_evt
emit_evt-same now s topic name descr sender =
    elim (Result-cases (new_event_with_string name descr now)) [
      | inl (e, r) ↦ ground arith
      | inr (evt, r) ↦ ground (arith, add_event-same s topic (some evt) sender)
    ]

-- An event that the server emits about itself, while its own topic has a name, changes nothing but
-- the sends that wait.
pub emit_event-same :
    (fuel now : ℕ) (s : EventServer) (name descr : Str)
    → IsNamed s
    → SameButSends s (emit_event (suc fuel) now s name descr)
unfolding emit_event
emit_event-same fuel now s name descr h =
    ground (arith, emit_evt-same now s s.es_topic name descr s.id)
