-- ===== src/Es/Server/Steps.antt =====
-- What runs beside the calls: the goroutines of `AddEvent`, the topics' loops and the contexts.
use srvbus.Common.{ℕ, false, ◌&&◌, List, ◌∷◌, ◌++◌, nat_eq, ◌==◌, ◌≡◌, if◌then◌else◌}
use srvbus.Es.Topic.{
  Ctx, no_ctx, live, cancelled, TopicData, Topic, Forest, node, nil, cons, process_event,
  run_update, stop,
}
use srvbus.Es.Server.{Send, EventServer}

abbrev pub cancel_topic_ctx : Ctx → Ctx
cancel_topic_ctx no_ctx = no_ctx
cancel_topic_ctx live = cancelled
cancel_topic_ctx cancelled = cancelled

-- A change of the data of every topic of a tree.
unfoldable mutual
  pub map_topic : (TopicData → TopicData) → Topic → Topic
  map_topic g (node d f) = node (g d) (map_forest g f)

  pub map_forest : (TopicData → TopicData) → Forest → Forest
  map_forest g nil = nil
  map_forest g (cons k t f) = cons k (map_topic g t) (map_forest g f)

-- The topic of a pointer, when its loop takes the envelope from the channel.
abbrev pub receive : ℕ → Send → TopicData → TopicData
receive now send d = if d.addr == send.target && d.runned then process_event send.ee now d else d

-- A goroutine `updateSubs` of the topic of a pointer runs.
abbrev pub update : ℕ → ℕ → TopicData → TopicData
update addr place d = if d.addr == addr then run_update place d else d

-- The loop of a topic whose context is done ends.
abbrev pub end_loop : ℕ → TopicData → TopicData
end_loop addr d =
    if d.addr == addr then elim d.ctx [ no_ctx ↦ d | live ↦ d | cancelled ↦ stop d ] else d

-- One step that is no call of a method.
pub data Step (s : EventServer) : EventServer → Type 0 where
  -- a topic's loop receives an event
  deliver :
      (now : ℕ) (send : Send) (xs ys : List Send)
      → s.sends ≡ xs ++ send ∷ ys
      → Step s (record s { topics = map_forest (receive now send) s.topics; sends = xs ++ ys })
  -- a topic's goroutine `updateSubs` starts the sends of an event
  update_topic :
      (addr place : ℕ) → Step s (record s { topics = map_forest (update addr place) s.topics })
  -- a goroutine of `AddEvent` gives up
  give_up :
      (send : Send) (xs ys : List Send)
      → s.ctx ≡ cancelled
      → s.sends ≡ xs ++ send ∷ ys
      → Step s (record s { sends = xs ++ ys })
  -- the user cancels the context, and with it those of the topics
  cancel_all :
      s.ctx ≡ live
      → Step s (record s {
        ctx = cancelled;
        topics = map_forest (λ d. record d { ctx = cancel_topic_ctx d.ctx }) s.topics;
      })
  -- the goroutine of `Run` marks the server as stopped
  halt : s.ctx ≡ cancelled → Step s (record s { runned = false })
  -- a topic's loop ends
  end_topic : (addr : ℕ) → Step s (record s { topics = map_forest (end_loop addr) s.topics })

pub data Reach (s : EventServer) : EventServer → Type 0 where
  here : Reach s s
  next : {t u : EventServer} → Reach s t → Step t u → Reach s u
