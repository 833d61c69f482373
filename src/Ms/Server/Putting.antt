-- ===== src/Ms/Server/Putting.antt =====
-- `PutMessages`: what each outcome does.
use srvbus.Common.{
  ℕ, ◌≡◌, refl, true, false, none, some, List, [], ◌∷◌, ◌++◌, ◌∙◌, beq_refl, arith, Uuid, nil_uuid,
  nat_eq, ◌==◌, lookup, lookup-insert, if◌then◌else◌,
}
use srvbus.Common.Text.{Str, is_empty, trim, str_eq}
use srvbus.Ms.Message.{Message}
use srvbus.Ms.Queue.{MQueue, new_queue, requests, put_messages}
use srvbus.Ms.Server.{MessageServer, emit_event, find_or_new, put_into, put}

-- Events are not sent to the server itself.
pub record SameButEvents (s t : MessageServer) : Type 0 where
  pub queues : t.queues ≡ s.queues
  pub runned : t.runned ≡ s.runned
  pub ctx : t.ctx ≡ s.ctx
  pub id : t.id ≡ s.id
  pub name : t.name ≡ s.name

module _ (show_uuid : Uuid → Str) (now : ℕ) where
  pub emit_event-same :
      (s : MessageServer) (name descr : Str)
      → SameButEvents s (emit_event show_uuid now s name descr)
  unfolding emit_event
  emit_event-same s name descr = record {
    queues = refl;
    runned = refl;
    ctx = refl;
    id = refl;
    name = refl;
  }

  find_or_new-same :
      (s : MessageServer) (queue : Str) → SameButEvents s (find_or_new show_uuid now s queue).0
  unfolding find_or_new
  find_or_new-same s queue = ground (arith, emit_event-same s)

  -- the queue that a put goes to
  abbrev pub target : MessageServer → Str → MQueue
  target s queue = elim (lookup queue s.queues) [ none ↦ new_queue queue | some q ↦ q ]

  find_or_new-target :
      (s : MessageServer) (queue : Str) → (find_or_new show_uuid now s queue).1 ≡ target s queue
  unfolding find_or_new
  find_or_new-target s queue = ground arith

  put_checked :
      (s : MessageServer) (sender : Uuid) (queue : Str) (m : Message) (msgs : List Message)
      → s.runned ≡ true
      → is_empty (trim queue) ≡ false
      → (sender == nil_uuid) ≡ false
      → put show_uuid now s sender queue (m ∷ msgs)
        ≡ put_into show_uuid now
            (find_or_new show_uuid now s (trim queue))
            (trim queue)
            sender
            (m ∷ msgs)
  unfolding put
  put_checked s sender queue m msgs a b c = ground arith

  -- A put that passes the checks answers what the queue of the trimmed name answers, a new queue
  -- when there is none, and changes this queue as the queue's own operation does and no other.
  pub put-put_messages :
      (s : MessageServer) (sender : Uuid) (queue : Str) (m : Message) (msgs : List Message)
      → s.runned ≡ true
      → is_empty (trim queue) ≡ false
      → (sender == nil_uuid) ≡ false
      → ((put show_uuid now s sender queue (m ∷ msgs)).1
          ≡ (put_messages sender (m ∷ msgs) (target s (trim queue))).1)
        × ((k : Str)
            → lookup k (put show_uuid now s sender queue (m ∷ msgs)).0.queues ≡ (
                if trim queue == k
                then some (put_messages sender (m ∷ msgs) (target s (trim queue))).0
                else lookup k s.queues))
  unfolding put_into
  put-put_messages s sender queue m msgs a b c =
      let same = find_or_new-same s (trim queue) in
      let to = find_or_new-target s (trim queue) in
      (
        rw (put_checked s sender queue m msgs a b c, to) refl,
        λ k.
            rw (put_checked s sender queue m msgs a b c, to, same.queues)
              (lookup-insert (trim queue) k _ s.queues),
      )

  -- A put leaves the server as running as it was.
  pub put-runned :
      (s : MessageServer) (sender : Uuid) (queue : Str) (m : Message) (msgs : List Message)
      → s.runned ≡ true
      → is_empty (trim queue) ≡ false
      → (sender == nil_uuid) ≡ false
      → (put show_uuid now s sender queue (m ∷ msgs)).0.runned ≡ true
  unfolding put_into
  put-runned s sender queue m msgs a b c =
      rw (put_checked s sender queue m msgs a b c) ((find_or_new-same s (trim queue)).runned ∙ a)

  -- A put leaves the server's identifier.
  pub put-id :
      (s : MessageServer) (sender : Uuid) (queue : Str) (m : Message) (msgs : List Message)
      → s.runned ≡ true
      → is_empty (trim queue) ≡ false
      → (sender == nil_uuid) ≡ false
      → (put show_uuid now s sender queue (m ∷ msgs)).0.id ≡ s.id
  unfolding put_into
  put-id s sender queue m msgs a b c =
      rw (put_checked s sender queue m msgs a b c) (find_or_new-same s (trim queue)).id

  -- A put that passes the checks, on a queue that runs, adds the messages to those that wait.
  pub put-waits :
      (s : MessageServer) (sender : Uuid) (queue : Str) (m : Message) (msgs : List Message)
      → s.runned ≡ true
      → is_empty (trim queue) ≡ false
      → (sender == nil_uuid) ≡ false
      → (target s (trim queue)).runned ≡ true
      → let q = target s (trim queue) in
        lookup (trim queue) (put show_uuid now s sender queue (m ∷ msgs)).0.queues
        ≡ some (record q { puts = q.puts ++ requests sender (m ∷ msgs) ∷ [] })
  put-waits s sender queue m msgs a b c d =
      (put-put_messages s sender queue m msgs a b c).1 (trim queue)
      ∙ rw (beq_refl (trim queue)) (unfold put_messages in rw d refl)
