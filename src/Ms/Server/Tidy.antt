-- ===== src/Ms/Server/Tidy.antt =====
-- What holds of every queue of a server, whatever happened to the server.
use srvbus.Common.{
  ℕ, ◌≡◌, ◌≢◌, ◌∙◌, refl, Bool, true, false, some, List, [], ◌∷◌, ◌++◌, ◌&&◌, not, arith, Uuid,
  nil_uuid, nat_eq, ◌==◌, ok, err, lookup, insert, lookup-insert, if◌then◌else◌, Option-cases,
  Bool-cases, Result-cases, inl, inr,
}
use srvbus.Common.Text.{Str, is_empty, trim, str_eq, str_beq_iff}
use srvbus.Common.Text.Trim.{trim_idem}
use srvbus.Ms.Message.{no_queue, panics, Message}
use srvbus.Ms.Queue.{
  last_of, MessageEnvelope, MsgRegRequest, MQueue, new_queue, register, get_messages,
}
use srvbus.Ms.Queue.Steps.{put as queue_put, deliver, give_up, finish, end_loop}
use srvbus.Ms.Queue.Reading.{IsValid, step-IsValid, get_messages-IsValid, get_messages-not_panics}
use srvbus.Ms.Server.{srv_end, MessageServer, run, put, get, got, receive}
use srvbus.Ms.Server.Putting.{SameButEvents, emit_event-same, target, put-put_messages}
use srvbus.Ms.Server.Steps.{
  Step, emits, starts, puts, gets, Turn, turns, receives, finishes, gives_up, cancels, ends, halts,
  Reach, here, next,
}

-- The queues' names are trimmed, and no reader is past the end of a log.
abbrev pub IsTidy : MessageServer → Type 0
IsTidy s = (k : Str) (q : MQueue) → lookup k s.queues ≡ some q → (trim k ≡ k) × IsValid q

-- one queue is replaced or added
replace-IsTidy :
    (s t : MessageServer) (k : Str) (q : MQueue)
    → ((j : Str) → lookup j t.queues ≡ (if k == j then some q else lookup j s.queues))
    → trim k ≡ k
    → IsValid q
    → IsTidy s
    → IsTidy t
replace-IsTidy s t k q at e v h j p f = elim (Bool-cases (k == j)) [
  | inl y ↦
      let known : lookup j t.queues ≡ some q = at j ∙ rw y refl in
      let same : p ≡ q = cc (f, known) in
      let name : k ≡ j = (str_beq_iff k j).0 y in (rw⁻¹ name e, rw same v)
  | inr n ↦ h j p (ground (arith, at j))
]

insert-IsTidy :
    (s : MessageServer) (k : Str) (q : MQueue)
    → trim k ≡ k
    → IsValid q
    → IsTidy s
    → IsTidy (record s { queues = insert k q s.queues })
insert-IsTidy s k q =
    replace-IsTidy s (record s { queues = insert k q s.queues }) k q
      (λ j. lookup-insert k j q s.queues)

same-IsTidy : (s t : MessageServer) → SameButEvents s t → IsTidy s → IsTidy t
same-IsTidy s t e h = λ k q f. h k q (rw⁻¹ e.queues f)

pub empty-IsTidy : (s : MessageServer) → s.queues ≡ [] → IsTidy s
unfolding lookup
empty-IsTidy s e = λ k q f. absurd (ground arith)

module _ (show_uuid : Uuid → Str) where
  run_again : (now : ℕ) (s : MessageServer) → s.runned ≡ true → (run show_uuid now s).0 ≡ s
  unfolding run
  run_again now s a = ground arith

  run_fresh : (now : ℕ) (s : MessageServer) → s.runned ≡ false → (run show_uuid now s).0.queues ≡ []
  unfolding run
  run_fresh now s a = ground (arith, emit_event-same show_uuid now)

  put_refused :
      (now : ℕ) (s : MessageServer) (sender : Uuid) (queue : Str) (m : Message)
      (msgs : List Message)
      → (s.runned && (not (is_empty (trim queue)) && not (sender == nil_uuid))) ≡ false
      → (put show_uuid now s sender queue (m ∷ msgs)).0 ≡ s
  unfolding put
  put_refused now s sender queue m msgs h = ground arith

  put_nothing :
      (now : ℕ) (s : MessageServer) (sender : Uuid) (queue : Str)
      → (put show_uuid now s sender queue []).0 ≡ s
  unfolding put
  put_nothing now s sender queue = ground arith

  target-IsValid :
      (now : ℕ) (s : MessageServer) (queue : Str)
      → IsTidy s
      → IsValid (target show_uuid now s queue)
  target-IsValid now s queue h = elim (Option-cases (lookup queue s.queues)) [
    | inl e ↦ rw (e, target) (unfold new_queue last_of lookup in λ r. omega arith)
    | inr (q, e) ↦ rw (e, target) (h queue q e).1
  ]

  run-IsTidy : (now : ℕ) (s : MessageServer) → IsTidy s → IsTidy (run show_uuid now s).0
  run-IsTidy now s h = elim (Bool-cases s.runned) [
    | inl a ↦ rw (run_again now s a) h
    | inr a ↦ empty-IsTidy (run show_uuid now s).0 (run_fresh now s a)
  ]

  put-IsTidy :
      (now : ℕ) (s : MessageServer) (sender : Uuid) (queue : Str) (msgs : List Message)
      → IsTidy s
      → IsTidy (put show_uuid now s sender queue msgs).0
  put-IsTidy now s sender queue [] h = rw (put_nothing now s sender queue) h
  put-IsTidy now s sender queue (m ∷ msgs) h =
      elim (Bool-cases (s.runned && (not (is_empty (trim queue)) && not (sender == nil_uuid)))) [
        | inr bad ↦ rw (put_refused now s sender queue m msgs bad) h
        | inl good ↦
            replace-IsTidy s (put show_uuid now s sender queue (m ∷ msgs)).0 (trim queue) _
              (put-put_messages show_uuid now s sender queue m msgs (ground arith) (ground arith)
                (ground arith)).1
              (trim_idem queue)
              (step-IsValid {done = true} (queue_put sender (m ∷ msgs))
                (target-IsValid now s (trim queue) h))
              h
      ]

  get-IsTidy :
      (s t : MessageServer) (receiver : Uuid) (queue : Str) (b : Bool) (res : List MessageEnvelope)
      → get s receiver queue b ≡ ok (t, res)
      → IsTidy s
      → IsTidy t
  get-IsTidy s t receiver queue b res e h = elim (Option-cases (lookup queue s.queues)) [
    | inl f ↦ absurd (unfold get in ground arith)
    | inr (q, f) ↦ elim (Result-cases (get_messages receiver b q)) [
      | inl (x, g) ↦ absurd (unfold get got in ground arith)
      | inr ((q', out), g) ↦
          let known : t ≡ record s { queues = insert queue q' s.queues } =
            unfold get got in ground arith in
          rw known (
            insert-IsTidy s queue q' (h queue q f).0
              (get_messages-IsValid receiver b q q' out g (h queue q f).1) h)
    ]
  ]

  receive-same :
      (now : ℕ) (s : MessageServer) (k : Str) (r : MsgRegRequest) (q : MQueue)
      → SameButEvents
          (record s { queues = insert k (register now r q) s.queues })
          (receive show_uuid now s k r q)
  unfolding receive
  receive-same now s k r q = ground (arith, emit_event-same show_uuid now)

  receive-IsTidy :
      (now : ℕ) (s : MessageServer) (k : Str) (q : MQueue) (r : MsgRegRequest)
      (rs : List MsgRegRequest) (xs ys : List (List MsgRegRequest))
      → lookup k s.queues ≡ some q
      → q.looping ≡ true
      → q.puts ≡ xs ++ (r ∷ rs) ∷ ys
      → IsTidy s
      → IsTidy (receive show_uuid now s k r (record q { puts = xs ++ rs ∷ ys }))
  receive-IsTidy now s k q r rs xs ys f l e h =
      let q' = register now r (record q { puts = xs ++ rs ∷ ys }) in
      let s' = record s { queues = insert k q' s.queues } in
      let tidy : IsTidy s' =
        insert-IsTidy s k q' (h k q f).0
          (step-IsValid {done = true} (deliver now r rs xs ys l e) (h k q f).1) h in
      same-IsTidy s' _ (receive-same now s k r (record q { puts = xs ++ rs ∷ ys })) tidy

  Turn-IsTidy : {s t : MessageServer} → Turn show_uuid s t → IsTidy s → IsTidy t
  Turn-IsTidy {s} (receives now k q r rs xs ys f l e) h =
      receive-IsTidy now s k q r rs xs ys f l e h
  Turn-IsTidy {s} (finishes k q xs ys f e) h =
      insert-IsTidy s k _ (h k q f).0 (step-IsValid {done = true} (finish xs ys e) (h k q f).1) h

  pub step-IsTidy : {s t : MessageServer} → Step show_uuid s t → IsTidy s → IsTidy t
  step-IsTidy {s} (emits now name descr) h =
      same-IsTidy s _ (emit_event-same show_uuid now s name descr) h
  step-IsTidy {s} (starts now) h = run-IsTidy now s h
  step-IsTidy {s} (puts now sender queue msgs) h = put-IsTidy now s sender queue msgs h
  step-IsTidy {s} (gets receiver queue b t res e) h = get-IsTidy s t receiver queue b res e h
  step-IsTidy (turns st) h = Turn-IsTidy st h
  step-IsTidy {s} (gives_up k q rs xs ys c f e) h =
      insert-IsTidy s k _ (h k q f).0
        (step-IsValid {done = true} (give_up rs xs ys refl e) (h k q f).1) h
  step-IsTidy (cancels c) h = h
  step-IsTidy {s} (ends k q c f l) h =
      insert-IsTidy s k _ (h k q f).0 (step-IsValid {done = true} (end_loop refl l) (h k q f).1) h
  step-IsTidy {s} (halts now c) h =
      same-IsTidy (record s { runned = false }) _
        (emit_event-same show_uuid now (record s { runned = false }) srv_end []) h

  pub Reach-IsTidy : {s t : MessageServer} → Reach show_uuid s t → IsTidy s → IsTidy t
  Reach-IsTidy here h = h
  Reach-IsTidy (next r st) h = step-IsTidy st (Reach-IsTidy r h)

pub tidy-not_panics :
    (t : MessageServer) (receiver : Uuid) (queue : Str) (b : Bool)
    → IsTidy t
    → get t receiver queue b ≢ err panics
tidy-not_panics t receiver queue b tidy e = elim (Option-cases (lookup queue t.queues)) [
  | inl f ↦ unfold get in ground arith
  | inr (q, f) ↦ elim (Result-cases (get_messages receiver b q)) [
    | inl (x, g) ↦
        let safe = get_messages-not_panics receiver b q (tidy queue q f).1 in
        unfold get got in ground arith
    | inr ((q', out), g) ↦ unfold get got in ground arith
  ]
]

-- On a server that began without queues, `GetMessages` never panics, whatever happened since.
get-not_panics :
    (show_uuid : Uuid → Str) {s t : MessageServer} (receiver : Uuid) (queue : Str)
    (from_begin : Bool)
    → s.queues ≡ []
    → Reach show_uuid s t
    → get t receiver queue from_begin ≢ err panics
get-not_panics show_uuid {s} {t} receiver queue b none_yet h =
    tidy-not_panics t receiver queue b (Reach-IsTidy show_uuid h (empty-IsTidy s none_yet))

-- A queue name with spaces around it names no queue to `GetMessages`, whatever was put under it:
-- the answer, on a server that runs and to a receiver that is not nil, is the error of a queue that is
-- not found.
pub get-padded :
    (show_uuid : Uuid → Str) {s t : MessageServer} (receiver : Uuid) (queue : Str)
    (from_begin : Bool)
    → s.queues ≡ []
    → Reach show_uuid s t
    → t.runned ≡ true
    → (receiver == nil_uuid) ≡ false
    → trim queue ≢ queue
    → get t receiver queue from_begin ≡ err (no_queue queue)
get-padded show_uuid {s} {t} receiver queue b none_yet h a r padded =
    let tidy : IsTidy t = Reach-IsTidy show_uuid h (empty-IsTidy s none_yet) in
    elim (Option-cases (lookup queue t.queues)) [
      | inr (q, f) ↦ absurd (padded (tidy queue q f).0)
      | inl f ↦ unfold get in ground arith
    ]
