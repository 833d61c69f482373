-- ===== src/Ms/Queue/Reading.antt =====
-- What a receiver gets from a queue while others put and read messages.
use srvbus.Common.{
  append_nil, beq_refl, leb, ◌&&◌, ℕ, ◌+◌, ◌≤◌, ◌≡◌, ◌≢◌, ◌∙◌, refl, sym, ap, ap₂, Bool, true,
  false, List, [], ◌∷◌, ◌++◌, arith, Uuid, nat_eq, ◌==◌, ok, err, length, take, drop, insert,
  length-append, length-drop, lookup-insert, if◌then◌else◌, take-append-drop, take-append_of_le,
  take-length, Bool-cases, inl, inr,
}
use srvbus.Ms.Message.{panics}
use srvbus.Ms.Queue.{
  MessageEnvelope, MsgRegRequest, MQueue, register, stop_loop, put_messages, last_of, get_messages,
}
use srvbus.Ms.Queue.Steps.{Step, put, deliver, give_up, finish, end_loop}

-- No reader is past the end of the log.
abbrev pub IsValid : MQueue → Type 0
IsValid q = (r : Uuid) → last_of r q ≤ length q.messages

-- The log of `q` begins that of `u`, and the readers' places are the same.
record Grows (q u : MQueue) : Type 0 where
  more : List MessageEnvelope
  messages : u.messages ≡ q.messages ++ more
  last : (r : Uuid) → last_of r u ≡ last_of r q

still : (q u : MQueue) → u.messages ≡ q.messages → u.last_readed ≡ q.last_readed → Grows q u
unfolding last_of
still q u e f = record {
  more = [];
  messages = e ∙ sym (append_nil q.messages);
  last = λ r. rw f refl;
}

register-Grows : (now : ℕ) (m : MsgRegRequest) (q : MQueue) → Grows q (register now m q)
unfolding register last_of
register-Grows now m q = elim (Bool-cases (m.sender == 0)) [
  | inl e ↦ rw e (still q (record q { looping = false }) refl refl)
  | inr e ↦ rw e (record { more = _; messages = refl; last = λ r. refl })
]

step-Grows : {done : Bool} {q u : MQueue} → Step done q u → Grows q u
step-Grows {q = q} (put sender msgs) =
    still q _ (unfold put_messages in ground arith) (unfold put_messages in ground arith)
step-Grows {q = q} (deliver now r rs xs ys l e) =
    let g = register-Grows now r (record q { puts = xs ++ rs ∷ ys }) in
    record { more = g.more; messages = g.messages; last = λ x. unfold last_of in g.last x }
step-Grows {q = q} (give_up rs xs ys d e) = still q _ refl refl
step-Grows {q = q} (finish xs ys e) = still q _ refl refl
step-Grows {q = q} (end_loop d l) = unfold stop_loop in still q _ refl refl

-- where a read begins
abbrev start_of : Uuid → Bool → MQueue → ℕ
start_of r from_begin q = if from_begin then 0 else last_of r q

-- What a read that does not fail does: `res` is what it answers.
record Got (r : Uuid) (b : Bool) (q u : MQueue) (res : List MessageEnvelope) : Type 0 where
  messages : u.messages ≡ q.messages
  answer : res ≡ drop (start_of r b q) q.messages
  inside : start_of r b q ≤ length q.messages
  last : (x : Uuid) → last_of x u ≡ (if r == x then length q.messages else last_of x q)

-- the queue after a read
abbrev after_read : Uuid → Bool → MQueue → MQueue
after_read r b q = record q {
  last_readed = insert r (start_of r b q + length (drop (start_of r b q) q.messages)) q.last_readed;
}

get_messages_lem :
    (r : Uuid) (b : Bool) (q : MQueue)
    → q.runned ≡ true
    → start_of r b q ≤ length q.messages
    → get_messages r b q ≡ ok (after_read r b q, drop (start_of r b q) q.messages)
unfolding get_messages
get_messages_lem r b q a h = ground arith

after_read-Got :
    (r : Uuid) (b : Bool) (q : MQueue)
    → start_of r b q ≤ length q.messages
    → Got r b q (after_read r b q) (drop (start_of r b q) q.messages)
after_read-Got r b q h = record {
  messages = refl;
  answer = refl;
  inside = h;
  last = λ x.
      unfold last_of in
      ground (
        arith,
        lookup-insert r x (start_of r b q + length (drop (start_of r b q) q.messages))
            q.last_readed,
        length-drop (start_of r b q) q.messages,
      );
}

get_messages-inv :
    (r : Uuid) (b : Bool) (q u : MQueue) (res : List MessageEnvelope)
    → get_messages r b q ≡ ok (u, res)
    → Got r b q u res
get_messages-inv r b q u res e =
    elim (Bool-cases (q.runned && leb (start_of r b q) (length q.messages))) [
      | inr f ↦ absurd (unfold get_messages in ground arith)
      | inl f ↦
          let h : start_of r b q ≤ length q.messages = ground arith in
          let g = get_messages_lem r b q (ground arith) h in
          let eu : u ≡ after_read r b q = cc (e, g) in
          let er : res ≡ drop (start_of r b q) q.messages = cc (e, g) in
          rw (eu, er) (after_read-Got r b q h)
    ]

-- A history of a queue from `q0`, with what the receiver `r` has read of new messages in it. Other
-- receivers read as they like.
pub data Reads (done : Bool) (r : Uuid) (q0 : MQueue) : List MessageEnvelope → MQueue → Type 0 where
  here : Reads done r q0 [] q0
  beside :
      {out : List MessageEnvelope} {q u : MQueue}
      → Reads done r q0 out q
      → Step done q u
      → Reads done r q0 out u
  other :
      {out : List MessageEnvelope} {q : MQueue} (x : Uuid) (b : Bool) (u : MQueue)
      (res : List MessageEnvelope)
      → (x == r) ≡ false
      → Reads done r q0 out q
      → get_messages x b q ≡ ok (u, res)
      → Reads done r q0 out u
  own :
      {out : List MessageEnvelope} {q : MQueue} (u : MQueue) (res : List MessageEnvelope)
      → Reads done r q0 out q
      → get_messages r false q ≡ ok (u, res)
      → Reads done r q0 (out ++ res) u

-- what has been read is the log up to the reader's place
record Sofar (r : Uuid) (out : List MessageEnvelope) (q : MQueue) : Type 0 where
  valid : IsValid q
  exact : out ≡ take (last_of r q) q.messages

Grows-Sofar :
    {r : Uuid} {out : List MessageEnvelope} {q u : MQueue}
    → Grows q u
    → Sofar r out q
    → Sofar r out u
Grows-Sofar {r} {q = q} g v = record {
  valid =
      λ x. rw (g.last x, g.messages) (omega (arith, length-append q.messages g.more, v.valid x));
  exact =
      rw (g.last r, g.messages)
        (v.exact ∙ sym (take-append_of_le (last_of r q) q.messages g.more (v.valid r)));
}

Got-IsValid :
    {x : Uuid} {b : Bool} {q u : MQueue} {res : List MessageEnvelope}
    → Got x b q u res
    → IsValid q
    → IsValid u
Got-IsValid g v = λ y. rw (g.last y, g.messages) (ground (arith, v y))

Reads-Sofar :
    {done : Bool} {r : Uuid} {q0 u : MQueue} {out : List MessageEnvelope}
    → IsValid q0
    → last_of r q0 ≡ 0
    → Reads done r q0 out u
    → Sofar r out u
Reads-Sofar v z here = record { valid = v; exact = rw z refl }
Reads-Sofar v z (beside h st) = Grows-Sofar (step-Grows st) (Reads-Sofar v z h)
Reads-Sofar {r = r} v z (other {q = q} x b u res ne h e) =
    let g = get_messages-inv x b q u res e in
    let w = Reads-Sofar v z h in
    record { valid = Got-IsValid g w.valid; exact = rw (g.last r, ne, g.messages) w.exact }
Reads-Sofar {r = r} v z (own {q = q} u res h e) =
    let g = get_messages-inv r false q u res e in
    let w = Reads-Sofar v z h in
    record {
      valid = Got-IsValid g w.valid;
      exact =
          ap₂ (λ a b. a ++ b) w.exact g.answer
          ∙ take-append-drop (last_of r q) q.messages
          ∙ rw (g.last r, g.messages, beq_refl r) (sym (take-length q.messages));
    }

-- The invariant is kept by every step and every read, and a read keeps inside the log.
pub step-IsValid : {done : Bool} {q u : MQueue} → Step done q u → IsValid q → IsValid u
step-IsValid {q = q} st v =
    let g = step-Grows st in
    λ x. rw (g.last x, g.messages) (omega (arith, length-append q.messages g.more, v x))

pub get_messages-IsValid :
    (r : Uuid) (b : Bool) (q u : MQueue) (res : List MessageEnvelope)
    → get_messages r b q ≡ ok (u, res)
    → IsValid q
    → IsValid u
get_messages-IsValid r b q u res e = Got-IsValid (get_messages-inv r b q u res e)

pub get_messages-not_panics :
    (r : Uuid) (b : Bool) (q : MQueue) → IsValid q → get_messages r b q ≢ err panics
unfolding get_messages
get_messages-not_panics r b q v e = ground (arith, v r)

-- From a queue where no reader is past the end of the log, a receiver that has read nothing yet and
-- always asks for new messages has read, in any history of the queue, the log up to its place: each
-- message once, in the order of the log.
Reads-eq-take :
    {done : Bool} (r : Uuid) {q0 u : MQueue} {out : List MessageEnvelope}
    → IsValid q0
    → last_of r q0 ≡ 0
    → Reads done r q0 out u
    → out ≡ take (last_of r u) u.messages
Reads-eq-take r v z h = (Reads-Sofar v z h).exact

-- From a queue where no reader is past the end of the log, a receiver that has read nothing yet
-- only asks for new messages. After any history of the queue, a read of new messages from a queue
-- that is active does not panic, and with its answer the receiver has read the whole log.
pub read_catches_up :
    {done : Bool} (r : Uuid) {q0 u : MQueue} {out : List MessageEnvelope}
    → IsValid q0
    → last_of r q0 ≡ 0
    → Reads done r q0 out u
    → u.runned ≡ true
    → (w : MQueue) × (res : List MessageEnvelope) × (get_messages r false u ≡ ok (w, res))
      × (out ++ res ≡ u.messages)
read_catches_up r {u = u} v z h a =
    let x = Reads-Sofar v z h in
    (
      after_read r false u,
      drop (last_of r u) u.messages,
      get_messages_lem r false u a (x.valid r),
      ap (λ o. o ++ drop (last_of r u) u.messages) x.exact
          ∙ take-append-drop (last_of r u) u.messages,
    )

-- From a queue where no reader is past the end of the log, some receiver that has read nothing yet
-- only asks for new messages. After any history of the queue, a read from the beginning of a queue
-- that is active, by any receiver, gets the whole log, and leaves the reader's place at its end.
read_from_begin :
    {done : Bool} (r : Uuid) {q0 u : MQueue} {out : List MessageEnvelope} (x : Uuid)
    → IsValid q0
    → last_of r q0 ≡ 0
    → Reads done r q0 out u
    → u.runned ≡ true
    → (w : MQueue) × (get_messages x true u ≡ ok (w, u.messages))
      × (last_of x w ≡ length u.messages)
read_from_begin r {u = u} x v z h a =
    let g = get_messages_lem x true u a (omega arith) in
    (
      after_read x true u,
      g,
      (after_read-Got x true u (omega arith)).last x ∙ ground (arith, beq_refl x),
    )
