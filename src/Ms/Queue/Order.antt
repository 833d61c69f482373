-- ===== src/Ms/Queue/Order.antt =====
-- The order of the messages of one `PutMessages` in the log.
use srvbus.Common.{
  append_nil, append_assoc, ℕ, ◌≡◌, ◌∙◌, refl, sym, ap, Bool, true, false, List, [], ◌∷◌, ◌++◌,
  arith, Uuid, nat_eq, ◌==◌, Bool-cases, inl, inr,
}
use srvbus.Ms.Message.{Message}
use srvbus.Ms.Queue.{MsgRegRequest, MQueue, register, stop_loop, requests, put_messages}
use srvbus.Ms.Queue.Steps.{Step, put, deliver, give_up, finish, end_loop}
use srvbus.Ms.Queue.Pending.{
  logged, pending, all_pending, OneOf, pending-other, pending-own, all_pending-snoc, logged-append,
  OneOf-idle, OneOf-snoc, all_pending-same, OneOf-same, deliver_lem, drop_lem, finish_lem,
}

module _ (who : Uuid) where
  put_stopped :
      (sender : Uuid) (ms : List Message) (q : MQueue)
      → q.runned ≡ false
      → (put_messages sender ms q).0 ≡ q
  unfolding put_messages
  put_stopped sender ms q a = ground arith

  put_active :
      (sender : Uuid) (ms : List Message) (q : MQueue)
      → q.runned ≡ true
      → (put_messages sender ms q).0 ≡ record q { puts = q.puts ++ requests sender ms ∷ [] }
  unfolding put_messages
  put_active sender ms q a = ground arith

  -- no put of the sender itself
  abbrev pub IsBeside : {done : Bool} {q u : MQueue} → Step done q u → Type 0
  IsBeside (put sender msgs) = (sender == who) ≡ false
  IsBeside (deliver now r rs xs ys l e) = Unit
  IsBeside (give_up rs xs ys d e) = Unit
  IsBeside (finish xs ys e) = Unit
  IsBeside (end_loop d l) = Unit

  -- a history without puts of the sender
  pub data Later (done : Bool) (q : MQueue) : MQueue → Type 0 where
    here : Later done q q
    next : {u w : MQueue} → Later done q u → (st : Step done u w) → IsBeside st → Later done q w

  -- `base` stood in the log before, `msgs` is the list put
  record Inv (done : Bool) (base msgs : List Message) (q : MQueue) : Type 0 where
    one : OneOf who q.puts
    got : List Message
    lost : List Message
    log : logged who q.messages ≡ base ++ got
    split : msgs ≡ got ++ (all_pending who q.puts ++ lost)
    kept : done ≡ false → lost ≡ []

  module _ (named : (who == 0) ≡ false) (base msgs : List Message) where
    register-other :
        {done : Bool} (now : ℕ) (r : MsgRegRequest) (q : MQueue)
        → (r.sender == who) ≡ false
        → Inv done base msgs q
        → Inv done base msgs (register now r q)
    unfolding register
    register-other now r q e v = elim (Bool-cases (r.sender == 0)) [
      | inl f ↦ rw f (record {
        one = v.one;
        got = v.got;
        lost = v.lost;
        log = v.log;
        split = v.split;
        kept = v.kept;
      })
      | inr f ↦ rw f (record {
        one = v.one;
        got = v.got;
        lost = v.lost;
        log = logged-append who q.messages _ ∙ rw (e, v.log) (append_nil _);
        split = v.split;
        kept = v.kept;
      })
    ]

    -- the goroutines change, and carry the same messages of the sender
    requeue :
        {done : Bool} (q : MQueue) (ps : List (List MsgRegRequest))
        → OneOf who ps
        → all_pending who q.puts ≡ all_pending who ps
        → Inv done base msgs q
        → Inv done base msgs (record q { puts = ps })
    requeue q ps o e v = record {
      one = o;
      got = v.got;
      lost = v.lost;
      log = v.log;
      split = v.split ∙ ap (λ l. v.got ++ (l ++ v.lost)) e;
      kept = v.kept;
    }

    put-Inv :
        {done : Bool} (sender : Uuid) (ms : List Message) (q : MQueue)
        → (sender == who) ≡ false
        → Inv done base msgs q
        → Inv done base msgs (put_messages sender ms q).0
    put-Inv {done} sender ms q ne v = elim (Bool-cases q.runned) [
      | inr a ↦ rw (put_stopped sender ms q a) v
      | inl a ↦ rw (put_active sender ms q a) (
          requeue q (q.puts ++ requests sender ms ∷ [])
            (OneOf-snoc who q.puts _ (pending-other who sender ms ne) v.one)
            (sym
              (all_pending-snoc who q.puts _ ∙ rw (pending-other who sender ms ne) (append_nil _)))
            v)
    ]

    register-own :
        {done : Bool} (now : ℕ) (r : MsgRegRequest) (q : MQueue) (ps : List (List MsgRegRequest))
        → (r.sender == who) ≡ true
        → OneOf who ps
        → all_pending who q.puts ≡ r.msg ∷ all_pending who ps
        → Inv done base msgs q
        → Inv done base msgs (register now r (record q { puts = ps }))
    register-own now r q ps e o p v =
        let known : (r.sender == 0) ≡ false = ground (arith, named) in
        unfold register in
        rw known (record {
          one = o;
          got = v.got ++ r.msg ∷ [];
          lost = v.lost;
          log =
              logged-append who q.messages _ ∙ rw (e, v.log) (append_assoc base v.got (r.msg ∷ []));
          split =
              v.split ∙ rw p (sym (append_assoc v.got (r.msg ∷ []) (all_pending who ps ++ v.lost)));
          kept = v.kept;
        })

    deliver-Inv :
        {done : Bool} (now : ℕ) (q : MQueue) (r : MsgRegRequest) (rs : List MsgRegRequest)
        (xs ys : List (List MsgRegRequest))
        → q.puts ≡ xs ++ (r ∷ rs) ∷ ys
        → Inv done base msgs q
        → Inv done base msgs (register now r (record q { puts = xs ++ rs ∷ ys }))
    deliver-Inv now q r rs xs ys e v = elim (Bool-cases (r.sender == who)) [
      | inl own ↦
          let (p, o) = deliver_lem who xs r rs ys own (rw e at v.one) in
          register-own now r q (xs ++ rs ∷ ys) own o (ap (all_pending who) e ∙ p) v
      | inr other ↦
          let same : pending who (r ∷ rs) ≡ pending who rs = rw other refl in
          register-other now r (record q { puts = xs ++ rs ∷ ys }) other
            (requeue q (xs ++ rs ∷ ys) (OneOf-same who xs (r ∷ rs) rs ys same (rw e at v.one))
              (ap (all_pending who) e ∙ all_pending-same who xs (r ∷ rs) rs ys same) v)
    ]

    step-Inv :
        {done : Bool} {q u : MQueue} (st : Step done q u)
        → IsBeside st
        → Inv done base msgs q
        → Inv done base msgs u
    step-Inv {q = q} (put sender ms) ne v = put-Inv sender ms q ne v
    step-Inv {q = q} (deliver now r rs xs ys l e) b v = deliver-Inv now q r rs xs ys e v
    step-Inv (give_up rs xs ys d e) b v =
        let (more, p, o) = drop_lem who xs rs ys (rw e at v.one) in
        record {
          one = o;
          got = v.got;
          lost = more ++ v.lost;
          log = v.log;
          split =
              v.split
              ∙ ap (λ l. v.got ++ l)
                  (ap (λ l. all_pending who l ++ v.lost) e
                    ∙ ap (λ l. l ++ v.lost) p
                    ∙ append_assoc _ more v.lost);
          kept = λ f. absurd (ground arith);
        }
    step-Inv {q = q} (finish xs ys e) b v =
        let (o, p) = finish_lem who xs ys (rw e at v.one) in
        requeue q (xs ++ ys) o (ap (all_pending who) e ∙ p) v
    step-Inv (end_loop d l) b v =
        unfold stop_loop in
        record {
          one = v.one;
          got = v.got;
          lost = v.lost;
          log = v.log;
          split = v.split;
          kept = v.kept;
        }

    Later-Inv :
        {done : Bool} {q u : MQueue} → Later done q u → Inv done base msgs q → Inv done base msgs u
    Later-Inv here v = v
    Later-Inv (next h st b) v = step-Inv st b (Later-Inv h v)

module _ (who : Uuid) (msgs : List Message) (q : MQueue) (named : (who == 0) ≡ false)
    (active : q.runned ≡ true) (idle : all_pending who q.puts ≡ []) where
  after_put :
      {done : Bool} {u : MQueue}
      → Later who done (put_messages who msgs q).0 u
      → Inv who done (logged who q.messages) msgs u
  after_put {done} h =
      let start : Inv who done (logged who q.messages) msgs (put_messages who msgs q).0 =
        rw (put_active who who msgs q active) (record {
          one = OneOf-idle who q.puts (requests who msgs) idle;
          got = [];
          lost = [];
          log = sym (append_nil (logged who q.messages));
          split = sym (
              append_nil _
              ∙ all_pending-snoc who q.puts (requests who msgs)
              ∙ rw (idle, pending-own who msgs) refl);
          kept = λ f. refl;
        }) in
      Later-Inv who named (logged who q.messages) msgs h start

  -- A sender that is not nil, with nothing waiting, puts messages into an active queue and then
  -- puts no more, while others go on. At any later moment the log has, of this sender, what it had
  -- before and after that the first of the messages put, in their order.
  put_order :
      {done : Bool} {u : MQueue}
      → Later who done (put_messages who msgs q).0 u
      → (got rest : List Message) × (logged who u.messages ≡ logged who q.messages ++ got)
        × (msgs ≡ got ++ rest)
  put_order {u = u} h =
      let v = after_put h in (v.got, all_pending who u.puts ++ v.lost, v.log, v.split)

  -- A sender that is not nil, with nothing waiting, puts messages into an active queue whose context
  -- is not done and then puts no more, while others go on. At any later moment the messages put are
  -- those that the log got of this sender after the put, and then those that still wait: none is
  -- lost, repeated or out of order.
  pub put_complete :
      {u : MQueue}
      → Later who false (put_messages who msgs q).0 u
      → (got : List Message) × (logged who u.messages ≡ logged who q.messages ++ got)
        × (msgs ≡ got ++ all_pending who u.puts)
  put_complete {u} h =
      let v = after_put h in
      (v.got, v.log, v.split ∙ ap (λ l. v.got ++ l) (rw (v.kept refl) (append_nil _)))
