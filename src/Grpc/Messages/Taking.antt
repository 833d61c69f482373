-- ===== src/Grpc/Messages/Taking.antt =====
-- How the loop of a queue takes the messages of one `SendMessages`: each is put by a goroutine of its own.
use mathlib.Core.Path.{subst}
use srvbus.Common.{
  ℕ, ◌≡◌, refl, sym, ap, ap₂, ◌∙◌, true, false, some, List, [], ◌∷◌, ◌++◌, map, Uuid, nil_uuid,
  nat_eq, ◌==◌, lookup, insert, lookup-insert, beq_refl, append_assoc, append_nil,
}
use srvbus.Common.Text.{Str, str_eq}
use srvbus.Ms.Message.{Message}
use srvbus.Ms.Queue.{MessageEnvelope, MsgRegRequest, MQueue, register, requests}
use srvbus.Ms.Server.{MessageServer, new_msg_evt, about_message, emit_event, receive}
use srvbus.Ms.Server.Putting.{emit_event-same}
use srvbus.Ms.Server.Steps.{Turns, moves, receives, finishes}
use srvbus.Grpc.Messages.Storing.{one_by_one}

-- An order in which all of a list can be taken out, one at a time.
pub data IsOrder {ℓ} {A : Type ℓ} : List A → List A → Type ℓ where
  done : IsOrder [] []
  take_out :
      (l xs ys : List A) (x : A) (zs : List A)
      → l ≡ xs ++ x ∷ ys
      → IsOrder (xs ++ ys) zs
      → IsOrder l (x ∷ zs)

-- a message in the log
abbrev pub logged_at : ℕ → Uuid → Message → MessageEnvelope
logged_at now sender m = record { message = m; registered = now; sender = sender }

module _ (show_uuid : Uuid → Str) (now : ℕ) (sender : Uuid) (b : (sender == nil_uuid) ≡ false)
    (k : Str) where
  -- the server has this queue, and runs as the one before
  pub record Has (s : MessageServer) (q : MQueue) (s' : MessageServer) : Type 0 where
    pub there : lookup k s'.queues ≡ some q
    pub runned : s'.runned ≡ s.runned
    pub id : s'.id ≡ s.id

  emitted-Has :
      (s s₁ : MessageServer) (q : MQueue) (name descr : Str)
      → s₁.runned ≡ s.runned
      → s₁.id ≡ s.id
      → Has s q (emit_event show_uuid now (record s₁ { queues = insert k q s₁.queues }) name descr)
  emitted-Has s s₁ q name descr r i =
      let same =
        emit_event-same show_uuid now (record s₁ { queues = insert k q s₁.queues }) name descr in
      record {
        there = ap (lookup k) same.queues ∙ lookup-insert k k q s₁.queues ∙ rw (beq_refl k) refl;
        runned = same.runned ∙ r;
        id = same.id ∙ i;
      }

  receive-Has :
      (s s₁ : MessageServer) (m : Message) (q : MQueue)
      → s₁.runned ≡ s.runned
      → s₁.id ≡ s.id
      → Has s
          (record q { messages = q.messages ++ logged_at now sender m ∷ [] })
          (receive show_uuid now s₁ k (record { sender = sender; msg = m }) q)
  unfolding receive register
  receive-Has s s₁ m q r i =
      let q' : MQueue = record q { messages = q.messages ++ logged_at now sender m ∷ [] } in
      rw b (
        emitted-Has s s₁ q' new_msg_evt (about_message show_uuid now q.name m.item.name sender) r i)

  finish-Has :
      (s s' : MessageServer) (q q' : MQueue)
      → Has s q s'
      → Has s q' (record s' { queues = insert k q' s'.queues })
  finish-Has s s' q q' h = record {
    there = lookup-insert k k q' s'.queues ∙ rw (beq_refl k) refl;
    runned = h.runned;
    id = h.id;
  }

  one_by_one-split :
      (xs : List Message) (x : Message) (ys : List Message)
      → one_by_one sender (xs ++ x ∷ ys)
        ≡ one_by_one sender xs ++ requests sender (x ∷ []) ∷ one_by_one sender ys
  one_by_one-split [] x ys = refl
  one_by_one-split (z ∷ xs) x ys = ap (λ l. requests sender (z ∷ []) ∷ l) (one_by_one-split xs x ys)

  one_by_one-join :
      (xs ys : List Message)
      → one_by_one sender xs ++ one_by_one sender ys ≡ one_by_one sender (xs ++ ys)
  one_by_one-join [] ys = refl
  one_by_one-join (x ∷ xs) ys = ap (λ l. requests sender (x ∷ []) ∷ l) (one_by_one-join xs ys)

  module _ (s : MessageServer) (base : List (List MsgRegRequest)) where
    -- one message is taken, and its goroutine ends
    one_taken :
        (s₁ : MessageServer) (q : MQueue) (xs : List Message) (x : Message) (ys : List Message)
        → Turns show_uuid s s₁
        → Has s q s₁
        → q.looping ≡ true
        → q.puts ≡ base ++ one_by_one sender (xs ++ x ∷ ys)
        → (s₃ : MessageServer) × Turns show_uuid s s₃
          × Has s
              (record q {
                messages = q.messages ++ logged_at now sender x ∷ [];
                puts = base ++ one_by_one sender (xs ++ ys);
              })
              s₃
    one_taken s₁ q xs x ys reach has live e =
        let before = base ++ one_by_one sender xs in
        let after = one_by_one sender ys in
        let r : MsgRegRequest = record { sender = sender; msg = x } in
        let split : q.puts ≡ before ++ (r ∷ []) ∷ after =
          e
          ∙ ap (λ l. base ++ l) (one_by_one-split xs x ys)
          ∙ sym (append_assoc base (one_by_one sender xs) _) in
        let taken : MQueue = record q { puts = before ++ [] ∷ after } in
        let q₂ : MQueue = record taken { messages = q.messages ++ logged_at now sender x ∷ [] } in
        let s₂ = receive show_uuid now s₁ k r taken in
        let has₂ : Has s q₂ s₂ = receive-Has s s₁ x taken has.runned has.id in
        let joined : before ++ after ≡ base ++ one_by_one sender (xs ++ ys) =
          append_assoc base (one_by_one sender xs) after
          ∙ ap (λ l. base ++ l) (one_by_one-join xs ys) in
        let q₃ : MQueue = record q₂ { puts = before ++ after } in
        let s₃ = record s₂ { queues = insert k q₃ s₂.queues } in
        (
          s₃,
          moves (moves reach (receives now k q r [] before after has.there live split))
              (finishes k q₂ before after has₂.there refl),
          subst (λ l. Has s (record q₂ { puts = l }) s₃) joined (finish-Has s s₂ q₂ q₃ has₂),
        )

    -- The messages may be taken in any order.
    pub all_taken :
        {l zs : List Message}
        → IsOrder l zs
        → (s₁ : MessageServer) (q : MQueue) → Turns show_uuid s s₁
        → Has s q s₁
        → q.looping ≡ true
        → q.puts ≡ base ++ one_by_one sender l
        → (s₃ : MessageServer) × Turns show_uuid s s₃
          × Has s
              (record q { messages = q.messages ++ map (logged_at now sender) zs; puts = base })
              s₃
    all_taken done s₁ q reach has live e = (
      s₁,
      reach,
      subst (λ x. Has s x s₁)
          (ap₂ (λ m p. record q { messages = m; puts = p }) (sym (append_nil q.messages))
            (e ∙ append_nil base))
          has,
    )
    all_taken (take_out l xs ys x zs split order) s₁ q reach has live e =
        let (s₂, reach₂, has₂) =
          one_taken s₁ q xs x ys reach has live (e ∙ ap (λ l. base ++ one_by_one sender l) split) in
        let (s₃, reach₃, has₃) = all_taken order s₂ _ reach₂ has₂ live refl in
        (
          s₃,
          reach₃,
          subst (λ l. Has s (record q { messages = l; puts = base }) s₃)
              (append_assoc q.messages (logged_at now sender x ∷ []) _) has₃,
        )
