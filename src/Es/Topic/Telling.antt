-- ===== src/Es/Topic/Telling.antt =====
-- es/topic.go: what an event, with the `updateSubs` that it starts, does to the subscriptions of a topic.
use srvbus.Common.{
  ℕ, zero, suc, ◌≡◌, refl, ap, ◌∙◌, true, none, some, List, [], ◌∷◌, ◌++◌, map, arith, Uuid, nat_eq,
  length, take, drop, drop-append_of_le, take-append_of_le, drop-length, Map, lookup, append_nil,
}
use srvbus.Common.Int.{pred_ℕ}
use srvbus.Es.Event.{EsErr, Envelope, check_envelope}
use srvbus.Es.Subscription.{Subscription, Task, is_turn, start_send}
use srvbus.Es.Topic.{TopicData, stored, update_subs, process_event, run_update}

-- after n events, the turn of a new subscription is the next one
pub is_turn-pred : (n : ℕ) → is_turn (pred_ℕ n) n ≡ true
unfolding is_turn
is_turn-pred zero = refl
is_turn-pred (suc n) = ground arith

pub update_subs-some :
    (who : Uuid) (t : Task) (m : Map Uuid (List Subscription)) (ss : List Subscription)
    → lookup who m ≡ some ss
    → lookup who (update_subs t m) ≡ some (map (start_send t) ss)
unfolding update_subs lookup
update_subs-some who t [] ss h = absurd (ground arith)
update_subs-some who t ((x, rs) ∷ m) ss h = ground (arith, update_subs-some who t m ss)

pub map-snoc :
    (t : Task) (xs : List Subscription) (x : Subscription)
    → map (start_send t) (xs ++ x ∷ []) ≡ map (start_send t) xs ++ start_send t x ∷ []
map-snoc t [] x = refl
map-snoc t (y ∷ xs) x = ap (λ l. start_send t y ∷ l) (map-snoc t xs x)

-- the task of an event
abbrev pub task_of : Envelope → ℕ → TopicData → Task
task_of ee now d = record { ee = stored ee now (length d.events); pos = length d.events }

-- The topic takes an event, and the goroutine `updateSubs` that this starts runs; others may wait still.
abbrev pub told_event : Envelope → ℕ → TopicData → TopicData
told_event ee now d = run_update (length d.updates) (process_event ee now d)

take-length : (xs : List Task) → take (length xs) xs ≡ xs
take-length [] = refl
take-length (x ∷ xs) = ap (λ l. x ∷ l) (take-length xs)

pub told_event-fine :
    (ee : Envelope) (now : ℕ) (d : TopicData)
    → check_envelope ee ≡ none
    → told_event ee now d ≡ record d {
      events = d.events ++ stored ee now (length d.events) ∷ [];
      subs = update_subs (task_of ee now d) d.subs;
    }
unfolding process_event run_update update_subs
told_event-fine ee now d h =
    let t = task_of ee now d in
    let n = length d.updates in
    let d₁ : TopicData = record d {
      events = d.events ++ t.ee ∷ [];
      updates = d.updates ++ t ∷ [];
    } in
    let at : process_event ee now d ≡ d₁ = rw (h, process_event) refl in
    let rest : drop n (d.updates ++ t ∷ []) ≡ t ∷ [] =
      drop-append_of_le n d.updates (t ∷ []) (omega arith)
      ∙ ap (λ l. l ++ t ∷ []) (drop-length d.updates) in
    let kept : take n (d.updates ++ t ∷ []) ++ [] ≡ d.updates =
      append_nil _ ∙ take-append_of_le n d.updates (t ∷ []) (omega arith) ∙ take-length d.updates in
    ap (run_update n) at
    ∙ rw (rest, run_update) (ap (λ l. record d₁ { updates = l; subs = update_subs t d.subs }) kept)

pub told_event-subs :
    (ee : Envelope) (now : ℕ) (d : TopicData)
    → check_envelope ee ≡ none
    → (told_event ee now d).subs ≡ update_subs (task_of ee now d) d.subs
told_event-subs ee now d h = ap (λ (x : TopicData). x.subs) (told_event-fine ee now d h)

told_event-events :
    (ee : Envelope) (now : ℕ) (d : TopicData)
    → check_envelope ee ≡ none
    → (told_event ee now d).events ≡ d.events ++ stored ee now (length d.events) ∷ []
told_event-events ee now d h = ap (λ (x : TopicData). x.events) (told_event-fine ee now d h)

pub told_event-refused :
    (ee : Envelope) (now : ℕ) (d : TopicData) (x : EsErr)
    → check_envelope ee ≡ some x
    → told_event ee now d ≡ d
unfolding process_event run_update update_subs
told_event-refused ee now d x h =
    let at : process_event ee now d ≡ d = rw (h, process_event) refl in
    ap (run_update (length d.updates)) at ∙ rw (drop-length d.updates, run_update) refl

pub length-snoc : (ees : List Envelope) (ee : Envelope) → length (ees ++ ee ∷ []) ≡ suc (length ees)
length-snoc [] ee = refl
length-snoc (x ∷ ees) ee = ap suc (length-snoc ees ee)

pub told_event-length :
    (ee : Envelope) (now : ℕ) (d : TopicData)
    → check_envelope ee ≡ none
    → length (told_event ee now d).events ≡ suc (length d.events)
told_event-length ee now d h = ap length (told_event-events ee now d h) ∙ length-snoc d.events _

-- the topic after it has taken these envelopes, each at its time, and each followed by its `updateSubs`
abbrev pub process_all : List (Envelope × ℕ) → TopicData → TopicData
process_all [] d = d
process_all ((ee, at) ∷ later) d = process_all later (told_event ee at d)

-- the envelopes that a topic with n events stores of these
abbrev pub all_stored : ℕ → List (Envelope × ℕ) → List Envelope
all_stored n [] = []
all_stored n ((ee, now) ∷ evs) = elim (check_envelope ee) [
  | none ↦ stored ee now n ∷ all_stored (suc n) evs
  | some x ↦ all_stored n evs
]

pub all_stored_fine :
    (n : ℕ) (ee : Envelope) (now : ℕ) (evs : List (Envelope × ℕ))
    → check_envelope ee ≡ none
    → all_stored n ((ee, now) ∷ evs) ≡ stored ee now n ∷ all_stored (suc n) evs
all_stored_fine n ee now evs h = ground arith

pub all_stored_refused :
    (n : ℕ) (ee : Envelope) (now : ℕ) (evs : List (Envelope × ℕ)) (x : EsErr)
    → check_envelope ee ≡ some x
    → all_stored n ((ee, now) ∷ evs) ≡ all_stored n evs
all_stored_refused n ee now evs x h = ground arith
