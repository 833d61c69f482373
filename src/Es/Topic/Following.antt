-- ===== src/Es/Topic/Following.antt =====
-- What a subscription of a topic is given, from `Topic.subscribe` over the events that the topic processes after.
use mathlib.Core.Path.{subst}
use srvbus.Common.{
  ℕ, zero, suc, ◌+◌, ◌≡◌, refl, sym, ap, ap₂, ◌∙◌, false, true, Option, none, some, List, [], ◌∷◌,
  ◌++◌, map, arith, Uuid, nat_eq, length, lookup, insert, lookup-insert, beq_refl, append_nil,
  append_assoc, Option-cases, inl, inr,
}
use srvbus.Common.Int.{ℤ, pos, negsuc, pred_ℕ}
use srvbus.Es.Event.{Envelope, check_envelope}
use srvbus.Es.Subscription.{
  SubscrReq, Subscription, Task, has_filters, new_subscription, is_turn, start_send, start_tasks,
  start_sub,
}
use srvbus.Es.Subscription.Steps.{Turns}
use srvbus.Es.Subscription.Draining.{tasks_from, start_tasks-waiting, sends_first, drained}
use srvbus.Es.Topic.{TopicData, or_nil, add_subscription, stored, update_subs, run_update}
use srvbus.Es.Topic.Telling.{
  is_turn-pred, update_subs-some, map-snoc, told_event, told_event-subs, told_event-refused,
  length-snoc, told_event-length, process_all, all_stored, all_stored_fine, all_stored_refused,
}

-- The last subscription of a subscriber has goroutines for some envelopes, from a position on up to the events
-- of the topic, and has sent nothing yet.
pub record Awaits (who : Uuid) (first : ℕ) (ees : List Envelope) (ch : Option ℕ) (d : TopicData)
    : Type 0 where
  pub others : List Subscription
  pub sub : Subscription
  pub is_last : lookup who d.subs ≡ some (others ++ sub ∷ [])
  pub plain : has_filters sub ≡ false
  pub free : sub.holder ≡ none
  pub waits : sub.waiting ≡ tasks_from first ees
  pub turn : is_turn sub.last_readed first ≡ true
  pub unsent : sub.sent ≡ []
  pub channel : sub.e_ch ≡ ch
  pub up_to : length d.events ≡ first + length ees

tasks_from-snoc :
    (p : ℕ) (ees : List Envelope) (ee : Envelope)
    → tasks_from p (ees ++ ee ∷ [])
      ≡ tasks_from p ees ++ record { ee = ee; pos = p + length ees } ∷ []
tasks_from-snoc p [] ee = ground arith
tasks_from-snoc p (x ∷ ees) ee =
    ap (λ l. record { ee = x; pos = p } ∷ l)
      (tasks_from-snoc (suc p) ees ee
        ∙ ap (λ n. tasks_from (suc p) ees ++ record { ee = ee; pos = n } ∷ []) (omega arith))

module _ (who : Uuid) (first : ℕ) (ch : Option ℕ) where
  event-Awaits :
      (ee : Envelope) (now : ℕ) (ees : List Envelope) (d : TopicData)
      → check_envelope ee ≡ none
      → Awaits who first ees ch d
      → Awaits who first (ees ++ stored ee now (length d.events) ∷ []) ch (told_event ee now d)
  event-Awaits ee now ees d fine v =
      let n = length d.events in
      let t : Task = record { ee = stored ee now n; pos = n } in
      record {
        others = map (start_send t) v.others;
        sub = record v.sub { waiting = v.sub.waiting ++ t ∷ [] };
        is_last =
            ap (lookup who) (told_event-subs ee now d fine)
            ∙ update_subs-some who t d.subs (v.others ++ v.sub ∷ []) v.is_last
            ∙ ap (λ l. some l) (map-snoc t v.others v.sub ∙ (unfold start_send in refl));
        plain = v.plain;
        free = v.free;
        waits =
            ap₂ (λ l k. l ++ record { ee = stored ee now n; pos = k } ∷ []) v.waits v.up_to
            ∙ sym (tasks_from-snoc first ees (stored ee now n));
        turn = v.turn;
        unsent = v.unsent;
        channel = v.channel;
        up_to =
            told_event-length ee now d fine
            ∙ ap suc v.up_to
            ∙ (let e = length-snoc ees (stored ee now n) in omega arith);
      }

  process_all-Awaits :
      (evs : List (Envelope × ℕ)) (ees : List Envelope) (d : TopicData)
      → Awaits who first ees ch d
      → Awaits who first (ees ++ all_stored (length d.events) evs) ch (process_all evs d)
  process_all-Awaits [] ees d v = subst (λ l. Awaits who first l ch d) (sym (append_nil ees)) v
  process_all-Awaits ((ee, now) ∷ evs) ees d v = elim (Option-cases (check_envelope ee)) [
    | inl fine ↦
        let ee' = stored ee now (length d.events) in
        let same : (ees ++ ee' ∷ []) ++ all_stored (length (told_event ee now d).events) evs
            ≡ ees ++ all_stored (length d.events) ((ee, now) ∷ evs) =
          append_assoc ees (ee' ∷ []) _
          ∙ ap (λ n. ees ++ ee' ∷ all_stored n evs) (told_event-length ee now d fine)
          ∙ ap (λ l. ees ++ l) (sym (all_stored_fine (length d.events) ee now evs fine)) in
        subst (λ l. Awaits who first l ch (process_all evs (told_event ee now d))) same
          (process_all-Awaits evs (ees ++ ee' ∷ []) (told_event ee now d)
            (event-Awaits ee now ees d fine v))
    | inr (x, e) ↦
        rw (told_event-refused ee now d x e, all_stored_refused (length d.events) ee now evs x e)
          (process_all-Awaits evs ees d v)
  ]

-- where the goroutines of a new subscription begin on a topic with n events: at its first event, or after all
abbrev pub Begins : ℤ → ℕ → ℕ → Type 0
Begins (pos zero) n first = first ≡ 0
Begins (pos (suc k)) n first = ⊥
Begins (negsuc k) n first = first ≡ n

-- the events that it is to get at once
abbrev pub begun_with : ℤ → List Envelope → List Envelope
begun_with (pos k) ees = ees
begun_with (negsuc k) ees = []

abbrev with_sub : Uuid → Subscription → TopicData → TopicData
with_sub who ns d = record d { subs = insert who (or_nil (lookup who d.subs) ++ ns ∷ []) d.subs }

with_sub-Awaits :
    (who : Uuid) (first : ℕ) (sr : SubscrReq) (ees : List Envelope) (last : ℤ) (d : TopicData)
    → sr.filters ≡ []
    → is_turn last first ≡ true
    → length d.events ≡ first + length ees
    → Awaits who first ees sr.sub_ch (
        with_sub who
          (record (new_subscription who sr) { last_readed = last; waiting = tasks_from first ees })
          d)
with_sub-Awaits who first sr ees last d plain turn up_to = record {
  others = or_nil (lookup who d.subs);
  sub = record (new_subscription who sr) { last_readed = last; waiting = tasks_from first ees };
  is_last = lookup-insert who who _ d.subs ∙ rw (beq_refl who) refl;
  plain = unfold new_subscription in rw plain refl;
  free = unfold new_subscription in refl;
  waits = refl;
  turn = turn;
  unsent = unfold new_subscription in refl;
  channel = unfold new_subscription in refl;
  up_to = up_to;
}

add_from_begin :
    (who : Uuid) (sr : SubscrReq) (d : TopicData)
    → sr.start_pos ≡ pos 0
    → add_subscription who sr d
      ≡ some (
          with_sub who
            (record (new_subscription who sr) {
              last_readed = pos 0;
              waiting = tasks_from 0 d.events;
            })
            d)
unfolding add_subscription start_sub new_subscription
add_from_begin who sr d h =
    let ns = new_subscription who sr in
    let begun : add_subscription who sr d ≡ some (with_sub who (start_tasks 0 d.events ns) d) =
      ground arith in
    begun
    ∙ ap (λ s. some (with_sub who s d))
        (start_tasks-waiting 0 d.events ns
          ∙ ap (λ k. record ns { last_readed = k; waiting = tasks_from 0 d.events }) h)

add_for_new :
    (who : Uuid) (sr : SubscrReq) (d : TopicData) (k : ℕ)
    → sr.start_pos ≡ negsuc k
    → add_subscription who sr d
      ≡ some (
          with_sub who
            (record (new_subscription who sr) {
              last_readed = pred_ℕ (length d.events);
              waiting = [];
            })
            d)
unfolding add_subscription start_sub new_subscription
add_for_new who sr d k h = rw h refl

add_subscription-Awaits :
    (who : Uuid) (first : ℕ) (sr : SubscrReq) (d d' : TopicData) (k : ℤ)
    → sr.filters ≡ []
    → sr.start_pos ≡ k
    → Begins k (length d.events) first
    → add_subscription who sr d ≡ some d'
    → Awaits who first (begun_with k d.events) sr.sub_ch d' × (d'.events ≡ d.events)
add_subscription-Awaits who first sr d d' (pos zero) plain h at e =
    let ns : Subscription = record (new_subscription who sr) {
      last_readed = pos 0;
      waiting = tasks_from 0 d.events;
    } in
    let same : with_sub who ns d ≡ d' = cc (e, add_from_begin who sr d h) in
    subst (λ x. Awaits who first d.events sr.sub_ch x × (x.events ≡ d.events)) same
      (
        subst (λ n. Awaits who n d.events sr.sub_ch (with_sub who ns d)) (sym at)
            (with_sub-Awaits who 0 sr d.events (pos 0) d plain (unfold is_turn in refl)
              (omega arith)),
        refl,
      )
add_subscription-Awaits who first sr d d' (pos (suc k)) plain h at e = absurd at
add_subscription-Awaits who first sr d d' (negsuc k) plain h at e =
    let n = length d.events in
    let ns : Subscription = record (new_subscription who sr) {
      last_readed = pred_ℕ n;
      waiting = [];
    } in
    let same : with_sub who ns d ≡ d' = cc (e, add_for_new who sr d k h) in
    subst (λ x. Awaits who first [] sr.sub_ch x × (x.events ≡ d.events)) same
      (
        subst (λ m. Awaits who m [] sr.sub_ch (with_sub who ns d)) (sym at)
            (with_sub-Awaits who n sr [] (pred_ℕ n) d plain (is_turn-pred n) (omega arith)),
        refl,
      )

-- A topic has one event, whose `updateSubs` waits still, when a subscription without filters for new events is
-- made. Once this runs, the goroutine of the old event can send it to the subscriber.
pub old_event_sent :
    (who : Uuid) (sr : SubscrReq) (k : ℕ) (d : TopicData) (ee : Envelope) (t : Task)
    → sr.filters ≡ []
    → sr.start_pos ≡ negsuc k
    → d.events ≡ ee ∷ []
    → d.updates ≡ t ∷ []
    → t.pos ≡ 0
    → (d' : TopicData) × (add_subscription who sr d ≡ some d')
      × (others : List Subscription) × (sn : Subscription) × (lookup who (run_update 0 d').subs
          ≡ some (others ++ sn ∷ []))
      × (u : Subscription) × Turns false sn u
      × (u.sent ≡ t ∷ [])
      × (u.e_ch ≡ sr.sub_ch)
unfolding run_update new_subscription
old_event_sent who sr k d ee t plain new one waits zeroth =
    let ns : Subscription = record (new_subscription who sr) {
      last_readed = pos 0;
      waiting = [];
    } in
    let old = or_nil (lookup who d.subs) in
    let d' = with_sub who ns d in
    let made : add_subscription who sr d ≡ some d' =
      add_for_new who sr d k new
      ∙ ap (λ l. some (with_sub who (record ns { last_readed = pred_ℕ (length l) }) d)) one in
    let here : lookup who d'.subs ≡ some (old ++ ns ∷ []) =
      lookup-insert who who _ d.subs ∙ rw (beq_refl who) refl in
    let told : lookup who (run_update 0 d').subs ≡ lookup who (update_subs t d'.subs) =
      rw (waits, run_update) refl in
    let turn : is_turn (pos 0) t.pos ≡ true = rw zeroth (unfold is_turn in refl) in
    let sn = record ns { waiting = t ∷ [] } in
    (
      d',
      made,
      map (start_send t) old,
      sn,
      told
          ∙ update_subs-some who t d'.subs (old ++ ns ∷ []) here
          ∙ ap (λ l. some l) (map-snoc t old ns ∙ (unfold start_send in refl)),
      record ns { last_readed = pos t.pos; sent = ns.sent ++ t ∷ [] },
      sends_first t [] sn (unfold new_subscription in rw plain refl)
          (unfold new_subscription in refl) refl turn,
      (unfold new_subscription in refl),
      (unfold new_subscription in refl),
    )

-- A subscription without filters that begins at the first event of the topic or after all that it has, and
-- then any envelopes that the topic takes, each followed by its `updateSubs`. The goroutines that are then
-- there for the subscription, and no others, can run so that all have ended and its channel was given just the events that the topic had, when it began at the first, and then the
-- envelopes that the topic accepted, in their order and under their positions in the topic.
pub subscription-follows :
    (who : Uuid) (first : ℕ) (sr : SubscrReq) (d d' : TopicData) (evs : List (Envelope × ℕ))
    → sr.filters ≡ []
    → Begins sr.start_pos (length d.events) first
    → add_subscription who sr d ≡ some d'
    → (others : List Subscription) × (sn : Subscription) × (lookup who (process_all evs d').subs
        ≡ some (others ++ sn ∷ []))
      × (u : Subscription) × Turns false sn u
      × (u.waiting ≡ [])
      × (u.sent
          ≡ tasks_from first (begun_with sr.start_pos d.events ++ all_stored (length d.events) evs))
      × (u.e_ch ≡ sr.sub_ch)
subscription-follows who first sr d d' evs plain at e =
    let (v, same) = add_subscription-Awaits who first sr d d' sr.start_pos plain refl at e in
    let w = process_all-Awaits who first sr.sub_ch evs _ d' v in
    let (u, r, empty, sent, ch) = drained first _ w.sub w.plain w.free w.waits w.turn in
    (
      w.others,
      w.sub,
      w.is_last,
      u,
      r,
      empty,
      sent
          ∙ ap
              (λ l.
                l
                ++ tasks_from first
                    (begun_with sr.start_pos d.events ++ all_stored (length d'.events) evs))
              w.unsent
          ∙ ap (λ n. tasks_from first (begun_with sr.start_pos d.events ++ all_stored n evs))
              (ap length same),
      ch ∙ w.channel,
    )
