-- ===== src/Es/Server/Told.antt =====
-- Events from `AddEvent` to a subscriber of their topic.
use srvbus.Common.{
  ℕ, suc, ◌≡◌, refl, sym, ap, ◌∙◌, true, false, none, some, List, [], ◌∷◌, ◌++◌, arith, Uuid,
  nil_uuid, nat_eq, beq_refl, ◌==◌, length, lookup, append_nil,
}
use srvbus.Common.Int.{negsuc}
use srvbus.Common.Text.{Str}
use srvbus.Es.Event.{Event, Envelope, check_envelope}
use srvbus.Es.Subscription.{SubscrReq, Subscription, Task, check_request}
use srvbus.Es.Subscription.Steps.{Turns}
use srvbus.Es.Subscription.Draining.{tasks_from}
use srvbus.Es.Topic.{TopicData, Forest, node, stored, process_event, run_update}
use srvbus.Es.Topic.Telling.{told_event, told_event-fine, process_all, all_stored, all_stored_fine}
use srvbus.Es.Topic.Following.{begun_with, subscription-follows}
use srvbus.Es.Topic.Subscribing.{
  Runs, with_newest, subscribed_new, subscribe-news, add_subscription-newest,
}
use srvbus.Es.Server.{EventServer, keys, find_topic, add_event}
use srvbus.Es.Server.Emitting.{IsNamed}
use srvbus.Es.Server.Subscribing.{subscribe_topics}
use srvbus.Es.Server.Subscriptions.{subscribe-reach, subscribe-runned}
use srvbus.Es.Server.View.{topics_at}
use srvbus.Es.Server.Writing.{topics_at-found}
use srvbus.Es.Server.Steps.{Step, map_forest, update, update_topic}
use srvbus.Es.Server.Delivery.{sent_envelope, add_event-deliver, topics_at-map_forest, mapped}

-- Events that one sender adds to a topic, each without an error and with two steps of the server after it.
pub data Published (topic : Str) (sender : Uuid)
    : List (Event × ℕ) → EventServer → EventServer → Type 0 where
  here : {s : EventServer} → Published topic sender [] s s
  next :
      {s t v u : EventServer} {evt : Event} {now : ℕ} {evs : List (Event × ℕ)}
      → (add_event s topic (some evt) sender).1 ≡ none
      → Step (add_event s topic (some evt) sender).0 t
      → Step t v
      → Published topic sender evs v u
      → Published topic sender ((evt, now) ∷ evs) s u

-- the envelopes of these
abbrev enveloped : Str → Uuid → List (Event × ℕ) → List (Envelope × ℕ)
enveloped topic sender [] = []
enveloped topic sender ((evt, now) ∷ evs) =
    (sent_envelope evt topic sender, now) ∷ enveloped topic sender evs

-- what these events are on a topic that has n events
abbrev pub told : Str → Uuid → ℕ → List (Event × ℕ) → List Task
told topic sender n [] = []
told topic sender n ((evt, now) ∷ evs) =
    record { ee = stored (sent_envelope evt topic sender) now n; pos = n }
    ∷ told topic sender (suc n) evs

module _ (topic : Str) (sender : Uuid) (known : (sender == nil_uuid) ≡ false) where
  told-all_stored :
      (n : ℕ) (evs : List (Event × ℕ))
      → tasks_from n (all_stored n (enveloped topic sender evs)) ≡ told topic sender n evs
  told-all_stored n [] = refl
  told-all_stored n ((evt, now) ∷ evs) =
      let ee = sent_envelope evt topic sender in
      let fine : check_envelope ee ≡ none = unfold check_envelope in rw known refl in
      ap (tasks_from n) (all_stored_fine n ee now (enveloped topic sender evs) fine)
      ∙ ap (λ l. record { ee = stored ee now n; pos = n } ∷ l) (told-all_stored (suc n) evs)

  told_event-runned :
      (ee : Envelope) (now : ℕ) (d : TopicData)
      → check_envelope ee ≡ none
      → d.runned ≡ true
      → (told_event ee now d).runned ≡ true
  told_event-runned ee now d fine h =
      ap (λ (x : TopicData). x.runned) (told_event-fine ee now d fine) ∙ h

  process_event-addr :
      (ee : Envelope) (now : ℕ) (d : TopicData) → (process_event ee now d).addr ≡ d.addr
  process_event-addr ee now d = unfold process_event in ground arith

  -- One event: it is added, the topic takes it, and its goroutine `updateSubs` runs.
  pub published_one :
      (evt : Event) (now : ℕ) (s : EventServer) (d : TopicData)
      → s.runned ≡ true
      → topics_at s.topics (keys topic) ≡ some d
      → d.runned ≡ true
      → (t : EventServer) × (v : EventServer) × ((add_event s topic (some evt) sender).1 ≡ none)
        × Step (add_event s topic (some evt) sender).0 t
        × Step t v
        × (topics_at v.topics (keys topic)
            ≡ some (told_event (sent_envelope evt topic sender) now d))
        × (v.runned ≡ true)
  published_one evt now s d run at active =
      let (t, fine, step, here_t, others, sends, runs_on) =
        add_event-deliver s topic evt sender d now run known at active in
      let ee = sent_envelope evt topic sender in
      let place = length d.updates in
      let d₁ = process_event ee now d in
      let g = update d.addr place in
      let hit : g d₁ ≡ run_update place d₁ =
        rw (process_event-addr ee now d, beq_refl d.addr) refl in
      (
        t,
        record t { topics = map_forest g t.topics },
        fine,
        step,
        update_topic d.addr place,
        topics_at-map_forest g t.topics (keys topic) ∙ ap (mapped g) here_t ∙ ap (λ x. some x) hit,
        runs_on,
      )

  published :
      (evs : List (Event × ℕ)) (s : EventServer) (d : TopicData)
      → s.runned ≡ true
      → topics_at s.topics (keys topic) ≡ some d
      → d.runned ≡ true
      → (u : EventServer) × Published topic sender evs s u
        × (topics_at u.topics (keys topic) ≡ some (process_all (enveloped topic sender evs) d))
  published [] s d run at active = (s, here, at)
  published ((evt, now) ∷ evs) s d run at active =
      let (t, v, fine, takes, updates, here_v, runs_on) = published_one evt now s d run at active in
      let ee = sent_envelope evt topic sender in
      let ok_ee : check_envelope ee ≡ none = unfold check_envelope in rw known refl in
      let (u, p, at_u) =
        published evs v (told_event ee now d) runs_on here_v
          (told_event-runned ee now d ok_ee active) in
      (u, next fine takes updates p, at_u)

module _ (show_uuid : Uuid → Str) (now : ℕ) (s : EventServer) (who : Uuid) where
  pub subscribed-at :
      (sr : SubscrReq) (n : ℕ) (d : TopicData) (f : Forest)
      → s.runned ≡ true
      → (who == nil_uuid) ≡ false
      → IsNamed s
      → check_request sr ≡ none
      → sr.start_pos ≡ negsuc n
      → find_topic s sr.topic ≡ some (node d f)
      → Runs (node d f)
      → topics_at (subscribe_topics show_uuid now s who (sr ∷ [])).0.topics (keys sr.topic)
        ≡ some (with_newest who sr d)
  subscribed-at sr n d f run known named checked new found runs =
      let s₁ = (subscribe_topics show_uuid now s who (sr ∷ [])).0 in
      let (fine, reach, apart) =
        subscribe-reach show_uuid now s who run known named sr n (node d f) checked new found
          runs in
      ap (topics_at s₁.topics) (sym (append_nil (keys sr.topic)))
      ∙ reach []
      ∙ ap (subscribed_new who sr 0)
          (topics_at-found (keys sr.topic) (node d f) s.topics [] (unfold find_topic in found))
      ∙ (ground arith)

  -- A request without filters for new events at a topic that runs, as do all below it, by a subscriber that is
  -- not nil, on a running server whose own topic has a name. Then a sender that is not nil adds events to the
  -- topic: each is added without an error, and with the server's steps between them the goroutines for the
  -- subscription can run so that all have ended, and the channel of the request was given just these events,
  -- in their order and under the positions after those of the events that the topic had.
  pub subscribe-told :
      (sr : SubscrReq) (n : ℕ) (d : TopicData) (f : Forest) (evs : List (Event × ℕ)) (sender : Uuid)
      → s.runned ≡ true
      → (who == nil_uuid) ≡ false
      → IsNamed s
      → check_request sr ≡ none
      → sr.start_pos ≡ negsuc n
      → sr.filters ≡ []
      → find_topic s sr.topic ≡ some (node d f)
      → Runs (node d f)
      → d.runned ≡ true
      → (sender == nil_uuid) ≡ false
      → let s₁ = (subscribe_topics show_uuid now s who (sr ∷ [])).0 in
        (s₂ : EventServer) × Published sr.topic sender evs s₁ s₂
        × (d₂ : TopicData) × (topics_at s₂.topics (keys sr.topic) ≡ some d₂)
        × (others : List Subscription) × (sn : Subscription) × (lookup who d₂.subs
            ≡ some (others ++ sn ∷ []))
        × (u : Subscription) × Turns false sn u
        × (u.waiting ≡ [])
        × (u.sent ≡ told sr.topic sender (length d.events) evs)
        × (u.e_ch ≡ sr.sub_ch)
  subscribe-told sr n d f evs sender run known named checked new plain found runs active sent_by =
      let s₁ = (subscribe_topics show_uuid now s who (sr ∷ [])).0 in
      let t = node d f in
      let runs_on =
        subscribe-runned show_uuid now s who run known named sr t checked found
          (subscribe-news t who sr n new runs) in
      let at = subscribed-at sr n d f run known named checked new found runs in
      let (s₂, p, at₂) =
        published sr.topic sender sent_by evs s₁ (with_newest who sr d) runs_on at active in
      let es = enveloped sr.topic sender evs in
      let (others, sn, last, u, r, empty, sent, ch) =
        subscription-follows who (length d.events) sr d (with_newest who sr d) es plain
          (rw new refl) (add_subscription-newest who sr n d new) in
      (
        s₂,
        p,
        process_all es (with_newest who sr d),
        at₂,
        others,
        sn,
        last,
        u,
        r,
        empty,
        sent
            ∙ ap
                (λ k.
                  tasks_from (length d.events)
                    (begun_with k d.events ++ all_stored (length d.events) es))
                new
            ∙ told-all_stored sr.topic sender sent_by (length d.events) evs,
        ch,
      )
