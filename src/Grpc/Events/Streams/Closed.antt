-- ===== src/Grpc/Events/Streams/Closed.antt =====
-- What is left of a stream on the host server once it has ended: its subscriptions, over a closed channel.
use srvbus.Common.{
  ℕ, ◌≡◌, refl, ap, ◌∙◌, true, false, none, some, List, [], ◌∷◌, ◌++◌, map, Uuid, nil_uuid, nat_eq,
  ◌==◌, length, lookup, insert, lookup-insert, beq_refl,
}
use srvbus.Common.Int.{negsuc}
use srvbus.Common.Text.{Str}
use srvbus.Es.Event.{Event, Envelope, check_envelope}
use srvbus.Es.Subscription.{
  SubscrReq, Subscription, Task, check_request, new_subscription, start_send, send_round,
}
use srvbus.Es.Subscription.Steps.{Turns, still, moves, lock, round}
use srvbus.Es.Topic.{TopicData, Forest, node, or_nil}
use srvbus.Es.Topic.Telling.{
  is_turn-pred, update_subs-some, map-snoc, task_of, told_event, told_event-subs,
}
use srvbus.Es.Topic.Subscribing.{newest, Runs, subscribe-news}
use srvbus.Es.Server.{EventServer, keys, find_topic, add_event}
use srvbus.Es.Server.Emitting.{IsNamed}
use srvbus.Es.Server.Subscribing.{subscribe_topics}
use srvbus.Es.Server.Subscriptions.{subscribe-reach, subscribe-runned}
use srvbus.Es.Server.View.{topics_at}
use srvbus.Es.Server.Steps.{Step}
use srvbus.Es.Server.Told.{published_one, subscribed-at}
use srvbus.Es.Server.Delivery.{sent_envelope}
use srvbus.Grpc.Events.{EvtServer, Subscr, filters_of, request_of, subscribe_all}
use srvbus.Grpc.Events.Streams.{add_subscriptions, finish}

-- Such a subscription, without filters, can send its first event.
newest-sends :
    (who : Uuid) (sr : SubscrReq) (ee : Envelope) (now : ℕ) (d : TopicData) (ch : ℕ)
    → sr.filters ≡ []
    → sr.sub_ch ≡ some ch
    → let t = task_of ee now d in
      (u : Subscription) × Turns false (start_send t (newest who sr d)) u
      × (u.sent ≡ t ∷ [])
      × (u.e_ch ≡ some ch)
unfolding start_send new_subscription send_round
newest-sends who sr ee now d ch f c =
    let t = task_of ee now d in
    let s = start_send t (newest who sr d) in
    let held : Subscription = record s { waiting = []; holder = some t } in
    (
      send_round t held,
      moves (moves still (lock t [] [] (rw f refl) refl refl)) (round t refl),
      rw (is_turn-pred (length d.events)) refl,
      rw (is_turn-pred (length d.events)) c,
    )

-- what the topic has for the subscriber after its first event
newest-told :
    (who : Uuid) (sr : SubscrReq) (ee : Envelope) (now : ℕ) (d : TopicData)
    → check_envelope ee ≡ none
    → let old = or_nil (lookup who d.subs) in
      let d₁ = record d { subs = insert who (old ++ newest who sr d ∷ []) d.subs } in
      let t = task_of ee now d in
      lookup who (told_event ee now d₁).subs
      ≡ some (map (start_send t) old ++ start_send t (newest who sr d) ∷ [])
newest-told who sr ee now d fine =
    let old = or_nil (lookup who d.subs) in
    let all = old ++ newest who sr d ∷ [] in
    let d₁ = record d { subs = insert who all d.subs } in
    let t = task_of ee now d in
    ap (lookup who) (told_event-subs ee now d₁ fine)
    ∙ update_subs-some who t d₁.subs all (lookup-insert who who all d.subs ∙ rw (beq_refl who) refl)
    ∙ ap (λ l. some l) (map-snoc t old (newest who sr d))

-- The stream of a call with one subscription without filters to the new events of a topic that runs, as do all
-- below it, by a subscriber that is not nil, on a running host server whose own topic has a name, has ended.
-- The next event of the topic, from any sender that is not nil, is added without an error, and the loop of
-- the topic can take it, and its `updateSubs` run; then the goroutine that this has started for the
-- subscription can send it to the channel of the call, which is closed.
pub sends_to_closed :
    (show_uuid : Uuid → Str) (now call : ℕ) (who stream : Uuid) (h : EvtServer) (s : EventServer)
    (sub : Subscr) (n : ℕ) (d : TopicData) (f : Forest) (evt : Event) (sender : Uuid)
    → h.srv ≡ some s
    → s.runned ≡ true
    → (who == nil_uuid) ≡ false
    → IsNamed s
    → check_request (request_of call sub) ≡ none
    → sub.start_pos ≡ negsuc n
    → sub.filters ≡ []
    → find_topic s sub.topic ≡ some (node d f)
    → Runs (node d f)
    → d.runned ≡ true
    → (sender == nil_uuid) ≡ false
    → let h₁ = finish call who stream (add_subscriptions show_uuid now call who (sub ∷ []) h) in
      (s₁ : EventServer) × (h₁.srv ≡ some s₁)
      × (h₁.closed ≡ h.closed ++ call ∷ [])
      × ((add_event s₁ sub.topic (some evt) sender).1 ≡ none)
      × (s₂ : EventServer) × Step (add_event s₁ sub.topic (some evt) sender).0 s₂
      × (s₃ : EventServer) × Step s₂ s₃
      × (d₂ : TopicData) × (topics_at s₃.topics (keys sub.topic) ≡ some d₂)
      × (others : List Subscription) × (sn : Subscription) × (lookup who d₂.subs
          ≡ some (others ++ sn ∷ []))
      × (u : Subscription) × Turns false sn u
      × (t : Task) × (u.sent ≡ t ∷ [])
      × (t.ee.event ≡ some evt)
      × (u.e_ch ≡ some call)
unfolding finish add_subscriptions subscribe_all request_of
sends_to_closed show_uuid now call who stream h s sub n d f evt sender a run known named checked new
      plain found runs active sent_by =
    let sr = request_of call sub in
    let t = node d f in
    let fails = subscribe-news t who sr n new runs in
    let (fine, reach, apart) =
      subscribe-reach show_uuid now s who run known named sr n t checked new found runs in
    let s₁ = (subscribe_topics show_uuid now s who (sr ∷ [])).0 in
    let old = or_nil (lookup who d.subs) in
    let d₁ : TopicData = record d { subs = insert who (old ++ newest who sr d ∷ []) d.subs } in
    let at = subscribed-at show_uuid now s who sr n d f run known named checked new found runs in
    let ee = sent_envelope evt sub.topic sender in
    let (s₂, s₃, ok_add, takes, updates, here₃, runs_on) =
      published_one sub.topic sender sent_by evt now s₁ d₁
        (subscribe-runned show_uuid now s who run known named sr t checked found fails) at active in
    let (u, sent, got, ch) =
      newest-sends who sr ee now d call (ap filters_of plain ∙ (unfold filters_of in refl)) refl in
    (
      s₁,
      rw (a) refl,
      rw (a) refl,
      ok_add,
      s₂,
      takes,
      s₃,
      updates,
      told_event ee now d₁,
      here₃,
      map (start_send (task_of ee now d)) old,
      start_send (task_of ee now d) (newest who sr d),
      newest-told who sr ee now d (unfold check_envelope in rw sent_by refl),
      u,
      sent,
      task_of ee now d,
      got,
      refl,
      ch,
    )
