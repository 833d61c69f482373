-- ===== src/Es/Server/Subscriptions.antt =====
-- What `Subscribe` and `UnSubscribe` do to the topics of a server.
use srvbus.Common.{
  ℕ, ◌≡◌, ◌≢◌, ap, sym, ◌∙◌, true, false, Option, none, some, List, [], ◌∷◌, ◌++◌, arith, Uuid,
  nil_uuid, nat_eq, ◌==◌, length, delete,
}
use srvbus.Common.Int.{negsuc}
use srvbus.Common.Text.{Str}
use srvbus.Es.Event.{EsErr, Envelope}
use srvbus.Es.Subscription.{SubscrReq, Subscription, check_request}
use srvbus.Es.Topic.{TopicData, Topic, subscribe, process_event, run_update}
use srvbus.Es.Topic.View.{view}
use srvbus.Es.Topic.Subscribing.{
  subscribed_new, Runs, subscribe-view, subscribe-news, subscribed-newest,
}
use srvbus.Es.Server.{
  EventServer, keys, find_topic, put_at, set_topic, emit_event, emit_fuel, subs_new,
}
use srvbus.Es.Server.Emitting.{IsNamed, emit_event-same}
use srvbus.Es.Server.Subscribing.{subscribe_topics, about_subscription}
use srvbus.Es.Server.View.{topics_at}
use srvbus.Es.Server.Writing.{topics_at-found, topics_at-put_at, topics_at-put_at_other}

-- the topic without the subscriptions of one subscriber
abbrev left : Uuid → TopicData → TopicData
left who d = record d { subs = delete who d.subs }

-- What may happen to a topic beside the calls: it takes an envelope, or a goroutine `updateSubs` runs.
pub data Happening : Type 0 where
  takes : (ee : Envelope) (at : ℕ) → Happening
  updates : (place : ℕ) → Happening

abbrev pub happens : List Happening → TopicData → TopicData
happens [] d = d
happens (takes ee at ∷ later) d = happens later (process_event ee at d)
happens (updates place ∷ later) d = happens later (run_update place d)

module _ (show_uuid : Uuid → Str) (now : ℕ) (s : EventServer) (who : Uuid) (run : s.runned ≡ true)
    (known : (who == nil_uuid) ≡ false) (named : IsNamed s) where
  subscribe_lem :
      (sr : SubscrReq) (t : Topic)
      → check_request sr ≡ none
      → find_topic s sr.topic ≡ some t
      → (subscribe t who sr).1 ≡ none
      → subscribe_topics show_uuid now s who (sr ∷ []) ≡ (
        emit_event emit_fuel now
            (set_topic s sr.topic (subscribe t who sr).0)
            subs_new
            (about_subscription show_uuid now who sr.topic),
        none,
      )
  unfolding subscribe_topics
  subscribe_lem sr t c f e = ground arith

  -- the topics after such a call
  subscribe-topics :
      (sr : SubscrReq) (t : Topic)
      → check_request sr ≡ none
      → find_topic s sr.topic ≡ some t
      → (subscribe t who sr).1 ≡ none
      → (subscribe_topics show_uuid now s who (sr ∷ [])).0.topics
        ≡ put_at (keys sr.topic) (subscribe t who sr).0 s.topics
  unfolding set_topic
  subscribe-topics sr t c f e =
      ap (λ (r : EventServer × Option EsErr). r.0.topics) (subscribe_lem sr t c f e)
      ∙ (emit_event-same 2 now (set_topic s sr.topic (subscribe t who sr).0) subs_new
          (about_subscription show_uuid now who sr.topic) named).topics

  pub subscribe-runned :
      (sr : SubscrReq) (t : Topic)
      → check_request sr ≡ none
      → find_topic s sr.topic ≡ some t
      → (subscribe t who sr).1 ≡ none
      → (subscribe_topics show_uuid now s who (sr ∷ [])).0.runned ≡ true
  unfolding set_topic
  subscribe-runned sr t c f e =
      ap (λ (r : EventServer × Option EsErr). r.0.runned) (subscribe_lem sr t c f e)
      ∙ (emit_event-same 2 now (set_topic s sr.topic (subscribe t who sr).0) subs_new
          (about_subscription show_uuid now who sr.topic) named).runned
      ∙ run

  -- A request for new events at a topic that runs, as do all below it, by a subscriber that is not nil, on a
  -- running server whose own topic has a name: it is no error. At the topic, and at each that lies below it no
  -- deeper than the request asks for, the subscriber has one subscription more, which begins after the events
  -- that the topic has; all other topics are as they were.
  pub subscribe-reach :
      (sr : SubscrReq) (n : ℕ) (t : Topic)
      → check_request sr ≡ none
      → sr.start_pos ≡ negsuc n
      → find_topic s sr.topic ≡ some t
      → Runs t
      → let (s', failure) = subscribe_topics show_uuid now s who (sr ∷ []) in
        (failure ≡ none)
        × ((q : List Str)
            → topics_at s'.topics (keys sr.topic ++ q)
              ≡ subscribed_new who sr (length q) (topics_at s.topics (keys sr.topic ++ q)))
        × ((p : List Str)
            → ((q : List Str) → p ≢ keys sr.topic ++ q)
            → topics_at s'.topics p ≡ topics_at s.topics p)
  unfolding find_topic
  subscribe-reach sr n t c new f runs =
      let e = subscribe-news t who sr n new runs in
      let at = subscribe-topics sr t c f e in
      (
        ap (λ (r : EventServer × Option EsErr). r.1) (subscribe_lem sr t c f e),
        (λ q.
            ap (λ x. topics_at x (keys sr.topic ++ q)) at
            ∙ topics_at-put_at (keys sr.topic) t (subscribe t who sr).0 s.topics q f
            ∙ subscribe-view who sr t q e
            ∙ subscribed-newest who sr n (length q) (view t q) new
            ∙ ap (subscribed_new who sr (length q))
                (sym (topics_at-found (keys sr.topic) t s.topics q f))),
        λ p apart.
            ap (λ x. topics_at x p) at
            ∙ topics_at-put_at_other (keys sr.topic) t (subscribe t who sr).0 s.topics p f apart,
      )
