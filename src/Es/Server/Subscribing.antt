-- ===== src/Es/Server/Subscribing.antt =====
-- `Subscribe` and `UnSubscribe` of es/es.go.
use srvbus.Common.{
  ℕ, not, Option, none, some, List, [], ◌∷◌, ◌++◌, Uuid, nil_uuid, nat_eq, ◌==◌, if◌then◌else◌,
}
use srvbus.Common.Text.{Str, codes}
use srvbus.Es.Event.{EsErr, not_runned, no_subscriber, no_topic, wrapped}
use srvbus.Es.Subscription.{SubscrReq, check_request}
use srvbus.Es.Topic.{node, subscribe, unsubscribe}
use srvbus.Es.Server.{EventServer, find_topic, set_topic, emit_event, emit_fuel, subs_new, subs_del}

module _ (show_uuid : Uuid → Str) (now : ℕ) where
  abbrev pub about_subscription : Uuid → Str → Str
  about_subscription who topic =
      codes "{subscriber_id: \""
      ++ (show_uuid who ++ (codes "\", topic: \"" ++ (topic ++ codes "\"}")))

  abbrev pub about_cancelling : Uuid → Str → Str
  about_cancelling who topic =
      codes "{subscriber_id: \""
      ++ (show_uuid who ++ (codes "\", topic: \"" ++ (topic ++ codes "\"")))

  -- one round of the loop of `Subscribe`
  unfoldable pub subscribe_one : EventServer → Uuid → SubscrReq → EventServer × Option EsErr
  subscribe_one s who sr = elim (check_request sr) [
    | some e ↦ (s, some (wrapped e))
    | none ↦ elim (find_topic s sr.topic) [
      | none ↦ (s, some (no_topic sr.topic))
      | some t ↦
          let (t', e) = subscribe t who sr in
          let s' = set_topic s sr.topic t' in
          elim e [
            | some x ↦ (s', some (wrapped x))
            | none ↦ (emit_event emit_fuel now s' subs_new (about_subscription who sr.topic), none)
          ]
    ]
  ]

  unfoldable pub subscribe_each : EventServer → Uuid → List SubscrReq → EventServer × Option EsErr
  unfolding subscribe_one
  subscribe_each s who [] = (s, none)
  subscribe_each s who (sr ∷ srs) =
      let (s', e) = subscribe_one s who sr in
      let rest = subscribe_each s' who srs in elim e [ some x ↦ (s', some x) | none ↦ rest ]

  -- `Subscribe`
  unfoldable pub subscribe_topics : EventServer → Uuid → List SubscrReq → EventServer × Option EsErr
  unfolding subscribe_each
  subscribe_topics s who srs =
      if not s.runned
      then (s, some not_runned)
      else if who == nil_uuid
      then (s, some no_subscriber)
      else subscribe_each s who srs

  -- one round of the loop of `UnSubscribe`
  unfoldable pub unsubscribe_one : EventServer → Uuid → Str → EventServer × Option EsErr
  unsubscribe_one s who topic = elim (find_topic s topic) [
    | none ↦ (s, some (no_topic topic))
    | some (node d f) ↦
        let (d', e) = unsubscribe who d in
        let s' = set_topic s topic (node d' f) in
        elim e [
          | some x ↦ (s', some (wrapped x))
          | none ↦ (emit_event emit_fuel now s' subs_del (about_cancelling who topic), none)
        ]
  ]

  unfoldable pub unsubscribe_each : EventServer → Uuid → List Str → EventServer × Option EsErr
  unfolding unsubscribe_one
  unsubscribe_each s who [] = (s, none)
  unsubscribe_each s who (topic ∷ topics) =
      let (s', e) = unsubscribe_one s who topic in
      let rest = unsubscribe_each s' who topics in elim e [ some x ↦ (s', some x) | none ↦ rest ]

  -- `UnSubscribe`
  unfoldable pub unsubscribe_topics : EventServer → Uuid → List Str → EventServer × Option EsErr
  unfolding unsubscribe_each
  unsubscribe_topics s who topics =
      if not s.runned
      then (s, some not_runned)
      else if who == nil_uuid
      then (s, some no_subscriber)
      else unsubscribe_each s who topics
