-- ===== src/Es/Topic/Subscribing.antt =====
-- `Topic.subscribe` against the view: which topics get the subscription.
use srvbus.Common.{
  ℕ, suc, ◌≡◌, refl, true, false, ◌&&◌, Option, none, some, List, [], ◌∷◌, arith, Uuid, ◌++◌,
  lookup, insert, nat_eq, length, leb, ltb, if◌then◌else◌, Option-cases, Bool-cases, inl, inr,
}
use srvbus.Common.Text.{Str, str_eq}
use srvbus.Common.Int.{negsuc, pred_ℕ}
use srvbus.Es.Subscription.{SubscrReq, Subscription, new_subscription, start_sub}
use srvbus.Es.Topic.{
  TopicData, Topic, Forest, node, nil, cons, info, subtopics, get, or_nil, add_subscription, deeper,
  subscribe, subscribe_all,
}
use srvbus.Es.Topic.View.{view}

-- how far below the topic a request goes
abbrev pub levels : SubscrReq → ℕ
levels sr = if sr.recursive then sr.depth else 0

-- A topic that lies `n` levels below the one of the request.
abbrev pub subscribed : Uuid → SubscrReq → ℕ → Option TopicData → Option TopicData
subscribed who sr n none = none
subscribed who sr n (some d) = if leb n (levels sr) then add_subscription who sr d else some d

module _ (who : Uuid) where
  abbrev subscribe_option : SubscrReq → Option Topic → Option Topic
  subscribe_option sr none = none
  subscribe_option sr (some st) = some (subscribe st who sr).0

  -- the loop, when it ends without an error
  subscribe_all-get :
      (sr : SubscrReq) (f : Forest) (k : Str)
      → (subscribe_all f who sr).1 ≡ none
      → get k (subscribe_all f who sr).0 ≡ subscribe_option sr (get k f)
  unfolding subscribe_all get
  subscribe_all-get sr nil k h = refl
  subscribe_all-get sr (cons j st f) k h = ground (arith, subscribe_all-get sr f k)

  subscribe_all-none :
      (sr : SubscrReq) (f : Forest) (k : Str) (st : Topic)
      → (subscribe_all f who sr).1 ≡ none
      → get k f ≡ some st
      → (subscribe st who sr).1 ≡ none
  unfolding subscribe_all get
  subscribe_all-none sr nil k st h e = absurd (ground arith)
  subscribe_all-none sr (cons j u f) k st h e = ground (arith, subscribe_all-none sr f k st)

  add_subscription-deeper :
      (sr : SubscrReq) (d : TopicData)
      → add_subscription who (deeper sr) d ≡ add_subscription who sr d
  unfolding add_subscription new_subscription
  add_subscription-deeper sr d = refl

  -- one level down
  subscribed-deeper :
      (sr : SubscrReq) (n : ℕ) (o : Option TopicData)
      → (sr.recursive && ltb 0 sr.depth) ≡ true
      → subscribed who (deeper sr) n o ≡ subscribed who sr (suc n) o
  subscribed-deeper sr n none h = refl
  subscribed-deeper sr n (some d) h = ground (arith, add_subscription-deeper sr d)

  subscribed-flat :
      (sr : SubscrReq) (n : ℕ) (o : Option TopicData)
      → (sr.recursive && ltb 0 sr.depth) ≡ false
      → subscribed who sr (suc n) o ≡ o
  subscribed-flat sr n none h = refl
  subscribed-flat sr n (some d) h = ground arith

  subscribe-deep :
      (sr : SubscrReq) (d : TopicData) (f : Forest)
      → (sr.recursive && ltb 0 sr.depth) ≡ true
      → (subscribe (node d f) who sr).1 ≡ none
      → (add_subscription who sr d ≡ some (info (subscribe (node d f) who sr).0))
        × (subtopics (subscribe (node d f) who sr).0 ≡ (subscribe_all f who (deeper sr)).0)
        × ((subscribe_all f who (deeper sr)).1 ≡ none)
  unfolding subscribe
  subscribe-deep sr d f deep h = ground arith

  subscribe-flat :
      (sr : SubscrReq) (d : TopicData) (f : Forest)
      → (sr.recursive && ltb 0 sr.depth) ≡ false
      → (subscribe (node d f) who sr).1 ≡ none
      → (add_subscription who sr d ≡ some (info (subscribe (node d f) who sr).0))
        × (subtopics (subscribe (node d f) who sr).0 ≡ f)
  unfolding subscribe
  subscribe-flat sr d f flat h = ground arith

  -- Without an error, just the topics down to the depth of the request get the subscription.
  pub subscribe-view :
      (sr : SubscrReq) (t : Topic) (q : List Str)
      → (subscribe t who sr).1 ≡ none
      → view (subscribe t who sr).0 q ≡ subscribed who sr (length q) (view t q)
  subscribe-view sr (node d f) [] h = elim (Bool-cases (sr.recursive && ltb 0 sr.depth)) [
    | inl deep ↦ let (a, b, c) = subscribe-deep sr d f deep h in ground arith
    | inr flat ↦ let (a, b) = subscribe-flat sr d f flat h in ground arith
  ]
  subscribe-view sr (node d f) (k ∷ q) h = elim (Bool-cases (sr.recursive && ltb 0 sr.depth)) [
    | inl deep ↦
        let (a, b, c) = subscribe-deep sr d f deep h in
        elim (Option-cases (get k f)) [
          | inl e ↦ ground (arith, b, subscribe_all-get (deeper sr) f k c)
          | inr (st, e) ↦ ground (
            arith,
            b,
            subscribe_all-get (deeper sr) f k c,
            subscribe-view (deeper sr) st q (subscribe_all-none (deeper sr) f k st c e),
            subscribed-deeper sr (length q) (view st q) deep,
          )
        ]
    | inr flat ↦
        let (a, b) = subscribe-flat sr d f flat h in
        ground (arith, b, subscribed-flat sr (length q) (view (node d f) (k ∷ q)) flat)
  ]

-- the topic runs, as do all below it
unfoldable mutual
  pub Runs : Topic → Type 0
  Runs (node d f) = (d.runned ≡ true) × RunAll f

  pub RunAll : Forest → Type 0
  RunAll nil = Unit
  RunAll (cons k t f) = Runs t × RunAll f

add_subscription-new :
    (who : Uuid) (sr : SubscrReq) (n : ℕ) (d : TopicData)
    → sr.start_pos ≡ negsuc n
    → (d' : TopicData) × (add_subscription who sr d ≡ some d')
unfolding add_subscription start_sub
add_subscription-new who sr n d h = elim (Option-cases (add_subscription who sr d)) [
  | inl nothing ↦ absurd (ground arith)
  | inr found ↦ found
]

mutual
  unfolding subscribe subscribe_all Runs RunAll

  subscribe-done :
      (t : Topic) (who : Uuid) (sr : SubscrReq) (n : ℕ)
      → sr.start_pos ≡ negsuc n
      → Runs t
      → (subscribe t who sr).1 ≡ none
  subscribe-done (node d f) who sr n h (r, rs) =
      ground (arith, add_subscription-new who sr n d h, subscribe_all-done f who (deeper sr) n h rs)

  subscribe_all-done :
      (f : Forest) (who : Uuid) (sr : SubscrReq) (n : ℕ)
      → sr.start_pos ≡ negsuc n
      → RunAll f
      → (subscribe_all f who sr).1 ≡ none
  subscribe_all-done nil who sr n h rs = refl
  subscribe_all-done (cons k t f) who sr n h (r, rs) =
      ground (arith, subscribe-done t who sr n h r, subscribe_all-done f who sr n h rs)

-- A request for new events on a tree that runs fails nowhere.
pub subscribe-news :
    (t : Topic) (who : Uuid) (sr : SubscrReq) (n : ℕ)
    → sr.start_pos ≡ negsuc n
    → Runs t
    → (subscribe t who sr).1 ≡ none
subscribe-news t who sr n h r = subscribe-done t who sr n h r

-- the subscription that asks for new events
abbrev pub newest : Uuid → SubscrReq → TopicData → Subscription
newest who sr d = record (new_subscription who sr) { last_readed = pred_ℕ (length d.events) }

abbrev pub with_newest : Uuid → SubscrReq → TopicData → TopicData
with_newest who sr d = record d {
  subs = insert who (or_nil (lookup who d.subs) ++ newest who sr d ∷ []) d.subs;
}

-- A topic `n` levels below the one of a request for new events: down to the depth of the request, the subscriber
-- has one subscription more there, which begins after the events that the topic has.
abbrev pub subscribed_new : Uuid → SubscrReq → ℕ → Option TopicData → Option TopicData
subscribed_new who sr n none = none
subscribed_new who sr n (some d) = some (if leb n (levels sr) then with_newest who sr d else d)

pub add_subscription-newest :
    (who : Uuid) (sr : SubscrReq) (n : ℕ) (d : TopicData)
    → sr.start_pos ≡ negsuc n
    → add_subscription who sr d ≡ some (with_newest who sr d)
unfolding add_subscription start_sub
add_subscription-newest who sr n d h = ground arith

pub subscribed-newest :
    (who : Uuid) (sr : SubscrReq) (n level : ℕ) (o : Option TopicData)
    → sr.start_pos ≡ negsuc n
    → subscribed who sr level o ≡ subscribed_new who sr level o
subscribed-newest who sr n level none h = refl
subscribed-newest who sr n level (some d) h = ground (arith, add_subscription-newest who sr n d h)
