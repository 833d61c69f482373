-- ===== src/Es/Topic.antt =====
-- es/topic.go: a topic with its subtopics, and the operations that a topic carries out on itself
-- and, by recursion, on those below it. A method of the source changes the topics in place; here it
-- returns the new tree, beside the error where it has one.
mod Tree
pub mod View
pub mod Adding
pub mod Info
pub mod Subscribing
pub mod Telling
pub mod Following
pub use Tree.{Ctx, no_ctx, live, cancelled, TopicData, Topic, Forest, node, nil, cons}
pub use Tree.{info, subtopics, no_topics}
unfoldable pub use Tree.{get, put, remove}
pub use Tree.{get-put, get-remove}
use srvbus.Common.{
  ℕ, zero, suc, ◌-◌, Bool, true, false, not, ◌&&◌, ◌||◌, Option, none, some, List, [], ◌∷◌, ◌++◌,
  map, Map, lookup, insert, delete, Uuid, nat_eq, Result, ok, err, ◌==◌, ltb, length, take, drop,
  if◌then◌else◌,
}
use srvbus.Common.Text.{Str, slash, is_empty, str_eq}
use srvbus.Es.Event.{
  EsErr, has_subtopic_already, no_such_subtopic, subtopics_tree, stopped_topic, no_subscription,
  panics, wrapped, Envelope, check_envelope,
}
use srvbus.Es.Subscription.{SubscrReq, Task, Subscription, new_subscription, start_send, start_sub}

-- the literal `&Topic{…}` of `addSubtopic` and `AddTopic`
unfoldable pub new_topic : ℕ → Str → Str → Topic
new_topic addr full name =
    node
      (record {
        addr = addr;
        full_name = full;
        name = name;
        events = [];
        updates = [];
        subs = [];
        runned = false;
        ctx = no_ctx;
      })
      nil

-- `Topic.run`, with a context derived from the one given
unfoldable pub run : Ctx → Topic → Topic
run ctx (node d f) = if d.runned then node d f else node (record d { runned = true; ctx = ctx }) f

-- the end of `addSubtopic`, at the topic that the base leads to
unfoldable pub add_here : ℕ → Str → Topic → Result EsErr Topic
unfolding new_topic run
add_here addr name (node d f) = elim (get name f) [
  | some st ↦ err (has_subtopic_already d.full_name name)
  | none ↦
      let nt = new_topic addr (d.full_name ++ slash ∷ name) name in
      ok (node d (put name (if d.runned then run d.ctx nt else nt) f))
]

abbrev put_back : Str → TopicData → Forest → Result EsErr Topic → Result EsErr Topic
put_back k d f (ok st) = ok (node d (put k st f))
put_back k d f (err e) = err e

-- `Topic.addSubtopic`; `addr` is the identity of the new topic
unfoldable pub add_subtopic : ℕ → Str → List Str → Topic → Result EsErr Topic
unfolding add_here
add_subtopic addr name [] t = add_here addr name t
add_subtopic addr name (b ∷ base) (node d f) = elim (get b f) [
  | none ↦ err (no_such_subtopic d.full_name b)
  | some st ↦ put_back b d f (add_subtopic addr name base st)
]

-- `Topic.hasSubtopic`; the source is never called with no names, where it would panic
unfoldable pub has_subtopic : List Str → Topic → Option Topic
has_subtopic [] t = none
has_subtopic (n ∷ []) t = get n (subtopics t)
has_subtopic (n ∷ m ∷ rest) t = elim (get n (subtopics t)) [
  | none ↦ none
  | some st ↦ has_subtopic (m ∷ rest) st
]

-- `Topic.couldBeDeleted`
unfoldable pub could_be_deleted : Forest → Bool
could_be_deleted nil = true
could_be_deleted (cons k st f) = no_topics (subtopics st) && could_be_deleted f

-- the guard of `removeSubtopics`: `none` lets the removal go on
unfoldable pub remove_guard : Str → Bool → Forest → Option EsErr
unfolding could_be_deleted
remove_guard topic true f = none
remove_guard [] false f = if could_be_deleted f then none else some subtopics_tree
remove_guard (c ∷ topic) false f = elim (get (c ∷ topic) f) [
  | none ↦ some panics
  | some st ↦ if no_topics (subtopics st) then none else some subtopics_tree
]

-- `topic != "" && st.name != topic`
abbrev pub skips : Str → Topic → Bool
skips topic st = not (is_empty topic) && not ((info st).name == topic)

-- `st.cancelCtx()`: a topic that never ran has no such function
abbrev pub cancel_ctx : Topic → Option EsErr
cancel_ctx st = elim (info st).ctx [ no_ctx ↦ some panics | live ↦ none | cancelled ↦ none ]

unfoldable mutual
  unfolding remove_guard

  -- `Topic.removeSubtopics`
  pub remove_subtopics : Topic → Str → Bool → Topic × Option EsErr
  remove_subtopics (node d f) topic recursive =
      let rest = remove_each f topic recursive in
      elim (remove_guard topic recursive f) [
        | some e ↦ (node d f, some e)
        | none ↦ let (f', e) = rest in (node d f', e)
      ]

  -- its loop; `delete(t.subtopics, st.name)` drops the entry at hand, which is stored by its name
  pub remove_each : Forest → Str → Bool → Forest × Option EsErr
  remove_each nil topic recursive = (nil, none)
  remove_each (cons k st f) topic recursive =
      let rest = remove_each f topic recursive in
      let below = remove_subtopics st [] recursive in
      if skips topic st
      then (let (f', e) = rest in (cons k st f', e))
      else (let (st', e) = below in
          elim e [
            | some x ↦ (cons k st' f, some (wrapped x))
            | none ↦ elim (cancel_ctx st) [ some x ↦ (cons k st' f, some x) | none ↦ rest ]
          ])

abbrev pub or_nil : Option (List Subscription) → List Subscription
or_nil none = []
or_nil (some ss) = ss

-- the part of `Topic.subscribe` before the recursion
unfoldable pub add_subscription : Uuid → SubscrReq → TopicData → Option TopicData
add_subscription who sr d = elim (start_sub d.events sr.start_pos (new_subscription who sr)) [
  | none ↦ none
  | some ns ↦ some (record d { subs = insert who (or_nil (lookup who d.subs) ++ ns ∷ []) d.subs })
]

abbrev pub deeper : SubscrReq → SubscrReq
deeper sr = record sr { depth = sr.depth - 1 }

unfoldable mutual
  unfolding add_subscription

  -- `Topic.subscribe`
  pub subscribe : Topic → Uuid → SubscrReq → Topic × Option EsErr
  subscribe (node d f) who sr =
      let below = subscribe_all f who (deeper sr) in
      if not d.runned then (node d f, some stopped_topic) else elim (add_subscription who sr d) [
        | none ↦ (node d f, some panics)
        | some d' ↦
            if sr.recursive && ltb 0 sr.depth
            then (let (f', e) = below in (node d' f', e))
            else (node d' f, none)
      ]

  -- its loop over the subtopics
  pub subscribe_all : Forest → Uuid → SubscrReq → Forest × Option EsErr
  subscribe_all nil who sr = (nil, none)
  subscribe_all (cons k st f) who sr =
      let rest = subscribe_all f who sr in
      let (st', e) = subscribe st who sr in
      elim e [
        | some x ↦ (cons k st' f, some (wrapped x))
        | none ↦ let (f', e') = rest in (cons k st' f', e')
      ]

-- `Topic.unsubscribe`
unfoldable pub unsubscribe : Uuid → TopicData → TopicData × Option EsErr
unsubscribe who d = if not d.runned then (d, some stopped_topic) else elim (lookup who d.subs) [
  | none ↦ (d, some no_subscription)
  | some ss ↦ (record d { subs = delete who d.subs }, none)
]

-- the loops of `Topic.updateSubs`: a `sendEvent` goroutine for each subscription. The goroutines between,
-- one for each subscriber, work on the subscriptions that are there now.
unfoldable pub update_subs : Task → Map Uuid (List Subscription) → Map Uuid (List Subscription)
update_subs t [] = []
update_subs t ((who, ss) ∷ m) = (who, map (start_send t) ss) ∷ update_subs t m

abbrev pub stored : Envelope → ℕ → ℕ → Envelope
stored ee now at = record ee { reg_at = now; index = at }

-- `Topic.processTopic` on an envelope from its channel: a goroutine `updateSubs` is left waiting.
unfoldable pub process_event : Envelope → ℕ → TopicData → TopicData
process_event ee now d = elim (check_envelope ee) [
  | some e ↦ d
  | none ↦
      let at = length d.events in
      let ee' = stored ee now at in
      record d {
        events = d.events ++ ee' ∷ [];
        updates = d.updates ++ record { ee = ee'; pos = at } ∷ [];
      }
]

-- `Topic.updateSubs` in the waiting goroutine at this place
unfoldable pub run_update : ℕ → TopicData → TopicData
unfolding update_subs
run_update place d = elim (drop place d.updates) [
  | [] ↦ d
  | t ∷ later ↦ record d { updates = take place d.updates ++ later; subs = update_subs t d.subs }
]

-- `Topic.processTopic` when its context is done
unfoldable pub stop : TopicData → TopicData
stop d = record d { runned = false }
