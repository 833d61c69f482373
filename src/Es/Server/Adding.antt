-- ===== src/Es/Server/Adding.antt =====
-- `AddTopic` against the view of the server.
use srvbus.Common.{
  ℕ, suc, ◌≡◌, ◌≢◌, refl, ap, ◌∙◌, true, none, some, List, [], ◌∷◌, ◌++◌, arith, ok, err,
  if◌then◌else◌,
}
use srvbus.Common.Text.{Str, str_eq, str_beq_iff}
use srvbus.Es.Names.{update_to_absolute}
use srvbus.Es.Event.{EsErr, topic_exists, no_topic, wrapped}
use srvbus.Es.Topic.{TopicData, Topic, node, nil, get, put, new_topic, run, add_subtopic}
use srvbus.Es.Topic.View.{view}
use srvbus.Es.Topic.Adding.{fresh, add-view, add-view_new, add_iff}
use srvbus.Es.Server.{
  EventServer, topic_new, about_topic, emit_event, emit_fuel, add_root, add_below,
}
use srvbus.Es.Server.View.{topics_at, topics_at-put}
use srvbus.Es.Server.Emitting.{IsNamed, SameButSends, emit_event-same}

-- The fields of a topic that `AddTopic` puts at the root of a running server.
abbrev fresh_root : EventServer → Str → TopicData
fresh_root s key = record {
  addr = s.next;
  full_name = key;
  name = key;
  events = [];
  updates = [];
  subs = [];
  runned = true;
  ctx = s.ctx;
}

-- The tree of `s'` has a new topic at the keys `target`, with no events and no subscribers, and is
-- that of `s` elsewhere.
pub record Added (s s' : EventServer) (target : List Str) : Type 0 where
  pub free : topics_at s.topics target ≡ none
  pub there :
      (d : TopicData) × (topics_at s'.topics target ≡ some d) × (d.events ≡ []) × (d.subs ≡ [])
  pub frame : (q : List Str) → q ≢ target → topics_at s'.topics q ≡ topics_at s.topics q

Added-same :
    {s t u : EventServer} {target : List Str}
    → SameButSends t u
    → Added s t target
    → Added s u target
Added-same v a = record {
  free = a.free;
  there = rw v.topics a.there;
  frame = λ q h. rw v.topics (a.frame q h);
}

module _ (now : ℕ) (s : EventServer) (named : IsNamed s) (runs : s.runned ≡ true) where
  abbrev emit : EventServer → Str → Str → EventServer
  emit = emit_event emit_fuel now

  root_topic_lem :
      (key : Str)
      → (if s.runned then run s.ctx (new_topic s.next key key) else new_topic s.next key key)
        ≡ node (fresh_root s key) nil
  unfolding new_topic run
  root_topic_lem key = ground arith

  put_root-frame :
      (key : Str) (q : List Str)
      → get key s.topics ≡ none
      → q ≢ key ∷ []
      → topics_at (put key (node (fresh_root s key) nil) s.topics) q ≡ topics_at s.topics q
  put_root-frame key [] e h = refl
  put_root-frame key (j ∷ []) e h =
      topics_at-put key j _ s.topics [] ∙ ground (arith, str_beq_iff key j)
  put_root-frame key (j ∷ m ∷ q) e h =
      topics_at-put key j _ s.topics (m ∷ q) ∙ ground (arith, str_beq_iff key j, below_nil)
    where
      below_nil : view (node (fresh_root s key) nil) (m ∷ q) ≡ none
      below_nil = unfold get in refl

  -- the server before it emits
  abbrev with_root : Str → EventServer
  with_root key = record s {
    topics = put key (node (fresh_root s key) nil) s.topics;
    next = suc s.next;
  }

  pub add_root_free :
      (n : Str)
      → get (update_to_absolute n) s.topics ≡ none
      → add_root emit s n ≡ (
        emit (with_root (update_to_absolute n)) topic_new (about_topic (update_to_absolute n)),
        none,
      )
  unfolding add_root
  add_root_free n e =
      rw (e, add_root)
        (ap
          (λ (t : Topic). (
            emit (record s { topics = put (update_to_absolute n) t s.topics; next = suc s.next })
                topic_new (about_topic (update_to_absolute n)),
            none,
          ))
          (root_topic_lem (update_to_absolute n)))

  pub add_root_taken :
      (n : Str) {t : Topic}
      → get (update_to_absolute n) s.topics ≡ some t
      → add_root emit s n ≡ (s, some (topic_exists (update_to_absolute n)))
  unfolding add_root
  add_root_taken n e = rw (e, add_root)

  emitted : (t : EventServer) (name descr : Str) → IsNamed t → SameButSends t (emit t name descr)
  emitted t name descr h = emit_event-same 2 now t name descr h

  pub add_root-Added :
      (n : Str)
      → get (update_to_absolute n) s.topics ≡ none
      → Added s (add_root emit s n).0 (update_to_absolute n ∷ [])
  add_root-Added n e =
      let key = update_to_absolute n in
      rw (add_root_free n e) (
        Added-same (emitted (with_root key) topic_new (about_topic key) named) (record {
          free = ground arith;
          there = (
            fresh_root s key,
            ground (
              arith,
              topics_at-put key key (node (fresh_root s key) nil) s.topics [],
              str_beq_iff key key,
            ),
            refl,
            refl,
          );
          frame = λ q h. put_root-frame key q e h;
        }))

  -- the server before it emits, with the tree `t'` at the root key `k`
  abbrev with_tree : Str → Topic → EventServer
  with_tree k t' = record s { topics = put k t' s.topics; next = suc s.next }

  put_tree-frame :
      (k n : Str) (base : List Str) {t t' : Topic} (q : List Str)
      → get k s.topics ≡ some t
      → add_subtopic s.next n base t ≡ ok t'
      → q ≢ k ∷ (base ++ n ∷ [])
      → topics_at (put k t' s.topics) q ≡ topics_at s.topics q
  put_tree-frame k n base [] g r h = refl
  put_tree-frame k n base {t} {t'} (j ∷ q) g r h =
      topics_at-put k j t' s.topics q
      ∙ ground (arith, str_beq_iff k j, add-view s.next n base t q r)

  pub add_below_missing :
      (n b : Str) (base : List Str)
      → get (update_to_absolute b) s.topics ≡ none
      → add_below emit s n b base ≡ (s, some (no_topic (update_to_absolute b)))
  unfolding add_below
  add_below_missing n b base g = ground arith

  pub add_below_refused :
      (n b : Str) (base : List Str) {t : Topic} {e : EsErr}
      → get (update_to_absolute b) s.topics ≡ some t
      → add_subtopic s.next n base t ≡ err e
      → add_below emit s n b base ≡ (s, some (wrapped e))
  unfolding add_below
  add_below_refused n b base g r = ground arith

  pub add_below_done :
      (n b : Str) (base : List Str) {t t' : Topic}
      → get (update_to_absolute b) s.topics ≡ some t
      → add_subtopic s.next n base t ≡ ok t'
      → add_below emit s n b base
        ≡ (emit (with_tree (update_to_absolute b) t') topic_new (about_topic n), none)
  unfolding add_below
  add_below_done n b base g r = ground arith

  pub add_below-Added :
      (n b : Str) (base : List Str) {t t' : Topic}
      → get (update_to_absolute b) s.topics ≡ some t
      → add_subtopic s.next n base t ≡ ok t'
      → Added s (add_below emit s n b base).0 (update_to_absolute b ∷ (base ++ n ∷ []))
  add_below-Added n b base {t} {t'} g r =
      let key = update_to_absolute b in
      let ((d, w), free) = (add_iff s.next n base t).0 (t', r) in
      rw (add_below_done n b base g r) (
        Added-same (emitted (with_tree key t') topic_new (about_topic n) named) (record {
          free = ground (arith, free);
          there = (
            fresh s.next n d,
            rw (topics_at-put key key t' s.topics (base ++ n ∷ []), (str_beq_iff key key).1 refl)
                (add-view_new s.next n base t r w),
            refl,
            refl,
          );
          frame = λ q h. put_tree-frame key n base q g r h;
        }))
