-- ===== src/Es/Server/View.antt =====
-- The abstract view of the server: what stands at each path of keys.
use srvbus.Common.{
  ◌≡◌, ◌↔◌, refl, true, Option, none, some, List, [], ◌∷◌, arith, Option-cases, inl, inr,
  if◌then◌else◌, ◌==◌,
}
use srvbus.Common.Text.{Str, str_eq}
use srvbus.Es.Topic.{TopicData, Topic, Forest, get, put, get-put, info}
use srvbus.Es.Topic.View.{view, data_at, has_subtopic-view}
use srvbus.Es.Server.{EventServer, keys, find_in, find_topic, has_topic}

abbrev pub topics_at : Forest → List Str → Option TopicData
topics_at f [] = none
topics_at f (k ∷ q) = elim (get k f) [ none ↦ none | some t ↦ view t q ]

pub find_in-topics_at : (q : List Str) (f : Forest) → data_at (find_in q f) ≡ topics_at f q
find_in-topics_at [] f = refl
find_in-topics_at (k ∷ []) f = ground arith
find_in-topics_at (k ∷ n ∷ ns) f = elim (Option-cases (get k f)) [
  | inl e ↦ ground arith
  | inr (t, e) ↦ ground (arith, has_subtopic-view n ns t)
]

pub topics_at-put :
    (k j : Str) (t : Topic) (f : Forest) (q : List Str)
    → topics_at (put k t f) (j ∷ q) ≡ (if k == j then view t q else topics_at f (j ∷ q))
topics_at-put k j t f q = ground (arith, get-put k j t f)

-- The server has a topic at a path exactly when its tree has one under the keys of the path.
pub has_topic_iff :
    (s : EventServer) (path : Str)
    → (has_topic s path ≡ true) ↔ ((d : TopicData) × (topics_at s.topics (keys path) ≡ some d))
unfolding has_topic find_topic
has_topic_iff s path = elim (Option-cases (find_in (keys path) s.topics)) [
  | inl e ↦ (
    (λ h. absurd (ground arith)),
    λ w. ground (arith, w.1, find_in-topics_at (keys path) s.topics),
  )
  | inr (t, e) ↦
      ((λ h. (info t, ground (arith, find_in-topics_at (keys path) s.topics))), λ w. ground arith)
]
