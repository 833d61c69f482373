-- ===== src/Es/Topic/View.antt =====
-- The abstract view of a topic tree: what stands at each path, as a function from lists of names.
use srvbus.Common.{◌≡◌, Option, none, some, List, [], ◌∷◌, arith, Option-cases, inl, inr}
use srvbus.Common.Text.{Str}
use srvbus.Es.Topic.{TopicData, Topic, info, subtopics, get, has_subtopic}

abbrev pub view : Topic → List Str → Option TopicData
view t [] = some (info t)
view t (k ∷ q) = elim (get k (subtopics t)) [ none ↦ none | some st ↦ view st q ]

abbrev pub data_at : Option Topic → Option TopicData
data_at none = none
data_at (some t) = some (info t)

-- `hasSubtopic` finds at a path what the tree has there.
pub has_subtopic-view :
    (n : Str) (q : List Str) (t : Topic) → data_at (has_subtopic (n ∷ q) t) ≡ view t (n ∷ q)
unfolding has_subtopic
has_subtopic-view n [] t = ground arith
has_subtopic-view n (m ∷ q) t = elim (Option-cases (get n (subtopics t))) [
  | inl e ↦ ground arith
  | inr (st, e) ↦ ground (arith, has_subtopic-view m q st)
]
