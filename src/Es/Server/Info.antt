-- ===== src/Es/Server/Info.antt =====
-- es/es.go: `RootTopicsInfo`, and that it lists the topics of the server.
use mathlib.Core.Path.{subst}
use srvbus.Common.{
  ◌≡◌, refl, sym, ap, ◌∙◌, Option, none, some, List, [], ◌∷◌, arith, ◌==◌, if◌then◌else◌,
  Bool-cases, Option-cases, inl, inr, Uuid,
}
use srvbus.Common.Text.{Str, str_eq}
use srvbus.Es.Topic as Tree
use srvbus.Es.Topic.{Topic, Forest, node, info, subtopics, get, put, has_subtopic}
use srvbus.Es.Topic.Info.{TopicInfo, TopicInfos, topic_info, nil, cons, info_of, get_subtopics, str}
use srvbus.Es.Server.{EventServer, keys, find_in, find_topic}

-- `RootTopicsInfo`
unfoldable pub root_topics_info : EventServer → TopicInfos
unfolding get_subtopics
root_topics_info s = get_subtopics s.topics

-- `TopicInfo.String`
unfoldable to_string : (Uuid → Str) → TopicInfo → Str
unfolding str
to_string show_uuid ti = str show_uuid ti 0

abbrev name_in : TopicInfo → Str
name_in (topic_info name full runned events sts sbs) = name

abbrev below : TopicInfo → TopicInfos
below (topic_info name full runned events sts sbs) = sts

-- the first entry of a name, and the entry that a path of names leads to
abbrev entry : Str → TopicInfos → Option TopicInfo
entry n nil = none
entry n (cons ti tis) = if name_in ti == n then some ti else entry n tis

abbrev pub find_info : List Str → TopicInfos → Option TopicInfo
find_info [] tis = none
find_info (n ∷ []) tis = entry n tis
find_info (n ∷ m ∷ ns) tis = elim (entry n tis) [
  | none ↦ none
  | some ti ↦ find_info (m ∷ ns) (below ti)
]

-- Every topic is kept under its name.
abbrev mutual
  pub IsKeyed : Forest → Type 0
  IsKeyed Tree.nil = Unit
  IsKeyed (Tree.cons k t f) = ((info t).name ≡ k) × IsTopic t × IsKeyed f

  pub IsTopic : Topic → Type 0
  IsTopic (node d f) = IsKeyed f

abbrev pub listed : Option Topic → Option TopicInfo
listed none = none
listed (some t) = some (info_of t)

entry-listed : (n : Str) (f : Forest) → IsKeyed f → entry n (get_subtopics f) ≡ listed (get n f)
unfolding get_subtopics info_of get
entry-listed n Tree.nil h = refl
entry-listed n (Tree.cons k (node d g) f) (e, sub, h) = elim (Bool-cases (k == n)) [
  | inl y ↦ rw (e, y) refl
  | inr x ↦ rw (e, x) (entry-listed n f h)
]

get-IsTopic : (n : Str) (f : Forest) (t : Topic) → IsKeyed f → get n f ≡ some t → IsTopic t
unfolding get
get-IsTopic n Tree.nil t h e = absurd (ground arith)
get-IsTopic n (Tree.cons k u f) t (x, sub, h) e = elim (Bool-cases (k == n)) [
  | inl y ↦ let same : u ≡ t = ground arith in subst IsTopic same sub
  | inr x ↦ get-IsTopic n f t h (rw x at e)
]

has_subtopic-find_in : (ns : List Str) (t : Topic) → has_subtopic ns t ≡ find_in ns (subtopics t)
unfolding has_subtopic
has_subtopic-find_in [] t = refl
has_subtopic-find_in (n ∷ []) t = refl
has_subtopic-find_in (n ∷ m ∷ ns) t = refl

below-info_of : (t : Topic) → below (info_of t) ≡ get_subtopics (subtopics t)
unfolding info_of
below-info_of (node d f) = refl

IsTopic-subtopics : (t : Topic) → IsTopic t → IsKeyed (subtopics t)
IsTopic-subtopics (node d f) h = h

find-listed :
    (ns : List Str) (f : Forest)
    → IsKeyed f
    → find_info ns (get_subtopics f) ≡ listed (find_in ns f)
find-listed [] f h = refl
find-listed (n ∷ []) f h = entry-listed n f h
find-listed (n ∷ m ∷ ns) f h = elim (Option-cases (get n f)) [
  | inl e ↦
      let there : entry n (get_subtopics f) ≡ none = entry-listed n f h ∙ rw e refl in
      ground (arith, there)
  | inr (t, e) ↦
      let there : entry n (get_subtopics f) ≡ some (info_of t) = entry-listed n f h ∙ rw e refl in
      let deeper =
        find-listed (m ∷ ns) (subtopics t) (IsTopic-subtopics t (get-IsTopic n f t h e)) in
      let down : find_info (n ∷ m ∷ ns) (get_subtopics f) ≡ find_info (m ∷ ns) (below (info_of t)) =
        ground (arith, there) in
      let found : find_in (n ∷ m ∷ ns) f ≡ has_subtopic (m ∷ ns) t = ground (arith, e) in
      down
      ∙ (ap (find_info (m ∷ ns)) (below-info_of t)
          ∙ (deeper ∙ ap listed (sym (found ∙ has_subtopic-find_in (m ∷ ns) t))))
]

-- On a server whose topics are kept under their names, `RootTopicsInfo` has an entry at a path just when
-- the path names a topic, and the entry is what is told of this topic.
pub root_topics_info-find :
    (s : EventServer) (path : Str)
    → IsKeyed s.topics
    → find_info (keys path) (root_topics_info s) ≡ listed (find_topic s path)
unfolding root_topics_info find_topic
root_topics_info-find s path h = find-listed (keys path) s.topics h
