-- ===== src/Es/Topic/Info.antt =====
-- es/topic.go and es/es.go: what a server tells of its topics, and its text. A map is walked in the order of
-- its association list; the source's order is unspecified.
use srvbus.Common.{ℕ, suc, ◌*◌, Bool, List, [], ◌∷◌, ◌++◌, map, Uuid, length, if◌then◌else◌}
use srvbus.Common.Text.{Str, codes}
use srvbus.Common.Text.Decimal.{itoa, spaces}
use srvbus.Es.Subscription.{Subscription}
use srvbus.Es.Topic as Tree
use srvbus.Es.Topic.{TopicData, Topic, Forest, node}

-- `TopicInfo`: the name, the full name, the running status, the number of events, the subtopics, the
-- subscribers
mutual
  pub data TopicInfo : Type 0 where
    topic_info : Str → Str → Bool → ℕ → TopicInfos → List Uuid → TopicInfo

  pub data TopicInfos : Type 0 where
    nil : TopicInfos
    cons : TopicInfo → TopicInfos → TopicInfos

-- `Topic.count`
unfoldable pub count : TopicData → ℕ
count d = length d.events

-- `Topic.getSubscribers`
unfoldable pub get_subscribers : TopicData → List Uuid
get_subscribers d = map (λ (e : Uuid × List Subscription). e.0) d.subs

-- the literal `TopicInfo{…}`, and `Topic.getSubtopics` over the subtopics
unfoldable mutual
  unfolding count get_subscribers

  pub info_of : Topic → TopicInfo
  info_of (node d f) =
      topic_info d.name d.full_name d.runned (count d) (get_subtopics f) (get_subscribers d)

  pub get_subtopics : Forest → TopicInfos
  get_subtopics Tree.nil = nil
  get_subtopics (Tree.cons k t f) = cons (info_of t) (get_subtopics f)

abbrev line : Str → Str
line text = text ++ 10 ∷ []

unfoldable pub subscriber_lines : (Uuid → Str) → Str → List Uuid → Str
subscriber_lines show_uuid offs [] = []
subscriber_lines show_uuid offs (sb ∷ sbs) =
    line (offs ++ (codes "    " ++ show_uuid sb)) ++ subscriber_lines show_uuid offs sbs

-- `str`
unfoldable mutual
  unfolding subscriber_lines

  pub str : (Uuid → Str) → TopicInfo → ℕ → Str
  str show_uuid (topic_info name full_name runned events subtopics subscribers) offset =
      let offs = spaces (offset * 2) in
      offs
      ++ (full_name
          ++ (line (
                (if runned then codes " [Runned]" else codes " [Not runned]")
                ++ (codes " events(" ++ (itoa events ++ codes ")")))
              ++ (line (offs ++ codes "  subscribers:")
                  ++ (subscriber_lines show_uuid offs subscribers
                      ++ (line (offs ++ codes "  subtopics:")
                          ++ subtopic_lines show_uuid offs subtopics offset)))))

  pub subtopic_lines : (Uuid → Str) → Str → TopicInfos → ℕ → Str
  subtopic_lines show_uuid offs nil offset = []
  subtopic_lines show_uuid offs (cons st sts) offset =
      line (offs ++ str show_uuid st (suc offset)) ++ subtopic_lines show_uuid offs sts offset
