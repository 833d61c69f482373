-- ===== src/Es/Tests.antt =====
-- Runs of the event server, after es/es_test.go and es/topic_test.go.
use srvbus.Common.{ℕ, ◌≡◌, ◌↔◌, refl, true, false, none, some, List, [], ◌∷◌, ok, arith, All, ◌==◌}
use srvbus.Common.Text.{Str, codes, str_beq, str_eq, split, trim}
use srvbus.Es.Names.{names, update_to_absolute, pick_name, extend_branch}
use srvbus.Es.Names.RoundTrip.{IsName, path_of, names-path_of}
use srvbus.Es.Event.{new_event_with_string}
use srvbus.Es.Topic.{
  live, cancelled, no_ctx, TopicData, Topic, node, info, nil, get, put, remove, new_topic, run,
  add_subtopic, has_subtopic, remove_subtopics,
}
use srvbus.Es.Topic.Adding.{fresh}
use srvbus.Es.Server.{
  EventServer, default_topic, keys, find_topic, set_topic, add_event, has_topic, emit_evt,
  emit_event, normalize, add_root, add_below, add_named, add_topic, add_topic_queue, start,
}
use srvbus.Es.Server.View.{topics_at, has_topic_iff}
use srvbus.Es.Server.Emitting.{IsNamed}
use srvbus.Es.Server.AddTopic.{Outcome, add_topic-Outcome}
use srvbus.Es.Server.Lifecycle.{begun}
use srvbus.Es.Server.Removing.{remove_root, remove_topic}
use srvbus.Es.Server.RemoveRoot.{removed_by_key, kept_by_alias}

-- what a run of the server computes with
unfoldable pub all_calls : ℕ
unfolding str_beq split trim names update_to_absolute pick_name extend_branch new_event_with_string
    get put remove new_topic run add_subtopic has_subtopic remove_subtopics find_topic set_topic
    add_event normalize add_root add_below add_named has_topic emit_evt emit_event add_topic
    add_topic_queue start remove_topic
all_calls = 0

abbrev idle : EventServer
idle = record {
  id = 7;
  name = codes "ES";
  topics = nil;
  runned = false;
  ctx = no_ctx;
  es_topic = [];
  next = 0;
  sends = [];
}

abbrev running : EventServer
running = (start 1 idle false).0

abbrev tree : EventServer
tree = (add_topic_queue 2 running (codes "/main/subtopic/subsubtopic") []).0

deep : has_topic tree (codes "main/subtopic//subsubtopic/") ≡ true
unfolding all_calls
deep = refl

removed : has_topic (remove_topic 3 tree (codes "/main") true).0 (codes "/main") ≡ false
unfolding all_calls
removed = refl

not_removed : has_topic (remove_topic 3 tree (codes "main") true).0 (codes "/main") ≡ true
unfolding all_calls
not_removed = refl

-- names, and a path with spaces and empty parts
abbrev two_names : List Str
two_names = codes "main" ∷ codes "sub" ∷ []

two_names-IsName : All IsName two_names
unfolding trim
two_names-IsName = (
  record {
    trimmed = refl;
    filled = refl;
    flat = (omega arith, (omega arith, (omega arith, (omega arith, tt))));
  },
  (
    record {
      trimmed = refl;
      filled = refl;
      flat = (omega arith, (omega arith, (omega arith, tt)));
    },
    tt,
  ),
)

names-path_of_example : names (path_of two_names) ≡ two_names
names-path_of_example = names-path_of two_names two_names-IsName

-- a topic with a subtopic "a"
abbrev top : Topic
top = new_topic 1 (codes "/main") (codes "/main")

abbrev with_a : Topic
with_a = node (info top) (put (codes "a") (node (fresh 2 (codes "a") (info top)) nil) nil)

added_a : add_subtopic 2 (codes "a") [] top ≡ ok with_a
unfolding all_calls
added_a = refl

has_topic_iff_example :
    (has_topic tree (codes "/main/subtopic") ≡ true)
    ↔ ((d : TopicData) × (topics_at tree.topics (keys (codes "/main/subtopic")) ≡ some d))
has_topic_iff_example = has_topic_iff tree (codes "/main/subtopic")

tree-IsNamed : IsNamed tree
unfolding all_calls
tree-IsNamed = λ r. refl

tree-runned : tree.runned ≡ true
unfolding all_calls
tree-runned = refl

add_topic-Outcome_example :
    Outcome 3 tree tree-IsNamed tree-runned
      (add_topic 3 tree (codes "sub") (codes "/main"))
      (names (codes "/main"))
      (codes "sub")
add_topic-Outcome_example =
    add_topic-Outcome 3 tree tree-IsNamed tree-runned (codes "sub") (codes "/main")
      (two_names-IsName.1.0)

nothing : get default_topic (begun idle false).topics ≡ none
unfolding all_calls
nothing = refl

-- the server `tree`, after its context ended
abbrev stopped : EventServer
stopped = record tree { runned = false }

still_there : (t : Topic) × (get default_topic stopped.topics ≡ some t)
unfolding all_calls
still_there = (_, refl)

-- a server with the one topic "/main"
abbrev main_topic : Topic
main_topic = run live (new_topic 5 (codes "/main") (codes "/main"))

abbrev one : EventServer
one = record running { topics = put (codes "/main") main_topic nil }

one-IsNamed : IsNamed one
unfolding all_calls
one-IsNamed = λ r. refl

key_of_main : keys (codes "/main") ≡ codes "/main" ∷ []
unfolding all_calls
key_of_main = refl

key_of_alias : keys (codes "main") ≡ codes "/main" ∷ []
unfolding all_calls
key_of_alias = refl

removes_key : (remove_root 6 one (codes "/main") main_topic true).1 ≡ none
unfolding all_calls remove_root
removes_key = refl

removes_alias : (remove_root 6 one (codes "main") main_topic true).1 ≡ none
unfolding all_calls remove_root
removes_alias = refl

removed_by_key_example :
    topics_at (remove_root 6 one (codes "/main") main_topic true).0.topics (codes "/main" ∷ [])
    ≡ none
removed_by_key_example =
    removed_by_key 6 one (codes "/main") (codes "/main") main_topic true one-IsNamed key_of_main
      removes_key refl

other_text : (codes "main" == codes "/main") ≡ false
unfolding str_beq
other_text = refl

kept_by_alias_example :
    (d : TopicData) × (topics_at
        (remove_root 6 one (codes "main") main_topic true).0.topics
        (codes "/main" ∷ [])
      ≡ some d)
    × (d.ctx ≡ cancelled)
kept_by_alias_example =
    kept_by_alias 6 one (codes "main") (codes "/main") main_topic true one-IsNamed key_of_alias
      removes_alias other_text
