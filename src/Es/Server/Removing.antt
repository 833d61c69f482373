-- ===== src/Es/Server/Removing.antt =====
-- `RemoveTopic` of es/es.go.
use srvbus.Common.{ℕ, Bool, not, Option, none, some, List, [], ◌∷◌, ◌++◌, drop, if◌then◌else◌}
use srvbus.Common.Text.{Str, slash, split}
use srvbus.Es.Event.{EsErr, not_runned, no_topic, panics, wrapped}
use srvbus.Es.Topic.{cancelled, Topic, node, info, remove, remove_subtopics, cancel_ctx}
use srvbus.Es.Server.{
  EventServer, find_topic, set_topic, emit_event, emit_fuel, about_topic, topic_del,
}

-- a topic after its `cancelCtx`
abbrev pub cancel : Topic → Topic
cancel (node d f) = node (record d { ctx = cancelled }) f

-- the names of a path but the last as a path, and the last
abbrev pub parent_path : List Str → Str
parent_path [] = []
parent_path (n ∷ []) = []
parent_path (n ∷ m ∷ ns) = slash ∷ (n ++ parent_path (m ∷ ns))

abbrev pub last_name : List Str → Str
last_name [] = []
last_name (n ∷ []) = n
last_name (n ∷ m ∷ ns) = last_name (m ∷ ns)

-- A root topic: its subtopics go, its context is cancelled, and the entry for the text that the
-- caller gave is deleted.
unfoldable pub remove_root : ℕ → EventServer → Str → Topic → Bool → EventServer × Option EsErr
remove_root now s topic t recursive =
    let (t', e) = remove_subtopics t [] recursive in
    elim e [
      | some x ↦ (set_topic s topic t', some (wrapped x))
      | none ↦ elim (cancel_ctx t) [
        | some x ↦ (set_topic s topic t', some x)
        | none ↦
            let s' = set_topic s topic (cancel t') in
            let s'' = record s' { topics = remove topic s'.topics } in
            (emit_event emit_fuel now s'' topic_del topic, none)
      ]
    ]

-- A topic below: its parent removes it.
unfoldable pub remove_below : ℕ → EventServer → Str → Str → Str → Bool → EventServer × Option EsErr
remove_below now s topic parent name recursive = elim (find_topic s parent) [
  | none ↦ (s, some (no_topic parent))
  | some p ↦
      let (p', e) = remove_subtopics p name recursive in
      let s' = set_topic s parent p' in
      elim e [
        | some x ↦ (s', some (wrapped x))
        | none ↦ (emit_event emit_fuel now s' topic_del (about_topic topic), none)
      ]
]

-- `tt := strings.Split(t.fullName, "/")[1:]` and the two cases on its length
unfoldable pub remove_found :
    ℕ → EventServer → Str → Topic → List Str → Bool → EventServer × Option EsErr
unfolding remove_root remove_below
remove_found now s topic t [] recursive = (s, some panics)
remove_found now s topic t (n ∷ []) recursive = remove_root now s topic t recursive
remove_found now s topic t (n ∷ m ∷ ns) recursive =
    remove_below now s topic (parent_path (n ∷ m ∷ ns)) (last_name (n ∷ m ∷ ns)) recursive

-- `RemoveTopic`
unfoldable pub remove_topic : ℕ → EventServer → Str → Bool → EventServer × Option EsErr
unfolding remove_found
remove_topic now s topic recursive =
    if not s.runned then (s, some not_runned) else elim (find_topic s topic) [
      | none ↦ (s, some (no_topic topic))
      | some t ↦ remove_found now s topic t (drop 1 (split (info t).full_name)) recursive
    ]
