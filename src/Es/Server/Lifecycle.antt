-- ===== src/Es/Server/Lifecycle.antt =====
-- `Run` of the event server: the first start, a clean start, and a start over old topics.
use mathlib.Core.Path.{subst}
use srvbus.Common.{
  ℕ, ◌≡◌, refl, ap, ◌∙◌, Bool, true, false, Option, none, some, [], ◌∷◌, if◌then◌else◌,
}
use srvbus.Common.Text.{codes, split, trim}
use srvbus.Es.Names.{names, update_to_absolute, pick_name, extend_branch}
use srvbus.Es.Event.{EsErr, topic_exists, wrapped}
use srvbus.Es.Topic.{Topic, live, nil, get}
use srvbus.Es.Server.{
  EventServer, default_topic, root_topic, emit_event, emit_fuel, normalize, add_root, add_named,
  add_topic, start, wrap_error,
}
use srvbus.Es.Server.Emitting.{IsNamed, emit_event-same}
use srvbus.Es.Server.Adding.{Added, add_root_taken, add_root_free, add_root-Added}

-- "server" is put at the root
normalize_default : normalize default_topic root_topic ≡ (codes "server", root_topic)
unfolding normalize split pick_name extend_branch
normalize_default = refl

names_root : names root_topic ≡ []
unfolding names split trim
names_root = refl

-- The server that `Run` works on, once its fields are set.
abbrev pub begun : EventServer → Bool → EventServer
begun s clean = record s {
  topics = if clean then nil else s.topics;
  ctx = live;
  runned = true;
  es_topic = default_topic;
}

add_default :
    (now : ℕ) (s : EventServer)
    → s.runned ≡ true
    → add_topic now s default_topic root_topic
      ≡ add_root (emit_event emit_fuel now) s (codes "server")
unfolding add_topic trim add_named
add_default now s r = simp (r, normalize_default, names_root)

absolute_server : update_to_absolute (codes "server") ≡ default_topic
unfolding update_to_absolute trim
absolute_server = refl

pub start_lem :
    (now : ℕ) (s : EventServer) (clean : Bool)
    → s.runned ≡ false
    → start now s clean
      ≡ wrap_error (add_root (emit_event emit_fuel now) (begun s clean) (codes "server"))
unfolding start
start_lem now s clean r = simp (r, add_default now (begun s clean) refl)

-- A server that does not run, and has no default topic or drops its topics, starts: it runs, and
-- the default topic is new and there.
pub start_first :
    (now : ℕ) (s : EventServer) (clean : Bool)
    → s.runned ≡ false
    → get default_topic (begun s clean).topics ≡ none
    → let (s', e) = start now s clean in
      (e ≡ none) × (s'.runned ≡ true) × Added (begun s clean) s' (default_topic ∷ [])
unfolding update_to_absolute trim
start_first now s clean r g =
    let named : IsNamed (begun s clean) = λ _. refl in
    let free = add_root_free now (begun s clean) named refl (codes "server") g in
    let step = start_lem now s clean r ∙ ap wrap_error free in
    let a = add_root-Added now (begun s clean) named refl (codes "server") g in
    rw step (
      refl,
      (emit_event-same 2 now _ _ _ named).runned,
      subst (λ (r : EventServer × Option EsErr). Added (begun s clean) r.0 (default_topic ∷ []))
          free a,
    )

-- A server that was stopped and still has its default topic is started by `Run` without cleaning,
-- and yet `Run` returns an error; the old topics are as they were.
pub start_again :
    (now : ℕ) (s : EventServer) {t : Topic}
    → s.runned ≡ false
    → get default_topic s.topics ≡ some t
    → start now s false ≡ (begun s false, some (wrapped (topic_exists default_topic)))
unfolding update_to_absolute trim
start_again now s r g =
    start_lem now s false r
    ∙ ap wrap_error (add_root_taken now (begun s false) (λ _. refl) refl (codes "server") g)
