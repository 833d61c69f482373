-- ===== src/Es/Server/Steady.antt =====
-- Adding topics and emitting events leave the event server as running, and as named, as it was.
use srvbus.Common.{
  ℕ, ◌≡◌, ◌⊎◌, refl, ◌∙◌, Bool, true, false, not, ◌&&◌, Option, none, some, List, [], ◌∷◌, ◌++◌,
  arith, Uuid, Option-cases, Result-cases, Bool-cases, inl, inr,
}
use srvbus.Common.Text.{Str, codes, slash, is_empty, trim, str_eq}
use srvbus.Es.Names.{names, update_to_absolute}
use srvbus.Es.Event.{EsErr}
use srvbus.Es.Topic.{Topic, Forest, get, put, get-put, add_subtopic}
use srvbus.Es.Server.{
  EventServer, emit_evt, emit_event, emit_fuel, normalize, add_root, add_below, add_named,
  add_topic_with, add_each, add_topic_queue_with, add_topic_queue, root_topic, start, wrap_error,
}
use srvbus.Es.Server.Emitter.{emit_from, emit_via}
use srvbus.Es.Server.Lifecycle.{begun, start_lem}
use srvbus.Es.Server.Emitting.{IsNamed, emit_event-same, emit_evt-same}

abbrev pub has_key : Str → Forest → Bool
has_key k f = elim (get k f) [ none ↦ false | some t ↦ true ]

-- no root topic is lost
abbrev pub Keeps : Forest → Forest → Type 0
Keeps f g = (k : Str) → has_key k f ≡ true → has_key k g ≡ true

put-Keeps : (j : Str) (t : Topic) (f : Forest) → Keeps f (put j t f)
put-Keeps j t f k h = ground (arith, get-put j k t f)

pub record Steady (s t : EventServer) : Type 0 where
  pub runned : t.runned ≡ s.runned
  pub es_topic : t.es_topic ≡ s.es_topic
  pub id : t.id ≡ s.id
  pub ctx : t.ctx ≡ s.ctx
  pub kept : Keeps s.topics t.topics

pub steady : (s : EventServer) → Steady s s
steady s = record { runned = refl; es_topic = refl; id = refl; ctx = refl; kept = λ k h. h }

Steady-trans : {s t u : EventServer} → Steady s t → Steady t u → Steady s u
Steady-trans a b = record {
  runned = b.runned ∙ a.runned;
  es_topic = b.es_topic ∙ a.es_topic;
  id = b.id ∙ a.id;
  ctx = b.ctx ∙ a.ctx;
  kept = λ k h. b.kept k (a.kept k h);
}

pub Steady-IsNamed : {s t : EventServer} → Steady s t → IsNamed s → IsNamed t
Steady-IsNamed a h = λ r. ground (arith, a.runned, a.es_topic, h)

-- `AddTopic` changes nothing, or what it does for a normalized name.
pub add_topic_with-cases :
    (emit : EventServer → Str → Str → EventServer) (s : EventServer) (name branch : Str)
    → let (name', branch') = normalize (trim name) branch in
      ((add_topic_with emit s name branch).0 ≡ s)
      ⊎ ((add_topic_with emit s name branch).0 ≡ (add_named emit s name' (names branch')).0)
unfolding add_topic_with
add_topic_with-cases emit s name branch =
    elim (Bool-cases (s.runned && not (is_empty (trim name)))) [
      | inr bad ↦ inl (ground arith)
      | inl good ↦ inr (ground arith)
    ]

module _ (emit : EventServer → Str → Str → EventServer)
    (emits : (s : EventServer) (name descr : Str) → IsNamed s → Steady s (emit s name descr)) where
  add_root-Steady : (s : EventServer) (name : Str) → IsNamed s → Steady s (add_root emit s name).0
  unfolding add_root
  add_root-Steady s name h = elim (Option-cases (get (update_to_absolute name) s.topics)) [
    | inl e ↦
        rw (e, add_root)
          (Steady-trans
            (record {
              runned = refl;
              es_topic = refl;
              id = refl;
              ctx = refl;
              kept = put-Keeps _ _ s.topics;
            })
            (emits _ _ _ h))
    | inr (t, e) ↦ rw (e, add_root) (steady s)
  ]

  add_below-Steady :
      (s : EventServer) (name b : Str) (base : List Str)
      → IsNamed s
      → Steady s (add_below emit s name b base).0
  unfolding add_below
  add_below-Steady s name b base h = elim (Option-cases (get (update_to_absolute b) s.topics)) [
    | inl e ↦ rw (e, add_below) (steady s)
    | inr (t, e) ↦ elim (Result-cases (add_subtopic s.next name base t)) [
      | inl (x, f) ↦ rw (e, add_below, f) (steady s)
      | inr (t', f) ↦
          rw (e, add_below, f)
            (Steady-trans
              (record {
                runned = refl;
                es_topic = refl;
                id = refl;
                ctx = refl;
                kept = put-Keeps _ _ s.topics;
              })
              (emits _ _ _ h))
    ]
  ]

  add_named-Steady :
      (s : EventServer) (name : Str) (base : List Str)
      → IsNamed s
      → Steady s (add_named emit s name base).0
  unfolding add_named
  add_named-Steady s name [] h = add_root-Steady s name h
  add_named-Steady s name (b ∷ base) h = add_below-Steady s name b base h

  add_topic_with-Steady :
      (s : EventServer) (name branch : Str)
      → IsNamed s
      → Steady s (add_topic_with emit s name branch).0
  add_topic_with-Steady s name branch h =
      let (name', branch') = normalize (trim name) branch in
      elim (add_topic_with-cases emit s name branch) [
        | inl same ↦ rw same (steady s)
        | inr same ↦ rw same (add_named-Steady s name' (names branch') h)
      ]

  add_each-Steady :
      (s : EventServer) (ts : List Str) (branch : Str)
      → IsNamed s
      → Steady s (add_each emit s ts branch).0
  unfolding add_each
  add_each-Steady s [] branch h = steady s
  add_each-Steady s (t ∷ ts) branch h =
      let (s', e) = add_topic_with emit s t branch in
      let first : Steady s s' = add_topic_with-Steady s t branch h in
      let rest = add_each-Steady s' ts (branch ++ slash ∷ t) (Steady-IsNamed first h) in
      elim (Option-cases e) [
        | inl n ↦ rw (add_each, n) (Steady-trans first rest)
        | inr (x, n) ↦ rw (add_each, n) first
      ]

  add_topic_queue_with-Steady :
      (s : EventServer) (queue branch : Str)
      → IsNamed s
      → Steady s (add_topic_queue_with emit s queue branch).0
  unfolding add_topic_queue_with
  add_topic_queue_with-Steady s queue branch h =
      ground (arith, add_each-Steady s (names queue) (trim branch) h, steady s)

pub emitted :
    (now : ℕ) (s : EventServer) (name descr : Str)
    → IsNamed s
    → Steady s (emit_event emit_fuel now s name descr)
emitted now s name descr h =
    let a = emit_event-same 2 now s name descr h in
    record {
      runned = a.runned;
      es_topic = a.es_topic;
      id = a.id;
      ctx = a.ctx;
      kept = λ k h. rw a.topics h;
    }

add_topic_queue-Steady :
    (now : ℕ) (s : EventServer) (queue branch : Str)
    → IsNamed s
    → Steady s (add_topic_queue now s queue branch).0
unfolding add_topic_queue
add_topic_queue-Steady now s queue branch h =
    add_topic_queue_with-Steady (emit_event emit_fuel now) (emitted now) s queue branch h

emit_evt-Steady :
    (now : ℕ) (s : EventServer) (topic name descr : Str) (sender : Uuid)
    → Steady s (emit_evt now s topic name descr sender)
emit_evt-Steady now s topic name descr sender =
    let a = emit_evt-same now s topic name descr sender in
    record {
      runned = a.runned;
      es_topic = a.es_topic;
      id = a.id;
      ctx = a.ctx;
      kept = λ k h. rw a.topics h;
    }

-- An emission of another component, on a server that has a name for its own topic while it runs.
pub emit_from-Steady :
    (now : ℕ) (topic : Str) (id : Uuid) (e : EventServer) (at name descr : Str)
    → IsNamed e
    → Steady e (emit_from now topic id e at name descr).0
unfolding emit_from
emit_from-Steady now topic id e at name descr h =
    let a = add_topic_queue-Steady now e topic root_topic h in
    let r = add_topic_queue now e topic root_topic in
    elim (Bool-cases (is_empty at)) [
      | inr full ↦ rw (emit_from, full) (emit_evt-Steady now e at name descr id)
      | inl empty ↦ elim (Option-cases r.1) [
        | inl n ↦
            rw (emit_from, empty, n) (Steady-trans a (emit_evt-Steady now r.0 topic name descr id))
        | inr (x, n) ↦ rw (emit_from, empty, n) a
      ]
    ]

pub emit_via-Steady :
    (now : ℕ) (topic : Str) (id : Uuid) (e : EventServer) (at name descr : Str)
    → IsNamed e
    → (e' : EventServer) × ((emit_via now topic id (some e) at name descr).0 ≡ some e')
      × Steady e e'
unfolding emit_via
emit_via-Steady now topic id e at name descr h = elim (Bool-cases e.runned) [
  | inl a ↦ (
    (emit_from now topic id e at name descr).0,
    ground arith,
    emit_from-Steady now topic id e at name descr h,
  )
  | inr a ↦ (e, ground arith, steady e)
]

-- A start leaves the server as running, and as named, as `Run` sets it.
pub start-Steady :
    (now : ℕ) (e : EventServer) (clean : Bool)
    → e.runned ≡ false
    → Steady (begun e clean) (start now e clean).0
start-Steady now e clean r =
    let root = add_root (emit_event emit_fuel now) (begun e clean) (codes "server") in
    rw (start_lem now e clean r, wrapped_server root)
      (add_root-Steady (emit_event emit_fuel now) (emitted now) (begun e clean) (codes "server")
        (λ _. refl))
  where
    wrapped_server : (r : EventServer × Option EsErr) → (wrap_error r).0 ≡ r.0
    wrapped_server (s, none) = refl
    wrapped_server (s, some x) = refl
