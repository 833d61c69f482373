-- ===== src/Es/Server/Keyed.antt =====
-- `AddTopic` keeps every topic under its name.
use mathlib.Core.Path.{subst}
use srvbus.Common.{
  ℕ, suc, ◌≡◌, refl, ◌∙◌, Bool, true, false, some, List, [], ◌∷◌, ◌++◌, arith, ok, ◌==◌,
  if◌then◌else◌, Bool-cases, Option-cases, Result-cases, inl, inr,
}
use srvbus.Common.Text.{Str, slash, trim, str_eq, str_beq_iff}
use srvbus.Es.Names.{names, update_to_absolute}
use srvbus.Es.Topic.{
  Ctx, Topic, Forest, node, nil, cons, info, get, put, new_topic, run, add_here, add_subtopic,
}
use srvbus.Es.Server.{
  EventServer, emit_event, emit_fuel, normalize, add_root, add_below, add_named, add_topic,
}
use srvbus.Es.Server.Emitting.{IsNamed, emit_event-same}
use srvbus.Es.Server.Steady.{add_topic_with-cases}
use srvbus.Es.Server.Info.{IsKeyed, IsTopic}

-- The topic is called so, and all below it are kept under their names.
record IsCalled (name : Str) (t : Topic) : Type 0 where
  called : (info t).name ≡ name
  below : IsTopic t

put-IsKeyed : (k : Str) (t : Topic) (f : Forest) → IsCalled k t → IsKeyed f → IsKeyed (put k t f)
unfolding put
put-IsKeyed k t nil c h = (c.called, c.below, tt)
put-IsKeyed k t (cons j u f) c (e, sub, h) = elim (Bool-cases (j == k)) [
  | inl y ↦ rw y (c.called, c.below, h)
  | inr n ↦ rw n (e, sub, put-IsKeyed k t f c h)
]

get-IsCalled : (k : Str) (f : Forest) (t : Topic) → IsKeyed f → get k f ≡ some t → IsCalled k t
unfolding get
get-IsCalled k nil t h e = absurd (ground arith)
get-IsCalled k (cons j u f) t (x, sub, h) e = elim (Bool-cases (j == k)) [
  | inl y ↦
      let same : u ≡ t = ground arith in
      subst (IsCalled k) same (record { called = x ∙ (str_beq_iff j k).0 y; below = sub })
  | inr n ↦ get-IsCalled k f t h (rw n at e)
]

new-IsCalled :
    (addr : ℕ) (full name : Str) (runs : Bool) (ctx : Ctx)
    → IsCalled name (if runs then run ctx (new_topic addr full name) else new_topic addr full name)
unfolding run new_topic
new-IsCalled addr full name true ctx = record { called = refl; below = tt }
new-IsCalled addr full name false ctx = record { called = refl; below = tt }

add_here-IsCalled :
    (addr : ℕ) (name : Str) (t t' : Topic)
    → IsTopic t
    → add_here addr name t ≡ ok t'
    → IsCalled (info t).name t'
add_here-IsCalled addr name (node d f) t' h e = elim (Option-cases (get name f)) [
  | inr (st, g) ↦ absurd (unfold add_here in ground arith)
  | inl g ↦
      let nt = new_topic addr (d.full_name ++ slash ∷ name) name in
      let made = if d.runned then run d.ctx nt else nt in
      let same : node d (put name made f) ≡ t' = unfold add_here in ground arith in
      subst (IsCalled d.name) same (record {
        called = refl;
        below =
            put-IsKeyed name made f
              (new-IsCalled addr (d.full_name ++ slash ∷ name) name d.runned d.ctx) h;
      })
]

add_subtopic-IsCalled :
    (addr : ℕ) (name : Str) (base : List Str) (t t' : Topic)
    → IsTopic t
    → add_subtopic addr name base t ≡ ok t'
    → IsCalled (info t).name t'
add_subtopic-IsCalled addr name [] t t' h e =
    add_here-IsCalled addr name t t' h (unfold add_subtopic in e)
add_subtopic-IsCalled addr name (b ∷ base) (node d f) t' h e = elim (Option-cases (get b f)) [
  | inl g ↦ absurd (unfold add_subtopic in ground arith)
  | inr (st, g) ↦ elim (Result-cases (add_subtopic addr name base st)) [
    | inl (x, r) ↦ absurd (unfold add_subtopic in ground arith)
    | inr (st', r) ↦
        let old = get-IsCalled b f st h g in
        let new = add_subtopic-IsCalled addr name base st st' old.below r in
        let same : node d (put b st' f) ≡ t' = unfold add_subtopic in ground arith in
        subst (IsCalled d.name) same (record {
          called = refl;
          below =
              put-IsKeyed b st' f (record { called = new.called ∙ old.called; below = new.below })
                h;
        })
  ]
]

module _ (now : ℕ) (s : EventServer) (named : IsNamed s) (keyed : IsKeyed s.topics) where
  emitted-IsKeyed :
      (t : EventServer) (name descr : Str)
      → IsNamed t
      → IsKeyed t.topics
      → IsKeyed (emit_event emit_fuel now t name descr).topics
  emitted-IsKeyed t name descr h k = rw (emit_event-same 2 now t name descr h).topics k

  add_root-IsKeyed : (n : Str) → IsKeyed (add_root (emit_event emit_fuel now) s n).0.topics
  unfolding add_root
  add_root-IsKeyed n = elim (Option-cases (get (update_to_absolute n) s.topics)) [
    | inr (t, e) ↦
        let same : (add_root (emit_event emit_fuel now) s n).0 ≡ s = ground arith in rw same keyed
    | inl e ↦
        let key = update_to_absolute n in
        let nt = new_topic s.next key key in
        let made = if s.runned then run s.ctx nt else nt in
        rw (add_root, e)
          (emitted-IsKeyed (record s { topics = put key made s.topics; next = suc s.next }) _ _
            named
            (put-IsKeyed key made s.topics (new-IsCalled s.next key key s.runned s.ctx) keyed))
  ]

  add_below-IsKeyed :
      (n b : Str) (base : List Str)
      → IsKeyed (add_below (emit_event emit_fuel now) s n b base).0.topics
  unfolding add_below
  add_below-IsKeyed n b base = elim (Option-cases (get (update_to_absolute b) s.topics)) [
    | inl e ↦
        let same : (add_below (emit_event emit_fuel now) s n b base).0 ≡ s = ground arith in
        rw same keyed
    | inr (t, e) ↦ elim (Result-cases (add_subtopic s.next n base t)) [
      | inl (x, r) ↦
          let same : (add_below (emit_event emit_fuel now) s n b base).0 ≡ s = ground arith in
          rw same keyed
      | inr (t', r) ↦
          let key = update_to_absolute b in
          let old = get-IsCalled key s.topics t keyed e in
          let new = add_subtopic-IsCalled s.next n base t t' old.below r in
          rw (add_below, e, r)
            (emitted-IsKeyed (record s { topics = put key t' s.topics; next = suc s.next }) _ _
              named
              (put-IsKeyed key t' s.topics
                (record { called = new.called ∙ old.called; below = new.below }) keyed))
    ]
  ]

  add_named-IsKeyed :
      (n : Str) (base : List Str) → IsKeyed (add_named (emit_event emit_fuel now) s n base).0.topics
  unfolding add_named
  add_named-IsKeyed n [] = add_root-IsKeyed n
  add_named-IsKeyed n (b ∷ base) = add_below-IsKeyed n b base

  -- On a server that has a name for its own topic while it runs, and that keeps its topics under their names,
  -- `AddTopic` does so afterwards, whatever it answers.
  pub add_topic-IsKeyed : (name branch : Str) → IsKeyed (add_topic now s name branch).0.topics
  unfolding add_topic
  add_topic-IsKeyed name branch =
      let (name', branch') = normalize (trim name) branch in
      elim (add_topic_with-cases (emit_event emit_fuel now) s name branch) [
        | inl same ↦ rw same keyed
        | inr same ↦ rw same (add_named-IsKeyed name' (names branch'))
      ]
