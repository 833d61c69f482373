-- ===== src/Es/Server/AddTopic.antt =====
-- What `AddTopic` does on a running server, on every branch.
use srvbus.Common.{
  ℕ, ◌≡◌, ◌⊎◌, ap, true, Option, none, some, List, [], ◌∷◌, ◌++◌, arith, Option-cases, Result-cases,
  inl, inr,
}
use srvbus.Common.Text.{Str}
use srvbus.Common.Text.Split.{split_one}
use srvbus.Es.Names.{names, update_to_absolute, pick_name, extend_branch}
use srvbus.Es.Names.RoundTrip.{IsName}
use srvbus.Es.Event.{EsErr}
use srvbus.Es.Topic.{TopicData, get, add_subtopic}
use srvbus.Es.Topic.Adding.{add_iff}
use srvbus.Es.Server.{
  EventServer, keys_of, emit_event, emit_fuel, normalize, add_named, add_root, add_below, add_topic,
}
use srvbus.Es.Server.View.{topics_at}
use srvbus.Es.Server.Emitting.{IsNamed}
use srvbus.Es.Server.Adding.{
  Added, add_root_free, add_root_taken, add_root-Added, add_below_missing, add_below_refused,
  add_below_done, add_below-Added,
}

-- A name without slashes stays as it is, and so does its branch.
normalize_flat : (n branch : Str) → IsName n → normalize n branch ≡ (n, branch)
unfolding normalize pick_name extend_branch
normalize_flat n branch h = rw (split_one n h.flat)

-- The branch is the root, or names a topic.
abbrev pub HasBase : EventServer → List Str → Type 0
HasBase s [] = Unit
HasBase s (b ∷ base) = (d : TopicData) × (topics_at s.topics (keys_of (b ∷ base)) ≡ some d)

abbrev pub CanAdd : EventServer → List Str → Str → Type 0
CanAdd s base n = HasBase s base × (topics_at s.topics (keys_of (base ++ n ∷ [])) ≡ none)

module _ (now : ℕ) (s : EventServer) (named : IsNamed s) (runs : s.runned ≡ true) where
  abbrev pub Outcome : EventServer × Option EsErr → List Str → Str → Type 0
  Outcome r base n =
      (CanAdd s base n × (r.1 ≡ none) × Added s r.0 (keys_of (base ++ n ∷ [])))
      ⊎ ((¬ CanAdd s base n) × ((e : EsErr) × (r ≡ (s, some e))))

  at_root : (n : Str) → Outcome (add_root (emit_event emit_fuel now) s n) [] n
  at_root n = elim (Option-cases (get (update_to_absolute n) s.topics)) [
    | inl e ↦ inl (
      (tt, ground arith),
      ap (λ (r : EventServer × Option EsErr). r.1) (add_root_free now s named runs n e),
      add_root-Added now s named runs n e,
    )
    | inr (t, e) ↦ inr ((λ c. ground (arith, c.1)), (_, add_root_taken now s named runs n e))
  ]

  at_branch :
      (b : Str) (base : List Str) (n : Str)
      → Outcome (add_below (emit_event emit_fuel now) s n b base) (b ∷ base) n
  at_branch b base n = elim (Option-cases (get (update_to_absolute b) s.topics)) [
    | inl g ↦ inr ((λ c. ground (arith, c.0.1)), (_, add_below_missing now s named runs n b base g))
    | inr (t, g) ↦ elim (Result-cases (add_subtopic s.next n base t)) [
      | inr (t', r) ↦
          let (base_there, free) = (add_iff s.next n base t).0 (t', r) in
          inl (
            ((base_there.0, ground (arith, base_there.1)), ground (arith, free)),
            ap (λ (r : EventServer × Option EsErr). r.1)
                (add_below_done now s named runs n b base g r),
            add_below-Added now s named runs n b base g r,
          )
      | inl (e, r) ↦ inr (
        (λ c.
            let (t', o) =
              (add_iff s.next n base t).1 ((c.0.0, ground (arith, c.0.1)), ground (arith, c.1)) in
            cc (o, r)),
        (_, add_below_refused now s named runs n b base g r),
      )
    ]
  ]

  at_names :
      (base : List Str) (n : Str) → Outcome (add_named (emit_event emit_fuel now) s n base) base n
  unfolding add_named
  at_names [] n = at_root n
  at_names (b ∷ base) n = at_branch b base n

  add_topic_flat :
      (n branch : Str)
      → IsName n
      → add_topic now s n branch ≡ add_named (emit_event emit_fuel now) s n (names branch)
  unfolding add_topic
  add_topic_flat n branch h = simp (runs, h.trimmed, h.filled, normalize_flat n branch h)

  -- On a running server whose own topic has a name, for a name that is not empty, has no slash and no
  -- space at its ends, and any branch: if
  -- the branch is the root or a topic and the name is free there, the topic is added and the tree
  -- is unchanged elsewhere; otherwise an error is returned and the server is unchanged.
  pub add_topic-Outcome :
      (n branch : Str) → IsName n → Outcome (add_topic now s n branch) (names branch) n
  add_topic-Outcome n branch h = rw (add_topic_flat n branch h) (at_names (names branch) n)
