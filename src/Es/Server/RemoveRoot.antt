-- ===== src/Es/Server/RemoveRoot.antt =====
-- `RemoveTopic` at the root: which entry is deleted.
use srvbus.Common.{
  ℕ, ◌≡◌, refl, ap, ◌∙◌, Bool, false, Option, none, some, [], ◌∷◌, arith, ◌==◌, Option-cases, inl,
  inr,
}
use srvbus.Common.Text.{Str, str_eq, str_beq_iff}
use srvbus.Es.Event.{EsErr}
use srvbus.Es.Topic.{
  TopicData, Topic, cancelled, node, info, put, remove, get-put, get-remove, remove_subtopics,
  cancel_ctx,
}
use srvbus.Es.Server.{EventServer, keys, put_at, set_topic, emit_event, emit_fuel, topic_del}
use srvbus.Es.Server.View.{topics_at}
use srvbus.Es.Server.Emitting.{IsNamed, emit_event-same}
use srvbus.Es.Server.Removing.{cancel, remove_root}

ctx-cancel : (t : Topic) → (info (cancel t)).ctx ≡ cancelled
ctx-cancel (node d f) = refl

module _ (now : ℕ) (s : EventServer) (topic k : Str) (t : Topic) (recursive : Bool)
    (named : IsNamed s) (root : keys topic ≡ k ∷ [])
    (done : (remove_root now s topic t recursive).1 ≡ none) where
  -- the server before it emits
  abbrev after : EventServer
  after =
      let s' = set_topic s topic (cancel (remove_subtopics t [] recursive).0) in
      record s' { topics = remove topic s'.topics }

  removal_lem :
      (remove_subtopics t [] recursive).1 ≡ none
      → cancel_ctx t ≡ none
      → remove_root now s topic t recursive ≡ (emit_event emit_fuel now after topic_del topic, none)
  unfolding remove_root
  removal_lem e c = ground arith

  put_lem :
      (set_topic s topic (cancel (remove_subtopics t [] recursive).0)).topics
      ≡ put k (cancel (remove_subtopics t [] recursive).0) s.topics
  unfolding set_topic put_at
  put_lem = rw root

  -- the tree after a removal that succeeds
  topics_after :
      (remove_root now s topic t recursive).0.topics
      ≡ remove topic (put k (cancel (remove_subtopics t [] recursive).0) s.topics)
  unfolding set_topic
  topics_after = elim (Option-cases (remove_subtopics t [] recursive).1) [
    | inr (x, e) ↦ absurd (unfold remove_root in ground arith)
    | inl e ↦ elim (Option-cases (cancel_ctx t)) [
      | inr (x, c) ↦ absurd (unfold remove_root in ground arith)
      | inl c ↦
          ap (λ (r : EventServer × Option EsErr). r.0.topics) (removal_lem e c)
          ∙ (emit_event-same 2 now after topic_del topic named).topics
          ∙ ap (remove topic) put_lem
    ]
  ]

  -- A root topic removed by its absolute name, without an error, from a server whose own topic has
  -- a name while it runs, is gone.
  pub removed_by_key :
      topic ≡ k → topics_at (remove_root now s topic t recursive).0.topics (k ∷ []) ≡ none
  removed_by_key e = rw topics_after (
      ground (
        arith,
        get-remove topic k (put k (cancel (remove_subtopics t [] recursive).0) s.topics),
        str_beq_iff topic k,
      ))

  -- A root topic removed by another spelling of its name, without an error, from a server whose own
  -- topic has a name while it runs, stays in the tree with its context cancelled.
  pub kept_by_alias :
      (topic == k) ≡ false
      → (d : TopicData) × (topics_at (remove_root now s topic t recursive).0.topics (k ∷ [])
          ≡ some d)
        × (d.ctx ≡ cancelled)
  kept_by_alias e =
      let t' = cancel (remove_subtopics t [] recursive).0 in
      (
        info t',
        rw topics_after (
            ground (
              arith,
              get-remove topic k (put k t' s.topics),
              get-put k k t' s.topics,
              str_beq_iff k k,
            )),
        ctx-cancel (remove_subtopics t [] recursive).0,
      )
