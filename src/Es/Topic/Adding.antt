-- ===== src/Es/Topic/Adding.antt =====
-- `addSubtopic` against the view: one path is new, and every other path has what it had.
use srvbus.Common.{
  ℕ, ◌≡◌, ◌≢◌, ◌↔◌, refl, ap, sym, ◌∙◌, none, some, List, [], ◌∷◌, ◌++◌, arith, Option-cases, inl,
  inr, ok, Result-cases, if◌then◌else◌, ◌==◌,
}
use srvbus.Common.Text.{Str, str_eq, str_beq_iff, slash}
use srvbus.Es.Topic.{
  no_ctx, TopicData, Topic, Forest, node, nil, get, put, get-put, new_topic, run, add_here,
  add_subtopic,
}
use srvbus.Es.Topic.View.{view}

-- The entry at one name changes, and with it the paths through that name alone.
view-put :
    (d : TopicData) (f : Forest) (n k : Str) (st : Topic) (q : List Str)
    → view (node d (put n st f)) (k ∷ q) ≡ (if n == k then view st q else view (node d f) (k ∷ q))
view-put d f n k st q = ground (arith, get-put n k st f)

view-get :
    (d : TopicData) (f : Forest) (k : Str) {st : Topic} (q : List Str)
    → get k f ≡ some st
    → view (node d f) (k ∷ q) ≡ view st q
view-get d f k q e = ground arith

-- The fields of a topic that `addSubtopic` puts below a topic `d`.
abbrev pub fresh : ℕ → Str → TopicData → TopicData
fresh addr name d = record {
  addr = addr;
  full_name = d.full_name ++ slash ∷ name;
  name = name;
  events = [];
  updates = [];
  subs = [];
  runned = d.runned;
  ctx = if d.runned then d.ctx else no_ctx;
}

module _ (addr : ℕ) (name : Str) where
  -- the topic that `add_here` puts under its name
  abbrev newcomer : TopicData → Topic
  newcomer d = node (fresh addr name d) nil

  newcomer_lem :
      (d : TopicData)
      → (if d.runned
          then run d.ctx (new_topic addr (d.full_name ++ slash ∷ name) name)
          else new_topic addr (d.full_name ++ slash ∷ name) name)
        ≡ newcomer d
  unfolding new_topic run
  newcomer_lem d = ground arith

  add_here_lem :
      (d : TopicData) (f : Forest)
      → get name f ≡ none
      → add_here addr name (node d f) ≡ ok (node d (put name (newcomer d) f))
  unfolding add_here
  add_here_lem d f e = rw (e, add_here) (ap (λ x. ok (node d (put name x f))) (newcomer_lem d))

  add_here_free :
      (d : TopicData) (f : Forest) {t' : Topic}
      → add_here addr name (node d f) ≡ ok t'
      → get name f ≡ none
  unfolding add_here
  add_here_free d f e = ground arith

  newcomer-view : (d : TopicData) (j : Str) (q : List Str) → view (newcomer d) (j ∷ q) ≡ none
  unfolding get
  newcomer-view d j q = refl

  add_here-view :
      (d : TopicData) (f : Forest) (q : List Str)
      → get name f ≡ none
      → q ≢ name ∷ []
      → view (node d (put name (newcomer d) f)) q ≡ view (node d f) q
  add_here-view d f [] e h = refl
  add_here-view d f (k ∷ []) e h =
      view-put d f name k (newcomer d) [] ∙ ground (arith, str_beq_iff name k)
  add_here-view d f (k ∷ j ∷ q) e h =
      view-put d f name k (newcomer d) (j ∷ q)
      ∙ ground (arith, str_beq_iff name k, newcomer-view d j q)

  -- how `addSubtopic` goes down one level
  add_below :
      (b : Str) (base : List Str) (d : TopicData) (f : Forest) {t' : Topic}
      → add_subtopic addr name (b ∷ base) (node d f) ≡ ok t'
      → (st st' : Topic) × (get b f ≡ some st)
        × (add_subtopic addr name base st ≡ ok st')
        × (t' ≡ node d (put b st' f))
  unfolding add_subtopic
  add_below b base d f e = elim (Option-cases (get b f)) [
    | inl n ↦ absurd (ground arith)
    | inr (st, g) ↦ elim (Result-cases (add_subtopic addr name base st)) [
      | inl (x, r) ↦ absurd (ground arith)
      | inr (st', r) ↦ (st, st', g, r, ground arith)
    ]
  ]

  add_top :
      (d : TopicData) (f : Forest) {t' : Topic}
      → add_subtopic addr name [] (node d f) ≡ ok t'
      → (get name f ≡ none) × (t' ≡ node d (put name (newcomer d) f))
  unfolding add_subtopic
  add_top d f e =
      let free = add_here_free d f e in let same = add_here_lem d f free in (free, ground arith)

  -- When `addSubtopic` succeeds, every path but the new one has what it had.
  pub add-view :
      (base : List Str) (t : Topic) {t' : Topic} (q : List Str)
      → add_subtopic addr name base t ≡ ok t'
      → q ≢ base ++ name ∷ []
      → view t' q ≡ view t q
  add-view [] (node d f) q e h =
      let (free, same) = add_top d f e in rw same (add_here-view d f q free h)
  add-view (b ∷ base) (node d f) [] e h =
      let (st, st', g, r, same) = add_below b base d f e in rw same
  add-view (b ∷ base) (node d f) (k ∷ q) e h =
      let (st, st', g, r, same) = add_below b base d f e in
      rw (same, view-put d f b k st' q) (ground (arith, str_beq_iff b k, add-view base st q r))

  -- When `addSubtopic` succeeds below a base that is there, the new path has a topic without events
  -- and subscribers, which runs with the base's context exactly if the base runs.
  pub add-view_new :
      (base : List Str) (t : Topic) {t' : Topic} {d : TopicData}
      → add_subtopic addr name base t ≡ ok t'
      → view t base ≡ some d
      → view t' (base ++ name ∷ []) ≡ some (fresh addr name d)
  add-view_new [] (node d f) e h =
      let (free, same) = add_top d f e in
      rw same (ground (arith, view-put d f name name (newcomer d) [], str_beq_iff name name))
  add-view_new (b ∷ base) (node d f) e h =
      let (st, st', g, r, same) = add_below b base d f e in
      rw (same, view-put d f b b st' (base ++ name ∷ []), (str_beq_iff b b).1 refl)
        (add-view_new base st r (sym (view-get d f b base g) ∙ h))

  found :
      (base : List Str) (t : Topic) {t' : Topic}
      → add_subtopic addr name base t ≡ ok t'
      → ((d : TopicData) × (view t base ≡ some d)) × (view t (base ++ name ∷ []) ≡ none)
  found [] (node d f) e = let (free, same) = add_top d f e in ((d, refl), ground arith)
  found (b ∷ base) (node d f) e =
      let (st, st', g, r, same) = add_below b base d f e in
      let ((x, w), n) = found base st r in
      ((x, view-get d f b base g ∙ w), view-get d f b (base ++ name ∷ []) g ∙ n)

  added :
      (base : List Str) (t : Topic) {x : TopicData}
      → view t base ≡ some x
      → view t (base ++ name ∷ []) ≡ none
      → (t' : Topic) × (add_subtopic addr name base t ≡ ok t')
  unfolding add_subtopic
  added [] (node d f) w n = (node d (put name (newcomer d) f), add_here_lem d f (ground arith))
  added (b ∷ base) (node d f) w n = elim (Option-cases (get b f)) [
    | inl g ↦ absurd (ground arith)
    | inr (st, g) ↦
        let (st', r) =
          added base st (sym (view-get d f b base g) ∙ w)
            (sym (view-get d f b (base ++ name ∷ []) g) ∙ n) in
        (node d (put b st' f), ground arith)
  ]

  -- `addSubtopic` succeeds exactly where the base is there and the name is free below it.
  pub add_iff :
      (base : List Str) (t : Topic)
      → ((t' : Topic) × (add_subtopic addr name base t ≡ ok t'))
        ↔ (((d : TopicData) × (view t base ≡ some d)) × (view t (base ++ name ∷ []) ≡ none))
  add_iff base t = ((λ w. found base t w.1), (λ w. added base t w.0.1 w.1))
