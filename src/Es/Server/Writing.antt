-- ===== src/Es/Server/Writing.antt =====
-- A write through the pointer to a topic, against the view: the paths through the topic change, and no other.
use srvbus.Common.{
  ◌≡◌, ◌≢◌, refl, ap, ap₂, sym, ◌∙◌, some, List, [], ◌∷◌, ◌++◌, arith, ◌==◌, Option-cases,
  Bool-cases, inl, inr, beq_refl,
}
use srvbus.Common.Text.{Str, str_eq, str_beq_iff}
use srvbus.Es.Topic.{TopicData, Topic, Forest, node, get, put, subtopics, has_subtopic}
use srvbus.Es.Topic.View.{view}
use srvbus.Es.Server.{find_in, put_at}
use srvbus.Es.Server.View.{topics_at, topics_at-put}

has_subtopic-find_in :
    (n : Str) (ns : List Str) (t : Topic) → has_subtopic (n ∷ ns) t ≡ find_in (n ∷ ns) (subtopics t)
unfolding has_subtopic
has_subtopic-find_in n [] t = refl
has_subtopic-find_in n (m ∷ ns) t = ground arith

view-subtopics :
    (t : Topic) (k : Str) (q : List Str) → view t (k ∷ q) ≡ topics_at (subtopics t) (k ∷ q)
view-subtopics t k q = refl

-- how a write goes down one level
put_at-down :
    (k n : Str) (ns : List Str) (t : Topic) (d : TopicData) (g f : Forest)
    → get k f ≡ some (node d g)
    → put_at (k ∷ n ∷ ns) t f ≡ put k (node d (put_at (n ∷ ns) t g)) f
unfolding put_at
put_at-down k n ns t d g f e = rw (e, put_at) refl

-- The paths through the topic are those of what is written.
pub topics_at-put_at :
    (ks : List Str) (old t : Topic) (f : Forest) (q : List Str)
    → find_in ks f ≡ some old
    → topics_at (put_at ks t f) (ks ++ q) ≡ view t q
topics_at-put_at [] old t f q e = absurd (ground arith)
topics_at-put_at (k ∷ []) old t f q e =
    unfold put_at in (topics_at-put k k t f q ∙ rw (beq_refl k) refl)
topics_at-put_at (k ∷ n ∷ ns) old t f q e = elim (Option-cases (get k f)) [
  | inl no_key ↦ absurd (ground arith)
  | inr (node d g, found) ↦
      let below : find_in (n ∷ ns) g ≡ some old =
        ground (arith, has_subtopic-find_in n ns (node d g)) in
      rw (put_at-down k n ns t d g f found) (
        topics_at-put k k (node d (put_at (n ∷ ns) t g)) f (n ∷ ns ++ q)
        ∙ rw (beq_refl k) (topics_at-put_at (n ∷ ns) old t g q below))
]

-- an entry whose subtopics change
entry_changed :
    (k : Str) (d : TopicData) (g g' f : Forest) (p : List Str)
    → get k f ≡ some (node d g)
    → ((i : Str) (r : List Str) → p ≡ i ∷ r → topics_at g' (i ∷ r) ≡ topics_at g (i ∷ r))
    → view (node d g') p ≡ topics_at f (k ∷ p)
entry_changed k d g g' f [] e h = ground arith
entry_changed k d g g' f (i ∷ r) e h = h i r refl ∙ ground arith

-- The paths that do not lead through the topic have what they had.
pub topics_at-put_at_other :
    (ks : List Str) (old t : Topic) (f : Forest) (p : List Str)
    → find_in ks f ≡ some old
    → ((q : List Str) → p ≢ ks ++ q)
    → topics_at (put_at ks t f) p ≡ topics_at f p
topics_at-put_at_other [] old t f p e h = absurd (ground arith)
topics_at-put_at_other (k ∷ ks) old t f [] e h = refl
topics_at-put_at_other (k ∷ []) old t f (j ∷ p) e h =
    unfold put_at in (topics_at-put k j t f p ∙ ground (arith, str_beq_iff k j, h p))
topics_at-put_at_other (k ∷ n ∷ ns) old t f (j ∷ p) e h = elim (Option-cases (get k f)) [
  | inl no_key ↦ absurd (ground arith)
  | inr (node d g, found) ↦
      let below : find_in (n ∷ ns) g ≡ some old =
        ground (arith, has_subtopic-find_in n ns (node d g)) in
      rw (put_at-down k n ns t d g f found) (
        topics_at-put k j (node d (put_at (n ∷ ns) t g)) f p ∙ elim (Bool-cases (k == j)) [
          | inr other ↦ rw other refl
          | inl same ↦
              let equal : k ≡ j = (str_beq_iff k j).0 same in
              rw same (
                entry_changed k d g (put_at (n ∷ ns) t g) f p found (λ i r is.
                  topics_at-put_at_other (n ∷ ns) old t g (i ∷ r) below
                    (λ q x. h q (ap₂ (λ a b. a ∷ b) (sym equal) (is ∙ x))))
                ∙ ap (λ x. topics_at f (x ∷ p)) equal)
        ])
]

-- The paths through a topic that is found.
pub topics_at-found :
    (ks : List Str) (t : Topic) (f : Forest) (q : List Str)
    → find_in ks f ≡ some t
    → topics_at f (ks ++ q) ≡ view t q
topics_at-found [] t f q e = absurd (ground arith)
topics_at-found (k ∷ []) t f q e = ground arith
topics_at-found (k ∷ n ∷ ns) t f q e = elim (Option-cases (get k f)) [
  | inl no_key ↦ absurd (ground arith)
  | inr (node d g, found) ↦
      let below : find_in (n ∷ ns) g ≡ some t =
        ground (arith, has_subtopic-find_in n ns (node d g)) in
      ground (arith, topics_at-found (n ∷ ns) t g q below)
]
