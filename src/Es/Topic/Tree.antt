-- ===== src/Es/Topic/Tree.antt =====
-- Topics and the maps of their subtopics.
use srvbus.Common.{
  ◌≡◌, refl, arith, ℕ, Bool, true, false, Option, none, some, List, Map, Uuid, ◌==◌, if◌then◌else◌,
}
use srvbus.Common.Text.{Str, str_eq, str_beq_iff}
use srvbus.Es.Event.{Envelope}
use srvbus.Es.Subscription.{Task, Subscription}

-- The context of a topic: none before it ran (and `cancelCtx` is nil), one that lives, one that
-- was cancelled.
pub data Ctx : Type 0 where
  no_ctx live cancelled : Ctx

-- The fields of a `Topic` but its subtopics. `addr` stands for the pointer's identity.
pub record TopicData : Type 0 where
  pub addr : ℕ
  pub full_name : Str
  pub name : Str
  pub events : List Envelope
  pub updates : List Task  -- the goroutines `updateSubs` that wait for the lock
  pub subs : Map Uuid (List Subscription)
  pub runned : Bool
  pub ctx : Ctx

-- `map[string]*Topic` as an association list.
mutual
  pub data Topic : Type 0 where
    node : TopicData → Forest → Topic

  pub data Forest : Type 0 where
    nil : Forest
    cons : Str → Topic → Forest → Forest

abbrev pub info : Topic → TopicData
info (node d f) = d

abbrev pub subtopics : Topic → Forest
subtopics (node d f) = f

abbrev pub no_topics : Forest → Bool
no_topics nil = true
no_topics (cons k t f) = false

-- t, ok := m[k]
unfoldable pub get : Str → Forest → Option Topic
get k nil = none
get k (cons j t f) = if j == k then some t else get k f

-- m[k] = t
unfoldable pub put : Str → Topic → Forest → Forest
put k t nil = cons k t nil
put k t (cons j u f) = if j == k then cons k t f else cons j u (put k t f)

-- delete(m, k)
unfoldable pub remove : Str → Forest → Forest
remove k nil = nil
remove k (cons j u f) = let rest = remove k f in if j == k then rest else cons j u rest

pub get-put :
    (k j : Str) (t : Topic) (f : Forest) → get j (put k t f) ≡ (if k == j then some t else get j f)
unfolding get put
get-put k j t nil = refl
get-put k j t (cons i u f) =
    ground (arith, str_beq_iff k j, str_beq_iff i k, str_beq_iff i j, get-put k j t f)

pub get-remove : (k j : Str) (f : Forest) → get j (remove k f) ≡ (if k == j then none else get j f)
unfolding get remove
get-remove k j nil = ground arith
get-remove k j (cons i u f) =
    ground (arith, str_beq_iff k j, str_beq_iff i k, str_beq_iff i j, get-remove k j f)
