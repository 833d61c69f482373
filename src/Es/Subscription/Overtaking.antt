-- ===== src/Es/Subscription/Overtaking.antt =====
-- What happens when a goroutine takes the lock before its turn: it goes round its loop for ever,
-- and nothing is sent any more. Reading from the begin starts with `lastReaded` 0, which also means
-- that event 0 was sent, so event 1 may overtake event 0.
use mathlib.Core.Path.{subst}
use srvbus.Common.{
  ℕ, suc, ◌≤◌, ◌<◌, ◌+◌, ◌≡◌, refl, true, false, none, some, List, [], ◌∷◌, ◌++◌, arith, All,
  All-append, All-map, ◌∙◌, sym, ap, length, drop,
}
use srvbus.Common.Int.{pos}
use srvbus.Es.Event.{Envelope}
use srvbus.Es.Subscription.{
  Task, Subscription, is_turn, has_filters, start_send, send_round, start_tasks, start_sub,
}
use srvbus.Es.Subscription.Steps.{
  Turn, Turns, still, moves, filtered, filtered_quit, lock, round, quit, Step, spawn, turns, Reach,
  here, next,
}

-- The goroutine of `t` holds the lock out of its turn.
record IsStuck (t : Task) (s : Subscription) : Type 0 where
  held : s.holder ≡ some t
  early : is_turn s.last_readed t.pos ≡ false
  unfiltered : has_filters s ≡ false

Turn-IsStuck :
    (t : Task) {s u : Subscription} → Turn false s u → IsStuck t s → IsStuck t u × (u.sent ≡ s.sent)
Turn-IsStuck t (filtered x xs ys f e) v = cc (f, v.unfiltered)
Turn-IsStuck t (filtered_quit x xs ys d f e) v = cc
Turn-IsStuck t (lock x xs ys f hn e) v = cc (hn, v.held)
Turn-IsStuck t {s} (round x e) v =
    let same : x.pos ≡ t.pos = ground (arith, v.held) in
    let early : is_turn s.last_readed x.pos ≡ false = rw same v.early in
    unfold send_round in rw early (v, refl)
Turn-IsStuck t (quit x d e) v = cc

step-IsStuck :
    (t : Task) {s u : Subscription} → Step false s u → IsStuck t s → IsStuck t u × (u.sent ≡ s.sent)
step-IsStuck t (spawn x) v = unfold start_send in ground arith
step-IsStuck t (turns st) v = Turn-IsStuck t st v

Reach-IsStuck :
    (t : Task) {s u : Subscription}
    → Reach false s u
    → IsStuck t s
    → IsStuck t u × (u.sent ≡ s.sent)
Reach-IsStuck t here v = (v, refl)
Reach-IsStuck t (next r st) v =
    let (v', e) = Reach-IsStuck t r v in let (v'', e') = step-IsStuck t st v' in (v'', e' ∙ e)

-- In a subscription without filters whose context lives, a goroutine that holds the lock out of its
-- turn keeps it, and the subscriber gets nothing more, whatever else is sent.
stuck_forever :
    (t : Task) {s u : Subscription}
    → has_filters s ≡ false
    → s.holder ≡ some t
    → is_turn s.last_readed t.pos ≡ false
    → Reach false s u
    → (u.holder ≡ some t) × (u.sent ≡ s.sent)
stuck_forever t f h e r =
    let (v, same) = Reach-IsStuck t r (record { held = h; early = e; unfiltered = f }) in
    (v.held, same)

module _ (s : Subscription) (t₀ t₁ : Task) where
  -- the state after the goroutine of the second event ran before that of the first
  abbrev pub overtaken : Subscription
  overtaken = record s {
    last_readed = pos t₁.pos;
    waiting = [];
    holder = some t₀;
    sent = s.sent ++ t₁ ∷ [];
  }

  overtaken-Turns :
      has_filters s ≡ false
      → s.last_readed ≡ pos 0
      → s.waiting ≡ t₀ ∷ t₁ ∷ []
      → s.holder ≡ none
      → t₁.pos ≡ 1
      → Turns false s overtaken
  overtaken-Turns f l w h p =
      let s₁ : Subscription = record s { waiting = t₀ ∷ []; holder = some t₁ } in
      let s₂ : Subscription = record s {
        waiting = t₀ ∷ [];
        last_readed = pos t₁.pos;
        sent = s.sent ++ t₁ ∷ [];
        holder = none;
      } in
      let turn : is_turn s.last_readed t₁.pos ≡ true = rw (l, p) (unfold is_turn in refl) in
      let sends : send_round t₁ s₁ ≡ s₂ = unfold send_round in rw turn in
      moves
        (subst (Turns false s) sends
          (moves (moves still (lock t₁ (t₀ ∷ []) [] f h w)) (round t₁ refl)))
        (lock t₀ [] [] f refl refl)

-- A subscription without filters that reads from the begin and got nothing yet, its lock free, with
-- the goroutines of events 0 and 1 both waiting: a schedule sends event 1 and leaves the lock with
-- the goroutine of event 0, out of its turn.
pub first_event_lost :
    (s : Subscription) (t₀ t₁ : Task)
    → has_filters s ≡ false
    → s.last_readed ≡ pos 0
    → s.waiting ≡ t₀ ∷ t₁ ∷ []
    → s.holder ≡ none
    → s.sent ≡ []
    → t₀.pos ≡ 0
    → t₁.pos ≡ 1
    → (u : Subscription) × Turns false s u
      × (u.sent ≡ t₁ ∷ [])
      × (u.holder ≡ some t₀)
      × (is_turn u.last_readed t₀.pos ≡ false)
first_event_lost s t₀ t₁ f l w h e p q = (
  overtaken s t₀ t₁,
  overtaken-Turns s t₀ t₁ f l w h q,
  ap (λ ts. ts ++ t₁ ∷ []) e,
  refl,
  rw (p, q) (unfold is_turn in refl),
)

-- The goroutines of `startSub`, which count the stored events from 0, carry these positions.
start_tasks-late :
    (k p : ℕ) (ees : List Envelope) (s : Subscription)
    → p + length ees ≤ k
    → All (λ (t : Task). t.pos < k) s.waiting
    → All (λ (t : Task). t.pos < k) (start_tasks p ees s).waiting
unfolding start_tasks start_send
start_tasks-late k p [] s h a = a
start_tasks-late k p (ee ∷ ees) s h a =
    start_tasks-late k (suc p) ees _ (omega arith) (All-append _ s.waiting _ a (omega arith, tt))

last_readed-start_tasks :
    (p : ℕ) (ees : List Envelope) (s : Subscription)
    → (start_tasks p ees s).last_readed ≡ s.last_readed
unfolding start_tasks start_send
last_readed-start_tasks p [] s = refl
last_readed-start_tasks p (ee ∷ ees) s = last_readed-start_tasks (suc p) ees _

not_turn : (from p : ℕ) → 0 < from → p < suc from → is_turn (pos from) p ≡ false
unfolding is_turn
not_turn from p h lt = ground arith

-- A subscription without waiting goroutines that starts at a position `from`, not 0, with at most
-- `from + 1` stored events from there on, is left by `startSub` with goroutines of which none has
-- its turn to send.
start_sub-late :
    (events : List Envelope) (from : ℕ) (s t : Subscription)
    → 0 < from
    → length (drop from events) ≤ suc from
    → s.waiting ≡ []
    → s.last_readed ≡ pos from
    → start_sub events (pos from) s ≡ some t
    → All (λ (x : Task). is_turn t.last_readed x.pos ≡ false) t.waiting
unfolding start_sub
start_sub-late events from s t h few w l e =
    let started : start_tasks 0 (drop from events) s ≡ t = ground arith in
    let last : t.last_readed ≡ pos from =
      ap (λ (x : Subscription). x.last_readed) (sym started)
      ∙ last_readed-start_tasks 0 (drop from events) s
      ∙ l in
    let late = start_tasks-late (suc from) 0 (drop from events) s (omega arith) (rw w tt) in
    rw last (
      All-map _ _ (λ x b. not_turn from x.pos h b) t.waiting
        (subst (λ (x : Subscription). All (λ (y : Task). y.pos < suc from) x.waiting) started late))
