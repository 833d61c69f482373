-- ===== src/Es/Subscription/Draining.antt =====
-- The goroutines of a subscription without filters, when each takes the lock in its turn.
use mathlib.Core.Path.{subst}
use srvbus.Common.{
  ℕ, suc, ◌≡◌, refl, sym, ap, ◌∙◌, Bool, true, false, none, some, List, [], ◌∷◌, ◌++◌, arith,
  append_nil, append_assoc,
}
use srvbus.Common.Int.{pos}
use srvbus.Es.Event.{Envelope}
use srvbus.Es.Subscription.{
  Task, Subscription, has_filters, is_turn, start_send, send_round, start_tasks,
}
use srvbus.Es.Subscription.Steps.{Turns, still, moves, lock, round}

-- the goroutines for envelopes at positions from a first one
abbrev pub tasks_from : ℕ → List Envelope → List Task
tasks_from p [] = []
tasks_from p (ee ∷ ees) = record { ee = ee; pos = p } ∷ tasks_from (suc p) ees

pub start_tasks-waiting :
    (p : ℕ) (ees : List Envelope) (s : Subscription)
    → start_tasks p ees s ≡ record s { waiting = s.waiting ++ tasks_from p ees }
unfolding start_tasks start_send
start_tasks-waiting p [] s = ap (λ l. record s { waiting = l }) (sym (append_nil s.waiting))
start_tasks-waiting p (ee ∷ ees) s =
    start_tasks-waiting (suc p) ees (start_send (record { ee = ee; pos = p }) s)
    ∙ ap (λ l. record s { waiting = l })
        (append_assoc s.waiting (record { ee = ee; pos = p } ∷ []) (tasks_from (suc p) ees))

Turns-trans :
    {done : Bool} {s t u : Subscription} → Turns done s t → Turns done t u → Turns done s u
Turns-trans r still = r
Turns-trans r (moves q st) = moves (Turns-trans r q) st

is_turn-next : (p : ℕ) → is_turn (pos p) (suc p) ≡ true
unfolding is_turn
is_turn-next p = ground arith

-- one goroutine, from the lock to the end of its loop
pub sends_first :
    (t : Task) (rest : List Task) (s : Subscription)
    → has_filters s ≡ false
    → s.holder ≡ none
    → s.waiting ≡ t ∷ rest
    → is_turn s.last_readed t.pos ≡ true
    → Turns false s (record s {
      last_readed = pos t.pos;
      waiting = rest;
      holder = none;
      sent = s.sent ++ t ∷ [];
    })
sends_first t rest s plain free waits turn =
    let held : Subscription = record s { waiting = rest; holder = some t } in
    let sends : send_round t held ≡ record s {
      last_readed = pos t.pos;
      waiting = rest;
      holder = none;
      sent = s.sent ++ t ∷ [];
    } =
      unfold send_round in rw turn refl in
    subst (Turns false s) sends
      (moves (moves still (lock t [] rest plain free waits)) (round t refl))

-- all of them
pub drained :
    (p : ℕ) (ees : List Envelope) (s : Subscription)
    → has_filters s ≡ false
    → s.holder ≡ none
    → s.waiting ≡ tasks_from p ees
    → is_turn s.last_readed p ≡ true
    → (u : Subscription) × Turns false s u
      × (u.waiting ≡ [])
      × (u.sent ≡ s.sent ++ tasks_from p ees)
      × (u.e_ch ≡ s.e_ch)
drained p [] s plain free waits turn = (s, still, waits, sym (append_nil s.sent), refl)
drained p (ee ∷ ees) s plain free waits turn =
    let t : Task = record { ee = ee; pos = p } in
    let s' : Subscription = record s {
      last_readed = pos p;
      waiting = tasks_from (suc p) ees;
      holder = none;
      sent = s.sent ++ t ∷ [];
    } in
    let (u, r, empty, sent, ch) = drained (suc p) ees s' plain refl refl (is_turn-next p) in
    (
      u,
      Turns-trans (sends_first t (tasks_from (suc p) ees) s plain free waits turn) r,
      empty,
      sent ∙ append_assoc s.sent (t ∷ []) (tasks_from (suc p) ees),
      ch,
    )
