-- ===== src/Es/Subscription.antt =====
-- es/subscriptions.go: subscription requests, one subscription, and the goroutines of `sendEvent`.
pub mod Steps
pub mod Order
pub mod Overtaking
pub mod Draining
mod Tests
use srvbus.Common.{
  ℕ, zero, suc, ◌<◌, Bool, true, false, ◌&&◌, ◌||◌, Option, none, some, List, [], ◌∷◌, ◌++◌, Uuid,
  nat_beq, leb, length, drop, if◌then◌else◌,
}
use srvbus.Common.Int.{ℤ, pos, negsuc, pred_ℕ, suc_ℤ}
use srvbus.Common.Text.{Str, is_empty, trim}
use srvbus.Es.Event.{EsErr, empty_topic, no_channel, Envelope}
use srvbus.Es.Filter.{Filter, filter}

pub record SubscrReq : Type 0 where
  pub topic : Str
  pub sub_ch : Option ℕ  -- the channel's identity; `none` is a nil channel
  pub recursive : Bool
  pub depth : ℕ
  pub start_pos : ℤ
  pub filters : List Filter

-- `SubscrReq.check`
unfoldable pub check_request : SubscrReq → Option EsErr
check_request sr =
    if is_empty (trim sr.topic)
    then some empty_topic
    else elim sr.sub_ch [ none ↦ some no_channel | some ch ↦ none ]

-- A call `go s.sendEvent(ctx, ee, pos)`.
pub record Task : Type 0 where
  pub ee : Envelope
  pub pos : ℕ

-- A subscription, with the `sendEvent` goroutines that wait for its lock, the one that holds it,
-- and what the subscriber's channel was given.
pub record Subscription : Type 0 where
  pub subscriber : Uuid
  pub sub_req : Str
  pub e_ch : Option ℕ
  pub last_readed : ℤ
  pub filters : List Filter
  pub waiting : List Task
  pub holder : Option Task
  pub sent : List Task

unfoldable pub new_subscription : Uuid → SubscrReq → Subscription
new_subscription subscriber sr = record {
  subscriber = subscriber;
  sub_req = sr.topic;
  e_ch = sr.sub_ch;
  last_readed = sr.start_pos;
  filters = sr.filters;
  waiting = [];
  holder = none;
  sent = [];
}

abbrev pub is_pos : ℤ → ℕ → Bool
is_pos (pos m) n = nat_beq m n
is_pos (negsuc m) n = false

-- `(s.lastReaded == 0 && pos == 0) || (s.lastReaded+1 == pos)`
unfoldable pub is_turn : ℤ → ℕ → Bool
is_turn last p = (is_pos last 0 && nat_beq p 0) || is_pos (suc_ℤ last) p

abbrev pub has_filters : Subscription → Bool
has_filters s = elim s.filters [ [] ↦ false | _ ↦ true ]

-- `go s.sendEvent(ctx, ee, pos)`
unfoldable pub start_send : Task → Subscription → Subscription
start_send t s = record s { waiting = s.waiting ++ t ∷ [] }

-- the branch of `sendEvent` for a subscription with filters: no turn, no lock
unfoldable pub send_filtered : Task → Subscription → Subscription
send_filtered t s = elim (filter s.filters t.ee) [
  | none ↦ s
  | some ee ↦ record s { sent = s.sent ++ t ∷ [] }
]

-- One round of the loop of `sendEvent` in the goroutine that holds the lock: it sends and lets
-- the lock go when it is its turn, and goes round again when it is not.
unfoldable pub send_round : Task → Subscription → Subscription
unfolding is_turn
send_round t s =
    if is_turn s.last_readed t.pos
    then record s { last_readed = pos t.pos; sent = s.sent ++ t ∷ []; holder = none }
    else s

-- `for pos, ee := range t.events[fromID:]`: positions count from 0
unfoldable pub start_tasks : ℕ → List Envelope → Subscription → Subscription
unfolding start_send
start_tasks p [] s = s
start_tasks p (ee ∷ ees) s = start_tasks (suc p) ees (start_send (record { ee = ee; pos = p }) s)

-- `Topic.startSub` over the events of the topic; `none` is the panic of a slice out of range.
unfoldable pub start_sub : List Envelope → ℤ → Subscription → Option Subscription
unfolding start_tasks
start_sub events (negsuc n) s = some (record s { last_readed = pred_ℕ (length events) })
start_sub events (pos from) s =
    if leb from (length events) then some (start_tasks 0 (drop from events) s) else none
