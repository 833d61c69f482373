-- ===== src/Es/Subscription/Steps.antt =====
-- The interleavings of the goroutines that send into one subscription.
use srvbus.Common.{◌≡◌, Bool, true, false, none, some, List, ◌∷◌, ◌++◌}
use srvbus.Es.Subscription.{Task, Subscription, has_filters, start_send, send_filtered, send_round}

-- One step of one goroutine that is there, from `s`. The loop of an unfiltered send holds the lock from
-- `lock` to the `round` that sends. A context that is done lets a goroutine give up: that is `quit` for
-- the one that holds the lock and `filtered_quit` for a filtered send.
pub data Turn (done : Bool) (s : Subscription) : Subscription → Type 0 where
  filtered :
      (t : Task) (xs ys : List Task)
      → has_filters s ≡ true
      → s.waiting ≡ xs ++ t ∷ ys
      → Turn done s (send_filtered t (record s { waiting = xs ++ ys }))
  filtered_quit :
      (t : Task) (xs ys : List Task)
      → done ≡ true
      → has_filters s ≡ true
      → s.waiting ≡ xs ++ t ∷ ys
      → Turn done s (record s { waiting = xs ++ ys })
  lock :
      (t : Task) (xs ys : List Task)
      → has_filters s ≡ false
      → s.holder ≡ none
      → s.waiting ≡ xs ++ t ∷ ys
      → Turn done s (record s { waiting = xs ++ ys; holder = some t })
  round : (t : Task) → s.holder ≡ some t → Turn done s (send_round t s)
  quit : (t : Task) → done ≡ true → s.holder ≡ some t → Turn done s (record s { holder = none })

-- The goroutines that are there run; none is started.
pub data Turns (done : Bool) (s : Subscription) : Subscription → Type 0 where
  still : Turns done s s
  moves : {t u : Subscription} → Turns done s t → Turn done t u → Turns done s u

-- A step of a goroutine, or the start of one, by `updateSubs` or `startSub`, for any event.
pub data Step (done : Bool) (s : Subscription) : Subscription → Type 0 where
  spawn : (t : Task) → Step done s (start_send t s)
  turns : {u : Subscription} → Turn done s u → Step done s u

pub data Reach (done : Bool) (s : Subscription) : Subscription → Type 0 where
  here : Reach done s s
  next : {t u : Subscription} → Reach done s t → Step done t u → Reach done s u
