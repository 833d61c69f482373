-- ===== src/Es/Subscription/Order.antt =====
-- Sequential sending: a subscription to new events gets them in order, without gaps or repeats.
use srvbus.Common.{ℕ, suc, ◌+◌, ◌≡◌, false, List, [], ◌∷◌, length}
use srvbus.Common.Int.{pred_ℕ}
use srvbus.Es.Subscription.{Task, Subscription, has_filters}

-- The tasks carry the positions n, n + 1, n + 2, …
abbrev pub Consecutive : ℕ → List Task → Type 0
Consecutive n [] = Unit
Consecutive n (t ∷ ts) = (t.pos ≡ n) × Consecutive (suc n) ts

-- What holds while a subscription that began before position `n` is served.
record Inv (n : ℕ) (s : Subscription) : Type 0 where
  unfiltered : has_filters s ≡ false
  order : Consecutive n s.sent
  last : s.last_readed ≡ pred_ℕ (n + length s.sent)
