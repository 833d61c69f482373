-- ===== src/Common/Text/Split.antt =====
-- Splitting at slashes against putting parts together.
use Prim.Native.Nat.{ℕ}
use mathlib.Core.Path.{◌≡◌, refl}
use mathlib.Core.Logic.{◌≢◌, inl, inr}
use mathlib.Core.List.{List, [], ◌∷◌, ◌++◌}
use native.Mathlib.Omega.{arith}
use srvbus.Common.Tests.{nat_beq, Bool-cases}
use srvbus.Common.Lists.{All}
use srvbus.Common.Text.{Str, slash, cons_head, split}

abbrev pub HasNoSlash : Str → Type 0
HasNoSlash = All (λ c. c ≢ slash)

split-ne-nil : (s : Str) → split s ≢ []
unfolding split
split-ne-nil [] = λ e. cc
split-ne-nil (c ∷ s) = ground (arith, split-ne-nil s)

cons_head-append :
    (c : ℕ) (ws vs : List Str) → ws ≢ [] → cons_head c (ws ++ vs) ≡ cons_head c ws ++ vs
cons_head-append c [] vs h = absurd (h refl)
cons_head-append c (w ∷ ws) vs h = refl

-- A slash between two texts splits them.
pub split-append : (s t : Str) → split (s ++ slash ∷ t) ≡ split s ++ split t
unfolding split
split-append [] t = refl
split-append (c ∷ s) t =
    ground (arith, split-append s t, cons_head-append c (split s) (split t) (split-ne-nil s))

-- A text with no slash is its only part.
pub split_one : (s : Str) → HasNoSlash s → split s ≡ s ∷ []
unfolding split
split_one [] h = refl
split_one (c ∷ s) h = ground (arith, split_one s h.1, h.0)

cons_head-All :
    (c : ℕ) (ws : List Str) → c ≢ slash → All HasNoSlash ws → All HasNoSlash (cons_head c ws)
cons_head-All c [] h a = ((h, tt), tt)
cons_head-All c (w ∷ ws) h a = ((h, a.0), a.1)

-- No part of a split text holds a slash.
pub split-HasNoSlash : (s : Str) → All HasNoSlash (split s)
unfolding split
split-HasNoSlash [] = (tt, tt)
split-HasNoSlash (c ∷ s) = elim (Bool-cases (nat_beq c slash)) [
  | inl hit ↦ rw hit (tt, split-HasNoSlash s)
  | inr miss ↦ rw miss (cons_head-All c (split s) (ground arith) (split-HasNoSlash s))
]
