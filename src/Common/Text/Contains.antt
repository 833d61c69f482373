-- ===== src/Common/Text/Contains.antt =====
-- `contains` decides whether one text stands inside another.
use mathlib.Core.Path.{◌≡◌, refl, ap}
use mathlib.Core.Logic.{◌↔◌, inl, inr}
use mathlib.Core.Bool.{true}
use mathlib.Core.List.{[], ◌∷◌, ◌++◌}
use native.Mathlib.Omega.{arith}
use srvbus.Common.Tests.{Bool-cases}
use srvbus.Common.Text.{Str, has_prefix, contains}

-- The text `pat` stands somewhere in `s`.
abbrev pub IsInside : Str → Str → Type 0
IsInside pat s = (before : Str) × (after : Str) × (s ≡ before ++ (pat ++ after))

has_prefix-append : (pat after : Str) → has_prefix (pat ++ after) pat ≡ true
has_prefix-append [] after = refl
has_prefix-append (p ∷ pat) after = ground (arith, has_prefix-append pat after)

has_prefix-cases : (s pat : Str) → has_prefix s pat ≡ true → (after : Str) × (s ≡ pat ++ after)
has_prefix-cases s [] h = (s, refl)
has_prefix-cases [] (p ∷ pat) h = cc
has_prefix-cases (c ∷ s) (p ∷ pat) h =
    let (after, e) = has_prefix-cases s pat (ground arith) in (after, ground arith)

contains-IsInside : (s pat : Str) → contains s pat ≡ true → IsInside pat s
unfolding contains
contains-IsInside [] pat h = let (after, e) = has_prefix-cases [] pat h in ([], after, e)
contains-IsInside (c ∷ s) pat h = elim (Bool-cases (has_prefix (c ∷ s) pat)) [
  | inl hit ↦ let (after, e) = has_prefix-cases (c ∷ s) pat hit in ([], after, e)
  | inr miss ↦
      let (before, after, e) = contains-IsInside s pat (rw miss at h) in
      (c ∷ before, after, ap (λ l. c ∷ l) e)
]

prefix-contains : (s pat : Str) → has_prefix s pat ≡ true → contains s pat ≡ true
unfolding contains
prefix-contains [] pat h = h
prefix-contains (c ∷ s) pat h = rw h

IsInside-contains : (before pat after : Str) → contains (before ++ (pat ++ after)) pat ≡ true
unfolding contains
IsInside-contains [] pat after = prefix-contains (pat ++ after) pat (has_prefix-append pat after)
IsInside-contains (c ∷ before) pat after = rw (IsInside-contains before pat after) (ground arith)

-- The test holds exactly of the texts that stand inside.
contains_iff : (s pat : Str) → (contains s pat ≡ true) ↔ IsInside pat s
contains_iff s pat = (
  contains-IsInside s pat,
  λ w. let (before, after, e) = w in rw e (IsInside-contains before pat after),
)
