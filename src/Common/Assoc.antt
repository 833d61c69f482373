-- ===== src/Common/Assoc.antt =====
-- Go maps as association lists. `insert` overwrites in place or adds at the end; the iteration
-- order of a Go map is unspecified, and nothing here depends on it but what walks a map.
use mathlib.Core.Path.{◌≡◌, refl}
use mathlib.Core.Option.{Option, none, some}
use mathlib.Core.List.{List, [], ◌∷◌}
use native.Mathlib.Omega.{arith}
use srvbus.Common.Tests.{Eq, ◌==◌, if◌then◌else◌}

abbrev pub Map : Type 0 → Type 0 → Type 0
Map K V = List (K × V)

module _ {K V : Type 0} ⦃e : Eq K⦄ where
  -- v, ok := m[k]
  unfoldable pub lookup : K → Map K V → Option V
  lookup key ((j, held) ∷ rest) = if j == key then some held else lookup key rest
  lookup key [] = none

  -- m[k] = v
  unfoldable pub insert : K → V → Map K V → Map K V
  insert key new ((j, held) ∷ rest) =
      if j == key then (key, new) ∷ rest else (j, held) ∷ insert key new rest
  insert key new [] = (key, new) ∷ []

  -- delete(m, k)
  unfoldable pub delete : K → Map K V → Map K V
  delete k [] = []
  delete k ((j, w) ∷ m) = let rest = delete k m in if j == k then rest else (j, w) ∷ rest

  pub lookup-insert :
      (key asked : K) (new : V) (table : Map K V)
      → lookup asked (insert key new table)
        ≡ (if key == asked then some new else lookup asked table)
  unfolding insert lookup
  lookup-insert key asked new ((i, held) ∷ rest) = ground (
    arith,
    e.beq_iff key asked,
    e.beq_iff i key,
    e.beq_iff i asked,
    lookup-insert key asked new rest,
  )
  lookup-insert key asked new [] = refl

  pub lookup-delete :
      (k j : K) (m : Map K V) → lookup j (delete k m) ≡ (if k == j then none else lookup j m)
  unfolding lookup delete
  lookup-delete k j [] = ground arith
  lookup-delete k j ((i, w) ∷ m) =
      ground (arith, e.beq_iff k j, e.beq_iff i k, e.beq_iff i j, lookup-delete k j m)

pub ruleset map_laws = (lookup-insert, lookup-delete)
