-- ===== src/Es/Filter/Schedule.antt =====
-- The parallel filtration gives one result, whatever the order of its goroutines.
use mathlib.Core.List.{Perm, Permᴰ}
use mathlib.Core.Logic.{∥∥₁_elim}
use srvbus.Common.{
  ◌≡◌, refl, ap, ◌∙◌, ◌↔◌, Bool, true, false, none, some, List, [], ◌∷◌, All, arith, if◌then◌else◌,
}
use srvbus.Es.Event.{Envelope}
use srvbus.Es.Filter.{Filter, filter_step, filter_fails, filter}

failed : (ee : Envelope) (fs : List Filter) → filter_fails ee true fs ≡ true
unfolding filter_fails filter_step
failed ee [] = refl
failed ee (f ∷ fs) = failed ee fs

module _ (ee : Envelope) where
  -- The check that every filter accepts the envelope.
  abbrev Passes : List Filter → Type 0
  Passes = All (λ f. f ee ≡ true)

  Passes-of_fails : (fs : List Filter) → filter_fails ee false fs ≡ false → Passes fs
  unfolding filter_fails filter_step
  Passes-of_fails [] h = tt
  Passes-of_fails (f ∷ fs) h = ground (arith, failed ee fs, Passes-of_fails fs)

  fails_of_Passes : (fs : List Filter) → Passes fs → filter_fails ee false fs ≡ false
  unfolding filter_fails filter_step
  fails_of_Passes [] h = refl
  fails_of_Passes (f ∷ fs) h = rw (h.0) (fails_of_Passes fs h.1)

  -- Adjacent goroutines may be swapped.
  step_comm :
      (fail : Bool) (f g : Filter)
      → filter_step ee (filter_step ee fail f) g ≡ filter_step ee (filter_step ee fail g) f
  unfolding filter_step
  step_comm fail f g = ground arith

  fails-Permᴰ :
      {fs gs : List Filter} (fail : Bool)
      → Permᴰ fs gs
      → filter_fails ee fail fs ≡ filter_fails ee fail gs
  unfolding filter_fails
  fails-Permᴰ fail Permᴰ.nil = refl
  fails-Permᴰ fail (Permᴰ.cons {a} {b} {l₁ = xs} e p) =
      ap (λ h. filter_fails ee (filter_step ee fail h) xs) e ∙ fails-Permᴰ (filter_step ee fail b) p
  fails-Permᴰ fail (Permᴰ.swap {a} {b} {l} e d) =
      rw (← e, ← d) (ap (λ x. filter_fails ee x l) (step_comm fail a b))
  fails-Permᴰ fail (Permᴰ.trans p q) = fails-Permᴰ fail p ∙ fails-Permᴰ fail q

-- An envelope goes through exactly when every filter accepts it.
filter_iff :
    (fs : List Filter) (ee : Envelope) → (filter fs ee ≡ some ee) ↔ All (λ f. f ee ≡ true) fs
unfolding filter
filter_iff fs ee =
    ((λ e. Passes-of_fails ee fs (ground arith)), (λ h. rw (fails_of_Passes ee fs h)))

Bool-set : IsSet Bool
Bool-set = hlevel

-- The order in which the goroutines of a filtration run does not change its result.
filter-perm : (ee : Envelope) {fs gs : List Filter} → Perm fs gs → filter fs ee ≡ filter gs ee
unfolding filter
filter-perm ee {fs} {gs} p =
    ap (λ b. if b then none else some ee)
      (∥∥₁_elim p (Bool-set (filter_fails ee false fs) (filter_fails ee false gs))
        (fails-Permᴰ ee false))
