-- ===== src/Es/Filter.antt =====
-- The filters of es/subscriptions.go. A filter is called on envelopes that `check` passed; on one
-- with no event, where the source would panic, the tests here answer false.
pub mod Schedule
use srvbus.Common.{
  ℕ, Bool, true, false, Option, none, some, List, [], ◌∷◌, ◌==◌, if◌then◌else◌, not,
}
use srvbus.Common.Text.{Str, str_eq, contains}
use srvbus.Ds.{data_of}
use srvbus.Es.Event.{Event, Envelope}

abbrev pub Filter : Type 0
Filter = Envelope → Bool

abbrev on_event : (Event → Bool) → Filter
on_event test ee = elim ee.event [ none ↦ false | some e ↦ test e ]

unfoldable pub with_name : Str → Filter
with_name name = on_event (λ e. name == e.item.name)

unfoldable pub with_sub_name : Str → Filter
with_sub_name str = on_event (λ e. contains e.item.name str)

unfoldable with_sub_data : List ℕ → Filter
with_sub_data dat = on_event (λ e. contains (data_of e.item) dat)

unfoldable pub with_substr : Str → Filter
with_substr str = on_event (λ e. contains (data_of e.item) str)

-- One goroutine of `subscription.filter`, under the lock: it does nothing once the filter failed.
unfoldable pub filter_step : Envelope → Bool → Filter → Bool
filter_step ee fail f = if fail then true else not (f ee)

-- The goroutines in the order in which they get the lock.
unfoldable pub filter_fails : Envelope → Bool → List Filter → Bool
filter_fails ee fail [] = fail
filter_fails ee fail (f ∷ fs) = filter_fails ee (filter_step ee fail f) fs

-- `subscription.filter`, with the filters in the order of their goroutines
unfoldable pub filter : List Filter → Envelope → Option Envelope
unfolding filter_step filter_fails
filter fs ee = if filter_fails ee false fs then none else some ee
