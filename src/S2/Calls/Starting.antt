-- ===== src/S2/Calls/Starting.antt =====
-- `Run` and `AddService` of s2/s2.go: what they keep.
use srvbus.Common.{
  ℕ, ◌≡◌, Bool, true, false, Option, none, some, Uuid, nat_eq, lookup, Bool-cases, inl, inr,
}
use srvbus.Common.Text.{Str}
use srvbus.S2.Server.{ServiceServer, run, new_record, add_service}
use srvbus.S2.Calls.{Inv, add-Inv, exec-Inv, emit_event-Inv}

pub run-Inv :
    (show_uuid : Uuid → Str) (now : ℕ) (s : ServiceServer) → Inv s → Inv (run show_uuid now s).0
unfolding run
run-Inv show_uuid now s v = elim (Bool-cases s.runned) [
  | inl e ↦ simp e v
  | inr e ↦ simp e (
      emit_event-Inv show_uuid now _ _ _ (record {
        execs = v.execs;
        sends = tt;
        held = tt;
        waiting = v.waiting;
        starting = v.starting;
        running = v.running;
        stops = v.stops;
      }))
]

pub add_service-Inv :
    (show_uuid : Uuid → Str) (now : ℕ) (fresh : Uuid) (s : ServiceServer) (name : Str)
    (svc stop_ch : Option ℕ) (start : Bool)
    → lookup fresh s.services ≡ none
    → Inv s
    → Inv (add_service show_uuid now fresh s name svc stop_ch start).0
unfolding add_service
add_service-Inv show_uuid now fresh s name none stop_ch start h v = v
add_service-Inv show_uuid now fresh s name (some svc) stop_ch false h v =
    emit_event-Inv show_uuid now _ _ _
      (add-Inv s fresh (new_record show_uuid now fresh name svc stop_ch) h v)
add_service-Inv show_uuid now fresh s name (some svc) stop_ch true h v = exec-Inv _ fresh (
    emit_event-Inv show_uuid now _ _ _
      (add-Inv s fresh (new_record show_uuid now fresh name svc stop_ch) h v))
