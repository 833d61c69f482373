-- ===== src/Grpc/Events/Recursion.antt =====
-- `ID` of the event service calls itself, and an event that is absent makes `AddEvent` panic.
use srvbus.Common.{
  ℕ, zero, suc, ◌≡◌, refl, none, some, Uuid, Option, err, arith, Result-cases, Option-cases, inl,
  inr,
}
use srvbus.Common.Text.{Str, trim}
use srvbus.Es.Event.{new_event_with_string}
use srvbus.Es.Server.{EventServer}
use srvbus.Grpc.{panics}
use srvbus.Grpc.Events.{EvtServer, id_of, checked, add_named_event, add_event}

-- On a service that has a host server, `ID` does not return, however many calls it makes.
pub id_of-never :
    (calls : ℕ) (h : EvtServer) {s : EventServer} → h.srv ≡ some s → id_of calls h ≡ none
unfolding id_of
id_of-never zero h e = refl
id_of-never (suc calls) h e = ground (arith, id_of-never calls h e)

-- Whatever else it says, a request without an event makes `AddEvent` panic, and nothing is stored.
add_event-panics :
    (parse_uuid : Str → Option Uuid) (now : ℕ) (server_id topic sender_id : Str) (h : EvtServer)
    → add_event parse_uuid now server_id topic sender_id none h ≡ (h, err panics)
unfolding add_event add_named_event new_event_with_string trim
add_event-panics parse_uuid now server_id topic sender_id h =
    elim (Result-cases (checked parse_uuid h server_id)) [
      | inl (e, f) ↦ ground arith
      | inr (s, f) ↦ elim (Option-cases (parse_uuid (trim sender_id))) [
        | inl n ↦ ground arith
        | inr (who, n) ↦ ground arith
      ]
    ]
