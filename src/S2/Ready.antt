-- ===== src/S2/Ready.antt =====
-- s2/services.go: the ready services over a message server. A service is what `New...Service` closes
-- over; running it is a function of the server. The text that an output service prints is given by its
-- bytes, since formatting is a matter of the package fmt.
pub mod Reading
mod Tests
use srvbus.Common.{
  ℕ, zero, suc, ◌+◌, ◌≡◌, ◌⊎◌, inl, inr, refl, ap, ◌∙◌, Bool, true, false, not, ◌&&◌, ◌||◌, Option,
  none, some, List, [], ◌∷◌, ◌++◌, arith, Uuid, nil_uuid, nat_eq, Result, ok, err, ◌==◌, leb,
  length, if◌then◌else◌, ◌>>=◌,
}
use srvbus.Common.Int.{ℤ, pos, negsuc}
use srvbus.Common.Text.{Str, is_empty}
use srvbus.Ms.Message.{MsErr, Message}
use srvbus.Ms.Queue.{MessageEnvelope}
use srvbus.Ms.Server.{MessageServer, has_queue, wait_for_queue, put, get}

-- The errors of the constructors and of the services. `unfinished` stands for a loop that needs more fuel.
pub data ReadyErr : Type 0 where
  no_writer invalid_parameter no_queue timeout cancelled unfinished : ReadyErr
  waiting_failed reading_failed : MsErr → ReadyErr

-- `MustServiceRunner`; `none` is a panic
unfoldable must_service_runner : {A : Type 0} → Result ReadyErr A → Option A
must_service_runner (ok s) = some s
must_service_runner (err e) = none

-- `NewOutputService`, on a writer by what was written to it; `none` is a nil writer
unfoldable new_output_service : Option Str → Str → Result ReadyErr (Unit → Str)
new_output_service none text = err no_writer
new_output_service (some w) text = ok (λ _. w ++ text)

pub record PutService : Type 0 where
  pub queue : Str
  pub sender : Uuid
  pub msgs : List Message

-- `NewPutMessagesService`; `has_server` tells whether the message server is not nil
unfoldable new_put_service : Bool → Str → Uuid → List Message → Result ReadyErr PutService
new_put_service has_server queue sender msgs =
    if not has_server || (is_empty queue || (sender == nil_uuid || leb (length msgs) 0))
    then err invalid_parameter
    else ok (record { queue = queue; sender = sender; msgs = msgs })

-- its `Run`
unfoldable run_put : (Uuid → Str) → ℕ → PutService → MessageServer → MessageServer × Option MsErr
run_put show_uuid now p s = put show_uuid now s p.sender p.queue p.msgs

pub record GetService : Type 0 where
  pub queue : Str
  pub receiver : Uuid
  pub from_begin : Bool
  pub wait_for : Bool  -- the source's `waitForQueue`
  pub min_number : ℤ

-- `NewGetMessagesService`; `has_channel` tells whether the result channel is not nil
unfoldable pub new_get_service :
    Bool → Bool → Str → Uuid → Bool → Bool → ℤ → Result ReadyErr GetService
new_get_service has_server has_channel queue receiver from_begin wait_for min_number =
    if not has_server || (is_empty queue || (not has_channel || receiver == nil_uuid))
    then err invalid_parameter
    else ok (record {
      queue = queue;
      receiver = receiver;
      from_begin = from_begin;
      wait_for = wait_for;
      min_number = min_number;
    })

-- `if minMessagesNumber <= 0 { minMessagesNumber = -1 }`, with `none` for -1
unfoldable pub at_least : ℤ → Option ℕ
at_least (pos zero) = none
at_least (pos (suc n)) = some (suc n)
at_least (negsuc n) = none

-- `len(mm) >= minMessagesNumber`
unfoldable pub goes_on : Option ℕ → ℕ → Bool
goes_on none n = true
goes_on (some least) n = leb least n

-- The reading loop. `done` tells whether the context is done.
unfoldable pub read_loop :
    ℕ
    → Bool
    → GetService
    → MessageServer
    → List MessageEnvelope
    → Result ReadyErr (MessageServer × List MessageEnvelope)
unfolding at_least goes_on
read_loop zero done g s mm = err unfinished
read_loop (suc fuel) done g s mm =
    if not (goes_on (at_least g.min_number) (length mm))
    then ok (s, mm)
    else if done
    then err cancelled
    else elim (get s g.receiver g.queue g.from_begin) [
      | err e ↦ err (reading_failed e)
      | ok (s', mes) ↦ elim (at_least g.min_number) [
        | none ↦ ok (s', mm ++ mes)
        | some least ↦ read_loop fuel done g s' (mm ++ mes)
      ]
    ]

-- The server as it is when the queue is found: at once, or at one of the seconds, at which the server
-- is as `later` tells, before the wait is over.
unfoldable pub await_queue :
    GetService → MessageServer → List MessageServer → Result ReadyErr MessageServer
await_queue g s later =
    if has_queue s g.queue
    then ok s
    else if not g.wait_for
    then err no_queue
    else elim (wait_for_queue s g.queue) [
      | some e ↦ err (waiting_failed e)
      | none ↦ first_with g later
    ]
  where
    first_with : GetService → List MessageServer → Result ReadyErr MessageServer
    first_with g [] = err timeout
    first_with g (s ∷ later) =
        let rest = first_with g later in if has_queue s g.queue then ok s else rest

abbrev pub reading_fuel : ℕ
reading_fuel = 2

-- `Run` of the service, with what the goroutine at its end has to send
unfoldable pub run_get :
    Bool
    → GetService
    → MessageServer
    → List MessageServer
    → Result ReadyErr (MessageServer × List MessageEnvelope)
unfolding read_loop await_queue
run_get done g s later = await_queue g s later >>= λ s'. read_loop reading_fuel done g s' []
