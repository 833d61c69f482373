-- ===== src/S2/Service.antt =====
-- s2/s2.go: a registered service, its state, and the errors of the package.
use srvbus.Common.{ℕ, Bool, true, false, Option, none, some, Uuid}
use srvbus.Common.Text.{Str, codes}

-- `svcState`
pub data SvcState : Type 0 where
  ss_registered ss_ready ss_running ss_ended ss_failed : SvcState

-- `svcState.String`
abbrev pub state_name : SvcState → Str
state_name ss_registered = codes "Registered"
state_name ss_ready = codes "Ready"
state_name ss_running = codes "Running"
state_name ss_ended = codes "Ended"
state_name ss_failed = codes "Failed"

-- the number of a state
abbrev pub state_digit : SvcState → Str
state_digit ss_registered = codes "0"
state_digit ss_ready = codes "1"
state_digit ss_running = codes "2"
state_digit ss_ended = codes "3"
state_digit ss_failed = codes "4"

pub data S2Err : Type 0 where
  no_logger no_service not_runned already_runned : S2Err
  unknown_service no_stop_channel : Uuid → S2Err
  invalid_state : Uuid → SvcState → S2Err

abbrev pub is_registered : SvcState → Bool
is_registered ss_registered = true
is_registered _ = false

abbrev pub is_ready : SvcState → Bool
is_ready ss_ready = true
is_ready _ = false

abbrev pub is_running : SvcState → Bool
is_running ss_running = true
is_running _ = false

-- `srSt == SSEnded || srSt == SSFailed`
abbrev pub is_final : SvcState → Bool
is_final ss_ended = true
is_final ss_failed = true
is_final _ = false

-- `serviceRecord`. The service itself is a number that names the `ServiceRunner`, the channel one
-- that names it, and an error the number of the value that `Run` returned.
pub record ServiceRecord : Type 0 where
  pub id : Uuid
  pub name : Str
  pub svc : ℕ
  pub state : SvcState
  pub last_error : Option ℕ
  pub stop_channel : Option ℕ

-- `setState`
unfoldable pub set_state : SvcState → Option ℕ → ServiceRecord → ServiceRecord
set_state ns e sr = record sr { state = ns; last_error = e }

-- how the service ends, by what its `Run` returned
unfoldable pub finish : Option ℕ → ServiceRecord → ServiceRecord
unfolding set_state
finish none sr = set_state ss_ended none sr
finish (some e) sr = set_state ss_failed (some e) sr
