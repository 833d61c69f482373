-- ===== src/S2/Tests.antt =====
-- Runs of the service server, after s2/s2_test.go.
use mathlib.Core.List.{Permᴰ}
use srvbus.Common.{
  ◌↔◌, List, if◌then◌else◌, nil_uuid, ◌==◌, length, nat_eq, ◌≡◌, refl, arith, true, false, some,
  none, [], ◌∷◌, ok, Uuid, Map, lookup, insert, All, ◌≢◌,
}
use srvbus.Common.Text.{Str, codes, str_beq}
use srvbus.Es.Topic.{no_ctx, live}
use srvbus.Es.Server.Emitter.{emit_via}
use srvbus.S2.Service.{
  ss_registered, ss_ready, ss_running, ss_ended, ss_failed, SvcState, ServiceRecord, set_state,
  state_name,
}
use srvbus.S2.Server.{
  ServiceServer, gone, waits, taken, new, run, exec_service, add_service, emit_event,
  resume_service,
}
use srvbus.S2.Steps.{
  mark_ready, take_request, begin_run, Reach, here, next, runs, adds, marks, receives, takes,
  begins, resumes,
}
use srvbus.S2.Calls.{IsStarted}
use srvbus.S2.States.{runs_started}
use srvbus.S2.Stat.{info_of, add_service_info, add_all, stat, count_in, stat-count_in}
use srvbus.S2.Waiting.{
  wait_for_svc, wait_sum, running_ids, wait_for_service, AllOver, wait_for_service-all,
}
use srvbus.S2.Twice.{quiet, runs_twice}
use srvbus.S2.Locked.{resume_deadlock}

abbrev show_uuid : Uuid → Str
show_uuid n = n ∷ []

-- a registered service
abbrev service : ServiceRecord
service = record {
  id = 5;
  name = codes "svc";
  svc = 1;
  state = ss_registered;
  last_error = none;
  stop_channel = none;
}

abbrev services : Map Uuid ServiceRecord
services = (5, service) ∷ []

known : lookup 5 services ≡ some service
unfolding lookup
known = refl

runs_twice_example :
    (u : ServiceServer) × Reach show_uuid (quiet 1 (codes "S2") services live none []) u
    × (u.running ≡ 5 ∷ 5 ∷ [])
runs_twice_example =
    runs_twice show_uuid 0 1 (codes "S2") services live none [] 5 service known refl

abbrev made : ServiceServer
made = record {
  id = 1;
  name = codes "S2";
  services = [];
  ctx = no_ctx;
  runned = false;
  e_srv = none;
  es_topic = [];
  loop = gone;
  resuming = none;
  execs = [];
  sends = [];
  starting = [];
  running = [];
  stops = [];
}

is_made : new show_uuid 0 9 1 (codes "S2") true none ≡ ok made
unfolding new emit_via
is_made = refl

-- the server after a service was added, started, and began to run
abbrev added : ServiceServer
added = (add_service show_uuid 0 5 (run show_uuid 0 made).0 (codes "svc") (some 1) none true).0

abbrev received : ServiceServer
received = record (mark_ready 5 service [] added) { loop = taken 5; sends = [] }

abbrev busy : ServiceServer
busy = begin_run show_uuid 0 5 (record service { state = ss_ready }) [] (take_request 5 received)

busy-Reach : Reach show_uuid made busy
unfolding run add_service exec_service lookup insert mark_ready set_state take_request emit_event
busy-Reach =
    let a = next (next here (runs 0 refl)) (adds 0 5 (codes "svc") (some 1) none true refl refl) in
    let r = next (next a (marks 5 service [] [] refl refl)) (receives 5 [] [] refl refl) in
    next (next r (takes 5 refl refl))
      (begins 0 5 (record service { state = ss_ready }) [] [] refl refl)

runs_started_example : All (IsStarted busy.services) busy.running
runs_started_example = runs_started show_uuid 0 9 1 (codes "S2") none is_made busy-Reach

stat-count_in_example :
    ((stat show_uuid busy).services ≡ length busy.services)
    × ((info_of (state_name ss_running) (stat show_uuid busy).splits).num
        ≡ count_in ss_running busy.services)
stat-count_in_example = stat-count_in show_uuid busy ss_running

one_runs : (info_of (state_name ss_running) (stat show_uuid busy).splits).num ≡ 1
unfolding add_service_info add_all stat run add_service exec_service lookup insert mark_ready
    set_state take_request begin_run str_beq emit_event
one_runs = refl

-- A service with a stop channel is resumed on a server that never ran: the call gets the lock, and
-- there is no loop that would receive.
abbrev stuck : ServiceServer
stuck =
    (resume_service (add_service show_uuid 0 5 made (codes "svc") (some 1) (some 2) false).0 5).0

stuck-Reach : Reach show_uuid made stuck
unfolding add_service lookup insert emit_event
stuck-Reach =
    next (next here (adds 0 5 (codes "svc") (some 1) (some 2) false refl refl)) (resumes 5 refl)

gone-apart : gone ≢ waits
gone-apart e = ground arith

stuck-lock : stuck.resuming ≡ some 5
unfolding add_service lookup insert emit_event resume_service set_state
stuck-lock = refl

stuck-loop : stuck.loop ≢ waits
unfolding add_service lookup insert emit_event resume_service set_state
stuck-loop = gone-apart

resume_deadlock_example : (stuck.resuming ≡ some 5) × (stuck.loop ≡ stuck.loop)
resume_deadlock_example = resume_deadlock show_uuid {s = stuck} stuck-lock stuck-loop here

-- two services that run, and the answer of the second comes first
abbrev two : ServiceServer
two = record made {
  services =
      (5, record service { state = ss_running })
      ∷ (7, record service { id = 7; state = ss_running })
      ∷ [];
}

abbrev seen : Uuid → List SvcState
seen k = if k == 5 then ss_running ∷ ss_ended ∷ [] else ss_failed ∷ []

crossed : Permᴰ (running_ids two.services) (7 ∷ 5 ∷ [])
unfolding running_ids
crossed = Permᴰ.swap refl refl

wait_for_service-all_example :
    (wait_for_service two nil_uuid seen (some 7 ∷ some 5 ∷ []) ≡ ok (some true))
    ↔ AllOver seen two.services
wait_for_service-all_example = wait_for_service-all two seen crossed

both_end : wait_for_service two nil_uuid seen (some 7 ∷ some 5 ∷ []) ≡ ok (some true)
unfolding wait_for_service wait_sum wait_for_svc running_ids
both_end = refl
