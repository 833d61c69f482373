-- ===== src/S2/States.antt =====
-- What runs on a service server was asked to run.
use srvbus.Common.{ℕ, ◌≡◌, true, Option, none, [], ok, arith, Uuid, nat_eq, All, All-middle}
use srvbus.Common.Text.{Str}
use srvbus.Es.Server.{EventServer}
use srvbus.S2.Server.{gone, ServiceServer, new, emit_event}
use srvbus.S2.Steps.{
  halt, Step, runs, execs_service, adds, stops_service, resumes, marks, receives, receives_resumed,
  takes, begins, ends, stopped, gives_up, gives_up_stop, cancels, closes, halts, Reach, here, next,
}
use srvbus.S2.Calls.{IsStarted, Inv, exec-Inv, stop-Inv, resume-Inv, emit_event-Inv}
use srvbus.S2.Calls.Starting.{run-Inv, add_service-Inv}
use srvbus.S2.Looping.{
  take-Inv, mark-Inv, begin-Inv, receive-Inv, receive_resumed-Inv, end-Inv, stopped-Inv,
}

module _ (show_uuid : Uuid → Str) where
  pub step-Inv : {s t : ServiceServer} → Step show_uuid s t → Inv s → Inv t
  step-Inv {s} (runs now f) v = run-Inv show_uuid now s v
  step-Inv {s} (execs_service id f) v = exec-Inv s id v
  step-Inv {s} (adds now fresh name svc stop_ch start f h) v =
      add_service-Inv show_uuid now fresh s name svc stop_ch start h v
  step-Inv {s} (stops_service id f) v = stop-Inv s id v
  step-Inv {s} (resumes id f) v = resume-Inv s id v
  step-Inv {s} (marks id sr xs ys e k) v = mark-Inv s id sr xs ys e v
  step-Inv {s} (receives id xs ys l e) v = receive-Inv s id xs ys e v
  step-Inv {s} (receives_resumed id l e) v = receive_resumed-Inv s id e v
  step-Inv {s} (takes id l f) v = take-Inv s id l v
  step-Inv {s} (begins now id sr xs ys e k) v = begin-Inv show_uuid now s id sr xs ys e v
  step-Inv {s} (ends now id result sr xs ys e k) v = end-Inv show_uuid now s id result sr xs ys e v
  step-Inv {s} (stopped id sr xs ys e k) v = stopped-Inv s id sr xs ys e v
  step-Inv {s} (gives_up id xs ys c e) v = record {
    execs = v.execs;
    sends = (All-middle _ xs id ys (rw e at v.sends)).1;
    held = v.held;
    waiting = v.waiting;
    starting = v.starting;
    running = v.running;
    stops = v.stops;
  }
  step-Inv {s} (gives_up_stop id xs ys c e) v = record {
    execs = v.execs;
    sends = v.sends;
    held = v.held;
    waiting = v.waiting;
    starting = v.starting;
    running = v.running;
    stops = (All-middle _ xs id ys (rw e at v.stops)).1;
  }
  step-Inv (cancels c) v = record {
    execs = v.execs;
    sends = v.sends;
    held = v.held;
    waiting = v.waiting;
    starting = v.starting;
    running = v.running;
    stops = v.stops;
  }
  step-Inv (closes c l) v = record {
    execs = v.execs;
    sends = v.sends;
    held = tt;
    waiting = v.waiting;
    starting = v.starting;
    running = v.running;
    stops = v.stops;
  }
  step-Inv (halts now l f) v =
      unfold halt in
      emit_event-Inv show_uuid now _ _ _ (record {
        execs = v.execs;
        sends = v.sends;
        held = tt;
        waiting = v.waiting;
        starting = v.starting;
        running = v.running;
        stops = v.stops;
      })

  reach-Inv : {s t : ServiceServer} → Reach show_uuid s t → Inv s → Inv t
  reach-Inv here v = v
  reach-Inv (next r st) v = step-Inv st (reach-Inv r v)

new-Inv :
    (show_uuid : Uuid → Str) (now fresh id : ℕ) (name : Str) (e_srv : Option EventServer)
    {s : ServiceServer}
    → new show_uuid now fresh id name true e_srv ≡ ok s
    → Inv s
unfolding new emit_event
new-Inv show_uuid now fresh id name e_srv {s} made = record {
  execs = let e : s.execs ≡ [] = ground arith in rw e tt;
  sends = let e : s.sends ≡ [] = ground arith in rw e tt;
  held = let e : s.loop ≡ gone = ground arith in rw e tt;
  waiting = let e : s.resuming ≡ none = ground arith in rw e tt;
  starting = let e : s.starting ≡ [] = ground arith in rw e tt;
  running = let e : s.running ≡ [] = ground arith in rw e tt;
  stops = let e : s.stops ≡ [] = ground arith in rw e tt;
}

-- On a server that `New` made, whatever is called and however the goroutines run: each run of a
-- service is for a service on the server, and one that has left the state of a service that was
-- only registered.
pub runs_started :
    (show_uuid : Uuid → Str) (now fresh id : ℕ) (name : Str) (e_srv : Option EventServer)
    {s t : ServiceServer}
    → new show_uuid now fresh id name true e_srv ≡ ok s
    → Reach show_uuid s t
    → All (IsStarted t.services) t.running
runs_started show_uuid now fresh id name e_srv made r =
    (reach-Inv show_uuid r (new-Inv show_uuid now fresh id name e_srv made)).running
