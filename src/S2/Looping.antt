-- ===== src/S2/Looping.antt =====
-- What the loop of a service server and the goroutines of the services keep of what was asked to run.
use mathlib.Core.Path.{subst}
use srvbus.Common.{
  ℕ, ◌≡◌, ◌⊎◌, refl, false, Option, none, some, List, [], ◌∷◌, ◌++◌, arith, Uuid, nat_eq, lookup,
  All, All-append, All-middle, Option-cases, Bool-cases, inl, inr,
}
use srvbus.Common.Text.{Str}
use srvbus.S2.Service.{
  ss_ready, ss_running, ss_ended, is_registered, is_ready, ServiceRecord, set_state, finish,
}
use srvbus.S2.Server.{waits, taken, ServiceServer}
use srvbus.S2.Steps.{mark_ready, take_request, begin_run, end_run, mark_stopped}
use srvbus.S2.Calls.{IsStarted, Inv, held_by, resumed, change-Inv, self-IsStarted, emit_event-Inv}

take_request-cases :
    (s : ServiceServer) (id : Uuid)
    → (take_request id s ≡ record s { loop = waits })
      ⊎ (take_request id s ≡ record s { loop = waits; starting = s.starting ++ id ∷ [] })
unfolding take_request
take_request-cases s id = elim (Option-cases (lookup id s.services)) [
  | inl e ↦ inl (ground arith)
  | inr (sr, e) ↦ elim (Bool-cases (is_ready sr.state)) [
    | inl g ↦ inr (ground arith)
    | inr b ↦ inl (ground arith)
  ]
]

pub take-Inv : (s : ServiceServer) (id : Uuid) → s.loop ≡ taken id → Inv s → Inv (take_request id s)
take-Inv s id e v =
    let h : All (IsStarted s.services) (held_by (taken id)) =
      subst (λ l. All (IsStarted s.services) (held_by l)) e v.held in
    elim (take_request-cases s id) [
      | inl f ↦ simp f (record {
        execs = v.execs;
        sends = v.sends;
        held = tt;
        waiting = v.waiting;
        starting = v.starting;
        running = v.running;
        stops = v.stops;
      })
      | inr f ↦ simp f (record {
        execs = v.execs;
        sends = v.sends;
        held = tt;
        waiting = v.waiting;
        starting = All-append _ s.starting (id ∷ []) v.starting h;
        running = v.running;
        stops = v.stops;
      })
    ]

pub mark-Inv :
    (s : ServiceServer) (id : Uuid) (sr : ServiceRecord) (xs ys : List Uuid)
    → s.execs ≡ xs ++ id ∷ ys
    → Inv s
    → Inv (mark_ready id sr (xs ++ ys) s)
unfolding mark_ready set_state
mark-Inv s id sr xs ys e v =
    let r = record sr { state = ss_ready; last_error = none } in
    let w = change-Inv s id r refl v in
    record {
      execs = (All-middle _ xs id ys (rw e at w.execs)).1;
      sends = All-append _ s.sends (id ∷ []) w.sends (self-IsStarted s.services id r refl, tt);
      held = w.held;
      waiting = w.waiting;
      starting = w.starting;
      running = w.running;
      stops = w.stops;
    }

pub begin-Inv :
    (show_uuid : Uuid → Str) (now : ℕ) (s : ServiceServer) (id : Uuid) (sr : ServiceRecord)
    (xs ys : List Uuid)
    → s.starting ≡ xs ++ id ∷ ys
    → Inv s
    → Inv (begin_run show_uuid now id sr (xs ++ ys) s)
unfolding begin_run set_state
begin-Inv show_uuid now s id sr xs ys e v =
    let r = record sr { state = ss_running; last_error = none } in
    let w = change-Inv s id r refl v in
    emit_event-Inv show_uuid now _ _ _ (record {
      execs = w.execs;
      sends = w.sends;
      held = w.held;
      waiting = w.waiting;
      starting = (All-middle _ xs id ys (rw e at w.starting)).1;
      running =
          All-append _ s.running (id ∷ []) w.running (self-IsStarted s.services id r refl, tt);
      stops = w.stops;
    })

finish-state :
    (result : Option ℕ) (sr : ServiceRecord) → is_registered (finish result sr).state ≡ false
unfolding finish set_state
finish-state none sr = refl
finish-state (some e) sr = refl

pub receive-Inv :
    (s : ServiceServer) (id : Uuid) (xs ys : List Uuid)
    → s.sends ≡ xs ++ id ∷ ys
    → Inv s
    → Inv (record s { loop = taken id; sends = xs ++ ys })
receive-Inv s id xs ys e v =
    let (h, others) = All-middle _ xs id ys (rw e at v.sends) in
    record {
      execs = v.execs;
      sends = others;
      held = (h, tt);
      waiting = v.waiting;
      starting = v.starting;
      running = v.running;
      stops = v.stops;
    }

pub receive_resumed-Inv :
    (s : ServiceServer) (id : Uuid)
    → s.resuming ≡ some id
    → Inv s
    → Inv (record s { loop = taken id; resuming = none })
receive_resumed-Inv s id e v = record {
  execs = v.execs;
  sends = v.sends;
  held = subst (λ o. All (IsStarted s.services) (resumed o)) e v.waiting;
  waiting = tt;
  starting = v.starting;
  running = v.running;
  stops = v.stops;
}

pub end-Inv :
    (show_uuid : Uuid → Str) (now : ℕ) (s : ServiceServer) (id : Uuid) (result : Option ℕ)
    (sr : ServiceRecord) (xs ys : List Uuid)
    → s.running ≡ xs ++ id ∷ ys
    → Inv s
    → Inv (end_run show_uuid now id result sr (xs ++ ys) s)
unfolding end_run
end-Inv show_uuid now s id result sr xs ys e v =
    let w = change-Inv s id (finish result sr) (finish-state result sr) v in
    emit_event-Inv show_uuid now _ _ _ (record {
      execs = w.execs;
      sends = w.sends;
      held = w.held;
      waiting = w.waiting;
      starting = w.starting;
      running = (All-middle _ xs id ys (rw e at w.running)).1;
      stops = w.stops;
    })

pub stopped-Inv :
    (s : ServiceServer) (id : Uuid) (sr : ServiceRecord) (xs ys : List Uuid)
    → s.stops ≡ xs ++ id ∷ ys
    → Inv s
    → Inv (mark_stopped id sr (xs ++ ys) s)
unfolding mark_stopped set_state
stopped-Inv s id sr xs ys e v =
    let w = change-Inv s id (record sr { state = ss_ended; last_error = none }) refl v in
    record {
      execs = w.execs;
      sends = w.sends;
      held = w.held;
      waiting = w.waiting;
      starting = w.starting;
      running = w.running;
      stops = (All-middle _ xs id ys (rw e at w.stops)).1;
    }
