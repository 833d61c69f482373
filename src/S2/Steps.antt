-- ===== src/S2/Steps.antt =====
-- What happens to a service server: calls, the goroutines that they start, and the loop. What takes
-- the server's lock waits while a call of `ResumeService` holds it.
use srvbus.Common.{
  ℕ, ◌≡◌, Bool, false, Option, none, some, List, [], ◌∷◌, ◌++◌, Uuid, nat_eq, lookup, insert,
  if◌then◌else◌,
}
use srvbus.Common.Text.{Str, codes}
use srvbus.Es.Topic.{live, cancelled}
use srvbus.S2.Service.{
  ss_ready, ss_running, ss_ended, is_ready, state_name, state_digit, ServiceRecord, set_state,
  finish,
}
use srvbus.S2.Server.{
  gone, waits, closing, taken, ServiceServer, srv_end, emit_event, run, exec_service, add_service,
  stop_service, resume_service, about_service,
}

-- A goroutine of `ExecService` sets the state, and then waits to send.
unfoldable pub mark_ready : Uuid → ServiceRecord → List Uuid → ServiceServer → ServiceServer
unfolding set_state
mark_ready id sr others s = record s {
  services = insert id (set_state ss_ready none sr) s.services;
  execs = others;
  sends = s.sends ++ id ∷ [];
}

-- The loop has received the identifier, and gets the lock. What it does after it has let the lock go, until it
-- is in its `select` again, is a part of this step: it waits for nothing there.
unfoldable pub take_request : Uuid → ServiceServer → ServiceServer
take_request id s = elim (lookup id s.services) [
  | none ↦ record s { loop = waits }
  | some sr ↦
      if is_ready sr.state
      then record s { loop = waits; starting = s.starting ++ id ∷ [] }
      else record s { loop = waits }
]

-- The stop signal of `StopService` was received by the service.
unfoldable pub mark_stopped : Uuid → ServiceRecord → List Uuid → ServiceServer → ServiceServer
unfolding set_state
mark_stopped id sr others s = record s {
  services = insert id (set_state ss_ended none sr) s.services;
  stops = others;
}

-- the event by which the end of a service is told
abbrev end_event : Option ℕ → Str
end_event none = codes "SERVICE_END_EVT"
end_event (some e) = codes "SERVICE_FAILED"

module _ (show_uuid : Uuid → Str) (now : ℕ) where
  -- The goroutine of the loop marks the service as running and calls its `Run`.
  unfoldable pub begin_run : Uuid → ServiceRecord → List Uuid → ServiceServer → ServiceServer
  unfolding set_state emit_event
  begin_run id sr others s =
      emit_event show_uuid now
        (record s {
          services = insert id (set_state ss_running none sr) s.services;
          starting = others;
          running = s.running ++ id ∷ [];
        })
        (codes "SERVICE_START_EVT") (about_service show_uuid now sr)

  abbrev about_end : ServiceRecord → Str
  about_end sr =
      codes "{name: \""
      ++ (sr.name
          ++ (codes "\", id: \""
              ++ (show_uuid sr.id
                  ++ (codes "\", state: \""
                      ++ (state_digit sr.state
                          ++ (codes ":" ++ (state_name sr.state ++ codes "\"}")))))))

  -- `Run` of the service returned.
  unfoldable pub end_run :
      Uuid → Option ℕ → ServiceRecord → List Uuid → ServiceServer → ServiceServer
  unfolding finish emit_event
  end_run id result sr others s =
      emit_event show_uuid now
        (record s { services = insert id (finish result sr) s.services; running = others })
        (end_event result) (about_end (finish result sr))

  -- The loop ends.
  unfoldable pub halt : ServiceServer → ServiceServer
  unfolding emit_event
  halt s = emit_event show_uuid now (record s { runned = false; loop = gone }) srv_end []

module _ (show_uuid : Uuid → Str) where
  -- One call or one step of a goroutine.
  pub data Step (s : ServiceServer) : ServiceServer → Type 0 where
    runs : (now : ℕ) → s.resuming ≡ none → Step s (run show_uuid now s).0
    execs_service : (id : Uuid) → s.resuming ≡ none → Step s (exec_service s id).0
    adds :
        (now : ℕ) (fresh : Uuid) (name : Str) (svc stop_ch : Option ℕ) (start : Bool)
        → s.resuming ≡ none
        → lookup fresh s.services ≡ none
        → Step s (add_service show_uuid now fresh s name svc stop_ch start).0
    stops_service : (id : Uuid) → s.resuming ≡ none → Step s (stop_service s id).0
    resumes : (id : Uuid) → s.resuming ≡ none → Step s (resume_service s id).0
    marks :
        (id : Uuid) (sr : ServiceRecord) (xs ys : List Uuid)
        → s.execs ≡ xs ++ id ∷ ys
        → lookup id s.services ≡ some sr
        → Step s (mark_ready id sr (xs ++ ys) s)
    -- the loop receives from a goroutine of `ExecService`, or from `ResumeService`
    receives :
        (id : Uuid) (xs ys : List Uuid)
        → s.loop ≡ waits
        → s.sends ≡ xs ++ id ∷ ys
        → Step s (record s { loop = taken id; sends = xs ++ ys })
    receives_resumed :
        (id : Uuid)
        → s.loop ≡ waits
        → s.resuming ≡ some id
        → Step s (record s { loop = taken id; resuming = none })
    takes : (id : Uuid) → s.loop ≡ taken id → s.resuming ≡ none → Step s (take_request id s)
    begins :
        (now : ℕ) (id : Uuid) (sr : ServiceRecord) (xs ys : List Uuid)
        → s.starting ≡ xs ++ id ∷ ys
        → lookup id s.services ≡ some sr
        → Step s (begin_run show_uuid now id sr (xs ++ ys) s)
    ends :
        (now : ℕ) (id : Uuid) (result : Option ℕ) (sr : ServiceRecord) (xs ys : List Uuid)
        → s.running ≡ xs ++ id ∷ ys
        → lookup id s.services ≡ some sr
        → Step s (end_run show_uuid now id result sr (xs ++ ys) s)
    stopped :
        (id : Uuid) (sr : ServiceRecord) (xs ys : List Uuid)
        → s.stops ≡ xs ++ id ∷ ys
        → lookup id s.services ≡ some sr
        → Step s (mark_stopped id sr (xs ++ ys) s)
    -- a goroutine that waits to send gives up, once the context is done
    gives_up :
        (id : Uuid) (xs ys : List Uuid)
        → s.ctx ≡ cancelled
        → s.sends ≡ xs ++ id ∷ ys
        → Step s (record s { sends = xs ++ ys })
    gives_up_stop :
        (id : Uuid) (xs ys : List Uuid)
        → s.ctx ≡ cancelled
        → s.stops ≡ xs ++ id ∷ ys
        → Step s (record s { stops = xs ++ ys })
    cancels : s.ctx ≡ live → Step s (record s { ctx = cancelled })
    -- the loop sees that the context is done, and gets the lock
    closes : s.ctx ≡ cancelled → s.loop ≡ waits → Step s (record s { loop = closing })
    halts : (now : ℕ) → s.loop ≡ closing → s.resuming ≡ none → Step s (halt show_uuid now s)

  pub data Reach (s : ServiceServer) : ServiceServer → Type 0 where
    here : Reach s s
    next : {t u : ServiceServer} → Reach s t → Step t u → Reach s u
