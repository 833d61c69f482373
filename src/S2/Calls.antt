-- ===== src/S2/Calls.antt =====
-- What the calls of a service server keep: every goroutine is for a service of the server.
pub mod Starting
use srvbus.Common.{
  ℕ, ◌≡◌, ◌⊎◌, refl, ◌∙◌, Bool, true, false, ◌&&◌, Option, none, some, List, [], ◌∷◌, ◌++◌, arith,
  Uuid, nat_eq, Map, lookup, insert, lookup-insert, ◌==◌, All, All-append, All-map, Option-cases,
  Bool-cases, inl, inr,
}
use srvbus.Common.Text.{Str}
use srvbus.S2.Service.{is_registered, is_running, ss_ready, ServiceRecord, set_state}
use srvbus.S2.Server.{
  LoopAt, taken, ServiceServer, emit_event, run, exec_service, new_record, add_service,
  stop_service, resume_service,
}

-- The service is on the server; it is, and it is no longer only registered.
abbrev pub IsListed : Map Uuid ServiceRecord → Uuid → Type 0
IsListed m id = (sr : ServiceRecord) × (lookup id m ≡ some sr)

abbrev pub IsStarted : Map Uuid ServiceRecord → Uuid → Type 0
IsStarted m id = (sr : ServiceRecord) × (lookup id m ≡ some sr) × (is_registered sr.state ≡ false)

abbrev pub held_by : LoopAt → List Uuid
held_by (taken id) = id ∷ []
held_by _ = []

abbrev pub resumed : Option Uuid → List Uuid
resumed none = []
resumed (some id) = id ∷ []

-- Every goroutine is for a service on the server, and past the call of `ExecService` for one that
-- is not registered only.
pub record Inv (s : ServiceServer) : Type 0 where
  pub execs : All (IsListed s.services) s.execs
  pub sends : All (IsStarted s.services) s.sends
  pub held : All (IsStarted s.services) (held_by s.loop)
  pub waiting : All (IsStarted s.services) (resumed s.resuming)
  pub starting : All (IsStarted s.services) s.starting
  pub running : All (IsStarted s.services) s.running
  pub stops : All (IsStarted s.services) s.stops

insert-IsListed :
    (m : Map Uuid ServiceRecord) (k : Uuid) (r : ServiceRecord) (id : Uuid)
    → IsListed m id
    → IsListed (insert k r m) id
insert-IsListed m k r id (sr, e) = elim (Bool-cases (k == id)) [
  | inl y ↦ (r, lookup-insert k id r m ∙ rw y refl)
  | inr n ↦ (sr, lookup-insert k id r m ∙ rw n e)
]

insert-IsStarted :
    (m : Map Uuid ServiceRecord) (k : Uuid) (r : ServiceRecord) (id : Uuid)
    → is_registered r.state ≡ false
    → IsStarted m id
    → IsStarted (insert k r m) id
insert-IsStarted m k r id h (sr, e, f) = elim (Bool-cases (k == id)) [
  | inl y ↦ (r, lookup-insert k id r m ∙ rw y refl, h)
  | inr n ↦ (sr, lookup-insert k id r m ∙ rw n e, f)
]

fresh-IsStarted :
    (m : Map Uuid ServiceRecord) (k : Uuid) (r : ServiceRecord) (id : Uuid)
    → lookup k m ≡ none
    → IsStarted m id
    → IsStarted (insert k r m) id
fresh-IsStarted m k r id h (sr, e, f) = elim (Bool-cases (k == id)) [
  | inl y ↦ absurd (ground arith)
  | inr n ↦ (sr, lookup-insert k id r m ∙ rw n e, f)
]

pub self-IsStarted :
    (m : Map Uuid ServiceRecord) (k : Uuid) (r : ServiceRecord)
    → is_registered r.state ≡ false
    → IsStarted (insert k r m) k
self-IsStarted m k r h = (r, ground (arith, lookup-insert k k r m), h)

-- a service is changed, and is not registered only
pub change-Inv :
    (s : ServiceServer) (k : Uuid) (r : ServiceRecord)
    → is_registered r.state ≡ false
    → Inv s
    → Inv (record s { services = insert k r s.services })
change-Inv s k r h v =
    let keep : (id : Uuid) → IsStarted s.services id → IsStarted (insert k r s.services) id =
      λ id x. insert-IsStarted s.services k r id h x in
    record {
      execs = All-map _ _ (insert-IsListed s.services k r) s.execs v.execs;
      sends = All-map _ _ keep s.sends v.sends;
      held = All-map _ _ keep (held_by s.loop) v.held;
      waiting = All-map _ _ keep (resumed s.resuming) v.waiting;
      starting = All-map _ _ keep s.starting v.starting;
      running = All-map _ _ keep s.running v.running;
      stops = All-map _ _ keep s.stops v.stops;
    }

pub add-Inv :
    (s : ServiceServer) (k : Uuid) (r : ServiceRecord)
    → lookup k s.services ≡ none
    → Inv s
    → Inv (record s { services = insert k r s.services })
add-Inv s k r h v =
    let keep : (id : Uuid) → IsStarted s.services id → IsStarted (insert k r s.services) id =
      λ id x. fresh-IsStarted s.services k r id h x in
    record {
      execs = All-map _ _ (insert-IsListed s.services k r) s.execs v.execs;
      sends = All-map _ _ keep s.sends v.sends;
      held = All-map _ _ keep (held_by s.loop) v.held;
      waiting = All-map _ _ keep (resumed s.resuming) v.waiting;
      starting = All-map _ _ keep s.starting v.starting;
      running = All-map _ _ keep s.running v.running;
      stops = All-map _ _ keep s.stops v.stops;
    }

exec_service-cases :
    (s : ServiceServer) (id : Uuid)
    → ((exec_service s id).0 ≡ s)
      ⊎ (IsListed s.services id × ((exec_service s id).0 ≡ record s { execs = s.execs ++ id ∷ [] }))
unfolding exec_service
exec_service-cases s id = elim (Option-cases (lookup id s.services)) [
  | inl e ↦ inl (ground arith)
  | inr (sr, e) ↦ elim (Bool-cases (s.runned && is_registered sr.state)) [
    | inl g ↦ inr ((sr, e), ground arith)
    | inr b ↦ inl (ground arith)
  ]
]

stop_service-cases :
    (s : ServiceServer) (id : Uuid)
    → ((stop_service s id).0 ≡ s)
      ⊎ (IsStarted s.services id
          × ((stop_service s id).0 ≡ record s { stops = s.stops ++ id ∷ [] }))
unfolding stop_service
stop_service-cases s id = elim (Option-cases (lookup id s.services)) [
  | inl e ↦ inl (ground arith)
  | inr (sr, e) ↦ elim (Option-cases sr.stop_channel) [
    | inl n ↦ inl (ground arith)
    | inr (ch, c) ↦ elim (Bool-cases (s.runned && is_running sr.state)) [
      | inl g ↦ inr ((sr, e, ground arith), ground arith)
      | inr b ↦ inl (ground arith)
    ]
  ]
]

pub exec-Inv : (s : ServiceServer) (id : Uuid) → Inv s → Inv (exec_service s id).0
exec-Inv s id v = elim (exec_service-cases s id) [
  | inl e ↦ simp e v
  | inr (h, e) ↦ simp e (record {
    execs = All-append _ s.execs (id ∷ []) v.execs (h, tt);
    sends = v.sends;
    held = v.held;
    waiting = v.waiting;
    starting = v.starting;
    running = v.running;
    stops = v.stops;
  })
]

pub stop-Inv : (s : ServiceServer) (id : Uuid) → Inv s → Inv (stop_service s id).0
stop-Inv s id v = elim (stop_service-cases s id) [
  | inl e ↦ simp e v
  | inr (h, e) ↦ simp e (record {
    execs = v.execs;
    sends = v.sends;
    held = v.held;
    waiting = v.waiting;
    starting = v.starting;
    running = v.running;
    stops = All-append _ s.stops (id ∷ []) v.stops (h, tt);
  })
]

resume_service-cases :
    (s : ServiceServer) (id : Uuid)
    → ((resume_service s id).0 ≡ s)
      ⊎ ((sr : ServiceRecord) × ((resume_service s id).0 ≡ record s {
        services = insert id (record sr { state = ss_ready; last_error = none }) s.services;
        resuming = some id;
      }))
unfolding resume_service set_state
resume_service-cases s id = elim (Option-cases (lookup id s.services)) [
  | inl e ↦ inl (ground arith)
  | inr (sr, e) ↦ elim (Option-cases sr.stop_channel) [
    | inl n ↦ inl (ground arith)
    | inr (ch, c) ↦ elim (Bool-cases (is_running sr.state)) [
      | inl g ↦ inl (ground arith)
      | inr b ↦ inr (sr, ground arith)
    ]
  ]
]

pub resume-Inv : (s : ServiceServer) (id : Uuid) → Inv s → Inv (resume_service s id).0
resume-Inv s id v = elim (resume_service-cases s id) [
  | inl e ↦ simp e v
  | inr (sr, e) ↦
      let r = record sr { state = ss_ready; last_error = none } in
      let w = change-Inv s id r refl v in
      simp e (record {
        execs = w.execs;
        sends = w.sends;
        held = w.held;
        waiting = (self-IsStarted s.services id r refl, tt);
        starting = w.starting;
        running = w.running;
        stops = w.stops;
      })
]

-- Events change nothing that the invariant is about.
pub emit_event-Inv :
    (show_uuid : Uuid → Str) (now : ℕ) (s : ServiceServer) (name descr : Str)
    → Inv s
    → Inv (emit_event show_uuid now s name descr)
unfolding emit_event
emit_event-Inv show_uuid now s name descr v = record {
  execs = v.execs;
  sends = v.sends;
  held = v.held;
  waiting = v.waiting;
  starting = v.starting;
  running = v.running;
  stops = v.stops;
}
