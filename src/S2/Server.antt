-- ===== src/S2/Server.antt =====
-- s2/s2.go: the service server. The methods are atomic steps, but `ResumeService`, which sends while it
-- holds the server's lock; the goroutines that they start are lists in the state. `now` is what
-- `time.Now` answers, `show_uuid` the text of an identifier.
use srvbus.Common.{
  ℕ, Bool, true, false, not, Option, none, some, List, [], ◌∷◌, ◌++◌, Uuid, nil_uuid, nat_eq,
  Result, ok, err, ◌==◌, Map, lookup, insert, if◌then◌else◌,
}
use srvbus.Common.Text.{Str, codes, slash, is_empty}
use srvbus.Es.Topic.{Ctx, no_ctx, live}
use srvbus.Es.Server.{EventServer}
use srvbus.Es.Server.Emitter.{emit_via}
use srvbus.S2.Service.{
  ss_registered, ss_ready, S2Err, no_logger, no_service, not_runned, already_runned,
  unknown_service, no_stop_channel, invalid_state, is_registered, is_running, ServiceRecord,
  set_state,
}

-- Where the goroutine of `loop` is: there is none, it waits in its `select`, it has received an
-- identifier and wants the lock, or its context is done and it wants the lock.
pub data LoopAt : Type 0 where
  gone waits closing : LoopAt
  taken : Uuid → LoopAt

-- `execs` are the goroutines of `ExecService` that have not set the state yet, `sends` those that
-- wait to send an identifier to the loop, `starting` the goroutines of the loop before they mark the
-- service as running, `running` those in the service's `Run`, and `stops` those of `StopService`.
-- `resuming` is the call of `ResumeService` that holds the lock and waits to send.
pub record ServiceServer : Type 0 where
  pub id : Uuid
  pub name : Str
  pub services : Map Uuid ServiceRecord
  pub ctx : Ctx
  pub runned : Bool
  pub e_srv : Option EventServer
  pub es_topic : Str
  pub loop : LoopAt
  pub resuming : Option Uuid
  pub execs : List Uuid
  pub sends : List Uuid
  pub starting : List Uuid
  pub running : List Uuid
  pub stops : List Uuid

abbrev srv_new : Str
srv_new = codes "NEW_SSERVER_EVT"

abbrev srv_start : Str
srv_start = codes "SSERVER_START_EVT"

abbrev pub srv_end : Str
srv_end = codes "SSERVER_END_EVT"

abbrev svc_added : Str
svc_added = codes "SVC_ADDED_EVT"

abbrev default_topic : Str
default_topic = codes "/s2"

-- `ExecService`
unfoldable pub exec_service : ServiceServer → Uuid → ServiceServer × Option S2Err
exec_service s id = if not s.runned then (s, some no_service) else elim (lookup id s.services) [
  | none ↦ (s, some (unknown_service id))
  | some sr ↦
      if is_registered sr.state
      then (record s { execs = s.execs ++ id ∷ [] }, none)
      else (s, some (invalid_state id sr.state))
]

-- `StopService`
unfoldable pub stop_service : ServiceServer → Uuid → ServiceServer × Option S2Err
stop_service s id = if not s.runned then (s, some not_runned) else elim (lookup id s.services) [
  | none ↦ (s, some (unknown_service id))
  | some sr ↦
      if not (is_running sr.state)
      then (s, some (invalid_state id sr.state))
      else elim sr.stop_channel [
        | none ↦ (s, none)
        | some ch ↦ (record s { stops = s.stops ++ id ∷ [] }, none)
      ]
]

-- `ResumeService` up to its send, for which it waits with the lock. An error is returned at once.
unfoldable pub resume_service : ServiceServer → Uuid → ServiceServer × Option S2Err
unfolding set_state
resume_service s id = elim (lookup id s.services) [
  | none ↦ (s, some (unknown_service id))
  | some sr ↦ elim sr.stop_channel [
    | none ↦ (s, some (no_stop_channel id))
    | some ch ↦ if is_running sr.state then (s, some (invalid_state id sr.state)) else (
      record s { services = insert id (set_state ss_ready none sr) s.services; resuming = some id },
      none,
    )
  ]
]

module _ (show_uuid : Uuid → Str) (now : ℕ) where
  -- `emitEvent`
  unfoldable pub emit_event : ServiceServer → Str → Str → ServiceServer
  emit_event s name descr =
      let topic = default_topic ++ slash ∷ show_uuid s.id in
      let (e, at) = emit_via now topic s.id s.e_srv s.es_topic name descr in
      record s { e_srv = e; es_topic = at }

  -- `New`; `fresh` is the answer of `uuid.New`
  unfoldable pub new : Uuid → Uuid → Str → Bool → Option EventServer → Result S2Err ServiceServer
  unfolding emit_event
  new fresh id name has_log e_srv =
      let id' : Uuid = if id == nil_uuid then fresh else id in
      let name' : Str = if is_empty name then codes "ServiceServer #" ++ show_uuid id' else name in
      let s : ServiceServer = record {
        id = id';
        name = name';
        services = [];
        ctx = no_ctx;
        runned = false;
        e_srv = e_srv;
        es_topic = [];
        loop = gone;
        resuming = none;
        execs = [];
        sends = [];
        starting = [];
        running = [];
        stops = [];
      } in
      if has_log
      then ok (emit_event s srv_new (codes "{name: \"" ++ (name' ++ codes "\"}")))
      else err no_logger

  -- `Run`, with a context that is not done. The goroutines of an earlier run wait on its channel,
  -- which nobody reads any more.
  unfoldable pub run : ServiceServer → ServiceServer × Option S2Err
  unfolding emit_event
  run s = if s.runned then (s, some already_runned) else (
    emit_event (record s { runned = true; ctx = live; sends = []; loop = waits }) srv_start [],
    none,
  )

  abbrev pub about_service : ServiceRecord → Str
  about_service sr =
      codes "{name: \"" ++ (sr.name ++ (codes "\", id: \"" ++ (show_uuid sr.id ++ codes "\"}")))

  -- the record that `AddService` makes
  abbrev pub new_record : Uuid → Str → ℕ → Option ℕ → ServiceRecord
  new_record id name svc stop_ch = record {
    id = id;
    name = if is_empty name then codes "Service #" ++ show_uuid id else name;
    svc = svc;
    state = ss_registered;
    last_error = none;
    stop_channel = stop_ch;
  }

  -- `AddService`; `fresh` is the identifier that `uuid.New` gives, and `none` a nil service
  unfoldable pub add_service :
      Uuid
      → ServiceServer
      → Str
      → Option ℕ
      → Option ℕ
      → Bool
      → ServiceServer × (Uuid × Option S2Err)
  unfolding exec_service emit_event
  add_service fresh s name none stop_ch start = (s, (nil_uuid, some no_service))
  add_service fresh s name (some svc) stop_ch start =
      let sr = new_record fresh name svc stop_ch in
      let s' =
        emit_event (record s { services = insert fresh sr s.services }) svc_added
          (about_service sr) in
      let (s'', e) = exec_service s' fresh in
      if start then (s'', (fresh, e)) else (s', (fresh, none))
