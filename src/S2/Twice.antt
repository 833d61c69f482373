-- ===== src/S2/Twice.antt =====
-- Two calls of `ExecService` for one service.
use mathlib.Core.Path.{subst}
use srvbus.Common.{
  ℕ, ◌≡◌, refl, ◌∙◌, true, Option, none, some, List, [], ◌∷◌, ◌++◌, arith, Uuid, nat_eq, Map,
  lookup, insert, lookup-insert, beq_refl,
}
use srvbus.Common.Text.{Str}
use srvbus.Es.Topic.{Ctx}
use srvbus.Es.Server.{EventServer}
use srvbus.S2.Service.{ss_registered, ss_ready, ss_running, ServiceRecord, set_state, is_ready}
use srvbus.S2.Server.{waits, ServiceServer, emit_event, exec_service}
use srvbus.S2.Steps.{
  mark_ready, take_request, begin_run, execs_service, marks, receives, takes, begins, Reach, here,
  next,
}

-- a running server on which no goroutine waits
module _ (server : Uuid) (name : Str) (services : Map Uuid ServiceRecord) (ctx : Ctx)
    (e_srv : Option EventServer) (es_topic : Str) where
  abbrev pub quiet : ServiceServer
  quiet = record {
    id = server;
    name = name;
    services = services;
    ctx = ctx;
    runned = true;
    e_srv = e_srv;
    es_topic = es_topic;
    loop = waits;
    resuming = none;
    execs = [];
    sends = [];
    starting = [];
    running = [];
    stops = [];
  }

module _ (show_uuid : Uuid → Str) (now : ℕ) (server : Uuid) (name : Str)
    (services : Map Uuid ServiceRecord) (ctx : Ctx) (e_srv : Option EventServer) (es_topic : Str)
    (id : Uuid) (sr : ServiceRecord) (known : lookup id services ≡ some sr)
    (registered : sr.state ≡ ss_registered) where
  abbrev calm : ServiceServer
  calm = quiet server name services ctx e_srv es_topic

  exec_lem :
      (ids : List Uuid)
      → (exec_service (record calm { execs = ids }) id).0 ≡ record calm { execs = ids ++ id ∷ [] }
  unfolding exec_service
  exec_lem ids = ground (arith, registered)

  there : (m : Map Uuid ServiceRecord) (r : ServiceRecord) → lookup id (insert id r m) ≡ some r
  there m r = lookup-insert id id r m ∙ rw (beq_refl id) refl

  abbrev ready : ServiceRecord
  ready = record sr { state = ss_ready; last_error = none }

  -- the services after both goroutines marked the service as ready
  abbrev marked : Map Uuid ServiceRecord
  marked = insert id ready (insert id ready services)

  Reach-ready : Reach show_uuid calm (record calm { services = marked; sends = id ∷ id ∷ [] })
  unfolding mark_ready set_state
  Reach-ready =
      let e₁ = subst (Reach show_uuid calm) (exec_lem []) (next here (execs_service id refl)) in
      let e₂ =
        subst (Reach show_uuid calm) (exec_lem (id ∷ [])) (next e₁ (execs_service id refl)) in
      next (next e₂ (marks id sr [] (id ∷ []) refl known))
        (marks id ready [] [] refl (there services ready))

  take_ready :
      (t : ServiceServer) (r : ServiceRecord)
      → lookup id t.services ≡ some r
      → is_ready r.state ≡ true
      → take_request id t ≡ record t { loop = waits; starting = t.starting ++ id ∷ [] }
  unfolding take_request
  take_ready t r k h = ground arith

  -- the loop takes the first identifier that waits
  take_one :
      (starts rest : List Uuid)
      → Reach show_uuid calm
          (record calm { services = marked; sends = id ∷ rest; starting = starts })
      → Reach show_uuid calm
          (record calm { services = marked; sends = rest; starting = starts ++ id ∷ [] })
  take_one starts rest r =
      subst (Reach show_uuid calm)
        (take_ready _ ready (there (insert id ready services) ready) refl)
        (next (next r (receives id [] rest refl refl)) (takes id refl refl))

  -- On a running server, on which no goroutine waits and nothing runs, a registered service may come
  -- to run twice at once: after two calls of `ExecService` before the first goroutine set its state.
  pub runs_twice : (u : ServiceServer) × Reach show_uuid calm u × (u.running ≡ id ∷ id ∷ [])
  unfolding begin_run set_state emit_event
  runs_twice =
      let t = take_one (id ∷ []) [] (take_one [] (id ∷ []) Reach-ready) in
      let b₁ =
        next t (begins now id ready [] (id ∷ []) refl (there (insert id ready services) ready)) in
      let b₂ = next b₁ (
        begins now id (record ready { state = ss_running }) [] [] refl
          (there marked (record ready { state = ss_running }))) in
      (_, b₂, refl)
