-- ===== src/Bus/Keeping.antt =====
-- What a run of a bus, and an event that it emits, keep of its servers.
use mathlib.Core.Path.{subst}
use srvbus.Common.{
  ℕ, ◌≡◌, sym, Bool, true, false, Option, none, some, [], Uuid, arith, Option-cases, Bool-cases,
  inl, inr,
}
use srvbus.Common.Text.{Str}
use srvbus.Es.Event.{EsErr}
use srvbus.Es.Topic.{Ctx, live}
use srvbus.Es.Server.{EventServer, start}
use srvbus.Ms.Message.{MsErr}
use srvbus.Ms.Server as Messages
use srvbus.Ms.Server.{MessageServer, get}
use srvbus.Ms.Server.Steps as MessageSteps
use srvbus.Ms.Server.Tidy.{IsTidy, step-IsTidy}
use srvbus.S2.Service.{S2Err}
use srvbus.S2.Server as Services
use srvbus.S2.Server.{ServiceServer}
use srvbus.S2.Calls.{Inv}
use srvbus.S2.Calls.Starting.{run-Inv}
use srvbus.Bus.{
  ServiceBus, share, emit_event, run, run_events, run_messages, run_services, run_done,
  after_events, after_messages, after_services,
}
use srvbus.Bus.Sharing.{OnSome, IsCore, IsSafe, share-IsSafe}

pub mark-IsSafe :
    (sb : ServiceBus) (runned : Bool) → IsSafe sb → IsSafe (record sb { runned = runned })
mark-IsSafe sb runned v = record {
  core = record { messages_tidy = v.core.messages_tidy; services_inv = v.core.services_inv };
  messages_shared = v.messages_shared;
  services_shared = v.services_shared;
}

pub context-IsSafe : (sb : ServiceBus) (ctx : Ctx) → IsSafe sb → IsSafe (record sb { ctx = ctx })
context-IsSafe sb ctx v = record {
  core = record { messages_tidy = v.core.messages_tidy; services_inv = v.core.services_inv };
  messages_shared = v.messages_shared;
  services_shared = v.services_shared;
}

module _ (show_uuid : Uuid → Str) where
  pub emit-IsSafe :
      (now : ℕ) (sb : ServiceBus) (name descr : Str)
      → IsSafe sb
      → IsSafe (emit_event show_uuid now sb name descr)
  emit-IsSafe now sb name descr v = elim (Option-cases sb.e_srv) [
    | inl n ↦
        let same : emit_event show_uuid now sb name descr ≡ sb =
          unfold emit_event in ground arith in
        subst IsSafe (sym same) v
    | inr (e, n) ↦
        let told = emit_event show_uuid now sb name descr in
        let same : told ≡ share told.e_srv (record sb { es_topic = told.es_topic }) =
          unfold emit_event share in ground arith in
        subst IsSafe (sym same) (
          share-IsSafe _ _
            (record { messages_tidy = v.core.messages_tidy; services_inv = v.core.services_inv }))
  ]

  done-IsSafe : (now : ℕ) (sb : ServiceBus) → IsSafe sb → IsSafe (run_done show_uuid now sb).0
  unfolding run_done
  done-IsSafe now sb v = emit-IsSafe now _ _ [] (mark-IsSafe sb true v)

  after_services-IsSafe :
      (now : ℕ) (sb : ServiceBus) (r : ServiceServer × Option S2Err)
      → OnSome IsTidy sb.m_srv
      → Inv r.0
      → IsSafe (after_services show_uuid now sb r).0
  unfolding after_services
  after_services-IsSafe now sb (s, none) h v =
      done-IsSafe now (share s.e_srv (record sb { s_srv = some s })) (
        share-IsSafe s.e_srv (record sb { s_srv = some s })
          (record { messages_tidy = h; services_inv = v }))
  after_services-IsSafe now sb (s, some x) h v =
      share-IsSafe s.e_srv (record sb { s_srv = some s })
        (record { messages_tidy = h; services_inv = v })

  services-IsSafe :
      (now : ℕ) (sb : ServiceBus) → IsSafe sb → IsSafe (run_services show_uuid now sb).0
  services-IsSafe now sb v = elim (Option-cases sb.s_srv) [
    | inl n ↦
        let same : (run_services show_uuid now sb).0 ≡ sb = unfold run_services in ground arith in
        subst IsSafe (sym same) v
    | inr (s, n) ↦
        let inv : Inv s = subst (OnSome Inv) n v.core.services_inv in
        let same : run_services show_uuid now sb
            ≡ after_services show_uuid now sb (Services.run show_uuid now s) =
          unfold run_services in ground arith in
        rw same (after_services-IsSafe now sb _ v.core.messages_tidy (run-Inv show_uuid now s inv))
  ]

  after_messages-IsSafe :
      (now : ℕ) (sb : ServiceBus) (r : MessageServer × Option MsErr)
      → IsTidy r.0
      → OnSome Inv sb.s_srv
      → IsSafe (after_messages show_uuid now sb r).0
  unfolding after_messages
  after_messages-IsSafe now sb (m, none) h v =
      services-IsSafe now (share m.e_srv (record sb { m_srv = some m })) (
        share-IsSafe m.e_srv (record sb { m_srv = some m })
          (record { messages_tidy = h; services_inv = v }))
  after_messages-IsSafe now sb (m, some x) h v =
      share-IsSafe m.e_srv (record sb { m_srv = some m })
        (record { messages_tidy = h; services_inv = v })

  messages-IsSafe :
      (now : ℕ) (sb : ServiceBus) → IsSafe sb → IsSafe (run_messages show_uuid now sb).0
  messages-IsSafe now sb v = elim (Option-cases sb.m_srv) [
    | inl n ↦
        let same : (run_messages show_uuid now sb).0 ≡ sb = unfold run_messages in ground arith in
        subst IsSafe (sym same) v
    | inr (m, n) ↦
        let tidy : IsTidy m = subst (OnSome IsTidy) n v.core.messages_tidy in
        let same : run_messages show_uuid now sb
            ≡ after_messages show_uuid now sb (Messages.run show_uuid now m) =
          unfold run_messages in ground arith in
        rw same (
          after_messages-IsSafe now sb _ (step-IsTidy show_uuid (MessageSteps.starts now) tidy)
            v.core.services_inv)
  ]

  after_events-IsSafe :
      (now : ℕ) (sb : ServiceBus) (r : EventServer × Option EsErr)
      → IsCore sb
      → IsSafe (after_events show_uuid now sb r).0
  unfolding after_events
  after_events-IsSafe now sb (e, none) c = messages-IsSafe now _ (share-IsSafe (some e) sb c)
  after_events-IsSafe now sb (e, some x) c = share-IsSafe (some e) sb c

  events-IsSafe : (now : ℕ) (sb : ServiceBus) → IsSafe sb → IsSafe (run_events show_uuid now sb).0
  events-IsSafe now sb v = elim (Option-cases sb.e_srv) [
    | inl n ↦
        let same : (run_events show_uuid now sb).0 ≡ sb = unfold run_events in ground arith in
        subst IsSafe (sym same) v
    | inr (e, n) ↦
        let same : run_events show_uuid now sb ≡ after_events show_uuid now sb (start now e false) =
          unfold run_events in ground arith in
        rw same (after_events-IsSafe now sb _ v.core)
  ]

  pub run-IsSafe : (now : ℕ) (sb : ServiceBus) → IsSafe sb → IsSafe (run show_uuid now sb).0
  unfolding run
  run-IsSafe now sb v = elim (Bool-cases sb.runned) [
    | inl a ↦ let same : (run show_uuid now sb).0 ≡ sb = ground arith in subst IsSafe (sym same) v
    | inr a ↦
        let same : run show_uuid now sb ≡ run_events show_uuid now (record sb { ctx = live }) =
          ground arith in
        rw same (events-IsSafe now _ (context-IsSafe sb live v))
  ]
