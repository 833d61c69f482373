-- ===== src/Bus/Safe.antt =====
-- What holds of the three servers of a bus, whatever happened to it.
use mathlib.Core.Path.{subst}
use srvbus.Common.{ℕ, ◌≡◌, ◌≢◌, refl, Bool, true, false, some, [], Uuid, ok, err}
use srvbus.Common.Text.{Str}
use srvbus.Es.Topic.{cancelled}
use srvbus.Ms.Message.{panics}
use srvbus.Ms.Server.{MessageServer, get}
use srvbus.Ms.Server.Tidy.{IsTidy, empty-IsTidy, step-IsTidy, tidy-not_panics}
use srvbus.S2.Calls.{Inv}
use srvbus.S2.States.{step-Inv}
use srvbus.Bus as Bus
use srvbus.Bus.{
  BusErr, ServiceBus, with_events, with_events_too, share, emit_event, run, run_events,
  run_messages, run_services, run_done, after_events, after_messages, after_services, halt,
}
use srvbus.Bus.Making.{new_event, new_message, new_bus, new_lem}
use srvbus.Bus.Sharing.{OnSome, IsSafe, share-IsSafe}
use srvbus.Bus.Steps.{
  Step, runs, emits, events, messages, services, cancels, halts, Reach, here, next,
}
use srvbus.Bus.Keeping.{emit-IsSafe, mark-IsSafe, context-IsSafe, run-IsSafe}

module _ (show_uuid : Uuid → Str) where
  pub step-IsSafe : {sb t : ServiceBus} → Step show_uuid sb t → IsSafe sb → IsSafe t
  step-IsSafe {sb} (runs now) v = run-IsSafe show_uuid now sb v
  step-IsSafe {sb} (emits now name descr) v = emit-IsSafe show_uuid now sb name descr v
  step-IsSafe {sb} (events e) v = share-IsSafe (some e) sb v.core
  step-IsSafe {sb} (messages m m' n st) v =
      share-IsSafe m'.e_srv (record sb { m_srv = some m' })
        (record {
          messages_tidy = step-IsTidy show_uuid st (subst (OnSome IsTidy) n v.core.messages_tidy);
          services_inv = v.core.services_inv;
        })
  step-IsSafe {sb} (services s s' n st) v =
      share-IsSafe s'.e_srv (record sb { s_srv = some s' })
        (record {
          messages_tidy = v.core.messages_tidy;
          services_inv = step-Inv show_uuid st (subst (OnSome Inv) n v.core.services_inv);
        })
  step-IsSafe {sb} (cancels c) v = context-IsSafe sb cancelled v
  step-IsSafe {sb} (halts now c) v =
      unfold halt in emit-IsSafe show_uuid now _ _ [] (mark-IsSafe sb false v)

  Reach-IsSafe : {sb t : ServiceBus} → Reach show_uuid sb t → IsSafe sb → IsSafe t
  Reach-IsSafe here v = v
  Reach-IsSafe (next r st) v = step-IsSafe st (Reach-IsSafe r v)

  new-IsSafe :
      (fresh fresh_e fresh_m fresh_s id : Uuid)
      → IsSafe (new_bus show_uuid 0 fresh fresh_e fresh_m fresh_s id)
  new-IsSafe fresh fresh_e fresh_m fresh_s id = record {
    core = record {
      messages_tidy =
          empty-IsTidy (new_message show_uuid 0 fresh_m (new_event show_uuid 0 fresh_e)) refl;
      services_inv = record {
        execs = tt;
        sends = tt;
        held = tt;
        waiting = tt;
        starting = tt;
        running = tt;
        stops = tt;
      };
    };
    messages_shared = refl;
    services_shared = refl;
  }

  pub made-IsSafe :
      (now fresh fresh_e fresh_m fresh_s id : ℕ) {sb t : ServiceBus}
      → Bus.new show_uuid now fresh fresh_e fresh_m fresh_s id true true ≡ ok sb
      → Reach show_uuid sb t
      → IsSafe t
  made-IsSafe now fresh fresh_e fresh_m fresh_s id {sb} {t} made r =
      let same : new_bus show_uuid 0 fresh fresh_e fresh_m fresh_s id ≡ sb =
        cc (made, new_lem show_uuid now fresh fresh_e fresh_m fresh_s id true true refl) in
      Reach-IsSafe r (subst IsSafe same (new-IsSafe fresh fresh_e fresh_m fresh_s id))

  -- On a bus that `New` made, whatever is called on it and on its servers, and however their goroutines run:
  -- its message server emits into the event server of the bus, and reading a queue never panics.
  pub bus_reads :
      (now fresh fresh_e fresh_m fresh_s id : ℕ) {sb t : ServiceBus} {m : MessageServer}
      (receiver : Uuid) (queue : Str) (from_begin : Bool)
      → Bus.new show_uuid now fresh fresh_e fresh_m fresh_s id true true ≡ ok sb
      → Reach show_uuid sb t
      → t.m_srv ≡ some m
      → (m.e_srv ≡ t.e_srv) × (get m receiver queue from_begin ≢ err panics)
  bus_reads now fresh fresh_e fresh_m fresh_s id {sb} {t} {m} receiver queue b made r n =
      let v = made-IsSafe now fresh fresh_e fresh_m fresh_s id made r in
      (
        subst (OnSome (λ (x : MessageServer). x.e_srv ≡ t.e_srv)) n v.messages_shared,
        tidy-not_panics m receiver queue b (subst (OnSome IsTidy) n v.core.messages_tidy),
      )
