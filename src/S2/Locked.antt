-- ===== src/S2/Locked.antt =====
-- `ResumeService` keeps the server's lock while it sends to the loop.
use srvbus.Common.{◌≡◌, ◌≢◌, refl, some, Uuid, nat_eq}
use srvbus.Common.Text.{Str}
use srvbus.S2.Server.{LoopAt, waits, ServiceServer, emit_event}
use srvbus.S2.Steps.{
  mark_ready, begin_run, end_run, mark_stopped, Step, runs, execs_service, adds, stops_service,
  resumes, marks, receives, receives_resumed, takes, begins, ends, stopped, gives_up, gives_up_stop,
  cancels, closes, halts, Reach, here, next,
}

-- The call of `ResumeService` for `id` has the lock, and the loop is not where it would receive.
record IsLocked (id : Uuid) (l : LoopAt) (s : ServiceServer) : Type 0 where
  holds : s.resuming ≡ some id
  away : s.loop ≡ l

module _ (show_uuid : Uuid → Str) (id : Uuid) (l : LoopAt) (busy : l ≢ waits) where
  step-IsLocked : {s t : ServiceServer} → Step show_uuid s t → IsLocked id l s → IsLocked id l t
  step-IsLocked (runs now f) v = cc (f, v.holds)
  step-IsLocked (execs_service x f) v = cc (f, v.holds)
  step-IsLocked (adds now fresh name svc stop_ch start f h) v = cc (f, v.holds)
  step-IsLocked (stops_service x f) v = cc (f, v.holds)
  step-IsLocked (resumes x f) v = cc (f, v.holds)
  step-IsLocked (marks x sr xs ys e k) v =
      unfold mark_ready in record { holds = v.holds; away = v.away }
  step-IsLocked (receives x xs ys e k) v = absurd (busy (cc (e, v.away)))
  step-IsLocked (receives_resumed x e k) v = absurd (busy (cc (e, v.away)))
  step-IsLocked (takes x e f) v = cc (f, v.holds)
  step-IsLocked (begins now x sr xs ys e k) v =
      unfold begin_run emit_event in record { holds = v.holds; away = v.away }
  step-IsLocked (ends now x result sr xs ys e k) v =
      unfold end_run emit_event in record { holds = v.holds; away = v.away }
  step-IsLocked (stopped x sr xs ys e k) v =
      unfold mark_stopped in record { holds = v.holds; away = v.away }
  step-IsLocked (gives_up x xs ys c e) v = record { holds = v.holds; away = v.away }
  step-IsLocked (gives_up_stop x xs ys c e) v = record { holds = v.holds; away = v.away }
  step-IsLocked (cancels c) v = record { holds = v.holds; away = v.away }
  step-IsLocked (closes c e) v = absurd (busy (cc (e, v.away)))
  step-IsLocked (halts now e f) v = cc (f, v.holds)

  Reach-IsLocked : {s t : ServiceServer} → Reach show_uuid s t → IsLocked id l s → IsLocked id l t
  Reach-IsLocked here v = v
  Reach-IsLocked (next r st) v = step-IsLocked st (Reach-IsLocked r v)

-- While a call of `ResumeService` has the lock and the loop waits for this lock, with a request or for its
-- end, or has ended or never begun, both stay there for ever, whatever the goroutines do and even if the
-- context is cancelled.
pub resume_deadlock :
    (show_uuid : Uuid → Str) {id : Uuid} {s t : ServiceServer}
    → s.resuming ≡ some id
    → s.loop ≢ waits
    → Reach show_uuid s t
    → (t.resuming ≡ some id) × (t.loop ≡ s.loop)
resume_deadlock show_uuid {id} {s} h away r =
    let v = Reach-IsLocked show_uuid id s.loop away r (record { holds = h; away = refl }) in
    (v.holds, v.away)
