-- ===== src/S2/Waiting.antt =====
-- s2/s2.go: `WaitForService`. A goroutine that waits for a service looks at its state once a second;
-- it is given by the states that it sees before the context is done.
use mathlib.Core.List.{Permᴰ}
use srvbus.Common.{
  ◌↔◌, ◌⊎◌, inl, inr, Option, ℕ, zero, suc, ◌≡◌, refl, ap, sym, ◌∙◌, Bool, true, false, ◌&&◌, none,
  some, List, [], ◌∷◌, map, length, arith, Uuid, nil_uuid, nat_eq, Result, ok, err, Map, lookup,
  ◌==◌, if◌then◌else◌,
}
use srvbus.S2.Service.{
  SvcState, ss_registered, ss_ready, ss_running, ss_ended, ss_failed, is_running, is_final, S2Err,
  unknown_service, ServiceRecord,
}
use srvbus.S2.Server.{ServiceServer}

-- `waitForSvc`, over the states that it sees in the rounds whose `select` does not take the end of the
-- context: what it sends. After these rounds it takes that, whatever the state is by then.
unfoldable pub wait_for_svc : List SvcState → Bool
wait_for_svc [] = false
wait_for_svc (st ∷ later) = let rest = wait_for_svc later in if is_final st then true else rest

-- The goroutine that sums up, over what its `select` takes: an answer, or `none` for the end of the context.
-- `count` answers are missing; as long as it waits it has sent nothing.
unfoldable pub wait_sum : ℕ → List (Option Bool) → Option Bool
wait_sum zero taken = some true
wait_sum (suc count) [] = none
wait_sum (suc count) (none ∷ taken) = some false
wait_sum (suc count) (some res ∷ taken) =
    let rest = wait_sum count taken in if res then rest else some false

-- the goroutine when no service is counted: it sends true, or nothing once it has taken the end of the context
unfoldable pub wait_none : List (Option Bool) → Option Bool
wait_none [] = some true
wait_none (none ∷ taken) = none
wait_none (some res ∷ taken) = some true

-- the services that `WaitForService` counts
unfoldable pub running_ids : Map Uuid ServiceRecord → List Uuid
running_ids [] = []
running_ids ((id, sr) ∷ m) =
    let rest = running_ids m in if is_running sr.state then id ∷ rest else rest

-- what the answers are, when these services answer in this order
abbrev pub answers_of : (Uuid → List SvcState) → List (Option Uuid) → List (Option Bool)
answers_of seen [] = []
answers_of seen (none ∷ order) = none ∷ answers_of seen order
answers_of seen (some k ∷ order) = some (wait_for_svc (seen k)) ∷ answers_of seen order

-- `WaitForService`, with what its channel gets, if anything. `seen` tells what the goroutine of a service sees,
-- and `order` is the order in which the goroutine that sums up takes their answers, and the end of the context.
unfoldable pub wait_for_service :
    ServiceServer → Uuid → (Uuid → List SvcState) → List (Option Uuid) → Result S2Err (Option Bool)
unfolding wait_sum wait_none wait_for_svc running_ids
wait_for_service s id seen order =
    if id == nil_uuid
    then elim (running_ids s.services) [
      | [] ↦ ok (wait_none (answers_of seen order))
      | k ∷ ks ↦ ok (wait_sum (suc (length ks)) (answers_of seen order))
    ]
    else elim (lookup id s.services) [
      | none ↦ err (unknown_service id)
      | some sr ↦ ok (some (wait_for_svc (seen id)))
    ]

-- every answer is true
abbrev all_of : List Bool → Bool
all_of [] = true
all_of (b ∷ bs) = b && all_of bs

-- a service that was seen ended or failed
abbrev pub IsOver : SvcState → Type 0
IsOver ss_ended = Unit
IsOver ss_failed = Unit
IsOver ss_registered = ⊥
IsOver ss_ready = ⊥
IsOver ss_running = ⊥

abbrev pub SeenOver : List SvcState → Type 0
SeenOver [] = ⊥
SeenOver (st ∷ later) = IsOver st ⊎ SeenOver later

-- what is asked of a service, if it runs
abbrev pub IfRunning : SvcState → Type 0 → Type 0
IfRunning ss_running P = P
IfRunning ss_registered P = Unit
IfRunning ss_ready P = Unit
IfRunning ss_ended P = Unit
IfRunning ss_failed P = Unit

-- Each service that runs was seen ended or failed.
abbrev pub AllOver : (Uuid → List SvcState) → Map Uuid ServiceRecord → Type 0
AllOver seen [] = Unit
AllOver seen ((id, sr) ∷ m) = IfRunning sr.state (SeenOver (seen id)) × AllOver seen m

unseen :
    (st : SvcState) (later : List SvcState)
    → (IsOver st → ⊥)
    → (wait_for_svc later ≡ true) ↔ SeenOver later
    → (wait_for_svc later ≡ true) ↔ SeenOver (st ∷ later)
unseen st later not_over iff = (
  (λ h. inr (iff.0 h)),
  λ h. elim h [ inl over ↦ absurd (not_over over) | inr seen ↦ iff.1 seen ],
)

wait_for_svc_iff : (sts : List SvcState) → (wait_for_svc sts ≡ true) ↔ SeenOver sts
unfolding wait_for_svc
wait_for_svc_iff [] = (λ h. absurd (ground arith), λ h. absurd h)
wait_for_svc_iff (ss_ended ∷ later) = (λ h. inl tt, λ h. refl)
wait_for_svc_iff (ss_failed ∷ later) = (λ h. inl tt, λ h. refl)
wait_for_svc_iff (ss_registered ∷ later) =
    unseen ss_registered later (λ h. h) (wait_for_svc_iff later)
wait_for_svc_iff (ss_ready ∷ later) = unseen ss_ready later (λ h. h) (wait_for_svc_iff later)
wait_for_svc_iff (ss_running ∷ later) = unseen ss_running later (λ h. h) (wait_for_svc_iff later)

and_iff : (a b : Bool) → ((a && b) ≡ true) ↔ ((a ≡ true) × (b ≡ true))
and_iff true b = (λ h. (refl, h), λ h. h.1)
and_iff false b = (λ h. (h, absurd (ground arith)), λ h. h.0)

module _ (seen : Uuid → List SvcState) where
  abbrev answer : Uuid → Bool
  answer k = wait_for_svc (seen k)

  all_of_iff :
      (m : Map Uuid ServiceRecord) → (all_of (map answer (running_ids m)) ≡ true) ↔ AllOver seen m
  unfolding running_ids
  all_of_iff [] = (λ h. tt, λ h. refl)
  all_of_iff ((id, sr) ∷ m) = go (all_of_iff m) sr.state refl
    where
      go :
          ((all_of (map answer (running_ids m)) ≡ true) ↔ AllOver seen m)
          → (st : SvcState) → sr.state ≡ st
          → (all_of (map answer (running_ids ((id, sr) ∷ m))) ≡ true)
            ↔ (IfRunning sr.state (SeenOver (seen id)) × AllOver seen m)
      go ih ss_running e =
          let both = and_iff (answer id) (all_of (map answer (running_ids m))) in
          let one = wait_for_svc_iff (seen id) in
          rw (e, running_ids)
            ((λ h. let (x, y) = both.0 h in (one.0 x, ih.0 y)), λ h. both.1 (one.1 h.0, ih.1 h.1))
      go ih ss_registered e = rw (e, running_ids) (λ h. (tt, ih.0 h), λ h. ih.1 h.1)
      go ih ss_ready e = rw (e, running_ids) (λ h. (tt, ih.0 h), λ h. ih.1 h.1)
      go ih ss_ended e = rw (e, running_ids) (λ h. (tt, ih.0 h), λ h. ih.1 h.1)
      go ih ss_failed e = rw (e, running_ids) (λ h. (tt, ih.0 h), λ h. ih.1 h.1)

  all_of-perm : {xs ys : List Uuid} → Permᴰ xs ys → all_of (map answer xs) ≡ all_of (map answer ys)
  all_of-perm Permᴰ.nil = refl
  all_of-perm (Permᴰ.cons e p) = ground (arith, ap answer e, all_of-perm p)
  all_of-perm (Permᴰ.swap e g) = ground (arith, ap answer e, ap answer g)
  all_of-perm (Permᴰ.trans p q) = all_of-perm p ∙ all_of-perm q

  wait_sum-all_of :
      (ks : List Uuid)
      → wait_sum (length ks) (answers_of seen (map (λ k. some k) ks))
        ≡ some (all_of (map answer ks))
  unfolding wait_sum
  wait_sum-all_of [] = refl
  wait_sum-all_of (k ∷ ks) = ground (arith, wait_sum-all_of ks)

length-perm : {xs ys : List Uuid} → Permᴰ xs ys → length xs ≡ length ys
length-perm Permᴰ.nil = refl
length-perm (Permᴰ.cons e p) = ap suc (length-perm p)
length-perm (Permᴰ.swap e g) = refl
length-perm (Permᴰ.trans p q) = length-perm p ∙ length-perm q

length-zero : (ks : List Uuid) → length ks ≡ 0 → ks ≡ []
length-zero [] h = refl
length-zero (k ∷ ks) h = absurd (omega arith)

wait_all :
    (s : ServiceServer) (seen : Uuid → List SvcState) {ks : List Uuid}
    → Permᴰ (running_ids s.services) ks
    → wait_for_service s nil_uuid seen (map (λ k. some k) ks)
      ≡ ok (some (all_of (map (answer seen) (running_ids s.services))))
unfolding wait_for_service wait_none
wait_all s seen {ks} p = go (running_ids s.services) refl
  where
    go :
        (ids : List Uuid)
        → running_ids s.services ≡ ids
        → wait_for_service s nil_uuid seen (map (λ k. some k) ks)
          ≡ ok (some (all_of (map (answer seen) (running_ids s.services))))
    go [] e =
        let none_left : ks ≡ [] = length-zero ks (sym (length-perm p) ∙ ap length e) in
        rw (e, wait_for_service, none_left) refl
    go (k ∷ ids) e =
        let same : suc (length ids) ≡ length ks = sym (ap length e) ∙ length-perm p in
        rw (e, wait_for_service, same)
          (ap (λ b. ok b)
            (wait_sum-all_of seen ks
              ∙ ap (λ b. some b)
                  (sym (ap (λ l. all_of (map (answer seen) l)) (sym e) ∙ all_of-perm seen p))))

-- Waiting for all, when the goroutines of the services answer in some order and the end of the context is not
-- taken: what is sent is true just when each service that ran at the call was seen ended or failed. Services
-- in another state at the call are not waited for.
pub wait_for_service-all :
    (s : ServiceServer) (seen : Uuid → List SvcState) {ks : List Uuid}
    → Permᴰ (running_ids s.services) ks
    → (wait_for_service s nil_uuid seen (map (λ k. some k) ks) ≡ ok (some true))
      ↔ AllOver seen s.services
wait_for_service-all s seen p =
    let same = wait_all s seen p in
    let iff = all_of_iff seen s.services in
    ((λ h. iff.0 (cc (h, same))), λ h. same ∙ ap (λ b. ok (some b)) (iff.1 h))
