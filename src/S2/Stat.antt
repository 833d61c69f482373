-- ===== src/S2/Stat.antt =====
-- s2/s2.go: `Stat`, the count of the services by their states. A map is walked in the order of its
-- association list; the source's order is unspecified.
use srvbus.Common.{
  nat_eq, ℕ, suc, ◌+◌, ◌≡◌, refl, sym, ap, ◌∙◌, Bool, none, some, List, [], ◌∷◌, ◌++◌, arith, Uuid,
  Map, lookup, insert, lookup-insert, ◌==◌, if◌then◌else◌, length, Bool-cases, inl, inr,
}
use srvbus.Common.Text.{Str, codes, str_eq, str_beq, str_beq_iff}
use srvbus.S2.Service.{
  state_name, SvcState, ss_registered, ss_ready, ss_running, ss_ended, ss_failed, ServiceRecord,
}
use srvbus.S2.Server.{ServiceServer}

pub record Info : Type 0 where
  pub num : ℕ
  pub svcs : List Str

pub record Stat : Type 0 where
  pub name : Str
  pub id : Uuid
  pub active : Bool
  pub services : ℕ
  pub splits : Map Str Info

-- a missing key of the map reads as the zero value
abbrev pub info_of : Str → Map Str Info → Info
info_of k m = elim (lookup k m) [ none ↦ record { num = 0; svcs = [] } | some i ↦ i ]

module _ (show_uuid : Uuid → Str) where
  -- one round of the loop of `Stat`
  unfoldable pub add_service_info : ServiceRecord → Map Str Info → Map Str Info
  add_service_info sr m =
      let info = info_of (state_name sr.state) m in
      insert (state_name sr.state)
        (record {
          num = suc info.num;
          svcs = info.svcs ++ (show_uuid sr.id ++ (codes " : " ++ sr.name)) ∷ [];
        })
        m

  unfoldable pub add_all : Map Uuid ServiceRecord → Stat → Stat
  unfolding add_service_info
  add_all [] st = st
  add_all ((k, sr) ∷ m) st =
      add_all m (record st { services = suc st.services; splits = add_service_info sr st.splits })

  -- `Stat`
  unfoldable pub stat : ServiceServer → Stat
  unfolding add_all
  stat s =
      add_all s.services
        (record { name = s.name; id = s.id; active = s.runned; services = 0; splits = [] })

abbrev tag : SvcState → ℕ
tag ss_registered = 0
tag ss_ready = 1
tag ss_running = 2
tag ss_ended = 3
tag ss_failed = 4

-- the services in a state
abbrev pub count_in : SvcState → Map Uuid ServiceRecord → ℕ
count_in st [] = 0
count_in st ((k, sr) ∷ m) = if tag sr.state == tag st then suc (count_in st m) else count_in st m

state_name-tag : (a b : SvcState) → (state_name a == state_name b) ≡ (tag a == tag b)
unfolding str_beq
state_name-tag ss_registered b =
    elim b as (λ k. (state_name ss_registered == state_name k) ≡ (tag ss_registered == tag k)) [
      | ss_registered ↦ refl
      | ss_ready ↦ refl
      | ss_running ↦ refl
      | ss_ended ↦ refl
      | ss_failed ↦ refl
    ]
state_name-tag ss_ready b =
    elim b as (λ k. (state_name ss_ready == state_name k) ≡ (tag ss_ready == tag k)) [
      | ss_registered ↦ refl
      | ss_ready ↦ refl
      | ss_running ↦ refl
      | ss_ended ↦ refl
      | ss_failed ↦ refl
    ]
state_name-tag ss_running b =
    elim b as (λ k. (state_name ss_running == state_name k) ≡ (tag ss_running == tag k)) [
      | ss_registered ↦ refl
      | ss_ready ↦ refl
      | ss_running ↦ refl
      | ss_ended ↦ refl
      | ss_failed ↦ refl
    ]
state_name-tag ss_ended b =
    elim b as (λ k. (state_name ss_ended == state_name k) ≡ (tag ss_ended == tag k)) [
      | ss_registered ↦ refl
      | ss_ready ↦ refl
      | ss_running ↦ refl
      | ss_ended ↦ refl
      | ss_failed ↦ refl
    ]
state_name-tag ss_failed b =
    elim b as (λ k. (state_name ss_failed == state_name k) ≡ (tag ss_failed == tag k)) [
      | ss_registered ↦ refl
      | ss_ready ↦ refl
      | ss_running ↦ refl
      | ss_ended ↦ refl
      | ss_failed ↦ refl
    ]

module _ (show_uuid : Uuid → Str) where
  info_of-insert :
      (k j : Str) (v : Info) (m : Map Str Info)
      → info_of j (insert k v m) ≡ (if k == j then v else info_of j m)
  info_of-insert k j v m = ground (arith, lookup-insert k j v m)

  add_service_info-num :
      (sr : ServiceRecord) (m : Map Str Info) (st : SvcState)
      → (info_of (state_name st) (add_service_info show_uuid sr m)).num ≡ (
          if tag sr.state == tag st
          then suc (info_of (state_name st) m).num
          else (info_of (state_name st) m).num)
  unfolding add_service_info
  add_service_info-num sr m st =
      let named = state_name-tag sr.state st in
      let name = state_name sr.state in
      elim (Bool-cases (name == state_name st)) [
        | inl y ↦
            ap (λ (i : Info). i.num) (info_of-insert name (state_name st) _ m)
            ∙ rw (y, sym named ∙ y)
                (ap (λ k. suc (info_of k m).num) ((str_beq_iff name (state_name st)).0 y))
        | inr n ↦
            ap (λ (i : Info). i.num) (info_of-insert name (state_name st) _ m)
            ∙ rw (n, sym named ∙ n) refl
      ]

  add_all-num :
      (m : Map Uuid ServiceRecord) (x : Stat) (st : SvcState)
      → (info_of (state_name st) (add_all show_uuid m x).splits).num
        ≡ (info_of (state_name st) x.splits).num + count_in st m
  unfolding add_all
  add_all-num [] x st = omega arith
  add_all-num ((k, sr) ∷ m) x st = ground (
    arith,
    add_all-num m
        (record x { services = suc x.services; splits = add_service_info show_uuid sr x.splits })
        st,
    add_service_info-num sr x.splits st,
  )

  add_all-services :
      (m : Map Uuid ServiceRecord) (x : Stat)
      → (add_all show_uuid m x).services ≡ x.services + length m
  unfolding add_all
  add_all-services [] x = omega arith
  add_all-services ((k, sr) ∷ m) x = add_all-services m _ ∙ omega arith

  -- `Stat` counts every service of the server once in all, and once under the name of its state.
  pub stat-count_in :
      (s : ServiceServer) (st : SvcState)
      → ((stat show_uuid s).services ≡ length s.services)
        × ((info_of (state_name st) (stat show_uuid s).splits).num ≡ count_in st s.services)
  unfolding stat
  stat-count_in s st = (
    add_all-services s.services _ ∙ omega arith,
    add_all-num s.services _ st ∙ unfold lookup in omega arith,
  )
