-- ===== src/Grpc/Events/Streams/Life.antt =====
-- A stream from its check to its end, and two calls that use the same stream at once.
use srvbus.Common.{
  ℕ, ◌≡◌, refl, ap, ◌∙◌, Bool, true, false, not, none, some, [], ◌∷◌, ◌++◌, arith, Uuid, nat_eq,
  Map, lookup, insert, delete, lookup-insert, lookup-delete, beq_refl, Option-cases, inl, inr,
}
use srvbus.Grpc.Events.{EvtServer}
use srvbus.Grpc.Events.Streams.{streams_of, is_known, put_left, check_subs_stream, register, finish}

module _ (who stream : Uuid) where
  check_new :
      (h : EvtServer) → (check_subs_stream who stream true h).1 ≡ not (is_known who stream h)
  unfolding check_subs_stream lookup
  check_new h = elim (Option-cases (lookup who h.streams)) [
    | inl n ↦ ground arith
    | inr (ss, n) ↦ elim (Option-cases (lookup stream ss)) [
      | inl m ↦ ground arith
      | inr (c, m) ↦ ground arith
    ]
  ]

  check_known : (h : EvtServer) → (check_subs_stream who stream false h).1 ≡ is_known who stream h
  unfolding check_subs_stream lookup
  check_known h = elim (Option-cases (lookup who h.streams)) [
    | inl n ↦ ground arith
    | inr (ss, n) ↦ elim (Option-cases (lookup stream ss)) [
      | inl m ↦ ground arith
      | inr (c, m) ↦ ground arith
    ]
  ]

  -- the check adds no stream
  check_keeps :
      (h : EvtServer) (get_new : Bool)
      → streams_of who (check_subs_stream who stream get_new h).0 ≡ streams_of who h
  unfolding check_subs_stream
  check_keeps h get_new = elim (Option-cases (lookup who h.streams)) [
    | inl n ↦ ground (arith, lookup-insert who who [] h.streams)
    | inr (ss, n) ↦ ground arith
  ]

  check_stopped :
      (h : EvtServer) (get_new : Bool)
      → (check_subs_stream who stream get_new h).0.stopped ≡ h.stopped
  unfolding check_subs_stream
  check_stopped h get_new = elim (Option-cases (lookup who h.streams)) [
    | inl n ↦ ground arith
    | inr (ss, n) ↦ elim (Option-cases (lookup stream ss)) [
      | inl m ↦ ground arith
      | inr (c, m) ↦ ground arith
    ]
  ]

  streams_of-register :
      (h : EvtServer) (call : ℕ)
      → streams_of who (register call who stream h) ≡ insert stream call (streams_of who h)
  unfolding register
  streams_of-register h call =
      ground (arith, lookup-insert who who (insert stream call (streams_of who h)) h.streams)

  lookup-register :
      (h : EvtServer) (call : ℕ)
      → lookup stream (streams_of who (register call who stream h)) ≡ some call
  lookup-register h call =
      ap (lookup stream) (streams_of-register h call)
      ∙ (lookup-insert stream stream call (streams_of who h) ∙ rw (beq_refl stream) refl)

  put_left-streams :
      (left : Map Uuid ℕ) (m : Map Uuid (Map Uuid ℕ))
      → elim (lookup who (put_left who left m)) [ none ↦ [] | some ss ↦ ss ] ≡ left
  put_left-streams [] m = ground (arith, lookup-delete who who m)
  put_left-streams (s ∷ ss) m = ground (arith, lookup-insert who who (s ∷ ss) m)

  streams_of-finish :
      (h : EvtServer) (call : ℕ)
      → streams_of who (finish call who stream h) ≡ delete stream (streams_of who h)
  unfolding finish
  streams_of-finish h call = put_left-streams (delete stream (streams_of who h)) h.streams

  known-register :
      (h : EvtServer) (call : ℕ) → is_known who stream (register call who stream h) ≡ true
  known-register h call = ground (arith, lookup-register h call)

  known-finish : (h : EvtServer) (call : ℕ) → is_known who stream (finish call who stream h) ≡ false
  known-finish h call = ground (
    arith,
    ap (lookup stream) (streams_of-finish h call),
    lookup-delete stream stream (streams_of who h),
  )

  -- A stream that is not known passes the check as new. Once it is registered it is known, a further call for
  -- it is refused, and it is found under its call; once it has ended it is not known, and may be used again.
  pub stream_life :
      (h : EvtServer) (call : ℕ)
      → is_known who stream h ≡ false
      → let h₁ = (check_subs_stream who stream true h).0 in
        let h₂ = register call who stream h₁ in
        let h₃ = finish call who stream h₂ in
        ((check_subs_stream who stream true h).1 ≡ true)
        × ((check_subs_stream who stream true h₂).1 ≡ false)
        × (lookup stream (streams_of who h₂) ≡ some call)
        × ((check_subs_stream who stream false h₃).1 ≡ false)
        × ((check_subs_stream who stream true h₃).1 ≡ true)
  stream_life h call n =
      let h₁ = (check_subs_stream who stream true h).0 in
      let h₂ = register call who stream h₁ in
      let h₃ = finish call who stream h₂ in
      (
        check_new h ∙ rw n refl,
        check_new h₂ ∙ rw (known-register h₁ call) refl,
        lookup-register h₁ call,
        check_known h₃ ∙ known-finish h₂ call,
        check_new h₃ ∙ rw (known-finish h₂ call) refl,
      )

  -- Two calls that check the same stream before either registers it both pass. Only the one that registers
  -- last is found under the stream; when it ends, only its own context is done by that, and the stream is not
  -- found any more.
  pub two_streams :
      (h : EvtServer) (call other : ℕ)
      → is_known who stream h ≡ false
      → let (h₁, first) = check_subs_stream who stream true h in
        let (h₂, second) = check_subs_stream who stream true h₁ in
        let h₃ = register other who stream (register call who stream h₂) in
        let h₄ = finish other who stream h₃ in
        (first ≡ true)
        × (second ≡ true)
        × (lookup stream (streams_of who h₃) ≡ some other)
        × ((check_subs_stream who stream false h₄).1 ≡ false)
        × (h₄.stopped ≡ h.stopped ++ other ∷ [])
  two_streams h call other n =
      let h₁ = (check_subs_stream who stream true h).0 in
      let h₂ = (check_subs_stream who stream true h₁).0 in
      let h₃ = register other who stream (register call who stream h₂) in
      let h₄ = finish other who stream h₃ in
      let same : is_known who stream h₁ ≡ false =
        ground (arith, ap (lookup stream) (check_keeps h true)) in
      (
        check_new h ∙ rw n refl,
        check_new h₁ ∙ rw same refl,
        lookup-register (register call who stream h₂) other,
        check_known h₄ ∙ known-finish h₃ other,
        unfold finish register in
            ap (λ l. l ++ other ∷ []) (check_stopped h₁ true ∙ check_stopped h true),
      )
