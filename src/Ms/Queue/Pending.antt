-- ===== src/Ms/Queue/Pending.antt =====
-- What the goroutines of `putMessages` carry of one sender.
use srvbus.Common.{
  append_nil, append_assoc, append_nothing, ◌≡◌, ◌∙◌, ◌⊎◌, ◌≢◌, refl, sym, ap, true, false, List,
  [], ◌∷◌, ◌++◌, arith, Uuid, nat_eq, ◌==◌, if◌then◌else◌, inl, inr,
}
use srvbus.Ms.Message.{Message}
use srvbus.Ms.Queue.{MessageEnvelope, MsgRegRequest, requests}

-- the messages that a sender has in a log, and in the goroutine of a put
abbrev pub logged : Uuid → List MessageEnvelope → List Message
logged who [] = []
logged who (e ∷ es) = if e.sender == who then e.message ∷ logged who es else logged who es

abbrev pub pending : Uuid → List MsgRegRequest → List Message
pending who [] = []
pending who (r ∷ rs) = if r.sender == who then r.msg ∷ pending who rs else pending who rs

abbrev pub all_pending : Uuid → List (List MsgRegRequest) → List Message
all_pending who [] = []
all_pending who (g ∷ gs) = pending who g ++ all_pending who gs

-- no more than one goroutine carries messages of the sender
abbrev pub OneOf : Uuid → List (List MsgRegRequest) → Type 0
OneOf who [] = Unit
OneOf who (g ∷ gs) = (all_pending who gs ≡ []) ⊎ ((pending who g ≡ []) × OneOf who gs)

module _ (who : Uuid) where
  pub pending-other :
      (x : Uuid) (ms : List Message) → (x == who) ≡ false → pending who (requests x ms) ≡ []
  pending-other x [] h = refl
  pending-other x (m ∷ ms) h = rw h (pending-other x ms h)

  pub pending-own : (ms : List Message) → pending who (requests who ms) ≡ ms
  pending-own [] = refl
  pending-own (m ∷ ms) = ground (arith, pending-own ms)

  pub all_pending-snoc :
      (gs : List (List MsgRegRequest)) (g : List MsgRegRequest)
      → all_pending who (gs ++ g ∷ []) ≡ all_pending who gs ++ pending who g
  all_pending-snoc [] g = append_nil (pending who g)
  all_pending-snoc (x ∷ gs) g =
      ap (λ l. pending who x ++ l) (all_pending-snoc gs g)
      ∙ sym (append_assoc (pending who x) (all_pending who gs) (pending who g))

  pub logged-append :
      (es fs : List MessageEnvelope) → logged who (es ++ fs) ≡ logged who es ++ logged who fs
  logged-append [] fs = refl
  logged-append (e ∷ es) fs = ground (arith, logged-append es fs)

  OneOf-empty : (gs : List (List MsgRegRequest)) → all_pending who gs ≡ [] → OneOf who gs
  OneOf-empty [] h = tt
  OneOf-empty (g ∷ gs) h = inl (append_nothing (pending who g) (all_pending who gs) h).1

  all_pending-drop :
      (xs : List (List MsgRegRequest)) (g : List MsgRegRequest) (ys : List (List MsgRegRequest))
      → all_pending who (xs ++ g ∷ ys) ≡ []
      → all_pending who (xs ++ ys) ≡ []
  all_pending-drop [] g ys h = (append_nothing (pending who g) (all_pending who ys) h).1
  all_pending-drop (x ∷ xs) g ys h =
      let (a, b) = append_nothing (pending who x) (all_pending who (xs ++ g ∷ ys)) h in
      rw (a, all_pending-drop xs g ys b) refl

  -- the other goroutines' messages when one is put last
  pub OneOf-idle :
      (gs : List (List MsgRegRequest)) (g : List MsgRegRequest)
      → all_pending who gs ≡ []
      → OneOf who (gs ++ g ∷ [])
  OneOf-idle [] g h = inl refl
  OneOf-idle (x ∷ gs) g h =
      let (a, b) = append_nothing (pending who x) (all_pending who gs) h in
      inr (a, OneOf-idle gs g b)

  pub OneOf-snoc :
      (gs : List (List MsgRegRequest)) (g : List MsgRegRequest)
      → pending who g ≡ []
      → OneOf who gs
      → OneOf who (gs ++ g ∷ [])
  OneOf-snoc [] g h o = inl refl
  OneOf-snoc (x ∷ gs) g h (inl e) = inl (all_pending-snoc gs g ∙ rw (e, h) refl)
  OneOf-snoc (x ∷ gs) g h (inr (e, o)) = inr (e, OneOf-snoc gs g h o)

  -- a goroutine's list replaced by one with the same messages of the sender
  pub all_pending-same :
      (xs : List (List MsgRegRequest)) (g h : List MsgRegRequest) (ys : List (List MsgRegRequest))
      → pending who g ≡ pending who h
      → all_pending who (xs ++ g ∷ ys) ≡ all_pending who (xs ++ h ∷ ys)
  all_pending-same [] g h ys e = ap (λ l. l ++ all_pending who ys) e
  all_pending-same (x ∷ xs) g h ys e = ap (λ l. pending who x ++ l) (all_pending-same xs g h ys e)

  pub OneOf-same :
      (xs : List (List MsgRegRequest)) (g h : List MsgRegRequest) (ys : List (List MsgRegRequest))
      → pending who g ≡ pending who h
      → OneOf who (xs ++ g ∷ ys)
      → OneOf who (xs ++ h ∷ ys)
  OneOf-same [] g h ys e (inl a) = inl a
  OneOf-same [] g h ys e (inr (a, o)) = inr (sym e ∙ a, o)
  OneOf-same (x ∷ xs) g h ys e (inl a) = inl (sym (all_pending-same xs g h ys e) ∙ a)
  OneOf-same (x ∷ xs) g h ys e (inr (a, o)) = inr (a, OneOf-same xs g h ys e o)

  not_waiting :
      (xs : List (List MsgRegRequest)) (r : MsgRegRequest) (rs : List MsgRegRequest)
      (ys : List (List MsgRegRequest))
      → (r.sender == who) ≡ true
      → all_pending who (xs ++ (r ∷ rs) ∷ ys) ≢ []
  not_waiting [] r rs ys e h = ground arith
  not_waiting (x ∷ xs) r rs ys e h =
      not_waiting xs r rs ys e
        (append_nothing (pending who x) (all_pending who (xs ++ (r ∷ rs) ∷ ys)) h).1

  -- the request taken is the first that waits
  pub deliver_lem :
      (xs : List (List MsgRegRequest)) (r : MsgRegRequest) (rs : List MsgRegRequest)
      (ys : List (List MsgRegRequest))
      → (r.sender == who) ≡ true
      → OneOf who (xs ++ (r ∷ rs) ∷ ys)
      → (all_pending who (xs ++ (r ∷ rs) ∷ ys) ≡ r.msg ∷ all_pending who (xs ++ rs ∷ ys))
        × OneOf who (xs ++ rs ∷ ys)
  deliver_lem [] r rs ys e (inl a) = (rw e refl, inl a)
  deliver_lem [] r rs ys e (inr (a, o)) = absurd (ground arith)
  deliver_lem (x ∷ xs) r rs ys e (inl a) = absurd (not_waiting xs r rs ys e a)
  deliver_lem (x ∷ xs) r rs ys e (inr (a, o)) =
      let (p, o') = deliver_lem xs r rs ys e o in (rw a p, inr (a, o'))

  -- a goroutine that gives up loses what it carries
  pub drop_lem :
      (xs : List (List MsgRegRequest)) (g : List MsgRegRequest) (ys : List (List MsgRegRequest))
      → OneOf who (xs ++ g ∷ ys)
      → (lost : List Message) × (all_pending who (xs ++ g ∷ ys)
          ≡ all_pending who (xs ++ ys) ++ lost)
        × OneOf who (xs ++ ys)
  drop_lem [] g [] o = (pending who g, append_nil _, tt)
  drop_lem [] g (y ∷ ys) (inl a) = (
    pending who g,
    ap (λ l. pending who g ++ l) a
        ∙ append_nil (pending who g)
        ∙ sym (ap (λ l. l ++ pending who g) a),
    OneOf-empty (y ∷ ys) a,
  )
  drop_lem [] g (y ∷ ys) (inr (a, o)) = ([], rw a (sym (append_nil _)), o)
  drop_lem (x ∷ xs) g ys (inl a) = (
    [],
    rw (a, all_pending-drop xs g ys a) (sym (append_nil _)),
    inl (all_pending-drop xs g ys a),
  )
  drop_lem (x ∷ xs) g ys (inr (a, o)) =
      let (lost, p, o') = drop_lem xs g ys o in (lost, rw a p, inr (a, o'))

  pub finish_lem :
      (xs ys : List (List MsgRegRequest))
      → OneOf who (xs ++ [] ∷ ys)
      → OneOf who (xs ++ ys) × (all_pending who (xs ++ [] ∷ ys) ≡ all_pending who (xs ++ ys))
  finish_lem [] ys (inl a) = (OneOf-empty ys a, refl)
  finish_lem [] ys (inr (a, o)) = (o, refl)
  finish_lem (x ∷ xs) ys (inl a) = (
    inl (all_pending-drop xs [] ys a),
    ap (λ l. pending who x ++ l) (a ∙ sym (all_pending-drop xs [] ys a)),
  )
  finish_lem (x ∷ xs) ys (inr (a, o)) =
      let (o', p) = finish_lem xs ys o in (inr (a, o'), ap (λ l. pending who x ++ l) p)
