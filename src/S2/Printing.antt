-- ===== src/S2/Printing.antt =====
-- s2/s2.go: the text of `Stat`. `none` is a panic, an index that is out of range.
use mathlib.Core.Path.{subst}
use srvbus.Common.{
  ℕ, ◌+◌, ◌≡◌, refl, Option, none, some, List, [], ◌∷◌, ◌++◌, arith, Uuid, nat_eq, Map, lookup,
  insert, length, length-append, append_nothing, ap, ◌∙◌, if◌then◌else◌, ◌==◌, All, Option-cases,
  Bool-cases, inl, inr,
}
use srvbus.Common.Text.{Str, codes, str_eq}
use srvbus.Common.Text.Decimal.{itoa, spaces}
use srvbus.S2.Service.{state_name, ServiceRecord}
use srvbus.S2.Server.{ServiceServer}
use srvbus.S2.Stat.{Info, Stat, info_of, add_service_info, add_all, stat}

abbrev line : Str → Str
line text = text ++ 10 ∷ []

abbrev rule : Str
rule = line (codes "======================================")

-- the lines of the services after the first
unfoldable more_lines : ℕ → List Str → Str
more_lines width [] = []
more_lines width (s ∷ ss) = line (spaces (width + 5) ++ s) ++ more_lines width ss

-- the services of one state
unfoldable info_lines : Str → List Str → Option Str
unfolding more_lines
info_lines st [] = none
info_lines st (s ∷ ss) =
    some (line (codes "  [" ++ (st ++ (codes "] " ++ s))) ++ more_lines (length st) ss)

-- the loop over `stat.Splits`
unfoldable pub split_lines : Map Str Info → Option Str
unfolding info_lines
split_lines [] = some []
split_lines ((st, info) ∷ m) =
    let rest = split_lines m in
    elim (info_lines st info.svcs) [
      | none ↦ none
      | some text ↦ elim rest [ none ↦ none | some others ↦ some (text ++ others) ]
    ]

abbrev header : (Uuid → Str) → Stat → Str
header show_uuid st =
    line []
    ++ (line (codes "Service Server")
        ++ (rule
            ++ (line (codes "Name          : " ++ st.name)
                ++ (line (codes "ID            : " ++ show_uuid st.id)
                    ++ (line (
                          if st.active
                          then codes "Status        : Active"
                          else codes "Status        : Inactive")
                        ++ (line (codes "Total Services: " ++ itoa st.services) ++ rule))))))

abbrev framed : Str → Option Str → Option Str
framed head none = none
framed head (some text) = some (head ++ (text ++ line []))

-- `Stat.String`
unfoldable print : (Uuid → Str) → Stat → Option Str
unfolding split_lines
print show_uuid st = framed (header show_uuid st) (split_lines st.splits)

-- The entry counts at least one service, and has a text for each.
record IsCounted (info : Info) : Type 0 where
  texts : length info.svcs ≡ info.num
  some_service : (info.svcs ≡ []) → ⊥

abbrev AllCounted : Map Str Info → Type 0
AllCounted m = All (λ (e : Str × Info). IsCounted e.1) m

insert-AllCounted :
    (k : Str) (i : Info) (m : Map Str Info) → IsCounted i → AllCounted m → AllCounted (insert k i m)
unfolding insert
insert-AllCounted k i [] c h = (c, tt)
insert-AllCounted k i ((j, x) ∷ m) c (hx, h) = elim (Bool-cases (j == k)) [
  | inl y ↦ rw y (c, h)
  | inr n ↦ rw n (hx, insert-AllCounted k i m c h)
]

lookup-IsCounted :
    (k : Str) (m : Map Str Info) (i : Info) → AllCounted m → lookup k m ≡ some i → IsCounted i
unfolding lookup
lookup-IsCounted k [] i h e = absurd (ground arith)
lookup-IsCounted k ((j, x) ∷ m) i (hx, h) e = elim (Bool-cases (j == k)) [
  | inl y ↦ let same : x ≡ i = ground arith in subst IsCounted same hx
  | inr n ↦ lookup-IsCounted k m i h (rw n at e)
]

texts_of :
    (k : Str) (m : Map Str Info) → AllCounted m → length (info_of k m).svcs ≡ (info_of k m).num
texts_of k m h = elim (Option-cases (lookup k m)) [
  | inl e ↦ ground arith
  | inr (i, e) ↦ let c = (lookup-IsCounted k m i h e).texts in ground arith
]

module _ (show_uuid : Uuid → Str) where
  add-AllCounted :
      (sr : ServiceRecord) (m : Map Str Info)
      → AllCounted m
      → AllCounted (add_service_info show_uuid sr m)
  unfolding add_service_info
  add-AllCounted sr m h =
      let name = state_name sr.state in
      insert-AllCounted name _ m
        (record {
          texts = length-append (info_of name m).svcs (_ ∷ []) ∙ ground (arith, texts_of name m h);
          some_service =
              λ e. let last = (append_nothing (info_of name m).svcs _ e).1 in ground arith;
        })
        h

  add_all-AllCounted :
      (m : Map Uuid ServiceRecord) (x : Stat)
      → AllCounted x.splits
      → AllCounted (add_all show_uuid m x).splits
  unfolding add_all
  add_all-AllCounted [] x h = h
  add_all-AllCounted ((k, sr) ∷ m) x h = add_all-AllCounted m _ (add-AllCounted sr x.splits h)

info_lines-text :
    (st : Str) (svcs : List Str) → (svcs ≡ [] → ⊥) → (text : Str) × (info_lines st svcs ≡ some text)
unfolding info_lines
info_lines-text st [] h = absurd (h refl)
info_lines-text st (s ∷ ss) h = (_, refl)

split_lines-text : (m : Map Str Info) → AllCounted m → (text : Str) × (split_lines m ≡ some text)
unfolding split_lines
split_lines-text [] h = ([], refl)
split_lines-text ((st, info) ∷ m) (c, h) =
    let (others, e) = split_lines-text m h in
    let (text, f) = info_lines-text st info.svcs c.some_service in (text ++ others, ground arith)

-- Printing what `Stat` returns never indexes out of range: it gives a text, on every server.
print-stat :
    (show_uuid : Uuid → Str) (s : ServiceServer)
    → (text : Str) × (print show_uuid (stat show_uuid s) ≡ some text)
unfolding print stat
print-stat show_uuid s =
    let (text, e) = split_lines-text _ (add_all-AllCounted show_uuid s.services _ tt) in
    (_, ap (framed (header show_uuid (stat show_uuid s))) e)
