-- ===== src/Es/Names.antt =====
-- Topic paths: the parsing loops of es/es.go (`hasTopic`, `AddTopic`, `AddTopicQueue`) and
-- `update2Absolute` of es/topic.go.
pub mod RoundTrip
use srvbus.Common.{
  ℕ, zero, suc, List, [], ◌∷◌, ◌++◌, Bool, take, get_elem?, Option, none, some, nat_beq,
  if◌then◌else◌,
}
use srvbus.Common.Text.{Str, slash, is_empty, trim, split}

-- `t = strings.Trim(t, " "); if len(t) != 0 { tt = append(tt, t) }` over the parts
unfoldable pub clean_parts : List Str → List Str
clean_parts [] = []
clean_parts (t ∷ ts) =
    let rest = clean_parts ts in if is_empty (trim t) then rest else trim t ∷ rest

-- The names in a path.
unfoldable pub names : Str → List Str
unfolding clean_parts
names path = clean_parts (split path)

-- `update2Absolute` after its trim
abbrev with_slash : Str → Str
with_slash [] = slash ∷ []
with_slash (c ∷ s) = if nat_beq c slash then c ∷ s else slash ∷ c ∷ s

unfoldable pub update_to_absolute : Str → Str
update_to_absolute path = with_slash (trim path)

abbrev part : List Str → ℕ → Str
part ts i = elim (get_elem? ts i) [ none ↦ [] | some t ↦ t ]

-- `for pos = len(nn) - 1; pos > 0; pos--`: the last part but the first that is not empty, and
-- its position; the name as it was given, and 0, if there is none.
unfoldable pub pick_name : List Str → Str → ℕ → Str × ℕ
pick_name nn name zero = (name, zero)
pick_name nn name (suc pos) =
    if is_empty (part nn (suc pos)) then pick_name nn name pos else (part nn (suc pos), suc pos)

-- `for i := 0; i < pos; i++`: the leading parts go to the end of the branch, as they are
unfoldable pub extend_branch : Str → List Str → Str
extend_branch branch [] = branch
extend_branch branch (t ∷ ts) =
    extend_branch (if is_empty t then branch else branch ++ slash ∷ t) ts
