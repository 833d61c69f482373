-- ===== src/Es/Names/RoundTrip.antt =====
-- Parsing a path against printing it.
use mathlib.Core.List.{append-nil}
use srvbus.Common.{
  ◌≡◌, refl, ap₂, ◌∙◌, List, [], ◌∷◌, ◌++◌, false, inl, inr, arith, All, Bool-cases,
}
use srvbus.Common.Text.{Str, slash, is_empty, trim, trim_left, trim_right, split}
use srvbus.Common.Text.Trim.{trim_idem}
use srvbus.Common.Text.Split.{HasNoSlash, split-append, split_one, split-HasNoSlash}
use srvbus.Es.Names.{clean_parts, names}

-- A topic name as the parser gives it: not empty, no space at its ends, no slash.
pub record IsName (n : Str) : Type 0 where
  pub trimmed : trim n ≡ n
  pub filled : is_empty n ≡ false
  pub flat : HasNoSlash n

-- "/a/b/c" for the names a, b, c
abbrev pub path_of : List Str → Str
path_of [] = []
path_of (n ∷ ns) = slash ∷ n ++ path_of ns

clean_parts-append : (ts us : List Str) → clean_parts (ts ++ us) ≡ clean_parts ts ++ clean_parts us
unfolding clean_parts
clean_parts-append [] us = refl
clean_parts-append (t ∷ ts) us = ground (arith, clean_parts-append ts us)

-- A slash between two paths puts their names together.
names-append : (p q : Str) → names (p ++ slash ∷ q) ≡ names p ++ names q
unfolding names
names-append p q = rw split-append (clean_parts-append (split p) (split q))

names-IsName : (n : Str) → IsName n → names n ≡ n ∷ []
unfolding names
names-IsName n h = rw (split_one n h.flat, h.trimmed, h.filled)

names_of_first :
    (n : Str) (ns : List Str) → IsName n → All IsName ns → names (n ++ path_of ns) ≡ n ∷ ns
names_of_first n [] h hs = rw append-nil (names-IsName n h)
names_of_first n (m ∷ ms) h hs =
    names-append n (m ++ path_of ms) ∙ ap₂ ◌++◌ (names-IsName n h) (names_of_first m ms hs.0 hs.1)

names-nil : names [] ≡ []
unfolding names trim split
names-nil = refl

-- The names in the path of some names are those names.
pub names-path_of : (ns : List Str) → All IsName ns → names (path_of ns) ≡ ns
names-path_of [] h = names-nil
names-path_of (n ∷ ns) h =
    names-append [] (n ++ path_of ns) ∙ ap₂ ◌++◌ names-nil (names_of_first n ns h.0 h.1)

trim_left-HasNoSlash : (s : Str) → HasNoSlash s → HasNoSlash (trim_left s)
unfolding trim_left
trim_left-HasNoSlash [] h = tt
trim_left-HasNoSlash (c ∷ s) h = ground (arith, trim_left-HasNoSlash s h.1)

trim_right-HasNoSlash : (s : Str) → HasNoSlash s → HasNoSlash (trim_right s)
unfolding trim_right
trim_right-HasNoSlash [] h = tt
trim_right-HasNoSlash (c ∷ s) h = ground (arith, trim_right-HasNoSlash s h.1)

trim-HasNoSlash : (s : Str) → HasNoSlash s → HasNoSlash (trim s)
unfolding trim
trim-HasNoSlash s h = trim_right-HasNoSlash (trim_left s) (trim_left-HasNoSlash s h)

clean_parts-IsName : (ts : List Str) → All HasNoSlash ts → All IsName (clean_parts ts)
unfolding clean_parts
clean_parts-IsName [] h = tt
clean_parts-IsName (t ∷ ts) h = elim (Bool-cases (is_empty (trim t))) [
  | inl gone ↦ rw gone (clean_parts-IsName ts h.1)
  | inr kept ↦ rw kept (
    record { trimmed = trim_idem t; filled = kept; flat = trim-HasNoSlash t h.0 },
    clean_parts-IsName ts h.1,
  )
]

-- Whatever the path, what the parser gives are topic names.
names-AllIsName : (path : Str) → All IsName (names path)
unfolding names
names-AllIsName path = clean_parts-IsName (split path) (split-HasNoSlash path)
