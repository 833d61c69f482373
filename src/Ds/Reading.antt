-- ===== src/Ds/Reading.antt =====
-- What a reader of a `DataItem` gets: every byte once, in order, and EOF with the last one.
use srvbus.Common.{
  ℕ, zero, suc, ◌+◌, ◌≤◌, ◌<◌, ◌≡◌, refl, sym, ◌↔◌, some, List, [], ◌∷◌, ◌++◌, arith, length, take,
  drop, length-drop, take_all, drop-add, take-add, length-take, drop-length-take, drop-eq-nil, ap,
  ◌∙◌,
}
use srvbus.Ds.{DataItem, eof, copy, data_of, read}

-- The slice of `Read` is in range.
abbrev pub InRange : DataItem → Type 0
InRange di = di.readed ≤ length di.bytes

-- The bytes not read yet.
abbrev pub rest : DataItem → List ℕ
rest di = drop di.readed di.bytes

-- Reads with buffers of the sizes given, one after another.
unfoldable pub read_all : DataItem → List ℕ → DataItem × List ℕ
read_all di [] = (di, [])
read_all di (size ∷ sizes) =
    let (di', out, e) = read di size in let (last, more) = read_all di' sizes in (last, out ++ more)

abbrev total : List ℕ → ℕ
total [] = 0
total (n ∷ ns) = n + total ns

module _ (di : DataItem) where
  -- One read hands over the next bytes, as many as the buffer holds.
  read-eq-take :
      (size : ℕ)
      → let (di', out, e) = read di size in
        (out ≡ take size (rest di)) × (rest di' ≡ drop size (rest di))
  unfolding read
  read-eq-take zero = (refl, refl)
  read-eq-take (suc size) =
      (refl, drop-add di.readed _ di.bytes ∙ drop-length-take (suc size) (rest di))

  read-InRange : (size : ℕ) → InRange di → InRange (read di size).0
  unfolding read
  read-InRange zero h = h
  read-InRange (suc size) h =
      omega (arith, length-take (suc size) (rest di), length-drop di.readed di.bytes)

  -- A read into a buffer that is not empty reports the end exactly when nothing is left.
  read-eof_iff :
      (size : ℕ)
      → InRange di
      → 0 < size
      → ((read di size).2 ≡ some eof) ↔ (rest (read di size).0 ≡ [])
  unfolding read
  read-eof_iff zero h p = absurd (omega arith)
  read-eof_iff (suc size) h p =
      let k = di.readed + length (take (suc size) (rest di)) in
      let small : k ≤ length di.bytes = read-InRange (suc size) h in
      (
        (λ e. drop-eq-nil k di.bytes (ground arith)),
        (λ e. ground (arith, ap (length {A = ℕ}) e, length-drop k di.bytes)),
      )

-- Reads of any sizes, in any number, hand over the unread bytes from the first on, in order, each
-- once, up to the sum of the sizes.
read_all-eq-take :
    (di : DataItem) (sizes : List ℕ) → (read_all di sizes).1 ≡ take (total sizes) (rest di)
unfolding read_all
read_all-eq-take di [] = refl
read_all-eq-take di (size ∷ sizes) =
    rw (read_all-eq-take (read di size).0 sizes, (read-eq-take di size).0, (read-eq-take di size).1)
      (sym (take-add size (total sizes) (rest di)))

-- For an item with its reading position in range, a read into a buffer that is not empty hands over
-- the next unread bytes, leaves the others, and reports EOF exactly when none are left.
read_lem :
    (di : DataItem) (size : ℕ)
    → InRange di
    → 0 < size
    → let (di', out, e) = read di size in
      (out ≡ take size (rest di))
      × (rest di' ≡ drop size (rest di))
      × InRange di'
      × ((e ≡ some eof) ↔ (rest di' ≡ []))
read_lem di size h p = (
  (read-eq-take di size).0,
  (read-eq-take di size).1,
  read-InRange di size h,
  read-eof_iff di size h p,
)

-- A copy of an item, however far that was read, gives all of its bytes to a reader again, when the
-- buffers of the reader hold as many.
pub copy-read_all :
    (di : DataItem) (sizes : List ℕ)
    → length di.bytes ≤ total sizes
    → (read_all (copy di) sizes).1 ≡ data_of di
unfolding copy data_of
copy-read_all di sizes h = read_all-eq-take _ sizes ∙ take_all (total sizes) di.bytes h
