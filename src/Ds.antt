-- ===== src/Ds.antt =====
-- internal/ds/dataitem.go: the base of messages and events. A method that moves the reading
-- position returns the new item.
pub mod Reading
mod Tests
use Prim.Native.Nat.{ℕ, zero, suc, ◌+◌, ◌-◌, min}
use srvbus.Common.{Option, none, some, List, [], ◌∷◌, length, take, drop, nat_beq, if◌then◌else◌}
use srvbus.Common.Text.{Str}

pub record DataItem : Type 0 where
  pub name : Str
  pub bytes : List ℕ  -- the source's `data`
  pub readed : ℕ

-- io.EOF is the only error that `Read` returns.
pub data ReadErr : Type 0 where
  eof : ReadErr

unfoldable pub new_item : Str → List ℕ → DataItem
new_item name buf = record { name = name; bytes = buf; readed = 0 }

unfoldable pub data_of : DataItem → List ℕ
data_of di = di.bytes

unfoldable pub copy : DataItem → DataItem
copy di = record { name = di.name; bytes = di.bytes; readed = 0 }

-- `Read(p)` with `len(p) = size`: the item, the bytes copied into `p`, and the error. The number
-- returned is the count of those bytes. The slice `di.data[di.readed:]` is in range while
-- `readed` is at most the length, which `Reading` proves of every item.
unfoldable pub read : DataItem → ℕ → DataItem × List ℕ × Option ReadErr
read di zero = (di, [], none)
read di (suc size) =
    let out = take (suc size) (drop di.readed di.bytes) in
    let at = di.readed + length out in
    (record di { readed = at }, out, (if nat_beq at (length di.bytes) then some eof else none))
