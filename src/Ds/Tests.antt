-- ===== src/Ds/Tests.antt =====
-- Runs of `DataItem`, after internal/ds and es/event.go.
use srvbus.Common.{◌≡◌, refl, [], ◌∷◌, arith}
use srvbus.Common.Text.{codes}
use srvbus.Ds.{DataItem, copy, data_of, read}
use srvbus.Ds.Reading.{read_all, copy-read_all}

-- five bytes, of which two were read
abbrev item : DataItem
item = record { name = codes "k"; bytes = 1 ∷ 2 ∷ 3 ∷ 4 ∷ 5 ∷ []; readed = 2 }

whole : (read_all (copy item) (3 ∷ 4 ∷ [])).1 ≡ 1 ∷ 2 ∷ 3 ∷ 4 ∷ 5 ∷ []
unfolding read_all copy read
whole = refl

copy-read_all_example : (read_all (copy item) (3 ∷ 4 ∷ [])).1 ≡ data_of item
copy-read_all_example = copy-read_all item (3 ∷ 4 ∷ []) (omega arith)
