-- ===== src/Database/ScanLaws.antt =====
-- What a scan returns.
use custom_database.Prelude.{
  ℕ, suc, ◌-◌, ◌≡◌, refl, ◌∙◌, arith, List, [], ◌∷◌, ◌++◌, Bytes, take, if◌then◌else◌, none,
}
use custom_database.Table.{Entry, Table, find}
use custom_database.Table.Limit.{collect, collect-take}
use custom_database.Bytes.Order.{str_eq_iff, str_lt}
use custom_database.Database.State.{Database}
use custom_database.Database.Transaction.{in_range, scan_loop, scan}

-- The entries whose key is not below `start_key` and is below `end_key`, in the order of the map.
unfoldable pub range : Bytes → Bytes → Table → List Entry
range start_key end_key [] = []
range start_key end_key ((k, v) ∷ m) =
    let rest = range start_key end_key m in
    if str_lt k start_key then rest else if str_lt k end_key then (k, v) ∷ rest else rest

scan_loop-collect :
    (start_key end_key : Bytes) (limit : ℕ) (m : Table) (results : List Entry)
    → scan_loop start_key end_key limit m results
      ≡ collect limit results (range start_key end_key m)
unfolding scan_loop collect range in_range
scan_loop-collect start_key end_key limit [] results = refl
scan_loop-collect start_key end_key limit ((k, v) ∷ m) results = ground (
  arith,
  scan_loop-collect start_key end_key limit m results,
  scan_loop-collect start_key end_key limit m (results ++ ((k, v) ∷ [])),
)

-- A scan returns the first `limit` entries of the range, in the order of the map: those whose key
-- is not below `start_key` and is below `end_key`. With a limit of 0 it still returns the first
-- one.
pub scan-range :
    (start_key end_key : Bytes) (limit : ℕ) (db : Database)
    → scan start_key end_key limit db
      ≡ take (suc (limit - 1)) (range start_key end_key db.data_table)
unfolding scan
scan-range start_key end_key limit db =
    scan_loop-collect start_key end_key limit db.data_table []
    ∙ collect-take limit [] (range start_key end_key db.data_table)

-- A lookup in the entries of a range finds what the map holds under the keys of the range, and
-- nothing under other keys.
pub find-range :
    (start_key end_key k : Bytes) (m : Table)
    → find k (range start_key end_key m) ≡ (if in_range start_key end_key k then find k m else none)
unfolding find range in_range
find-range start_key end_key k [] = ground arith
find-range start_key end_key k ((j, v) ∷ m) =
    ground (arith, find-range start_key end_key k m, str_eq_iff j k)
