-- ===== src/Database/Keys.antt =====
-- The keys of the data, whatever the clients call.
use mathlib.Core.Path.{subst}
use mathlib.Core.List.{foldl}
use custom_database.Prelude.{sym, List, [], ◌∷◌}
use custom_database.Table.{Table}
use custom_database.Table.Laws.{Distinct, set-Distinct, erase-Distinct}
use custom_database.Wal.Record.{RecordType, put, delete, WalRecord}
use custom_database.Database.State.{Database}
use custom_database.Database.Engine.{apply_type, apply_record}
use custom_database.Database.Synced.{IsSynced, replay}
use custom_database.Database.Durability.{Reach, Reach-IsSynced}

apply_type-Distinct :
    (type : RecordType) (r : WalRecord) (m : Table)
    → Distinct m
    → Distinct (apply_type type r.key r.value m)
unfolding apply_type
apply_type-Distinct put r m h = set-Distinct r.key r.value m h
apply_type-Distinct delete r m h = erase-Distinct r.key m h
apply_type-Distinct _ r m h = h

foldl-Distinct : (rs : List WalRecord) (m : Table) → Distinct m → Distinct (foldl apply_record m rs)
unfolding apply_record
foldl-Distinct [] m h = h
foldl-Distinct (r ∷ rs) m h =
    foldl-Distinct rs (apply_record m r) (apply_type-Distinct r.type r m h)

-- Whatever clients call, where their records fit and the device takes them whole, on a database
-- whose data is what its log says: no key stands twice in the data.
pub Reach-Distinct :
    {db db' : Database} {rs : List WalRecord}
    → IsSynced db rs
    → Reach db db'
    → Distinct db'.data_table
Reach-Distinct s path =
    let (rs', s') = Reach-IsSynced s path in
    subst Distinct {x = replay rs'} (sym s'.data_eq) (foldl-Distinct rs' [] tt)
