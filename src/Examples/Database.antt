-- ===== src/Examples/Database.antt =====
-- The database's theorems at concrete inputs.
use custom_database.Prelude.{
  ◌∷◌, ◌≡◌, refl, arith, false, some, [], text, returns, deadlock, take, if◌then◌else◌,
}
use custom_database.Bytes.Order.{str_eq}
use custom_database.Bytes.Decimal.{to_string}
use custom_database.Table.{set, find}
use custom_database.Wal.File.{append_bytes, fails, contents, write, flush, accepts}
use custom_database.Wal.Reader.{read_records}
use custom_database.Wal.Log.{stamp, Wal, AppendIo, log_name, append_record}
use custom_database.Wal.Append.{Holds, log_bytes}
use custom_database.Wal.Accepted.{append_record-Holds, accepting}
use custom_database.Database.State.{success, Database, new_database, log_record}
use custom_database.Database.Transaction.{get, put, scan}
use custom_database.Database.Engine.{compact, initialize, restore}
use custom_database.Database.Operations.{get-put}
use custom_database.Database.Synced.{replay}
use custom_database.Database.Durability.{recovery}
use custom_database.Database.Restart.{opening, reading, wal_path, restart_same}
use custom_database.Database.Elsewhere.{log_path}
use custom_database.Database.Loss.{initialize-first, restart_loses}
use custom_database.Database.ScanLaws.{range, scan-range}
use custom_database.Database.Compaction.{compact_forgets}
use custom_database.Database.Restore.{restore-deadlock}
use custom_database.Examples.Data.{
  empty_log-Holds, txn, empty_log, empty_database, empty_database-IsSynced, small, written,
  written-Reach,
}

-- A device that breaks at the flush does not make `put` fail; one that breaks at the write does.
abbrev broken : AppendIo
broken = record (accepting 7) { size_write = fails 0 }

-- The log of the database after `put("k", "v")`.
abbrev written_log : Wal
written_log = (append_record (accepting 7) small empty_log).0

written-wal : written.wal ≡ some written_log
unfolding put log_record append_record write flush
written-wal = refl

written_log-path : written_log.current_log_file ≡ wal_path (text "d") 3
unfolding append_record write flush
written_log-path = refl

empty-success :
    initialize (opening 3) reading (text "d") [] new_database ≡ returns (empty_database, success)
empty-success = initialize-first 3 (text "d")

recovery_example :
    (w : Wal) × (written.wal ≡ some w) × (replay (read_records (log_bytes w)) ≡ written.data_table)
recovery_example = recovery empty_database-IsSynced written-Reach

restart_same_example :
    (fresh : Database) × (initialize
        (opening 3)
        reading
        (text "d")
        written_log.log_file.disk
        new_database
      ≡ returns (fresh, success))
    × (fresh.data_table ≡ written.data_table)
restart_same_example =
    restart_same 3 (text "d") written_log empty_database-IsSynced written-Reach written-wal
      written_log-path

restart_loses_example :
    (fresh : Database) × (initialize
        (opening 4)
        reading
        (text "d")
        written_log.log_file.disk
        new_database
      ≡ returns (fresh, success))
    × (fresh.data_table ≡ [])
restart_loses_example =
    restart_loses 3 4 (text "d") (omega arith) (omega arith) (omega arith) empty-success
      written-Reach written-wal

other_path : str_eq (log_path empty_database) (text "d/wal/wal_4.log") ≡ false
unfolding log_path log_name to_string str_eq
other_path = refl

get-put_example : get (text "k") (put broken (text "k") (text "w") txn written).2 ≡ (
    if str_eq (text "k") (text "k")
    then (elim (put broken (text "k") (text "w") txn written).0 [ success ↦ text "w" | _ ↦ [] ])
    else get (text "k") written)
get-put_example = get-put broken (text "k") (text "w") (text "k") txn written

put-success : (put (accepting 7) (text "k") (text "v") txn empty_database).0 ≡ success
unfolding put log_record append_record write flush
put-success = refl

scan-range_example :
    scan (text "a") (text "z") 0 written ≡ take 1 (range (text "a") (text "z") written.data_table)
scan-range_example = scan-range (text "a") (text "z") 0 written

restore-deadlock_example : restore reading (text "backup.db") written ≡ deadlock
restore-deadlock_example = restore-deadlock reading (text "backup.db") written written-wal

written_log-Holds : Holds written_log (stamp 7 small ∷ [])
written_log-Holds = (append_record-Holds 7 small empty_log-Holds).0

no_such_file : contents (log_name written_log.log_dir 4) written_log.log_file.disk ≡ []
unfolding append_record write flush contents append_bytes log_name find set str_eq to_string
no_such_file = refl

compact_forgets_example :
    let db' = (compact accepts (opening 4) written).0 in
    (db'.data_table ≡ written.data_table)
    × ((w' : Wal) × (db'.wal ≡ some w') × (replay (read_records (log_bytes w')) ≡ []))
compact_forgets_example = compact_forgets written 4 written-wal written_log-Holds no_such_file
