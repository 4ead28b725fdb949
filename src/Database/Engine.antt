-- ===== src/Database/Engine.antt =====
-- The methods of `PersistentDatabase` in src/core/persistent_database.cpp.
use custom_database.Prelude.{
  ◌+◌, ◌%◌, ◌^◌, Bool, true, false, Option, none, some, [], ◌∷◌, ◌++◌, Bytes, text, Outcome,
  returns, deadlock, if◌then◌else◌,
}
use mathlib.Core.List.{foldl}
use custom_database.Bytes.Decimal.{to_string}
use custom_database.Table.{Table, size, set, erase}
use custom_database.Wal.Record.{RecordType, WalRecord}
use custom_database.Wal.Record
use custom_database.Wal.File.{Device}
use custom_database.Wal.Log.{
  Wal, OpenIo, AppendIo, ReadIo, new_wal, read_all_records, create_checkpoint, truncate_log,
  recover_from_checkpoint,
}
use custom_database.Wal.Log
use custom_database.Database.State.{OperationResult, success, system_error, Database, Transaction}

-- One round of the recovery loop: the switch on the record's type.
unfoldable pub apply_type : RecordType → Bytes → Bytes → Table → Table
apply_type Record.put key value m = set key value m
apply_type Record.delete key value m = erase key m
apply_type _ key value m = m

unfoldable pub apply_record : Table → WalRecord → Table
unfolding apply_type
apply_record m r = apply_type r.type r.key r.value m

unfoldable pub recover_from_wal : ReadIo → Wal → Database → Outcome (Database × Bool)
unfolding apply_record
recover_from_wal io w db = elim (read_all_records io w) [
  | deadlock ↦ deadlock
  | returns (w', records) ↦
      returns
        (record db { data_table = foldl apply_record db.data_table records; wal = some w' }, true)
]

-- `initialize`, on a machine with these files.
unfoldable pub initialize :
    OpenIo → ReadIo → Bytes → Table → Database → Outcome (Database × OperationResult)
unfolding recover_from_wal
initialize open_io read_io data_dir disk db =
    let w = new_wal open_io (data_dir ++ text "/wal") disk in
    elim (recover_from_wal read_io w (record db { data_dir = data_dir })) [
      | deadlock ↦ deadlock
      | returns (db', recovered) ↦
          returns (
            if recovered then (record db' { initialized = true }, success) else (db', system_error))
    ]

-- `wal_->create_checkpoint(path)`, where `wal_` is not null.
unfoldable pub checkpoint : AppendIo → Bytes → Database → Database × Bool
checkpoint io path db = elim db.wal [
  | none ↦ (db, false)
  | some w ↦
      let (w', created) = create_checkpoint io path w in (record db { wal = some w' }, created)
]

unfoldable pub shutdown : AppendIo → Database → Database
unfolding checkpoint
shutdown io db =
    if db.initialized
    then record (checkpoint io (db.data_dir ++ text "/checkpoint.db") db).0 { initialized = false }
    else db

unfoldable pub begin_transaction : Database → Database × Option Transaction
begin_transaction db =
    if db.initialized
    then (
      record db { next_transaction_id = (db.next_transaction_id + 1) % 2 ^ 64 },
      some (record { id = db.next_transaction_id; has_writes = false }),
    )
    else (db, none)

-- `for (const auto& [key, value] : wal_stats) stats["wal_" + key] = value;`
unfoldable pub add_wal_stats : Table → Table → Table
add_wal_stats [] stats = stats
add_wal_stats ((key, value) ∷ rest) stats =
    add_wal_stats rest (set (text "wal_" ++ key) value stats)

abbrev bool_text : Bool → Bytes
bool_text true = text "true"
bool_text false = text "false"

unfoldable pub get_stats : Database → Table
unfolding add_wal_stats
get_stats db =
    let stats = set (text "next_transaction_id") (to_string db.next_transaction_id) (
      set (text "initialized") (bool_text db.initialized) (
        set (text "data_directory") db.data_dir
          (set (text "total_keys") (to_string (size db.data_table)) []))) in
    elim db.wal [ none ↦ stats | some w ↦ add_wal_stats (Log.get_stats w) stats ]

-- The result of `truncate_log` is not looked at.
unfoldable pub compact : Device → OpenIo → Database → Database × OperationResult
compact device io db = elim db.wal [
  | none ↦ (db, success)
  | some w ↦ (record db { wal = some (truncate_log device io w).0 }, success)
]

unfoldable pub backup : AppendIo → Bytes → Database → Database × OperationResult
unfolding checkpoint
backup io path db =
    let (db', created) = checkpoint io path db in (db', if created then success else system_error)

unfoldable pub restore : ReadIo → Bytes → Database → Outcome (Database × OperationResult)
restore io path db = elim db.wal [
  | none ↦ returns (db, system_error)
  | some w ↦ (elim (recover_from_checkpoint io path w) [
    | deadlock ↦ deadlock
    | returns (w', recovered) ↦
        returns (record db { wal = some w' }, if recovered then success else system_error)
  ])
]
