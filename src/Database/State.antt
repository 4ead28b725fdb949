-- ===== src/Database/State.antt =====
-- The objects of src/core/persistent_database.cpp. A `PersistentTransaction` refers to the data and
-- to the log of its database, so its methods take the database and return it.
use custom_database.Prelude.{ℕ, Bool, false, Option, none, some, [], Bytes}
use custom_database.Table.{Table}
use custom_database.Wal.Record.{WalRecord}
use custom_database.Wal.Log.{Wal, AppendIo, append_record}

-- `enum class OperationResult`.
pub data OperationResult : Type 0 where
  success key_not_found key_exists invalid_transaction system_error : OperationResult

-- `PersistentDatabase`; `wal` is none for a null `wal_`.
pub record Database : Type 0 where
  pub data_table : Table
  pub data_dir : Bytes
  pub initialized : Bool
  pub next_transaction_id : ℕ
  pub wal : Option Wal

-- `PersistentDatabase()`.
abbrev pub new_database : Database
new_database = record {
  data_table = [];
  data_dir = [];
  initialized = false;
  next_transaction_id = 1;
  wal = none;
}

-- The members of a `PersistentTransaction` that are its own.
pub record Transaction : Type 0 where
  pub id : ℕ
  pub has_writes : Bool

-- `wal_->append_record(record)`. A transaction is begun on an initialized database only, whose
-- `wal_` is not null.
unfoldable pub log_record : AppendIo → WalRecord → Database → Database × Bool
log_record io r db = elim db.wal [
  | none ↦ (db, false)
  | some w ↦ let (w', logged) = append_record io r w in (record db { wal = some w' }, logged)
]
