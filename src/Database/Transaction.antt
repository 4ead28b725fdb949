-- ===== src/Database/Transaction.antt =====
-- The methods of `PersistentTransaction` in src/core/persistent_database.cpp. Each runs under the
-- lock of the data, as one step.
use custom_database.Prelude.{
  ℕ, Bool, true, false, ◌&&◌, not, none, some, List, [], ◌∷◌, ◌++◌, Bytes, length, leb,
  if◌then◌else◌,
}
use custom_database.Bytes.Order.{str_lt}
use custom_database.Table.{Entry, Table, find, set, erase}
use custom_database.Wal.Record.{WalRecord, new_record, length_u32}
use custom_database.Wal.Record
use custom_database.Wal.Log.{AppendIo}
use custom_database.Database.State.{
  OperationResult, success, key_not_found, system_error, Database, Transaction, log_record,
}

-- `PersistentTransaction::get`: the empty string for a missing key.
unfoldable pub get : Bytes → Database → Bytes
get key db = elim (find key db.data_table) [ none ↦ [] | some value ↦ value ]

-- The records that `put`, `del` and `commit` log.
unfoldable pub put_record : ℕ → Bytes → Bytes → WalRecord
put_record id key value = record new_record {
  type = Record.put;
  key = key;
  value = value;
  key_length = length_u32 key;
  value_length = length_u32 value;
  transaction_id = id;
}

unfoldable pub delete_record : ℕ → Bytes → WalRecord
delete_record id key = record new_record {
  type = Record.delete;
  key = key;
  key_length = length_u32 key;
  transaction_id = id;
}

unfoldable pub commit_record : ℕ → WalRecord
commit_record id = record new_record { type = Record.commit; transaction_id = id }

unfoldable pub put :
    AppendIo → Bytes → Bytes → Transaction → Database → OperationResult × Transaction × Database
put io key value t db =
    let db₁ = record db { data_table = set key value db.data_table } in
    let (db₂, logged) = log_record io (put_record t.id key value) db₁ in
    if logged then (success, record t { has_writes = true }, db₂) else (
      system_error,
      record t { has_writes = false },
      record db₂ { data_table = erase key db₂.data_table },
    )

unfoldable pub del :
    AppendIo → Bytes → Transaction → Database → OperationResult × Transaction × Database
del io key t db = elim (find key db.data_table) [
  | none ↦ (key_not_found, t, db)
  | some old_value ↦
      let db₁ = record db { data_table = erase key db.data_table } in
      let (db₂, logged) = log_record io (delete_record t.id key) db₁ in
      if logged then (success, record t { has_writes = true }, db₂) else (
        system_error,
        record t { has_writes = false },
        record db₂ { data_table = set key old_value db₂.data_table },
      )
]

-- `pair.first >= start_key && pair.first < end_key`.
unfoldable pub in_range : Bytes → Bytes → Bytes → Bool
in_range start_key end_key key = not (str_lt key start_key) && str_lt key end_key

-- The loop of `scan` over the entries that are left.
unfoldable pub scan_loop : Bytes → Bytes → ℕ → Table → List Entry → List Entry
scan_loop start_key end_key limit [] result = result
scan_loop start_key end_key limit ((key, value) ∷ rest) result =
    let result' = result ++ ((key, value) ∷ []) in
    let kept = scan_loop start_key end_key limit rest result' in
    let skipped = scan_loop start_key end_key limit rest result in
    if in_range start_key end_key key
    then (if leb limit (length result') then result' else kept)
    else skipped

unfoldable pub scan : Bytes → Bytes → ℕ → Database → List Entry
unfolding scan_loop
scan start_key end_key limit db = scan_loop start_key end_key limit db.data_table []

unfoldable pub commit : AppendIo → Transaction → Database → OperationResult × Database
commit io t db =
    if t.has_writes
    then (let (db', logged) = log_record io (commit_record t.id) db in
        if logged then (success, db') else (system_error, db'))
    else (success, db)

-- `rollback` prints a line, and does nothing else.
unfoldable pub rollback : Transaction → Database → Database
rollback t db = db
