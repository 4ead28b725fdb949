-- ===== src/Database/Operations.antt =====
-- What the operations of a transaction do to the data, on every branch.
use custom_database.Prelude.{
  ◌≡◌, arith, Option, none, some, [], Bytes, if◌then◌else◌, Option-cases, inl, inr,
}
use custom_database.Bytes.Order.{str_eq, str_eq_iff}
use custom_database.Table.{Table, find, set, erase}
use custom_database.Table.Laws.{find-set, find-erase}
use custom_database.Wal.Record.{WalRecord}
use custom_database.Wal.Log.{AppendIo}
use custom_database.Database.State.{OperationResult, success, Database, Transaction, log_record}
use custom_database.Database.Transaction.{
  get, put, del, commit, rollback, put_record, delete_record, commit_record,
}

pub data_table-log_record :
    (io : AppendIo) (r : WalRecord) (db : Database)
    → (log_record io r db).0.data_table ≡ db.data_table
unfolding log_record
data_table-log_record io r db = ground arith

-- What a lookup finds after `put`: the value if it succeeded. If it failed, nothing is left under
-- the key, whatever was there.
unfoldable pub after_put : OperationResult → Bytes → Option Bytes
after_put success value = some value
after_put _ value = none

module _ (io : AppendIo) (key value j : Bytes) (t : Transaction) (db : Database) where
  pub find-put :
      find j (put io key value t db).2.data_table
      ≡ (if str_eq key j then after_put (put io key value t db).0 value else find j db.data_table)
  unfolding put after_put
  find-put =
      let db' : Database = record db { data_table = set key value db.data_table } in
      let m : Table = (log_record io (put_record t.id key value) db').0.data_table in
      ground (
        arith,
        data_table-log_record io (put_record t.id key value) db',
        find-set key j value db.data_table,
        find-erase key j m,
      )

  -- What `get` answers after `put`, whatever the log does: for this key the value if `put`
  -- succeeded and the empty string if it did not, and for every other key what it answered before.
  pub get-put : get j (put io key value t db).2 ≡ (
      if str_eq key j
      then (elim (put io key value t db).0 [ success ↦ value | _ ↦ [] ])
      else get j db)
  unfolding get after_put
  get-put = ground (arith, find-put)

-- What a lookup of the key finds after `del`, from what it found before.
unfoldable pub after_del : OperationResult → Option Bytes → Option Bytes
after_del success found = none
after_del _ found = found

module _ (io : AppendIo) (key : Bytes) (t : Transaction) (db : Database) where
  -- `del` removes the key if it succeeds; if the key is missing or the log fails, every lookup
  -- finds what it found before; and a lookup of another key always does.
  pub find-del :
      (j : Bytes)
      → find j (del io key t db).2.data_table ≡ (
          if str_eq key j
          then after_del (del io key t db).0 (find j db.data_table)
          else find j db.data_table)
  unfolding del after_del
  find-del j = elim (Option-cases (find key db.data_table)) [
    | inl missing ↦ rw (missing, del) (ground arith)
    | inr (old, found) ↦
        let db' : Database = record db { data_table = erase key db.data_table } in
        let m : Table = (log_record io (delete_record t.id key) db').0.data_table in
        rw (found, del)
          (ground (
            arith,
            found,
            data_table-log_record io (delete_record t.id key) db',
            find-set key j old m,
            find-erase key j db.data_table,
            str_eq_iff key j,
          ))
  ]

-- `commit` changes no data, whether its record is logged or not.
pub data_table-commit :
    (io : AppendIo) (t : Transaction) (db : Database)
    → (commit io t db).1.data_table ≡ db.data_table
unfolding commit
data_table-commit io t db = ground (arith, data_table-log_record io (commit_record t.id) db)

-- After a `put` that succeeded and a `rollback`, `get` still answers the value that was put.
pub get-rollback-put :
    (io : AppendIo) (key value : Bytes) (t : Transaction) (db : Database)
    → (put io key value t db).0 ≡ success
    → get key (rollback (put io key value t db).1 (put io key value t db).2) ≡ value
unfolding rollback
get-rollback-put io key value t db h =
    ground (arith, h, get-put io key value key t db, str_eq_iff key key)
