-- ===== src/Server/Untouched.antt =====
-- The parts of a database that the operations of a transaction leave alone.
use custom_database.Prelude.{◌≡◌, arith, Bytes}
use custom_database.Table.{set, erase}
use custom_database.Wal.Record.{WalRecord}
use custom_database.Wal.Log.{AppendIo}
use custom_database.Database.State.{Database, Transaction, log_record}
use custom_database.Database.Transaction

id-log_record :
    (io : AppendIo) (r : WalRecord) (db : Database)
    → (log_record io r db).0.next_transaction_id ≡ db.next_transaction_id
unfolding log_record
id-log_record io r db = ground arith

initialized-log_record :
    (io : AppendIo) (r : WalRecord) (db : Database)
    → (log_record io r db).0.initialized ≡ db.initialized
unfolding log_record
initialized-log_record io r db = ground arith

-- The parts of a database that no operation of a transaction changes.
abbrev pub Alike : Database → Database → Type 0
Alike db db' =
    (db'.initialized ≡ db.initialized) × (db'.next_transaction_id ≡ db.next_transaction_id)

module _ (io : AppendIo) (key value : Bytes) (t : Transaction) (db : Database) where
  pub put-Alike :
      Alike db (Transaction.put io key value t db).2
      × ((Transaction.put io key value t db).1.id ≡ t.id)
  unfolding Transaction.put
  put-Alike =
      let db' : Database = record db { data_table = set key value db.data_table } in
      let r = Transaction.put_record t.id key value in
      ground (arith, id-log_record io r db', initialized-log_record io r db')

  pub del-Alike :
      Alike db (Transaction.del io key t db).2 × ((Transaction.del io key t db).1.id ≡ t.id)
  unfolding Transaction.del
  del-Alike =
      let db' : Database = record db { data_table = erase key db.data_table } in
      let r = Transaction.delete_record t.id key in
      ground (arith, id-log_record io r db', initialized-log_record io r db')

pub commit-Alike :
    (io : AppendIo) (t : Transaction) (db : Database) → Alike db (Transaction.commit io t db).1
unfolding Transaction.commit
commit-Alike io t db =
    let r = Transaction.commit_record t.id in
    ground (arith, id-log_record io r db, initialized-log_record io r db)
