-- ===== src/Server/RequestLaws.antt =====
-- What clients see of the requests that the server answers.
use custom_database.Prelude.{
  ◌≡◌, refl, ap, ◌∙◌, arith, true, false, some, [], ◌∷◌, Bytes, text, if◌then◌else◌,
}
use custom_database.Bytes.Order.{str_eq}
use custom_database.Table.{set}
use custom_database.Wal.Record.{WalRecord}
use custom_database.Wal.Log.{AppendIo}
use custom_database.Protocol.Message.{error, success}
use custom_database.Database.State.{Database, Transaction, log_record}
use custom_database.Database.Transaction
use custom_database.Database.Engine.{begin_transaction}
use custom_database.Database.Operations.{get-put, data_table-commit}
use custom_database.Server.Request.{RequestIo, Reply, reply_get, reply_put}

-- The answer to GET for what a lookup returned: an empty value counts as missing.
unfoldable pub found : Bytes → Reply
found [] = (error, text "Key not found")
found (b ∷ bs) = (success, b ∷ bs)

found-elim :
    (v : Bytes) (db : Database)
    → ◌≡◌ {A = Reply × Database}
        (elim v [ [] ↦ ((error, text "Key not found"), db) | b ∷ bs ↦ ((success, b ∷ bs), db) ])
        (found v, db)
unfolding found
found-elim [] db = refl
found-elim (b ∷ bs) db = refl

-- The database once a transaction was begun on it.
abbrev pub begun : Database → Database
begun db = (begin_transaction db).0

get-begun : (j : Bytes) (db : Database) → Transaction.get j (begun db) ≡ Transaction.get j db
unfolding begin_transaction Transaction.get
get-begun j db = ground arith

get-commit :
    (io : AppendIo) (j : Bytes) (t : Transaction) (db : Database)
    → Transaction.get j (Transaction.commit io t db).1 ≡ Transaction.get j db
unfolding Transaction.get
get-commit io j t db = ground (arith, data_table-commit io t db)

module _ (db : Database) (ready : db.initialized ≡ true) where
  abbrev pub first_txn : Transaction
  first_txn = record { id = db.next_transaction_id; has_writes = false }

  pub begin_ready : (begin_transaction db).1 ≡ some first_txn
  unfolding begin_transaction
  begin_ready = ground arith

  -- GET answers with the value of the key, or with an error if it is empty or missing.
  pub reply_get_lem : (key : Bytes) → reply_get key db ≡ (found (Transaction.get key db), begun db)
  unfolding reply_get
  reply_get_lem key =
      rw (begin_ready, reply_get)
        (found-elim (Transaction.get key (begun db)) (begun db)
          ∙ ap (λ v. (found v, begun db)) {y = Transaction.get key db} (get-begun key db))

  reply_put_found :
      (io : RequestIo) (key value j : Bytes)
      → Transaction.get j (reply_put io key value db).1 ≡ (
          if str_eq key j
          then (elim (reply_put io key value db).0.0 [ success ↦ value | _ ↦ [] ])
          else Transaction.get j db)
  unfolding reply_put
  reply_put_found io key value j =
      let step = Transaction.put io.write key value first_txn (begun db) in
      ground (
        arith,
        begin_ready,
        get-put io.write key value j first_txn (begun db),
        get-commit io.commit j step.1 step.2,
        get-begun j db,
      )

  pub initialized-begun : (begun db).initialized ≡ true
  unfolding begin_transaction
  initialized-begun = ground arith

initialized-log_record :
    (io : AppendIo) (r : WalRecord) (db : Database)
    → (log_record io r db).0.initialized ≡ db.initialized
unfolding log_record
initialized-log_record io r db = ground arith

pub initialized-put :
    (io : AppendIo) (key value : Bytes) (t : Transaction) (db : Database)
    → (Transaction.put io key value t db).2.initialized ≡ db.initialized
unfolding Transaction.put
initialized-put io key value t db = ground (
  arith,
  initialized-log_record io (Transaction.put_record t.id key value)
      (record db { data_table = set key value db.data_table }),
)

pub initialized-commit :
    (io : AppendIo) (t : Transaction) (db : Database)
    → (Transaction.commit io t db).1.initialized ≡ db.initialized
unfolding Transaction.commit
initialized-commit io t db =
    ground (arith, initialized-log_record io (Transaction.commit_record t.id) db)

module _ (io : RequestIo) (key value : Bytes) (db : Database) (ready : db.initialized ≡ true) where
  initialized-reply_put : (reply_put io key value db).1.initialized ≡ true
  unfolding reply_put
  initialized-reply_put =
      let step = Transaction.put io.write key value (first_txn db ready) (begun db) in
      ground (
        arith,
        begin_ready db ready,
        initialized-begun db ready,
        initialized-put io.write key value (first_txn db ready) (begun db),
        initialized-commit io.commit step.1 step.2,
      )

  -- GET after PUT, on an initialized database: what GET answers for the new value of this key if
  -- PUT was answered with SUCCESS, "Key not found" for this key if it was not, and the answer from
  -- before for every other key.
  pub get_after_put :
      (j : Bytes)
      → (reply_get j (reply_put io key value db).1).0 ≡ (
          if str_eq key j
          then found (elim (reply_put io key value db).0.0 [ success ↦ value | _ ↦ [] ])
          else (reply_get j db).0)
  get_after_put j = ground (
    arith,
    reply_get_lem (reply_put io key value db).1 initialized-reply_put j,
    reply_get_lem db ready j,
    reply_put_found db ready io key value j,
  )
