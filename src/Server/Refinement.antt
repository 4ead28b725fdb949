-- ===== src/Server/Refinement.antt =====
-- The server against its promise, on one request, while the device takes what it is given.
use mathlib.Core.Path.{fun_ext}
use custom_database.Prelude.{
  ℕ, ◌+◌, ◌^◌, ◌≤◌, ◌<◌, ◌≡◌, refl, ap, ◌∙◌, arith, true, some, List, [], Bytes, text, length,
  if◌then◌else◌, Option-cases, inl, inr,
}
use custom_database.Bytes.Order.{str_eq}
use custom_database.Table.{find}
use custom_database.Wal.Record.{WalRecord}
use custom_database.Wal.Reader.{max_record_size}
use custom_database.Wal.Accepted.{accepting}
use custom_database.Protocol.Message.{success, error}
use custom_database.Database.State.{OperationResult, Database, Transaction}
use custom_database.Database.Transaction
use custom_database.Database.Engine.{begin_transaction}
use custom_database.Database.Operations.{
  find-put, find-del, after_put, after_del, data_table-commit,
}
use custom_database.Database.Synced.{
  deleted, IsSynced, begin-IsSynced, put-IsSynced, del-IsSynced, commit-IsSynced,
}
use custom_database.Server.Request.{RequestIo, Reply, reply_get, reply_put, reply_delete}
use custom_database.Server.RequestLaws.{
  found, begun, first_txn, begin_ready, reply_get_lem, initialized-begun,
}
use custom_database.Server.Spec.{Store, update, or_empty, promise_delete}
use custom_database.Server.Untouched.{Alike, put-Alike, del-Alike, commit-Alike}

abbrev pub view : Database → Store
view db j = find j db.data_table

-- A database that serves requests, and whose log holds these records.
pub record IsServing (db : Database) (rs : List WalRecord) : Type 0 where
  pub synced : IsSynced db rs
  pub ready : db.initialized ≡ true
  pub small_id : db.next_transaction_id < 2 ^ 64

-- The device takes what it is given, at these times.
abbrev pub taking : ℕ → ℕ → RequestIo
taking now later = record { write = accepting now; commit = accepting later }

pub view-begun : (db : Database) → view (begun db) ≡ view db
unfolding begin_transaction
view-begun db = fun_ext λ j. ground arith

pub begun-IsServing :
    {db : Database} {rs : List WalRecord} → IsServing db rs → IsServing (begun db) rs
unfolding begin_transaction
begun-IsServing {db} v = record {
  synced = begin-IsSynced v.synced;
  ready = initialized-begun db v.ready;
  small_id = ground (arith, v.ready);
}

-- A commit keeps a database serving, and changes no lookup.
pub committed :
    (later : ℕ) (t : Transaction) {db : Database} {rs : List WalRecord}
    → IsServing db rs
    → later < 2 ^ 64
    → t.id < 2 ^ 64
    → let db' = (Transaction.commit (accepting later) t db).1 in
      (rs' : List WalRecord) × IsServing db' rs' × (view db' ≡ view db)
committed later t {db} v time id =
    let (rs', s') = commit-IsSynced later t v.synced (time, id, omega arith) in
    let same = commit-Alike (accepting later) t db in
    (
      rs',
      record { synced = s'; ready = same.0 ∙ v.ready; small_id = omega (arith, same, v.small_id) },
      ap (λ m j. find j m) (data_table-commit (accepting later) t db),
    )

-- A reply as promised, from a database that goes on serving.
abbrev pub Keeps : Reply × Database → Reply × Store → Type 0
Keeps answer p =
    (rs' : List WalRecord) × IsServing answer.1 rs' × (answer.0 ≡ p.0) × (view answer.1 ≡ p.1)

-- The database after a write that succeeded, once it was committed.
abbrev settled : ℕ → OperationResult × Transaction × Database → Database
settled later r = (Transaction.commit (accepting later) r.1 r.2).1

module _ (io : RequestIo) (key value : Bytes) (db : Database) (ready : db.initialized ≡ true) where
  pub reply_put_done :
      let r = Transaction.put io.write key value (first_txn db ready) (begun db) in
      r.0 ≡ OperationResult.success
      → reply_put io key value db ≡ ((success, text "OK"), (Transaction.commit io.commit r.1 r.2).1)
  unfolding reply_put
  reply_put_done done = rw (begin_ready db ready, reply_put) (rw done refl)

  pub reply_delete_done :
      let r = Transaction.del io.write key (first_txn db ready) (begun db) in
      r.0 ≡ OperationResult.success
      → reply_delete io key db ≡ ((success, text "OK"), (Transaction.commit io.commit r.1 r.2).1)
  unfolding reply_delete
  reply_delete_done done = rw (begin_ready db ready, reply_delete) (rw done refl)

  pub reply_delete_missing :
      let r = Transaction.del io.write key (first_txn db ready) (begun db) in
      r.0 ≡ OperationResult.key_not_found
      → reply_delete io key db ≡ ((error, text "Failed to delete key"), r.2)
  unfolding reply_delete
  reply_delete_missing done = rw (begin_ready db ready, reply_delete) (rw done refl)

module _ (now later : ℕ) (time : now < 2 ^ 64) (time' : later < 2 ^ 64) {db : Database}
    {rs : List WalRecord} (v : IsServing db rs) (key : Bytes) where
  abbrev txn : Transaction
  txn = first_txn db v.ready

  pub get-Keeps : Keeps (reply_get key db) (found (or_empty (view db key)), view db)
  unfolding Transaction.get
  get-Keeps = rw (reply_get_lem db v.ready key) (rs, begun-IsServing v, ground arith, view-begun db)

  -- After a write of a transaction that was begun, the database goes on serving.
  serving_on :
      (r : OperationResult × Transaction × Database) {rs' : List WalRecord}
      → IsSynced r.2 rs'
      → Alike (begun db) r.2
      → IsServing r.2 rs'
  serving_on r kept same =
      let w = begun-IsServing v in
      record { synced = kept; ready = same.0 ∙ w.ready; small_id = omega (arith, same, w.small_id) }

  written :
      (r : OperationResult × Transaction × Database) {rs' : List WalRecord}
      → IsSynced r.2 rs'
      → Alike (begun db) r.2 × (r.1.id ≡ txn.id)
      → (rs'' : List WalRecord) × IsServing (settled later r) rs''
        × (view (settled later r) ≡ view r.2)
  written r kept same =
      committed later r.1 (serving_on r kept same.0) time' (omega (arith, same, v.small_id))

  pub put-Keeps :
      (value : Bytes)
      → 25 + length key + length value ≤ max_record_size
      → Keeps
          (reply_put (taking now later) key value db)
          ((success, text "OK"), update key (some value) (view db))
  unfolding after_put
  put-Keeps value h =
      let r = Transaction.put (accepting now) key value txn (begun db) in
      let (kept, done) =
        put-IsSynced now txn (begun-IsServing v).synced key value (time, v.small_id, h) in
      let (rs', v', seen) = written r kept (put-Alike (accepting now) key value txn (begun db)) in
      let now_there : view r.2 ≡ update key (some value) (view db) = fun_ext λ j. ground (
        arith,
        done,
        ap (λ s. s j) (view-begun db),
        find-put (accepting now) key value j txn (begun db),
      ) in
      rw (reply_put_done (taking now later) key value db v.ready done)
        (rs', v', refl, seen ∙ now_there)

  abbrev removal : OperationResult × Transaction × Database
  removal = Transaction.del (accepting now) key txn (begun db)

  -- What is seen after a removal, by its result.
  view-removal :
      (result : OperationResult)
      → removal.0 ≡ result
      → (j : Bytes)
      → view removal.2 j ≡ (if str_eq key j then after_del result (view db j) else view db j)
  view-removal result done j =
      find-del (accepting now) key txn (begun db) j ∙ rw (done, ap (λ s. s j) (view-begun db)) refl

  pub del-Keeps :
      25 + length key ≤ max_record_size
      → Keeps (reply_delete (taking now later) key db) (promise_delete key (view db key) (view db))
  unfolding promise_delete after_del
  del-Keeps h =
      let (rs', kept, done) =
        del-IsSynced now txn (begun-IsServing v).synced key (time, v.small_id, omega arith) in
      let same = del-Alike (accepting now) key [] txn (begun db) in
      let done' : removal.0 ≡ deleted (find key db.data_table) =
        done ∙ ap (λ s. deleted (s key)) (view-begun db) in
      elim (Option-cases (find key db.data_table)) [
        | inl missing ↦
            let failed : removal.0 ≡ OperationResult.key_not_found = done' ∙ ap deleted missing in
            rw (missing, reply_delete_missing (taking now later) key [] db v.ready failed)
              (
                rs',
                serving_on removal kept same.0,
                refl,
                fun_ext λ j. ground (arith, view-removal OperationResult.key_not_found failed j),
              )
        | inr (old, there) ↦
            let worked : removal.0 ≡ OperationResult.success = done' ∙ ap deleted there in
            let (rs'', v', seen) = written removal kept same in
            rw (there, reply_delete_done (taking now later) key [] db v.ready worked)
              (
                rs'',
                v',
                refl,
                seen ∙ fun_ext λ j. ground (arith, view-removal OperationResult.success worked j),
              )
      ]
