-- ===== src/Database/Elsewhere.antt =====
-- The files of the disk other than the current log, under the operations of transactions.
use custom_database.Prelude.{
  text, ◌++◌, ℕ, ◌≡◌, refl, ap, sym, ◌∙◌, arith, List, [], Bytes, none, some, false,
}
use custom_database.Bytes.Order.{str_eq}
use custom_database.Table.{Table, set, erase}
use custom_database.Wal.Record.{WalRecord}
use custom_database.Wal.File.{contents, write, flush}
use custom_database.Wal.FileLaws.{contents-append_bytes_ne}
use custom_database.Wal.Log.{Wal, append_record, create_checkpoint}
use custom_database.Wal.Accepted.{accepting}
use custom_database.Database.State.{Database, Transaction, log_record}
use custom_database.Database.Transaction.{
  put, del, commit, rollback, put_record, delete_record, commit_record,
}
use custom_database.Database.Engine.{begin_transaction, checkpoint, backup, shutdown}
use custom_database.Database.Synced.{IsSynced}
use custom_database.Database.Durability.{
  Step, begin, put_step, del_step, commit_step, rollback_step, backup_step, shutdown_step, Reach,
  start, next, Reach-IsSynced,
}

unfoldable pub log_path : Database → Bytes
log_path db = elim db.wal [ none ↦ [] | some w ↦ w.current_log_file ]

unfoldable pub file_bytes : Bytes → Database → Bytes
file_bytes p db = elim db.wal [ none ↦ [] | some w ↦ contents p w.log_file.disk ]

pub log_path_of : (db : Database) {w : Wal} → db.wal ≡ some w → log_path db ≡ w.current_log_file
unfolding log_path
log_path_of db e = rw (e, log_path)

pub file_bytes_of :
    (p : Bytes) (db : Database) {w : Wal}
    → db.wal ≡ some w
    → file_bytes p db ≡ contents p w.log_file.disk
unfolding file_bytes
file_bytes_of p db e = rw (e, file_bytes)

-- The log has the same name, and the file `p` the same contents.
abbrev pub Same : Bytes → Database → Database → Type 0
Same p db db' = (log_path db' ≡ log_path db) × (file_bytes p db' ≡ file_bytes p db)

module _ (p : Bytes) {db : Database} {rs : List WalRecord} (s : IsSynced db rs)
    (other : str_eq (log_path db) p ≡ false) where
  log_record-Same :
      (now : ℕ) (r : WalRecord) (m : Table)
      → Same p db (log_record (accepting now) r (record db { data_table = m })).0
  unfolding log_record append_record write flush log_path file_bytes
  log_record-Same now r m =
      simp (s.attached, s.holds.opened, s.holds.sound, s.holds.drained, s.holds.current)
        (
          sym (log_path_of db s.attached),
          contents-append_bytes_ne s.log.current_log_file p _ s.log.log_file.disk
                (ap (λ q. str_eq q p) (sym (log_path_of db s.attached)) ∙ other)
              ∙ sym (file_bytes_of p db s.attached),
        )

  put-Same :
      (now : ℕ) (t : Transaction) (key value : Bytes)
      → Same p db (put (accepting now) key value t db).2
  unfolding put log_path file_bytes
  put-Same now t key value =
      ground (arith, log_record-Same now (put_record t.id key value) (set key value db.data_table))

  del-Same : (now : ℕ) (t : Transaction) (key : Bytes) → Same p db (del (accepting now) key t db).2
  unfolding del log_path file_bytes
  del-Same now t key =
      ground (arith, log_record-Same now (delete_record t.id key) (erase key db.data_table))

  commit-Same : (now : ℕ) (t : Transaction) → Same p db (commit (accepting now) t db).1
  unfolding commit log_path file_bytes
  commit-Same now t = ground (arith, log_record-Same now (commit_record t.id) db.data_table)

  checkpoint-Same : (now : ℕ) (path : Bytes) → Same p db (checkpoint (accepting now) path db).0
  unfolding checkpoint create_checkpoint write flush log_path file_bytes
  checkpoint-Same now path =
      rw (s.attached, checkpoint)
        (simp (s.holds.opened, s.holds.sound, s.holds.drained, s.holds.current)
          (
            refl,
            contents-append_bytes_ne s.log.current_log_file p _ s.log.log_file.disk
                (ap (λ q. str_eq q p) (sym (log_path_of db s.attached)) ∙ other),
          ))

  backup-Same : (now : ℕ) (path : Bytes) → Same p db (backup (accepting now) path db).0
  unfolding backup
  backup-Same now path = checkpoint-Same now path

  shutdown-Same : (now : ℕ) → Same p db (shutdown (accepting now) db)
  unfolding shutdown log_path file_bytes
  shutdown-Same now = ground (arith, checkpoint-Same now (db.data_dir ++ text "/checkpoint.db"))

  begin-Same : Same p db (begin_transaction db).0
  unfolding begin_transaction log_path file_bytes
  begin-Same = ground arith

Step-Same :
    (p : Bytes) {db db' : Database} {rs : List WalRecord}
    → IsSynced db rs
    → str_eq (log_path db) p ≡ false
    → Step db db'
    → Same p db db'
Step-Same p s other begin = begin-Same p s other
Step-Same p s other (put_step now t key value h) = put-Same p s other now t key value
Step-Same p s other (del_step now t key h) = del-Same p s other now t key
Step-Same p s other (commit_step now t h) = commit-Same p s other now t
Step-Same p s other (rollback_step t) = unfold rollback in (refl, refl)
Step-Same p s other (backup_step now path h) = backup-Same p s other now path
Step-Same p s other (shutdown_step now h) = shutdown-Same p s other now

-- Whatever clients call, where their records fit and the device takes them whole, on a database
-- whose data is what its log says: the log keeps its name, and every file of another name its
-- contents.
pub Reach-Same :
    (p : Bytes) {db db' : Database} {rs : List WalRecord}
    → IsSynced db rs
    → str_eq (log_path db) p ≡ false
    → Reach db db'
    → Same p db db'
Reach-Same p s other start = (refl, refl)
Reach-Same p s other (next path step) =
    let (same_path, same_bytes) = Reach-Same p s other path in
    let (rs', s') = Reach-IsSynced s path in
    let (path', bytes') = Step-Same p s' (ap (λ q. str_eq q p) same_path ∙ other) step in
    (path' ∙ same_path, bytes' ∙ same_bytes)
