-- ===== src/Database/Durability.antt =====
-- The data and the records of the log, while the device takes what it is given.
use custom_database.Prelude.{
  text, ℕ, ◌≡◌, refl, ap, sym, ◌∙◌, List, [], ◌++◌, append-nil, Bytes, some,
}
use custom_database.Wal.Record.{WalRecord}
use custom_database.Wal.Reader.{read_records}
use custom_database.Wal.ReaderLaws.{frames, read_records-frames}
use custom_database.Wal.Log.{Wal}
use custom_database.Wal.Append.{log_bytes}
use custom_database.Wal.Accepted.{accepting}
use custom_database.Wal.Crash.{read_records-nil}
use custom_database.Database.Fits.{Fits, FitsPath}
use custom_database.Database.State.{Database, Transaction}
use custom_database.Database.Transaction.{put, del, commit, rollback}
use custom_database.Database.Engine.{begin_transaction, backup, shutdown}
use custom_database.Database.Synced.{
  IsSynced, begin-IsSynced, commit-IsSynced, del-IsSynced, backup-IsSynced, shutdown-IsSynced,
  put-IsSynced, replay,
}

-- One call of a client, of any transaction or of the database, while the device takes what it is given.
pub data Step (db : Database) : Database → Type 0 where
  begin : Step db (begin_transaction db).0
  put_step :
      (now : ℕ) (t : Transaction) (key value : Bytes)
      → Fits now t key value
      → Step db (put (accepting now) key value t db).2
  del_step :
      (now : ℕ) (t : Transaction) (key : Bytes)
      → Fits now t key []
      → Step db (del (accepting now) key t db).2
  commit_step :
      (now : ℕ) (t : Transaction) → Fits now t [] [] → Step db (commit (accepting now) t db).1
  rollback_step : (t : Transaction) → Step db (rollback t db)
  backup_step :
      (now : ℕ) (path : Bytes) → FitsPath now path → Step db (backup (accepting now) path db).0
  shutdown_step :
      (now : ℕ)
      → FitsPath now (db.data_dir ++ text "/checkpoint.db")
      → Step db (shutdown (accepting now) db)

pub data Reach (db : Database) : Database → Type 0 where
  start : Reach db db
  next : {db₁ db₂ : Database} → Reach db db₁ → Step db₁ db₂ → Reach db db₂

pub Step-IsSynced :
    {db db' : Database} {rs : List WalRecord}
    → Step db db'
    → IsSynced db rs
    → (rs' : List WalRecord) × IsSynced db' rs'
Step-IsSynced {rs} begin s = (rs, begin-IsSynced s)
Step-IsSynced (put_step now t key value h) s = (_, (put-IsSynced now t s key value h).0)
Step-IsSynced (del_step now t key h) s =
    let (rs', s', done) = del-IsSynced now t s key h in (rs', s')
Step-IsSynced (commit_step now t h) s = commit-IsSynced now t s h
Step-IsSynced {rs} (rollback_step t) s = unfold rollback in (rs, s)
Step-IsSynced (backup_step now path h) s = backup-IsSynced now path h s
Step-IsSynced (shutdown_step now h) s = shutdown-IsSynced now h s

pub Reach-IsSynced :
    {db db' : Database} {rs : List WalRecord}
    → IsSynced db rs
    → Reach db db'
    → (rs' : List WalRecord) × IsSynced db' rs'
Reach-IsSynced {rs} s start = (rs, s)
Reach-IsSynced s (next path step) = let (rs', s') = Reach-IsSynced s path in Step-IsSynced step s'

pub log_bytes-IsSynced :
    {db : Database} {rs : List WalRecord} (s : IsSynced db rs)
    → replay (read_records (log_bytes s.log)) ≡ db.data_table
log_bytes-IsSynced {rs} s =
    ap (λ b. replay (read_records b)) (s.holds.written ∙ sym (append-nil (frames rs)))
    ∙ ap replay {y = rs}
        (read_records-frames rs [] s.readable ∙ rw (read_records-nil, append-nil) refl)
    ∙ sym s.data_eq

-- Take a database whose data is what the records of its open log make of it, and any sequence of
-- begin, put, del, commit and rollback of any transactions, of backups and of shutdowns, whose
-- records fit the log's reader and which the device takes whole: the database then has a log, and
-- replaying what the reader makes of the bytes of its file gives exactly the data.
pub recovery :
    {db db' : Database} {rs : List WalRecord}
    → IsSynced db rs
    → Reach db db'
    → (w : Wal) × (db'.wal ≡ some w) × (replay (read_records (log_bytes w)) ≡ db'.data_table)
recovery s path =
    let (rs', s') = Reach-IsSynced s path in (s'.log, s'.attached, log_bytes-IsSynced s')
