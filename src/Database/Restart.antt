-- ===== src/Database/Restart.antt =====
-- What a new process finds when it initializes the database again.
use mathlib.Core.Path.{subst}
use custom_database.Prelude.{
  ℕ, ◌≡◌, refl, ap, sym, ◌∙◌, List, ◌++◌, append-nil, Bytes, text, some, true, returns,
}
use custom_database.Table.{Table}
use custom_database.Wal.Record.{WalRecord}
use custom_database.Wal.File.{accepts, contents, open_file, close}
use custom_database.Wal.FileLaws.{contents-append_bytes}
use custom_database.Wal.Reader.{read_records}
use custom_database.Wal.Log.{Wal, OpenIo, ReadIo, log_name, new_wal, read_all_records}
use custom_database.Wal.Append.{log_bytes}
use custom_database.Database.State.{success, Database, new_database}
use custom_database.Database.Engine.{initialize}
use custom_database.Database.Synced.{replay, IsSynced}
use custom_database.Database.Durability.{Reach, recovery}

-- The answers of a machine on which every file can be opened.
abbrev pub opening : ℕ → OpenIo
opening now = record { now = now; opens = true }

abbrev pub reading : ReadIo
reading = record { close = accepts; reads = true; reopens = true }

-- The log file that a database initialized at this time writes and reads.
abbrev pub wal_path : Bytes → ℕ → Bytes
wal_path data_dir now = log_name (data_dir ++ text "/wal") now

-- A new process that initializes the database, where the files can be opened, succeeds, and its
-- data is what the records make of it in the log file whose name is made of the time of that
-- initialization.
pub data_table-initialize :
    (now : ℕ) (data_dir : Bytes) (disk : Table)
    → (db : Database) × (initialize (opening now) reading data_dir disk new_database
        ≡ returns (db, success))
      × (db.data_table ≡ replay (read_records (contents (wal_path data_dir now) disk)))
      × (db.initialized ≡ true)
unfolding initialize new_wal read_all_records open_file close
data_table-initialize now data_dir disk =
    (_, refl, ap (λ b. replay (read_records b)) (simp (contents-append_bytes, append-nil)), refl)

-- If the log of the database is named after the millisecond of the restart, then after any
-- sequence of begin, put, del, commit, rollback, backup and shutdown whose records fit and which
-- the device takes whole, on a database whose data is what its log says, the restart succeeds and
-- gives back all of the data.
pub restart_same :
    {db db' : Database} {rs : List WalRecord} (now : ℕ) (data_dir : Bytes) (w : Wal)
    → IsSynced db rs
    → Reach db db'
    → db'.wal ≡ some w
    → w.current_log_file ≡ wal_path data_dir now
    → (fresh : Database) × (initialize (opening now) reading data_dir w.log_file.disk new_database
        ≡ returns (fresh, success))
      × (fresh.data_table ≡ db'.data_table)
restart_same {db'} now data_dir w s path e same =
    let (w', attached, kept) = recovery s path in
    let (fresh, done, found, ready) = data_table-initialize now data_dir w.log_file.disk in
    let kept' =
      subst (λ w'. replay (read_records (log_bytes w')) ≡ db'.data_table) {x = w'} {y = w}
        (cc (attached, e)) kept in
    (
      fresh,
      done,
      found ∙ ap (λ p. replay (read_records (contents p w.log_file.disk))) (sym same) ∙ kept',
    )
