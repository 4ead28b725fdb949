-- ===== src/Database/Compaction.antt =====
-- `PersistentDatabase::compact` truncates the log, that is, goes on with a new one; the data is not
-- written to it.
use custom_database.Prelude.{
  ℕ, ◌≡◌, refl, ap, ◌∙◌, List, [], append-nil, Bytes, some, Bool-cases, inl, inr,
}
use custom_database.Bytes.Order.{str_eq, str_eq_iff}
use custom_database.Table.{Table}
use custom_database.Wal.Record.{WalRecord}
use custom_database.Wal.File.{accepts, contents, append_bytes, open_file, close, flush}
use custom_database.Wal.FileLaws.{contents-append_bytes, contents-append_bytes_ne}
use custom_database.Wal.Reader.{read_records}
use custom_database.Wal.Crash.{read_records-nil}
use custom_database.Wal.Log.{Wal, log_name, truncate_log}
use custom_database.Wal.Append.{Holds, log_bytes}
use custom_database.Database.State.{Database}
use custom_database.Database.Engine.{compact}
use custom_database.Database.Synced.{replay}
use custom_database.Database.Restart.{opening}

-- Nothing appended to one file changes no file.
contents-touched :
    (path p : Bytes) (disk : Table) → contents p (append_bytes path [] disk) ≡ contents p disk
contents-touched path p disk = elim (Bool-cases (str_eq path p)) [
  | inl same ↦
      let e : path ≡ p = (str_eq_iff path p).0 same in
      ap (λ q. contents p (append_bytes q [] disk)) e
      ∙ contents-append_bytes p [] disk
      ∙ append-nil (contents p disk)
  | inr differ ↦ contents-append_bytes_ne path p [] disk differ
]

-- When a database with an open log that holds any records is compacted, where the device takes
-- what it is given, the new file can be opened and was empty: its data stays, but its log is then
-- a file from which nothing is recovered.
pub compact_forgets :
    (db : Database) {w : Wal} {rs : List WalRecord} (now : ℕ)
    → db.wal ≡ some w
    → Holds w rs
    → contents (log_name w.log_dir now) w.log_file.disk ≡ []
    → let db' = (compact accepts (opening now) db).0 in
      (db'.data_table ≡ db.data_table)
      × ((w' : Wal) × (db'.wal ≡ some w') × (replay (read_records (log_bytes w')) ≡ []))
unfolding compact truncate_log open_file close flush
compact_forgets db {w} now attached holds fresh =
    let path = log_name w.log_dir now in
    let f = w.log_file in
    rw (attached, compact)
      (simp (holds.opened, holds.sound, holds.drained)
        (
          refl,
          (
            _,
            refl,
            ap (λ b. replay (read_records b)) {y = []}
                  (contents-touched path path (append_bytes f.path [] f.disk)
                    ∙ contents-touched f.path path f.disk
                    ∙ fresh)
                ∙ ap replay {y = []} read_records-nil,
          ),
        ))
