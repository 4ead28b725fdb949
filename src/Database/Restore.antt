-- ===== src/Database/Restore.antt =====
-- `PersistentDatabase::restore` holds the mutex of the log when it reads the log, which takes it too.
use custom_database.Prelude.{◌≡◌, refl, Bytes, some, deadlock, Bool-cases, inl, inr}
use custom_database.Wal.Log.{Wal, ReadIo, read_all_records, recover_from_checkpoint}
use custom_database.Database.State.{Database}
use custom_database.Database.Engine.{restore}

recover_from_checkpoint-deadlock :
    (io : ReadIo) (path : Bytes) (w : Wal) → recover_from_checkpoint io path w ≡ deadlock
unfolding recover_from_checkpoint read_all_records
recover_from_checkpoint-deadlock io path w = elim (Bool-cases w.locked) [
  | inl held ↦ rw held refl
  | inr free ↦ rw free refl
]

-- On every database that has a log, `restore` never returns: whatever the device answers, the path
-- and the state of the log.
pub restore-deadlock :
    (io : ReadIo) (path : Bytes) (db : Database) {w : Wal}
    → db.wal ≡ some w
    → restore io path db ≡ deadlock
unfolding restore
restore-deadlock io path db {w} e =
    rw (e, restore) (rw (recover_from_checkpoint-deadlock io path w) refl)
