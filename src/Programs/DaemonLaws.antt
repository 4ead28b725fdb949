-- ===== src/Programs/DaemonLaws.antt =====
-- The start of the server program with a new log.
use custom_database.Prelude.{
  ℕ, ◌<◌, ◌^◌, ◌≡◌, refl, ap, ◌∙◌, arith, Bool, true, none, some, List, [], append-nil, Bytes, text,
  ok, returns,
}
use custom_database.Table.{Table, find}
use custom_database.Wal.File.{contents, open_file, close}
use custom_database.Wal.FileLaws.{contents-append_bytes}
use custom_database.Wal.Reader.{read_records}
use custom_database.Wal.ReaderLaws.{frames}
use custom_database.Wal.Crash.{read_records-nil}
use custom_database.Wal.Log.{new_wal, read_all_records}
use custom_database.Database.State.{OperationResult, Database, new_database}
use custom_database.Database.Engine.{initialize}
use custom_database.Database.Restart.{opening, reading, wal_path}
use custom_database.Database.Synced.{replay}
use custom_database.Server.Accept.{new_server, start_server}
use custom_database.Server.Refinement.{view, IsServing}
use custom_database.Programs.Daemon.{Machine, serving, port_argument, num_io_threads, launch, main}

module _ (now : ℕ) (data_dir : Bytes) (disk : Table)
    (fresh : contents (wal_path data_dir now) disk ≡ []) where
  pub initialize-IsServing :
      (db : Database) × (initialize (opening now) reading data_dir disk new_database
        ≡ returns (db, OperationResult.success))
      × IsServing db []
      × (db.data_table ≡ [])
  unfolding initialize new_wal read_all_records open_file close
  initialize-IsServing =
      let first : 1 < 2 ^ 64 = omega arith in
      let empty =
        ap (λ b. replay (read_records b)) {y = []} (simp (contents-append_bytes, append-nil, fresh))
        ∙ ap replay read_records-nil in
      (
        _,
        refl,
        record {
          synced = record {
            log = _;
            attached = refl;
            holds = record {
              opened = refl;
              sound = refl;
              drained = refl;
              current = refl;
              unlocked = refl;
              written = unfold frames in simp (contents-append_bytes, append-nil, fresh);
            };
            readable = tt;
            data_eq = empty;
          };
          ready = refl;
          small_id = first;
        },
        empty,
      )

-- The machine of a new data directory, at this time.
abbrev pub machine : ℕ → Table → (ℕ → Bool) → ℕ → Machine
machine now disk binds processors = record {
  opening = opening now;
  reading = reading;
  disk = disk;
  binds = binds;
  hardware_concurrency = processors;
}

-- The server program, once its database is initialized.
pub main-initialize :
    (now processors port : ℕ) (disk : Table) (binds : ℕ → Bool) (args : List Bytes) {db : Database}
    → port_argument args ≡ ok port
    → binds port ≡ true
    → initialize (opening now) reading (text "./data") disk new_database
      ≡ returns (db, OperationResult.success)
    → main (machine now disk binds processors) args
      ≡ returns
          (ok (serving port (num_io_threads processors) (start_server (new_server (some db)))))
unfolding launch main
main-initialize now processors port disk binds args is_port bound done =
    rw (is_port, main) (rw done (rw bound refl))

-- The server program, on a machine where the files can be opened, with a port that it can bind,
-- and with no bytes in the log file that is named after the time of its start, starts: it serves
-- on that port, on as many threads as there are processors, or 4 if that number is unknown, with a
-- database that serves and has no data.
pub main-serving :
    (now processors port : ℕ) (disk : Table) (binds : ℕ → Bool) (args : List Bytes)
    → port_argument args ≡ ok port
    → binds port ≡ true
    → contents (wal_path (text "./data") now) disk ≡ []
    → (db : Database) × (main (machine now disk binds processors) args
        ≡ returns
            (ok (serving port (num_io_threads processors) (start_server (new_server (some db))))))
      × IsServing db []
      × (view db ≡ λ k. none)
unfolding find
main-serving now processors port disk binds args is_port bound fresh =
    let (db, done, v, empty) = initialize-IsServing now (text "./data") disk fresh in
    (
      db,
      main-initialize now processors port disk binds args is_port bound done,
      v,
      ap (λ m k. find k m) empty,
    )
