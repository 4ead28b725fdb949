-- ===== src/Programs/Whole.antt =====
-- The server program and a client of it, from the start of the one to the answers of the other.
use mathlib.Core.List.{map}
use custom_database.Prelude.{
  ℕ, ◌≡◌, refl, ap, arith, Bool, true, none, some, List, [], All, Bytes, text, ok, returns,
}
use custom_database.Table.{Table}
use custom_database.Wal.File.{contents}
use custom_database.Wal.Log.{Wal}
use custom_database.Database.State.{Database}
use custom_database.Server.Spec.{Store}
use custom_database.Server.Accept.{new_server, start_server}
use custom_database.Server.Connection.{header}
use custom_database.Client.Call.{new_client, connect}
use custom_database.Client.LinkLaws.{at, online}
use custom_database.Client.Contract.{perform_all, expect_all}
use custom_database.Client.Keeping.{IsOnline, IsShort}
use custom_database.Wal.Reader.{max_record_size}
use custom_database.Client.Promise.{Turn, IsTurn, on_link, perform_all-expect_all}
use custom_database.Client.Durable.{recovered, perform_all-recovered}
use custom_database.Programs.Daemon.{port_argument, serving, num_io_threads, main}
use custom_database.Programs.DaemonLaws.{machine, main-serving}
use custom_database.Database.Restart.{wal_path}

abbrev pub nothing : Store
nothing k = none

-- Start the server program on a machine where the files can be opened, with a port that it can
-- bind, and with no bytes in the log file that is named after the time of its start: it starts on
-- that port. A new client, connected to its database over a connection that loses nothing, then
-- calls whatever `get`, `put`, `del` and `ping` it likes one after the other, at times of 64 bits,
-- with keys and values that fit a request, and with a device that takes what it is given: it gets
-- the answers of a map that was empty at first, and lookups in the data that replaying the records
-- read from the bytes of the server's log file makes find what that map holds in the end.
pub main-recovered :
    (now processors port : ℕ) (disk : Table) (binds : ℕ → Bool) (args : List Bytes) (ts : List Turn)
    → port_argument args ≡ ok port
    → binds port ≡ true
    → contents (wal_path (text "./data") now) disk ≡ []
    → All (IsTurn max_record_size) ts
    → (db : Database) × (db' : Database) × (w : Wal) × (main
          (machine now disk binds processors)
          args
        ≡ returns
            (ok (serving port (num_io_threads processors) (start_server (new_server (some db))))))
      × (let client = (connect true (new_client (at 0 header db [] []))).0 in
          let r = perform_all (map on_link ts) client in
          let e = expect_all (map (λ t. t.operation) ts) nothing in
          (r.1 ≡ e.0)
          × (r.0.peer.database ≡ some db')
          × (db'.wal ≡ some w)
          × ((k : Bytes) → recovered w k ≡ e.1 k))
unfolding connect
main-recovered now processors port disk binds args ts is_port bound fresh h =
    let (db, runs, v, empty) =
      main-serving now processors port disk binds args is_port bound fresh in
    let on : IsOnline 0 nothing (online 0 db 0) = record {
      db = db;
      rs = [];
      serving = v;
      id = 0;
      client_eq = refl;
      store_eq = empty;
    } in
    let short : IsShort nothing = λ key. omega arith in
    let answers =
      (perform_all-expect_all 0 max_record_size (omega arith) (omega arith) ts h on short).0 in
    let (db', w, id, last, attached, found) = perform_all-recovered 0 ts h on short in
    (db, db', w, runs, (answers, ap (λ c. c.peer.database) last, attached, found))
