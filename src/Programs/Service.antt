-- ===== src/Programs/Service.antt =====
-- The server program and any number of clients, whose calls overlap.
use mathlib.Core.Path.{subst}
use custom_database.Prelude.{
  ℕ, zero, suc, ◌^◌, ◌<◌, ◌≢◌, ◌≡◌, refl, ap, sym, ◌∙◌, arith, Bool, true, some, List, [], ◌∷◌, All,
  Bytes, text, ok, returns,
}
use custom_database.Table.{Table, find}
use custom_database.Wal.File.{contents}
use custom_database.Wal.Log.{Wal}
use custom_database.Database.State.{Database, OperationResult, new_database}
use custom_database.Database.Restart.{opening, reading, wal_path}
use custom_database.Server.Accept.{new_server, start_server}
use custom_database.Server.Connection.{header}
use custom_database.Server.Refinement.{view}
use custom_database.Client.Call.{new_client, connect}
use custom_database.Client.LinkLaws.{at}
use custom_database.Client.Keeping.{IsShort}
use custom_database.Client.Flight.{calm, Conn, Flight, Reach}
use custom_database.Server.Served.{Served}
use custom_database.Client.FlightReach.{IsOrdered, IsFresh, Reach-IsOrdered, fresh-IsOrdered}
use custom_database.Programs.Daemon.{port_argument, serving, num_io_threads, main}
use custom_database.Programs.DaemonLaws.{machine, initialize-IsServing, main-initialize}
use custom_database.Database.Loss.{restart_loses}
use custom_database.Database.Engine.{initialize}
use custom_database.Programs.Whole.{nothing}

-- A client of this database that has just connected.
abbrev pub connected : Database → Conn
connected db = record {
  phase = calm;
  client = (connect true (new_client (at 0 header db [] []))).0;
  heard = [];
}

-- That many of them.
abbrev pub all_connected : ℕ → Database → List Conn
all_connected zero db = []
all_connected (suc n) db = connected db ∷ all_connected n db

-- The server's database, with that many clients.
abbrev pub service : ℕ → Database → Flight
service clients db = record { database = some db; conns = all_connected clients db }

all_connected-IsFresh : (clients : ℕ) (db : Database) → All IsFresh (all_connected clients db)
unfolding connect
all_connected-IsFresh zero db = tt
all_connected-IsFresh (suc n) db = ((0, db, 0, refl), all_connected-IsFresh n db)

-- Two startups that are the same have the same database.
serving-injective :
    {port n : ℕ} {db db' : Database}
    → returns (ok (serving port n (start_server (new_server (some db)))))
      ≡ returns (ok (serving port n (start_server (new_server (some db')))))
    → db ≡ db'
unfolding start_server
serving-injective e = cc

-- The start of the program, and all of its clients, where no request was processed.
pub service-IsOrdered :
    (now processors port clients : ℕ) (disk : Table) (binds : ℕ → Bool) (args : List Bytes)
    {db : Database}
    → port_argument args ≡ ok port
    → binds port ≡ true
    → contents (wal_path (text "./data") now) disk ≡ []
    → main (machine now disk binds processors) args
      ≡ returns
          (ok (serving port (num_io_threads processors) (start_server (new_server (some db)))))
    → IsOrdered db (service clients db) []
      × (initialize (opening now) reading (text "./data") disk new_database
          ≡ returns (db, OperationResult.success))
      × (view db ≡ nothing)
unfolding find
service-IsOrdered now processors port clients disk binds args {db} is_port bound fresh started =
    let (db₀, done, v, empty) = initialize-IsServing now (text "./data") disk fresh in
    let runs = main-initialize now processors port disk binds args is_port bound done in
    let same : db₀ ≡ db = serving-injective (sym runs ∙ started) in
    let none_yet : view db₀ ≡ nothing = ap (λ m k. find k m) empty in
    subst
      (λ d.
        IsOrdered d (service clients d) []
        × (initialize (opening now) reading (text "./data") disk new_database
            ≡ returns (d, OperationResult.success))
        × (view d ≡ nothing))
      same
      (
        fresh-IsOrdered v (subst IsShort (sym none_yet) (λ key. omega arith)) refl
            (all_connected-IsFresh clients db₀),
        done,
        none_yet,
      )

-- Start the server program on a machine with no files, with a port that it can bind, and let any
-- number of new clients make overlapping calls, of any type but SCAN, with keys and values that
-- fit a request, over connections that lose nothing and send each response as it was, at times of
-- 64 bits, and with a device that takes what it is given. Whatever state they reach: the server
-- program, started on the files that are there then, at another millisecond of 64 bits, serves on
-- the same port a database with no data.
pub service_restarts_empty :
    (now later processors processors' port clients : ℕ) (binds : ℕ → Bool) (args : List Bytes)
    {db : Database} {t : Flight}
    → now < 2 ^ 64
    → later < 2 ^ 64
    → now ≢ later
    → port_argument args ≡ ok port
    → binds port ≡ true
    → main (machine now [] binds processors) args
      ≡ returns
          (ok (serving port (num_io_threads processors) (start_server (new_server (some db)))))
    → Reach (service clients db) t
    → (last : Database) × (w : Wal) × (fresh : Database) × (t.database ≡ some last)
      × (last.wal ≡ some w)
      × (main (machine later w.log_file.disk binds processors') args
          ≡ returns (
              ok (
                serving port
                  (num_io_threads processors')
                  (start_server (new_server (some fresh))))))
      × (view fresh ≡ nothing)
unfolding find
service_restarts_empty now later processors processors' port clients binds args {db} h₁ h₂ ne
      is_port bound started path =
    let (ordered, done, empty) =
      service-IsOrdered now processors port clients [] binds args is_port bound
        (unfold contents in refl) started in
    let (order, u) = Reach-IsOrdered ordered path in
    let s = u.serving.synced in
    let (fresh, again, gone) =
      restart_loses now later (text "./data") h₁ h₂ ne done u.reached s.attached in
    (
      u.db,
      s.log,
      fresh,
      u.database_eq,
      s.attached,
      main-initialize later processors' port s.log.log_file.disk binds args is_port bound again,
      ap (λ m k. find k m) gone,
    )
