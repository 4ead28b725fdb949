-- ===== src/Examples/Service.antt =====
-- The server program with two clients, and its restart, at concrete inputs.
use custom_database.Prelude.{◌≡◌, refl, arith, true, none, some, List, [], ◌∷◌, text, ok, returns}
use custom_database.Table.{find}
use custom_database.Protocol.Message
use custom_database.Wal.File.{contents}
use custom_database.Wal.Log.{Wal}
use custom_database.Database.State.{Database}
use custom_database.Server.Accept.{new_server, start_server}
use custom_database.Server.Refinement.{view, IsServing}
use custom_database.Server.Served.{Served}
use custom_database.Client.Call.{connect, is_connected}
use custom_database.Client.Flight.{Flight, ask, asking, Reach, start, next}
use custom_database.Programs.Daemon.{port_argument, serving, num_io_threads, main}
use custom_database.Programs.DaemonLaws.{machine, main-serving}
use custom_database.Programs.Whole.{nothing}
use custom_database.Programs.Service.{connected, service, service_restarts_empty}

first_start :
    (db : Database) × (main (machine 3 [] (λ port. true) 4) []
      ≡ returns (ok (serving 8080 (num_io_threads 4) (start_server (new_server (some db))))))
    × IsServing db []
    × (view db ≡ λ k. none)
unfolding port_argument contents find
first_start = main-serving 3 4 8080 [] (λ port. true) [] refl refl refl

abbrev served : Database
served = first_start.0

-- The first of two clients puts.
abbrev one_asked : Flight
one_asked = record (service 2 served) {
  conns = ask Message.put (text "k") (text "v") (connected served) ∷ connected served ∷ [];
}

path : Reach (service 2 served) one_asked
unfolding connect is_connected
path = next start (
    asking [] (connected served ∷ []) (connected served) Message.put (text "k") (text "v") refl refl
      refl tt (λ e. cc) (omega arith, omega arith))

service_restarts_empty_example :
    (last : Database) × (w : Wal) × (fresh : Database) × (one_asked.database ≡ some last)
    × (last.wal ≡ some w)
    × (main (machine 4 w.log_file.disk (λ port. true) 8) []
        ≡ returns (ok (serving 8080 (num_io_threads 8) (start_server (new_server (some fresh))))))
    × (view fresh ≡ nothing)
unfolding port_argument
service_restarts_empty_example =
    service_restarts_empty 3 4 4 8 8080 2 (λ port. true) [] (omega arith) (omega arith)
      (λ e. omega arith) refl refl first_start.1 path
