-- ===== src/Programs/Daemon.antt =====
-- `main` of src/server_main.cpp, up to the threads that run its `io_context`, and its signal handler. The files of the
-- machine, the number of its processors and the success of the server's `bind` are parameters; what
-- is printed is left out.
use mathlib.Core.Option.{map}
use custom_database.Prelude.{
  Option, false, true, ℕ, Bool, some, none, List, [], ◌∷◌, Bytes, text, Result, ok, throw, Outcome,
  returns, deadlock, ◌==◌, if◌then◌else◌,
}
use custom_database.Table.{Table}
use custom_database.Wal.Log.{OpenIo, ReadIo}
use custom_database.Database.State.{OperationResult, success, Database, new_database}
use custom_database.Database.Engine.{initialize}
use custom_database.Server.Accept.{Server, new_server, start_server, stop_server}
use custom_database.Programs.Shell.{stoi, port_of}

pub record Machine : Type 0 where
  pub opening : OpenIo
  pub reading : ReadIo
  pub disk : Table
  pub binds : ℕ → Bool
  pub hardware_concurrency : ℕ

-- An exit with a code, or a server on a port whose `io_context` is about to run on this many threads.
pub data Startup : Type 0 where
  exited : ℕ → Startup
  serving : (port io_threads : ℕ) → Server → Startup

-- The port, from the arguments behind the program's name.
unfoldable pub port_argument : List Bytes → Result ℕ
port_argument [] = ok 8080
port_argument (port ∷ more) = elim (stoi port) [ throw what ↦ throw what | ok i ↦ ok (port_of i) ]

unfoldable pub num_io_threads : ℕ → ℕ
num_io_threads hardware_concurrency = if hardware_concurrency == 0 then 4 else hardware_concurrency

-- The construction of the server, whose acceptor throws if it cannot bind, and its start.
unfoldable pub launch : Machine → ℕ → Database → Startup
unfolding num_io_threads start_server
launch m port db =
    if m.binds port
    then serving port (num_io_threads m.hardware_concurrency) (start_server (new_server (some db)))
    else exited 1

unfoldable pub started : Machine → ℕ → Database × OperationResult → Startup
unfolding launch
started m port (db, success) = launch m port db
started m port (db, _) = exited 1

-- It throws if an exception leaves `main`, which only the conversion of the port can do.
unfoldable pub main : Machine → List Bytes → Outcome (Result Startup)
unfolding port_argument started
main m args = elim (port_argument args) [
  | throw what ↦ returns (throw what)
  | ok port ↦ elim (initialize m.opening m.reading (text "./data") m.disk new_database) [
    | deadlock ↦ deadlock
    | returns result ↦ returns (ok (started m port result))
  ]
]

-- What the program returns once its threads are done, which is after `run` returned on each.
unfoldable pub exit_code : Startup → ℕ
exit_code (exited code) = code
exit_code (serving port io_threads s) = 0

-- The global objects of the program: the server, whether the guard keeps the `io_context` at work,
-- and whether the `io_context` was stopped; none for a null pointer.
pub record Globals : Type 0 where
  pub server : Option Server
  pub guarded : Option Bool
  pub stopped : Option Bool

-- `signal_handler` behind the call of `stop`.
unfoldable pub wind_up : Globals → Globals
wind_up g = record g { guarded = map (λ _. false) g.guarded; stopped = map (λ _. true) g.stopped }

-- `signal_handler`. `joined` says whether the calls of `join` in `stop` return, which is up to the
-- worker threads of Server/Pool; if they do not, the handler hangs, and this is the state in which it
-- leaves the objects.
unfoldable pub signal_handler : Bool → Globals → Globals
unfolding stop_server wind_up
signal_handler joined g =
    let g' = record g { server = map stop_server g.server } in
    elim g.server [ none ↦ wind_up g' | some s ↦ if joined then wind_up g' else g' ]
