-- ===== src/Server/Accept.antt =====
-- The connections of `DatabaseServer` in src/network/server.cpp: accepting, counting, stopping. Each
-- handler of Asio is one step; `stop` waits for no connection.
use custom_database.Prelude.{
  ℕ, zero, suc, ◌+◌, ◌-◌, ◌%◌, ◌^◌, Bool, true, false, ◌&&◌, not, Option, List, [], ◌∷◌, ◌++◌, leb,
  ◌==◌, if◌then◌else◌,
}
use custom_database.Database.State.{Database}
use custom_database.Server.Request.{RequestIo}
use custom_database.Server.Connection.{Completion, Handler, new_handler, start, complete}

abbrev pub max_connections : ℕ
max_connections = 50000

-- `accepting` says that an `async_accept` is pending; `handlers` are all connections so far.
pub record Server : Type 0 where
  pub running : Bool
  pub accepting : Bool
  pub connection_count : ℕ
  pub handlers : List Handler
  pub database : Option Database

-- A server after `set_database` and before `start`.
abbrev pub new_server : Option Database → Server
new_server database = record {
  running = false;
  accepting = false;
  connection_count = 0;
  handlers = [];
  database = database;
}

-- `DatabaseServer::start`; the worker threads are in Server/Pool.
unfoldable pub start_server : Server → Server
start_server s = record s { running = true; accepting = true }

-- `DatabaseServer::stop`; the worker threads are in Server/Pool.
unfoldable pub stop_server : Server → Server
stop_server s = record s { running = false }

-- A connection was accepted.
unfoldable pub admit : Server → Server
admit s = if leb max_connections s.connection_count then s else record s {
  connection_count = (s.connection_count + 1) % 2 ^ 32;
  handlers = s.handlers ++ (start new_handler ∷ []);
}

-- `DatabaseServer::handle_accept`; `failed` is its error code.
unfoldable pub handle_accept : Bool → Server → Server
unfolding admit
handle_accept failed s =
    let s' = if not failed && s.running then admit s else s in record s' { accepting = s.running }

-- `DatabaseServer::on_client_disconnect`, on a uint32_t.
unfoldable pub on_client_disconnect : ℕ → ℕ
on_client_disconnect connection_count = (connection_count + 2 ^ 32 - 1) % 2 ^ 32

-- The handler with this number completes its pending operation; whether it called `on_disconnect_`.
unfoldable pub complete_nth :
    ℕ
    → RequestIo
    → Completion
    → List Handler
    → Option Database
    → List Handler × Option Database × Bool
complete_nth i io c [] db = ([], db, false)
complete_nth zero io c (h ∷ hs) db =
    let (h', db') = complete io c h db in (h' ∷ hs, db', not (h'.disconnects == h.disconnects))
complete_nth (suc i) io c (h ∷ hs) db =
    let (hs', db', reported) = complete_nth i io c hs db in (h ∷ hs', db', reported)

unfoldable pub on_completion : ℕ → RequestIo → Completion → Server → Server
unfolding on_client_disconnect
on_completion i io c s =
    let (handlers, database, reported) = complete_nth i io c s.handlers s.database in
    record s {
      handlers = handlers;
      database = database;
      connection_count =
          if reported then on_client_disconnect s.connection_count else s.connection_count;
    }

-- What can happen to a server.
pub data Event : Type 0 where
  accepted : Bool → Event
  completed : ℕ → RequestIo → Completion → Event
  stopped : Event

unfoldable pub step : Event → Server → Server
unfolding handle_accept on_completion stop_server
step (accepted failed) s = if s.accepting then handle_accept failed s else s
step (completed i io c) s = on_completion i io c s
step stopped s = stop_server s

unfoldable pub run : List Event → Server → Server
run [] s = s
run (e ∷ es) s = run es (step e s)
