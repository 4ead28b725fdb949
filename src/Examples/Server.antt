-- ===== src/Examples/Server.antt =====
-- The server's theorems at concrete inputs.
use custom_database.Prelude.{◌≡◌, refl, true, false, some, [], ◌∷◌, List}
use custom_database.Server.Connection.{failed}
use custom_database.Server.Accept.{
  Server, Event, new_server, start_server, stop_server, run, accepted, completed, stopped,
}
use custom_database.Server.AcceptLaws.{IsCounted, start_server-IsCounted, run-IsCounted}
use custom_database.Server.StopLaws.{IsWindingDown}
use custom_database.Programs.Daemon.{Globals, signal_handler}
use custom_database.Programs.SignalLaws.{signal_handler-IsWindingDown}
use custom_database.Examples.Data.{io, empty_database}

-- A connection is accepted, a second accept fails, the connection breaks, and the server is stopped.
abbrev events : List Event
events = accepted false ∷ accepted true ∷ completed 0 io failed ∷ stopped ∷ []

run-IsCounted_example : IsCounted (run events (start_server (new_server (some empty_database))))
run-IsCounted_example = run-IsCounted events (start_server-IsCounted (some empty_database))

-- The server program after a connection was accepted.
abbrev one_connection : Server
one_connection = run (accepted false ∷ []) (start_server (new_server (some empty_database)))

abbrev globals : Globals
globals = record { server = some one_connection; guarded = some true; stopped = some false }

one_connection-IsCounted : IsCounted one_connection
one_connection-IsCounted =
    run-IsCounted (accepted false ∷ []) (start_server-IsCounted (some empty_database))

signal_handler-IsWindingDown_example :
    ((signal_handler false globals).server ≡ some (stop_server one_connection))
    × ((signal_handler false globals).stopped ≡ some false)
    × IsWindingDown one_connection (run events (stop_server one_connection))
signal_handler-IsWindingDown_example =
    signal_handler-IsWindingDown false globals events refl refl one_connection-IsCounted
