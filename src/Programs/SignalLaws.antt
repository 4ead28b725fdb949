-- ===== src/Programs/SignalLaws.antt =====
-- The signal handler of the server program, and the server's connections afterwards.
use custom_database.Prelude.{◌≡◌, refl, Bool, some, true, false, List}
use custom_database.Server.Accept.{Server, stop_server, Event, run}
use custom_database.Server.AcceptLaws.{IsCounted, step-IsCounted}
use custom_database.Server.Accept.{stopped, step}
use custom_database.Server.StopLaws.{IsWindingDown, run-IsWindingDown}
use custom_database.Programs.Daemon.{Globals, wind_up, signal_handler}

server_after :
    (joined : Bool) (g : Globals) {s : Server}
    → g.server ≡ some s
    → (signal_handler joined g).server ≡ some (stop_server s)
unfolding signal_handler wind_up
server_after true g there = rw there refl
server_after false g there = rw there refl

stopped_after :
    (joined : Bool) (g : Globals) {s : Server}
    → g.server ≡ some s
    → g.stopped ≡ some false
    → (signal_handler joined g).stopped ≡ some joined
unfolding signal_handler wind_up
stopped_after true g there going = rw (there, going) refl
stopped_after false g there going = rw (there, going) refl

-- Take the server program with a server whose count of connections is right, and an `io_context`
-- that was not stopped. Its signal handler stops the server, and then the `io_context` if and only
-- if the joins of the worker threads return. Whether they do or not, and whatever accepts,
-- completions and stops come afterwards, in whatever order: the server stays stopped, it has the
-- connections that it had before the signal and no others, and its count does not rise.
pub signal_handler-IsWindingDown :
    (joined : Bool) (g : Globals) {s : Server} (es : List Event)
    → g.server ≡ some s
    → g.stopped ≡ some false
    → IsCounted s
    → ((signal_handler joined g).server ≡ some (stop_server s))
      × ((signal_handler joined g).stopped ≡ some joined)
      × IsWindingDown s (run es (stop_server s))
unfolding signal_handler wind_up stop_server step
signal_handler-IsWindingDown joined g {s} es there going v =
    let down = run-IsWindingDown es {s = stop_server s} refl (step-IsCounted stopped v) in
    (
      server_after joined g there,
      stopped_after joined g there going,
      record { halted = down.halted; same = down.same; fewer = down.fewer },
    )
