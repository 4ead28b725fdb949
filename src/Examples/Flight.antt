-- ===== src/Examples/Flight.antt =====
-- Two clients whose calls overlap, at a concrete input.
use mathlib.Core.Path.{subst}
use custom_database.Prelude.{◌≡◌, ◌≤◌, refl, ap, sym, arith, some, none, [], ◌∷◌, All, text, nth}
use custom_database.Protocol.Message.{Message}
use custom_database.Table.{find}
use custom_database.Protocol.Message
use custom_database.Server.Refinement.{view}
use custom_database.Client.Call.{request, next_id, is_connected}
use custom_database.Client.LinkLaws.{online}
use custom_database.Client.Keeping.{IsShort}
use custom_database.Client.Flight.{calm, Conn, Flight, ask, asking, Reach, start, next}
use custom_database.Server.Served.{Served}
use custom_database.Client.FlightReach.{IsFresh}
use custom_database.Client.FlightSoon.{steps, hears_soon}
use custom_database.Examples.Data.{empty_database, empty_database-IsSynced}
use custom_database.Examples.Programs.{empty_database-IsServing}

abbrev fresh : Conn
fresh = record { phase = calm; client = online 0 empty_database 0; heard = [] }

abbrev at_start : Flight
at_start = record { database = some empty_database; conns = fresh ∷ fresh ∷ [] }

at_start-IsFresh : All IsFresh at_start.conns
at_start-IsFresh = ((0, empty_database, 0, refl), ((0, empty_database, 0, refl), tt))

empty_database-IsShort : IsShort (view empty_database)
unfolding find
empty_database-IsShort =
    subst IsShort {x = λ k. none} (sym (ap (λ m k. find k m) empty_database-IsSynced.data_eq))
      (λ key. omega arith)

abbrev putting : Conn
putting = ask Message.put (text "k") (text "v") fresh

abbrev getting : Conn
getting = ask Message.get (text "k") [] fresh

-- The first client puts, and the second one asks before the first has its response; then the handler
-- of the second one goes on first.
abbrev both_asked : Flight
both_asked = record at_start { conns = putting ∷ getting ∷ [] }

path : Reach at_start both_asked
unfolding is_connected
path =
    next
      (next start (
        asking [] (fresh ∷ []) fresh Message.put (text "k") (text "v") refl refl refl tt (λ e. cc)
          (omega arith, omega arith)))
      (asking (putting ∷ []) [] fresh Message.get (text "k") [] refl refl refl tt (λ e. cc)
        (omega arith, omega arith))

hears_soon_example :
    (u : Flight) × (c' : Conn) × (onward : Reach both_asked u) × (steps onward ≤ 4)
    × (nth 1 u.conns ≡ some c')
    × (c'.phase ≡ calm)
unfolding ask
hears_soon_example =
    hears_soon (putting ∷ []) [] getting (request Message.get (next_id 0) (text "k") [])
      empty_database-IsServing empty_database-IsShort refl at_start-IsFresh path refl refl
