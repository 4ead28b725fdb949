-- ===== src/Examples/Overlap.antt =====
-- Two requests that are processed at once, at a concrete input.
use custom_database.Prelude.{[], ◌∷◌, text}
use custom_database.Protocol.Message.{Message}
use custom_database.Protocol.Message
use custom_database.Server.Refinement.{taking}
use custom_database.Server.Served.{Served}
use custom_database.Server.Overlap.{Task, waiting, Overlap, after_work, work}
use custom_database.Client.Call.{request}
use custom_database.Examples.Data.{empty_database}

abbrev put_message : Message
put_message = request Message.put 1 (text "k") (text "v")

abbrev get_message : Message
get_message = request Message.get 2 (text "k") []

abbrev at_start : Overlap
at_start = record {
  database = empty_database;
  tasks = waiting put_message ∷ waiting get_message ∷ [];
}

-- The thread of the PUT begins its transaction, then that of the GET.
abbrev begun : Task
begun = (work (taking 7 8) (waiting put_message) empty_database).0

abbrev one : Overlap
one = after_work (taking 7 8) [] (waiting put_message) (waiting get_message ∷ []) at_start

abbrev two : Overlap
two = after_work (taking 9 9) (begun ∷ []) (waiting get_message) [] one
