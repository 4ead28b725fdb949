-- ===== src/Client/Crowd.antt =====
-- Several clients of one server, each on a connection of its own. The server's handlers share the
-- database, as in `DatabaseServer::handle_accept`; the calls of the clients come one after the other.
use custom_database.Prelude.{ℕ, zero, suc, Option, List, [], ◌∷◌, ◌++◌}
use custom_database.Database.State.{Database}
use custom_database.Client.Call.{Socket, Client}
use custom_database.Client.Link.{Link}
use custom_database.Client.Contract.{Operation, Answer, perform}

-- A client whose connection is to a handler of this database.
abbrev pub lend : Option Database → Client Link → Client Link
lend database c = record c { peer = record c.peer { database = database } }

-- The call of one client, by its number; there is no answer if there is no such client.
unfoldable pub perform_nth :
    ℕ
    → Socket Link
    → Operation
    → Option Database
    → List (Client Link)
    → Option Database × List (Client Link) × List Answer
unfolding perform
perform_nth i socket op db [] = (db, [], [])
perform_nth zero socket op db (c ∷ cs) =
    let (c', answer) = perform socket op (lend db c) in (c'.peer.database, c' ∷ cs, answer ∷ [])
perform_nth (suc i) socket op db (c ∷ cs) =
    let (db', cs', answers) = perform_nth i socket op db cs in (db', c ∷ cs', answers)

-- Calls of these clients, one after the other, and their answers in the order of the calls.
unfoldable pub perform_each :
    List (ℕ × Socket Link × Operation)
    → Option Database
    → List (Client Link)
    → Option Database × List (Client Link) × List Answer
unfolding perform_nth
perform_each [] db cs = (db, cs, [])
perform_each ((i, socket, op) ∷ calls) db cs =
    let (db', cs', now) = perform_nth i socket op db cs in
    let (db'', cs'', later) = perform_each calls db' cs' in (db'', cs'', now ++ later)
