-- ===== src/Server/Spec.antt =====
-- What the server promises its clients: a map from keys to values, on which GET, PUT, DELETE and
-- PING act. SCAN shows the order of the server's hash map, and is not part of it.
use custom_database.Prelude.{Option, none, some, List, [], ◌∷◌, Bytes, text, if◌then◌else◌}
use custom_database.Bytes.Order.{str_eq}
use custom_database.Protocol.Message.{MessageType, Message, error, success, pong}
use custom_database.Protocol.Message
use custom_database.Server.Request.{Reply, RequestIo, respond, process_request_sync}
use custom_database.Server.RequestLaws.{found}
use custom_database.Database.State.{Database}

abbrev pub Store : Type 0
Store = Bytes → Option Bytes

abbrev pub update : Bytes → Option Bytes → Store → Store
update key value store j = if str_eq key j then value else store j

abbrev pub or_empty : Option Bytes → Bytes
or_empty none = []
or_empty (some value) = value

-- DELETE, by what the key holds.
unfoldable pub promise_delete : Bytes → Option Bytes → Store → Reply × Store
promise_delete key none store = ((error, text "Failed to delete key"), store)
promise_delete key (some value) store = ((success, text "OK"), update key none store)

-- The reply to a request, and the map after it.
unfoldable pub promise : MessageType → Bytes → Bytes → Store → Reply × Store
unfolding promise_delete found
promise Message.get key value store = (found (or_empty (store key)), store)
promise Message.put key value store = ((success, text "OK"), update key (some value) store)
promise Message.delete key value store = promise_delete key (store key) store
promise Message.ping key value store = ((pong, text "PONG"), store)
promise _ key value store = ((error, text "Unsupported operation"), store)

-- The responses to requests that come one after the other, and the map after them.
unfoldable pub promise_all : List Message → Store → List Message × Store
unfolding promise respond
promise_all [] store = ([], store)
promise_all (m ∷ ms) store =
    let (reply, store') = promise m.type m.key m.value store in
    let (responses, last) = promise_all ms store' in (respond m.id reply ∷ responses, last)

-- The server's responses to requests that come one after the other, with the answers of the
-- environment to each.
unfoldable pub serve_all : List (RequestIo × Message) → Database → List Message × Database
unfolding process_request_sync
serve_all [] db = ([], db)
serve_all ((io, m) ∷ ms) db =
    let (response, db') = process_request_sync io m db in
    let (responses, last) = serve_all ms db' in (response ∷ responses, last)
