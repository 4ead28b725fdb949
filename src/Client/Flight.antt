-- ===== src/Client/Flight.antt =====
-- Several clients of one server whose calls overlap: a client sends its request, the handler of its
-- connection completes one asynchronous operation after the other, and the client reads the
-- response; in between, the others do the same. The handlers share the database.
use custom_database.Prelude.{
  ℕ, ◌+◌, ◌^◌, ◌≤◌, ◌<◌, ◌≡◌, ◌≢◌, true, Option, List, [], ◌∷◌, ◌++◌, Bytes, text, Result, ok,
  throw, length, take, drop, leb, if◌then◌else◌,
}
use custom_database.Bytes.Words.{read_word}
use custom_database.Protocol.Message.{MessageType, Message}
use custom_database.Protocol.Message
use custom_database.Protocol.MessageLaws.{IsType}
use custom_database.Database.State.{Database}
use custom_database.Server.Refinement.{taking}
use custom_database.Server.Request.{RequestIo}
use custom_database.Server.Connection.{Pending, response}
use custom_database.Client.Call.{
  Socket, Client, is_connected, next_id, request, send_message, receive_message,
}
use custom_database.Client.Link.{Link, turn}
use custom_database.Client.Serving.{FitsRequest}
use custom_database.Client.Crowd.{lend}

-- A client is between two calls, or it waits for the response to this request.
pub data Phase : Type 0 where
  calm : Phase
  asked : Message → Phase

-- A client on its connection, and what it has heard: the results of its requests so far.
pub record Conn : Type 0 where
  pub phase : Phase
  pub client : Client Link
  pub heard : List (Message × Result Message)

pub record Flight : Type 0 where
  pub database : Option Database
  pub conns : List Conn

-- The socket of a client that does not wait for the server's end.
unfoldable pub pipe : Socket Link
pipe = record {
  write = λ bytes l. (record l { to_server = l.to_server ++ bytes }, true);
  read = λ n l.
      if leb n (length l.to_client)
      then (record l { to_client = drop n l.to_client }, ok (take n l.to_client))
      else (l, throw (text "End of file"));
}

-- A call up to `send_message`.
unfoldable pub ask : MessageType → Bytes → Bytes → Conn → Conn
unfolding request next_id send_message pipe
ask type key value v =
    let id = next_id v.client.request_id in
    let m = request type id key value in
    record v {
      phase = asked m;
      client = (send_message pipe m (record v.client { request_id = id })).0;
    }

-- The handler of this connection completes what it waits for, if it can.
unfoldable pub serve : (Bytes → Bytes) → RequestIo → Option Database → Conn → Conn
unfolding turn
serve sent io database v =
    let c = lend database v.client in record v { client = record c { peer = turn sent io c.peer } }

-- The rest of the call, `receive_message`.
unfoldable pub hear : Message → Conn → Conn
unfolding receive_message pipe
hear m v =
    let (c, result) = receive_message pipe v.client in
    record { phase = calm; client = c; heard = v.heard ++ ((m, result) ∷ []) }

-- As many bytes as the blocking reads of `receive_message` wait for.
abbrev pub IsThere : Bytes → Type 0
IsThere bytes = (4 ≤ length bytes) × (4 + read_word 4 0 bytes ≤ length bytes)

-- All of them after the handler of the connection behind these has gone on.
unfoldable pub after_serve :
    (Bytes → Bytes) → RequestIo → List Conn → Conn → List Conn → Flight → Flight
unfolding serve
after_serve sent io before v after s =
    let v' = serve sent io s.database v in
    record { database = v'.client.peer.database; conns = before ++ (v' ∷ after) }

-- The write that is pending sends the bytes of the response as they were. It does where Asio took them
-- before `write_response` returned, and where nothing else has used their memory since.
abbrev pub IsIntact : (Bytes → Bytes) → Pending → Type 0
IsIntact sent (response bytes) = sent bytes ≡ bytes
IsIntact sent _ = Unit

-- One client or one handler goes on, while the device takes what it is given.
pub data Step (s : Flight) : Flight → Type 0 where
  asking :
      (before after : List Conn) (v : Conn) (type : MessageType) (key value : Bytes)
      → s.conns ≡ before ++ (v ∷ after)
      → v.phase ≡ calm
      → is_connected v.client ≡ true
      → IsType type
      → type ≢ Message.scan
      → FitsRequest key value
      → Step s (record s { conns = before ++ (ask type key value v ∷ after) })
  serving :
      (sent : Bytes → Bytes) (now later : ℕ) (before after : List Conn) (v : Conn)
      → now < 2 ^ 64
      → later < 2 ^ 64
      → s.conns ≡ before ++ (v ∷ after)
      → IsIntact sent v.client.peer.handler.pending
      → Step s (after_serve sent (taking now later) before v after s)
  hearing :
      (before after : List Conn) (v : Conn) (m : Message)
      → s.conns ≡ before ++ (v ∷ after)
      → v.phase ≡ asked m
      → IsThere v.client.peer.to_client
      → Step s (record s { conns = before ++ (hear m v ∷ after) })

pub data Reach (s : Flight) : Flight → Type 0 where
  start : Reach s s
  next : {t u : Flight} → Reach s t → Step t u → Reach s u
