-- ===== src/Client/Link.antt =====
-- A connection that loses nothing, with `ConnectionHandler` of src/network/server.cpp at its other
-- end: the socket of a client that talks to a server. The buffers that `write_response` hands to
-- `async_write` are its local variables, which are gone when it returns, while the write goes on: what
-- Asio has taken by then is sent as it was, and the rest is read from freed memory. What is sent for
-- the bytes of a response is a parameter.
use custom_database.Prelude.{
  ℕ, ◌≤◌, ◌≡◌, true, Option, [], ◌++◌, Bytes, text, ok, throw, length, take, drop, leb,
  if◌then◌else◌,
}
use custom_database.Database.State.{Database}
use custom_database.Server.Request.{RequestIo}
use custom_database.Server.Connection.{
  Pending, header, body, response, nothing, done, Handler, complete,
}
use custom_database.Client.Call.{Socket}

-- The server's end, the bytes on the way to it and those on the way back.
pub record Link : Type 0 where
  pub handler : Handler
  pub database : Option Database
  pub to_server : Bytes
  pub to_client : Bytes

-- The server reads this many bytes once they are there.
unfoldable pub take_in : RequestIo → ℕ → Link → Link
take_in io n l =
    let (handler, database) = complete io (done (take n l.to_server)) l.handler l.database in
    if leb n (length l.to_server)
    then record l { handler = handler; database = database; to_server = drop n l.to_server }
    else l

-- The pending operation of the server's end completes, where it can.
unfoldable pub advance : (Bytes → Bytes) → RequestIo → Pending → Link → Link
unfolding take_in
advance sent io header l = take_in io 4 l
advance sent io (body n) l = take_in io n l
advance sent io (response bytes) l =
    let (handler, database) = complete io (done []) l.handler l.database in
    record l { handler = handler; database = database; to_client = l.to_client ++ sent bytes }
advance sent io nothing l = l

unfoldable pub turn : (Bytes → Bytes) → RequestIo → Link → Link
unfolding advance
turn sent io l = advance sent io l.handler.pending l

-- The bytes of a response stay in place until they are sent.
abbrev pub unchanged : Bytes → Bytes
unchanged bytes = bytes

-- Asio asks for buffers that stay valid until the write has ended, which these do not. A connection on
-- which a response of up to this many bytes is sent as it was, as where the socket takes it before
-- `write_response` returns; Asio tries to send up to 64 KiB there.
abbrev pub IsSending : ℕ → (Bytes → Bytes) → Type 0
IsSending at_once sent = (bytes : Bytes) → length bytes ≤ at_once → sent bytes ≡ bytes

-- The server's end reads a request and writes its response before the client reads.
unfoldable pub link_over : (Bytes → Bytes) → RequestIo → Socket Link
unfolding turn
link_over sent io = record {
  write = λ bytes l. (record l { to_server = l.to_server ++ bytes }, true);
  read = λ n l.
      let l' = turn sent io (turn sent io (turn sent io l)) in
      if leb n (length l'.to_client)
      then (record l' { to_client = drop n l'.to_client }, ok (take n l'.to_client))
      else (l', throw (text "End of file"));
}

-- The same where the memory of the responses is not used for anything else in the meantime.
abbrev pub link : RequestIo → Socket Link
link io = link_over unchanged io
