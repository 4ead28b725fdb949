-- ===== src/Server/Connection.antt =====
-- `ConnectionHandler` of src/network/server.cpp: one asynchronous operation is pending at a time, and
-- its completion handler starts the next. Asio is the environment: it completes the pending
-- operation with the bytes that it asked for, aborts it, or fails it.
use custom_database.Prelude.{
  ℕ, ◌+◌, ◌%◌, ◌^◌, Bool, true, false, Option, ◌++◌, Bytes, ok, throw, length, ltb, if◌then◌else◌,
}
use custom_database.Bytes.Words.{word, read_word}
use custom_database.Protocol.Message.{Message, serialize, deserialize, max_message_size}
use custom_database.Database.State.{Database}
use custom_database.Server.Request.{RequestIo, handle_request}

-- What the handler waits for: the four bytes of the header, a body of this length, the end of the
-- write from buffers that held these bytes, or nothing.
pub data Pending : Type 0 where
  header : Pending
  body : ℕ → Pending
  response : Bytes → Pending
  nothing : Pending

-- The error code of a completion, and the bytes of one without error.
pub data Completion : Type 0 where
  done : Bytes → Completion
  aborted failed : Completion

-- `disconnects` counts the calls of `on_disconnect_`.
pub record Handler : Type 0 where
  pub active : Bool
  pub pending : Pending
  pub disconnects : ℕ

-- `ConnectionHandler(...)`, before `start`.
abbrev pub new_handler : Handler
new_handler = record { active = true; pending = nothing; disconnects = 0 }

unfoldable pub wait_for : Pending → Handler → Handler
wait_for p h = if h.active then record h { pending = p } else record h { pending = nothing }

unfoldable pub read_header : Handler → Handler
unfolding wait_for
read_header h = wait_for header h

unfoldable pub read_body : ℕ → Handler → Handler
unfolding wait_for
read_body message_length h = wait_for (body message_length) h

-- The bytes of a message on the wire: its length, and the message.
unfoldable pub wire : Message → Bytes
wire m = word 4 (length (serialize m) % 2 ^ 32) ++ serialize m

-- The buffers of the write refer to the bytes of `response_data` and `response_length`, which are gone
-- when this returns. What is pending holds what they held; Client/Link says what is sent of it.
unfoldable pub write_response : Message → Handler → Handler
unfolding wait_for wire
write_response m h = wait_for (response (wire m)) h

unfoldable pub disconnect : Handler → Handler
disconnect h = record h { pending = nothing; disconnects = h.disconnects + 1 }

-- `ConnectionHandler::start`.
unfoldable pub start : Handler → Handler
unfolding read_header
start h = read_header h

-- `ConnectionHandler::stop`. Closing the socket aborts what is pending.
unfoldable pub stop : Handler → Handler
stop h = record h { active = false }

-- `if (ec != operation_aborted) on_disconnect_();`
unfoldable pub on_error : Completion → Handler → Handler
unfolding disconnect
on_error aborted h = record h { pending = nothing }
on_error _ h = disconnect h

-- The handler of `read_header`.
unfoldable pub on_header : Bytes → Handler → Handler
unfolding disconnect read_body
on_header bytes h =
    let message_length = read_word 4 0 bytes in
    if ltb max_message_size message_length then disconnect h else read_body message_length h

-- The handler of `read_body`, with `handle_request`.
unfoldable pub on_body : RequestIo → Bytes → Handler → Option Database → Handler × Option Database
unfolding disconnect write_response
on_body io bytes h db = elim (deserialize bytes) [
  | throw what ↦ (disconnect h, db)
  | ok request ↦ let (answer, db') = handle_request io request db in (write_response answer h, db')
]

-- The completion without error of the operation that was pending, on an active handler.
unfoldable pub on_done :
    RequestIo → Pending → Bytes → Handler → Option Database → Handler × Option Database
unfolding on_header on_body read_header
on_done io header bytes h db = (on_header bytes h, db)
on_done io (body n) bytes h db = on_body io bytes h db
on_done io (response sent) bytes h db = (read_header h, db)
on_done io nothing bytes h db = (h, db)

-- The completion of a pending operation. A handler that was stopped reports a completion without
-- error as it does a failure.
unfoldable pub complete_pending :
    RequestIo → Pending → Completion → Handler → Option Database → Handler × Option Database
unfolding on_done on_error
complete_pending io nothing c h db = (h, db)
complete_pending io p (done bytes) h db =
    if h.active then on_done io p bytes h db else (on_error (done bytes) h, db)
complete_pending io p aborted h db = (on_error aborted h, db)
complete_pending io p failed h db = (on_error failed h, db)

unfoldable pub complete :
    RequestIo → Completion → Handler → Option Database → Handler × Option Database
unfolding complete_pending
complete io c h db = complete_pending io h.pending c h db
