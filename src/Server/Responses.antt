-- ===== src/Server/Responses.antt =====
-- The responses of the server: what every one of them has, whatever the request.
use custom_database.Prelude.{
  ℕ, ◌+◌, ◌%◌, ◌^◌, ◌≤◌, ◌<◌, ◌≡◌, refl, arith, Bool, true, false, [], Bytes, length, ok,
  append-nil,
}
use custom_database.Protocol.Message.{
  MessageType, Message, error, success, pong, other, serialize, deserialize, max_value_size,
}
use custom_database.Protocol.Message
use custom_database.Protocol.MessageLaws.{IsConsistent, IsType, deserialize-serialize_message}
use custom_database.Database.State.{Database}
use custom_database.Server.Request.{
  RequestIo, Reply, dispatch, respond, process_request_sync, handle_request, ServerState,
  process_request,
}

-- The three types that a response can have.
unfoldable pub is_answer : MessageType → Bool
is_answer success = true
is_answer error = true
is_answer pong = true
is_answer _ = false

is_answer-dispatch :
    (type : MessageType) (io : RequestIo) (key value : Bytes) (db : Database)
    → is_answer (dispatch type io key value db).0.0 ≡ true
unfolding dispatch is_answer
is_answer-dispatch Message.get io key value db = ground arith
is_answer-dispatch Message.put io key value db = ground arith
is_answer-dispatch Message.delete io key value db = ground arith
is_answer-dispatch Message.scan io key value db = ground arith
is_answer-dispatch _ io key value db = refl

IsType-is_answer : (t : MessageType) → is_answer t ≡ true → IsType t
unfolding is_answer
IsType-is_answer (other b) h = cc
IsType-is_answer _ h = tt

respond-IsConsistent :
    (id : ℕ) (reply : Reply)
    → id < 2 ^ 32
    → is_answer reply.0 ≡ true
    → length reply.1 < 2 ^ 32
    → IsConsistent (respond id reply)
unfolding respond
respond-IsConsistent id (type, value) small answer short = record {
  type_fits = IsType-is_answer type answer;
  id_fits = omega arith;
  key_length_fits = omega arith;
  value_length_fits = omega arith;
  key_length_eq = refl;
  value_length_eq = omega arith;
}

pub response-IsConsistent :
    (io : RequestIo) (request : Message) (db : Database)
    → request.id < 2 ^ 32
    → length (process_request_sync io request db).0.value < 2 ^ 32
    → IsConsistent (process_request_sync io request db).0
unfolding process_request_sync
response-IsConsistent io request db small short =
    respond-IsConsistent request.id (dispatch request.type io request.key request.value db).0 small
      (is_answer-dispatch request.type io request.key request.value db) short

-- A request with a 32-bit identifier, of whatever type and outcome, whose response has a value
-- within the protocol's limit is answered by a message of type SUCCESS, ERROR or PONG with the
-- identifier of the request, and the bytes of the response are read as that very message.
pub response_on_wire :
    (io : RequestIo) (request : Message) (db : Database)
    → request.id < 2 ^ 32
    → length (process_request_sync io request db).0.value ≤ max_value_size
    → let response = (process_request_sync io request db).0 in
      (response.id ≡ request.id)
      × (is_answer response.type ≡ true)
      × (deserialize (serialize response) ≡ ok response)
unfolding process_request_sync
response_on_wire io request db small short =
    let reply = (dispatch request.type io request.key request.value db).0 in
    let answer = is_answer-dispatch request.type io request.key request.value db in
    let c = respond-IsConsistent request.id reply small answer (omega arith) in
    (
      refl,
      answer,
      rw append-nil at (
          deserialize-serialize_message (respond request.id reply) [] c (omega arith)
            (omega arith)),
    )

-- The worker threads' `process_request` answers as the connections' `handle_request` does, changes
-- the database alike, and counts the request.
pub process_request-handle_request :
    (io : RequestIo) (request : Message) (s : ServerState)
    → process_request io request s ≡ (
      (handle_request io request s.database).0,
      record {
        total_requests = (s.total_requests + 1) % 2 ^ 64;
        database = (handle_request io request s.database).1;
      },
    )
unfolding process_request handle_request
process_request-handle_request io request s = ground arith
