-- ===== src/Client/Call.antt =====
-- `DatabaseClient` of src/network/client.cpp over a socket, which is a parameter: Boost's blocking
-- `connect`, `write` and `read`, which do all of their work or throw.
use custom_database.Prelude.{
  ℕ, ◌+◌, ◌%◌, ◌^◌, Bool, true, false, ◌&&◌, not, List, [], ◌++◌, Bytes, text, Result, ok, throw,
  length, ltb, if◌then◌else◌,
}
use custom_database.Bytes.Words.{word, read_word}
use custom_database.Bytes.Decimal.{to_string}
use custom_database.Table.{Entry}
use custom_database.Wal.Record.{length_u32}
use custom_database.Protocol.Message.{
  MessageType, success, pong, Message, new_message, serialize, deserialize, max_message_size,
}
use custom_database.Protocol.Message
use custom_database.Client.Scan.{parse_results}

-- What the client calls of its socket, on the state of what is behind it. A call of `write` tells
-- whether it returned.
pub record Socket (Peer : Type 0) : Type 0 where
  pub write : Bytes → Peer → Peer × Bool
  pub read : ℕ → Peer → Peer × Result Bytes

pub record Client (Peer : Type 0) : Type 0 where
  pub peer : Peer
  pub is_open : Bool
  pub connected : Bool
  pub request_id : ℕ

-- `DatabaseClient(host, port)`.
abbrev pub new_client : {Peer : Type 0} → Peer → Client Peer
new_client peer = record { peer = peer; is_open = false; connected = false; request_id = 0 }

-- `DatabaseClient::connect`, where Boost connects or throws.
unfoldable pub connect : {Peer : Type 0} → Bool → Client Peer → Client Peer × Bool
connect reached c =
    if reached then (record c { is_open = true; connected = true }, true) else (c, false)

unfoldable pub is_connected : {Peer : Type 0} → Client Peer → Bool
is_connected c = c.connected && c.is_open

unfoldable pub disconnect : {Peer : Type 0} → Client Peer → Client Peer
disconnect c =
    if c.connected && c.is_open then record c { is_open = false; connected = false } else c

-- `++request_id_`, on a uint32_t.
unfoldable pub next_id : ℕ → ℕ
next_id request_id = (request_id + 1) % 2 ^ 32

-- The requests of the operations.
unfoldable pub request : MessageType → ℕ → Bytes → Bytes → Message
request type id key value = record new_message {
  type = type;
  id = id;
  key = key;
  value = value;
  key_length = length_u32 key;
  value_length = length_u32 value;
}

-- `throw std::runtime_error("Receive error: " + ...)` for any exception in between.
unfoldable pub received : {A : Type 0} → Result A → Result A
received (ok a) = ok a
received (throw what) = throw (text "Receive error: " ++ what)

abbrev pub is_success : MessageType → Bool
is_success success = true
is_success _ = false

abbrev pub is_pong : MessageType → Bool
is_pong pong = true
is_pong _ = false

-- What an operation makes of the response; an exception of `send_request` passes through.
unfoldable pub answer_get : Result Message → Result Bytes
answer_get (throw what) = throw what
answer_get (ok response) =
    if is_success response.type
    then ok response.value
    else throw (text "GET failed: " ++ response.value)

unfoldable pub answer_success : Result Message → Result Bool
answer_success (throw what) = throw what
answer_success (ok response) = ok (is_success response.type)

unfoldable pub answer_pong : Result Message → Result Bool
answer_pong (throw what) = throw what
answer_pong (ok response) = ok (is_pong response.type)

unfoldable pub answer_scan : ℕ → Result Message → Result (List Entry)
answer_scan limit (throw what) = throw what
answer_scan limit (ok response) =
    if is_success response.type
    then ok (parse_results limit response.value)
    else throw (text "SCAN failed: " ++ response.value)

module _ {Peer : Type 0} (socket : Socket Peer) where
  unfoldable pub send_message : Message → Client Peer → Client Peer × Bool
  send_message m c =
      let bytes = serialize m in
      let (peer₁, length_sent) = socket.write (word 4 (length bytes % 2 ^ 32)) c.peer in
      let (peer₂, data_sent) = socket.write bytes peer₁ in
      if length_sent
      then (record c { peer = peer₂ }, data_sent)
      else (record c { peer = peer₁ }, false)

  unfoldable pub receive_message : Client Peer → Client Peer × Result Message
  unfolding received
  receive_message c =
      let (peer₁, header) = socket.read 4 c.peer in
      elim header [
        | throw what ↦ (record c { peer = peer₁ }, received (throw what))
        | ok bytes ↦
            let message_length = read_word 4 0 bytes in
            let (peer₂, body) = socket.read message_length peer₁ in
            if ltb max_message_size message_length
            then (
              record c { peer = peer₁ },
              received (
                  throw
                    (text "Message too large: " ++ (to_string message_length ++ text " bytes"))),
            )
            else (elim body [
              | throw what ↦ (record c { peer = peer₂ }, received (throw what))
              | ok body_bytes ↦ (record c { peer = peer₂ }, received (deserialize body_bytes))
            ])
      ]

  unfoldable pub send_request : Message → Client Peer → Client Peer × Result Message
  unfolding is_connected send_message receive_message
  send_request m c =
      let (c', sent) = send_message m c in
      if not (is_connected c)
      then (c, throw (text "Not connected to server"))
      else if not sent
      then (c', throw (text "Failed to send message"))
      else receive_message c'

  -- The common part of the operations: the next identifier, and the request.
  unfoldable pub call : MessageType → Bytes → Bytes → Client Peer → Client Peer × Result Message
  unfolding next_id request send_request
  call type key value c =
      let id = next_id c.request_id in
      send_request (request type id key value) (record c { request_id = id })

  unfoldable pub get : Bytes → Client Peer → Client Peer × Result Bytes
  unfolding call answer_get
  get key c = let (c', response) = call Message.get key [] c in (c', answer_get response)

  unfoldable pub put : Bytes → Bytes → Client Peer → Client Peer × Result Bool
  unfolding call answer_success
  put key value c =
      let (c', response) = call Message.put key value c in (c', answer_success response)

  unfoldable pub del : Bytes → Client Peer → Client Peer × Result Bool
  unfolding call answer_success
  del key c = let (c', response) = call Message.delete key [] c in (c', answer_success response)

  unfoldable pub scan : Bytes → Bytes → ℕ → Client Peer → Client Peer × Result (List Entry)
  unfolding call answer_scan
  scan start_key end_key limit c =
      let (c', response) = call Message.scan start_key end_key c in (c', answer_scan limit response)

  unfoldable pub ping : Client Peer → Client Peer × Result Bool
  unfolding call answer_pong
  ping c = let (c', response) = call Message.ping [] [] c in (c', answer_pong response)
