-- ===== src/Protocol/Message.antt =====
-- `Message` of include/network/protocol.h, and its serialisation in src/network/protocol.cpp.
use custom_database.Prelude.{
  ℕ, ◌+◌, ◌*◌, [], ◌∷◌, ◌++◌, ◌||◌, Bytes, text, Result, ok, throw, length, get_or, take, drop, ltb,
  ◌==◌, if◌then◌else◌,
}
use custom_database.Bytes.Words.{word, read_word}

-- `enum class MessageType : uint8_t`. A byte cast to it may be none of its names: `other`.
pub data MessageType : Type 0 where
  get put delete scan ping pong error success : MessageType
  other : ℕ → MessageType

unfoldable pub byte_of_type : MessageType → ℕ
byte_of_type get = 1
byte_of_type put = 2
byte_of_type delete = 3
byte_of_type scan = 4
byte_of_type ping = 5
byte_of_type pong = 6
byte_of_type error = 7
byte_of_type success = 8
byte_of_type (other b) = b

-- `static_cast<MessageType>(b)`.
unfoldable pub type_of_byte : ℕ → MessageType
type_of_byte b =
    if b == 1
    then get
    else if b == 2
    then put
    else if b == 3
    then delete
    else if b == 4
    then scan
    else if b == 5
    then ping
    else if b == 6
    then pong
    else if b == 7
    then error
    else if b == 8
    then success
    else other b

pub record Message : Type 0 where
  pub type : MessageType
  pub id : ℕ
  pub key_length : ℕ
  pub value_length : ℕ
  pub key : Bytes
  pub value : Bytes

-- `Message()`.
abbrev pub new_message : Message
new_message = record { type = get; id = 0; key_length = 0; value_length = 0; key = []; value = [] }

abbrev pub max_message_size : ℕ
max_message_size = 1024 * 1024

abbrev pub max_key_size : ℕ
max_key_size = 256

abbrev pub max_value_size : ℕ
max_value_size = 1024 * 1024

unfoldable pub serialize : Message → Bytes
unfolding byte_of_type
serialize m =
    byte_of_type m.type
    ∷ (word 4 m.id ++ (word 4 m.key_length ++ (word 4 m.value_length ++ (m.key ++ m.value))))

-- `Message::size`.
unfoldable pub message_size : Message → ℕ
message_size m = 1 + 4 * 3 + m.key_length + m.value_length

-- The offsets are those that `offset` goes through: 1, 5, 9, 13.
unfoldable pub deserialize : Bytes → Result Message
unfolding type_of_byte
deserialize bytes =
    if ltb (length bytes) 13
    then throw (text "Invalid message: too short")
    else let type = type_of_byte (get_or bytes 0 0) in
      let id = read_word 4 1 bytes in
      let key_length = read_word 4 5 bytes in
      let value_length = read_word 4 9 bytes in
      if ltb max_key_size key_length || ltb max_value_size value_length
      then throw (text "Invalid message: key or value too large")
      else if ltb (length bytes) (13 + key_length + value_length)
      then throw (text "Invalid message: incomplete data")
      else ok (record {
        type = type;
        id = id;
        key_length = key_length;
        value_length = value_length;
        key = take key_length (drop 13 bytes);
        value = take value_length (drop (13 + key_length) bytes);
      })
