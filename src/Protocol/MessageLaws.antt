-- ===== src/Protocol/MessageLaws.antt =====
-- Messages through `Message::serialize` and `Message::deserialize`.
use custom_database.Prelude.{
  ◌+◌, ◌^◌, ◌≤◌, ◌<◌, ◌≡◌, ◌⊎◌, refl, arith, [], ◌∷◌, ◌++◌, append_assoc, Bytes, ok, length, take,
  drop, le→ltb_false, length-append, drop-add, take-append_at, drop-append_at,
}
use custom_database.Bytes.Words.{word, read_word, read_word-append}
use custom_database.Protocol.Message.{
  MessageType, get, put, delete, scan, ping, pong, error, success, other, byte_of_type,
  type_of_byte, Message, serialize, deserialize, message_size, max_key_size, max_value_size,
}

-- A value of the enumeration: one of the eight names, or another byte.
abbrev pub IsType : MessageType → Type 0
IsType (other b) = (b < 256) × ((b ≡ 0) ⊎ (8 < b))
IsType _ = Unit

-- The lengths are those of the strings, and each field fits its type.
pub record IsConsistent (m : Message) : Type 0 where
  pub type_fits : IsType m.type
  pub id_fits : m.id < 256 ^ 4
  pub key_length_fits : m.key_length < 256 ^ 4
  pub value_length_fits : m.value_length < 256 ^ 4
  pub key_length_eq : m.key_length ≡ length m.key
  pub value_length_eq : m.value_length ≡ length m.value

type_of_byte-byte_of_type : (t : MessageType) → IsType t → type_of_byte (byte_of_type t) ≡ t
unfolding type_of_byte byte_of_type
type_of_byte-byte_of_type (other b) h = ground arith
type_of_byte-byte_of_type get h = refl
type_of_byte-byte_of_type put h = refl
type_of_byte-byte_of_type delete h = refl
type_of_byte-byte_of_type scan h = refl
type_of_byte-byte_of_type ping h = refl
type_of_byte-byte_of_type pong h = refl
type_of_byte-byte_of_type error h = refl
type_of_byte-byte_of_type success h = refl

pub length-serialize_message :
    (m : Message) → IsConsistent m → length (serialize m) ≡ message_size m
unfolding serialize message_size word
length-serialize_message m c =
    omega (arith, length-append m.key m.value, c.key_length_eq, c.value_length_eq)

-- What stands in front of each field, with what follows the message.
module _ (m : Message) (rest : Bytes) where
  abbrev body : Bytes
  body = m.key ++ (m.value ++ rest)

  abbrev layout : Bytes
  layout =
      byte_of_type m.type
      ∷ (word 4 m.id ++ (word 4 m.key_length ++ (word 4 m.value_length ++ body)))

  serialize-append : serialize m ++ rest ≡ layout
  unfolding serialize word
  serialize-append = simp append_assoc

  module _ (c : IsConsistent m) where
    id-layout : read_word 4 1 layout ≡ m.id
    id-layout = read_word-append 4 1 m.id (byte_of_type m.type ∷ []) _ refl c.id_fits

    key_length-layout : read_word 4 5 layout ≡ m.key_length
    unfolding word
    key_length-layout =
        read_word-append 4 5 m.key_length (byte_of_type m.type ∷ word 4 m.id) _ refl
          c.key_length_fits

    value_length-layout : read_word 4 9 layout ≡ m.value_length
    unfolding word
    value_length-layout =
        read_word-append 4 9 m.value_length
          (byte_of_type m.type ∷ (word 4 m.id ++ word 4 m.key_length)) _ refl c.value_length_fits

  drop-layout : drop 13 layout ≡ body
  unfolding word
  drop-layout = refl

module _ (m : Message) (rest : Bytes) (c : IsConsistent m) where
  length-layout : length (layout m rest) ≡ 13 + m.key_length + m.value_length + length rest
  unfolding word
  length-layout = omega (
    arith,
    length-append m.key (m.value ++ rest),
    length-append m.value rest,
    c.key_length_eq,
    c.value_length_eq,
  )

  key-body : take m.key_length (body m rest) ≡ m.key
  key-body = take-append_at m.key_length m.key (m.value ++ rest) c.key_length_eq

  value-layout : take m.value_length (drop (13 + m.key_length) (layout m rest)) ≡ m.value
  value-layout = rw (drop-add 13 m.key_length (layout m rest)) (
      rw (drop-layout m rest) (
        rw (drop-append_at m.key_length m.key (m.value ++ rest) c.key_length_eq)
          (take-append_at m.value_length m.value rest c.value_length_eq)))

  deserialize-layout :
      m.key_length ≤ max_key_size
      → m.value_length ≤ max_value_size
      → deserialize (layout m rest) ≡ ok m
  unfolding deserialize
  deserialize-layout hk hv =
      rw (le→ltb_false (length (layout m rest)) 13 (omega (arith, length-layout))) (
        simp
          (
            id-layout m rest c,
            key_length-layout m rest c,
            value_length-layout m rest c,
            value-layout,
            drop-layout m rest,
            key-body,
            type_of_byte-byte_of_type m.type c.type_fits,
          )
          (rw (
            le→ltb_false 256 m.key_length hk,
            le→ltb_false 1048576 m.value_length hv,
            le→ltb_false (length (layout m rest)) (13 + m.key_length + m.value_length)
                (omega (arith, length-layout)),
          )))

  -- A consistent message whose key and value are within the protocol's limits, written and
  -- followed by any bytes, is read back as it was.
  pub deserialize-serialize_message :
      m.key_length ≤ max_key_size
      → m.value_length ≤ max_value_size
      → deserialize (serialize m ++ rest) ≡ ok m
  deserialize-serialize_message hk hv = rw (serialize-append m rest) (deserialize-layout hk hv)
