-- ===== src/Protocol/MessageParse.antt =====
-- What a successful `Message::deserialize` says of its input.
use mathlib.Core.Path.{subst}
use native.Mathlib.Nat.{zero-add}
use custom_database.Prelude.{
  ℕ, ◌+◌, ◌≤◌, ◌<◌, ◌≡◌, refl, sym, ◌∙◌, arith, ◌∷◌, ◌++◌, append_assoc, Bytes, ok, length, get_or,
  take, drop, All, length-take, length-drop,
}
use custom_database.Bytes.Words.{read_word, IsByte}
use custom_database.Bytes.Fields.{word-read_word, read_word-lt, cut, first_byte, first_byte-lt}
use custom_database.Protocol.Message.{
  byte_of_type, type_of_byte, Message, serialize, deserialize, message_size, max_key_size,
  max_value_size,
}
use custom_database.Protocol.MessageLaws.{IsType, IsConsistent}

module _ (bs : Bytes) where
  -- The message that the fields of the input make up.
  abbrev pub parsed : Message
  parsed = record {
    type = type_of_byte (get_or bs 0 0);
    id = read_word 4 1 bs;
    key_length = read_word 4 5 bs;
    value_length = read_word 4 9 bs;
    key = take (read_word 4 5 bs) (drop 13 bs);
    value = take (read_word 4 9 bs) (drop (13 + read_word 4 5 bs) bs);
  }

  abbrev pub FitsMessage : Type 0
  FitsMessage =
      (13 ≤ length bs)
      × (read_word 4 5 bs ≤ max_key_size)
      × (read_word 4 9 bs ≤ max_value_size)
      × (13 + read_word 4 5 bs + read_word 4 9 bs ≤ length bs)

  -- The input is accepted if it is as long as its header and the lengths in it say, and these are
  -- within the limits.
  pub deserialize_accepts : FitsMessage → deserialize bs ≡ ok parsed
  unfolding deserialize
  deserialize_accepts h = ground arith

  pub deserialize_inv : {r : Message} → deserialize bs ≡ ok r → FitsMessage × (parsed ≡ r)
  unfolding deserialize
  deserialize_inv h = ground arith

byte_of_type-type_of_byte : (b : ℕ) → byte_of_type (type_of_byte b) ≡ b
unfolding byte_of_type type_of_byte
byte_of_type-type_of_byte b = ground arith

type_of_byte-IsType : (b : ℕ) → b < 256 → IsType (type_of_byte b)
unfolding type_of_byte
type_of_byte-IsType b h = ground arith

header :
    (bs : Bytes)
    → 13 ≤ length bs
    → take 13 bs
      ≡ get_or bs 0 0 ∷ (take 4 (drop 1 bs) ++ (take 4 (drop 5 bs) ++ take 4 (drop 9 bs)))
header bs h = cut 0 1 12 bs ∙ rw (cut 1 4 8 bs, cut 5 4 4 bs, ← first_byte bs (omega arith)) refl

-- The bytes of an accepted message are those that the message is written as.
module _ (bs : Bytes) (bytes : All IsByte bs) (h : FitsMessage bs) where
  abbrev keys : ℕ
  keys = read_word 4 5 bs

  abbrev values : ℕ
  values = read_word 4 9 bs

  pub parsed-IsConsistent : IsConsistent (parsed bs)
  parsed-IsConsistent = record {
    type_fits = type_of_byte-IsType (get_or bs 0 0) (first_byte-lt bs bytes);
    id_fits = read_word-lt 4 1 bs bytes (omega arith);
    key_length_fits = read_word-lt 4 5 bs bytes (omega arith);
    value_length_fits = read_word-lt 4 9 bs bytes (omega arith);
    key_length_eq = sym (length-take keys (drop 13 bs) (omega (arith, length-drop 13 bs)));
    value_length_eq =
        sym (length-take values (drop (13 + keys) bs) (omega (arith, length-drop (13 + keys) bs)));
  }

  pub serialize-parsed : serialize (parsed bs) ≡ take (message_size (parsed bs)) bs
  unfolding serialize message_size
  serialize-parsed =
      rw
        (
          word-read_word 4 1 bs bytes (omega arith),
          word-read_word 4 5 bs bytes (omega arith),
          word-read_word 4 9 bs bytes (omega arith),
          byte_of_type-type_of_byte,
          cut 0 (13 + keys) values bs,
          cut 0 13 keys bs,
          header bs (omega arith),
        )
        (simp (append_assoc, zero-add))

-- A successful `deserialize` of bytes returns a consistent message, and writing the message gives
-- back the bytes that were read.
pub serialize-deserialize_message :
    (bs : Bytes) (m : Message)
    → All IsByte bs
    → deserialize bs ≡ ok m
    → IsConsistent m × (serialize m ≡ take (message_size m) bs)
serialize-deserialize_message bs m bytes e =
    let (fits, p) = deserialize_inv bs e in
    subst (λ r. IsConsistent r × (serialize r ≡ take (message_size r) bs)) p
      (parsed-IsConsistent bs bytes fits, serialize-parsed bs bytes fits)
