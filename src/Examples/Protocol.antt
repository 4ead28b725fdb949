-- ===== src/Examples/Protocol.antt =====
-- The protocol's theorems at concrete inputs.
use custom_database.Prelude.{◌≡◌, refl, arith, [], ◌∷◌, ◌++◌, Bytes, text, ok, throw, take, All}
use custom_database.Bytes.Words.{IsByte, word, read_word, of_word}
use custom_database.Protocol.Message.{
  Message, put, new_message, serialize, deserialize, message_size,
}
use custom_database.Protocol.MessageLaws.{IsConsistent, deserialize-serialize_message}
use custom_database.Protocol.MessageParse.{serialize-deserialize_message}

-- The request `put("k", "v")`, and its bytes.
abbrev request : Message
request = record new_message {
  type = put;
  id = 9;
  key_length = 1;
  value_length = 1;
  key = text "k";
  value = text "v";
}

abbrev request_bytes : Bytes
request_bytes =
    2 ∷ (9 ∷ 0 ∷ 0 ∷ 0 ∷ []) ++ ((1 ∷ 0 ∷ 0 ∷ 0 ∷ []) ++ ((1 ∷ 0 ∷ 0 ∷ 0 ∷ []) ++ (107 ∷ 118 ∷ [])))

request-IsConsistent : IsConsistent request
request-IsConsistent = record {
  type_fits = tt;
  id_fits = omega arith;
  key_length_fits = omega arith;
  value_length_fits = omega arith;
  key_length_eq = refl;
  value_length_eq = refl;
}

serialize-request : serialize request ≡ request_bytes
unfolding serialize word
serialize-request = refl

deserialize-request_bytes : deserialize request_bytes ≡ ok request
unfolding deserialize read_word of_word
deserialize-request_bytes = refl

-- A message whose key is longer than the protocol allows.
abbrev long_key : Bytes
long_key = 1 ∷ (0 ∷ 0 ∷ 0 ∷ 0 ∷ []) ++ ((1 ∷ 1 ∷ 0 ∷ 0 ∷ []) ++ (0 ∷ 0 ∷ 0 ∷ 0 ∷ []))

deserialize-long_key : deserialize long_key ≡ throw (text "Invalid message: key or value too large")
unfolding deserialize read_word of_word
deserialize-long_key = refl

request_bytes-IsByte : All IsByte request_bytes
request_bytes-IsByte = ground arith

deserialize-serialize_message_example : deserialize (serialize request ++ text "more") ≡ ok request
deserialize-serialize_message_example =
    deserialize-serialize_message request (text "more") request-IsConsistent (omega arith)
      (omega arith)

serialize-deserialize_message_example :
    IsConsistent request × (serialize request ≡ take (message_size request) request_bytes)
serialize-deserialize_message_example =
    serialize-deserialize_message request_bytes request request_bytes-IsByte
      deserialize-request_bytes
