-- ===== src/Wal/RecordParse.antt =====
-- What a successful `WALRecord::deserialize` says of its input.
use mathlib.Core.Path.{subst}
use native.Mathlib.Nat.{zero-add}
use custom_database.Prelude.{
  ℕ, ◌+◌, ◌≤◌, ◌<◌, ◌≡◌, refl, sym, ◌∙◌, arith, ◌∷◌, ◌++◌, append_assoc, Bytes, ok, length, get_or,
  take, drop, All, le→ltb_false, length-take, length-drop,
}
use custom_database.Bytes.Words.{read_word, IsByte}
use custom_database.Bytes.Fields.{word-read_word, read_word-lt, cut, first_byte, first_byte-lt}
use custom_database.Wal.Record.{
  byte_of_type, type_of_byte, WalRecord, serialize, deserialize, record_size,
}
use custom_database.Wal.RecordLaws.{IsType, IsConsistent}

module _ (bs : Bytes) where
  -- The record that the fields of the input make up.
  abbrev pub parsed : WalRecord
  parsed = record {
    type = type_of_byte (get_or bs 0 0);
    timestamp = read_word 8 1 bs;
    key_length = read_word 4 17 bs;
    value_length = read_word 4 21 bs;
    key = take (read_word 4 17 bs) (drop 25 bs);
    value = take (read_word 4 21 bs) (drop (25 + read_word 4 17 bs) bs);
    transaction_id = read_word 8 9 bs;
  }

  abbrev pub FitsRecord : Type 0
  FitsRecord = (25 ≤ length bs) × (25 + read_word 4 17 bs + read_word 4 21 bs ≤ length bs)

  -- The input is accepted if it is as long as its header and the lengths in it say.
  pub deserialize_accepts : FitsRecord → deserialize bs ≡ ok parsed
  unfolding deserialize
  deserialize_accepts h = rw (le→ltb_false (length bs) 25 h.0, le→ltb_false _ _ h.1)

  pub deserialize_inv : {r : WalRecord} → deserialize bs ≡ ok r → FitsRecord × (parsed ≡ r)
  unfolding deserialize
  deserialize_inv h = ground arith

byte_of_type-type_of_byte : (b : ℕ) → byte_of_type (type_of_byte b) ≡ b
unfolding byte_of_type type_of_byte
byte_of_type-type_of_byte b = ground arith

type_of_byte-IsType : (b : ℕ) → b < 256 → IsType (type_of_byte b)
unfolding type_of_byte
type_of_byte-IsType b h = ground arith

header :
    (bs : Bytes)
    → 25 ≤ length bs
    → take 25 bs
      ≡ get_or bs 0 0
        ∷ (take 8 (drop 1 bs)
            ++ (take 8 (drop 9 bs) ++ (take 4 (drop 17 bs) ++ take 4 (drop 21 bs))))
header bs h =
    cut 0 1 24 bs
    ∙ rw (cut 1 8 16 bs, cut 9 8 8 bs, cut 17 4 4 bs, ← first_byte bs (omega arith)) refl

-- The bytes of an accepted record are those that the record is written as.
module _ (bs : Bytes) (bytes : All IsByte bs) (h : FitsRecord bs) where
  abbrev keys : ℕ
  keys = read_word 4 17 bs

  abbrev values : ℕ
  values = read_word 4 21 bs

  pub parsed-IsConsistent : IsConsistent (parsed bs)
  parsed-IsConsistent = record {
    type_fits = type_of_byte-IsType (get_or bs 0 0) (first_byte-lt bs bytes);
    timestamp_fits = read_word-lt 8 1 bs bytes (omega arith);
    transaction_id_fits = read_word-lt 8 9 bs bytes (omega arith);
    key_length_fits = read_word-lt 4 17 bs bytes (omega arith);
    value_length_fits = read_word-lt 4 21 bs bytes (omega arith);
    key_length_eq = sym (length-take keys (drop 25 bs) (omega (arith, length-drop 25 bs)));
    value_length_eq =
        sym (length-take values (drop (25 + keys) bs) (omega (arith, length-drop (25 + keys) bs)));
  }

  pub serialize-parsed : serialize (parsed bs) ≡ take (record_size (parsed bs)) bs
  unfolding serialize record_size
  serialize-parsed =
      rw
        (
          word-read_word 8 1 bs bytes (omega arith),
          word-read_word 8 9 bs bytes (omega arith),
          word-read_word 4 17 bs bytes (omega arith),
          word-read_word 4 21 bs bytes (omega arith),
          byte_of_type-type_of_byte,
          cut 0 (25 + keys) values bs,
          cut 0 25 keys bs,
          header bs (omega arith),
        )
        (simp (append_assoc, zero-add))

-- A successful `deserialize` of bytes returns a consistent record, and writing the record gives
-- back the bytes that were read.
pub serialize-deserialize_record :
    (bs : Bytes) (r : WalRecord)
    → All IsByte bs
    → deserialize bs ≡ ok r
    → IsConsistent r × (serialize r ≡ take (record_size r) bs)
serialize-deserialize_record bs r bytes e =
    let (fits, p) = deserialize_inv bs e in
    subst (λ r. IsConsistent r × (serialize r ≡ take (record_size r) bs)) p
      (parsed-IsConsistent bs bytes fits, serialize-parsed bs bytes fits)
