-- ===== src/Wal/RecordLaws.antt =====
-- Records through `WALRecord::serialize` and `WALRecord::deserialize`.
use custom_database.Prelude.{
  ◌+◌, ◌^◌, ◌<◌, ◌≡◌, ◌≢◌, refl, arith, [], ◌∷◌, ◌++◌, append_assoc, Bytes, ok, length, take, drop,
  le→ltb_false, length-append, drop-add, take-append_at, drop-append_at,
}
use custom_database.Bytes.Words.{word, read_word, read_word-append}
use custom_database.Wal.Record.{
  RecordType, put, delete, commit, checkpoint, other, byte_of_type, type_of_byte, WalRecord,
  serialize, deserialize, record_size,
}

-- A value of the enumeration: one of the four names, or another byte.
abbrev pub IsType : RecordType → Type 0
IsType (other b) = (b < 256) × (b ≢ 1) × (b ≢ 2) × (b ≢ 3) × (b ≢ 4)
IsType _ = Unit

-- The lengths are those of the strings, and each field fits its type.
pub record IsConsistent (r : WalRecord) : Type 0 where
  pub type_fits : IsType r.type
  pub timestamp_fits : r.timestamp < 256 ^ 8
  pub transaction_id_fits : r.transaction_id < 256 ^ 8
  pub key_length_fits : r.key_length < 256 ^ 4
  pub value_length_fits : r.value_length < 256 ^ 4
  pub key_length_eq : r.key_length ≡ length r.key
  pub value_length_eq : r.value_length ≡ length r.value

type_of_byte-byte_of_type : (t : RecordType) → IsType t → type_of_byte (byte_of_type t) ≡ t
unfolding type_of_byte byte_of_type
type_of_byte-byte_of_type (other b) h = ground arith
type_of_byte-byte_of_type put h = refl
type_of_byte-byte_of_type delete h = refl
type_of_byte-byte_of_type commit h = refl
type_of_byte-byte_of_type checkpoint h = refl

pub length-serialize_record :
    (r : WalRecord) → IsConsistent r → length (serialize r) ≡ record_size r
unfolding serialize record_size word
length-serialize_record r c =
    omega (arith, length-append r.key r.value, c.key_length_eq, c.value_length_eq)

-- What stands in front of each field, with what follows the record.
module _ (r : WalRecord) (rest : Bytes) where
  abbrev body : Bytes
  body = r.key ++ (r.value ++ rest)

  abbrev layout : Bytes
  layout =
      byte_of_type r.type
      ∷ (word 8 r.timestamp
          ++ (word 8 r.transaction_id ++ (word 4 r.key_length ++ (word 4 r.value_length ++ body))))

  serialize-append : serialize r ++ rest ≡ layout
  unfolding serialize word
  serialize-append = simp append_assoc

  module _ (c : IsConsistent r) where
    timestamp-layout : read_word 8 1 layout ≡ r.timestamp
    timestamp-layout =
        read_word-append 8 1 r.timestamp (byte_of_type r.type ∷ []) _ refl c.timestamp_fits

    transaction_id-layout : read_word 8 9 layout ≡ r.transaction_id
    unfolding word
    transaction_id-layout =
        read_word-append 8 9 r.transaction_id (byte_of_type r.type ∷ word 8 r.timestamp) _ refl
          c.transaction_id_fits

    key_length-layout : read_word 4 17 layout ≡ r.key_length
    unfolding word
    key_length-layout =
        read_word-append 4 17 r.key_length
          (byte_of_type r.type ∷ (word 8 r.timestamp ++ word 8 r.transaction_id)) _ refl
          c.key_length_fits

    value_length-layout : read_word 4 21 layout ≡ r.value_length
    unfolding word
    value_length-layout =
        read_word-append 4 21 r.value_length
          (byte_of_type r.type
            ∷ (word 8 r.timestamp ++ (word 8 r.transaction_id ++ word 4 r.key_length)))
          _ refl c.value_length_fits

  drop-layout : drop 25 layout ≡ body
  unfolding word
  drop-layout = refl

length-layout :
    (r : WalRecord) (rest : Bytes)
    → IsConsistent r
    → length (layout r rest) ≡ 25 + r.key_length + r.value_length + length rest
unfolding word
length-layout r rest c = omega (
  arith,
  length-append r.key (r.value ++ rest),
  length-append r.value rest,
  c.key_length_eq,
  c.value_length_eq,
)

key-body : (r : WalRecord) (rest : Bytes) → IsConsistent r → take r.key_length (body r rest) ≡ r.key
key-body r rest c = take-append_at r.key_length r.key (r.value ++ rest) c.key_length_eq

value-layout :
    (r : WalRecord) (rest : Bytes)
    → IsConsistent r
    → take r.value_length (drop (25 + r.key_length) (layout r rest)) ≡ r.value
value-layout r rest c = rw (drop-add 25 r.key_length (layout r rest)) (
    rw (drop-layout r rest) (
      rw (drop-append_at r.key_length r.key (r.value ++ rest) c.key_length_eq)
        (take-append_at r.value_length r.value rest c.value_length_eq)))

deserialize-layout :
    (r : WalRecord) (rest : Bytes) → IsConsistent r → deserialize (layout r rest) ≡ ok r
unfolding deserialize
deserialize-layout r rest c =
    rw (le→ltb_false (length (layout r rest)) 25 (omega (arith, length-layout r rest c))) (
      simp
        (
          timestamp-layout r rest c,
          transaction_id-layout r rest c,
          key_length-layout r rest c,
          value_length-layout r rest c,
          value-layout r rest c,
          drop-layout r rest,
          key-body r rest c,
          type_of_byte-byte_of_type r.type c.type_fits,
        )
        (rw (
          le→ltb_false (length (layout r rest)) (25 + r.key_length + r.value_length)
            (omega (arith, length-layout r rest c)))))

-- A consistent record, written and followed by any bytes, is read back as it was.
pub deserialize-serialize_record :
    (r : WalRecord) (rest : Bytes) → IsConsistent r → deserialize (serialize r ++ rest) ≡ ok r
deserialize-serialize_record r rest c = rw (serialize-append r rest) (deserialize-layout r rest c)
