-- ===== src/Wal/Record.antt =====
-- `WALRecord` of include/storage/wal.h, and its serialisation in src/storage/wal.cpp.
use custom_database.Prelude.{
  ℕ, ◌+◌, ◌%◌, ◌^◌, ◌*◌, [], ◌∷◌, ◌++◌, Bytes, text, Result, ok, throw, length, get_or, take, drop,
  ltb, ◌==◌, if◌then◌else◌,
}
use custom_database.Bytes.Words.{word, read_word}

-- `enum class WALRecordType : uint8_t`. A byte cast to it may be none of its four names: `other`.
pub data RecordType : Type 0 where
  put delete commit checkpoint : RecordType
  other : ℕ → RecordType

unfoldable pub byte_of_type : RecordType → ℕ
byte_of_type put = 1
byte_of_type delete = 2
byte_of_type commit = 3
byte_of_type checkpoint = 4
byte_of_type (other b) = b

-- `static_cast<WALRecordType>(b)`.
unfoldable pub type_of_byte : ℕ → RecordType
type_of_byte b =
    if b == 1
    then put
    else if b == 2
    then delete
    else if b == 3
    then commit
    else if b == 4
    then checkpoint
    else other b

pub record WalRecord : Type 0 where
  pub type : RecordType
  pub timestamp : ℕ
  pub key_length : ℕ
  pub value_length : ℕ
  pub key : Bytes
  pub value : Bytes
  pub transaction_id : ℕ

-- `WALRecord()`.
abbrev pub new_record : WalRecord
new_record = record {
  type = put;
  timestamp = 0;
  key_length = 0;
  value_length = 0;
  key = [];
  value = [];
  transaction_id = 0;
}

-- `static_cast<uint32_t>(s.length())`.
abbrev pub length_u32 : Bytes → ℕ
length_u32 s = length s % 2 ^ 32

unfoldable pub serialize : WalRecord → Bytes
unfolding byte_of_type
serialize r =
    byte_of_type r.type
    ∷ (word 8 r.timestamp
        ++ (word 8 r.transaction_id
            ++ (word 4 r.key_length ++ (word 4 r.value_length ++ (r.key ++ r.value)))))

-- `WALRecord::size`.
unfoldable pub record_size : WalRecord → ℕ
record_size r = 1 + 8 * 2 + 4 * 2 + r.key_length + r.value_length

-- The offsets are those that `offset` goes through: 1, 9, 17, 21, 25.
unfoldable pub deserialize : Bytes → Result WalRecord
unfolding type_of_byte
deserialize bytes =
    if ltb (length bytes) 25
    then throw (text "Invalid WAL record: too short")
    else let type = type_of_byte (get_or bytes 0 0) in
      let timestamp = read_word 8 1 bytes in
      let transaction_id = read_word 8 9 bytes in
      let key_length = read_word 4 17 bytes in
      let value_length = read_word 4 21 bytes in
      if ltb (length bytes) (25 + key_length + value_length)
      then throw (text "Invalid WAL record: incomplete data")
      else ok (record {
        type = type;
        timestamp = timestamp;
        key_length = key_length;
        value_length = value_length;
        key = take key_length (drop 25 bytes);
        value = take value_length (drop (25 + key_length) bytes);
        transaction_id = transaction_id;
      })
