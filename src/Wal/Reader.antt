-- ===== src/Wal/Reader.antt =====
-- The loop of `WriteAheadLog::read_all_records` over the contents of a log file, and the frames
-- that `write_record_to_file` writes.
use custom_database.Prelude.{
  ℕ, zero, suc, ◌*◌, ◌%◌, ◌^◌, List, [], ◌∷◌, ◌++◌, Bytes, ok, throw, length, take, drop, ltb,
  if◌then◌else◌,
}
use custom_database.Bytes.Words.{word, read_word}
use custom_database.Wal.Record.{WalRecord, serialize, deserialize}

-- The limit on a record that is read back.
abbrev pub max_record_size : ℕ
max_record_size = 1024 * 1024

-- The size and the data of one record, as `write_record_to_file` writes them.
unfoldable pub frame : WalRecord → Bytes
frame r = word 4 (length (serialize r) % 2 ^ 32) ++ serialize r

-- Each of the four tests ends the loop.
unfoldable pub read_loop : ℕ → Bytes → List WalRecord
read_loop zero bytes = []
read_loop (suc fuel) bytes =
    let record_size = read_word 4 0 bytes in
    let rest = drop 4 bytes in
    let more = read_loop fuel (drop record_size rest) in
    if ltb (length bytes) 4
    then []
    else if ltb max_record_size record_size
    then []
    else if ltb (length rest) record_size
    then []
    else elim (deserialize (take record_size rest)) [ ok r ↦ r ∷ more | throw what ↦ [] ]

-- Each round takes four bytes or more, so this fuel is enough.
unfoldable pub read_records : Bytes → List WalRecord
unfolding read_loop
read_records bytes = read_loop (length bytes) bytes
