-- ===== src/Examples/Wal.antt =====
-- The log's theorems at concrete inputs.
use custom_database.Prelude.{
  ℕ, zero, suc, ◌^◌, ◌<◌, ◌≡◌, refl, sym, arith, true, [], ◌∷◌, ◌++◌, Bytes, text, ok, length, take,
  leb, All, if◌then◌else◌,
}
use custom_database.Bytes.Words.{IsByte, word, read_word, of_word}
use custom_database.Wal.Record.{WalRecord, commit, new_record, serialize, deserialize, record_size}
use custom_database.Wal.RecordLaws.{IsConsistent, deserialize-serialize_record}
use custom_database.Wal.RecordParse.{serialize-deserialize_record}
use custom_database.Wal.File.{accepts, fails}
use custom_database.Wal.Reader.{max_record_size, frame, read_loop, read_records}
use custom_database.Wal.ReaderLaws.{frames, read_loop-fuel}
use custom_database.Wal.Crash.{complete, read_records-cut, read_records-oversized}
use custom_database.Wal.Log.{AppendIo, append_record, stamp}
use custom_database.Wal.Append.{log_bytes, reached, append_record_atomic}
use custom_database.Wal.Accepted.{accepting, append_record_unflushed}
use custom_database.Examples.Data.{
  empty_log, empty_log-Holds, small, small-IsReadable, two, two-IsReadable,
}

deserialize-serialize_record_example :
    deserialize (serialize (stamp 7 small) ++ text "rest") ≡ ok (stamp 7 small)
deserialize-serialize_record_example =
    deserialize-serialize_record (stamp 7 small) (text "rest") small-IsReadable.consistent

-- The bytes of a commit record with the key "A", which the log never writes.
abbrev commit_bytes : Bytes
commit_bytes =
    3 ∷ (7 ∷ 0 ∷ 0 ∷ 0 ∷ 0 ∷ 0 ∷ 0 ∷ 0 ∷ [])
    ++ ((1 ∷ 0 ∷ 0 ∷ 0 ∷ 0 ∷ 0 ∷ 0 ∷ 0 ∷ [])
        ++ ((1 ∷ 0 ∷ 0 ∷ 0 ∷ []) ++ ((0 ∷ 0 ∷ 0 ∷ 0 ∷ []) ++ (65 ∷ []))))

abbrev commit_with_key : WalRecord
commit_with_key = record new_record {
  type = commit;
  timestamp = 7;
  key_length = 1;
  key = 65 ∷ [];
  transaction_id = 1;
}

commit_bytes-IsByte : All IsByte commit_bytes
commit_bytes-IsByte = ground arith

deserialize-commit_bytes : deserialize commit_bytes ≡ ok commit_with_key
unfolding deserialize read_word of_word
deserialize-commit_bytes = refl

serialize-deserialize_record_example :
    IsConsistent commit_with_key
    × (serialize commit_with_key ≡ take (record_size commit_with_key) commit_bytes)
serialize-deserialize_record_example =
    serialize-deserialize_record commit_bytes commit_with_key commit_bytes-IsByte
      deserialize-commit_bytes

read_loop-fuel_example : read_loop 40 commit_bytes ≡ read_loop 90 commit_bytes
read_loop-fuel_example = read_loop-fuel 40 90 commit_bytes (omega arith) (omega arith)

read_records-cut_example : read_records (take 40 (frames two)) ≡ complete 40 two
read_records-cut_example = read_records-cut two 40 two-IsReadable

append_record_atomic_example :
    let io : AppendIo = record (accepting 7) { flush = fails 12 } in
    let size = length (frame (stamp 7 small)) in
    read_records (log_bytes (append_record io small empty_log).0)
    ≡ (if leb size (reached accepts accepts (fails 12) size) then stamp 7 small ∷ [] else [])
append_record_atomic_example =
    append_record_atomic 7 accepts accepts (fails 12) small empty_log [] empty_log-Holds tt
      small-IsReadable

small-frame : 12 < length (frame (stamp 7 small))
unfolding frame serialize stamp word
small-frame = omega arith

append_record_unflushed_example :
    let io : AppendIo = record (accepting 7) { flush = fails 12 } in
    ((append_record io small empty_log).1 ≡ true)
    × (read_records (log_bytes (append_record io small empty_log).0) ≡ [])
append_record_unflushed_example =
    append_record_unflushed 7 small empty_log-Holds 12 tt small-IsReadable small-frame

unfoldable zeros : ℕ → Bytes
zeros zero = []
zeros (suc n) = 0 ∷ zeros n

length-zeros : (n : ℕ) → length (zeros n) ≡ n
unfolding zeros
length-zeros zero = refl
length-zeros (suc n) = omega (arith, length-zeros n)

-- A value of one MiB, which the server accepts.
abbrev large : WalRecord
large = record new_record { value = zeros 1048576; value_length = 1048576 }

large-IsConsistent : IsConsistent large
large-IsConsistent = record {
  type_fits = tt;
  timestamp_fits = omega arith;
  transaction_id_fits = omega arith;
  key_length_fits = omega arith;
  value_length_fits = omega arith;
  key_length_eq = refl;
  value_length_eq = sym (length-zeros 1048576);
}

large-size : (max_record_size < record_size large) × (record_size large < 2 ^ 32)
unfolding record_size
large-size = (omega arith, omega arith)

read_records-oversized_example :
    read_records (frames two ++ (frame large ++ frame (stamp 7 small))) ≡ two
read_records-oversized_example =
    read_records-oversized two large (frame (stamp 7 small)) two-IsReadable large-IsConsistent
      large-size.0 large-size.1
