-- ===== src/Database/Fits.antt =====
-- Which records the operations of a transaction log, and whether the log's reader takes them back.
use custom_database.Prelude.{ℕ, ◌+◌, ◌^◌, ◌≤◌, ◌<◌, refl, arith, [], Bytes, length}
use custom_database.Wal.Record.{record_size}
use custom_database.Wal.Reader.{max_record_size}
use custom_database.Wal.ReaderLaws.{IsReadable}
use custom_database.Wal.Log.{stamp}
use custom_database.Wal.Accepted.{checkpoint_record}
use custom_database.Database.State.{Transaction}
use custom_database.Database.Transaction.{put_record, delete_record, commit_record}

-- What a client may put: the identifier and the clock fit 64 bits, and the record fits the reader.
abbrev pub Fits : ℕ → Transaction → Bytes → Bytes → Type 0
Fits now t key value =
    (now < 2 ^ 64) × (t.id < 2 ^ 64) × (25 + length key + length value ≤ max_record_size)

pub put_record-IsReadable :
    (now : ℕ) (t : Transaction) (key value : Bytes)
    → Fits now t key value
    → IsReadable (stamp now (put_record t.id key value))
unfolding stamp put_record record_size
put_record-IsReadable now t key value h = record {
  consistent = record {
    type_fits = tt;
    timestamp_fits = omega arith;
    transaction_id_fits = omega arith;
    key_length_fits = omega arith;
    value_length_fits = omega arith;
    key_length_eq = omega arith;
    value_length_eq = omega arith;
  };
  within = omega arith;
}

pub delete_record-IsReadable :
    (now : ℕ) (t : Transaction) (key : Bytes)
    → Fits now t key []
    → IsReadable (stamp now (delete_record t.id key))
unfolding stamp delete_record record_size
delete_record-IsReadable now t key h = record {
  consistent = record {
    type_fits = tt;
    timestamp_fits = omega arith;
    transaction_id_fits = omega arith;
    key_length_fits = omega arith;
    value_length_fits = omega arith;
    key_length_eq = omega arith;
    value_length_eq = refl;
  };
  within = omega arith;
}

pub commit_record-IsReadable :
    (now : ℕ) (t : Transaction) → Fits now t [] [] → IsReadable (stamp now (commit_record t.id))
unfolding stamp commit_record record_size
commit_record-IsReadable now t h = record {
  consistent = record {
    type_fits = tt;
    timestamp_fits = omega arith;
    transaction_id_fits = omega arith;
    key_length_fits = omega arith;
    value_length_fits = omega arith;
    key_length_eq = refl;
    value_length_eq = refl;
  };
  within = omega arith;
}

-- A checkpoint whose path fits the reader.
abbrev pub FitsPath : ℕ → Bytes → Type 0
FitsPath now path = (now < 2 ^ 64) × (25 + length path ≤ max_record_size)

pub checkpoint_record-IsReadable :
    (now : ℕ) (path : Bytes) → FitsPath now path → IsReadable (checkpoint_record now path)
unfolding record_size
checkpoint_record-IsReadable now path h = record {
  consistent = record {
    type_fits = tt;
    timestamp_fits = omega arith;
    transaction_id_fits = omega arith;
    key_length_fits = omega arith;
    value_length_fits = omega arith;
    key_length_eq = omega arith;
    value_length_eq = refl;
  };
  within = omega arith;
}
