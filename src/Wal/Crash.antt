-- ===== src/Wal/Crash.antt =====
-- What the reader makes of a log that was cut off by a crash, or that holds a record beyond its
-- limit.
use custom_database.Prelude.{
  ℕ, ◌+◌, ◌-◌, ◌%◌, ◌^◌, ◌≤◌, ◌<◌, ◌≡◌, refl, sym, ap, ◌∙◌, arith, List, [], ◌∷◌, ◌++◌,
  append_assoc, append-nil, Bytes, length, take, take-nil, leb, ltb, ltb→lt, ltb_false→le,
  length-take, take-append_of_le, take-append_add, All, Bool-cases, inl, inr, if◌then◌else◌,
}
use custom_database.Bytes.Words.{word, length-word}
use custom_database.Wal.Record.{WalRecord, serialize, record_size}
use custom_database.Wal.RecordLaws.{IsConsistent, length-serialize_record}
use custom_database.Wal.Reader.{max_record_size, frame, read_loop, read_records}
use custom_database.Wal.ReaderLaws.{
  IsReadable, frames, frame_size, length-frame, read_records-frame, read_records-frames,
  round_too_short, round_too_large, round_incomplete,
}

-- A log ends in the middle of a frame when the machine stopped during a write: a proper prefix of
-- a frame gives no record.
module _ {r : WalRecord} (h : IsReadable r) where
  open h use {consistent}

  abbrev size_word : Bytes
  size_word = word 4 (length (serialize r) % 2 ^ 32)

  torn_body :
      (fuel n : ℕ)
      → n < length (serialize r)
      → read_loop fuel (size_word ++ take n (serialize r)) ≡ []
  torn_body fuel n short = rw append-nil at (
      round_incomplete (length (serialize r) % 2 ^ 32) (take n (serialize r)) [] (omega arith) fuel
        (rw append-nil (omega (arith, length-take n (serialize r) (omega arith), frame_size h))))

  take-frame : (n : ℕ) → 4 ≤ n → take n (frame r) ≡ size_word ++ take (n - 4) (serialize r)
  unfolding frame
  take-frame n few =
      let e : n ≡ length size_word + (n - 4) =
        omega (arith, length-word 4 (length (serialize r) % 2 ^ 32)) in
      ap (λ k. take k (size_word ++ serialize r)) e
      ∙ take-append_add (n - 4) size_word (serialize r)

  read_loop-torn : (fuel n : ℕ) → n < length (frame r) → read_loop fuel (take n (frame r)) ≡ []
  read_loop-torn fuel n short = elim (Bool-cases (ltb n 4)) [
    | inl few ↦
        round_too_short fuel (take n (frame r))
          (omega (arith, length-take n (frame r) (omega arith), ltb→lt n 4 few))
    | inr some_size ↦ rw (take-frame n (ltb_false→le n 4 some_size)) (
        torn_body fuel (n - 4) (
          omega (
            arith,
            ltb_false→le n 4 some_size,
            length-frame h,
            length-serialize_record r consistent,
          )))
  ]

-- The records whose frames lie wholly within the first `n` bytes of the log.
unfoldable pub complete : ℕ → List WalRecord → List WalRecord
complete n [] = []
complete n (r ∷ rs) =
    let rest = complete (n - length (frame r)) rs in
    if leb (length (frame r)) n then r ∷ rest else []

pub read_records-nil : read_records [] ≡ []
unfolding read_records read_loop
read_records-nil = refl

pub read_records-torn :
    {r : WalRecord} (n : ℕ)
    → IsReadable r
    → n < length (frame r)
    → read_records (take n (frame r)) ≡ []
unfolding read_records
read_records-torn {r} n h short = read_loop-torn h (length (take n (frame r))) n short

-- Whatever number of bytes of the frames of readable records reached the disk, the reader returns
-- exactly the records whose frames reached it whole, in order.
pub read_records-cut :
    (rs : List WalRecord) (n : ℕ)
    → All IsReadable rs
    → read_records (take n (frames rs)) ≡ complete n rs
unfolding complete frames
read_records-cut [] n h = ap read_records (sym (take-nil n)) ∙ read_records-nil
read_records-cut (r ∷ rs) n (hr, hrs) = elim (Bool-cases (leb (length (frame r)) n)) [
  | inl whole ↦
      let m = n - length (frame r) in
      let e : n ≡ length (frame r) + m = ground arith in
      rw whole (
        ap (λ k. read_records (take k (frame r ++ frames rs))) e
        ∙ ap read_records (take-append_add m (frame r) (frames rs))
        ∙ read_records-frame hr (take m (frames rs))
        ∙ ap (λ t. r ∷ t) (read_records-cut rs m hrs))
  | inr torn ↦
      let short : n < length (frame r) = ground arith in
      rw (torn, take-append_of_le n (frame r) (frames rs) (omega arith))
        (read_records-torn n hr short)
]

read_records-big :
    (big : WalRecord) (rest : Bytes)
    → IsConsistent big
    → max_record_size < record_size big
    → record_size big < 2 ^ 32
    → read_records (frame big ++ rest) ≡ []
unfolding read_records frame
read_records-big big rest c large fits =
    let whole : length (serialize big) % 2 ^ 32 ≡ record_size big =
      omega (arith, length-serialize_record big c) in
    rw (append_assoc (word 4 (length (serialize big) % 2 ^ 32)) (serialize big) rest) (
      round_too_large (length (serialize big) % 2 ^ 32) (serialize big) rest (omega arith) _
        (omega (arith, whole)))

-- A consistent record beyond the reader's limit, of less than 2^32 bytes, hides itself and every
-- byte behind it: the reader returns the readable records in front of it only.
pub read_records-oversized :
    (rs : List WalRecord) (big : WalRecord) (rest : Bytes)
    → All IsReadable rs
    → IsConsistent big
    → max_record_size < record_size big
    → record_size big < 2 ^ 32
    → read_records (frames rs ++ (frame big ++ rest)) ≡ rs
read_records-oversized rs big rest h c large fits =
    read_records-frames rs (frame big ++ rest) h
    ∙ rw (read_records-big big rest c large fits) (append-nil rs)
