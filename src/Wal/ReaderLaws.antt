-- ===== src/Wal/ReaderLaws.antt =====
-- The reader of the log: its fuel, the frames that were written, and what is not a whole frame.
use custom_database.Prelude.{
  ℕ, zero, suc, ◌+◌, ◌%◌, ◌^◌, ◌≤◌, ◌<◌, ◌≡◌, refl, sym, ap, ◌∙◌, arith, List, [], ◌∷◌, ◌++◌,
  append_assoc, append-nil, Bytes, ok, length, drop, le→ltb_false, lt→ltb, length-append,
  length-drop, take-append_at, drop-append_at, All,
}
use custom_database.Bytes.Words.{word, read_word, read_word-append, length-word}
use custom_database.Wal.Record.{WalRecord, serialize, deserialize, record_size}
use custom_database.Wal.RecordLaws.{
  IsConsistent, deserialize-serialize_record, length-serialize_record,
}
use custom_database.Wal.Reader.{max_record_size, frame, read_loop, read_records}

-- The loop of the reader ends on its own: with any fuel of at least the number of bytes, it
-- returns the same records.
pub read_loop-fuel :
    (f g : ℕ) (bytes : Bytes)
    → length bytes ≤ f
    → length bytes ≤ g
    → read_loop f bytes ≡ read_loop g bytes
unfolding read_loop
read_loop-fuel zero zero bytes hf hg = refl
read_loop-fuel zero (suc g) bytes hf hg = ground arith
read_loop-fuel (suc f) zero bytes hf hg = ground arith
read_loop-fuel (suc f) (suc g) bytes hf hg = ground (
  arith,
  length-drop 4 bytes,
  length-drop (read_word 4 0 bytes) (drop 4 bytes),
  read_loop-fuel f g (drop (read_word 4 0 bytes) (drop 4 bytes)),
)

pub round_too_short : (fuel : ℕ) (bytes : Bytes) → length bytes < 4 → read_loop fuel bytes ≡ []
unfolding read_loop
round_too_short zero bytes h = refl
round_too_short (suc fuel) bytes h = rw (lt→ltb (length bytes) 4 h)

-- A round on four bytes that give the length of `front`, which is followed by `rest`.
module _ (n : ℕ) (front rest : Bytes) (small : n < 256 ^ 4) where
  size-prefix : read_word 4 0 (word 4 n ++ (front ++ rest)) ≡ n
  size-prefix = read_word-append 4 0 n [] (front ++ rest) refl small

  drop-prefix : drop 4 (word 4 n ++ (front ++ rest)) ≡ front ++ rest
  drop-prefix = drop-append_at 4 (word 4 n) (front ++ rest) (sym (length-word 4 n))

  length-prefix : length (word 4 n ++ (front ++ rest)) ≡ 4 + length front + length rest
  length-prefix =
      omega
        (arith, length-append (word 4 n) (front ++ rest), length-append front rest, length-word 4 n)

  round-accepts :
      (fuel : ℕ) {r : WalRecord}
      → n ≡ length front
      → n ≤ max_record_size
      → deserialize front ≡ ok r
      → read_loop (suc fuel) (word 4 n ++ (front ++ rest)) ≡ r ∷ read_loop fuel rest
  unfolding read_loop
  round-accepts fuel e limit d =
      rw (le→ltb_false (length (word 4 n ++ (front ++ rest))) 4 (omega (arith, length-prefix))) (
        rw (size-prefix, drop-prefix)
          (rw
            (
              le→ltb_false max_record_size n limit,
              le→ltb_false (length (front ++ rest)) n (omega (arith, length-append front rest)),
              take-append_at n front rest e,
              d,
            )
            (rw (size-prefix, drop-prefix, drop-append_at n front rest e))))

  pub round_too_large :
      (fuel : ℕ) → max_record_size < n → read_loop fuel (word 4 n ++ (front ++ rest)) ≡ []
  unfolding read_loop
  round_too_large zero large = refl
  round_too_large (suc fuel) large =
      rw (le→ltb_false (length (word 4 n ++ (front ++ rest))) 4 (omega (arith, length-prefix)))
        (rw size-prefix (rw (lt→ltb max_record_size n large)))

  pub round_incomplete :
      (fuel : ℕ) → length (front ++ rest) < n → read_loop fuel (word 4 n ++ (front ++ rest)) ≡ []
  unfolding read_loop
  round_incomplete zero short = refl
  round_incomplete (suc fuel) short = ground (arith, size-prefix, drop-prefix)

-- A record as the log takes it back: consistent, and within the reader's limit.
pub record IsReadable (r : WalRecord) : Type 0 where
  pub consistent : IsConsistent r
  pub within : record_size r ≤ max_record_size

module _ {r : WalRecord} (h : IsReadable r) where
  open h use {consistent, within}

  pub frame_size : length (serialize r) % 2 ^ 32 ≡ length (serialize r)
  frame_size = omega (arith, length-serialize_record r consistent)

  deserialize-serialize_self : deserialize (serialize r) ≡ ok r
  deserialize-serialize_self = rw append-nil at (deserialize-serialize_record r [] consistent)

  pub length-frame : length (frame r) ≡ 4 + record_size r
  unfolding frame
  length-frame = omega (
    arith,
    length-append (word 4 (length (serialize r) % 2 ^ 32)) (serialize r),
    length-word 4 (length (serialize r) % 2 ^ 32),
    length-serialize_record r consistent,
  )

  read_loop-frame :
      (fuel : ℕ) (rest : Bytes) → read_loop (suc fuel) (frame r ++ rest) ≡ r ∷ read_loop fuel rest
  unfolding frame
  read_loop-frame fuel rest =
      rw (append_assoc (word 4 (length (serialize r) % 2 ^ 32)) (serialize r) rest) (
        round-accepts _ (serialize r) rest (omega arith) fuel frame_size
          (omega (arith, length-serialize_record r consistent)) deserialize-serialize_self)

  pub read_records-frame : (rest : Bytes) → read_records (frame r ++ rest) ≡ r ∷ read_records rest
  unfolding read_records
  read_records-frame rest =
      read_loop-fuel (length (frame r ++ rest)) (suc (length (frame r ++ rest))) (frame r ++ rest)
        (omega arith) (omega arith)
      ∙ read_loop-frame (length (frame r ++ rest)) rest
      ∙ ap (λ t. r ∷ t)
          (read_loop-fuel (length (frame r ++ rest)) (length rest) rest
            (omega (arith, length-append (frame r) rest)) (omega arith))

unfoldable pub frames : List WalRecord → Bytes
frames [] = []
frames (r ∷ rs) = frame r ++ frames rs

-- The reader gives back the records whose frames the log begins with, and goes on behind them.
pub read_records-frames :
    (rs : List WalRecord) (rest : Bytes)
    → All IsReadable rs
    → read_records (frames rs ++ rest) ≡ rs ++ read_records rest
unfolding frames
read_records-frames [] rest h = refl
read_records-frames (r ∷ rs) rest (hr, hrs) =
    rw (append_assoc (frame r) (frames rs) rest) (
      read_records-frame hr (frames rs ++ rest) ∙ ap (λ t. r ∷ t) (read_records-frames rs rest hrs))
