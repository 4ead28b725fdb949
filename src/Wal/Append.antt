-- ===== src/Wal/Append.antt =====
-- What `append_record` leaves on the disk, whatever the device does.
use Prim.Native.Nat.{min}
use custom_database.Prelude.{
  ℕ, ◌%◌, ◌^◌, ◌≤◌, ◌<◌, ◌≡◌, sym, ap, ◌∙◌, arith, List, [], ◌∷◌, ◌++◌, append-nil, Bytes, true,
  false, length, take, leb, take-append_of_le, take-append_at, take_all, All, Bool-cases, inl, inr,
  if◌then◌else◌,
}
use custom_database.Bytes.Words.{word, length-word}
use custom_database.Wal.Record.{WalRecord, serialize}
use custom_database.Wal.File.{Device, accepts, fails, contents, write, flush}
use custom_database.Wal.FileLaws.{contents-append_bytes}
use custom_database.Wal.Reader.{frame, read_records}
use custom_database.Wal.ReaderLaws.{IsReadable, frames, read_records-frame, read_records-frames}
use custom_database.Wal.Crash.{read_records-nil, read_records-torn}
use custom_database.Wal.Log.{Wal, AppendIo, stamp, append_record}

-- A log that is open for writing and holds the frames of these records.
pub record Holds (w : Wal) (rs : List WalRecord) : Type 0 where
  pub opened : w.log_file.is_open ≡ true
  pub sound : w.log_file.good ≡ true
  pub drained : w.log_file.pending ≡ []
  pub current : w.log_file.path ≡ w.current_log_file
  pub unlocked : w.locked ≡ false
  pub written : contents w.current_log_file w.log_file.disk ≡ frames rs

-- The bytes of the log on the disk.
abbrev pub log_bytes : Wal → Bytes
log_bytes w = contents w.current_log_file w.log_file.disk

-- How many bytes of the frame of a record of this size the device takes.
unfoldable pub reached : Device → Device → Device → ℕ → ℕ
reached (fails n) data_write flush size = min n 4
reached accepts (fails n) flush size = n
reached accepts accepts (fails n) size = n
reached accepts accepts accepts size = size

take-min : (n : ℕ) (xs ys : Bytes) → length xs ≡ 4 → take (min n 4) (xs ++ ys) ≡ take n xs
take-min n xs ys h = elim (Bool-cases (leb n 4)) [
  | inl few ↦
      let le : n ≤ 4 = ground arith in
      ap (λ k. take k (xs ++ ys)) {y = n} (omega arith) ∙ take-append_of_le n xs ys (omega arith)
  | inr many ↦
      let le : 4 < n = ground arith in
      ap (λ k. take k (xs ++ ys)) {y = 4} (omega arith)
      ∙ take-append_at 4 xs ys (sym h)
      ∙ sym (take_all n xs (omega arith))
]

log_bytes-append :
    (now : ℕ) (d1 d2 d3 : Device) (r : WalRecord) (w : Wal) (rs : List WalRecord)
    → Holds w rs
    → let io : AppendIo = record { now = now; size_write = d1; data_write = d2; flush = d3 } in
      log_bytes (append_record io r w).0
      ≡ frames rs ++ take (reached d1 d2 d3 (length (frame (stamp now r)))) (frame (stamp now r))
unfolding append_record write flush reached frame
log_bytes-append now (fails n) d2 d3 r w rs h =
    simp (h.opened, h.sound, h.drained, h.current, contents-append_bytes, h.written)
      (rw (
        take-min n (word 4 (length (serialize (stamp now r)) % 2 ^ 32)) (serialize (stamp now r))
          (length-word 4 _)))
log_bytes-append now accepts (fails n) d3 r w rs h =
    simp (h.opened, h.sound, h.drained, h.current, contents-append_bytes, h.written)
log_bytes-append now accepts accepts (fails n) r w rs h =
    simp (h.opened, h.sound, h.drained, h.current, contents-append_bytes, h.written, append-nil)
log_bytes-append now accepts accepts accepts r w rs h =
    simp (h.opened, h.sound, h.drained, h.current, contents-append_bytes, h.written)
      (ap (λ t. frames rs ++ t) (sym (take_all _ (frame (stamp now r)) (omega arith))))

-- What a log with these bytes behind whole frames is read as.
read_records-reached :
    (rs : List WalRecord) (n : ℕ) {r : WalRecord}
    → All IsReadable rs
    → IsReadable r
    → read_records (frames rs ++ take n (frame r))
      ≡ (if leb (length (frame r)) n then rs ++ (r ∷ []) else rs)
read_records-reached rs n {r} hrs hr = elim (Bool-cases (leb (length (frame r)) n)) [
  | inl whole ↦
      rw (whole, take_all n (frame r) (ground arith))
        (ap read_records (ap (λ t. frames rs ++ t) (sym (append-nil (frame r))))
          ∙ read_records-frames rs (frame r ++ []) hrs
          ∙ ap (λ t. rs ++ t) (read_records-frame hr [] ∙ ap (λ t. r ∷ t) read_records-nil))
  | inr torn ↦ rw torn (
      read_records-frames rs (take n (frame r)) hrs
      ∙ ap (λ t. rs ++ t) (read_records-torn n hr (ground arith))
      ∙ append-nil rs)
]

-- On an open log that holds readable records, whatever the device does with the two writes and the
-- flush of an append of a readable record, the log is read afterwards as the records before it,
-- with the new record behind them exactly if its whole frame reached the disk.
pub append_record_atomic :
    (now : ℕ) (d1 d2 d3 : Device) (r : WalRecord) (w : Wal) (rs : List WalRecord)
    → Holds w rs
    → All IsReadable rs
    → IsReadable (stamp now r)
    → let io : AppendIo = record { now = now; size_write = d1; data_write = d2; flush = d3 } in
      let size = length (frame (stamp now r)) in
      read_records (log_bytes (append_record io r w).0)
      ≡ (if leb size (reached d1 d2 d3 size) then rs ++ (stamp now r ∷ []) else rs)
append_record_atomic now d1 d2 d3 r w rs h hrs hr =
    ap read_records (log_bytes-append now d1 d2 d3 r w rs h)
    ∙ read_records-reached rs (reached d1 d2 d3 (length (frame (stamp now r)))) hrs hr
