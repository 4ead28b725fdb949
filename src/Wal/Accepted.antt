-- ===== src/Wal/Accepted.antt =====
-- Appends that the device takes whole, and appends whose flush it does not take.
use custom_database.Prelude.{
  Bytes, ℕ, ◌<◌, ◌≡◌, arith, List, [], ◌∷◌, ◌++◌, append-nil, append_assoc, ◌∙◌, ap, sym, true,
  length, All,
}
use custom_database.Wal.Record.{WalRecord, checkpoint, new_record, length_u32}
use custom_database.Wal.File.{accepts, fails, write, flush}
use custom_database.Wal.FileLaws.{contents-append_bytes}
use custom_database.Wal.Reader.{frame, read_records}
use custom_database.Wal.ReaderLaws.{IsReadable, frames}
use custom_database.Wal.Log.{Wal, AppendIo, stamp, append_record, create_checkpoint}
use custom_database.Wal.Append.{Holds, log_bytes, reached, append_record_atomic}

-- The answers of a device that takes everything.
abbrev pub accepting : ℕ → AppendIo
accepting now = record { now = now; size_write = accepts; data_write = accepts; flush = accepts }

pub frames-append :
    (rs : List WalRecord) (r : WalRecord) → frames (rs ++ (r ∷ [])) ≡ frames rs ++ frame r
unfolding frames
frames-append [] r = append-nil (frame r)
frames-append (s ∷ rs) r =
    ap (λ t. frame s ++ t) (frames-append rs r) ∙ sym (append_assoc (frame s) (frames rs) (frame r))

module _ (now : ℕ) (r : WalRecord) {w : Wal} {rs : List WalRecord} (h : Holds w rs) where
  -- On an open log that holds some records, an append that the device takes whole returns true,
  -- and the log is then open and holds the stamped record behind the others.
  pub append_record-Holds :
      Holds (append_record (accepting now) r w).0 (rs ++ (stamp now r ∷ []))
      × ((append_record (accepting now) r w).1 ≡ true)
  unfolding append_record write flush frame
  append_record-Holds = (
    record {
      opened = simp (h.opened, h.sound);
      sound = simp (h.opened, h.sound);
      drained = simp (h.opened, h.sound);
      current = simp (h.opened, h.sound, h.current);
      unlocked = simp (h.opened, h.sound, h.unlocked);
      written = simp (
        h.opened, h.sound, h.drained, h.current, contents-append_bytes, h.written, frames-append,
      );
    },
    simp (h.opened, h.sound),
  )

  -- On an open log that holds readable records, if the flush hands the device less than the frame
  -- of a readable record, `append_record` returns true all the same, and the log is then read
  -- without the record.
  pub append_record_unflushed :
      (n : ℕ)
      → All IsReadable rs
      → IsReadable (stamp now r)
      → n < length (frame (stamp now r))
      → let io : AppendIo = record (accepting now) { flush = fails n } in
        ((append_record io r w).1 ≡ true) × (read_records (log_bytes (append_record io r w).0) ≡ rs)
  append_record_unflushed n hrs hr short = (
    unfold append_record write flush in simp (h.opened, h.sound),
    append_record_atomic now accepts accepts (fails n) r w rs h hrs hr
        ∙ unfold reached in ground arith,
  )

-- The record that `create_checkpoint` writes.
abbrev pub checkpoint_record : ℕ → Bytes → WalRecord
checkpoint_record now checkpoint_file = record new_record {
  type = checkpoint;
  timestamp = now;
  key = checkpoint_file;
  key_length = length_u32 checkpoint_file;
}

-- The log after a checkpoint that the device takes whole.
pub create_checkpoint-Holds :
    (now : ℕ) (checkpoint_file : Bytes) {w : Wal} {rs : List WalRecord}
    → Holds w rs
    → Holds
        (create_checkpoint (accepting now) checkpoint_file w).0
        (rs ++ (checkpoint_record now checkpoint_file ∷ []))
      × ((create_checkpoint (accepting now) checkpoint_file w).1 ≡ true)
unfolding create_checkpoint write flush frame
create_checkpoint-Holds now checkpoint_file h = (
  record {
    opened = simp (h.opened, h.sound);
    sound = simp (h.opened, h.sound);
    drained = simp (h.opened, h.sound);
    current = simp (h.opened, h.sound, h.current);
    unlocked = simp (h.opened, h.sound, h.unlocked);
    written =
        simp (
          h.opened, h.sound, h.drained, h.current, contents-append_bytes, h.written, frames-append,
        );
  },
  simp (h.opened, h.sound),
)
