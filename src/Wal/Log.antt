-- ===== src/Wal/Log.antt =====
-- `WriteAheadLog` of include/storage/wal.h and src/storage/wal.cpp. The environment's answers to one
-- call (the clock, the device, whether a file can be opened) are an argument of each operation.
-- Each operation but `recover_from_checkpoint` runs under the log's mutex from start to end, as one
-- step; `locked` says that the mutex is held by the caller itself.
use custom_database.Prelude.{
  ℕ, ◌+◌, ◌%◌, ◌^◌, Bool, true, false, List, [], ◌++◌, Bytes, text, Outcome, returns, deadlock,
  length, ◌==◌, if◌then◌else◌,
}
use custom_database.Bytes.Words.{word}
use custom_database.Bytes.Decimal.{to_string}
use custom_database.Table.{Table, set}
use custom_database.Wal.Record.{
  WalRecord, new_record, checkpoint, length_u32, serialize, record_size,
}
use custom_database.Wal.File.{Device, File, contents, closed_file, write, flush, close, open_file}
use custom_database.Wal.Reader.{read_records}

pub record Wal : Type 0 where
  pub log_dir : Bytes
  pub current_log_file : Bytes
  pub log_file : File
  pub locked : Bool
  pub total_records : ℕ
  pub total_bytes : ℕ

-- The milliseconds of the system clock, and whether the new file can be opened.
pub record OpenIo : Type 0 where
  pub now : ℕ
  pub opens : Bool

-- The clock, and the device's answers to the two writes and to the flush.
pub record AppendIo : Type 0 where
  pub now : ℕ
  pub size_write : Device
  pub data_write : Device
  pub flush : Device

-- The device's answer to the close, and whether the file can be opened for reading and again for
-- writing.
pub record ReadIo : Type 0 where
  pub close : Device
  pub reads : Bool
  pub reopens : Bool

unfoldable pub log_name : Bytes → ℕ → Bytes
log_name log_dir now = log_dir ++ (text "/wal_" ++ (to_string now ++ text ".log"))

unfoldable pub open_new_log_file : OpenIo → Wal → Wal × Bool
unfolding log_name
open_new_log_file io w =
    let path = log_name w.log_dir io.now in
    let f = open_file io.opens path w.log_file in
    (record w { current_log_file = path; log_file = f }, f.is_open)

-- `WriteAheadLog(log_dir)`, on a machine with these files.
unfoldable pub new_wal : OpenIo → Bytes → Table → Wal
unfolding open_new_log_file
new_wal io log_dir disk =
    (open_new_log_file io (record {
      log_dir = log_dir;
      current_log_file = [];
      log_file = closed_file disk;
      locked = false;
      total_records = 0;
      total_bytes = 0;
    })).0

unfoldable pub write_record_to_file : AppendIo → WalRecord → Wal → Wal × Bool
write_record_to_file io r w =
    let bytes = serialize r in
    let size = length bytes % 2 ^ 32 in
    let f = write io.data_write bytes (write io.size_write (word 4 size) w.log_file) in
    (record w { log_file = f }, f.good)

-- `record_with_timestamp`.
unfoldable pub stamp : ℕ → WalRecord → WalRecord
stamp now r = if r.timestamp == 0 then record r { timestamp = now } else r

unfoldable pub append_record : AppendIo → WalRecord → Wal → Wal × Bool
unfolding write_record_to_file stamp
append_record io r w =
    let r' = stamp io.now r in
    let (w', written) = write_record_to_file io r' w in
    if written
    then (
      record w' {
        log_file = flush io.flush w'.log_file;
        total_records = (w'.total_records + 1) % 2 ^ 64;
        total_bytes = (w'.total_bytes + record_size r') % 2 ^ 64;
      },
      true,
    )
    else (w', false)

-- The part of `read_all_records` behind its lock. Where the file cannot be opened for reading, the
-- log stays closed.
unfoldable pub read_all_body : ReadIo → Wal → Wal × List WalRecord
read_all_body io w =
    let f = close io.close w.log_file in
    if io.reads
    then (
      record w { log_file = open_file io.reopens w.current_log_file f },
      read_records (contents w.current_log_file f.disk),
    )
    else (record w { log_file = f }, [])

-- `std::lock_guard` on a mutex that the caller holds never returns.
unfoldable pub read_all_records : ReadIo → Wal → Outcome (Wal × List WalRecord)
unfolding read_all_body
read_all_records io w = if w.locked then deadlock else returns (read_all_body io w)

unfoldable pub create_checkpoint : AppendIo → Bytes → Wal → Wal × Bool
unfolding write_record_to_file
create_checkpoint io checkpoint_file w =
    let r : WalRecord = record new_record {
      type = checkpoint;
      timestamp = io.now;
      key = checkpoint_file;
      key_length = length_u32 checkpoint_file;
    } in
    let (w', written) = write_record_to_file io r w in
    if written then (record w' { log_file = flush io.flush w'.log_file }, true) else (w', false)

-- The records that were read are only printed.
unfoldable pub recover_from_checkpoint : ReadIo → Bytes → Wal → Outcome (Wal × Bool)
unfolding read_all_records
recover_from_checkpoint io checkpoint_file w =
    if w.locked then deadlock else (elim (read_all_records io (record w { locked = true })) [
      | deadlock ↦ deadlock
      | returns (w', records) ↦ returns (record w' { locked = false }, true)
    ])

abbrev bool_text : Bool → Bytes
bool_text true = text "true"
bool_text false = text "false"

unfoldable pub get_stats : Wal → Table
get_stats w = set (text "log_file_open") (bool_text w.log_file.is_open) (
    set (text "total_bytes") (to_string w.total_bytes) (
      set (text "total_records") (to_string w.total_records) (
        set (text "current_log_file") w.current_log_file
          (set (text "log_directory") w.log_dir []))))

unfoldable pub truncate_log : Device → OpenIo → Wal → Wal × Bool
unfolding open_new_log_file
truncate_log device io w =
    let (w', opened) = open_new_log_file io (record w { log_file = close device w.log_file }) in
    if opened then (record w' { total_records = 0; total_bytes = 0 }, true) else (w', false)

-- `WriteAheadLog::flush`.
unfoldable pub flush_log : Device → Wal → Wal
flush_log device w =
    if w.log_file.is_open then record w { log_file = flush device w.log_file } else w
