-- ===== src/Wal/File.antt =====
-- `log_file_`: a `std::ofstream` in binary append mode, and the files of the disk. What the device
-- does with each transfer, and whether a file can be opened, is decided by the environment.
use custom_database.Prelude.{
  ℕ, Bool, true, false, ◌&&◌, none, some, [], ◌++◌, Bytes, take, if◌then◌else◌,
}
use custom_database.Table.{Table, find, set}

-- How the device answers one transfer: it takes all of it, or only the first bytes.
pub data Device : Type 0 where
  accepts : Device
  fails : ℕ → Device

pub record File : Type 0 where
  -- `is_open()`
  pub is_open : Bool
  -- `good()`
  pub good : Bool
  pub path : Bytes
  -- written, and not yet handed to the device
  pub pending : Bytes
  -- the contents of the files, by their paths
  pub disk : Table

unfoldable pub contents : Bytes → Table → Bytes
contents path disk = elim (find path disk) [ none ↦ [] | some bytes ↦ bytes ]

-- Bytes that reach the file go behind what it holds.
unfoldable pub append_bytes : Bytes → Bytes → Table → Table
append_bytes path bytes disk = set path (contents path disk ++ bytes) disk

-- A stream that was never opened, on a machine with these files.
abbrev pub closed_file : Table → File
closed_file disk = record { is_open = false; good = true; path = []; pending = []; disk = disk }

-- The pending bytes and `bytes` go to the device, which takes `n` of them; then the stream is bad.
abbrev pub break_after : ℕ → Bytes → File → File
break_after n bytes f = record f {
  good = false;
  pending = [];
  disk = append_bytes f.path (take n (f.pending ++ bytes)) f.disk;
}

-- `log_file_.write(...)`. A stream that is closed or bad takes nothing.
unfoldable pub write : Device → Bytes → File → File
write device bytes f =
    if f.is_open && f.good
    then (elim device [
      | accepts ↦ record f { pending = f.pending ++ bytes }
      | fails n ↦ break_after n bytes f
    ])
    else record f { good = false }

-- `log_file_.flush()`.
unfoldable pub flush : Device → File → File
flush device f =
    if f.is_open && f.good
    then (elim device [
      | accepts ↦ record f { pending = []; disk = append_bytes f.path f.pending f.disk }
      | fails n ↦ break_after n [] f
    ])
    else f

-- `log_file_.close()`.
unfoldable pub close : Device → File → File
unfolding flush
close device f =
    if f.is_open then record (flush device f) { is_open = false } else record f { good = false }

-- `log_file_.open(path, std::ios::binary | std::ios::app)`. Success clears the error state.
unfoldable pub open_file : Bool → Bytes → File → File
open_file opens path f =
    if f.is_open
    then record f { good = false }
    else if opens
    then record {
      is_open = true;
      good = true;
      path = path;
      pending = [];
      disk = append_bytes path [] f.disk;
    }
    else record f { good = false }
