-- ===== src/Wal/FileLaws.antt =====
-- What a file holds after bytes were appended to it.
use custom_database.Prelude.{◌≡◌, ◌++◌, Bytes, arith, false}
use custom_database.Bytes.Order.{str_eq, str_eq_refl}
use custom_database.Table.{Table}
use custom_database.Table.Laws.{find-set}
use custom_database.Wal.File.{contents, append_bytes}

pub contents-append_bytes :
    (path bytes : Bytes) (disk : Table)
    → contents path (append_bytes path bytes disk) ≡ contents path disk ++ bytes
unfolding contents append_bytes
contents-append_bytes path bytes disk =
    ground (arith, find-set path path (contents path disk ++ bytes) disk, str_eq_refl path)

pub contents-append_bytes_ne :
    (path other bytes : Bytes) (disk : Table)
    → str_eq path other ≡ false
    → contents other (append_bytes path bytes disk) ≡ contents other disk
unfolding contents append_bytes
contents-append_bytes_ne path other bytes disk h =
    ground (arith, find-set path other (contents path disk ++ bytes) disk)
