-- ===== src/Wal.antt =====
-- The write-ahead log: include/storage/wal.h and src/storage/wal.cpp.
pub mod Record
pub mod RecordLaws
pub mod RecordParse
pub mod File
pub mod Reader
pub mod ReaderLaws
pub mod Log
pub mod Crash
pub mod FileLaws
pub mod Append
pub mod Accepted
