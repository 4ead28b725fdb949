-- ===== src/Database.antt =====
-- The database: include/core/database.h and src/core/persistent_database.cpp.
pub mod State
pub mod Transaction
pub mod Engine
pub mod Operations
pub mod Fits
pub mod Synced
pub mod Durability
pub mod Restart
pub mod Elsewhere
pub mod Loss
pub mod ScanLaws
pub mod Restore
pub mod Keys
pub mod Compaction
pub mod ScanOrder
