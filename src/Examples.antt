-- ===== src/Examples.antt =====
-- The theorems at concrete inputs, and tests of the definitions.
pub mod Data
pub mod Wal
pub mod Protocol
pub mod Database
pub mod Server
pub mod Client
pub mod Session
pub mod Pool
pub mod Programs
pub mod Order
pub mod Contract
pub mod Stale
pub mod Joint
pub mod Broken
pub mod Flight
pub mod Overlap
pub mod Service
