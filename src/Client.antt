-- ===== src/Client.antt =====
-- The client: include/network/client.h and src/network/client.cpp.
pub mod Scan
pub mod ScanRound
pub mod ScanLaws
pub mod ScanAnswer
pub mod Call
pub mod Link
pub mod LinkLaws
pub mod Session
pub mod ScanFuel
pub mod Serving
pub mod Contract
pub mod Keeping
pub mod Promise
pub mod ScanLink
pub mod Stale
pub mod Forged
pub mod Crowd
pub mod CrowdLaws
pub mod Flight
pub mod FlightServer
pub mod FlightClient
pub mod FlightReach
pub mod FlightSoon
pub mod Durable
pub mod Offline
pub mod Broken
