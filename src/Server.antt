-- ===== src/Server.antt =====
-- The server: include/network/server.h and src/network/server.cpp.
pub mod Request
pub mod RequestLaws
pub mod Responses
pub mod Connection
pub mod ConnectionLaws
pub mod Accept
pub mod AcceptLaws
pub mod StopLaws
pub mod Pool
pub mod PoolTally
pub mod PoolLaws
pub mod PoolProgress
pub mod PoolStop
pub mod PoolEnd
pub mod PoolTaken
pub mod Spec
pub mod Untouched
pub mod Refinement
pub mod Promise
pub mod History
pub mod Served
pub mod Overlap
pub mod OverlapAlone
pub mod OverlapStand
pub mod OverlapWork
pub mod OverlapReach
