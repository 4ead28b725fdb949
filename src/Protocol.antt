-- ===== src/Protocol.antt =====
-- The wire protocol: include/network/protocol.h and src/network/protocol.cpp.
pub mod Message
pub mod MessageLaws
pub mod MessageParse
