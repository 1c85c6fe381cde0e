-- ===== src/Protocol.antt =====
-- capstone/reference: include/netforge/protocol.hpp and src/protocol.cpp.
pub mod Text
pub mod Command
pub mod Frame
pub mod Io
