-- ===== src/Protocol.antt =====
-- src/cants/CanTsProtocol.cpp and include/cannect/cants/CanTsProtocol.hpp: the node's end of the
-- protocol, which routes the frames that arrive and makes the calls of the application.
pub mod State
pub mod Handling
pub mod Calls
pub mod Routing
pub mod Pending
pub mod Telecommand
pub mod Wire
pub mod Exchange
pub mod Cache
pub mod Telemetry
pub mod Peers
pub mod Reading
pub mod Heard
pub mod Blocks
pub mod Serving
pub mod Hearing
pub mod Parts
pub mod Writing
pub mod BlockReads
