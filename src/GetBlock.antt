-- ===== src/GetBlock.antt =====
-- src/cants/GetBlockManager.cpp and include/cannect/cants/GetBlockManager.hpp: the block-read
-- transaction, seen by the node that provides the blocks and by the node that asks for them.
pub mod State
pub mod Provider
pub mod Requester
pub mod Progress
pub mod Cut
pub mod Link
pub mod Collect
pub mod Serve
pub mod Answers
pub mod Transaction
pub mod Sessions
pub mod Kept
pub mod Success
pub mod Addressed
pub mod Senders
