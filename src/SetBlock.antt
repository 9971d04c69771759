-- ===== src/SetBlock.antt =====
-- src/cants/SetBlockManager.cpp and include/cannect/cants/SetBlockManager.hpp: the block-write
-- transaction, seen by the node that receives the blocks and by the node that sends them.
pub mod State
pub mod Receiver
pub mod Sender
pub mod Cases
pub mod Sessions
pub mod Delivery
pub mod Once
pub mod Blocks
pub mod Link
pub mod Peer
pub mod Transfers
pub mod Report
pub mod Answers
pub mod Finish
pub mod Transaction
pub mod Pending
pub mod Seen
pub mod Success
pub mod Addressed
pub mod Senders
