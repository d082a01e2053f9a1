-- ===== src/Tx.antt =====
-- src/allora_sdk/rpc_client/tx_manager.py: the transaction manager.
pub mod Float
pub mod Errors
pub mod Chain
pub mod State
pub mod Landed
pub mod Fees
pub mod Broadcast
pub mod Submit
pub mod Simulate
pub mod Manager
mod Tests
pub mod Frame
