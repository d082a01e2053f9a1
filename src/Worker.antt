-- ===== src/Worker.antt =====
-- src/allora_sdk/worker/worker.py: the worker.
pub mod Nonces
pub mod Host
pub mod Faucet
pub mod Quiet
pub mod Cycle
pub mod Polling
pub mod Startup
mod Tests
