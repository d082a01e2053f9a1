-- ===== src/Autostake.antt =====
-- src/allora_sdk/worker/autostake.py: how a worker stakes its rewards. `int(...)` and `Decimal` of
-- the standard library, and the node, are a `StakeHost`.
pub mod Text
pub mod Key
pub mod Handler
pub mod Replay
pub mod Amount
pub mod Tests
