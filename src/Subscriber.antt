-- ===== src/Subscriber.antt =====
-- src/allora_sdk/rpc_client/client_websocket_events.py: the subscriber to the events of the chain over
-- a websocket.
pub mod Dict
pub mod Query
pub mod State
pub mod Calls
pub mod Conditions
pub mod Messages
pub mod Frames
pub mod Loop
pub mod Guard
pub mod Guarded
pub mod Resend
pub mod Watchdog
mod Lookup
pub mod Delivery
pub mod Silence
pub mod Tests
