-- ===== src/Events.antt =====
-- src/allora_sdk/rpc_client/client_websocket_events.py and event_utils.py: the event subscriber.
pub mod Value
