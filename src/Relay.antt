-- ===== src/Relay.antt =====
-- app/node/src/openclaw_node/chat_relay.py: the Assist turns that the relay runs.
pub mod Turns
