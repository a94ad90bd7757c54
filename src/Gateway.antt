-- ===== src/Gateway.antt =====
-- app/node/src/openclaw_node/gateway_ws.py: what the node does with the gateway's invoke requests,
-- and how it comes back after a failed connection.
pub mod Params
pub mod Caller
pub mod Invoke
pub mod Reconnect
