-- ===== src/Commands.antt =====
-- app/node/src/openclaw_node/commands: what the handlers share.
pub mod Params
pub mod Filters
