-- ===== src/Tests.antt =====
-- Runs of the model on concrete data, and the theorems at such data.
mod Authz
mod Policy
mod Dispatch
mod Gateway
mod Relay
mod Commands
mod Files
mod Exec
