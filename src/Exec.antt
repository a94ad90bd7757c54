-- ===== src/Exec.antt =====
-- app/node/src/openclaw_node/commands/exec_approvals.py: what a command to execute looks like to
-- its approver, and the document of the approval policy.
pub mod Argv
pub mod Schema
pub mod Document
pub mod Prepare
