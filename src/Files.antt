-- ===== src/Files.antt =====
-- app/node/src/openclaw_node/commands/fs*.py and backup_store.py: files, patches and their backups.
pub mod Lines
pub mod Patch
pub mod Backup
pub mod Write
pub mod Move
pub mod History
pub mod Confine
