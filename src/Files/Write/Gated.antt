-- ===== src/Files/Write/Gated.antt =====
-- commands/fs_write.py, commands/fs_patch.py: what holds of a call that writes.
use openclaw_hass_node.Prelude.{ℕ, String, Option, ℤ, ◌⊎◌}
use openclaw_hass_node.Value.{Value, Fields}
use openclaw_hass_node.Caller.{Caller}
use openclaw_hass_node.Policy.Canonical.{DecimalTuple}
use openclaw_hass_node.Policy.Marker.{UsedIds}
use openclaw_hass_node.Files.Lines.{Bytes}
use openclaw_hass_node.Files.Patch.{PatchApplyError}
use openclaw_hass_node.Files.Backup.{BackupError}
use openclaw_hass_node.Files.Write.{World, Backups}
use openclaw_hass_node.Files.Write.Handlers.{handle_fs_write, handle_fs_patch, handle_fs_restore}
use openclaw_hass_node.Files.Write.Admission.{IsGated}
use openclaw_hass_node.Files.Write.Written.{handle_fs_write-IsGated}
use openclaw_hass_node.Files.Write.Patched.{handle_fs_patch-IsGated}
use openclaw_hass_node.Files.Write.Restored.{handle_fs_restore-IsGated}

module _ (sha256_hex : String → String) (as_tuple : ℕ → DecimalTuple) (caller : Option Caller)
    (now : ℕ) (printed : Value → String) (parsed_int : Value → Option ℤ) (quoted : String → String)
    (decode_base64 : String → String ⊎ Bytes) (sha256 : Bytes → String) (digit : ℕ → Option ℕ)
    (error_text : PatchApplyError → String) (backup_text : BackupError → String) (S : Type 0)
    (world : World) (backups : Backups S) where
  -- A call of fs.write, fs.patch or fs.restore, whatever the file system does, writes nothing, or
  -- it writes the file of its `path` once; then `_is_storage` does not hold of the path, the
  -- approval check ran and let the call pass if the path, or the path it resolves to, is
  -- protected or `agent_bridge` is true, and a version of the bytes that were read is in the
  -- backup store (where there was no file: a version of no bytes, or the store is as it was).
  pub handle_fs-IsGated :
      (params : Fields) (used : UsedIds) (store : S)
      → IsGated sha256_hex as_tuple caller now printed parsed_int quoted decode_base64 sha256 digit
          error_text backup_text S world backups params store
          (handle_fs_write sha256_hex as_tuple caller now printed parsed_int quoted decode_base64
            sha256 digit error_text backup_text S world backups params used store)
        × IsGated sha256_hex as_tuple caller now printed parsed_int quoted decode_base64 sha256
            digit error_text backup_text S world backups params store
            (handle_fs_patch sha256_hex as_tuple caller now printed parsed_int quoted decode_base64
              sha256 digit error_text backup_text S world backups params used store)
        × IsGated sha256_hex as_tuple caller now printed parsed_int quoted decode_base64 sha256
            digit error_text backup_text S world backups params store
            (handle_fs_restore sha256_hex as_tuple caller now printed parsed_int quoted
              decode_base64 sha256 digit error_text backup_text S world backups params used store)
  handle_fs-IsGated params used store = (
    handle_fs_write-IsGated sha256_hex as_tuple caller now printed parsed_int quoted decode_base64
        sha256 digit error_text backup_text S world backups params used store,
    handle_fs_patch-IsGated sha256_hex as_tuple caller now printed parsed_int quoted decode_base64
        sha256 digit error_text backup_text S world backups params used store,
    handle_fs_restore-IsGated sha256_hex as_tuple caller now printed parsed_int quoted decode_base64
        sha256 digit error_text backup_text S world backups params used store,
  )
