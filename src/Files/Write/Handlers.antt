-- ===== src/Files/Write/Handlers.antt =====
-- commands/fs_write.py: handle_fs_write, handle_fs_restore; commands/fs_patch.py: handle_fs_patch.
use openclaw_hass_node.Prelude.{
  ℕ, ◌+◌, String, ◌<>◌, true, false, not, Option, none, some, [], ◌==◌, if◌then◌else◌, eqb, ltb,
  length, pos, ℤ, ◌⊎◌, inl, inr,
}
use openclaw_hass_node.Value.{Value, null, bool, int, str, Fields, end, field, get}
use openclaw_hass_node.Authz.Turn.{truthy}
use openclaw_hass_node.Caller.{Caller}
use openclaw_hass_node.Commands.Params.{strict_keys_error}
use openclaw_hass_node.Policy.{refusal}
use openclaw_hass_node.Policy.Canonical.{DecimalTuple, decimal}
use openclaw_hass_node.Policy.Marker.{UsedIds}
use openclaw_hass_node.Policy.Marker.Checker.{Checker, approval_checker, check_once}
use openclaw_hass_node.Files.Lines.{Bytes, codes, utf8}
use openclaw_hass_node.Files.Patch.{Result, ok, failed, value_error, PatchApplyError, run_patch}
use openclaw_hass_node.Files.Backup.{
  write, patch, restore, BackupError, Outcome, returned, raised, Version, Selector, given,
}
use openclaw_hass_node.Files.Write.{
  max_write_bytes, max_patch_bytes, write_keys, restore_keys, patch_keys, Reading, contents, absent,
  outside, os_error, World, Backups, Done, Job, stop, path_not_allowed, capture_and_write,
  pass_gates,
}

-- `{"ok": False, ..., "limit": limit}`
abbrev pub limit_error : String → String → ℕ → Fields
limit_error code message limit =
    field "ok" (bool false) (
      field "error" (str code)
        (field "message" (str message) (field "limit" (int (pos limit)) end)))

-- The decoded content, or the error dict.
pub data Decoded : Type 0 where
  decoded : Bytes → Decoded
  undecodable : Fields → Decoded

-- `sha256_hex` and `as_tuple` are the parameters of the approval markers; `printed` is `str` of a value that is
-- no text, `parsed_int` is `int` of one that is no integer (`none` where it raises), `quoted` is `repr`, `decode_base64` is
-- `b64decode` (or the text of what it raises), `sha256` a digest, `digit` the value of a `\d`, `error_text`
-- and `backup_text` the texts of two exceptions.
module _ (sha256_hex : String → String) (as_tuple : ℕ → DecimalTuple) (caller : Option Caller)
    (now : ℕ) (printed : Value → String) (parsed_int : Value → Option ℤ) (quoted : String → String)
    (decode_base64 : String → String ⊎ Bytes) (sha256 : Bytes → String) (digit : ℕ → Option ℕ)
    (error_text : PatchApplyError → String) (backup_text : BackupError → String) (S : Type 0)
    (world : World) (backups : Backups S) where
  -- `str(v)`
  abbrev pub value_text : Value → String
  value_text (str s) = s
  value_text v = printed v

  -- `str(params.get(name, default))`
  abbrev pub text_at : String → String → Fields → String
  text_at name default params = elim (get name params) [ none ↦ default | some v ↦ value_text v ]

  -- `_decode_content`
  abbrev pub decoded_base64 : String ⊎ Bytes → Decoded
  decoded_base64 (inl reason) =
      undecodable (refusal "INVALID_CONTENT" ("base64 decode failed: " <> reason))
  decoded_base64 (inr bytes) = decoded bytes

  unfoldable pub decode_content : String → String → Decoded
  unfolding utf8 codes
  decode_content content encoding =
      if encoding == "base64"
      then decoded_base64 (decode_base64 content)
      else if encoding == "utf-8"
      then decoded (utf8 (codes content))
      else undecodable (
          refusal "INVALID_ENCODING"
            ("Unknown encoding: " <> quoted encoding <> "; use utf-8 or base64"))

  abbrev pub write_reply : String → Bytes → String → Fields
  write_reply path bytes proposal_id = field "ok" (bool true) (
      field "path" (str path) (
        field "size" (int (pos (length bytes)))
          (field "sha256" (str (sha256 bytes)) (field "proposal_id" (str proposal_id) end))))

  abbrev pub write_job : Fields → Job
  write_job params = record {
    op = write;
    proposal_id = text_at "proposal_id" "direct" params;
    actor = text_at "actor" "agent" params;
    capture_error = "Backup capture failed; write aborted";
    write_error = "Write failed: ";
  }

  -- The prior bytes, and whether there is a file
  abbrev pub write_over : Fields → Checker → S → String → Bytes → Reading → Done S
  write_over params checker store path bytes (contents prior_bytes) =
      capture_and_write quoted S world backups (write_job params) checker store path
        (some prior_bytes) bytes (write_reply path bytes (text_at "proposal_id" "direct" params))
  write_over params checker store path bytes absent =
      capture_and_write quoted S world backups (write_job params) checker store path none bytes
        (write_reply path bytes (text_at "proposal_id" "direct" params))
  write_over params checker store path bytes outside =
      stop S checker store (path_not_allowed quoted S world backups path)
  write_over params checker store path bytes (os_error reason) =
      stop S checker store (refusal "READ_ERROR" ("Cannot read prior bytes: " <> reason))

  abbrev pub write_decoded : Fields → Checker → S → String → Decoded → Done S
  write_decoded params checker store path (undecodable error) = stop S checker store error
  write_decoded params checker store path (decoded bytes) =
      if ltb max_write_bytes (length bytes)
      then stop S checker store (
          limit_error "REQUEST_TOO_LARGE"
            ("content is " <> decimal (length bytes) <> " bytes; limit is 8388608") max_write_bytes)
      else write_over params checker store path bytes (World.read world path)

  abbrev pub write_passed : Fields → S → String → Value → Option Fields × Checker → Done S
  write_passed params store path content (some denied, checker) = stop S checker store denied
  write_passed params store path content (none, checker) =
      write_decoded params checker store path
        (decode_content (value_text content) (text_at "encoding" "utf-8" params))

  abbrev pub write_checked : Fields → UsedIds → S → String → Option Value → Done S
  write_checked params used store path none =
      stop S (approval_checker params used) store (refusal "MISSING_PARAM" "content is required")
  write_checked params used store path (some null) =
      stop S (approval_checker params used) store (refusal "MISSING_PARAM" "content is required")
  write_checked params used store path (some content) = write_passed params store path content (
      pass_gates quoted S world backups (check_once sha256_hex as_tuple caller now "fs.write")
        (truthy (get "agent_bridge" params)) path (approval_checker params used))

  abbrev pub write_valid : Fields → UsedIds → S → Option Fields → Done S
  write_valid params used store (some invalid) = stop S (approval_checker params used) store invalid
  write_valid params used store none =
      if text_at "path" "" params == ""
      then stop S (approval_checker params used) store (refusal "MISSING_PARAM" "path is required")
      else write_checked params used store (text_at "path" "" params) (get "content" params)

  -- `handle_fs_write`
  unfoldable pub handle_fs_write : Fields → UsedIds → S → Done S
  unfolding strict_keys_error pass_gates check_once decode_content capture_and_write truthy
  handle_fs_write params used store =
      write_valid params used store (strict_keys_error params write_keys [])

  abbrev pub patch_reply : String → Bytes → ℕ → Fields
  patch_reply path bytes hunks = field "ok" (bool true) (
      field "path" (str path) (
        field "sha256" (str (sha256 bytes))
          (field "size" (int (pos (length bytes))) (field "hunks_applied" (int (pos hunks)) end))))

  abbrev pub dry_run_reply : String → ℕ → Fields
  dry_run_reply path hunks = field "ok" (bool true) (
      field "path" (str path)
        (field "dry_run" (bool true) (field "hunks_applicable" (int (pos hunks)) end)))

  abbrev pub patch_job : Fields → Job
  patch_job params = record {
    op = patch;
    proposal_id = text_at "proposal_id" "direct" params;
    actor = text_at "actor" "agent" params;
    capture_error = "Backup capture failed; patch aborted";
    write_error = "Atomic write failed: ";
  }

  abbrev pub patch_applied : Fields → Checker → S → String → Bytes → Result (Bytes × ℕ) → Done S
  patch_applied params checker store path original (failed e) =
      stop S checker store
        (refusal "PATCH_FAILED" ("Patch did not apply cleanly: " <> error_text e))
  patch_applied params checker store path original value_error = record {
    reply = none;
    checker = checker;
    store = store;
    written = none;
  }
  patch_applied params checker store path original (ok (patched, hunks)) =
      if ltb max_write_bytes (length patched)
      then stop S checker store (
          limit_error "RESULT_TOO_LARGE"
            ("patched file would be " <> decimal (length patched) <> " bytes; limit is 8388608")
            max_write_bytes)
      else if truthy (get "dry_run" params)
      then stop S checker store (dry_run_reply path hunks)
      else capture_and_write quoted S world backups (patch_job params) checker store path
          (some original) patched (patch_reply path patched hunks)

  abbrev pub patch_over : Fields → Checker → S → String → String → Reading → Done S
  patch_over params checker store path patch_text (contents original) =
      patch_applied params checker store path original (run_patch digit original patch_text false)
  patch_over params checker store path patch_text absent =
      stop S checker store (refusal "NOT_FOUND" ("Path does not exist: " <> quoted path))
  patch_over params checker store path patch_text outside =
      stop S checker store (path_not_allowed quoted S world backups path)
  patch_over params checker store path patch_text (os_error reason) =
      stop S checker store (refusal "READ_ERROR" ("Cannot read file: " <> reason))

  abbrev pub patch_passed : Fields → S → String → String → Option Fields × Checker → Done S
  patch_passed params store path patch_text (some denied, checker) = stop S checker store denied
  patch_passed params store path patch_text (none, checker) =
      patch_over params checker store path patch_text (World.read world path)

  abbrev pub patch_valid : Fields → UsedIds → S → Option Fields → Done S
  patch_valid params used store (some invalid) = stop S (approval_checker params used) store invalid
  patch_valid params used store none =
      let path = text_at "path" "" params in
      let patch_text = text_at "patch" "" params in
      let size = length (utf8 (codes patch_text)) in
      if path == ""
      then stop S (approval_checker params used) store (refusal "MISSING_PARAM" "path is required")
      else if patch_text == ""
      then stop S (approval_checker params used) store (refusal "MISSING_PARAM" "patch is required")
      else if ltb max_patch_bytes size
      then stop S (approval_checker params used) store (
          limit_error "REQUEST_TOO_LARGE"
            ("patch is " <> decimal size <> " bytes; limit is 1048576") max_patch_bytes)
      else patch_passed params store path patch_text (
          pass_gates quoted S world backups (check_once sha256_hex as_tuple caller now "fs.patch")
            (truthy (get "agent_bridge" params)) path (approval_checker params used))

  -- `handle_fs_patch`
  unfoldable pub handle_fs_patch : Fields → UsedIds → S → Done S
  unfolding strict_keys_error pass_gates check_once run_patch capture_and_write truthy utf8 codes
  handle_fs_patch params used store =
      patch_valid params used store (strict_keys_error params patch_keys [])

  -- `sel_kwargs` of `handle_fs_restore`: a value that is there as a text
  abbrev pub text_selector : Option Value → Option String
  text_selector none = none
  text_selector (some null) = none
  text_selector (some (str s)) = some s
  text_selector (some v) = some (printed v)

  -- `int(version_param)`: `none` where it raises
  abbrev pub int_selector : Option Value → Option (Option ℤ)
  int_selector none = some none
  int_selector (some null) = some none
  int_selector (some (int n)) = some (some n)
  int_selector (some v) = elim (parsed_int v) [ none ↦ none | some n ↦ some (some n) ]

  abbrev pub restore_selector : Fields → Option ℤ → Selector
  restore_selector params version = record {
    version = version;
    proposal_id = text_selector (get "proposal_id" params);
    at = text_selector (get "at" params);
    sha256 = text_selector (get "version_id" params);
  }

  abbrev pub selectors : Selector → ℕ
  selectors s =
      given (Selector.version s)
      + given (Selector.proposal_id s)
      + given (Selector.at s)
      + given (Selector.sha256 s)

  abbrev pub restore_reply : String → Bytes → Version → Fields
  restore_reply path bytes v = field "ok" (bool true) (
      field "path" (str path) (
        field "size" (int (pos (length bytes))) (
          field "sha256" (str (Version.sha256 v)) (
            field "restored_from_proposal" (str (Version.proposal_id v))
              (field "trash_purged" (int (pos (World.purge_trash world path))) end)))))

  abbrev pub restore_job : Fields → Version → Job
  restore_job params v = record {
    op = restore;
    proposal_id = "restore-from-" <> Version.proposal_id v;
    actor = text_at "actor" "agent" params;
    capture_error = "Pre-restore capture failed; restore aborted";
    write_error = "Restore write failed: ";
  }

  -- The current bytes, which are empty where there is no file, are always captured.
  abbrev pub restore_over : Fields → Checker → S → String → Version → Bytes → Reading → Done S
  restore_over params checker store path v bytes (contents prior_bytes) =
      capture_and_write quoted S world backups (restore_job params v) checker store path
        (some prior_bytes) bytes (restore_reply path bytes v)
  restore_over params checker store path v bytes absent =
      capture_and_write quoted S world backups (restore_job params v) checker store path (some [])
        bytes (restore_reply path bytes v)
  restore_over params checker store path v bytes outside =
      stop S checker store (path_not_allowed quoted S world backups path)
  restore_over params checker store path v bytes (os_error reason) =
      stop S checker store (refusal "READ_ERROR" ("Cannot read prior bytes: " <> reason))

  abbrev pub restore_fetched : Fields → Checker → S → String → Version → Outcome Bytes → Done S
  restore_fetched params checker store path v (raised e) =
      stop S checker store (refusal "OBJECT_MISSING" (backup_text e))
  restore_fetched params checker store path v (returned bytes) =
      restore_over params checker store path v bytes (World.read world path)

  abbrev pub restore_found : Fields → Checker → S → String → Outcome Version → Done S
  restore_found params checker store path (raised e) =
      stop S checker store (refusal "VERSION_NOT_FOUND" (backup_text e))
  restore_found params checker store path (returned v) =
      restore_fetched params checker store path v
        (Backups.fetch_object backups store (Version.sha256 v))

  abbrev pub restore_selected : Fields → Checker → S → String → Option (Option ℤ) → Done S
  restore_selected params checker store path none =
      stop S checker store (refusal "INVALID_PARAM" "version must be an integer")
  restore_selected params checker store path (some version) =
      if not (eqb (selectors (restore_selector params version)) 1)
      then stop S checker store (
          refusal "INVALID_PARAM"
            "Exactly one of version_id, version, proposal_id, or at is required")
      else restore_found params checker store path
          (Backups.resolve_version backups store path (restore_selector params version))

  abbrev pub restore_passed : Fields → S → String → Option Fields × Checker → Done S
  restore_passed params store path (some denied, checker) = stop S checker store denied
  restore_passed params store path (none, checker) =
      restore_selected params checker store path (int_selector (get "version" params))

  abbrev pub restore_valid : Fields → UsedIds → S → Option Fields → Done S
  restore_valid params used store (some invalid) =
      stop S (approval_checker params used) store invalid
  restore_valid params used store none =
      if text_at "path" "" params == ""
      then stop S (approval_checker params used) store (refusal "MISSING_PARAM" "path is required")
      else restore_passed params store (text_at "path" "" params) (
          pass_gates quoted S world backups (check_once sha256_hex as_tuple caller now "fs.restore")
            (truthy (get "agent_bridge" params)) (text_at "path" "" params)
            (approval_checker params used))

  -- `handle_fs_restore`
  unfoldable pub handle_fs_restore : Fields → UsedIds → S → Done S
  unfolding strict_keys_error pass_gates check_once capture_and_write truthy
  handle_fs_restore params used store =
      restore_valid params used store (strict_keys_error params restore_keys [])
