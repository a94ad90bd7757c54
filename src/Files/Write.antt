-- ===== src/Files/Write.antt =====
-- commands/fs_write.py and the handler of commands/fs_patch.py: what a call passes before it writes a
-- file, the capture of the bytes that were there, and the write.
pub mod Handlers
pub mod Admitted
pub mod Admission
pub mod Written
pub mod Patched
pub mod Restored
pub mod Gated
use openclaw_hass_node.Prelude.{
  ℕ, ◌+◌, ◌*◌, String, ◌<>◌, Bool, true, false, not, ◌&&◌, ◌||◌, Option, none, some, List, [], ◌∷◌,
  ◌++◌, ◌==◌, if◌then◌else◌, ltb, length, is_some, strip_prefix, occurs, any, pos, ℤ,
}
use openclaw_hass_node.Value.{
  Value, null, bool, int, float, str, list, dict, Fields, end, field, get,
}
use openclaw_hass_node.Authz.Turn.{truthy}
use openclaw_hass_node.Caller.{Caller}
use openclaw_hass_node.Commands.Params.{strict_keys_error}
use openclaw_hass_node.Policy.{refusal}
use openclaw_hass_node.Policy.Canonical.{DecimalTuple}
use openclaw_hass_node.Policy.Marker.{UsedIds}
use openclaw_hass_node.Policy.Marker.Checker.{Checker, approval_checker, check_once}
use openclaw_hass_node.Files.Lines.{Bytes, codes, utf8}
use openclaw_hass_node.Files.Patch.{Result, ok, failed, run_patch}
use openclaw_hass_node.Files.Backup.Store.{
  Store, capture, resolve_version, fetch_object, rename_history,
}
use openclaw_hass_node.Files.Backup.{
  Op, write, patch, restore, BackupError, Outcome, returned, raised, Version, Selector,
}

-- `_PROTECTED_ROOTS`
abbrev pub protected_roots : List String
protected_roots = "/config" ∷ "/addons" ∷ "/ssl" ∷ []

-- `MAX_WRITE_BYTES` of fs_write.py and `MAX_PATCH_BYTES` of fs_patch.py
abbrev pub max_write_bytes : ℕ
max_write_bytes = 8 * 1024 * 1024

abbrev pub max_patch_bytes : ℕ
max_patch_bytes = 1024 * 1024

-- `s.endswith(t)`
unfoldable pub ends_with : String → String → Bool
ends_with String.[] t = t == ""
ends_with (String.◌∷◌ c s) t = let rest = ends_with s t in (String.◌∷◌ c s == t) || rest

-- `_is_protected`
unfoldable pub is_protected : String → Bool
unfolding strip_prefix ends_with
is_protected path =
    let norm = if ends_with path "/" then path else path <> "/" in
    any (λ root. is_some (strip_prefix norm (root <> "/")) || (path == root)) protected_roots

-- `_is_storage`
unfoldable pub is_storage : String → Bool
unfolding occurs ends_with
is_storage path = occurs "/config/.storage/" path || ends_with path "/config/.storage"

-- What `resolve_safe` gives or raises.
pub data Target : Type 0 where
  target : String → Target
  no_allowed_roots : Target
  out_of_bounds : Target

-- What `read_bytes_safe` gives or raises.
pub data Reading : Type 0 where
  contents : Bytes → Reading
  absent : Reading
  outside : Reading
  os_error : String → Reading

-- What `atomic_write_safe` does; one that raises is taken to leave the file as it was.
pub data Writing : Type 0 where
  done : Writing
  refused_path : Writing
  failed_write : String → Writing

-- The file system during one call; `purge_trash` is what `purge_trash_entries_for` counts.
pub record World : Type 0 where
  pub resolve : String → Target
  pub read : String → Reading
  pub write_file : String → Bytes → Writing
  pub purge_trash : String → ℕ

-- The operations of the backup store that the handlers use.
pub record Backups (S : Type 0) : Type 0 where
  pub capture : S → String → Bytes → String → Op → String → S × Outcome Version
  pub resolve_version : S → String → Selector → Outcome Version
  pub fetch_object : S → String → Outcome Bytes
  pub rename_history : S → String → String → S × Outcome Bool

-- The reply of a call, or `none` where an exception escapes it, and what it leaves: the marker's check, the store, and the file it wrote.
pub record Done (S : Type 0) : Type 0 where
  pub reply : Option Fields
  pub checker : Checker
  pub store : S
  pub written : Option (String × Bytes)

-- The parts of a write that the handlers give: the texts of the errors, and the entry of the index.
pub record Job : Type 0 where
  pub op : Op
  pub proposal_id : String
  pub actor : String
  pub capture_error : String
  pub write_error : String

-- `_WRITE_KEYS`, `_RESTORE_KEYS` and `_PATCH_KEYS`
abbrev pub write_keys : List String
write_keys =
    "path" ∷ "content" ∷ "encoding" ∷ "actor" ∷ "agent_bridge" ∷ "proposal_id"
    ∷ "_openclaw_approval" ∷ []

abbrev pub restore_keys : List String
restore_keys =
    "path" ∷ "version_id" ∷ "version" ∷ "at" ∷ "actor" ∷ "agent_bridge" ∷ "proposal_id"
    ∷ "_openclaw_approval" ∷ []

abbrev pub patch_keys : List String
patch_keys =
    "path" ∷ "patch" ∷ "dry_run" ∷ "actor" ∷ "agent_bridge" ∷ "proposal_id" ∷ "_openclaw_approval"
    ∷ []

module _ (S : Type 0) where
  abbrev pub stop : Checker → S → Fields → Done S
  stop checker store error = record {
    reply = some error;
    checker = checker;
    store = store;
    written = none;
  }

-- `quoted` is `repr` of a text.
module _ (quoted : String → String) (S : Type 0) (world : World) (backups : Backups S) where
  abbrev pub path_not_allowed : String → Fields
  path_not_allowed path =
      refusal "PATH_NOT_ALLOWED" ("Path is outside the allowed roots: " <> quoted path)

  -- `atomic_write_safe`, and the reply
  abbrev pub write_bytes : Job → Checker → S → String → Bytes → Fields → Writing → Done S
  write_bytes job checker store path bytes reply done = record {
    reply = some reply;
    checker = checker;
    store = store;
    written = some (path, bytes);
  }
  write_bytes job checker store path bytes reply refused_path =
      stop S checker store (path_not_allowed path)
  write_bytes job checker store path bytes reply (failed_write reason) =
      stop S checker store (refusal "WRITE_ERROR" (Job.write_error job <> reason))

  abbrev pub after_capture : Job → Checker → String → Bytes → Fields → S × Outcome Version → Done S
  after_capture job checker path bytes reply (store, raised e) =
      stop S checker store (refusal "BACKUP_ERROR" (Job.capture_error job))
  after_capture job checker path bytes reply (store, returned v) =
      write_bytes job checker store path bytes reply (World.write_file world path bytes)

  -- The capture of the bytes that were read, if the file was there, and the write
  unfoldable pub capture_and_write :
      Job → Checker → S → String → Option Bytes → Bytes → Fields → Done S
  capture_and_write job checker store path none bytes reply =
      write_bytes job checker store path bytes reply (World.write_file world path bytes)
  capture_and_write job checker store path (some prior_bytes) bytes reply =
      after_capture job checker path bytes reply (
        Backups.capture backups store path prior_bytes (Job.proposal_id job) (Job.op job)
          (Job.actor job))

  -- `approved`, `_resolve_write_target` and the two tests of a protected path; `check` is the closure of
  -- `approval_checker`.
  abbrev pub storage_readonly : Fields
  storage_readonly =
      refusal "STORAGE_READONLY"
        "Writes to .storage/ are refused; use the HA REST config API instead"

  abbrev pub check_if :
      Bool → (Checker → Option Fields × Checker) → Checker → Option Fields × Checker
  check_if needed check checker = if needed then check checker else (none, checker)

  abbrev pub pass_target :
      (Checker → Option Fields × Checker)
      → String
      → Target
      → Option Fields × Checker
      → Option Fields × Checker
  pass_target check path resolved (some denied, checker) = (some denied, checker)
  pass_target check path no_allowed_roots (none, checker) =
      (some (refusal "NO_ALLOWED_ROOTS" "No filesystem roots configured"), checker)
  pass_target check path out_of_bounds (none, checker) = (some (path_not_allowed path), checker)
  pass_target check path (target real) (none, checker) = check_if (is_protected real) check checker

  unfoldable pub pass_gates :
      (Checker → Option Fields × Checker) → Bool → String → Checker → Option Fields × Checker
  unfolding is_storage is_protected
  pass_gates check agent_bridge path checker =
      if is_storage path
      then (some storage_readonly, checker)
      else pass_target check path (World.resolve world path)
          (check_if (is_protected path || agent_bridge) check checker)

-- The operations of `BackupStore`, at the time `now`.
module _ (printed : Value → String) (parsed_int : Value → Option ℤ) (Line : Type 0)
    (dumps : Fields → Line) (loads : Line → Option Value) (sha256 : Bytes → String)
    (not_after : String → String → Option Bool) where
  abbrev pub backup_store : String → Backups (Store Line)
  backup_store now = record {
    capture = capture printed parsed_int Line dumps loads sha256 not_after now;
    resolve_version = resolve_version printed parsed_int Line dumps loads sha256 not_after;
    fetch_object = fetch_object printed parsed_int Line dumps loads sha256 not_after;
    rename_history = rename_history printed parsed_int Line dumps loads sha256 not_after;
  }
