-- ===== src/Files/Move.antt =====
-- commands/fs_move_delete.py: handle_fs_move and handle_fs_delete, with their checks before the effect.
pub mod Admitted
pub mod Kept
pub mod Gated
use openclaw_hass_node.Prelude.{
  ℕ, String, ◌<>◌, Bool, true, false, not, ◌&&◌, ◌||◌, Option, none, some, List, [], ◌∷◌, ◌==◌,
  if◌then◌else◌, length, pos,
}
use openclaw_hass_node.Value.{Value, bool, int, str, Fields, end, field, get}
use openclaw_hass_node.Authz.Turn.{truthy}
use openclaw_hass_node.Caller.{Caller}
use openclaw_hass_node.Commands.Params.{strict_keys_error}
use openclaw_hass_node.Policy.{refusal}
use openclaw_hass_node.Policy.Canonical.{DecimalTuple}
use openclaw_hass_node.Policy.Marker.{UsedIds}
use openclaw_hass_node.Policy.Marker.Checker.{Checker, approval_checker, check_once}
use openclaw_hass_node.Files.Lines.{Bytes}
use openclaw_hass_node.Files.Backup.{delete, move_src, move_dst, Outcome, returned, raised, Version}
use openclaw_hass_node.Files.Write.{
  is_protected, is_storage, Target, target, no_allowed_roots, out_of_bounds, Reading, contents,
  absent, outside, os_error, World, Backups, path_not_allowed, storage_readonly, check_if,
  pass_target, pass_gates,
}

-- `_MOVE_KEYS` and `_DELETE_KEYS`
abbrev pub move_keys : List String
move_keys = "src" ∷ "dst" ∷ "actor" ∷ "agent_bridge" ∷ "proposal_id" ∷ "_openclaw_approval" ∷ []

abbrev pub delete_keys : List String
delete_keys = "path" ∷ "actor" ∷ "agent_bridge" ∷ "proposal_id" ∷ "_openclaw_approval" ∷ []

-- What `replace_safe` does; one that raises is taken to move nothing.
pub data Moving : Type 0 where
  replaced : Moving
  escaped : Moving
  cross_device : Moving
  move_failed : String → Moving

-- What `_trash_file` gives or raises.
pub data Trashing : Type 0 where
  trashed_to : String → Trashing
  trash_failed : String → Trashing

-- The file system during one call; `missing` is the text of a `FileNotFoundError`.
pub record FileWorld : Type 0 where
  pub world : World
  pub exists : String → Bool
  pub missing : String
  pub replace_file : String → String → Moving
  pub trash_file : String → Trashing

-- The effect that a call had.
pub data Effect : Type 0 where
  moved : String → String → Effect
  trashed : String → Effect

-- The reply of a call, and what it leaves.
pub record Moved (S : Type 0) : Type 0 where
  pub reply : Fields
  pub checker : Checker
  pub store : S
  pub effect : Option Effect

-- The path that `_resolve_write_target` gave.
abbrev pub target_of : String → Target → String
target_of path (target real) = real
target_of path no_allowed_roots = path
target_of path out_of_bounds = path

-- `bool(params.get("agent_bridge", default))`
abbrev pub bridge_or : Bool → Option Value → Bool
bridge_or default none = default
bridge_or default (some v) = truthy (some v)

-- `history_moved`
abbrev pub history_moved : Outcome Bool → Bool
history_moved (returned b) = b
history_moved (raised e) = false

-- `printed` is `str` of a value that is no text, `quoted` is `repr`.
module _ (printed : Value → String) (quoted : String → String) (S : Type 0) (world : FileWorld)
    (backups : Backups S) where
  abbrev pub halt : Checker → S → Fields → Moved S
  halt checker store error = record {
    reply = error;
    checker = checker;
    store = store;
    effect = none;
  }

  abbrev pub text_param : String → String → Fields → String
  text_param name default params = elim (get name params) [
    | none ↦ default
    | some v ↦ elim v [ str s ↦ s | other ↦ printed other ]
  ]

  -- `_write_preflight`
  unfoldable pub write_preflight :
      (Checker → Option Fields × Checker) → Bool → String → Checker → Option Fields × Checker
  unfolding is_storage is_protected
  write_preflight check agent_bridge path checker =
      if is_storage path
      then (some (storage_readonly quoted S (FileWorld.world world) backups), checker)
      else check_if quoted S (FileWorld.world world) backups (is_protected path || agent_bridge)
          check checker

  abbrev pub then_preflight :
      (Checker → Option Fields × Checker)
      → Bool
      → String
      → Option Fields × Checker
      → Option Fields × Checker
  then_preflight check agent_bridge path (some error, checker) = (some error, checker)
  then_preflight check agent_bridge path (none, checker) =
      write_preflight check agent_bridge path checker

  -- The two preflights of `handle_fs_move`, and the resolution of both paths; `pass_target` has
  -- `_post_resolution_check`.
  unfoldable pub pass_move :
      (Checker → Option Fields × Checker)
      → Bool
      → String
      → String
      → Checker
      → Option Fields × Checker
  unfolding write_preflight is_protected
  pass_move check agent_bridge src dst checker =
      pass_target quoted S (FileWorld.world world) backups check dst
        (World.resolve (FileWorld.world world) dst)
        (pass_target quoted S (FileWorld.world world) backups check src
          (World.resolve (FileWorld.world world) src)
          (then_preflight check agent_bridge dst (write_preflight check agent_bridge src checker)))

  abbrev pub backup_error : String → Fields
  backup_error message = refusal "BACKUP_ERROR" message

  -- `_trash_file`, after the capture
  abbrev pub delete_trashed : Checker → String → String → S → Version → Trashing → Moved S
  delete_trashed checker path real store v (trash_failed reason) =
      halt checker store (refusal "TRASH_ERROR" ("Trash operation failed: " <> reason))
  delete_trashed checker path real store v (trashed_to place) = record {
    reply = field "ok" (bool true) (
        field "path" (str path)
          (field "sha256" (str (Version.sha256 v)) (field "trashed_to" (str place) end)));
    checker = checker;
    store = store;
    effect = some (trashed real);
  }

  abbrev pub delete_captured : Checker → String → String → S × Outcome Version → Moved S
  delete_captured checker path real (store, raised e) =
      halt checker store (backup_error "Backup capture failed; delete aborted")
  delete_captured checker path real (store, returned v) =
      delete_trashed checker path real store v (FileWorld.trash_file world real)

  abbrev pub delete_read : Fields → Checker → S → String → Reading → Moved S
  delete_read params checker store path (contents prior_bytes) =
      delete_captured checker path (target_of path (World.resolve (FileWorld.world world) path)) (
        Backups.capture backups store path prior_bytes (text_param "proposal_id" "direct" params)
          delete (text_param "actor" "agent" params))
  delete_read params checker store path absent =
      halt checker store (refusal "READ_ERROR" ("Cannot read file: " <> FileWorld.missing world))
  delete_read params checker store path outside =
      halt checker store (path_not_allowed quoted S (FileWorld.world world) backups path)
  delete_read params checker store path (os_error reason) =
      halt checker store (refusal "READ_ERROR" ("Cannot read file: " <> reason))

  abbrev pub delete_passed : Fields → S → String → Option Fields × Checker → Moved S
  delete_passed params store path (some denied, checker) = halt checker store denied
  delete_passed params store path (none, checker) =
      if not (FileWorld.exists world (target_of path (World.resolve (FileWorld.world world) path)))
      then halt checker store (refusal "NOT_FOUND" ("Path does not exist: " <> quoted path))
      else delete_read params checker store path (World.read (FileWorld.world world) path)

  -- The replacement, and the history that follows the file
  abbrev pub move_reply : String → String → Bytes → Bool → Fields
  move_reply src dst bytes history_moved = field "ok" (bool true) (
      field "src" (str src) (
        field "dst" (str dst) (
          field "size" (int (pos (length bytes)))
            (field "history_moved" (bool history_moved) end))))

  abbrev pub move_replaced : Checker → String → String → Bytes → S → Moving → Moved S
  move_replaced checker src dst bytes store escaped =
      halt checker store
        (refusal "PATH_NOT_ALLOWED" "Source or destination escapes the allowed roots")
  move_replaced checker src dst bytes store cross_device = halt checker store (
      refusal "CROSS_DEVICE"
        "Cross-device moves are not supported; use fs.write + fs.delete instead")
  move_replaced checker src dst bytes store (move_failed reason) =
      halt checker store (refusal "MOVE_ERROR" ("Move failed: " <> reason))
  move_replaced checker src dst bytes store replaced = record {
    reply =
        move_reply src dst bytes (history_moved (Backups.rename_history backups store src dst).1);
    checker = checker;
    store = (Backups.rename_history backups store src dst).0;
    effect = some (moved src dst);
  }

  abbrev pub move_captured : Checker → String → String → Bytes → S × Outcome Version → Moved S
  move_captured checker src dst bytes (store, raised e) =
      halt checker store (backup_error "Backup capture of source failed; move aborted")
  move_captured checker src dst bytes (store, returned v) =
      move_replaced checker src dst bytes store (FileWorld.replace_file world src dst)

  abbrev pub move_source : Fields → Checker → String → String → S → Reading → Moved S
  move_source params checker src dst store (contents bytes) = move_captured checker src dst bytes (
      Backups.capture backups store src bytes (text_param "proposal_id" "direct" params) move_src
        (text_param "actor" "agent" params))
  move_source params checker src dst store absent =
      halt checker store (refusal "READ_ERROR" ("Cannot read source: " <> FileWorld.missing world))
  move_source params checker src dst store outside =
      halt checker store (path_not_allowed quoted S (FileWorld.world world) backups src)
  move_source params checker src dst store (os_error reason) =
      halt checker store (refusal "READ_ERROR" ("Cannot read source: " <> reason))

  abbrev pub dst_captured : Fields → Checker → String → String → S × Outcome Version → Moved S
  dst_captured params checker src dst (store, raised e) =
      halt checker store (backup_error "Backup capture of destination failed; move aborted")
  dst_captured params checker src dst (store, returned v) =
      move_source params checker src dst store (World.read (FileWorld.world world) src)

  -- The bytes of the destination, which are empty where it is gone
  abbrev pub capture_dst : Fields → Checker → String → String → S → Bytes → Moved S
  capture_dst params checker src dst store bytes = dst_captured params checker src dst (
      Backups.capture backups store dst bytes
        ("pre-move-" <> text_param "proposal_id" "direct" params) move_dst
        (text_param "actor" "agent" params))

  abbrev pub move_over : Fields → Checker → String → String → S → Reading → Moved S
  move_over params checker src dst store (contents bytes) =
      capture_dst params checker src dst store bytes
  move_over params checker src dst store absent = capture_dst params checker src dst store []
  move_over params checker src dst store outside =
      halt checker store (path_not_allowed quoted S (FileWorld.world world) backups dst)
  move_over params checker src dst store (os_error reason) =
      halt checker store (refusal "READ_ERROR" ("Cannot read destination prior bytes: " <> reason))

  abbrev pub move_passed : Fields → S → String → String → Option Fields × Checker → Moved S
  move_passed params store src dst (some denied, checker) = halt checker store denied
  move_passed params store src dst (none, checker) =
      let real_src = target_of src (World.resolve (FileWorld.world world) src) in
      let real_dst = target_of dst (World.resolve (FileWorld.world world) dst) in
      if not (FileWorld.exists world real_src)
      then halt checker store (refusal "NOT_FOUND" ("Source path does not exist: " <> quoted src))
      else if real_src == real_dst
      then halt checker store (refusal "INVALID_PARAM" "src and dst must differ")
      else if FileWorld.exists world real_dst
      then move_over params checker src dst store (World.read (FileWorld.world world) dst)
      else move_source params checker src dst store (World.read (FileWorld.world world) src)

  abbrev pub move_bridge : Fields → String → String → Bool
  move_bridge params src dst =
      bridge_or (is_protected src || is_protected dst) (get "agent_bridge" params)

  -- `sha256_hex` and `as_tuple` are the parameters of the approval markers.
  module _ (sha256_hex : String → String) (as_tuple : ℕ → DecimalTuple) (caller : Option Caller)
      (now : ℕ) where
    abbrev pub delete_valid : Fields → UsedIds → S → Option Fields → Moved S
    delete_valid params used store (some invalid) =
        halt (approval_checker params used) store invalid
    delete_valid params used store none =
        if text_param "path" "" params == ""
        then halt (approval_checker params used) store (refusal "MISSING_PARAM" "path is required")
        else delete_passed params store (text_param "path" "" params) (
            pass_gates quoted S (FileWorld.world world) backups
              (check_once sha256_hex as_tuple caller now "fs.delete")
              (truthy (get "agent_bridge" params)) (text_param "path" "" params)
              (approval_checker params used))

    -- `handle_fs_delete`
    unfoldable pub handle_fs_delete : Fields → UsedIds → S → Moved S
    unfolding strict_keys_error pass_gates check_once truthy
    handle_fs_delete params used store =
        delete_valid params used store (strict_keys_error params delete_keys [])

    abbrev pub move_valid : Fields → UsedIds → S → Option Fields → Moved S
    move_valid params used store (some invalid) = halt (approval_checker params used) store invalid
    move_valid params used store none =
        let src = text_param "src" "" params in
        let dst = text_param "dst" "" params in
        if src == ""
        then halt (approval_checker params used) store (refusal "MISSING_PARAM" "src is required")
        else if dst == ""
        then halt (approval_checker params used) store (refusal "MISSING_PARAM" "dst is required")
        else move_passed params store src dst (
            pass_move (check_once sha256_hex as_tuple caller now "fs.move")
              (move_bridge params src dst) src dst (approval_checker params used))

    -- `handle_fs_move`
    unfoldable pub handle_fs_move : Fields → UsedIds → S → Moved S
    unfolding strict_keys_error pass_move check_once truthy is_protected
    handle_fs_move params used store =
        move_valid params used store (strict_keys_error params move_keys [])
