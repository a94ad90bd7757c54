-- ===== src/Files/Write/Restored.antt =====
-- commands/fs_write.py: handle_fs_restore is gated.
use openclaw_hass_node.Prelude.{
  ℕ, String, ◌≡◌, refl, not, Option, none, some, [], ◌==◌, eqb, ℤ, ◌⊎◌, inl,
}
use openclaw_hass_node.Value.{Value, Fields, get}
use openclaw_hass_node.Authz.Turn.{truthy}
use openclaw_hass_node.Caller.{Caller}
use openclaw_hass_node.Commands.Params.{strict_keys_error}
use openclaw_hass_node.Policy.Canonical.{DecimalTuple}
use openclaw_hass_node.Policy.Marker.{UsedIds}
use openclaw_hass_node.Policy.Marker.Checker.{Checker, approval_checker, check_once}
use openclaw_hass_node.Files.Lines.{Bytes}
use openclaw_hass_node.Files.Patch.{PatchApplyError}
use openclaw_hass_node.Files.Backup.{BackupError, Outcome, returned, raised, Version}
use openclaw_hass_node.Files.Write.{
  restore_keys, Reading, contents, absent, outside, os_error, World, Backups, pass_gates,
}
use openclaw_hass_node.Files.Write.Handlers.{
  selectors, restore_selector, int_selector, restore_over, restore_fetched, restore_found,
  restore_selected, restore_passed, restore_valid, handle_fs_restore,
}
use openclaw_hass_node.Files.Write.Admitted.{
  check_once-result, IsTail, if-IsTail, capture_and_write-IsTail, capture_nothing-IsTail,
  pass_gates-IsAdmitted,
}
use openclaw_hass_node.Files.Write.Admission.{path_of, IsGated, IsTail-IsGated, if-IsGated}

module _ (sha256_hex : String → String) (as_tuple : ℕ → DecimalTuple) (caller : Option Caller)
    (now : ℕ) (printed : Value → String) (parsed_int : Value → Option ℤ) (quoted : String → String)
    (decode_base64 : String → String ⊎ Bytes) (sha256 : Bytes → String) (digit : ℕ → Option ℕ)
    (error_text : PatchApplyError → String) (backup_text : BackupError → String) (S : Type 0)
    (world : World) (backups : Backups S) where
  -- fs.restore
  restore_over-IsTail :
      (params : Fields) (checker : Checker) (store : S) (path : String) (v : Version)
      (bytes : Bytes) (r : Reading)
      → World.read world path ≡ r
      → IsTail quoted S world backups checker store path (
          restore_over sha256_hex as_tuple caller now printed parsed_int quoted decode_base64 sha256
            digit error_text backup_text S world backups params checker store path v bytes r)
  restore_over-IsTail params checker store path v bytes (contents prior_bytes) h =
      capture_and_write-IsTail quoted S world backups _ checker store path prior_bytes bytes _ h
  restore_over-IsTail params checker store path v bytes absent h =
      capture_nothing-IsTail quoted S world backups _ checker store path bytes _ h
  restore_over-IsTail params checker store path v bytes outside h = inl refl
  restore_over-IsTail params checker store path v bytes (os_error reason) h = inl refl

  restore_fetched-IsTail :
      (params : Fields) (checker : Checker) (store : S) (path : String) (v : Version)
      (o : Outcome Bytes)
      → IsTail quoted S world backups checker store path (
          restore_fetched sha256_hex as_tuple caller now printed parsed_int quoted decode_base64
            sha256 digit error_text backup_text S world backups params checker store path v o)
  restore_fetched-IsTail params checker store path v (raised e) = inl refl
  restore_fetched-IsTail params checker store path v (returned bytes) =
      restore_over-IsTail params checker store path v bytes (World.read world path) refl

  restore_found-IsTail :
      (params : Fields) (checker : Checker) (store : S) (path : String) (o : Outcome Version)
      → IsTail quoted S world backups checker store path (
          restore_found sha256_hex as_tuple caller now printed parsed_int quoted decode_base64
            sha256 digit error_text backup_text S world backups params checker store path o)
  restore_found-IsTail params checker store path (raised e) = inl refl
  restore_found-IsTail params checker store path (returned v) =
      restore_fetched-IsTail params checker store path v _

  restore_selected-IsTail :
      (params : Fields) (checker : Checker) (store : S) (path : String) (o : Option (Option ℤ))
      → IsTail quoted S world backups checker store path (
          restore_selected sha256_hex as_tuple caller now printed parsed_int quoted decode_base64
            sha256 digit error_text backup_text S world backups params checker store path o)
  restore_selected-IsTail params checker store path none = inl refl
  restore_selected-IsTail params checker store path (some version) =
      if-IsTail quoted S world backups
        (not (
          eqb
            (selectors sha256_hex as_tuple caller now printed parsed_int quoted decode_base64 sha256
              digit error_text backup_text S world backups
              (restore_selector sha256_hex as_tuple caller now printed parsed_int quoted
                decode_base64 sha256 digit error_text backup_text S world backups params version))
            1))
        checker store path _ _ (inl refl) (restore_found-IsTail params checker store path _)

  restore_passed-IsGated :
      (params : Fields) (store : S) (before : Checker) (g : Option Fields × Checker)
      → pass_gates quoted S world backups
          (check_once sha256_hex as_tuple caller now "fs.restore")
          (truthy (get "agent_bridge" params))
          (path_of sha256_hex as_tuple caller now printed parsed_int quoted decode_base64 sha256
            digit error_text backup_text S world backups params)
          before
        ≡ g
      → IsGated sha256_hex as_tuple caller now printed parsed_int quoted decode_base64 sha256 digit
          error_text backup_text S world backups params store
          (restore_passed sha256_hex as_tuple caller now printed parsed_int quoted decode_base64
            sha256 digit error_text backup_text S world backups params store
            (path_of sha256_hex as_tuple caller now printed parsed_int quoted decode_base64 sha256
              digit error_text backup_text S world backups params)
            g)
  restore_passed-IsGated params store before (some denied, checker) h = inl refl
  restore_passed-IsGated params store before (none, checker) h =
      IsTail-IsGated sha256_hex as_tuple caller now printed parsed_int quoted decode_base64 sha256
        digit error_text backup_text S world backups params store checker
        (restore_selected sha256_hex as_tuple caller now printed parsed_int quoted decode_base64
          sha256 digit error_text backup_text S world backups params checker store
          (path_of sha256_hex as_tuple caller now printed parsed_int quoted decode_base64 sha256
            digit error_text backup_text S world backups params)
          (int_selector sha256_hex as_tuple caller now printed parsed_int quoted decode_base64
            sha256 digit error_text backup_text S world backups (get "version" params)))
        (pass_gates-IsAdmitted quoted S world backups _
          (check_once-result sha256_hex as_tuple caller now "fs.restore") _
          (path_of sha256_hex as_tuple caller now printed parsed_int quoted decode_base64 sha256
            digit error_text backup_text S world backups params)
          before checker h)
        (restore_selected-IsTail params checker store
          (path_of sha256_hex as_tuple caller now printed parsed_int quoted decode_base64 sha256
            digit error_text backup_text S world backups params)
          (int_selector sha256_hex as_tuple caller now printed parsed_int quoted decode_base64
            sha256 digit error_text backup_text S world backups (get "version" params)))

  restore_valid-IsGated :
      (params : Fields) (used : UsedIds) (store : S) (invalid : Option Fields)
      → IsGated sha256_hex as_tuple caller now printed parsed_int quoted decode_base64 sha256 digit
          error_text backup_text S world backups params store
          (restore_valid sha256_hex as_tuple caller now printed parsed_int quoted decode_base64
            sha256 digit error_text backup_text S world backups params used store invalid)
  restore_valid-IsGated params used store (some invalid) = inl refl
  restore_valid-IsGated params used store none =
      if-IsGated sha256_hex as_tuple caller now printed parsed_int quoted decode_base64 sha256 digit
        error_text backup_text S world backups
        (path_of sha256_hex as_tuple caller now printed parsed_int quoted decode_base64 sha256 digit
            error_text backup_text S world backups params
          == "")
        params store _ _ (inl refl)
        (restore_passed-IsGated params store (approval_checker params used) _ refl)

  pub handle_fs_restore-IsGated :
      (params : Fields) (used : UsedIds) (store : S)
      → IsGated sha256_hex as_tuple caller now printed parsed_int quoted decode_base64 sha256 digit
          error_text backup_text S world backups params store
          (handle_fs_restore sha256_hex as_tuple caller now printed parsed_int quoted decode_base64
            sha256 digit error_text backup_text S world backups params used store)
  unfolding handle_fs_restore
  handle_fs_restore-IsGated params used store =
      restore_valid-IsGated params used store (strict_keys_error params restore_keys [])
