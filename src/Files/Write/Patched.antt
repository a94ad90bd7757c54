-- ===== src/Files/Write/Patched.antt =====
-- commands/fs_patch.py: handle_fs_patch is gated.
use openclaw_hass_node.Prelude.{
  ℕ, String, ◌≡◌, refl, false, Option, none, some, [], ◌==◌, ltb, length, ℤ, ◌⊎◌, inl,
}
use openclaw_hass_node.Value.{Value, Fields, get}
use openclaw_hass_node.Authz.Turn.{truthy}
use openclaw_hass_node.Caller.{Caller}
use openclaw_hass_node.Commands.Params.{strict_keys_error}
use openclaw_hass_node.Policy.Canonical.{DecimalTuple}
use openclaw_hass_node.Policy.Marker.{UsedIds}
use openclaw_hass_node.Policy.Marker.Checker.{Checker, approval_checker, check_once}
use openclaw_hass_node.Files.Lines.{Bytes, codes, utf8}
use openclaw_hass_node.Files.Patch.{Result, ok, failed, value_error, PatchApplyError, run_patch}
use openclaw_hass_node.Files.Backup.{BackupError}
use openclaw_hass_node.Files.Write.{
  max_write_bytes, max_patch_bytes, patch_keys, Reading, contents, absent, outside, os_error, World,
  Backups, pass_gates,
}
use openclaw_hass_node.Files.Write.Handlers.{
  text_at, patch_applied, patch_over, patch_passed, patch_valid, handle_fs_patch,
}
use openclaw_hass_node.Files.Write.Admitted.{
  check_once-result, IsTail, if-IsTail, capture_and_write-IsTail, pass_gates-IsAdmitted,
}
use openclaw_hass_node.Files.Write.Admission.{path_of, IsGated, IsTail-IsGated, if-IsGated}

module _ (sha256_hex : String → String) (as_tuple : ℕ → DecimalTuple) (caller : Option Caller)
    (now : ℕ) (printed : Value → String) (parsed_int : Value → Option ℤ) (quoted : String → String)
    (decode_base64 : String → String ⊎ Bytes) (sha256 : Bytes → String) (digit : ℕ → Option ℕ)
    (error_text : PatchApplyError → String) (backup_text : BackupError → String) (S : Type 0)
    (world : World) (backups : Backups S) where
  -- fs.patch
  patch_applied-IsTail :
      (params : Fields) (checker : Checker) (store : S) (path : String) (original : Bytes)
      (r : Result (Bytes × ℕ))
      → World.read world path ≡ contents original
      → IsTail quoted S world backups checker store path (
          patch_applied sha256_hex as_tuple caller now printed parsed_int quoted decode_base64
            sha256 digit error_text backup_text S world backups params checker store path original
            r)
  patch_applied-IsTail params checker store path original (failed e) h = inl refl
  patch_applied-IsTail params checker store path original value_error h = inl refl
  patch_applied-IsTail params checker store path original (ok (patched, hunks)) h =
      if-IsTail quoted S world backups (ltb max_write_bytes (length patched)) checker store path _ _
        (inl refl)
        (if-IsTail quoted S world backups (truthy (get "dry_run" params)) checker store path _ _
          (inl refl)
          (capture_and_write-IsTail quoted S world backups _ checker store path original patched _
            h))

  patch_over-IsTail :
      (params : Fields) (checker : Checker) (store : S) (path patch_text : String) (r : Reading)
      → World.read world path ≡ r
      → IsTail quoted S world backups checker store path (
          patch_over sha256_hex as_tuple caller now printed parsed_int quoted decode_base64 sha256
            digit error_text backup_text S world backups params checker store path patch_text r)
  patch_over-IsTail params checker store path patch_text (contents original) h =
      patch_applied-IsTail params checker store path original
        (run_patch digit original patch_text false) h
  patch_over-IsTail params checker store path patch_text absent h = inl refl
  patch_over-IsTail params checker store path patch_text outside h = inl refl
  patch_over-IsTail params checker store path patch_text (os_error reason) h = inl refl

  patch_passed-IsGated :
      (params : Fields) (store : S) (patch_text : String) (before : Checker)
      (g : Option Fields × Checker)
      → pass_gates quoted S world backups
          (check_once sha256_hex as_tuple caller now "fs.patch")
          (truthy (get "agent_bridge" params))
          (path_of sha256_hex as_tuple caller now printed parsed_int quoted decode_base64 sha256
            digit error_text backup_text S world backups params)
          before
        ≡ g
      → IsGated sha256_hex as_tuple caller now printed parsed_int quoted decode_base64 sha256 digit
          error_text backup_text S world backups params store
          (patch_passed sha256_hex as_tuple caller now printed parsed_int quoted decode_base64
            sha256 digit error_text backup_text S world backups params store
            (path_of sha256_hex as_tuple caller now printed parsed_int quoted decode_base64 sha256
              digit error_text backup_text S world backups params)
            patch_text
            g)
  patch_passed-IsGated params store patch_text before (some denied, checker) h = inl refl
  patch_passed-IsGated params store patch_text before (none, checker) h =
      IsTail-IsGated sha256_hex as_tuple caller now printed parsed_int quoted decode_base64 sha256
        digit error_text backup_text S world backups params store checker
        (patch_over sha256_hex as_tuple caller now printed parsed_int quoted decode_base64 sha256
          digit error_text backup_text S world backups params checker store
          (path_of sha256_hex as_tuple caller now printed parsed_int quoted decode_base64 sha256
            digit error_text backup_text S world backups params)
          patch_text
          (World.read world (
            path_of sha256_hex as_tuple caller now printed parsed_int quoted decode_base64 sha256
              digit error_text backup_text S world backups params)))
        (pass_gates-IsAdmitted quoted S world backups _
          (check_once-result sha256_hex as_tuple caller now "fs.patch") _
          (path_of sha256_hex as_tuple caller now printed parsed_int quoted decode_base64 sha256
            digit error_text backup_text S world backups params)
          before checker h)
        (patch_over-IsTail params checker store
          (path_of sha256_hex as_tuple caller now printed parsed_int quoted decode_base64 sha256
            digit error_text backup_text S world backups params)
          patch_text
          (World.read world (
            path_of sha256_hex as_tuple caller now printed parsed_int quoted decode_base64 sha256
              digit error_text backup_text S world backups params))
          refl)

  patch_valid-IsGated :
      (params : Fields) (used : UsedIds) (store : S) (invalid : Option Fields)
      → IsGated sha256_hex as_tuple caller now printed parsed_int quoted decode_base64 sha256 digit
          error_text backup_text S world backups params store
          (patch_valid sha256_hex as_tuple caller now printed parsed_int quoted decode_base64 sha256
            digit error_text backup_text S world backups params used store invalid)
  patch_valid-IsGated params used store (some invalid) = inl refl
  patch_valid-IsGated params used store none =
      let patch_text =
        text_at sha256_hex as_tuple caller now printed parsed_int quoted decode_base64 sha256 digit
          error_text backup_text S world backups "patch" "" params in
      if-IsGated sha256_hex as_tuple caller now printed parsed_int quoted decode_base64 sha256 digit
        error_text backup_text S world backups
        (path_of sha256_hex as_tuple caller now printed parsed_int quoted decode_base64 sha256 digit
            error_text backup_text S world backups params
          == "")
        params store _ _ (inl refl)
        (if-IsGated sha256_hex as_tuple caller now printed parsed_int quoted decode_base64 sha256
          digit error_text backup_text S world backups (patch_text == "") params store _ _
          (inl refl)
          (if-IsGated sha256_hex as_tuple caller now printed parsed_int quoted decode_base64 sha256
            digit error_text backup_text S world backups
            (ltb max_patch_bytes (length (utf8 (codes patch_text)))) params store _ _ (inl refl)
            (patch_passed-IsGated params store patch_text (approval_checker params used) _ refl)))

  pub handle_fs_patch-IsGated :
      (params : Fields) (used : UsedIds) (store : S)
      → IsGated sha256_hex as_tuple caller now printed parsed_int quoted decode_base64 sha256 digit
          error_text backup_text S world backups params store
          (handle_fs_patch sha256_hex as_tuple caller now printed parsed_int quoted decode_base64
            sha256 digit error_text backup_text S world backups params used store)
  unfolding handle_fs_patch
  handle_fs_patch-IsGated params used store =
      patch_valid-IsGated params used store (strict_keys_error params patch_keys [])
