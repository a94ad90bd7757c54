-- ===== src/Files/Write/Written.antt =====
-- commands/fs_write.py: handle_fs_write is gated.
use openclaw_hass_node.Prelude.{
  ℕ, String, ◌≡◌, refl, Option, none, some, [], ◌==◌, ltb, length, ℤ, ◌⊎◌, inl,
}
use openclaw_hass_node.Value.{Value, null, bool, int, float, str, list, dict, Fields, get}
use openclaw_hass_node.Authz.Turn.{truthy}
use openclaw_hass_node.Caller.{Caller}
use openclaw_hass_node.Commands.Params.{strict_keys_error}
use openclaw_hass_node.Policy.Canonical.{DecimalTuple}
use openclaw_hass_node.Policy.Marker.{UsedIds}
use openclaw_hass_node.Policy.Marker.Checker.{Checker, check_once}
use openclaw_hass_node.Files.Lines.{Bytes}
use openclaw_hass_node.Files.Patch.{PatchApplyError}
use openclaw_hass_node.Files.Backup.{BackupError}
use openclaw_hass_node.Files.Write.{
  max_write_bytes, write_keys, Reading, contents, absent, outside, os_error, World, Backups,
  pass_gates,
}
use openclaw_hass_node.Files.Write.Handlers.{
  Decoded, decoded, undecodable, value_text, text_at, decode_content, write_over, write_decoded,
  write_passed, write_checked, write_valid, handle_fs_write,
}
use openclaw_hass_node.Files.Write.Admitted.{
  check_once-result, IsTail, if-IsTail, capture_and_write-IsTail, write_new-IsTail,
  pass_gates-IsAdmitted,
}
use openclaw_hass_node.Files.Write.Admission.{path_of, IsGated, IsTail-IsGated, if-IsGated}

module _ (sha256_hex : String → String) (as_tuple : ℕ → DecimalTuple) (caller : Option Caller)
    (now : ℕ) (printed : Value → String) (parsed_int : Value → Option ℤ) (quoted : String → String)
    (decode_base64 : String → String ⊎ Bytes) (sha256 : Bytes → String) (digit : ℕ → Option ℕ)
    (error_text : PatchApplyError → String) (backup_text : BackupError → String) (S : Type 0)
    (world : World) (backups : Backups S) where
  -- fs.write
  write_over-IsTail :
      (params : Fields) (checker : Checker) (store : S) (path : String) (bytes : Bytes)
      (r : Reading)
      → World.read world path ≡ r
      → IsTail quoted S world backups checker store path (
          write_over sha256_hex as_tuple caller now printed parsed_int quoted decode_base64 sha256
            digit error_text backup_text S world backups params checker store path bytes r)
  write_over-IsTail params checker store path bytes (contents prior_bytes) h =
      capture_and_write-IsTail quoted S world backups _ checker store path prior_bytes bytes _ h
  write_over-IsTail params checker store path bytes absent h =
      write_new-IsTail quoted S world backups _ checker store path bytes _ h
  write_over-IsTail params checker store path bytes outside h = inl refl
  write_over-IsTail params checker store path bytes (os_error reason) h = inl refl

  write_decoded-IsTail :
      (params : Fields) (checker : Checker) (store : S) (path : String) (c : Decoded)
      → IsTail quoted S world backups checker store path (
          write_decoded sha256_hex as_tuple caller now printed parsed_int quoted decode_base64
            sha256 digit error_text backup_text S world backups params checker store path c)
  write_decoded-IsTail params checker store path (undecodable error) = inl refl
  write_decoded-IsTail params checker store path (decoded bytes) =
      if-IsTail quoted S world backups (ltb max_write_bytes (length bytes)) checker store path _ _
        (inl refl) (write_over-IsTail params checker store path bytes (World.read world path) refl)

  write_passed-IsGated :
      (params : Fields) (store : S) (content : Value) (before : Checker)
      (g : Option Fields × Checker)
      → pass_gates quoted S world backups
          (check_once sha256_hex as_tuple caller now "fs.write")
          (truthy (get "agent_bridge" params))
          (path_of sha256_hex as_tuple caller now printed parsed_int quoted decode_base64 sha256
            digit error_text backup_text S world backups params)
          before
        ≡ g
      → IsGated sha256_hex as_tuple caller now printed parsed_int quoted decode_base64 sha256 digit
          error_text backup_text S world backups params store
          (write_passed sha256_hex as_tuple caller now printed parsed_int quoted decode_base64
            sha256 digit error_text backup_text S world backups params store
            (path_of sha256_hex as_tuple caller now printed parsed_int quoted decode_base64 sha256
              digit error_text backup_text S world backups params)
            content
            g)
  write_passed-IsGated params store content before (some denied, checker) h = inl refl
  write_passed-IsGated params store content before (none, checker) h =
      IsTail-IsGated sha256_hex as_tuple caller now printed parsed_int quoted decode_base64 sha256
        digit error_text backup_text S world backups params store checker
        (write_decoded sha256_hex as_tuple caller now printed parsed_int quoted decode_base64 sha256
          digit error_text backup_text S world backups params checker store
          (path_of sha256_hex as_tuple caller now printed parsed_int quoted decode_base64 sha256
            digit error_text backup_text S world backups params)
          (decode_content sha256_hex as_tuple caller now printed parsed_int quoted decode_base64
            sha256 digit error_text backup_text S world backups
            (value_text sha256_hex as_tuple caller now printed parsed_int quoted decode_base64
              sha256 digit error_text backup_text S world backups content)
            (text_at sha256_hex as_tuple caller now printed parsed_int quoted decode_base64 sha256
              digit error_text backup_text S world backups "encoding" "utf-8" params)))
        (pass_gates-IsAdmitted quoted S world backups _
          (check_once-result sha256_hex as_tuple caller now "fs.write") _
          (path_of sha256_hex as_tuple caller now printed parsed_int quoted decode_base64 sha256
            digit error_text backup_text S world backups params)
          before checker h)
        (write_decoded-IsTail params checker store
          (path_of sha256_hex as_tuple caller now printed parsed_int quoted decode_base64 sha256
            digit error_text backup_text S world backups params)
          (decode_content sha256_hex as_tuple caller now printed parsed_int quoted decode_base64
            sha256 digit error_text backup_text S world backups
            (value_text sha256_hex as_tuple caller now printed parsed_int quoted decode_base64
              sha256 digit error_text backup_text S world backups content)
            (text_at sha256_hex as_tuple caller now printed parsed_int quoted decode_base64 sha256
              digit error_text backup_text S world backups "encoding" "utf-8" params)))

  write_checked-IsGated :
      (params : Fields) (used : UsedIds) (store : S) (content : Option Value)
      → IsGated sha256_hex as_tuple caller now printed parsed_int quoted decode_base64 sha256 digit
          error_text backup_text S world backups params store
          (write_checked sha256_hex as_tuple caller now printed parsed_int quoted decode_base64
            sha256 digit error_text backup_text S world backups params used store
            (path_of sha256_hex as_tuple caller now printed parsed_int quoted decode_base64 sha256
              digit error_text backup_text S world backups params)
            content)
  write_checked-IsGated params used store none = inl refl
  write_checked-IsGated params used store (some null) = inl refl
  write_checked-IsGated params used store (some (bool b)) =
      write_passed-IsGated params store (bool b) _ _ refl
  write_checked-IsGated params used store (some (int n)) =
      write_passed-IsGated params store (int n) _ _ refl
  write_checked-IsGated params used store (some (float n)) =
      write_passed-IsGated params store (float n) _ _ refl
  write_checked-IsGated params used store (some (str t)) =
      write_passed-IsGated params store (str t) _ _ refl
  write_checked-IsGated params used store (some (list vs)) =
      write_passed-IsGated params store (list vs) _ _ refl
  write_checked-IsGated params used store (some (dict d)) =
      write_passed-IsGated params store (dict d) _ _ refl

  write_valid-IsGated :
      (params : Fields) (used : UsedIds) (store : S) (invalid : Option Fields)
      → IsGated sha256_hex as_tuple caller now printed parsed_int quoted decode_base64 sha256 digit
          error_text backup_text S world backups params store
          (write_valid sha256_hex as_tuple caller now printed parsed_int quoted decode_base64 sha256
            digit error_text backup_text S world backups params used store invalid)
  write_valid-IsGated params used store (some invalid) = inl refl
  write_valid-IsGated params used store none =
      if-IsGated sha256_hex as_tuple caller now printed parsed_int quoted decode_base64 sha256 digit
        error_text backup_text S world backups
        (path_of sha256_hex as_tuple caller now printed parsed_int quoted decode_base64 sha256 digit
            error_text backup_text S world backups params
          == "")
        params store _ _ (inl refl) (write_checked-IsGated params used store (get "content" params))

  pub handle_fs_write-IsGated :
      (params : Fields) (used : UsedIds) (store : S)
      → IsGated sha256_hex as_tuple caller now printed parsed_int quoted decode_base64 sha256 digit
          error_text backup_text S world backups params store
          (handle_fs_write sha256_hex as_tuple caller now printed parsed_int quoted decode_base64
            sha256 digit error_text backup_text S world backups params used store)
  unfolding handle_fs_write
  handle_fs_write-IsGated params used store =
      write_valid-IsGated params used store (strict_keys_error params write_keys [])
