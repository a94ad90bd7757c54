-- ===== src/Files/Write/Admission.antt =====
-- commands/fs_write.py, commands/fs_patch.py: a call that wrote was admitted.
use openclaw_hass_node.Prelude.{
  ℕ, String, ◌≡◌, sym, subst, Bool, true, false, Option, none, some, if◌then◌else◌, ℤ, ◌⊎◌, inl,
  inr,
}
use openclaw_hass_node.Value.{Value, Fields, get}
use openclaw_hass_node.Authz.Turn.{truthy}
use openclaw_hass_node.Caller.{Caller}
use openclaw_hass_node.Policy.Canonical.{DecimalTuple}
use openclaw_hass_node.Policy.Marker.Checker.{Checker}
use openclaw_hass_node.Files.Lines.{Bytes}
use openclaw_hass_node.Files.Patch.{PatchApplyError}
use openclaw_hass_node.Files.Backup.{BackupError}
use openclaw_hass_node.Files.Write.{World, Backups, Done}
use openclaw_hass_node.Files.Write.Handlers.{text_at}
use openclaw_hass_node.Files.Write.Admitted.{IsCaptured, IsTail, IsAdmitted}

-- A call of a handler that has the parameters, and what it leaves: it wrote nothing, or it wrote the file of
-- its path, which it was admitted for and whose bytes it captured.
module _ (sha256_hex : String → String) (as_tuple : ℕ → DecimalTuple) (caller : Option Caller)
    (now : ℕ) (printed : Value → String) (parsed_int : Value → Option ℤ) (quoted : String → String)
    (decode_base64 : String → String ⊎ Bytes) (sha256 : Bytes → String) (digit : ℕ → Option ℕ)
    (error_text : PatchApplyError → String) (backup_text : BackupError → String) (S : Type 0)
    (world : World) (backups : Backups S) where
  abbrev pub path_of : Fields → String
  path_of params =
      text_at sha256_hex as_tuple caller now printed parsed_int quoted decode_base64 sha256 digit
        error_text backup_text S world backups "path" "" params

  abbrev pub IsGated : Fields → S → Done S → Type 0
  IsGated params store d =
      (d.written ≡ none)
      ⊎ ((bytes : Bytes) × (d.written ≡ some (path_of params, bytes))
          × IsAdmitted quoted S world backups (truthy (get "agent_bridge" params)) (path_of params)
              d.checker
          × IsCaptured quoted S world backups (path_of params) (World.read world (path_of params))
              store d.store)

  -- An admitted call whose rest is a tail is gated.
  pub IsTail-IsGated :
      (params : Fields) (store : S) (checker : Checker) (d : Done S)
      → IsAdmitted quoted S world backups
          (truthy (get "agent_bridge" params))
          (path_of params)
          checker
      → IsTail quoted S world backups checker store (path_of params) d
      → IsGated params store d
  IsTail-IsGated params store checker d a (inl e) = inl e
  IsTail-IsGated params store checker d a (inr (bytes, w, c, k)) = inr (
    bytes,
    w,
    subst
        (λ k.
          IsAdmitted quoted S world backups (truthy (get "agent_bridge" params)) (path_of params) k)
        (sym c) a,
    k,
  )

  pub if-IsGated :
      (b : Bool) (params : Fields) (store : S) (x y : Done S)
      → IsGated params store x
      → IsGated params store y
      → IsGated params store (if b then x else y)
  if-IsGated true params store x y f g = f
  if-IsGated false params store x y f g = g
