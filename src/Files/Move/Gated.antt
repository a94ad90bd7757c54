-- ===== src/Files/Move/Gated.antt =====
-- commands/fs_move_delete.py: what holds of a call that moves or deletes a file.
use openclaw_hass_node.Prelude.{
  ℕ, String, ◌≡◌, refl, sym, subst, Bool, true, false, not, Option, none, some, [], ◌==◌,
  if◌then◌else◌, ◌⊎◌, inl, inr,
}
use openclaw_hass_node.Value.{Value, Fields, get}
use openclaw_hass_node.Authz.Turn.{truthy}
use openclaw_hass_node.Caller.{Caller}
use openclaw_hass_node.Commands.Params.{strict_keys_error}
use openclaw_hass_node.Policy.Canonical.{DecimalTuple}
use openclaw_hass_node.Policy.Marker.{UsedIds}
use openclaw_hass_node.Policy.Marker.Checker.{Checker, approval_checker, check_once}
use openclaw_hass_node.Files.Lines.{Bytes}
use openclaw_hass_node.Files.Write.{contents, World, Backups, pass_gates}
use openclaw_hass_node.Files.Write.Admitted.{
  check_once-result, HasCapture, IsAdmitted, pass_gates-IsAdmitted,
}
use openclaw_hass_node.Files.Move.{
  FileWorld, moved, trashed, Moved, target_of, text_param, pass_move, delete_passed, delete_valid,
  delete_keys, handle_fs_delete, move_passed, move_bridge, move_valid, move_keys, handle_fs_move,
}
use openclaw_hass_node.Files.Move.Admitted.{pass_move-IsAdmitted}
use openclaw_hass_node.Files.Move.Kept.{
  delete_read-IsDeletion, IsMove, BothKept, move_from-IsMove, move_over-IsMove, IsMoved, if-effect,
}

module _ (printed : Value → String) (quoted : String → String) (S : Type 0) (world : FileWorld)
    (backups : Backups S) where
  -- A deletion that was admitted.
  abbrev pub IsGatedDelete : Fields → S → Moved S → Type 0
  IsGatedDelete params store d =
      let path = text_param printed quoted S world backups "path" "" params in
      (d.effect ≡ none)
      ⊎ ((d.effect ≡ some (trashed (target_of path (World.resolve (FileWorld.world world) path))))
          × IsAdmitted quoted S (FileWorld.world world) backups (truthy (get "agent_bridge" params))
              path d.checker
          × ((prior_bytes : Bytes) × (World.read (FileWorld.world world) path
                ≡ contents prior_bytes)
              × HasCapture quoted S (FileWorld.world world) backups path prior_bytes store d.store))

  delete_passed-IsGatedDelete :
      (params : Fields) (store : S) (check : Checker → Option Fields × Checker) (before : Checker)
      (g : Option Fields × Checker)
      → ((c : Checker) → (check c).1.result ≡ some (check c).0)
      → pass_gates quoted S
          (FileWorld.world world)
          backups
          check
          (truthy (get "agent_bridge" params))
          (text_param printed quoted S world backups "path" "" params)
          before
        ≡ g
      → IsGatedDelete params store (
          delete_passed printed quoted S world backups params store
            (text_param printed quoted S world backups "path" "" params)
            g)
  delete_passed-IsGatedDelete params store check before (some denied, checker) settles h = inl refl
  delete_passed-IsGatedDelete params store check before (none, checker) settles h =
      let path = text_param printed quoted S world backups "path" "" params in
      let admitted =
        pass_gates-IsAdmitted quoted S (FileWorld.world world) backups check settles
          (truthy (get "agent_bridge" params)) path before checker h in
      if-effect printed quoted S world backups
        (not (FileWorld.exists world (target_of path (World.resolve (FileWorld.world world) path))))
        (λ d.
          (d.effect ≡ some (trashed (target_of path (World.resolve (FileWorld.world world) path))))
          × IsAdmitted quoted S (FileWorld.world world) backups (truthy (get "agent_bridge" params))
              path d.checker
          × ((prior_bytes : Bytes) × (World.read (FileWorld.world world) path
                ≡ contents prior_bytes)
              × HasCapture quoted S (FileWorld.world world) backups path prior_bytes store d.store))
        _ _ (λ e. inl refl)
        (λ e.
          elim (delete_read-IsDeletion printed quoted S world backups params checker store path
            (World.read (FileWorld.world world) path) refl) [
              | inl e ↦ inl e
              | inr (w, c, k) ↦ inr (
                w,
                subst
                    (λ k.
                      IsAdmitted quoted S (FileWorld.world world) backups
                        (truthy (get "agent_bridge" params)) path k)
                    (sym c) admitted,
                k,
              )
            ])

  -- A move that was admitted.
  abbrev pub IsGatedMove : Fields → S → Moved S → Type 0
  IsGatedMove params store d =
      let src = text_param printed quoted S world backups "src" "" params in
      let dst = text_param printed quoted S world backups "dst" "" params in
      (d.effect ≡ none)
      ⊎ ((d.effect ≡ some (moved src dst))
          × IsAdmitted quoted S (FileWorld.world world) backups
              (move_bridge printed quoted S world backups params src dst) src d.checker
          × IsAdmitted quoted S (FileWorld.world world) backups
              (move_bridge printed quoted S world backups params src dst) dst d.checker
          × BothKept printed quoted S world backups src dst store d.store)

  IsMove-IsGatedMove :
      (params : Fields) (store : S) (checker : Checker) (d : Moved S)
      → let src = text_param printed quoted S world backups "src" "" params in
        let dst = text_param printed quoted S world backups "dst" "" params in
        IsAdmitted quoted S
            (FileWorld.world world)
            backups
            (move_bridge printed quoted S world backups params src dst)
            src
            checker
          × IsAdmitted quoted S
              (FileWorld.world world)
              backups
              (move_bridge printed quoted S world backups params src dst)
              dst
              checker
        → IsMove printed quoted S world backups checker src dst d
            (λ final. BothKept printed quoted S world backups src dst store final)
        → IsGatedMove params store d
  IsMove-IsGatedMove params store checker d a (inl e) = inl e
  IsMove-IsGatedMove params store checker d (a, b) (inr (w, c, k)) =
      let src = text_param printed quoted S world backups "src" "" params in
      let dst = text_param printed quoted S world backups "dst" "" params in
      let bridge = move_bridge printed quoted S world backups params src dst in
      inr (
        w,
        subst (λ k. IsAdmitted quoted S (FileWorld.world world) backups bridge src k) (sym c) a,
        subst (λ k. IsAdmitted quoted S (FileWorld.world world) backups bridge dst k) (sym c) b,
        k,
      )

  move_passed-IsGatedMove :
      (params : Fields) (store : S) (check : Checker → Option Fields × Checker) (before : Checker)
      (g : Option Fields × Checker)
      → ((c : Checker) → (check c).1.result ≡ some (check c).0)
      → let src = text_param printed quoted S world backups "src" "" params in
        let dst = text_param printed quoted S world backups "dst" "" params in
        pass_move printed quoted S world backups check
            (move_bridge printed quoted S world backups params src dst)
            src
            dst
            before
          ≡ g
        → IsGatedMove params store
            (move_passed printed quoted S world backups params store src dst g)
  move_passed-IsGatedMove params store check before (some denied, checker) settles h = inl refl
  move_passed-IsGatedMove params store check before (none, checker) settles h =
      let src = text_param printed quoted S world backups "src" "" params in
      let dst = text_param printed quoted S world backups "dst" "" params in
      let real_src = target_of src (World.resolve (FileWorld.world world) src) in
      let real_dst = target_of dst (World.resolve (FileWorld.world world) dst) in
      IsMove-IsGatedMove params store checker
        (move_passed printed quoted S world backups params store src dst (none, checker))
        (pass_move-IsAdmitted printed quoted S world backups check settles
          (move_bridge printed quoted S world backups params src dst) src dst before checker h)
        (if-effect printed quoted S world backups (not (FileWorld.exists world real_src))
          (IsMoved printed quoted S world backups checker src dst store) _ _ (λ e. inl refl)
          (λ e.
            if-effect printed quoted S world backups (real_src == real_dst)
              (IsMoved printed quoted S world backups checker src dst store) _ _ (λ e. inl refl)
              (λ e.
                if-effect printed quoted S world backups (FileWorld.exists world real_dst)
                  (IsMoved printed quoted S world backups checker src dst store) _ _
                  (λ e.
                    move_over-IsMove printed quoted S world backups params checker src dst store
                      (World.read (FileWorld.world world) dst) refl)
                  (λ e.
                    move_from-IsMove printed quoted S world backups params checker src dst store
                      store (inl (e, refl))))))

  module _ (sha256_hex : String → String) (as_tuple : ℕ → DecimalTuple) (caller : Option Caller)
      (now : ℕ) where
    if-IsGated :
        (b : Bool) (P : Moved S → Type 0) (x y : Moved S) → P x → P y → P (if b then x else y)
    if-IsGated true P x y f g = f
    if-IsGated false P x y f g = g

    delete_valid-IsGatedDelete :
        (params : Fields) (used : UsedIds) (store : S) (invalid : Option Fields)
        → IsGatedDelete params store (
            delete_valid printed quoted S world backups sha256_hex as_tuple caller now params used
              store invalid)
    delete_valid-IsGatedDelete params used store (some invalid) = inl refl
    delete_valid-IsGatedDelete params used store none =
        if-IsGated (text_param printed quoted S world backups "path" "" params == "")
          (IsGatedDelete params store) _ _ (inl refl)
          (delete_passed-IsGatedDelete params store
            (check_once sha256_hex as_tuple caller now "fs.delete") (approval_checker params used) _
            (check_once-result sha256_hex as_tuple caller now "fs.delete") refl)

    move_valid-IsGatedMove :
        (params : Fields) (used : UsedIds) (store : S) (invalid : Option Fields)
        → IsGatedMove params store (
            move_valid printed quoted S world backups sha256_hex as_tuple caller now params used
              store invalid)
    move_valid-IsGatedMove params used store (some invalid) = inl refl
    move_valid-IsGatedMove params used store none =
        if-IsGated (text_param printed quoted S world backups "src" "" params == "")
          (IsGatedMove params store) _ _ (inl refl)
          (if-IsGated (text_param printed quoted S world backups "dst" "" params == "")
            (IsGatedMove params store) _ _ (inl refl)
            (move_passed-IsGatedMove params store
              (check_once sha256_hex as_tuple caller now "fs.move") (approval_checker params used) _
              (check_once-result sha256_hex as_tuple caller now "fs.move") refl))

    -- A call of fs.delete or fs.move, whatever the file system does, has no effect, or it trashes
    -- what its `path` resolves to, or moves `src` to `dst`; then `_is_storage` holds of none of
    -- its paths, the approval check ran and let the call pass if one of them, or what it resolves
    -- to, is protected or `agent_bridge` holds (for fs.move it defaults to whether a path is
    -- protected), and a version of the bytes that were read from the file is in the backup store:
    -- for fs.move of the source, whose history is renamed after that, and before it of the
    -- destination, if there was one.
    pub handle_fs_move_delete-IsGated :
        (params : Fields) (used : UsedIds) (store : S)
        → IsGatedDelete params store (
            handle_fs_delete printed quoted S world backups sha256_hex as_tuple caller now params
              used store)
          × IsGatedMove params store (
              handle_fs_move printed quoted S world backups sha256_hex as_tuple caller now params
                used store)
    unfolding handle_fs_delete handle_fs_move
    handle_fs_move_delete-IsGated params used store = (
      delete_valid-IsGatedDelete params used store (strict_keys_error params delete_keys []),
      move_valid-IsGatedMove params used store (strict_keys_error params move_keys []),
    )
