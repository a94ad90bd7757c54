-- ===== src/Files/Move/Kept.antt =====
-- commands/fs_move_delete.py: the captures of a call that moves or deletes a file.
use openclaw_hass_node.Prelude.{
  String, ◌<>◌, ◌≡◌, refl, ap, sym, ◌∙◌, Bool, true, false, none, some, [], if◌then◌else◌, ◌⊎◌, inl,
  inr,
}
use openclaw_hass_node.Value.{Value, Fields}
use openclaw_hass_node.Policy.Marker.Checker.{Checker}
use openclaw_hass_node.Files.Lines.{Bytes}
use openclaw_hass_node.Files.Backup.{delete, move_src, move_dst, Outcome, returned, raised, Version}
use openclaw_hass_node.Files.Write.{Reading, contents, absent, outside, os_error, World, Backups}
use openclaw_hass_node.Files.Write.Admitted.{HasCapture}
use openclaw_hass_node.Files.Move.{
  Moving, replaced, escaped, cross_device, move_failed, Trashing, trashed_to, trash_failed,
  FileWorld, moved, trashed, Moved, target_of, text_param, delete_trashed, delete_captured,
  delete_read, move_replaced, move_captured, move_source, dst_captured, move_over,
}

module _ (printed : Value → String) (quoted : String → String) (S : Type 0) (world : FileWorld)
    (backups : Backups S) where
  -- fs.delete
  abbrev pub IsDeletion : Checker → S → String → Moved S → Type 0
  IsDeletion checker store path d =
      (d.effect ≡ none)
      ⊎ ((d.effect ≡ some (trashed (target_of path (World.resolve (FileWorld.world world) path))))
          × (d.checker ≡ checker)
          × ((prior_bytes : Bytes) × (World.read (FileWorld.world world) path
                ≡ contents prior_bytes)
              × HasCapture quoted S (FileWorld.world world) backups path prior_bytes store d.store))

  delete_trashed-effect :
      (checker : Checker) (path real : String) (store : S) (v : Version) (t : Trashing)
      → let d = delete_trashed printed quoted S world backups checker path real store v t in
        (d.effect ≡ none)
        ⊎ ((d.effect ≡ some (trashed real)) × (d.checker ≡ checker) × (d.store ≡ store))
  delete_trashed-effect checker path real store v (trash_failed reason) = inl refl
  delete_trashed-effect checker path real store v (trashed_to place) = inr (refl, refl, refl)

  delete_captured-effect :
      (checker : Checker) (path real : String) (before : S) (prior_bytes : Bytes)
      (proposal_id actor : String) (r : S × Outcome Version)
      → Backups.capture backups before path prior_bytes proposal_id delete actor ≡ r
      → let d = delete_captured printed quoted S world backups checker path real r in
        (d.effect ≡ none)
        ⊎ ((d.effect ≡ some (trashed real))
            × (d.checker ≡ checker)
            × HasCapture quoted S (FileWorld.world world) backups path prior_bytes before d.store)
  delete_captured-effect checker path real before prior_bytes proposal_id actor (store, raised e)
        h =
      inl refl
  delete_captured-effect checker path real before prior_bytes proposal_id actor (store, returned v)
        h =
      elim (delete_trashed-effect checker path real store v (FileWorld.trash_file world real)) [
        | inl e ↦ inl e
        | inr (w, c, s) ↦ inr (
          w,
          c,
          (proposal_id, delete, actor, v, h ∙ ap (λ (after : S). (after, returned v)) (sym s)),
        )
      ]

  pub delete_read-IsDeletion :
      (params : Fields) (checker : Checker) (store : S) (path : String) (r : Reading)
      → World.read (FileWorld.world world) path ≡ r
      → IsDeletion checker store path
          (delete_read printed quoted S world backups params checker store path r)
  delete_read-IsDeletion params checker store path (contents prior_bytes) h =
      elim (delete_captured-effect checker path
        (target_of path (World.resolve (FileWorld.world world) path)) store prior_bytes
        (text_param printed quoted S world backups "proposal_id" "direct" params)
        (text_param printed quoted S world backups "actor" "agent" params) _ refl) [
          | inl e ↦ inl e
          | inr (w, c, k) ↦ inr (w, c, (prior_bytes, h, k))
        ]
  delete_read-IsDeletion params checker store path absent h = inl refl
  delete_read-IsDeletion params checker store path outside h = inl refl
  delete_read-IsDeletion params checker store path (os_error reason) h = inl refl

  -- fs.move: the capture of the source, and the history that is renamed after the replacement
  abbrev pub SourceKept : String → String → S → S → Type 0
  SourceKept src dst before final =
      (bytes : Bytes) × (after : S) × (World.read (FileWorld.world world) src ≡ contents bytes)
      × HasCapture quoted S (FileWorld.world world) backups src bytes before after
      × (final ≡ (Backups.rename_history backups after src dst).0)

  -- The capture of the destination; without one, there was no destination.
  abbrev pub DstKept : String → S → S → Type 0
  DstKept dst before after =
      ((FileWorld.exists world (target_of dst (World.resolve (FileWorld.world world) dst)) ≡ false)
        × (after ≡ before))
      ⊎ ((bytes : Bytes) × ((World.read (FileWorld.world world) dst ≡ contents bytes)
            ⊎ ((World.read (FileWorld.world world) dst ≡ absent) × (bytes ≡ [])))
          × HasCapture quoted S (FileWorld.world world) backups dst bytes before after)

  abbrev pub IsMove : Checker → String → String → Moved S → (S → Type 0) → Type 0
  IsMove checker src dst d IsKept =
      (d.effect ≡ none)
      ⊎ ((d.effect ≡ some (moved src dst)) × (d.checker ≡ checker) × IsKept d.store)

  move_replaced-IsMove :
      (checker : Checker) (src dst : String) (bytes : Bytes) (store : S) (m : Moving)
      → IsMove checker src dst
          (move_replaced printed quoted S world backups checker src dst bytes store m)
          (λ final. final ≡ (Backups.rename_history backups store src dst).0)
  move_replaced-IsMove checker src dst bytes store escaped = inl refl
  move_replaced-IsMove checker src dst bytes store cross_device = inl refl
  move_replaced-IsMove checker src dst bytes store (move_failed reason) = inl refl
  move_replaced-IsMove checker src dst bytes store replaced = inr (refl, refl, refl)

  move_captured-IsMove :
      (checker : Checker) (src dst : String) (bytes : Bytes) (before : S)
      (proposal_id actor : String) (r : S × Outcome Version)
      → World.read (FileWorld.world world) src ≡ contents bytes
      → Backups.capture backups before src bytes proposal_id move_src actor ≡ r
      → IsMove checker src dst
          (move_captured printed quoted S world backups checker src dst bytes r)
          (λ final. SourceKept src dst before final)
  move_captured-IsMove checker src dst bytes before proposal_id actor (store, raised e) g h =
      inl refl
  move_captured-IsMove checker src dst bytes before proposal_id actor (store, returned v) g h =
      elim (move_replaced-IsMove checker src dst bytes store
        (FileWorld.replace_file world src dst)) [
          | inl e ↦ inl e
          | inr (w, c, s) ↦ inr (w, c, (bytes, store, g, (proposal_id, move_src, actor, v, h), s))
        ]

  move_source-IsMove :
      (params : Fields) (checker : Checker) (src dst : String) (before : S) (r : Reading)
      → World.read (FileWorld.world world) src ≡ r
      → IsMove checker src dst
          (move_source printed quoted S world backups params checker src dst before r)
          (λ final. SourceKept src dst before final)
  move_source-IsMove params checker src dst before (contents bytes) h =
      move_captured-IsMove checker src dst bytes before
        (text_param printed quoted S world backups "proposal_id" "direct" params)
        (text_param printed quoted S world backups "actor" "agent" params) _ h refl
  move_source-IsMove params checker src dst before absent h = inl refl
  move_source-IsMove params checker src dst before outside h = inl refl
  move_source-IsMove params checker src dst before (os_error reason) h = inl refl

  -- Both captures.
  abbrev pub BothKept : String → String → S → S → Type 0
  BothKept src dst store final =
      (middle : S) × DstKept dst store middle × SourceKept src dst middle final

  pub move_from-IsMove :
      (params : Fields) (checker : Checker) (src dst : String) (store middle : S)
      → DstKept dst store middle
      → IsMove checker src dst
          (move_source printed quoted S world backups params checker src dst middle
            (World.read (FileWorld.world world) src))
          (λ final. BothKept src dst store final)
  move_from-IsMove params checker src dst store middle k =
      elim (move_source-IsMove params checker src dst middle
        (World.read (FileWorld.world world) src) refl) [
          | inl e ↦ inl e
          | inr (w, c, s) ↦ inr (w, c, (middle, k, s))
        ]

  dst_captured-IsMove :
      (params : Fields) (checker : Checker) (src dst : String) (store : S) (bytes : Bytes)
      (proposal_id actor : String) (r : S × Outcome Version)
      → (World.read (FileWorld.world world) dst ≡ contents bytes)
        ⊎ ((World.read (FileWorld.world world) dst ≡ absent) × (bytes ≡ []))
      → Backups.capture backups store dst bytes proposal_id move_dst actor ≡ r
      → IsMove checker src dst
          (dst_captured printed quoted S world backups params checker src dst r)
          (λ final. BothKept src dst store final)
  dst_captured-IsMove params checker src dst store bytes proposal_id actor (middle, raised e) g h =
      inl refl
  dst_captured-IsMove params checker src dst store bytes proposal_id actor (middle, returned v) g
        h =
      move_from-IsMove params checker src dst store middle
        (inr (bytes, g, (proposal_id, move_dst, actor, v, h)))

  pub move_over-IsMove :
      (params : Fields) (checker : Checker) (src dst : String) (store : S) (r : Reading)
      → World.read (FileWorld.world world) dst ≡ r
      → IsMove checker src dst
          (move_over printed quoted S world backups params checker src dst store r)
          (λ final. BothKept src dst store final)
  move_over-IsMove params checker src dst store (contents bytes) h =
      dst_captured-IsMove params checker src dst store bytes
        ("pre-move-" <> text_param printed quoted S world backups "proposal_id" "direct" params)
        (text_param printed quoted S world backups "actor" "agent" params) _ (inl h) refl
  move_over-IsMove params checker src dst store absent h =
      dst_captured-IsMove params checker src dst store []
        ("pre-move-" <> text_param printed quoted S world backups "proposal_id" "direct" params)
        (text_param printed quoted S world backups "actor" "agent" params) _ (inr (h, refl)) refl
  move_over-IsMove params checker src dst store outside h = inl refl
  move_over-IsMove params checker src dst store (os_error reason) h = inl refl

  abbrev pub IsMoved : Checker → String → String → S → Moved S → Type 0
  IsMoved checker src dst store d =
      (d.effect ≡ some (moved src dst)) × (d.checker ≡ checker) × BothKept src dst store d.store

  -- A test, where each branch has no effect or what is asked.
  pub if-effect :
      (b : Bool) (P : Moved S → Type 0) (x y : Moved S)
      → ((b ≡ true) → (x.effect ≡ none) ⊎ P x)
      → ((b ≡ false) → (y.effect ≡ none) ⊎ P y)
      → let d = if b then x else y in (d.effect ≡ none) ⊎ P d
  if-effect true P x y f g = f refl
  if-effect false P x y f g = g refl
