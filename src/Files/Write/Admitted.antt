-- ===== src/Files/Write/Admitted.antt =====
-- commands/fs_write.py: what a call has passed before it writes, and the capture before the write.
use openclaw_hass_node.Prelude.{
  ℕ, String, ◌≡◌, refl, ap, sym, ◌∙◌, subst, Bool, true, false, ◌||◌, Option, none, some, [],
  if◌then◌else◌, ◌⊎◌, inl, inr, Option-cases,
}
use openclaw_hass_node.Value.{Fields}
use openclaw_hass_node.Caller.{Caller}
use openclaw_hass_node.Policy.Canonical.{DecimalTuple}
use openclaw_hass_node.Policy.Marker.Checker.{Checker, check_once}
use openclaw_hass_node.Files.Lines.{Bytes}
use openclaw_hass_node.Files.Backup.{Op, Outcome, returned, raised, Version}
use openclaw_hass_node.Files.Write.{
  is_protected, is_storage, Target, target, no_allowed_roots, out_of_bounds, Reading, contents,
  absent, outside, os_error, Writing, done, refused_path, failed_write, World, Backups, Done, Job,
  write_bytes, after_capture, capture_and_write, check_if, pass_target, pass_gates,
}

-- The check answers what it remembers.
pub check_once-result :
    (sha256_hex : String → String) (as_tuple : ℕ → DecimalTuple) (caller : Option Caller) (now : ℕ)
    (command : String) (c : Checker)
    → (check_once sha256_hex as_tuple caller now command c).1.result
      ≡ some (check_once sha256_hex as_tuple caller now command c).0
unfolding check_once
check_once-result sha256_hex as_tuple caller now command c = elim (Option-cases c.result) [
  | inl e ↦ rw (e) refl
  | inr (answer, e) ↦ rw (e) refl
]

module _ (quoted : String → String) (S : Type 0) (world : World) (backups : Backups S) where
  -- The resolved path is protected.
  abbrev pub leads_to_protected : Target → Bool
  leads_to_protected (target real) = is_protected real
  leads_to_protected no_allowed_roots = false
  leads_to_protected out_of_bounds = false

  -- The store afterwards has a capture of the bytes that were read; where there was no file, it is as it
  -- was, or has a capture of no bytes.
  abbrev pub HasCapture : String → Bytes → S → S → Type 0
  HasCapture path prior_bytes before after =
      (proposal_id : String) × (op : Op) × (actor : String) × (v : Version) × (Backups.capture
          backups before path prior_bytes proposal_id op actor
        ≡ (after, returned v))

  abbrev pub IsCaptured : String → Reading → S → S → Type 0
  IsCaptured path (contents prior_bytes) before after = HasCapture path prior_bytes before after
  IsCaptured path absent before after = (after ≡ before) ⊎ HasCapture path [] before after
  IsCaptured path outside before after = false ≡ true
  IsCaptured path (os_error reason) before after = false ≡ true

  -- No write, or one of the path, with the check as it was.
  abbrev pub IsTail : Checker → S → String → Done S → Type 0
  IsTail checker store path d =
      (d.written ≡ none)
      ⊎ ((bytes : Bytes) × (d.written ≡ some (path, bytes))
          × (d.checker ≡ checker)
          × IsCaptured path (World.read world path) store d.store)

  pub if-IsTail :
      (b : Bool) (checker : Checker) (store : S) (path : String) (x y : Done S)
      → IsTail checker store path x
      → IsTail checker store path y
      → IsTail checker store path (if b then x else y)
  if-IsTail true checker store path x y f g = f
  if-IsTail false checker store path x y f g = g

  write_bytes-written :
      (job : Job) (checker : Checker) (store : S) (path : String) (bytes : Bytes) (reply : Fields)
      (w : Writing)
      → let d = write_bytes quoted S world backups job checker store path bytes reply w in
        (d.written ≡ none)
        ⊎ ((d.written ≡ some (path, bytes)) × (d.checker ≡ checker) × (d.store ≡ store))
  write_bytes-written job checker store path bytes reply done = inr (refl, refl, refl)
  write_bytes-written job checker store path bytes reply refused_path = inl refl
  write_bytes-written job checker store path bytes reply (failed_write reason) = inl refl

  after_capture-written :
      (job : Job) (checker : Checker) (before : S) (path : String) (prior_bytes bytes : Bytes)
      (reply : Fields) (r : S × Outcome Version)
      → Backups.capture backups before path prior_bytes
          (Job.proposal_id job)
          (Job.op job)
          (Job.actor job)
        ≡ r
      → let d = after_capture quoted S world backups job checker path bytes reply r in
        (d.written ≡ none)
        ⊎ ((d.written ≡ some (path, bytes))
            × (d.checker ≡ checker)
            × HasCapture path prior_bytes before d.store)
  after_capture-written job checker before path prior_bytes bytes reply (store, raised e) h =
      inl refl
  after_capture-written job checker before path prior_bytes bytes reply (store, returned v) h =
      elim (write_bytes-written job checker store path bytes reply
        (World.write_file world path bytes)) [
          | inl e ↦ inl e
          | inr (w, c, s) ↦ inr (
            w,
            c,
            (
              Job.proposal_id job,
              Job.op job,
              Job.actor job,
              v,
              h ∙ ap (λ (after : S). (after, returned v)) (sym s),
            ),
          )
        ]

  -- A capture of what was read, and the write.
  pub capture_and_write-IsTail :
      (job : Job) (checker : Checker) (store : S) (path : String) (prior_bytes bytes : Bytes)
      (reply : Fields)
      → World.read world path ≡ contents prior_bytes
      → IsTail checker store path (
          capture_and_write quoted S world backups job checker store path
            (some prior_bytes)
            bytes
            reply)
  unfolding capture_and_write
  capture_and_write-IsTail job checker store path prior_bytes bytes reply h =
      let after : S =
        (capture_and_write quoted S world backups job checker store path (some prior_bytes) bytes
          reply).store in
      elim (after_capture-written job checker store path prior_bytes bytes reply _ refl) [
        | inl e ↦ inl e
        | inr (w, c, k) ↦ inr (bytes, w, c, subst (λ r. IsCaptured path r store after) (sym h) k)
      ]

  pub capture_nothing-IsTail :
      (job : Job) (checker : Checker) (store : S) (path : String) (bytes : Bytes) (reply : Fields)
      → World.read world path ≡ absent
      → IsTail checker store path
          (capture_and_write quoted S world backups job checker store path (some []) bytes reply)
  unfolding capture_and_write
  capture_nothing-IsTail job checker store path bytes reply h =
      let after : S =
        (capture_and_write quoted S world backups job checker store path (some []) bytes
          reply).store in
      elim (after_capture-written job checker store path [] bytes reply _ refl) [
        | inl e ↦ inl e
        | inr (w, c, k) ↦
            inr (bytes, w, c, subst (λ r. IsCaptured path r store after) (sym h) (inr k))
      ]

  pub write_new-IsTail :
      (job : Job) (checker : Checker) (store : S) (path : String) (bytes : Bytes) (reply : Fields)
      → World.read world path ≡ absent
      → IsTail checker store path
          (capture_and_write quoted S world backups job checker store path none bytes reply)
  unfolding capture_and_write
  write_new-IsTail job checker store path bytes reply h =
      let after : S =
        (capture_and_write quoted S world backups job checker store path none bytes reply).store in
      elim (write_bytes-written job checker store path bytes reply
        (World.write_file world path bytes)) [
          | inl e ↦ inl e
          | inr (w, c, s) ↦
              inr (bytes, w, c, subst (λ r. IsCaptured path r store after) (sym h) (inl s))
        ]

  -- What a call has passed before it writes.
  abbrev pub IsAdmitted : Bool → String → Checker → Type 0
  IsAdmitted agent_bridge path checker =
      (is_storage path ≡ false)
      × ((((is_protected path || agent_bridge) || leads_to_protected (World.resolve world path))
            ≡ false)
          ⊎ (checker.result ≡ some none))

  pub if-none :
      (b : Bool) (x : Option Fields × Checker) (error : Fields) (c after : Checker)
      → (if b then (some error, c) else x) ≡ (none, after)
      → (b ≡ false) × (x ≡ (none, after))
  if-none true x error c after h = cc
  if-none false x error c after h = (refl, h)

  module _ (check : Checker → Option Fields × Checker)
      (settles : (c : Checker) → (check c).1.result ≡ some (check c).0) where
    check_if-none :
        (needed : Bool) (c after : Checker)
        → check_if quoted S world backups needed check c ≡ (none, after)
        → ((needed ≡ false) × (after ≡ c)) ⊎ (after.result ≡ some none)
    check_if-none false c after h = inl (refl, sym (ap (λ (r : Option Fields × Checker). r.1) h))
    check_if-none true c after h =
        inr (subst (λ (r : Option Fields × Checker). r.1.result ≡ some r.0) h (settles c))

    pass_target-none :
        (needed : Bool) (c c₁ after : Checker) (path : String) (resolved : Target)
        (answer : Option Fields)
        → check_if quoted S world backups needed check c ≡ (answer, c₁)
        → pass_target quoted S world backups check path resolved (answer, c₁) ≡ (none, after)
        → ((needed || leads_to_protected resolved) ≡ false) ⊎ (after.result ≡ some none)
    pass_target-none needed c c₁ after path resolved (some denied) h₀ h = cc
    pass_target-none needed c c₁ after path no_allowed_roots none h₀ h = cc
    pass_target-none needed c c₁ after path out_of_bounds none h₀ h = cc
    pass_target-none needed c c₁ after path (target real) none h₀ h =
        elim (check_if-none (is_protected real) c₁ after h) [
          | inr r ↦ inr r
          | inl (e, same) ↦ elim (check_if-none needed c c₁ h₀) [
            | inl (f, s) ↦ inl (rw (f) e)
            | inr r ↦ inr (ap (λ (k : Checker). k.result) same ∙ r)
          ]
        ]

    pub pass_gates-IsAdmitted :
        (agent_bridge : Bool) (path : String) (c after : Checker)
        → pass_gates quoted S world backups check agent_bridge path c ≡ (none, after)
        → IsAdmitted agent_bridge path after
    unfolding pass_gates
    pass_gates-IsAdmitted agent_bridge path c after h =
        let needed = is_protected path || agent_bridge in
        let first : Option Fields × Checker = check_if quoted S world backups needed check c in
        let (e, k) =
          if-none (is_storage path)
            (pass_target quoted S world backups check path (World.resolve world path) first) _ c
            after h in
        (e, pass_target-none needed c first.1 after path (World.resolve world path) first.0 refl k)
