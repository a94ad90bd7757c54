-- ===== src/Files/Move/Admitted.antt =====
-- commands/fs_move_delete.py: what a move has passed before its effect.
use openclaw_hass_node.Prelude.{
  String, ◌≡◌, refl, ap, sym, ◌∙◌, subst, Bool, true, false, ◌||◌, Option, none, some, ◌⊎◌, inl,
  inr,
}
use openclaw_hass_node.Value.{Value, Fields}
use openclaw_hass_node.Policy.Marker.Checker.{Checker}
use openclaw_hass_node.Files.Write.{
  is_protected, is_storage, Target, target, no_allowed_roots, out_of_bounds, World, Backups,
  check_if, pass_target,
}
use openclaw_hass_node.Files.Write.Admitted.{leads_to_protected, IsAdmitted, if-none}
use openclaw_hass_node.Files.Move.{FileWorld, write_preflight, then_preflight, pass_move}

-- The check has let the call pass.
abbrev Settled : Checker → Type 0
Settled c = c.result ≡ some none

-- What a need for approval comes to.
abbrev IsMet : Bool → Checker → Type 0
IsMet needed c = (needed ≡ false) ⊎ Settled c

both-IsMet : (a b : Bool) (c : Checker) → IsMet a c → IsMet b c → IsMet (a || b) c
both-IsMet a b c (inr s) m = inr s
both-IsMet a b c (inl e) (inr s) = inr s
both-IsMet a b c (inl e) (inl f) = inl (rw (e) f)

IsMet-later :
    (a : Bool) (c after : Checker) → (Settled c → Settled after) → IsMet a c → IsMet a after
IsMet-later a c after k (inl e) = inl e
IsMet-later a c after k (inr s) = inr (k s)

module _ (printed : Value → String) (quoted : String → String) (S : Type 0) (world : FileWorld)
    (backups : Backups S) where
  module _ (check : Checker → Option Fields × Checker)
      (settles : (c : Checker) → (check c).1.result ≡ some (check c).0) where
    check_if-passed :
        (needed : Bool) (c after : Checker)
        → check_if quoted S (FileWorld.world world) backups needed check c ≡ (none, after)
        → IsMet needed after × (Settled c → Settled after)
    check_if-passed false c after h =
        (inl refl, λ s. sym (ap (λ (r : Option Fields × Checker). r.1.result) h) ∙ s)
    check_if-passed true c after h =
        let s = subst (λ (r : Option Fields × Checker). r.1.result ≡ some r.0) h (settles c) in
        (inr s, λ k. s)

    pass_target-passed :
        (path : String) (resolved : Target) (answer : Option Fields) (c after : Checker)
        → pass_target quoted S (FileWorld.world world) backups check path resolved (answer, c)
          ≡ (none, after)
        → (answer ≡ none)
          × IsMet (leads_to_protected quoted S (FileWorld.world world) backups resolved) after
          × (Settled c → Settled after)
    pass_target-passed path resolved (some denied) c after h = cc
    pass_target-passed path no_allowed_roots none c after h = cc
    pass_target-passed path out_of_bounds none c after h = cc
    pass_target-passed path (target real) none c after h =
        let (m, k) = check_if-passed (is_protected real) c after h in (refl, m, k)

    write_preflight-passed :
        (agent_bridge : Bool) (path : String) (c after : Checker)
        → write_preflight printed quoted S world backups check agent_bridge path c ≡ (none, after)
        → (is_storage path ≡ false)
          × IsMet (is_protected path || agent_bridge) after
          × (Settled c → Settled after)
    unfolding write_preflight
    write_preflight-passed agent_bridge path c after h =
        let needed = is_protected path || agent_bridge in
        let (e, k) =
          if-none quoted S (FileWorld.world world) backups (is_storage path)
            (check_if quoted S (FileWorld.world world) backups needed check c) _ c after h in
        let (m, l) = check_if-passed needed c after k in (e, m, l)

    then_preflight-passed :
        (agent_bridge : Bool) (path : String) (answer : Option Fields) (c after : Checker)
        → then_preflight printed quoted S world backups check agent_bridge path (answer, c)
          ≡ (none, after)
        → (answer ≡ none)
          × (is_storage path ≡ false)
          × IsMet (is_protected path || agent_bridge) after
          × (Settled c → Settled after)
    then_preflight-passed agent_bridge path (some denied) c after h = cc
    then_preflight-passed agent_bridge path none c after h =
        let (e, m, k) = write_preflight-passed agent_bridge path c after h in (refl, e, m, k)

    -- The four checks of a move.
    pub pass_move-IsAdmitted :
        (agent_bridge : Bool) (src dst : String) (c after : Checker)
        → pass_move printed quoted S world backups check agent_bridge src dst c ≡ (none, after)
        → IsAdmitted quoted S (FileWorld.world world) backups agent_bridge src after
          × IsAdmitted quoted S (FileWorld.world world) backups agent_bridge dst after
    unfolding pass_move
    pass_move-IsAdmitted agent_bridge src dst c after h =
        let a : Option Fields × Checker =
          write_preflight printed quoted S world backups check agent_bridge src c in
        let b : Option Fields × Checker =
          then_preflight printed quoted S world backups check agent_bridge dst a in
        let d : Option Fields × Checker =
          pass_target quoted S (FileWorld.world world) backups check src
            (World.resolve (FileWorld.world world) src) b in
        let (d₀, dst_real, to_after) =
          pass_target-passed dst (World.resolve (FileWorld.world world) dst) d.0 d.1 after h in
        let (b₀, src_real, to_d) =
          pass_target-passed src (World.resolve (FileWorld.world world) src) b.0 b.1 d.1
            (ap (λ (o : Option Fields). (o, d.1)) d₀) in
        let (a₀, dst_plain, dst_met, to_b) =
          then_preflight-passed agent_bridge dst a.0 a.1 b.1
            (ap (λ (o : Option Fields). (o, b.1)) b₀) in
        let (src_plain, src_met, to_a) =
          write_preflight-passed agent_bridge src c a.1 (ap (λ (o : Option Fields). (o, a.1)) a₀) in
        let b_to_after : Settled b.1 → Settled after = λ s. to_after (to_d s) in
        (
          (
            src_plain,
            both-IsMet (is_protected src || agent_bridge) _ after
                (IsMet-later (is_protected src || agent_bridge) a.1 after (λ s. b_to_after (to_b s))
                  src_met)
                (IsMet-later
                  (leads_to_protected quoted S (FileWorld.world world) backups
                    (World.resolve (FileWorld.world world) src))
                  d.1 after to_after src_real),
          ),
          (
            dst_plain,
            both-IsMet (is_protected dst || agent_bridge) _ after
                (IsMet-later (is_protected dst || agent_bridge) b.1 after b_to_after dst_met)
                dst_real,
          ),
        )
